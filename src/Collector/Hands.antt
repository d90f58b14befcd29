-- ===== src/Collector/Hands.antt =====
-- Sums over the places of the workers and over the entries of the queue.
use Prim.{absurd}
use mathlib.Core.Path.{ap₂}
use aiotest.Prelude.{
  ℕ, zero, suc, ◌+◌, ◌^◌, ◌*◌, ◌≤◌, ◌<◌, length, ◌≡◌, refl, ap, Option, none, some, List, [], ◌∷◌,
  ◌++◌, ◌==◌, get_elem?, if◌then◌else◌, arith,
}
use aiotest.Engine.{Engine}
use aiotest.Collector.{
  Shared, System, advance, Pc, testing, popping, through, holding, returning, set_pc, all_at,
}

abbrev pub total : (Pc → ℕ) → List Pc → ℕ
total w [] = 0
total w (p ∷ ps) = w p + total w ps

pub total-set :
    (w : Pc → ℕ) (ps : List Pc) (i : ℕ) (p q : Pc)
    → get_elem? ps i ≡ some p
    → total w (set_pc ps i q) + w p ≡ total w ps + w q
total-set w [] i p q e = ground (arith, e)
total-set w (r ∷ ps) zero p q e = ground (arith, e)
total-set w (r ∷ ps) (suc i) p q e = omega (arith, total-set w ps i p q e)

pub le-total :
    (w : Pc → ℕ) (ps : List Pc) (i : ℕ) (p : Pc) → get_elem? ps i ≡ some p → w p ≤ total w ps
le-total w [] i p e = ground (arith, e)
le-total w (r ∷ ps) zero p e = ground (arith, e)
le-total w (r ∷ ps) (suc i) p e = omega (arith, le-total w ps i p e)

-- Whether a worker has the node in its hands.
abbrev pub carries : ℕ → Pc → ℕ
carries x (holding y) = if x == y then 1 else 0
carries x (returning y) = if x == y then 1 else 0
carries x testing = 0
carries x popping = 0
carries x through = 0

-- The size of the node in a worker's hands.
abbrev pub carried : (bits : ℕ → ℕ) → Pc → ℕ
carried bits (holding y) = 2 ^ bits y
carried bits (returning y) = 2 ^ bits y
carried bits testing = 0
carried bits popping = 0
carried bits through = 0

-- How often a node stands in the queue.
abbrev pub entries : ℕ → List (Option ℕ) → ℕ
entries x [] = 0
entries x (none ∷ c) = entries x c
entries x (some y ∷ c) = (if x == y then 1 else 0) + entries x c

-- The sizes of the nodes in the queue.
abbrev pub budget : (bits : ℕ → ℕ) → List (Option ℕ) → ℕ
budget bits [] = 0
budget bits (none ∷ c) = budget bits c
budget bits (some y ∷ c) = 2 ^ bits y + budget bits c

pub entries-append :
    (x : ℕ) (c d : List (Option ℕ)) → entries x (c ++ d) ≡ entries x c + entries x d
entries-append x [] d = omega arith
entries-append x (none ∷ c) d = entries-append x c d
entries-append x (some y ∷ c) d = omega (arith, entries-append x c d)

pub budget-append :
    (bits : ℕ → ℕ) (c d : List (Option ℕ)) → budget bits (c ++ d) ≡ budget bits c + budget bits d
budget-append bits [] d = omega arith
budget-append bits (none ∷ c) d = budget-append bits c d
budget-append bits (some y ∷ c) d = omega (arith, budget-append bits c d)

pub carries-carried :
    (bits : ℕ → ℕ) (x : ℕ) (p : Pc) → carries x p ≡ 1 → 2 ^ bits x ≡ carried bits p
carries-carried bits x (holding y) c = ap (λ z. 2 ^ bits z) (ground (arith, c))
carries-carried bits x (returning y) c = ap (λ z. 2 ^ bits z) (ground (arith, c))
carries-carried bits x testing c = ground (arith, c)
carries-carried bits x popping c = ground (arith, c)
carries-carried bits x through c = ground (arith, c)

-- The step of a worker that there is.
pub advance_at :
    {E : Engine} (move : Shared E → Pc → Shared E × Pc) (i : ℕ) (s : System E) (p : Pc)
    → get_elem? s.workers i ≡ some p
    → advance move i s
      ≡ record { shared = (move s.shared p).0; workers = set_pc s.workers i (move s.shared p).1 }
unfolding advance
advance_at move i s p e = rw (e, advance) refl

pub length-set_pc : (ps : List Pc) (i : ℕ) (p : Pc) → length (set_pc ps i p) ≡ length ps
length-set_pc [] i p = refl
length-set_pc (q ∷ ps) zero p = refl
length-set_pc (q ∷ ps) (suc i) p = omega (arith, length-set_pc ps i p)

-- All workers are at one place.
pub all_at_lem :
    (n : ℕ) (ps : List Pc) (p : Pc)
    → length ps ≡ n
    → ((i : ℕ) → i < n → get_elem? ps i ≡ some p)
    → ps ≡ all_at p n
all_at_lem zero [] p e h = refl
all_at_lem zero (q ∷ ps) p e h = ground (arith, e)
all_at_lem (suc n) [] p e h = ground (arith, e)
all_at_lem (suc n) (q ∷ ps) p e h =
    ap₂ ◌∷◌ (ground (arith, h 0 (omega arith)))
      (all_at_lem n ps p (omega (arith, e)) (λ i lt. h (suc i) (omega (arith, lt))))

pub length-all_at : (p : Pc) (n : ℕ) → length (all_at p n) ≡ n
length-all_at p zero = refl
length-all_at p (suc n) = omega (arith, length-all_at p n)

pub get_elem?-all_at : (p : Pc) (n i : ℕ) → i < n → get_elem? (all_at p n) i ≡ some p
get_elem?-all_at p zero i h = absurd (omega (arith, h))
get_elem?-all_at p (suc n) zero h = refl
get_elem?-all_at p (suc n) (suc i) h = get_elem?-all_at p n i (omega (arith, h))

pub total_each : (w : Pc → ℕ) (p : Pc) (n : ℕ) → total w (all_at p n) ≡ n * w p
total_each w p zero = omega arith
total_each w p (suc n) = ground (arith, total_each w p n)

-- The workers that are through.
abbrev pub passed : Pc → ℕ
passed through = 1
passed testing = 0
passed popping = 0
passed (holding x) = 0
passed (returning x) = 0
