-- ===== src/Collector/Flushing.antt =====
-- The flushing phase of all workers.
use Prim.{absurd}
use mathlib.Core.Path.{ap₂}
use aiotest.Prelude.{
  ℕ, ◌+◌, ◌*◌, ◌≤◌, ◌<◌, ◌≡◌, refl, ap, sym, subst, ◌∙◌, inl, inr, Bool, true, false, ◌&&◌, Option,
  none, some, List, [], ◌∷◌, ◌++◌, ltb, ◌==◌, ==_iff, length, get_elem?, if◌then◌else◌, Bool-cases,
  arith,
}
use aiotest.Prelude.Bytes.{Bytes}
use aiotest.Engine.{Engine}
use aiotest.Cache.{is_null}
use aiotest.Collector.{
  Shared, System, Pc, testing, popping, through, holding, returning, flush_pop, set_pc,
}
use aiotest.Collector.Hands.{total, total-set, entries, length-set_pc}
use aiotest.Collector.Accounts.{Accounts}
use aiotest.Collector.Eviction.{cleaned, Handled}
use aiotest.Collector.Tokens.{nulls, waiting, front, nulls-back, waiting-back, front-back}

abbrev pub cost : Pc → ℕ
cost popping = 1
cost (holding x) = 3
cost (returning x) = 2
cost testing = 0
cost through = 0

abbrev pub effort : {E : Engine} → System E → ℕ
effort s = 3 * front s.shared.cache + total cost s.workers

-- Workers that still pop, and workers that test a budget, as none does in this phase.
abbrev pub busy : Pc → ℕ
busy popping = 1
busy (holding x) = 1
busy (returning x) = 1
busy testing = 0
busy through = 0

abbrev pub tests : Pc → ℕ
tests testing = 1
tests popping = 0
tests (holding x) = 0
tests (returning x) = 0
tests through = 0

abbrev pub holds : ℕ → Pc → ℕ
holds x (holding y) = if x == y then 1 else 0
holds x (returning y) = 0
holds x testing = 0
holds x popping = 0
holds x through = 0

-- How often a node is still to be evicted.
abbrev pub to_do : {E : Engine} → ℕ → System E → ℕ
to_do x s = waiting x s.shared.cache + total (holds x) s.workers

-- A pop or a push by a worker that is in its loop.
pub record Quiet {E : Engine} (s : Shared E) (p : Pc) (s' : Shared E) (p' : Pc) : Type 0 where
  pub same : s' ≡ record s { cache = s'.cache }
  pub waits : (x : ℕ) → waiting x s'.cache + holds x p' ≡ waiting x s.cache + holds x p
  pub tokens : nulls s'.cache + busy p ≡ nulls s.cache + busy p'
  pub cheaper : 3 * front s'.cache + cost p' < 3 * front s.cache + cost p
  pub untested : tests p' ≡ 0

module _ {E : Engine} where
  pub pop-Quiet :
      (s : Shared E) (c : List (Option ℕ))
      → s.cache ≡ c
      → 0 < nulls c
      → Quiet s popping (flush_pop s c).0 (flush_pop s c).1
  unfolding flush_pop
  pop-Quiet s [] q h = absurd (omega (arith, h))
  pop-Quiet s (none ∷ c) q h = record {
    same = refl;
    waits = λ x. rw q (omega arith);
    tokens = rw q (omega arith);
    cheaper = rw q (omega arith);
    untested = refl;
  }
  pop-Quiet s (some y ∷ c) q h = record {
    same = refl;
    waits = λ x. rw q (ground (arith, h));
    tokens = rw q (omega arith);
    cheaper = rw q (ground (arith, h));
    untested = refl;
  }

  pub push-Quiet :
      (s : Shared E) (y : ℕ)
      → Quiet s (returning y) (record s { cache = s.cache ++ some y ∷ [] }) popping
  push-Quiet s y = record {
    same = refl;
    waits = λ x. omega (arith, waiting-back x y s.cache);
    tokens = omega (arith, nulls-back 0 y s.cache);
    cheaper = omega (arith, front-back 0 y s.cache);
    untested = refl;
  }

abbrev pub after : {E : Engine} → ℕ → System E → Shared E → Pc → System E
after i s s' p' = record { shared = s'; workers = set_pc s.workers i p' }

-- Where a worker goes after it has evicted or deleted the node in its hands.
pub record GoesOn (p : Pc) : Type 0 where
  pub is_busy : busy p ≡ 1
  pub no_test : tests p ≡ 0
  pub price : cost p < 3
  pub empty : (y : ℕ) → holds y p ≡ 0

pub Quiet-to_do :
    {E : Engine} (i : ℕ) (s : System E) (p : Pc)
    → get_elem? s.workers i ≡ some p
    → (s' : Shared E) (p' : Pc) → Quiet s.shared p s' p'
    → (x : ℕ) → to_do x (after i s s' p') ≡ to_do x s
Quiet-to_do i s p e s' p' q x = omega (arith, q.waits x, total-set (holds x) s.workers i p p' e)

-- Whether a node of the queue has been evicted already.
abbrev pub evicted : {E : Engine} → (s₀ : Shared E) → System E → ℕ → Bool
evicted s₀ s x = ltb (to_do x s) (entries x s₀.cache)

-- The phase of `n` workers that begins with the nodes of `s₀`.
module _ {E : Engine} (bits : ℕ → ℕ) (fresh : Bytes) (n : ℕ) (s₀ : Shared E)
    (once : (x : ℕ) → entries x s₀.cache ≤ 1) where
  pub record Flushing (s : System E) : Type 0 where
    pub accounts : Accounts bits s
    pub crew : length s.workers ≡ n
    pub tokens : nulls s.shared.cache ≡ total busy s.workers
    pub untested : total tests s.workers ≡ 0
    pub left : (x : ℕ) → to_do x s ≤ entries x s₀.cache
    pub pages :
        (x : ℕ) → s.shared.page x ≡ (if evicted s₀ s x then cleaned (s₀.page x) else s₀.page x)
    pub gone :
        (x : ℕ)
        → s.shared.deleted x
          ≡ (if evicted s₀ s x && is_null (s₀.page x).parent then true else s₀.deleted x)

  module _ (i : ℕ) (s : System E) (p : Pc) (e : get_elem? s.workers i ≡ some p)
      (h : Flushing s) where
    pub Quiet-turn :
        (s' : Shared E) (p' : Pc)
        → Quiet s.shared p s' p'
        → Accounts bits (after i s s' p')
        → Flushing (after i s s' p') × (effort (after i s s' p') < effort s)
    Quiet-turn s' p' q a = (
      record {
        accounts = a;
        crew = length-set_pc s.workers i p' ∙ h.crew;
        tokens = omega (arith, h.tokens, q.tokens, total-set busy s.workers i p p' e);
        untested = omega (arith, h.untested, q.untested, total-set tests s.workers i p p' e);
        left = λ x. omega (arith, h.left x, Quiet-to_do i s p e s' p' q x);
        pages = λ x. ap (λ t. t.page x) q.same ∙ rw (Quiet-to_do i s p e s' p' q x) (h.pages x);
        gone = λ x. ap (λ t. t.deleted x) q.same ∙ rw (Quiet-to_do i s p e s' p' q x) (h.gone x);
      },
      omega (arith, q.cheaper, total-set cost s.workers i p p' e),
    )

  module _ (i : ℕ) (s : System E) (x : ℕ) (e : get_elem? s.workers i ≡ some (holding x))
      (h : Flushing s) (s' : Shared E) (p' : Pc) (d : Handled s.shared x s')
      (place : GoesOn p') where
    less : (y : ℕ) → to_do y (after i s s' p') + (if y == x then 1 else 0) ≡ to_do y s
    less y = omega (
      arith,
      ap (waiting y) d.queue,
      total-set (holds y) s.workers i (holding x) p' e,
      place.empty y,
    )

    self : (x == x) ≡ true
    self = (==_iff x x).1 refl

    pub other : (y : ℕ) → (y == x) ≡ false → to_do y (after i s s' p') ≡ to_do y s
    other y q = ground (arith, less y, q)

    before : evicted s₀ s x ≡ false
    before = ground (arith, less x, self, h.left x, once x)

    pub now : evicted s₀ (after i s s' p') x ≡ true
    now = ground (arith, less x, self, h.left x, once x)

    pub old_page : s.shared.page x ≡ s₀.page x
    old_page = h.pages x ∙ ap (λ b. if b then cleaned (s₀.page x) else s₀.page x) before

    old_gone : s.shared.deleted x ≡ s₀.deleted x
    old_gone =
        h.gone x ∙ ap (λ b. if b && is_null (s₀.page x).parent then true else s₀.deleted x) before

    here_page :
        s'.page x ≡ (if evicted s₀ (after i s s' p') x then cleaned (s₀.page x) else s₀.page x)
    here_page =
        d.pages x
        ∙ ap (λ b. if b then cleaned (s.shared.page x) else s.shared.page x) self
        ∙ ap cleaned old_page
        ∙ sym (ap (λ b. if b then cleaned (s₀.page x) else s₀.page x) now)

    here_gone : s'.deleted x ≡ (
        if evicted s₀ (after i s s' p') x && is_null (s₀.page x).parent then true else s₀.deleted x)
    here_gone =
        d.gone x
        ∙ ap (λ b. if b && is_null (s.shared.page x).parent then true else s.shared.deleted x) self
        ∙ ap₂ (λ p g. if is_null p.parent then true else g) old_page old_gone
        ∙ sym (ap (λ b. if b && is_null (s₀.page x).parent then true else s₀.deleted x) now)

    pub handled_turn :
        Accounts bits (after i s s' p')
        → Flushing (after i s s' p') × (effort (after i s s' p') < effort s)
    handled_turn a = (
      record {
        accounts = a;
        crew = length-set_pc s.workers i p' ∙ h.crew;
        tokens = omega (
          arith,
          h.tokens,
          ap nulls d.queue,
          total-set busy s.workers i (holding x) p' e,
          place.is_busy,
        );
        untested =
            omega (arith, h.untested, total-set tests s.workers i (holding x) p' e, place.no_test);
        left = λ y. ground (arith, h.left y, less y);
        pages = λ y. elim (Bool-cases (y == x)) [
          | inl q ↦
              subst
                (λ z.
                  s'.page z
                  ≡ (if evicted s₀ (after i s s' p') z then cleaned (s₀.page z) else s₀.page z))
                (sym ((==_iff y x).0 q)) here_page
          | inr q ↦ rw (other y q) (d.pages y ∙ rw q (h.pages y))
        ];
        gone = λ y. elim (Bool-cases (y == x)) [
          | inl q ↦
              subst
                (λ z. s'.deleted z ≡ (
                  if evicted s₀ (after i s s' p') z && is_null (s₀.page z).parent
                  then true
                  else s₀.deleted z))
                (sym ((==_iff y x).0 q)) here_gone
          | inr q ↦ rw (other y q) (d.gone y ∙ rw q (h.gone y))
        ];
      },
      omega (arith, place.price, ap front d.queue, total-set cost s.workers i (holding x) p' e),
    )
