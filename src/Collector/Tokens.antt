-- ===== src/Collector/Tokens.antt =====
-- The null pointers in the queue, by which the flushing phase ends: which nodes stand before the last one.
use Prim.{absurd}
use aiotest.Prelude.{
  ℕ, zero, suc, ◌+◌, ◌≤◌, ◌<◌, ◌≡◌, refl, Option, none, some, List, [], ◌∷◌, ◌++◌, ◌==◌, ltb,
  length, if◌then◌else◌, arith,
}
use aiotest.Collector.{push_nulls}
use aiotest.Collector.Hands.{entries, entries-append, budget}
use aiotest.Collector.Steps.{budget-push_nulls}

abbrev pub nulls : List (Option ℕ) → ℕ
nulls [] = 0
nulls (none ∷ c) = suc (nulls c)
nulls (some y ∷ c) = nulls c

-- How often a node stands before the last null.
abbrev pub waiting : ℕ → List (Option ℕ) → ℕ
waiting x [] = 0
waiting x (none ∷ c) = waiting x c
waiting x (some y ∷ c) = (if x == y then (if ltb 0 (nulls c) then 1 else 0) else 0) + waiting x c

-- How many nodes stand before the last null.
abbrev pub front : List (Option ℕ) → ℕ
front [] = 0
front (none ∷ c) = front c
front (some y ∷ c) = (if ltb 0 (nulls c) then 1 else 0) + front c

nulls-append : (c d : List (Option ℕ)) → nulls (c ++ d) ≡ nulls c + nulls d
nulls-append [] d = omega arith
nulls-append (none ∷ c) d = omega (arith, nulls-append c d)
nulls-append (some y ∷ c) d = nulls-append c d

pub nulls-push_nulls : (n : ℕ) (c : List (Option ℕ)) → nulls (push_nulls n c) ≡ n + nulls c
unfolding push_nulls
nulls-push_nulls zero c = omega arith
nulls-push_nulls (suc n) c =
    omega (arith, nulls-push_nulls n (c ++ none ∷ []), nulls-append c (none ∷ []))

-- A node that is put back stands behind all nulls.
module _ (x y : ℕ) where
  pub nulls-back : (c : List (Option ℕ)) → nulls (c ++ some y ∷ []) ≡ nulls c
  nulls-back c = omega (arith, nulls-append c (some y ∷ []))

  pub waiting-back : (c : List (Option ℕ)) → waiting x (c ++ some y ∷ []) ≡ waiting x c
  waiting-back [] = ground arith
  waiting-back (none ∷ c) = waiting-back c
  waiting-back (some z ∷ c) = rw (nulls-back c, waiting-back c) refl

  pub front-back : (c : List (Option ℕ)) → front (c ++ some y ∷ []) ≡ front c
  front-back [] = ground arith
  front-back (none ∷ c) = front-back c
  front-back (some z ∷ c) = rw (nulls-back c, front-back c) refl

pub waiting-le : (x : ℕ) (c : List (Option ℕ)) → waiting x c ≤ entries x c
waiting-le x [] = omega arith
waiting-le x (none ∷ c) = waiting-le x c
waiting-le x (some z ∷ c) = ground (arith, waiting-le x c)

-- Each node counted once.
abbrev each : ℕ → ℕ
each y = 0

front-le-budget : (c : List (Option ℕ)) → front c ≤ budget each c
front-le-budget [] = omega arith
front-le-budget (none ∷ c) = front-le-budget c
front-le-budget (some z ∷ c) = ground (arith, front-le-budget c)

budget-le-length : (c : List (Option ℕ)) → budget each c ≤ length c
budget-le-length [] = omega arith
budget-le-length (none ∷ c) = omega (arith, budget-le-length c)
budget-le-length (some z ∷ c) = omega (arith, budget-le-length c)

pub front-push_nulls : (n : ℕ) (c : List (Option ℕ)) → front (push_nulls n c) ≤ length c
front-push_nulls n c =
    omega (arith, front-le-budget (push_nulls n c), budget-push_nulls each n c, budget-le-length c)

pub waiting_none : (x : ℕ) (c : List (Option ℕ)) → nulls c ≡ 0 → waiting x c ≡ 0
waiting_none x [] e = refl
waiting_none x (none ∷ c) e = absurd (omega (arith, e))
waiting_none x (some z ∷ c) e = ground (arith, e, waiting_none x c e)

waiting-null : (x : ℕ) (c : List (Option ℕ)) → waiting x (c ++ none ∷ []) ≡ entries x c
waiting-null x [] = refl
waiting-null x (none ∷ c) = waiting-null x c
waiting-null x (some z ∷ c) = ground (arith, waiting-null x c, nulls-append c (none ∷ []))

waiting-push :
    (x n : ℕ) (c : List (Option ℕ)) → waiting x (push_nulls n (c ++ none ∷ [])) ≡ entries x c
unfolding push_nulls
waiting-push x zero c = waiting-null x c
waiting-push x (suc n) c =
    omega (arith, waiting-push x n (c ++ none ∷ []), entries-append x c (none ∷ []))

-- At the start of the phase every node stands before the last null.
pub waiting-push_nulls :
    (x n : ℕ) (c : List (Option ℕ)) → 0 < n → waiting x (push_nulls n c) ≡ entries x c
unfolding push_nulls
waiting-push_nulls x zero c h = absurd (omega (arith, h))
waiting-push_nulls x (suc n) c h = waiting-push x n c
