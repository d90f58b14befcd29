-- ===== src/Worker/Ids.antt =====
-- The global identifiers of the workers: the constructor and the destructor in include/backup/Worker.hpp
-- and src/backup/Worker.cpp, over the static pool. `live` lists the identifiers of the workers that there are.
use aiotest.Prelude.{
  ℕ, suc, ◌+◌, ◌≤◌, ◌<◌, ◌≡◌, ◌==◌, ltb, List, [], ◌∷◌, ◌++◌, if◌then◌else◌, arith,
}

pub record Pool : Type 0 where
  pub free : List ℕ  -- pool, oldest first
  pub next : ℕ  -- poolSize
  pub live : List ℕ

-- `if (!pool.pop(gid)) gid = poolSize.fetch_add(1)`, of two atomic operations
unfoldable pub construct : Pool → Pool
construct p = elim p.free [
  | [] ↦ record { free = []; next = p.next + 1; live = p.next ∷ p.live }
  | gid ∷ rest ↦ record { free = rest; next = p.next; live = gid ∷ p.live }
]

abbrev pub without : ℕ → List ℕ → List ℕ
without x [] = []
without x (y ∷ ys) = let rest = y ∷ without x ys in if x == y then ys else rest

-- `pool.push(gid)`
unfoldable pub destruct : (gid : ℕ) → Pool → Pool
destruct gid p = record p { free = p.free ++ gid ∷ []; live = without gid p.live }

abbrev pub count : ℕ → List ℕ → ℕ
count x [] = 0
count x (y ∷ ys) = let rest = count x ys in if x == y then suc rest else rest

pub data Step (p : Pool) : Pool → Type 0 where
  constructs : Step p (construct p)
  destructs : (gid : ℕ) → 0 < count gid p.live → Step p (destruct gid p)

abbrev pub at_first : Pool
at_first = record { free = []; next = 0; live = [] }

pub data Reach : Pool → Type 0 where
  initially : Reach at_first
  then_step : {p q : Pool} → Reach p → Step p q → Reach q

-- Each identifier below `next` is either free or with one worker, and no other has been given out.
abbrev IsPartition : Pool → Type 0
IsPartition p = (x : ℕ) → (count x p.free + count x p.live) ≡ (if ltb x p.next then 1 else 0)

count-append :
    (x : ℕ) (ys : List ℕ) (y : ℕ) → count x (ys ++ y ∷ []) ≡ count x ys + count x (y ∷ [])
count-append x [] y = omega arith
count-append x (z ∷ ys) y = let ih = count-append x ys y in ground (arith, ih)

pub count-without :
    (x y : ℕ) (ys : List ℕ)
    → 0 < count y ys
    → count x (without y ys) + count x (y ∷ []) ≡ count x ys
count-without x y [] h = ground (arith, h)
count-without x y (z ∷ ys) h = let ih = count-without x y ys in ground (arith, ih)

construct_lem :
    (free : List ℕ) (next : ℕ) (live : List ℕ)
    → IsPartition (record { free = free; next = next; live = live })
    → IsPartition (construct (record { free = free; next = next; live = live }))
unfolding construct
construct_lem [] next live h x = ground (arith, h x)
construct_lem (gid ∷ rest) next live h x = ground (arith, h x)

destruct-IsPartition :
    (gid : ℕ) (p : Pool) → 0 < count gid p.live → IsPartition p → IsPartition (destruct gid p)
unfolding destruct
destruct-IsPartition gid p there h x =
    omega (arith, h x, count-append x p.free gid, count-without x gid p.live there)

Step-IsPartition : {p q : Pool} → IsPartition p → Step p q → IsPartition q
Step-IsPartition {p = p} h constructs = construct_lem p.free p.next p.live h
Step-IsPartition {p = p} h (destructs gid there) = destruct-IsPartition gid p there h

Reach-IsPartition : {p : Pool} → Reach p → IsPartition p
Reach-IsPartition initially x = ground arith
Reach-IsPartition (then_step r s) x = Step-IsPartition (Reach-IsPartition r) s x

-- However workers are constructed and destroyed: no identifier is with two workers, one that is with a
-- worker is not in the pool, and no worker has one that is not below the number of those made.
pub ids-apart :
    (p : Pool)
    → Reach p
    → ((x : ℕ) → count x p.live + count x p.free ≤ 1) × ((x : ℕ) → p.next ≤ x → count x p.live ≡ 0)
ids-apart p r =
    (λ x. ground (arith, Reach-IsPartition r x), λ x le. ground (arith, Reach-IsPartition r x))
