-- ===== src/Worker/Levels/Counts.antt =====
-- How many tasks and syncs of a request there are on their way down a tree of include/backup/BTree.hpp, and
-- at which depths.
use aiotest.Prelude.{
  ℕ, zero, suc, ◌+◌, ◌-◌, ◌≤◌, ◌≡◌, refl, min, max, ◌==◌, List, [], ◌∷◌, ◌++◌, if◌then◌else◌, arith,
}
use aiotest.Worker.Levels.{Job, work, notice, Root, asks, ends, repeat, spawn, run_jobs}

module _ (io : ℕ) where
  -- One more than the greatest depth of the request's tasks, or 0 if there is none.
  abbrev pub reach : List Job → ℕ
  reach [] = 0
  reach (work i d ∷ js) = let rest = reach js in if i == io then max (suc d) rest else rest
  reach (notice i d ∷ js) = reach js

  -- The least depth of its syncs, or `top + 1`.
  abbrev pub lowest : (top : ℕ) → List Job → ℕ
  lowest top [] = suc top
  lowest top (work i d ∷ js) = lowest top js
  lowest top (notice i d ∷ js) = let rest = lowest top js in if i == io then min d rest else rest

  abbrev pub notices : List Job → ℕ
  notices [] = 0
  notices (work i d ∷ js) = notices js
  notices (notice i d ∷ js) = let rest = notices js in if i == io then suc rest else rest

  abbrev pub asked : List Root → ℕ
  asked [] = 0
  asked (asks i ∷ rs) = let rest = asked rs in if i == io then suc rest else rest
  asked (ends i ∷ rs) = asked rs

  abbrev pub ended : List Root → ℕ
  ended [] = 0
  ended (asks i ∷ rs) = ended rs
  ended (ends i ∷ rs) = let rest = ended rs in if i == io then suc rest else rest

  -- How many calls of the request stand behind its sync.
  abbrev pub behind : List Root → ℕ
  behind [] = 0
  behind (asks i ∷ rs) = behind rs
  behind (ends i ∷ rs) = let rest = behind rs in if i == io then asked rs + rest else rest

  pub reach-append : (xs ys : List Job) → reach (xs ++ ys) ≡ max (reach xs) (reach ys)
  reach-append [] ys = ground arith
  reach-append (work i d ∷ xs) ys = let ih = reach-append xs ys in ground (arith, ih)
  reach-append (notice i d ∷ xs) ys = reach-append xs ys

  pub lowest-append :
      (top : ℕ) (xs ys : List Job)
      → lowest top ys ≤ suc top
      → lowest top (xs ++ ys) ≡ min (lowest top xs) (lowest top ys)
  lowest-append top [] ys h = ground arith
  lowest-append top (work i d ∷ xs) ys h = lowest-append top xs ys h
  lowest-append top (notice i d ∷ xs) ys h =
      let ih = lowest-append top xs ys h in ground (arith, ih)

  pub notices-append : (xs ys : List Job) → notices (xs ++ ys) ≡ notices xs + notices ys
  notices-append [] ys = omega arith
  notices-append (work i d ∷ xs) ys = notices-append xs ys
  notices-append (notice i d ∷ xs) ys = let ih = notices-append xs ys in ground (arith, ih)

  pub lowest-none : (top : ℕ) (js : List Job) → notices js ≡ 0 → lowest top js ≡ suc top
  lowest-none top [] h = refl
  lowest-none top (work i d ∷ js) h = lowest-none top js h
  lowest-none top (notice i d ∷ js) h = let ih = lowest-none top js in ground (arith, ih)

  pub reach-repeat : (k i d : ℕ) → reach (repeat k (work i d)) ≤ (if i == io then suc d else 0)
  reach-repeat zero i d = ground arith
  reach-repeat (suc k) i d = let ih = reach-repeat k i d in ground (arith, ih)

  pub lowest-bound : (top : ℕ) (js : List Job) → lowest top js ≤ suc top
  lowest-bound top [] = omega arith
  lowest-bound top (work i d ∷ js) = lowest-bound top js
  lowest-bound top (notice i d ∷ js) = let ih = lowest-bound top js in ground (arith, ih)

  pub lowest-repeat : (top k i d : ℕ) → lowest top (repeat k (work i d)) ≡ suc top
  lowest-repeat top zero i d = refl
  lowest-repeat top (suc k) i d = lowest-repeat top k i d

  pub notices-repeat : (k i d : ℕ) → notices (repeat k (work i d)) ≡ 0
  notices-repeat zero i d = refl
  notices-repeat (suc k) i d = notices-repeat k i d

  -- A round takes the tasks and the sync of the request down one level.
  pub record IsLower (top : ℕ) (js ks : List Job) : Type 0 where
    pub tasks : reach ks ≤ reach js - 1
    pub syncs : lowest top js ≤ suc (lowest top ks)
    pub fewer : notices ks ≤ notices js

  pub spawn-IsLower : (top kids : ℕ) (j : Job) → IsLower top (j ∷ []) (spawn kids j)
  spawn-IsLower top kids (work i zero) = record {
    tasks = ground arith;
    syncs = ground arith;
    fewer = ground arith;
  }
  spawn-IsLower top kids (work i (suc d)) = record {
    tasks = ground (arith, reach-repeat kids i d);
    syncs = ground (arith, lowest-repeat top kids i d);
    fewer = ground (arith, notices-repeat kids i d);
  }
  spawn-IsLower top kids (notice i zero) = record {
    tasks = ground arith;
    syncs = ground arith;
    fewer = ground arith;
  }
  spawn-IsLower top kids (notice i (suc d)) = record {
    tasks = ground arith;
    syncs = ground arith;
    fewer = ground arith;
  }

  pub append-IsLower :
      (top : ℕ) (xs bs cs ds : List Job)
      → IsLower top xs bs
      → IsLower top cs ds
      → IsLower top (xs ++ cs) (bs ++ ds)
  append-IsLower top xs bs cs ds h g = record {
    tasks = omega (arith, h.tasks, g.tasks, reach-append xs cs, reach-append bs ds);
    syncs = omega (
      arith,
      h.syncs,
      g.syncs,
      lowest-append top xs cs (lowest-bound top cs),
      lowest-append top bs ds (lowest-bound top ds),
    );
    fewer = omega (arith, h.fewer, g.fewer, notices-append xs cs, notices-append bs ds);
  }

  pub run_jobs-IsLower :
      (top : ℕ) (kids : ℕ → ℕ) (js : List Job) → IsLower top js (run_jobs kids js)
  run_jobs-IsLower top kids [] = record {
    tasks = ground arith;
    syncs = ground arith;
    fewer = ground arith;
  }
  run_jobs-IsLower top kids (j ∷ js) =
      append-IsLower top (j ∷ []) (spawn (kids 0) j) js (run_jobs (λ i. kids (suc i)) js)
        (spawn-IsLower top (kids 0) j) (run_jobs-IsLower top (λ i. kids (suc i)) js)
