-- ===== src/Worker/Levels/Arrival.antt =====
-- The sync of a request on its way down a tree of include/backup/BTree.hpp: when it comes to the leaves.
use aiotest.Prelude.{
  ℕ, zero, suc, ◌+◌, ◌-◌, ◌≤◌, ◌<◌, ◌≡◌, refl, ap, subst, sym, ◌∙◌, ◌&&◌, ◌==◌, List, [], ◌∷◌, ◌++◌,
  length, length-append, if◌then◌else◌, arith,
}
use aiotest.Queue.{pulled, unpulled}
use mathlib.Core.List.{append_assoc}
use aiotest.Worker.Levels.{
  Job, work, notice, Root, asks, ends, at_root, spawn, run_jobs, submit, round, Event, submits,
  goes_round, after,
}
use aiotest.Worker.Levels.Counts.{lowest}

-- `n` rounds after the events, in the i-th of which the tasks push as `kids i` says.
abbrev pub rounds_more : (n : ℕ) → (kids : ℕ → ℕ → ℕ) → List Event → List Event
rounds_more zero kids es = es
rounds_more (suc n) kids es = goes_round (kids n) ∷ rounds_more n kids es

-- `n` roots taken
taken : ℕ → List Root → List Root
taken zero ps = ps
taken (suc n) ps = unpulled (taken n ps)

taken-unpulled : (n : ℕ) (ps : List Root) → taken n (unpulled ps) ≡ unpulled (taken n ps)
unfolding taken
taken-unpulled zero ps = refl
taken-unpulled (suc n) ps = ap unpulled (taken-unpulled n ps)

taken-append : (ps qs : List Root) → taken (length ps) (ps ++ qs) ≡ qs
unfolding taken
taken-append [] qs = refl
taken-append (p ∷ ps) qs = sym (taken-unpulled (length ps) (p ∷ ps ++ qs)) ∙ taken-append ps qs

module _ (top : ℕ) (kids : ℕ → ℕ → ℕ) (es : List Event) where
  pending-rounds :
      (n : ℕ) → (after top (rounds_more n kids es)).pending ≡ taken n (after top es).pending
  unfolding after round taken
  pending-rounds zero = refl
  pending-rounds (suc n) = ap unpulled (pending-rounds n)

module _ (io : ℕ) where
  -- How many syncs of the request are at the depth.
  at_depth : (d : ℕ) → List Job → ℕ
  at_depth d [] = 0
  at_depth d (work i k ∷ js) = at_depth d js
  at_depth d (notice i k ∷ js) =
      let rest = at_depth d js in if i == io && k == d then suc rest else rest

  at_depth-append :
      (d : ℕ) (xs ys : List Job) → at_depth d (xs ++ ys) ≡ at_depth d xs + at_depth d ys
  unfolding at_depth
  at_depth-append d [] ys = omega arith
  at_depth-append d (work i k ∷ xs) ys = at_depth-append d xs ys
  at_depth-append d (notice i k ∷ xs) ys = let ih = at_depth-append d xs ys in ground (arith, ih)

  -- A sync above the leaves goes down one level.
  at_depth-spawn : (d kids : ℕ) (j : Job) → at_depth (suc d) (j ∷ []) ≤ at_depth d (spawn kids j)
  unfolding at_depth
  at_depth-spawn d kids (work i k) = omega arith
  at_depth-spawn d kids (notice i zero) = ground arith
  at_depth-spawn d kids (notice i (suc k)) = ground arith

  at_depth-run :
      (d : ℕ) (kids : ℕ → ℕ) (js : List Job) → at_depth (suc d) js ≤ at_depth d (run_jobs kids js)
  unfolding at_depth
  at_depth-run d kids [] = omega arith
  at_depth-run d kids (j ∷ js) =
      let rest = at_depth-run d (λ i. kids (suc i)) js in
      omega (
        arith,
        rest,
        at_depth-spawn d (kids 0) j,
        at_depth-append d (spawn (kids 0) j) (run_jobs (λ i. kids (suc i)) js),
        at_depth-append (suc d) (j ∷ []) js,
      )

  lowest-at_depth : (top : ℕ) (js : List Job) → 0 < at_depth 0 js → lowest io top js ≡ 0
  unfolding at_depth
  lowest-at_depth top [] h = ground (arith, h)
  lowest-at_depth top (work i k ∷ js) h = lowest-at_depth top js h
  lowest-at_depth top (notice i k ∷ js) h = let ih = lowest-at_depth top js in ground (arith, ih, h)

  at_depth-rounds :
      (top : ℕ) (kids : ℕ → ℕ → ℕ) (es : List Event) (d k : ℕ)
      → k ≤ d
      → 0 < at_depth d (after top es).ready
      → 0 < at_depth (d - k) (after top (rounds_more k kids es)).ready
  unfolding after round
  at_depth-rounds top kids es d zero h there =
      subst (λ e. 0 < at_depth e (after top es).ready) (omega arith) there
  at_depth-rounds top kids es d (suc k) h there =
      let s = after top (rounds_more k kids es) in
      let ih = at_depth-rounds top kids es d k (omega (arith, h)) there in
      let next : suc (d - suc k) ≡ d - k = omega (arith, h) in
      let deeper : 0 < at_depth (suc (d - suc k)) s.ready =
        subst (λ e. 0 < at_depth e s.ready) (sym next) ih in
      omega (
        arith,
        deeper,
        at_depth-run (d - suc k) (kids k) s.ready,
        at_depth-append (d - suc k) (run_jobs (kids k) s.ready) (at_root top (pulled s.pending)),
      )

  at_depth-pulled :
      (top : ℕ) (kids : ℕ → ℕ) (es : List Event)
      → (after top es).pending ≡ ends io ∷ []
      → 0 < at_depth top (after top (goes_round kids ∷ es)).ready
  unfolding after round at_depth
  at_depth-pulled top kids es e =
      let s = after top es in
      let here : 0 < at_depth top (at_root top (pulled s.pending)) = rw e (ground arith) in
      omega
        (arith, here, at_depth-append top (run_jobs kids s.ready) (at_root top (pulled s.pending)))

-- With one worker and trees of one height, a request is submitted after any events. After as many
-- rounds as there were pending tasks before it and two more, and then one for each level below the
-- root, its sync is at the leaves in the round that comes next, however many tasks the nodes push
-- meanwhile.
pub sync-arrives :
    (top : ℕ) (es : List Event) (kids kids' : ℕ → ℕ → ℕ)
    → let s = after top es in
      lowest s.next top
        (after top (
          rounds_more top kids'
            (rounds_more (suc (suc (length s.pending))) kids (submits ∷ es)))).ready
      ≡ 0
unfolding after submit
sync-arrives top es kids kids' =
    let s = after top es in
    let before : List Root = s.pending ++ asks s.next ∷ [] in
    let count : length before ≡ suc (length s.pending) =
      omega (arith, length-append s.pending (asks s.next ∷ [])) in
    let queued : (after top (submits ∷ es)).pending ≡ before ++ ends s.next ∷ [] =
      sym (append_assoc s.pending (asks s.next ∷ []) (ends s.next ∷ [])) in
    let last : (after top (rounds_more (suc (length s.pending)) kids (submits ∷ es))).pending
        ≡ ends s.next ∷ [] =
      pending-rounds top kids (submits ∷ es) (suc (length s.pending))
      ∙ ap (taken (suc (length s.pending))) queued
      ∙ ap (λ n. taken n (before ++ ends s.next ∷ [])) (sym count)
      ∙ taken-append before (ends s.next ∷ []) in
    let pulled_in =
      at_depth-pulled s.next top (kids (suc (length s.pending)))
        (rounds_more (suc (length s.pending)) kids (submits ∷ es)) last in
    let there =
      at_depth-rounds s.next top kids'
        (rounds_more (suc (suc (length s.pending))) kids (submits ∷ es)) top top (omega arith)
        pulled_in in
    let final =
      (after top (
        rounds_more top kids'
          (rounds_more (suc (suc (length s.pending))) kids (submits ∷ es)))).ready in
    lowest-at_depth s.next top final (subst (λ d. 0 < at_depth s.next d final) (omega arith) there)
