-- ===== src/Worker/Levels/Notice.antt =====
-- The sync of a request and its tasks on their way down a tree of include/backup/BTree.hpp: which of them
-- comes first to the leaves.
use aiotest.Prelude.{
  ℕ, suc, ◌+◌, ◌-◌, ◌≤◌, ◌<◌, ◌≡◌, refl, ◌∙◌, min, max, Bool-cases, inl, inr, ◌==◌, List, [], ◌∷◌,
  ◌++◌, arith,
}
use aiotest.Queue.{pulled, unpulled}
use aiotest.Worker.Levels.{
  Job, work, notice, Root, asks, ends, Jobs, at_root, run_jobs, submit, round, Event, submits,
  goes_round, after,
}
use aiotest.Worker.Levels.Counts.{
  run_jobs-IsLower, notices-append, lowest-append, lowest-bound, reach-append, lowest-none, notices,
  lowest, behind, reach, asked, ended,
}

module _ (io : ℕ) where
  record Inv (top : ℕ) (s : Jobs) : Type 0 where
    below : reach io s.ready ≤ lowest io top s.ready
    one_ask : asked io s.pending ≤ 1
    one_end : ended io s.pending + notices io s.ready ≤ 1
    first : 0 < asked io s.pending → notices io s.ready ≡ 0
    in_order : behind io s.pending ≡ 0
    unused :
        s.next ≤ io
        → (asked io s.pending ≡ 0)
          × (ended io s.pending ≡ 0)
          × (notices io s.ready ≡ 0)
          × (reach io s.ready ≡ 0)

  -- The counts of the tasks after a round that takes `new` from the pending queue.
  record Counted (top : ℕ) (js new ks : List Job) : Type 0 where
    tasks : reach io ks ≤ max (reach io js - 1) (reach io new)
    syncs : min (lowest io top js) (suc (lowest io top new)) ≤ suc (lowest io top ks)
    fewer : notices io ks ≤ notices io js + notices io new
    still : notices io js ≡ 0 → lowest io top ks ≡ lowest io top new

  counted :
      (top : ℕ) (kids : ℕ → ℕ) (js new : List Job) → Counted top js new (run_jobs kids js ++ new)
  counted top kids js new =
      let ks = run_jobs kids js in
      let low = run_jobs-IsLower io top kids js in
      record {
        tasks = omega (arith, low.tasks, reach-append io ks new);
        syncs = omega (arith, low.syncs, lowest-append io top ks new (lowest-bound io top new));
        fewer = omega (arith, low.fewer, notices-append io ks new);
        still = λ none_there. omega (
          arith,
          lowest-none io top ks (omega (arith, low.fewer, none_there)),
          lowest-bound io top new,
          lowest-append io top ks new (lowest-bound io top new),
        );
      }

  round_lem :
      (top : ℕ) (kids : ℕ → ℕ) (ps : List Root) (js : List Job) (n : ℕ)
      → Inv top (record { pending = ps; ready = js; next = n })
      → Inv top (record {
        pending = unpulled ps;
        ready = run_jobs kids js ++ at_root top (pulled ps);
        next = n;
      })
  round_lem top kids [] js n h =
      let k = counted top kids js [] in
      record {
        below = ground (arith, h.below, k.tasks, k.syncs, lowest-bound io top js);
        one_ask = omega arith;
        one_end = ground (arith, h.one_end, k.fewer);
        first = λ some_there. ground (arith, some_there);
        in_order = refl;
        unused = λ le. ground (arith, h.unused le, k.tasks, k.fewer);
      }
  round_lem top kids (asks i ∷ ps) js n h =
      let k = counted top kids js (work i top ∷ []) in
      record {
        below = ground (arith, h.below, h.first, k.tasks, k.syncs, k.still, lowest-bound io top js);
        one_ask = ground (arith, h.one_ask);
        one_end = ground (arith, h.one_end, k.fewer);
        first = λ some_there. ground (arith, some_there, h.first, k.fewer);
        in_order = h.in_order;
        unused = λ le. ground (arith, h.unused le, k.tasks, k.fewer);
      }
  round_lem top kids (ends i ∷ ps) js n h =
      let k = counted top kids js (notice i top ∷ []) in
      record {
        below =
            ground (arith, h.below, h.one_end, k.tasks, k.syncs, k.still, lowest-bound io top js);
        one_ask = ground (arith, h.one_ask);
        one_end = ground (arith, h.one_end, k.fewer);
        first = λ some_there. ground (arith, some_there, h.first, h.in_order, k.fewer);
        in_order = ground (arith, h.in_order);
        unused = λ le. ground (arith, h.unused le, k.tasks, k.fewer);
      }

  asked-append : (xs ys : List Root) → asked io (xs ++ ys) ≡ asked io xs + asked io ys
  asked-append [] ys = omega arith
  asked-append (asks i ∷ xs) ys = let ih = asked-append xs ys in ground (arith, ih)
  asked-append (ends i ∷ xs) ys = asked-append xs ys

  ended-append : (xs ys : List Root) → ended io (xs ++ ys) ≡ ended io xs + ended io ys
  ended-append [] ys = omega arith
  ended-append (asks i ∷ xs) ys = ended-append xs ys
  ended-append (ends i ∷ xs) ys = let ih = ended-append xs ys in ground (arith, ih)

  behind-append :
      (xs ys : List Root) → asked io ys ≡ 0 → behind io ys ≡ 0 → behind io (xs ++ ys) ≡ behind io xs
  behind-append [] ys h g = g
  behind-append (asks i ∷ xs) ys h g = behind-append xs ys h g
  behind-append (ends i ∷ xs) ys h g =
      let ih = behind-append xs ys h g in ground (arith, ih, asked-append xs ys)

  behind-fresh :
      (xs ys : List Root) → asked io xs ≡ 0 → ended io xs ≡ 0 → behind io (xs ++ ys) ≡ behind io ys
  behind-fresh [] ys h g = refl
  behind-fresh (asks i ∷ xs) ys h g = behind-fresh xs ys (ground (arith, h)) g
  behind-fresh (ends i ∷ xs) ys h g = let ih = behind-fresh xs ys in ground (arith, ih, h, g)

  submit-Inv : (top : ℕ) (s : Jobs) → Inv top s → Inv top (submit s)
  unfolding submit
  submit-Inv top s h =
      let two : List Root = asks s.next ∷ ends s.next ∷ [] in
      let a = asked-append s.pending two in
      let e = ended-append s.pending two in
      record {
        below = h.below;
        one_ask = ground (arith, a, h.one_ask, h.unused);
        one_end = ground (arith, e, h.one_end, h.unused);
        first = λ some_there. ground (arith, a, some_there, h.first, h.unused);
        in_order = elim (Bool-cases (s.next == io)) [
          | inl e' ↦
              let (none_asked, none_ended, _, _) = h.unused (ground (arith, e')) in
              behind-fresh s.pending two none_asked none_ended ∙ ground (arith, e')
          | inr e' ↦
              behind-append s.pending two (ground (arith, e')) (ground (arith, e')) ∙ h.in_order
        ];
        unused = λ le. ground (arith, a, e, le, h.unused);
      }

  after-Inv : (top : ℕ) (es : List Event) → Inv top (after top es)
  unfolding after round
  after-Inv top [] = record {
    below = omega arith;
    one_ask = omega arith;
    one_end = omega arith;
    first = λ some_there. refl;
    in_order = refl;
    unused = λ le. (refl, refl, refl, refl);
  }
  after-Inv top (submits ∷ es) = submit-Inv top (after top es) (after-Inv top es)
  after-Inv top (goes_round kids ∷ es) =
      let s = after top es in round_lem top kids s.pending s.ready s.next (after-Inv top es)

-- With one worker and trees of one height, whatever requests are submitted between the rounds and
-- however many tasks the nodes push: in a round in which the sync of a request arrives at the leaves
-- and notifies, no task of that request is left, neither in this round nor in the pending queue. All of
-- them have run in earlier rounds.
pub notice-last :
    (top : ℕ) (es : List Event) (io : ℕ)
    → lowest io top (after top es).ready ≡ 0
    → (reach io (after top es).ready ≡ 0) × (asked io (after top es).pending ≡ 0)
notice-last top es io arrived =
    let h = after-Inv io top es in
    let s = after top es in
    (omega (arith, h.below, arrived), ground (arith, h.first, arrived, lowest-none io top s.ready))
