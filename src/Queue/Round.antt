-- ===== src/Queue/Round.antt =====
-- A round of one queue: what was pushed while a phase ran is what the next phase runs.
use mathlib.Core.List.{append-nil}
use aiotest.Prelude.{ℕ, ◌+◌, ◌≡◌, refl, ap, sym, ◌∙◌, List, [], ◌∷◌, ◌++◌, length}
use aiotest.Queue.{
  Queue, on_ready, on_done, pos, setup, setup_done, clear_current, roll, push_wait, push_done,
  push_pending, pulled, unpulled,
}

-- What a running task may do to the queue of its worker, and another thread to any queue.
pub data Push (A : Type 0) : Type 0 where
  for_wait for_done for_pending : A → Push A

module _ {A : Type 0} where
  abbrev push : Queue A → Push A → Queue A
  push q (for_wait a) = push_wait q a
  push q (for_done a) = push_done q a
  push q (for_pending a) = push_pending q a

  abbrev pushes : Queue A → List (Push A) → Queue A
  pushes q [] = q
  pushes q (x ∷ xs) = pushes (push q x) xs

  abbrev waits : List (Push A) → List A
  waits [] = []
  waits (for_wait a ∷ xs) = a ∷ waits xs
  waits (for_done _ ∷ xs) = waits xs
  waits (for_pending _ ∷ xs) = waits xs

  abbrev dones : List (Push A) → List A
  dones [] = []
  dones (for_wait _ ∷ xs) = dones xs
  dones (for_done a ∷ xs) = a ∷ dones xs
  dones (for_pending _ ∷ xs) = dones xs

  abbrev pendings : List (Push A) → List A
  pendings [] = []
  pendings (for_wait _ ∷ xs) = pendings xs
  pendings (for_done _ ∷ xs) = pendings xs
  pendings (for_pending a ∷ xs) = a ∷ pendings xs

  abbrev with_lists : Queue A → (wait done pending : List A) → Queue A
  with_lists q w d p = record q { wait = w; done = d; pending = p }

  snoc-append : (l : List A) (a : A) (m : List A) → (l ++ a ∷ []) ++ m ≡ l ++ a ∷ m
  snoc-append [] a m = refl
  snoc-append (x ∷ l) a m = ap (λ t. x ∷ t) (snoc-append l a m)

  pushes_lem :
      (q : Queue A) (xs : List (Push A))
      → pushes q xs
        ≡ with_lists q (q.wait ++ waits xs) (q.done ++ dones xs) (q.pending ++ pendings xs)
  unfolding push_wait push_done push_pending
  pushes_lem q [] = sym (
      ap (λ t. with_lists q t (q.done ++ []) (q.pending ++ [])) (append-nil q.wait)
      ∙ (ap (λ t. with_lists q q.wait t (q.pending ++ [])) (append-nil q.done)
          ∙ ap (λ t. with_lists q q.wait q.done t) (append-nil q.pending)))
  pushes_lem q (for_wait a ∷ xs) =
      pushes_lem (push_wait q a) xs
      ∙ ap (λ t. with_lists q t (q.done ++ dones xs) (q.pending ++ pendings xs))
          (snoc-append q.wait a (waits xs))
  pushes_lem q (for_done a ∷ xs) =
      pushes_lem (push_done q a) xs
      ∙ ap (λ t. with_lists q (q.wait ++ waits xs) t (q.pending ++ pendings xs))
          (snoc-append q.done a (dones xs))
  pushes_lem q (for_pending a ∷ xs) =
      pushes_lem (push_pending q a) xs
      ∙ ap (λ t. with_lists q (q.wait ++ waits xs) (q.done ++ dones xs) t)
          (snoc-append q.pending a (pendings xs))

  -- The ready phase with the pushes made meanwhile, its end, and the set-up of the done phase.
  abbrev pub after_ready : Queue A → List (Push A) → Queue A
  after_ready q xs = setup_done (clear_current (pushes (setup q on_ready) xs))

  -- The done phase with the pushes made meanwhile, its end, and the roll.
  abbrev pub after_done : Queue A → List (Push A) → (todo : ℕ) → Queue A × ℕ
  after_done q ys todo = roll (clear_current (pushes q ys)) todo

  abbrev done_phase : Queue A → List (Push A) → Queue A
  done_phase q xs = record {
    pending = q.pending ++ pendings xs;
    wait = q.wait ++ waits xs;
    ready = [];
    done = q.done ++ dones xs;
    remain = pos (length (q.done ++ dones xs));
    current = on_done;
  }

  -- The two phases of a round. The done phase runs what stood in `done` and what the ready phase
  -- pushed there. The next ready phase runs what stood in `wait`, what the two phases pushed there, and
  -- the oldest pending task, if there is one: nothing else is left but the younger pending tasks. Its
  -- tasks are what is added to `todo`.
  pub rounds :
      (q : Queue A) (xs ys : List (Push A)) (todo : ℕ)
      → let waited = (q.wait ++ waits xs) ++ waits ys in
        let submitted = (q.pending ++ pendings xs) ++ pendings ys in
        let next = waited ++ pulled submitted in
        ((after_ready q xs).done ≡ q.done ++ dones xs)
        × ((after_ready q xs).remain ≡ pos (length (q.done ++ dones xs)))
        × ((after_ready q xs).current ≡ on_done)
        × (after_done (after_ready q xs) ys todo ≡ (
          record {
            pending = unpulled submitted;
            wait = [];
            ready = next;
            done = [];
            remain = pos (length next);
            current = on_ready;
          },
          todo + length next,
        ))
  unfolding setup setup_done clear_current roll
  rounds q xs ys todo =
      let e : after_ready q xs ≡ done_phase q xs =
        ap (λ t. setup_done (clear_current t)) (pushes_lem (setup q on_ready) xs) in
      (
        ap (λ t. t.done) e,
        ap (λ t. t.remain) e,
        ap (λ t. t.current) e,
        ap (λ t. after_done t ys todo) e
            ∙ ap (λ t. roll (clear_current t) todo) (pushes_lem (done_phase q xs) ys),
      )
