-- ===== src/Queue.antt =====
-- include/backup/TLQ.hpp and src/backup/TLQ.cpp: the task queue of one worker. A task is whatever `A`
-- says. `pending` is the lock-free queue through which other threads submit tasks, oldest first.
pub mod Drain
pub mod Round
use aiotest.Prelude.{
  ℕ, zero, suc, ◌+◌, Bool, true, false, Option, none, List, [], ◌∷◌, ◌++◌, length, get_elem?,
}

-- `negsuc n` is -(n + 1).
pub data ℤ : Type 0 where
  pos : ℕ → ℤ
  negsuc : ℕ → ℤ

abbrev pub pred : ℤ → ℤ
pred (pos (suc n)) = pos n
pred (pos zero) = negsuc 0
pred (negsuc n) = negsuc (suc n)

-- What `current` points to.
pub data Phase : Type 0 where
  on_wait on_ready on_done : Phase

pub record Queue (A : Type 0) : Type 0 where
  pub pending : List A
  pub wait : List A
  pub ready : List A
  pub done : List A
  pub remain : ℤ
  pub current : Phase

module _ {A : Type 0} where
  abbrev pub queue_among : Phase → (wait ready done : List A) → List A
  queue_among on_wait wait _ _ = wait
  queue_among on_ready _ ready _ = ready
  queue_among on_done _ _ done = done

  abbrev pub queue_of : Phase → Queue A → List A
  queue_of p q = queue_among p q.wait q.ready q.done

  abbrev pub current_tasks : Queue A → List A
  current_tasks q = queue_of q.current q

  unfoldable pub empty : Queue A
  empty = record {
    pending = [];
    wait = [];
    ready = [];
    done = [];
    remain = pos 0;
    current = on_ready;
  }

  unfoldable pub setup : Queue A → Phase → Queue A
  setup q p = record q { current = p; remain = pos (length (queue_of p q)) }

  unfoldable pub setup_done : Queue A → Queue A
  setup_done q = setup q on_done

  -- `operator ()`: claims one task of the current queue. The new queue, the task, and what the
  -- operator returns. An index out of range, which the code leaves undefined, gives no task.
  unfoldable pub claim : Queue A → Queue A × Option A × Bool
  claim q =
      let t = record q { remain = pred q.remain } in
      elim q.remain [
        | pos n ↦ elim n [
          | zero ↦ (t, none, false)
          | suc i ↦ (t, get_elem? (current_tasks q) i, true)
        ]
        | negsuc n ↦ (t, none, false)
      ]

  unfoldable pub push_wait : Queue A → A → Queue A
  push_wait q a = record q { wait = q.wait ++ a ∷ [] }

  unfoldable pub push_done : Queue A → A → Queue A
  push_done q a = record q { done = q.done ++ a ∷ [] }

  unfoldable pub push_pending : Queue A → A → Queue A
  push_pending q a = record q { pending = q.pending ++ a ∷ [] }

  -- `pending.pop`
  abbrev pub pulled : List A → List A
  pulled [] = []
  pulled (a ∷ _) = a ∷ []

  abbrev pub unpulled : List A → List A
  unpulled [] = []
  unpulled (_ ∷ rest) = rest

  -- `todo` is the controller's count of the tasks of this round.
  unfoldable pub roll : Queue A → (todo : ℕ) → Queue A × ℕ
  roll q todo =
      let t =
        setup
          (record q {
            wait = q.ready;
            ready = q.wait ++ pulled q.pending;
            pending = unpulled q.pending;
          })
          on_ready in
      (t, todo + length t.ready)

  unfoldable pub clear_current : Queue A → Queue A
  clear_current q = elim q.current [
    | on_wait ↦ record q { wait = [] }
    | on_ready ↦ record q { ready = [] }
    | on_done ↦ record q { done = [] }
  ]

-- popTodo
unfoldable pub pop_todo : (todo : ℕ) → ℕ × ℕ
pop_todo todo = (0, todo)
