-- ===== src/Aio/Calls.antt =====
-- The calls of include/backup/aio.hpp on a control block: aio_read, aio_write, aio_fsync, aio_error,
-- aio_wait and aio_return. A tree queues its work on one worker, which `worker_of` names, and `queues`
-- are the pending queues of the workers. `none` is the use of a null pointer, and for aio_wait also a
-- wait that is not over within the polls that the list gives.
pub mod Answers
use aiotest.Prelude.{
  ℕ, ◌≡◌, refl, sym, ap, ◌∙◌, Bool, true, false, ◌||◌, Option, none, some, List, [], ◌∷◌, ◌==◌,
  ==_iff, if◌then◌else◌, arith,
}
use aiotest.Prelude.Word.{add64}
use aiotest.Request.{
  Request, State, running, failed, rejected, done, is_running, fail, notify, poll, wait,
}
use aiotest.Tree.{
  Task, at_read, at_write, fsync_file, flush_cache, read, readsome, write, fsync, hook,
}
use aiotest.Tree.Submission.{answered, full, promise, promise_len, issue_lem, hook_lem}
use aiotest.Aio.{Registry, register_fd, translate, ebadf, status, submitted}

-- The members that the calls use; `buf` is the pointer into the caller's buffer.
pub record Aiocb (A : Type 0) : Type 0 where
  pub fildes : ℕ
  pub offset : ℕ
  pub buf : A
  pub nbytes : ℕ
  pub io : Option Request

module _ {A : Type 0} where
  unfoldable pub aio_error : Aiocb A → Option (Aiocb A × ℕ)
  aio_error cb = elim cb.io [
    | none ↦ none
    | some io ↦ let (io', error) = status io in some (record cb { io = some io' }, error)
  ]

  -- The error and not the number of bytes.
  unfoldable pub aio_return : Aiocb A → Option (Aiocb A × ℕ)
  aio_return cb = elim cb.io [
    | none ↦ none
    | some io ↦ some (record cb { io = none }, (status io).1)
  ]

  -- The `others` are what the workers do to the request between the polls.
  unfoldable pub aio_wait : Aiocb A → (others : List (Request → Request)) → Option (Aiocb A × ℕ)
  aio_wait cb others = elim cb.io [
    | none ↦ none
    | some io ↦
        let (io', state) = wait io others in
        if is_running state then none else aio_error (record cb { io = some io' })
  ]

module _ {Tree A : Type 0} (worker_of : Tree → ℕ) where
  abbrev pub put_queue : (ℕ → List (Task A)) → ℕ → List (Task A) → ℕ → List (Task A)
  put_queue queues worker queue i = if i == worker then queue else queues i

  -- What aiocb::read, write and fsync share: a call of the tree at the descriptor.
  unfoldable pub call_tree :
      (List (Task A) → List (Task A) × Request)
      → Registry Tree
      → Aiocb A
      → (queues : ℕ → List (Task A)) → Option ((ℕ → List (Task A)) × Request)
  call_tree call s cb queues = elim (s.bts cb.fildes) [
    | none ↦ none
    | some tree ↦
        let r = call (queues (worker_of tree)) in some (put_queue queues (worker_of tree) r.0, r.1)
  ]

  -- What aio_read, aio_write and aio_fsync share: the result is whether there was an error.
  unfoldable pub submit :
      Aiocb A
      → Option ((ℕ → List (Task A)) × Request)
      → Option ((ℕ → List (Task A)) × Aiocb A × Bool)
  submit cb none = none
  submit cb (some (queues, io)) =
      let (io', error) = submitted io in some (queues, record cb { io = some io' }, error)

  module _ (s : Registry Tree) (cb : Aiocb A) (queues : ℕ → List (Task A)) where
    unfoldable pub aio_read :
        (reject reject' : Bool) → Option ((ℕ → List (Task A)) × Aiocb A × Bool)
    aio_read r r' =
        submit cb (call_tree (λ q. readsome r r' q cb.offset cb.nbytes cb.buf) s cb queues)

    unfoldable pub aio_write :
        (reject reject' : Bool) → Option ((ℕ → List (Task A)) × Aiocb A × Bool)
    aio_write r r' =
        submit cb (call_tree (λ q. write r r' q cb.offset cb.nbytes cb.buf) s cb queues)

    unfoldable pub aio_fsync :
        (reject reject' reject'' : Bool) → Option ((ℕ → List (Task A)) × Aiocb A × Bool)
    aio_fsync r r' r'' = submit cb (call_tree (λ q. fsync r r' r'' q) s cb queues)
