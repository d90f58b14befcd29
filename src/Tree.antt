-- ===== src/Tree.antt =====
-- The front of include/backup/BTree.hpp: the calls of a client thread, which queue the work on the
-- pending queue of one worker of the controller and return the request. `pos`, `len` are 64-bit words.
--
-- Every call of `pushPending` reads the worker's `reject` flag, which the controller's destructor may
-- raise at any time: what each of these reads returns is an argument.
pub mod Submission
pub mod Ids
use aiotest.Prelude.{ℕ, Bool, true, false, not, List, [], ◌∷◌, ◌++◌, ltb, if◌then◌else◌}
use aiotest.Prelude.Word.{add64}
use aiotest.Request.{Request, rejected, done, default_request, is_timing}

-- The closures that the calls push. `at_sync` is `Root::sync(io)`, `user` is `Root::sync(task)`.
-- A task for the request of the call does not name it: a call makes one request.
pub data Task (A : Type 0) : Type 0 where
  at_read at_write : (begin end_ : ℕ) → (ptr : A) → Task A
  at_flush at_sync at_detach flush_cache fsync_file : Task A
  user : A → Task A

unfoldable pub reject_io : Request → Request
reject_io io = record io { state = rejected }

module _ {A : Type 0} where
  -- Worker::pushPending, on the pending queue of the worker
  unfoldable pub push_pending : (reject : Bool) → List (Task A) → Task A → List (Task A) × Bool
  push_pending reject queue task = if reject then (queue, false) else (queue ++ task ∷ [], true)

  -- The part that `read`, `readsome` and `write` share in their text.
  unfoldable pub issue :
      (reject reject' : Bool)
      → List (Task A)
      → (len : ℕ) → (work : Task A) → List (Task A) × Request
  issue reject reject' queue len work =
      let io = default_request in
      let (queue', pushed) = push_pending reject queue work in
      let (queue'', timed) = push_pending reject' queue' at_sync in
      if ltb len 1
      then (queue, record io { state = done })
      else if not pushed
      then (queue', reject_io io)
      else if not (is_timing io.method)
      then (queue', reject_io io)
      else if not timed
      then (queue'', reject_io io)
      else (queue'', io)

  unfoldable pub read :
      (reject reject' : Bool) → List (Task A) → (pos len : ℕ) → A → List (Task A) × Request
  read reject reject' queue pos len ptr =
      issue reject reject' queue len (at_read pos (add64 pos len) ptr)

  unfoldable pub readsome :
      (reject reject' : Bool) → List (Task A) → (pos len : ℕ) → A → List (Task A) × Request
  readsome reject reject' queue pos len ptr =
      issue reject reject' queue len (at_read pos (add64 pos len) ptr)

  unfoldable pub write :
      (reject reject' : Bool) → List (Task A) → (pos len : ℕ) → A → List (Task A) × Request
  write reject reject' queue pos len ptr =
      issue reject reject' queue len (at_write pos (add64 pos len) ptr)

  unfoldable pub inject : (reject : Bool) → List (Task A) → Task A → List (Task A) × Bool
  inject reject queue task = push_pending reject queue task

  unfoldable pub hook : (reject reject' : Bool) → List (Task A) → Task A → List (Task A) × Request
  hook reject reject' queue task =
      let io = default_request in
      let (queue', injected) = inject reject queue task in
      let (queue'', timed) = push_pending reject' queue' at_sync in
      if not injected
      then (queue', reject_io io)
      else if not timed
      then (queue'', reject_io io)
      else (queue'', io)

  unfoldable pub sync_tree : (reject reject' : Bool) → List (Task A) → List (Task A) × Request
  sync_tree reject reject' queue =
      let io = default_request in
      let (queue', pushed) = push_pending reject queue at_flush in
      let (queue'', timed) = push_pending reject' queue' at_sync in
      if not pushed
      then (queue', reject_io io)
      else if not timed
      then (queue'', reject_io io)
      else (queue'', io)

  -- syncCache, and `sync`, which calls it
  unfoldable pub sync_cache : (reject reject' : Bool) → List (Task A) → List (Task A) × Request
  sync_cache reject reject' queue = hook reject reject' queue flush_cache

  -- `root` says whether the tree still has its root; so does the first component of the result.
  unfoldable pub detach :
      (root reject reject' : Bool) → List (Task A) → Bool × List (Task A) × Request
  detach root reject reject' queue =
      let io = default_request in
      let (queue', pushed) = push_pending reject queue at_detach in
      let (queue'', timed) = push_pending reject' queue' at_sync in
      if not root
      then (root, queue, reject_io io)
      else if not pushed
      then (root, queue', reject_io io)
      else if not timed
      then (root, queue'', reject_io io)
      else (false, queue'', io)

  -- What the injection of the cache's flush returns is not looked at.
  unfoldable pub fsync : (reject reject' reject'' : Bool) → List (Task A) → List (Task A) × Request
  fsync reject reject' reject'' queue =
      hook reject' reject'' (inject reject queue flush_cache).0 fsync_file
