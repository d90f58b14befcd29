-- ===== src/Request.antt =====
-- include/backup/IOCtrl.hpp: the handle of an I/O request. `dep` counts its locks, as a 64-bit word.
pub mod Completion
use aiotest.Prelude.{ℕ, Bool, true, false, not, ◌||◌, List, [], ◌∷◌, ◌==◌, if◌then◌else◌}
use aiotest.Prelude.Word.{add64, sub64}

pub data State : Type 0 where
  running failed rejected done : State

pub data Method : Type 0 where
  by_lock timing : Method

pub record Request : Type 0 where
  pub has_failed : Bool  -- failed
  pub dep : ℕ
  pub state : State
  pub method : Method
  pub partial : Bool

abbrev pub is_running : State → Bool
is_running running = true
is_running _ = false

abbrev pub is_timing : Method → Bool
is_timing timing = true
is_timing by_lock = false

-- Each of these returns the request and what the method returns.
unfoldable pub lock : Request → ℕ → Request × ℕ
lock r num =
    if is_timing r.method then (r, 0) else (let d = add64 r.dep num in (record r { dep = d }, d))

unfoldable pub unlock : Request → ℕ → Request × ℕ
unlock r num =
    if is_timing r.method then (r, 0) else (let d = sub64 r.dep num in (record r { dep = d }, d))

-- The second load of `dep`, with acquire order, reads what the first one read: no other thread
-- moves in between.
unfoldable pub locked : Request → ℕ
locked r = if is_timing r.method then 0 else r.dep

unfoldable pub fail : Request → Request
fail r = record r { has_failed = true }

-- The constructor.
unfoldable pub new_request : Method → (partial : Bool) → Request
new_request method partial =
    let r : Request = record {
      has_failed = false;
      dep = 0;
      state = running;
      method = method;
      partial = partial;
    } in
    if is_timing method then r else (lock r 1).0

-- `new IOCtrl`, as every call of the B-tree makes it, takes the default arguments.
unfoldable pub default_request : Request
default_request = new_request timing false

unfoldable pub notify : Request → Request × State
notify r =
    if r.has_failed
    then (record r { state = failed }, failed)
    else (record r { state = done }, done)

-- `operator ()`
unfoldable pub poll : Request → Request × State
poll r =
    if not (is_running r.state) || is_timing r.method || not (locked r == 0)
    then (r, r.state)
    else notify r

-- `wait`: polls until the request is not running. What the workers do between two polls is the list
-- of the requests as they stand at each poll; `running` at its end is a wait that goes on.
unfoldable pub wait : Request → List (Request → Request) → Request × State
wait r [] = poll r
wait r (others ∷ more) =
    let p = poll r in let rest = wait (others p.0) more in if is_running p.1 then rest else p
