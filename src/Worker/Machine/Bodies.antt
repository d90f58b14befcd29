-- ===== src/Worker/Machine/Bodies.antt =====
-- A decision, and the body of its phase, without the test of Quit in front of them.
use aiotest.Prelude.{ℕ, ◌≡◌, refl, Bool, false, arith}
use aiotest.Controller.{Limits}
use aiotest.Worker.{
  WorkerState, pending, created, pulling, running, unlocking, cleanup, idle, gc, flushing, quit,
  sync, Decision, at_start, after_running, after_unlocking, after_gc, after_idle, after_flushing,
  Inputs, Master, decide, collect, body, turn,
}
use aiotest.Worker.Phases.{at}
use aiotest.Worker.Barrier.{code, same}

abbrev pub is_quit : WorkerState → Bool
is_quit s = same s quit

-- No decision is Sync.
pub decide-phase : (d : Decision) (i : Inputs) → same (decide d i).0 sync ≡ false
unfolding decide same code
decide-phase at_start i = refl
decide-phase after_running i = refl
decide-phase after_unlocking i = ground arith
decide-phase after_gc i = ground arith
decide-phase after_idle i = ground arith
decide-phase after_flushing i = refl

module _ (limits : Limits) (over : ℕ → ℕ → ℕ) where
  turn_at :
      (e : WorkerState) (d : Decision) (r : ℕ) (c : Bool) (i : Inputs)
      → is_quit e ≡ false
      → turn limits over (at e d r c) i ≡ body limits over (at e d r c) (decide d i).0
  unfolding turn same code
  turn_at pending d r c i h = refl
  turn_at created d r c i h = refl
  turn_at pulling d r c i h = refl
  turn_at running d r c i h = refl
  turn_at unlocking d r c i h = refl
  turn_at cleanup d r c i h = refl
  turn_at idle d r c i h = refl
  turn_at gc d r c i h = refl
  turn_at flushing d r c i h = refl
  turn_at sync d r c i h = refl
  turn_at quit d r c i h = ground (arith, h)

  pub turn-body :
      (m : Master) (i : Inputs)
      → is_quit m.entry ≡ false
      → turn limits over m i ≡ body limits over m (decide m.decision i).0
  turn-body m i h = turn_at m.entry m.decision m.round_idle m.cleaning i h

  pub body-entry : (m : Master) (s : WorkerState) → (body limits over m s).entry ≡ s
  unfolding body collect
  body-entry m pending = refl
  body-entry m created = refl
  body-entry m pulling = refl
  body-entry m running = refl
  body-entry m unlocking = refl
  body-entry m cleanup = refl
  body-entry m idle = refl
  body-entry m gc = refl
  body-entry m flushing = refl
  body-entry m sync = refl
  body-entry m quit = refl
