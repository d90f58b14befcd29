-- ===== src/Worker/Phases.antt =====
-- How the phases of the loop follow one another.
use Prim.{absurd}
use mathlib.Core.Bool.{true≢false, false≢true}
use aiotest.Prelude.{
  List, [], ◌∷◌, ◌++◌, ℕ, zero, suc, ◌≡◌, ◌≢◌, refl, sym, ap, ◌∙◌, Bool, true, false, inl, inr,
  Bool-cases, if◌then◌else◌,
}
use aiotest.Controller.{Limits}
use aiotest.Worker.{
  WorkerState, running, unlocking, cleanup, idle, gc, flushing, quit, Decision, at_start,
  after_running, after_unlocking, after_gc, after_idle, after_flushing, Inputs, QueueStep, clears,
  sets_done, rolls, Master, start, decide, keeps_cache, collect, body, turn,
}

abbrev pub at : WorkerState → Decision → ℕ → Bool → Master
at e d r c = record { entry = e; decision = d; round_idle = r; cleaning = c }

abbrev is_quit : WorkerState → Bool
is_quit quit = true
is_quit _ = false

abbrev is_running : WorkerState → Bool
is_running running = true
is_running _ = false

-- A round after a phase that ran tasks: its phases in their order, each with what the decision for it does
-- to the queues. `j` is read where the flush is decided on, `l` where the next round is.
abbrev pub round_after : (j l : Inputs) → List (WorkerState × List QueueStep)
round_after j l =
    (gc, clears ∷ []) ∷ (if j.flush then (flushing, []) ∷ [] else [])
    ++ (unlocking, sets_done ∷ [])
      ∷ (if l.closing
          then (cleanup, clears ∷ [])
          else (if l.any_todo then running else idle, clears ∷ rolls ∷ []))
      ∷ []

module _ (limits : Limits) (over : ℕ → ℕ → ℕ) where
  -- The first worker after `n` turns that read the inputs `f 0`, `f 1`, …
  unfoldable pub run : (n : ℕ) → (ℕ → Inputs) → Master → Master
  run zero f m = m
  run (suc n) f m = run n (λ i. f (suc i)) (turn limits over m (f 0))

  abbrev pub kept : ℕ → Decision
  kept r = if keeps_cache limits over r then after_gc else after_idle

  -- The states that the loop passes through.
  pub data IsReached : Master → Type 0 where
    on_start : IsReached (at idle at_start 0 false)
    on_running : (c : Bool) → IsReached (at running after_running 0 c)
    on_gc : (c : Bool) → IsReached (at gc after_gc 0 c)
    on_flushing : (r : ℕ) (c : Bool) → IsReached (at flushing after_flushing r c)
    on_unlocking : (r : ℕ) (c : Bool) → IsReached (at unlocking after_unlocking r c)
    on_idle : (r : ℕ) (c : Bool) → IsReached (at idle (kept r) r c)
    on_cleanup : (r : ℕ) → IsReached (at cleanup (kept r) r true)
    on_quit : (d : Decision) (r : ℕ) (c : Bool) → IsReached (at quit d r c)

  next-IsReached :
      (todo : Bool) (e : WorkerState) (d : Decision) (r : ℕ) (c : Bool)
      → IsReached (body limits over (at e d r c) (if todo then running else idle))
  unfolding body collect
  next-IsReached true e d r c = on_running c
  next-IsReached false e d r c = on_idle (suc r) c

  -- A turn that collected before, in the phase `e`.
  collected-IsReached :
      (keeps : Bool) (e : WorkerState) (r : ℕ) (c : Bool) (i : Inputs)
      → let d = if keeps then after_gc else after_idle in
        IsReached (body limits over (at e d r c) (decide d i).0)
  unfolding body decide
  collected-IsReached true e r c i = elim (Bool-cases i.flush) [
    | inl h ↦ rw h (on_flushing r c)
    | inr h ↦ rw h (on_unlocking r c)
  ]
  collected-IsReached false e r c i = elim (Bool-cases i.closing) [
    | inl h ↦ rw h (on_quit after_idle r c)
    | inr h ↦ rw h (next-IsReached i.any_todo e after_idle r c)
  ]

  pub turn-IsReached : (m : Master) (i : Inputs) → IsReached m → IsReached (turn limits over m i)
  unfolding turn decide body collect keeps_cache
  turn-IsReached m i on_start = on_running false
  turn-IsReached m i (on_running c) = on_gc c
  turn-IsReached m i (on_gc c) = collected-IsReached true gc 0 c i
  turn-IsReached m i (on_flushing r c) = on_unlocking r c
  turn-IsReached m i (on_unlocking r c) = elim (Bool-cases i.closing) [
    | inl h ↦ rw h (on_cleanup (suc r))
    | inr h ↦ rw h (next-IsReached i.any_todo unlocking after_unlocking r c)
  ]
  turn-IsReached m i (on_idle r c) = collected-IsReached (keeps_cache limits over r) idle r c i
  turn-IsReached m i (on_cleanup r) =
      collected-IsReached (keeps_cache limits over r) cleanup r true i
  turn-IsReached m i (on_quit d r c) = on_quit d r c

  pub run-IsReached : (n : ℕ) (f : ℕ → Inputs) (m : Master) → IsReached m → IsReached (run n f m)
  unfolding run
  run-IsReached zero f m h = h
  run-IsReached (suc n) f m h = run-IsReached n _ _ (turn-IsReached m (f 0) h)

  next-open :
      (todo : Bool) (e : WorkerState) (d : Decision) (r : ℕ) (c : Bool)
      → is_quit (body limits over (at e d r c) (if todo then running else idle)).entry ≡ false
  unfolding body collect
  next-open true e d r c = refl
  next-open false e d r c = refl

  collected-open :
      (keeps : Bool) (e : WorkerState) (r : ℕ) (c : Bool) (i : Inputs)
      → i.closing ≡ false
      → let d = if keeps then after_gc else after_idle in
        is_quit (body limits over (at e d r c) (decide d i).0).entry ≡ false
  unfolding body decide
  collected-open true e r c i closing = elim (Bool-cases i.flush) [
    | inl h ↦ rw h refl
    | inr h ↦ rw h refl
  ]
  collected-open false e r c i closing = rw closing (next-open i.any_todo e after_idle r c)

  turn-open :
      (m : Master) (i : Inputs)
      → i.closing ≡ false
      → is_quit m.entry ≡ false
      → IsReached m
      → is_quit (turn limits over m i).entry ≡ false
  unfolding turn decide body collect
  turn-open m i closing h on_start = refl
  turn-open m i closing h (on_running c) = refl
  turn-open m i closing h (on_gc c) = collected-open true gc 0 c i closing
  turn-open m i closing h (on_flushing r c) = refl
  turn-open m i closing h (on_unlocking r c) =
      rw closing (next-open i.any_todo unlocking after_unlocking r c)
  turn-open m i closing h (on_idle r c) =
      collected-open (keeps_cache limits over r) idle r c i closing
  turn-open m i closing h (on_cleanup r) =
      collected-open (keeps_cache limits over r) cleanup r true i closing
  turn-open m i closing h (on_quit d r c) = h

  run-open :
      (n : ℕ) (f : ℕ → Inputs) (m : Master)
      → ((i : ℕ) → (f i).closing ≡ false)
      → is_quit m.entry ≡ false
      → IsReached m
      → is_quit (run n f m).entry ≡ false
  unfolding run
  run-open zero f m closing h reached = h
  run-open (suc n) f m closing h reached =
      run-open n (λ i. f (suc i)) _ (λ i. closing (suc i)) (turn-open m (f 0) (closing 0) h reached)
        (turn-IsReached m (f 0) reached)

  running-IsReached :
      (m : Master)
      → IsReached m
      → is_running m.entry ≡ true
      → m ≡ at running after_running 0 m.cleaning
  running-IsReached m on_start h = absurd (false≢true h)
  running-IsReached m (on_running c) h = refl
  running-IsReached m (on_gc c) h = absurd (false≢true h)
  running-IsReached m (on_flushing r c) h = absurd (false≢true h)
  running-IsReached m (on_unlocking r c) h = absurd (false≢true h)
  running-IsReached m (on_idle r c) h = absurd (false≢true h)
  running-IsReached m (on_cleanup r) h = absurd (false≢true h)
  running-IsReached m (on_quit d r c) h = absurd (false≢true h)

  -- The phases that the loop enters from `m` on, one for each of the inputs, and what the decision for each
  -- does to the queues.
  unfoldable pub phases : Master → List Inputs → List (WorkerState × List QueueStep)
  phases m [] = []
  phases m (i ∷ is) =
      let next = turn limits over m i in (next.entry, (decide m.decision i).1) ∷ phases next is

  -- From the phase Unlocking on: the done tasks are cleared, and the next round begins.
  phases-unlocking :
      (c : Bool) (l : Inputs)
      → phases (at unlocking after_unlocking 0 c) (l ∷ [])
        ≡ (if l.closing
            then (cleanup, clears ∷ [])
            else (if l.any_todo then running else idle, clears ∷ rolls ∷ []))
          ∷ []
  unfolding phases turn decide body collect
  phases-unlocking c l = elim (Bool-cases l.closing) [
    | inl h ↦ rw h refl
    | inr h ↦ elim (Bool-cases l.any_todo) [ inl g ↦ rw (h, g) refl | inr g ↦ rw (h, g) refl ]
  ]

  phases-running :
      (c : Bool) (i j k l : Inputs)
      → phases (at running after_running 0 c) (i ∷ j ∷ (if j.flush then k ∷ l ∷ [] else l ∷ []))
        ≡ round_after j l
  unfolding phases turn decide body collect keeps_cache
  phases-running c i j k l = elim (Bool-cases j.flush) [
    | inl h ↦ rw h (
        ap (λ t. (gc, clears ∷ []) ∷ (flushing, []) ∷ (unlocking, sets_done ∷ []) ∷ t)
          (phases-unlocking c l))
    | inr h ↦
        rw h (ap (λ t. (gc, clears ∷ []) ∷ (unlocking, sets_done ∷ []) ∷ t) (phases-unlocking c l))
  ]

-- After a phase that ran tasks, reached by any number of turns on any inputs: the queues are cleared and
-- the garbage is collected; then the cached data is flushed if the flush switch is set, and nothing is
-- done to the queues for that; then, with a flush or without, the queues of done tasks are set up and
-- Unlocking runs them. After that they are cleared; the loop goes on to Cleanup without a roll if
-- it closes, and else rolls and goes on to Running or Idle, by whether the roll found tasks.
pub running-unlocking :
    (limits : Limits) (over : ℕ → ℕ → ℕ) (n : ℕ) (f : ℕ → Inputs) (i j k l : Inputs)
    → (run limits over n f start).entry ≡ running
    → phases limits over
        (run limits over n f start)
        (i ∷ j ∷ (if j.flush then k ∷ l ∷ [] else l ∷ []))
      ≡ round_after j l
running-unlocking limits over n f i j k l h =
    let m = run limits over n f start in
    let e =
      running-IsReached limits over m (run-IsReached limits over n f start on_start)
        (ap is_running h) in
    ap (λ t. phases limits over t (i ∷ j ∷ (if j.flush then k ∷ l ∷ [] else l ∷ []))) e
    ∙ phases-running limits over m.cleaning i j k l

-- While the controller does not close, the loop does not quit, however many turns it runs.
pub open-runs :
    (limits : Limits) (over : ℕ → ℕ → ℕ) (n : ℕ) (f : ℕ → Inputs)
    → ((i : ℕ) → (f i).closing ≡ false)
    → (run limits over n f start).entry ≢ quit
open-runs limits over n f closing e =
    true≢false (sym (ap is_quit e) ∙ run-open limits over n f start closing refl on_start)
