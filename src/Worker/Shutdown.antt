-- ===== src/Worker/Shutdown.antt =====
-- Once the controller closes, the first worker quits: for how many turns of the
-- loop at most it still runs.
use Prim.{absurd}
use mathlib.Core.Bool.{true≢false}
use aiotest.Prelude.{
  ℕ, zero, suc, ◌+◌, ◌*◌, ◌-◌, ◌/◌, ◌^◌, ◌≤◌, ◌<◌, ◌≡◌, refl, sym, ◌∙◌, Bool, true, false, inl, inr,
  Bool-cases, if◌then◌else◌, arith,
}
use aiotest.Controller.{Limits}
use aiotest.Worker.{
  WorkerState, running, unlocking, cleanup, idle, gc, flushing, quit, Decision, at_start,
  after_running, after_unlocking, after_gc, after_idle, after_flushing, Inputs, Master, start,
  decide, shift_right, keeps_cache, collect, body, turn,
}
use aiotest.Worker.Phases.{
  run, at, kept, IsReached, on_start, on_running, on_gc, on_flushing, on_unlocking, on_idle,
  on_cleanup, on_quit, run-IsReached,
}

module _ (limits : Limits) (over : ℕ → ℕ → ℕ) where
  -- Whatever else it reads, the loop quits within `b` turns of closing.
  abbrev pub QuitsIn : ℕ → Master → Type 0
  QuitsIn b m =
      (n : ℕ) (f : ℕ → Inputs)
      → ((i : ℕ) → (f i).closing ≡ true)
      → b ≤ n
      → (run limits over n f m).entry ≡ quit

  turn-QuitsIn :
      (b : ℕ) (m : Master)
      → ((i : Inputs) → i.closing ≡ true → QuitsIn b (turn limits over m i))
      → QuitsIn (suc b) m
  unfolding run
  turn-QuitsIn b m h zero f closing hn = absurd (omega (arith, hn))
  turn-QuitsIn b m h (suc n) f closing hn =
      h (f 0) (closing 0) n (λ i. f (suc i)) (λ i. closing (suc i)) (omega (arith, hn))

  weaken : (b b' : ℕ) (m : Master) → b ≤ b' → QuitsIn b m → QuitsIn b' m
  weaken b b' m le h n f closing hn = h n f closing (omega arith)

  quit-QuitsIn : (b : ℕ) (d : Decision) (r : ℕ) (c : Bool) → QuitsIn b (at quit d r c)
  unfolding run turn
  quit-QuitsIn b d r c zero f closing hn = refl
  quit-QuitsIn b d r c (suc n) f closing hn =
      quit-QuitsIn 0 d r c n (λ i. f (suc i)) (λ i. closing (suc i)) (omega arith)

  unlocking-QuitsIn :
      (b r : ℕ) (c : Bool)
      → QuitsIn b (at cleanup (kept limits over (suc r)) (suc r) true)
      → QuitsIn (suc b) (at unlocking after_unlocking r c)
  unfolding turn decide body collect
  unlocking-QuitsIn b r c h = turn-QuitsIn b _ (λ i e. rw e h)

  flushing-QuitsIn :
      (b r : ℕ) (c : Bool)
      → QuitsIn b (at unlocking after_unlocking r c)
      → QuitsIn (suc b) (at flushing after_flushing r c)
  unfolding turn decide body
  flushing-QuitsIn b r c h = turn-QuitsIn b _ (λ i e. h)

  -- The decision that follows a garbage collection, with or without a flush.
  after_gc-QuitsIn :
      (b r : ℕ) (c : Bool) (e : WorkerState) (i : Inputs)
      → QuitsIn b (at unlocking after_unlocking r c)
      → QuitsIn (suc b) (body limits over (at e after_gc r c) (decide after_gc i).0)
  unfolding decide body
  after_gc-QuitsIn b r c e i h = elim (Bool-cases i.flush) [
    | inl t ↦ rw t (flushing-QuitsIn b r c h)
    | inr t ↦ rw t (weaken b (suc b) _ (omega arith) h)
  ]

  -- Past the shifts of a word whose top bit is clear, no cached data is kept.
  keeps-bound : (r : ℕ) → limits.lower < 2 ^ 63 → r ≡ 74 → keeps_cache limits over r ≡ false
  unfolding keeps_cache shift_right
  keeps-bound r h e = let z : limits.lower / 2 ^ 63 ≡ 0 = omega (arith, h) in rw e rw z refl

  collected-QuitsIn :
      (keeps : Bool) (b r : ℕ) (c : Bool) (e : WorkerState) (i : Inputs)
      → i.closing ≡ true
      → (keeps ≡ true → QuitsIn b (at unlocking after_unlocking r c))
      → QuitsIn (suc b) (
          body limits over
            (at e (if keeps then after_gc else after_idle) r c)
            (decide (if keeps then after_gc else after_idle) i).0)
  unfolding body decide
  collected-QuitsIn true b r c e i closing h = after_gc-QuitsIn b r c e i (h refl)
  collected-QuitsIn false b r c e i closing h = rw closing (quit-QuitsIn (suc b) after_idle r c)

  -- Turns from a cleanup, with `k` rounds to go until no cached data is kept.
  abbrev bound : ℕ → ℕ
  bound zero = 2
  bound (suc k) = suc (suc (suc (bound k)))

  bound_lem : (k : ℕ) → bound k ≡ k * 3 + 2
  bound_lem zero = omega arith
  bound_lem (suc k) = omega (arith, bound_lem k)

  module _ (low : limits.lower < 2 ^ 63) where
    cleanup-QuitsIn :
        (k r : ℕ) → k + r ≡ 74 → QuitsIn (bound k) (at cleanup (kept limits over r) r true)
    unfolding turn
    cleanup-QuitsIn zero r e = turn-QuitsIn 1 _ (λ i closing.
        collected-QuitsIn (keeps_cache limits over r) 0 r true cleanup i closing
          (λ t. absurd (true≢false (sym t ∙ keeps-bound r low (omega (arith, e))))))
    cleanup-QuitsIn (suc k) r e = turn-QuitsIn (suc (suc (bound k))) _ (λ i closing.
        collected-QuitsIn (keeps_cache limits over r) (suc (bound k)) r true cleanup i closing
          (λ _. unlocking-QuitsIn (bound k) r true (cleanup-QuitsIn k (suc r) (omega (arith, e)))))

    cleanup-QuitsIn_224 : (r : ℕ) → r ≤ 74 → QuitsIn 224 (at cleanup (kept limits over r) r true)
    cleanup-QuitsIn_224 r h =
        weaken (bound (74 - r)) 224 _ (omega (arith, bound_lem (74 - r)))
          (cleanup-QuitsIn (74 - r) r (omega arith))

    unlocking-QuitsIn_225 :
        (r : ℕ) (c : Bool) → r ≤ 73 → QuitsIn 225 (at unlocking after_unlocking r c)
    unlocking-QuitsIn_225 r c h =
        unlocking-QuitsIn 224 r c (cleanup-QuitsIn_224 (suc r) (omega arith))

    gc-QuitsIn_227 : (c : Bool) → QuitsIn 227 (at gc after_gc 0 c)
    unfolding turn
    gc-QuitsIn_227 c =
        turn-QuitsIn 226 _
          (λ i closing. after_gc-QuitsIn 225 0 c gc i (unlocking-QuitsIn_225 0 c (omega arith)))

    running-QuitsIn_228 : (c : Bool) → QuitsIn 228 (at running after_running 0 c)
    unfolding turn decide body collect keeps_cache
    running-QuitsIn_228 c = turn-QuitsIn 227 _ (λ i closing. gc-QuitsIn_227 c)

    start-QuitsIn_229 : QuitsIn 229 (at idle at_start 0 false)
    unfolding turn decide body
    start-QuitsIn_229 = turn-QuitsIn 228 _ (λ i closing. running-QuitsIn_228 false)

    idle-QuitsIn_227 : (r : ℕ) (c : Bool) → r ≤ 73 → QuitsIn 227 (at idle (kept limits over r) r c)
    unfolding turn
    idle-QuitsIn_227 r c h = turn-QuitsIn 226 _ (λ i closing.
        collected-QuitsIn (keeps_cache limits over r) 225 r c idle i closing
          (λ _. unlocking-QuitsIn_225 r c h))

    pub reached-QuitsIn : (m : Master) → m.round_idle ≤ 73 → IsReached limits over m → QuitsIn 229 m
    reached-QuitsIn m h on_start = start-QuitsIn_229
    reached-QuitsIn m h (on_running c) = weaken 228 229 _ (omega arith) (running-QuitsIn_228 c)
    reached-QuitsIn m h (on_gc c) = weaken 227 229 _ (omega arith) (gc-QuitsIn_227 c)
    reached-QuitsIn m h (on_flushing r c) =
        weaken 226 229 _ (omega arith) (flushing-QuitsIn 225 r c (unlocking-QuitsIn_225 r c h))
    reached-QuitsIn m h (on_unlocking r c) =
        weaken 225 229 _ (omega arith) (unlocking-QuitsIn_225 r c h)
    reached-QuitsIn m h (on_idle r c) = weaken 227 229 _ (omega arith) (idle-QuitsIn_227 r c h)
    reached-QuitsIn m h (on_cleanup r) =
        weaken 224 229 _ (omega arith) (cleanup-QuitsIn_224 r (omega arith))
    reached-QuitsIn m h (on_quit d r c) = quit-QuitsIn _ d r c

-- The first worker ran any number of turns, on any inputs, from its start; the lower limit is below
-- 2^63 and at most 73 rounds were idle in a row. From there on the controller closes. Then the loop
-- quits within 229 turns, whatever else it reads: with or without flushes and leftover tasks.
closing-quit :
    (limits : Limits) (over : ℕ → ℕ → ℕ) (before : ℕ) (g : ℕ → Inputs) (n : ℕ) (f : ℕ → Inputs)
    → limits.lower < 2 ^ 63
    → (run limits over before g start).round_idle ≤ 73
    → ((i : ℕ) → (f i).closing ≡ true)
    → 229 ≤ n
    → (run limits over n f (run limits over before g start)).entry ≡ quit
closing-quit limits over before g n f low idle_rounds closing enough =
    let reached = run-IsReached limits over before g start on_start in
    reached-QuitsIn limits over low _ idle_rounds reached n f closing enough
