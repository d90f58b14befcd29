-- ===== src/Worker/Barrier/Codes.antt =====
-- The numbers of the states of include/backup/State.hpp tell the states apart.
use aiotest.Prelude.{ℕ, ◌≡◌, refl, ap, sym, ◌∙◌, true, ◌==◌, ==_iff, if◌then◌else◌}
use aiotest.Worker.{
  WorkerState, pending, created, pulling, running, unlocking, cleanup, idle, gc, flushing, quit,
  sync,
}
use aiotest.Worker.Barrier.{code, same}

decode : ℕ → WorkerState
decode n =
    if n == 0
    then pending
    else if n == 1
    then created
    else if n == 2
    then pulling
    else if n == 3
    then running
    else if n == 4
    then unlocking
    else if n == 5
    then cleanup
    else if n == 6
    then idle
    else if n == 7
    then gc
    else if n == 8
    then flushing
    else if n == 9
    then quit
    else sync

decode-code : (s : WorkerState) → decode (code s) ≡ s
unfolding decode code
decode-code pending = refl
decode-code created = refl
decode-code pulling = refl
decode-code running = refl
decode-code unlocking = refl
decode-code cleanup = refl
decode-code idle = refl
decode-code gc = refl
decode-code flushing = refl
decode-code quit = refl
decode-code sync = refl

pub same_eq : (s t : WorkerState) → same s t ≡ true → s ≡ t
unfolding same
same_eq s t h = sym (decode-code s) ∙ (ap decode ((==_iff (code s) (code t)).0 h) ∙ decode-code t)

pub same_refl : (s : WorkerState) → same s s ≡ true
unfolding same
same_refl s = (==_iff (code s) (code s)).1 refl
