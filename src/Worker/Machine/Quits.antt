-- ===== src/Worker/Machine/Quits.antt =====
-- The state Quit of a worker in barrier of src/backup/Worker.cpp, and what wait of
-- src/backup/Controller.cpp sees of it.
use Prim.{absurd}
use mathlib.Core.Bool.{false≢true}
use aiotest.Prelude.{
  ℕ, ◌≤◌, ◌<◌, ◌≡◌, sym, ap, ◌∙◌, ◌⊎◌, subst, inl, inr, true, false, ◌||◌, leb, ◌==◌, ==_iff,
  Bool-cases, arith,
}
use aiotest.Worker.{WorkerState, quit, sync}
use aiotest.Worker.Barrier.{
  code, same, System, MasterPc, in_body, scanning, deciding, WorkerPc, at_work, storing, waiting,
  taking, confirming, worker_move,
}
use aiotest.Worker.Barrier.Agreement.{WorkerOk, MasterOk}
use aiotest.Worker.Machine.{
  Machine, Closer, not_begun, rejecting, stopping, awaiting, ended, has_left, worker_left,
  close_move, state_of,
}
use aiotest.Worker.Machine.Bodies.{is_quit}

-- A worker has Quit as its state only on its way out, and takes Quit only once it is published.
abbrev pub Fresh : WorkerState → WorkerState → WorkerPc → Type 0
Fresh published state (at_work entry) = Unit {0}
Fresh published state (storing prev) = is_quit state ≡ false
Fresh published state (waiting prev) = Unit {0}
Fresh published state (taking prev post) =
    (is_quit state ≡ false) × (is_quit post ≡ true → is_quit published ≡ true)
Fresh published state (confirming prev post) = is_quit post ≡ true → is_quit published ≡ true

pub worker-Fresh :
    (m : MasterPc) (i : ℕ) (published state : WorkerState) (pc : WorkerPc)
    → worker_left pc ≡ false
    → WorkerOk m i state pc
    → Fresh published state pc
    → let l = worker_move published state pc in Fresh published l.state l.pc
unfolding worker_move same code
worker-Fresh m i published state (at_work entry) stays ok h = ap is_quit ok.0 ∙ stays
worker-Fresh m i published state (storing prev) stays ok h = tt
worker-Fresh m i published state (waiting prev) stays ok h =
    elim (Bool-cases (same published prev || same published sync)) [
      | inl e ↦ rw e tt
      | inr e ↦ rw e (ap is_quit ok, λ q. q)
    ]
worker-Fresh m i published state (taking prev post) stays ok h = h.1
worker-Fresh m i published state (confirming prev post) stays ok h =
    elim (Bool-cases (same published post)) [
      | inl e ↦ rw e tt
      | inr e ↦ rw e (elim (Bool-cases (is_quit post)) [
        | inl q ↦ absurd (ground (arith, e, q, h q))
        | inr q ↦ ap is_quit ok.0 ∙ q
      ])
    ]

-- The state Quit is not given up.
pub worker-keeps_quit :
    (m : MasterPc) (i : ℕ) (published state : WorkerState) (pc : WorkerPc)
    → worker_left pc ≡ false
    → WorkerOk m i state pc
    → Fresh published state pc
    → is_quit state ≡ true
    → is_quit (worker_move published state pc).state ≡ true
unfolding worker_move
worker-keeps_quit m i published state (at_work entry) stays ok h q = q
worker-keeps_quit m i published state (storing prev) stays ok h q = absurd (false≢true (sym h ∙ q))
worker-keeps_quit m i published state (waiting prev) stays ok h q = q
worker-keeps_quit m i published state (taking prev post) stays ok h q =
    absurd (false≢true (sym h.0 ∙ q))
worker-keeps_quit m i published state (confirming prev post) stays ok h q = q

-- While the first worker publishes Quit, it has left its loop.
pub published-left :
    (published : WorkerState) (m : MasterPc)
    → MasterOk published m
    → is_quit published ≡ true
    → has_left m ≡ true
unfolding same code
published-left published (in_body entry) ok q = ap is_quit (sym ok.0) ∙ q
published-left published (scanning entry next) ok q = absurd (false≢true (sym (ap is_quit ok) ∙ q))
published-left published (deciding entry) ok q = absurd (false≢true (sym (ap is_quit ok) ∙ q))

-- What the destructor has seen
abbrev pub Seen : (n : ℕ) → Closer → System → Type 0
Seen n (awaiting m) s = (k : ℕ) → k < m → k ≤ n → is_quit (state_of s k) ≡ true
Seen n ended s = (k : ℕ) → k ≤ n → is_quit (state_of s k) ≡ true
Seen n not_begun s = Unit {0}
Seen n (rejecting m) s = Unit {0}
Seen n stopping s = Unit {0}

pub Seen-later :
    (n : ℕ) (c : Closer) (s t : System)
    → ((k : ℕ) → k ≤ n → is_quit (state_of s k) ≡ true → is_quit (state_of t k) ≡ true)
    → Seen n c s
    → Seen n c t
Seen-later n (awaiting m) s t keep h = λ k lt le. keep k le (h k lt le)
Seen-later n ended s t keep h = λ k le. keep k le (h k le)
Seen-later n not_begun s t keep h = tt
Seen-later n (rejecting m) s t keep h = tt
Seen-later n stopping s t keep h = tt

pub close-Seen :
    (n : ℕ) (c : Closer) (s : Machine)
    → s.closer ≡ c
    → Seen n c s.system
    → Seen n (close_move n c s).closer (close_move n c s).system
unfolding close_move
close-Seen n not_begun s e h = tt
close-Seen n (rejecting m) s e h = elim (Bool-cases (leb m n)) [ inl g ↦ rw g tt | inr g ↦ rw g tt ]
close-Seen n stopping s e h = λ k lt le. absurd (omega (arith, lt))
close-Seen n (awaiting m) s e h = elim (Bool-cases (leb m n)) [
  | inl g ↦ elim (Bool-cases (same (state_of s.system m) quit)) [
    | inl q ↦
        rw (g, q)
          (λ k lt le. elim (Bool-cases (k == m)) [
            | inl a ↦ ap (λ x. is_quit (state_of s.system x)) ((==_iff k m).0 a) ∙ q
            | inr a ↦ h k (ground (arith, lt, a)) le
          ])
    | inr q ↦ rw (g, q) (subst (λ x. Seen n x s.system) (sym e) h)
  ]
  | inr g ↦ rw g (λ k le. h k (ground (arith, g, le)) le)
]
close-Seen n ended s e h = subst (λ x. Seen n x s.system) (sym e) h

pub Fresh-later :
    (p p' state : WorkerState) (pc : WorkerPc)
    → (is_quit p ≡ true → is_quit p' ≡ true)
    → Fresh p state pc
    → Fresh p' state pc
Fresh-later p p' state (at_work entry) keep h = tt
Fresh-later p p' state (storing prev) keep h = h
Fresh-later p p' state (waiting prev) keep h = tt
Fresh-later p p' state (taking prev post) keep h = (h.0, λ q. keep (h.1 q))
Fresh-later p p' state (confirming prev post) keep h = λ q. keep (h q)

-- Who has left its loop, or is at the load that compares with Quit
abbrev pub Leaves : WorkerPc → Type 0
Leaves pc = (pc ≡ at_work quit) ⊎ ((prev : WorkerState) × (pc ≡ confirming prev quit))

pub Fresh-Leaves :
    (m : MasterPc) (i : ℕ) (published state : WorkerState) (pc : WorkerPc)
    → WorkerOk m i state pc
    → Fresh published state pc
    → state ≡ quit
    → Leaves pc
unfolding same code
Fresh-Leaves m i published state (at_work entry) ok h e = inl (ap at_work (sym ok.0 ∙ e))
Fresh-Leaves m i published state (storing prev) ok h e = absurd (false≢true (sym h ∙ ap is_quit e))
Fresh-Leaves m i published state (waiting prev) ok h e =
    absurd (false≢true (ap is_quit (sym ok ∙ e)))
Fresh-Leaves m i published state (taking prev post) ok h e =
    absurd (false≢true (sym h.0 ∙ ap is_quit e))
Fresh-Leaves m i published state (confirming prev post) ok h e =
    inr (prev, ap (confirming prev) (sym ok.0 ∙ e))
