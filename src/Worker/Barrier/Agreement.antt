-- ===== src/Worker/Barrier/Agreement.antt =====
-- No worker is in a phase that another one has left for the next: the barrier holds them together.
use Prim.{absurd}
use mathlib.Core.Bool.{false≢true}
use aiotest.Prelude.{
  ℕ, ◌+◌, ◌≤◌, ◌<◌, ◌≡◌, refl, ap, subst, sym, ◌∙◌, Bool, true, false, ◌==◌, ==_iff, ltb,
  if◌then◌else◌, Bool-cases, inl, inr, arith,
}
use aiotest.Worker.{WorkerState, sync}
use aiotest.Worker.Barrier.{
  code, same, MasterPc, in_body, scanning, deciding, WorkerPc, at_work, storing, waiting, taking,
  confirming, Local, System, master_move, worker_move, after_master, after_worker, Step, of_master,
  of_worker, Reach, start, later,
}
use aiotest.Worker.Barrier.Codes.{same_eq, same_refl}

abbrev pub is_sync : WorkerState → Bool
is_sync s = same s sync

-- What the published state says of where the first worker is.
abbrev pub MasterOk : WorkerState → MasterPc → Type 0
MasterOk p (in_body entry) = (p ≡ entry) × (is_sync entry ≡ false)
MasterOk p (scanning entry next) = p ≡ sync
MasterOk p (deciding entry) = p ≡ sync

-- When worker `i` may be in the body of `phase`.
abbrev pub MayWork : MasterPc → ℕ → WorkerState → Type 0
MayWork (in_body entry) i phase = phase ≡ entry
MayWork (scanning entry next) i phase = (phase ≡ entry) × (next ≤ i)
MayWork (deciding entry) i phase = false ≡ true

abbrev pub WorkerOk : MasterPc → ℕ → WorkerState → WorkerPc → Type 0
WorkerOk m i state (at_work entry) = (state ≡ entry) × (is_sync entry ≡ false) × MayWork m i entry
WorkerOk m i state (storing prev) = Unit {0}
WorkerOk m i state (waiting prev) = state ≡ sync
WorkerOk m i state (taking prev post) = is_sync post ≡ false
WorkerOk m i state (confirming prev post) = (state ≡ post) × (is_sync post ≡ false)

sync_differs : (s : WorkerState) → is_sync s ≡ false → s ≡ sync → false ≡ true
sync_differs s h e = sym h ∙ ap is_sync e ∙ same_refl sync

-- Who finds the published state to be a phase may work in it.
enters :
    (m : MasterPc) (i : ℕ) (published post : WorkerState)
    → MasterOk published m
    → published ≡ post
    → is_sync post ≡ false
    → MayWork m i post
enters (in_body entry) i published post ok e h = sym e ∙ ok.0
enters (scanning entry next) i published post ok e h =
    absurd (false≢true (sync_differs post h (sym e ∙ ok)))
enters (deciding entry) i published post ok e h = sync_differs post h (sym e ∙ ok)

worker-keeps :
    (m : MasterPc) (i : ℕ) (published state : WorkerState) (pc : WorkerPc)
    → MasterOk published m
    → WorkerOk m i state pc
    → let l = worker_move published state pc in WorkerOk m i l.state l.pc
unfolding worker_move
worker-keeps m i published state (at_work entry) ok h = tt
worker-keeps m i published state (storing prev) ok h = refl
worker-keeps m i published state (waiting prev) ok h = elim (Bool-cases (same published prev)) [
  | inl e ↦ rw e h
  | inr e ↦ elim (Bool-cases (same published sync)) [ inl g ↦ rw (e, g) h | inr g ↦ rw (e, g) g ]
]
worker-keeps m i published state (taking prev post) ok h = (refl, h)
worker-keeps m i published state (confirming prev post) ok h =
    elim (Bool-cases (same published post)) [
      | inl e ↦ rw e (h.0, h.1, enters m i published post ok (same_eq published post e) h.1)
      | inr e ↦ rw e tt
    ]

-- What worker `i` may do while the first worker does not come past it.
abbrev Later : MasterPc → MasterPc → ℕ → Type 0
Later m m' i =
    (phase : WorkerState) → is_sync phase ≡ false → MayWork m i phase → MayWork m' i phase

Later-WorkerOk :
    (m m' : MasterPc) (i : ℕ) (state : WorkerState) (pc : WorkerPc)
    → Later m m' i
    → WorkerOk m i state pc
    → WorkerOk m' i state pc
Later-WorkerOk m m' i state (at_work entry) keep h = (h.0, h.1, keep entry h.1 h.2)
Later-WorkerOk m m' i state (storing prev) keep h = h
Later-WorkerOk m m' i state (waiting prev) keep h = h
Later-WorkerOk m m' i state (taking prev post) keep h = h
Later-WorkerOk m m' i state (confirming prev post) keep h = h

-- A worker whose state is Sync is not at work.
passed :
    (entry : WorkerState) (next : ℕ) (state : WorkerState) (pc : WorkerPc)
    → same state sync ≡ true
    → WorkerOk (scanning entry next) next state pc
    → WorkerOk (scanning entry (next + 1)) next state pc
passed entry next state (at_work phase) e h =
    absurd (false≢true (sync_differs phase h.1 (sym h.0 ∙ same_eq state sync e)))
passed entry next state (storing prev) e h = h
passed entry next state (waiting prev) e h = h
passed entry next state (taking prev post) e h = h
passed entry next state (confirming prev post) e h = h

pub record Inv (n : ℕ) (s : System) : Type 0 where
  pub master : MasterOk s.published s.master
  pub workers : (i : ℕ) → i < n → WorkerOk s.master i (s.worker i).state (s.worker i).pc

module _ {n : ℕ} {s : System} (inv : Inv n s) where
  worker-Inv : (i : ℕ) → i < n → Inv n (after_worker i s)
  unfolding after_worker
  worker-Inv i lt = record {
    master = inv.master;
    workers = λ j lt'. elim (Bool-cases (j == i)) [
      | inl e ↦
          let same_worker : j ≡ i = (==_iff j i).0 e in
          rw e (
            subst
              (λ k.
                let l = worker_move s.published (s.worker i).state (s.worker i).pc in
                WorkerOk s.master k l.state l.pc)
              (sym same_worker)
              (worker-keeps s.master i s.published (s.worker i).state (s.worker i).pc inv.master
                (inv.workers i lt)))
      | inr e ↦ rw e (inv.workers j lt')
    ];
  }

scan-WorkerOk :
    (entry : WorkerState) (next i : ℕ) (l : Local) (passes : Bool)
    → (i ≡ next → passes ≡ true → same l.state sync ≡ true)
    → WorkerOk (scanning entry next) i l.state l.pc
    → WorkerOk (if passes then scanning entry (next + 1) else scanning entry next) i l.state l.pc
scan-WorkerOk entry next i l false test h = h
scan-WorkerOk entry next i l true test h = elim (Bool-cases (i == next)) [
  | inl e ↦
      let here : i ≡ next = (==_iff i next).0 e in
      subst (λ k. WorkerOk (scanning entry (next + 1)) k l.state l.pc) (sym here)
        (passed entry next l.state l.pc (test here refl)
          (subst (λ k. WorkerOk (scanning entry next) k l.state l.pc) here h))
  | inr e ↦
      Later-WorkerOk (scanning entry next) (scanning entry (next + 1)) i l.state l.pc
        (λ phase free may. (may.0, ground (arith, e, may.1))) h
]

scan-MasterOk :
    (published entry : WorkerState) (next : ℕ) (passes : Bool)
    → published ≡ sync
    → MasterOk published (if passes then scanning entry (next + 1) else scanning entry next)
scan-MasterOk published entry next true h = h
scan-MasterOk published entry next false h = h

master-Inv :
    (n : ℕ) (post published : WorkerState) (m : MasterPc) (workers : ℕ → Local)
    → same post sync ≡ false
    → Inv n (record { published = published; master = m; worker = workers })
    → let r = master_move n post published m workers in
      Inv n (record { published = r.0; master = r.1; worker = workers })
unfolding master_move
master-Inv n post published (in_body entry) workers free inv = record {
  master = refl;
  workers = λ i lt.
      Later-WorkerOk (in_body entry) (scanning entry 0) i _ _ (λ phase f may. (may, omega arith))
        (inv.workers i lt);
}
master-Inv n post published (scanning entry next) workers free inv =
    elim (Bool-cases (ltb next n)) [
      | inl e ↦ rw e (record {
        master = scan-MasterOk published entry next (same (workers next).state sync) inv.master;
        workers = λ i lt.
            scan-WorkerOk entry next i (workers i) (same (workers next).state sync)
              (λ here free'. subst (λ k. same (workers k).state sync ≡ true) (sym here) free')
              (inv.workers i lt);
      })
      | inr e ↦ rw e (record {
        master = inv.master;
        workers = λ i lt.
            Later-WorkerOk (scanning entry next) (deciding entry) i _ _
              (λ phase f may. absurd (ground (arith, e, lt, may.1))) (inv.workers i lt);
      })
    ]
master-Inv n post published (deciding entry) workers free inv = record {
  master = (refl, free);
  workers = λ i lt.
      Later-WorkerOk (deciding entry) (in_body post) i _ _ (λ phase f may. absurd (false≢true may))
        (inv.workers i lt);
}

Step-Inv : {n : ℕ} {s t : System} → Inv n s → Step n s t → Inv n t
unfolding after_master
Step-Inv {n} {s} inv (of_master post free) =
    master-Inv n post s.published s.master s.worker free inv
Step-Inv inv (of_worker i lt) = worker-Inv inv i lt

pub Reach-Inv : {n : ℕ} {s : System} → Reach n s → Inv n s
unfolding same code
Reach-Inv start = record { master = (refl, refl); workers = λ i lt. (refl, refl, refl) }
Reach-Inv (later r step) = Step-Inv (Reach-Inv r) step

-- The phase that the first worker is in, or came from.
abbrev pub last_entry : MasterPc → WorkerState
last_entry (in_body entry) = entry
last_entry (scanning entry next) = entry
last_entry (deciding entry) = entry

abbrev pub is_deciding : MasterPc → Bool
is_deciding (deciding entry) = true
is_deciding _ = false

MayWork-last_entry :
    (m : MasterPc) (i : ℕ) (phase : WorkerState)
    → MayWork m i phase
    → (phase ≡ last_entry m) × (is_deciding m ≡ false)
MayWork-last_entry (in_body entry) i phase h = (h, refl)
MayWork-last_entry (scanning entry next) i phase h = (h.0, refl)
MayWork-last_entry (deciding entry) i phase h = absurd (false≢true h)

-- In every state that the workers reach, in any order of their steps: a worker that is at work in a
-- phase is in the phase that the first worker is in or came from, so that no two workers are in
-- different phases; and no worker is at work while the first one decides and touches their queues.
pub phases-agree :
    {n : ℕ} {s : System}
    → Reach n s
    → (i : ℕ) (phase : WorkerState) → i < n
    → (s.worker i).pc ≡ at_work phase
    → (phase ≡ last_entry s.master) × (is_deciding s.master ≡ false)
phases-agree {n} {s} r i phase lt e =
    let inv = Reach-Inv r in
    let h : WorkerOk s.master i (s.worker i).state (at_work phase) =
      subst (λ pc. WorkerOk s.master i (s.worker i).state pc) e (inv.workers i lt) in
    MayWork-last_entry s.master i phase h.2
