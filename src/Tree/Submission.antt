-- ===== src/Tree/Submission.antt =====
-- What a call of the tree queues, and what it tells its caller about it.
use mathlib.Core.List.{append_assoc}
use aiotest.Prelude.{
  ℕ, Bool, true, false, ◌≡◌, refl, ap, List, [], ◌∷◌, ◌++◌, ltb, if◌then◌else◌, Bool-cases, inl,
  inr,
}
use aiotest.Request.{Request, State, running, rejected, done, default_request, new_request}
use aiotest.Tree.{Task, at_sync, push_pending, reject_io, issue, inject, hook}

-- The request that a call returns, by its state.
abbrev pub answered : State → Request
answered state = record default_request { state = state }

module _ {A : Type 0} where
  -- What a call promises for a piece of work: nothing is queued if the worker rejects at once; if it
  -- accepts both, the work and the notification behind it are queued and the request runs; if the
  -- worker starts to reject between the two, the work stays queued although the request is rejected.
  abbrev pub promise : (reject reject' : Bool) → List (Task A) → Task A → List (Task A) × State
  promise true _ queue work = (queue, rejected)
  promise false true queue work = (queue ++ work ∷ [], rejected)
  promise false false queue work = (queue ++ work ∷ at_sync ∷ [], running)

  abbrev pub promise_len :
      (len : ℕ) (reject reject' : Bool) → List (Task A) → Task A → List (Task A) × State
  promise_len len reject reject' queue work =
      if ltb len 1 then (queue, done) else promise reject reject' queue work

  two-appends : (q : List (Task A)) (a b : Task A) → (q ++ a ∷ []) ++ b ∷ [] ≡ q ++ a ∷ b ∷ []
  two-appends q a b = append_assoc q (a ∷ []) (b ∷ [])

  -- What a call returns, by the state of the request.
  abbrev pub full : List (Task A) × State → List (Task A) × Request
  full p = (p.0, answered p.1)

  pub issue_lem :
      (r r' : Bool) (q : List (Task A)) (len : ℕ) (w : Task A)
      → issue r r' q len w ≡ full (promise_len len r r' q w)
  unfolding issue push_pending reject_io default_request new_request
  issue_lem true r' q len w = elim (Bool-cases (ltb len 1)) [
    | inl e ↦ rw e refl
    | inr e ↦ rw e refl
  ]
  issue_lem false true q len w = elim (Bool-cases (ltb len 1)) [
    | inl e ↦ rw e refl
    | inr e ↦ rw e refl
  ]
  issue_lem false false q len w = elim (Bool-cases (ltb len 1)) [
    | inl e ↦ rw e refl
    | inr e ↦ rw e (ap (λ t. (t, default_request)) (two-appends q w at_sync))
  ]

  pub hook_lem :
      (r r' : Bool) (q : List (Task A)) (w : Task A) → hook r r' q w ≡ full (promise r r' q w)
  unfolding hook inject push_pending reject_io default_request new_request
  hook_lem true r' q w = refl
  hook_lem false true q w = refl
  hook_lem false false q w = ap (λ t. (t, default_request)) (two-appends q w at_sync)
