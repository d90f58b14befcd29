-- ===== src/Queue/Drain.antt =====
-- Claims of one queue, by whichever workers: each task of the current queue is handed out once.
use mathlib.Core.List.{reverse, reverse-cons}
use aiotest.Prelude.{
  ℕ, zero, suc, ◌≤◌, ◌<◌, ◌≡◌, refl, ◌∙◌, ap, sym, Bool, true, ◌&&◌, Option, none, some, List, [],
  ◌∷◌, ◌++◌, length, get_elem?, take, leb, arith,
}
use aiotest.Queue.{Queue, pos, negsuc, Phase, current_tasks, queue_of, setup, claim}

leb-suc : (k r : ℕ) → leb k r ≡ leb (suc k) (suc r)
leb-suc k r = ground arith

module _ {A : Type 0} where
  abbrev pub add_claimed : Option A → List A → List A
  add_claimed none rest = rest
  add_claimed (some a) rest = a ∷ rest

  -- The tasks that `k` claims in a row hand out, first claimed first, the queue after them, and
  -- whether all of them returned true. The order of the claims is that of the atomic `fetch_sub`, so
  -- this is every interleaving of the workers that run and steal from the queue.
  pub claims : ℕ → Queue A → List A × Queue A × Bool
  claims zero q = ([], q, true)
  claims (suc k) q =
      let (q', task, ok) = claim q in
      let (tasks, q'', more) = claims k q' in (add_claimed task tasks, q'', ok && more)

  -- The first `r` tasks, the last of them first.
  unfoldable pub downwards : List A → ℕ → List A
  downwards l zero = []
  downwards l (suc i) = add_claimed (get_elem? l i) (downwards l i)

  add_claimed-append :
      (o : Option A) (l : List A) (x : A) → add_claimed o (l ++ x ∷ []) ≡ add_claimed o l ++ x ∷ []
  add_claimed-append none l x = refl
  add_claimed-append (some a) l x = refl

  downwards-cons :
      (x : A) (l : List A) (r : ℕ)
      → r ≤ length l
      → downwards (x ∷ l) (suc r) ≡ downwards l r ++ x ∷ []
  unfolding downwards
  downwards-cons x l zero h = refl
  downwards-cons x l (suc r) h =
      ap (add_claimed (get_elem? l r)) (downwards-cons x l r (omega arith))
      ∙ add_claimed-append (get_elem? l r) (downwards l r) x

  pub downwards-all : (l : List A) → downwards l (length l) ≡ reverse l
  downwards-all [] = unfold downwards in refl
  downwards-all (x ∷ l) =
      downwards-cons x l (length l) (omega arith)
      ∙ (ap (λ t. t ++ x ∷ []) (downwards-all l) ∙ sym (reverse-cons x l))

  claims-over : (k n : ℕ) (q : Queue A) → (claims k (record q { remain = negsuc n })).0 ≡ []
  unfolding claims claim
  claims-over zero n q = refl
  claims-over (suc k) n q = claims-over k (suc n) q

  pub get_elem?-some : (l : List A) (i : ℕ) → i < length l → (a : A) × (get_elem? l i ≡ some a)
  get_elem?-some [] i h = ground arith
  get_elem?-some (x ∷ l) zero h = (x, refl)
  get_elem?-some (x ∷ l) (suc i) h = get_elem?-some l i (omega arith)

  take-add_claimed :
      (k : ℕ) (o : Option A) (l m : List A)
      → (a : A) × (o ≡ some a)
      → m ≡ take k l
      → add_claimed o m ≡ take (suc k) (add_claimed o l)
  take-add_claimed k o l m (a, e) h =
      ap (λ t. add_claimed t m) e
      ∙ (ap (λ t. a ∷ t) h ∙ ap (λ t. take (suc k) (add_claimed t l)) (sym e))

  claims-downwards :
      (k r : ℕ) (q : Queue A)
      → r ≤ length (current_tasks q)
      → ((claims k (record q { remain = pos r })).0 ≡ take k (downwards (current_tasks q) r))
        × ((claims k (record q { remain = pos r })).2 ≡ leb k r)
  unfolding claims claim downwards
  claims-downwards zero r q h = (refl, ground arith)
  claims-downwards (suc k) zero q h = (claims-over k 0 q, ground arith)
  claims-downwards (suc k) (suc r) q h =
      let (tasks, more) = claims-downwards k r q (omega arith) in
      (
        take-add_claimed k _ _ _ (get_elem?-some (current_tasks q) r (omega arith)) tasks,
        more ∙ leb-suc k r,
      )

  -- Any `k` claims after a phase is set up, whichever workers make them, hand out the first `k` tasks
  -- of the phase's queue taken from its end, each once, and all of them return true exactly if there
  -- were at least `k` tasks. So the claim that returns false first comes when every task is handed out.
  pub drained :
      (k : ℕ) (q : Queue A) (p : Phase)
      → ((claims k (setup q p)).0 ≡ take k (reverse (queue_of p q)))
        × ((claims k (setup q p)).2 ≡ leb k (length (queue_of p q)))
  unfolding setup
  drained k q p =
      let l = queue_of p q in
      let (tasks, more) = claims-downwards k (length l) (setup q p) (omega arith) in
      (tasks ∙ ap (take k) (downwards-all l), more)
