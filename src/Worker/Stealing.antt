-- ===== src/Worker/Stealing.antt =====
-- Worker::steal of src/backup/Worker.cpp: a worker claims from its own queue and then from those of the
-- others until nothing is left. What the tasks do when they run is in the models of the tasks; they
-- push to other queues than the one that is claimed from.
use mathlib.Core.List.{reverse}
use aiotest.Prelude.{
  ℕ, zero, suc, ◌+◌, ◌-◌, ◌≤◌, ◌<◌, ◌≡◌, refl, ap, sym, ◌∙◌, Bool-cases, inl, inr, Bool, true,
  false, ◌==◌, ◌&&◌, leb, ltb, ==_iff, Option, none, some, List, [], ◌∷◌, ◌++◌, length,
  if◌then◌else◌, arith,
}
use aiotest.Queue.{Queue, pos, negsuc, Phase, current_tasks, queue_of, setup, claim}
use aiotest.Queue.Drain.{add_claimed, downwards, downwards-all}
use aiotest.Worker.Ids.{count}

-- `from`, and the numbers after it, `times` in all
abbrev pub count_up : (from times : ℕ) → List ℕ
count_up from zero = []
count_up from (suc times) = from ∷ count_up (from + 1) times

-- The queues in the order of the three loops.
abbrev pub order : (id size : ℕ) → List ℕ
order id size = id ∷ count_up (id + 1) (size - (id + 1)) ++ count_up 0 id

module _ {A : Type 0} where
  -- `for (; queue(); )`: the tasks, first claimed first, and the queue. `none` is no end within the fuel.
  unfoldable pub drain : (fuel : ℕ) → Queue A → Option (List A × Queue A)
  drain zero q = none
  drain (suc fuel) q =
      let (q', task, ok) = claim q in
      let rest = drain fuel q' in
      if ok
      then elim rest [ none ↦ none | some r ↦ some (add_claimed task r.0, r.1) ]
      else some ([], q')

  abbrev pub put_queue : (ℕ → Queue A) → ℕ → Queue A → ℕ → Queue A
  put_queue qs i q j = if j == i then q else qs j

  unfoldable pub steal_in : (fuel : ℕ) → List ℕ → (ℕ → Queue A) → Option (List A × (ℕ → Queue A))
  steal_in fuel [] qs = some ([], qs)
  steal_in fuel (i ∷ is) qs = elim (drain fuel (qs i)) [
    | none ↦ none
    | some r ↦ elim (steal_in fuel is (put_queue qs i r.1)) [
      | none ↦ none
      | some s ↦ some (r.0 ++ s.0, s.1)
    ]
  ]

  unfoldable pub steal :
      (fuel : ℕ) → (id size : ℕ) → (ℕ → Queue A) → Option (List A × (ℕ → Queue A))
  steal fuel id size qs = steal_in fuel (order id size) qs

  -- A queue from which everything has been claimed, and one claim more.
  abbrev over : Queue A → Queue A
  over q = record q { remain = negsuc 0 }

  drain-downwards :
      (fuel r : ℕ) (q : Queue A)
      → r < fuel
      → r ≤ length (current_tasks q)
      → drain fuel (record q { remain = pos r }) ≡ some (downwards (current_tasks q) r, over q)
  unfolding drain claim downwards
  drain-downwards zero r q h le = ground (arith, h)
  drain-downwards (suc fuel) zero q h le = refl
  drain-downwards (suc fuel) (suc r) q h le =
      let rest = drain-downwards fuel r q (omega arith) (omega arith) in rw rest refl

  drain-setup :
      (fuel : ℕ) (p : Phase) (q : Queue A)
      → length (queue_of p q) < fuel
      → drain fuel (setup q p) ≡ some (reverse (queue_of p q), over (setup q p))
  unfolding setup
  drain-setup fuel p q h =
      drain-downwards fuel (length (queue_of p q)) (setup q p) h (omega arith)
      ∙ ap (λ l. some (l, over (setup q p))) (downwards-all (queue_of p q))

count_up-count :
    (x from times : ℕ)
    → count x (count_up from times) ≡ (if leb from x && ltb x (from + times) then 1 else 0)
count_up-count x from zero = ground arith
count_up-count x from (suc times) = let ih = count_up-count x (from + 1) times in ground (arith, ih)

count-append : (x : ℕ) (xs ys : List ℕ) → count x (xs ++ ys) ≡ count x xs + count x ys
count-append x [] ys = omega arith
count-append x (z ∷ xs) ys = let ih = count-append x xs ys in ground (arith, ih)

count-order : (x id size : ℕ) → id < size → count x (order id size) ≡ (if ltb x size then 1 else 0)
count-order x id size h =
    let later = count_up-count x (id + 1) (size - (id + 1)) in
    let before = count_up-count x 0 id in
    ground
      (arith, later, before, count-append x (count_up (id + 1) (size - (id + 1))) (count_up 0 id))

either : {A : Type 0} (b : Bool) (x y : A) → x ≡ y → (if b then x else y) ≡ y
either true x y e = e
either false x y e = refl

module _ {A : Type 0} (p : Phase) (qs : ℕ → Queue A) where
  -- The tasks of the phase in the queues of the list, each queue from its end.
  abbrev pub all_tasks : List ℕ → List A
  all_tasks [] = []
  all_tasks (i ∷ is) = reverse (queue_of p (qs i)) ++ all_tasks is

  -- The queues are set up for the phase in the list, where each is named once.
  record AreSetUp (is : List ℕ) (at : ℕ → Queue A) : Type 0 where
    once : (i : ℕ) → count i is ≤ 1
    set_up : (i : ℕ) → 0 < count i is → at i ≡ setup (qs i) p

  next-AreSetUp :
      (i : ℕ) (is : List ℕ) (at : ℕ → Queue A) (q : Queue A)
      → AreSetUp (i ∷ is) at
      → AreSetUp is (put_queue at i q)
  next-AreSetUp i is at q s = record {
    once = λ j. ground (arith, s.once j);
    set_up = λ j here. elim (Bool-cases (j == i)) [
      | inl e ↦ ground (arith, here, s.once j, e)
      | inr e ↦ rw e (s.set_up j (ground (arith, here, e)))
    ];
  }

  next_queue :
      (i : ℕ) (is : List ℕ) (at : ℕ → Queue A) (j : ℕ)
      → (if 0 == count j is
          then put_queue at i (over (setup (qs i) p)) j
          else over (setup (qs j) p))
        ≡ (if 0 == count j (i ∷ is) then at j else over (setup (qs j) p))
  next_queue i is at j = elim (Bool-cases (j == i)) [
    | inl e ↦
        let same : i ≡ j = sym ((==_iff j i).0 e) in
        let some_left : (0 == suc (count j is)) ≡ false = ground arith in
        rw (e, some_left) (either (0 == count j is) _ _ (ap (λ k. over (setup (qs k) p)) same))
    | inr e ↦ rw e refl
  ]

  steal_in-all :
      (fuel : ℕ) (is : List ℕ) (at : ℕ → Queue A)
      → AreSetUp is at
      → ((i : ℕ) → length (queue_of p (qs i)) < fuel)
      → (r : ℕ → Queue A) × (steal_in fuel is at ≡ some (all_tasks is, r))
        × ((i : ℕ) → r i ≡ (if 0 == count i is then at i else over (setup (qs i) p)))
  unfolding steal_in
  steal_in-all fuel [] at s enough = (at, refl, λ i. refl)
  steal_in-all fuel (i ∷ is) at s enough =
      let here : at i ≡ setup (qs i) p = s.set_up i (ground arith) in
      let first : drain fuel (at i) ≡ some (reverse (queue_of p (qs i)), over (setup (qs i) p)) =
        ap (drain fuel) here ∙ drain-setup fuel p (qs i) (enough i) in
      let left = put_queue at i (over (setup (qs i) p)) in
      let (r, eq, done) =
        steal_in-all fuel is left (next-AreSetUp i is at (over (setup (qs i) p)) s) enough in
      (r, rw (steal_in, first, eq) refl, λ j. done j ∙ next_queue i is at j)

module _ {A : Type 0} (p : Phase) (qs : ℕ → Queue A) (fuel id size : ℕ) where
  -- A worker of `size` workers whose queues are all set up for a phase, where no other worker claims from
  -- them: the loops of its steal end with more fuel than the longest queue. It has run every task of
  -- the phase, first those of its own queue, then those of the workers after it, then those of the
  -- workers before it, each queue from its end; it goes to each queue once; and a further claim from
  -- any of them returns false.
  pub steal_all :
      id < size
      → ((i : ℕ) → length (queue_of p (qs i)) < fuel)
      → (r : ℕ → Queue A) × (steal fuel id size (λ i. setup (qs i) p)
          ≡ some (all_tasks p qs (order id size), r))
        × ((i : ℕ) → count i (order id size) ≡ (if ltb i size then 1 else 0))
        × ((i : ℕ) → i < size → (claim (r i)).2 ≡ false)
  unfolding steal claim
  steal_all h enough =
      let at_start : AreSetUp p qs (order id size) (λ i. setup (qs i) p) = record {
        once = λ i. ground (arith, count-order i id size h);
        set_up = λ i here. refl;
      } in
      let (r, eq, done) =
        steal_in-all p qs fuel (order id size) (λ i. setup (qs i) p) at_start enough in
      (
        r,
        eq,
        λ i. count-order i id size h,
        λ i lt.
            let visited : (0 == count i (order id size)) ≡ false =
              ground (arith, count-order i id size h) in
            let over_i : r i ≡ over (setup (qs i) p) = rw visited at (done i) in
            ap (λ q. (claim q).2) over_i,
      )
