-- ===== src/Tree/Ids.antt =====
-- The identifiers of the trees, by which a tree finds its worker: the constructor and the destructor of
-- BTree in include/backup/BTree.hpp, with the statics of BTreeBase. A mutex makes each of them one step.
-- `draws` are the numbers that the random engine will give.
use Prim.{absurd}
use aiotest.Prelude.{
  ℕ, zero, suc, ◌≤◌, ◌<◌, ◌≡◌, refl, ap, ◌∙◌, inl, inr, true, false, ◌==◌, ltb, ==_iff, Option,
  none, some, List, [], ◌∷◌, if◌then◌else◌, Bool-cases, arith,
}
use aiotest.Prelude.Word.{add64}
use aiotest.Worker.Ids.{count, without, count-without}

pub record Registered : Type 0 where
  pub used : List ℕ  -- usedID
  pub next : ℕ  -- IDCount

-- What `id` holds in the rounds of the loop: IDCount first, and then what `rand` gives.
abbrev pub candidate : (next : ℕ) → (draws : ℕ → ℕ) → ℕ → ℕ
candidate next draws zero = next
candidate next draws (suc k) = draws k

-- `for (; usedID.count(id); id = rand());`: `none` is no end within the fuel.
unfoldable pub pick : (fuel : ℕ) → List ℕ → (id : ℕ → ℕ) → Option ℕ
pick zero used id = none
pick (suc fuel) used id =
    let rest = pick fuel used (λ k. id (suc k)) in
    if ltb 0 (count (id 0) used) then rest else some (id 0)

-- The constructor: the identifiers after it, and that of the tree.
unfoldable pub register : (fuel : ℕ) → (draws : ℕ → ℕ) → Registered → Option (Registered × ℕ)
register fuel draws r = elim (pick fuel r.used (candidate r.next draws)) [
  | none ↦ none
  | some id ↦ some (record { used = id ∷ r.used; next = add64 r.next 1 }, id)
]

-- The destructor
unfoldable pub unregister : (id : ℕ) → Registered → Registered
unregister id r = record r { used = without id r.used }

all_taken :
    (used : List ℕ) (id : ℕ → ℕ) (j : ℕ)
    → ((i : ℕ) → i < j → 0 < count (id (suc i)) used)
    → ltb 0 (count (id 0) used) ≡ true
    → (i : ℕ) → i < suc j
    → 0 < count (id i) used
all_taken used id j first taken zero l = ground (arith, taken)
all_taken used id j first taken (suc i) l = first i (omega (arith, l))

-- The loop ends with the first candidate that is free.
pub pick_first :
    (fuel : ℕ) (used : List ℕ) (id : ℕ → ℕ) (k : ℕ)
    → k < fuel
    → count (id k) used ≡ 0
    → (j : ℕ) × (pick fuel used id ≡ some (id j))
      × (j ≤ k)
      × (count (id j) used ≡ 0)
      × ((i : ℕ) → i < j → 0 < count (id i) used)
unfolding pick
pick_first zero used id k lt free = absurd (omega (arith, lt))
pick_first (suc fuel) used id zero lt free =
    let open_id : ltb 0 (count (id 0) used) ≡ false = ground (arith, free) in
    (0, rw open_id refl, omega arith, free, λ i l. absurd (omega (arith, l)))
pick_first (suc fuel) used id (suc k) lt free =
    let (j, eq, le, open_id, first) =
      pick_first fuel used (λ i. id (suc i)) k (omega (arith, lt)) free in
    elim (Bool-cases (ltb 0 (count (id 0) used))) [
      | inr now ↦
          (0, rw now refl, omega arith, ground (arith, now), λ i l. absurd (omega (arith, l)))
      | inl taken ↦
          (suc j, rw taken eq, omega (arith, le), open_id, all_taken used id j first taken)
    ]

-- The trees that there are, by their identifiers.
pub record Trees : Type 0 where
  pub ids : Registered
  pub live : List ℕ

-- Trees are made, where a free number comes within `fuel` rounds, and destroyed.
pub data Step (t : Trees) : Trees → Type 0 where
  makes :
      (fuel : ℕ) (draws : ℕ → ℕ) {r : Registered} {id : ℕ}
      → register fuel draws t.ids ≡ some (r, id)
      → Step t (record { ids = r; live = id ∷ t.live })
  destroys :
      (id : ℕ)
      → 0 < count id t.live
      → Step t (record { ids = unregister id t.ids; live = without id t.live })

pub data Reach : Trees → Type 0 where
  initially : Reach (record { ids = record { used = []; next = 0 }; live = [] })
  then_step : {t u : Trees} → Reach t → Step t u → Reach u

-- The set holds the identifiers of the trees, and no two trees share one.
record AreApart (t : Trees) : Type 0 where
  same : t.ids.used ≡ t.live
  once : (x : ℕ) → count x t.live ≤ 1

pick_free :
    (fuel : ℕ) (used : List ℕ) (id : ℕ → ℕ) {j : ℕ} → pick fuel used id ≡ some j → count j used ≡ 0
unfolding pick
pick_free zero used id e = ground (arith, e)
pick_free (suc fuel) used id {j} e =
    ground (arith, e, pick_free fuel used (λ k. id (suc k)) {j = j})

-- What a constructor that ends has done.
register_inv :
    (fuel : ℕ) (draws : ℕ → ℕ) (r : Registered) {s : Registered} {id : ℕ}
    → register fuel draws r ≡ some (s, id)
    → (pick fuel r.used (candidate r.next draws) ≡ some id) × (s.used ≡ id ∷ r.used)
unfolding register
register_inv fuel draws r e = (ground (arith, e), ground (arith, e))

Step-AreApart : {t u : Trees} → Step t u → AreApart t → AreApart u
unfolding unregister
Step-AreApart {t = t} (makes fuel draws {r} {id} e) a =
    let (got, used) = register_inv fuel draws t.ids e in
    let free = pick_free fuel t.ids.used (candidate t.ids.next draws) got in
    record {
      same = used ∙ ap (λ l. id ∷ l) a.same;
      once = λ x. elim (Bool-cases (x == id)) [
        | inl q ↦
            ground (
              arith,
              q,
              free,
              ap (count x) a.same,
              ap (λ y. count y t.ids.used) ((==_iff x id).0 q),
            )
        | inr q ↦ ground (arith, q, a.once x)
      ];
    }
Step-AreApart {t = t} (destroys id there) a = record {
  same = ap (without id) a.same;
  once = λ x. omega (arith, a.once x, count-without x id t.live there);
}

Reach-AreApart : {t : Trees} → Reach t → AreApart t
Reach-AreApart initially = record { same = refl; once = λ x. omega arith }
Reach-AreApart (then_step r st) = Step-AreApart st (Reach-AreApart r)

-- However trees are made and destroyed, no two share an identifier. If one of IDCount and the numbers
-- that the random engine gives is free, within the fuel, then the constructor of the next tree ends: it
-- takes the first of them that no tree has.
pub trees-apart :
    (t : Trees) (fuel : ℕ) (draws : ℕ → ℕ) (k : ℕ)
    → Reach t
    → k < fuel
    → count (candidate t.ids.next draws k) t.live ≡ 0
    → ((x : ℕ) → count x t.live ≤ 1)
      × (j : ℕ) × (r : Registered) × (register fuel draws t.ids
          ≡ some (r, candidate t.ids.next draws j))
      × (count (candidate t.ids.next draws j) t.live ≡ 0)
      × ((i : ℕ) → i < j → 0 < count (candidate t.ids.next draws i) t.live)
unfolding register
trees-apart t fuel draws k reach lt free =
    let a = Reach-AreApart reach in
    let held = λ (x : ℕ). ap (count x) a.same in
    let id = candidate t.ids.next draws in
    let (j, eq, le, open_id, first) = pick_first fuel t.ids.used id k lt (held (id k) ∙ free) in
    (
      a.once,
      j,
      record { used = id j ∷ t.ids.used; next = add64 t.ids.next 1 },
      rw (register, eq) refl,
      omega (arith, open_id, held (id j)),
      λ i l. omega (arith, first i l, held (id i)),
    )
