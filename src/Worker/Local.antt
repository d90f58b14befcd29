-- ===== src/Worker/Local.antt =====
-- Worker::getTL of include/backup/Worker.hpp: the table with one item for each thread, which the engines
-- use for their streams. The spin lock around it makes it one step; `item` is what a new item holds.
use aiotest.Prelude.{
  ℕ, zero, suc, ◌≡◌, refl, ap, ◌∙◌, ◌⊎◌, inl, inr, Bool-cases, Option-cases, ==_iff, true, false,
  Option, none, some, List, [], ◌∷◌, get_elem?, ◌==◌, if◌then◌else◌, arith,
}

zero==suc : (n : ℕ) → (0 == suc n) ≡ false
zero==suc n = ground arith

suc==zero : (n : ℕ) → (suc n == 0) ≡ false
suc==zero n = ground arith

suc==suc : (i n : ℕ) → (suc i == suc n) ≡ (i == n)
suc==suc i n = ground arith

module _ {T : Type 0} where
  -- `table[sgid].reset(item)`
  abbrev pub reset : List (Option T) → (sgid : ℕ) → T → List (Option T)
  reset [] sgid item = []
  reset (x ∷ xs) zero item = some item ∷ xs
  reset (x ∷ xs) (suc sgid) item = x ∷ reset xs sgid item

  -- `table.resize(sgid)` of a table that is not longer, and `emplace_back(item)`
  abbrev pub extend : List (Option T) → (sgid : ℕ) → T → List (Option T)
  extend [] zero item = some item ∷ []
  extend [] (suc sgid) item = none ∷ extend [] sgid item
  extend (x ∷ xs) zero item = x ∷ xs
  extend (x ∷ xs) (suc sgid) item = x ∷ extend xs sgid item

  unfoldable pub get_tl : List (Option T) → (sgid : ℕ) → (item : T) → List (Option T) × T
  get_tl table sgid item = elim (get_elem? table sgid) [
    | none ↦ (extend table sgid item, item)
    | some slot ↦ elim slot [ some old ↦ (table, old) | none ↦ (reset table sgid item, item) ]
  ]

  -- The item in a slot, if the table has it.
  abbrev pub item_at : List (Option T) → ℕ → Option T
  item_at [] i = none
  item_at (x ∷ xs) zero = x
  item_at (x ∷ xs) (suc i) = item_at xs i

  get_elem?-item :
      (table : List (Option T)) (s : ℕ) (x : T)
      → item_at table s ≡ some x
      → get_elem? table s ≡ some (some x)
  get_elem?-item [] s x e = ground arith
  get_elem?-item (y ∷ ys) zero x e = ap some e
  get_elem?-item (y ∷ ys) (suc s) x e = get_elem?-item ys s x e

  item-reset :
      (table : List (Option T)) (s i : ℕ) (x : T)
      → get_elem? table s ≡ some none
      → item_at (reset table s x) i ≡ (if i == s then some x else item_at table i)
  item-reset [] s i x e = ground arith
  item-reset (y ∷ ys) zero zero x e = refl
  item-reset (y ∷ ys) zero (suc i) x e = rw (suc==zero i) refl
  item-reset (y ∷ ys) (suc s) zero x e = rw (zero==suc s) refl
  item-reset (y ∷ ys) (suc s) (suc i) x e = rw (suc==suc i s) (item-reset ys s i x e)

  item-extend :
      (table : List (Option T)) (s i : ℕ) (x : T)
      → get_elem? table s ≡ none
      → item_at (extend table s x) i ≡ (if i == s then some x else item_at table i)
  item-extend [] zero zero x e = refl
  item-extend [] zero (suc i) x e = rw (suc==zero i) refl
  item-extend [] (suc s) zero x e = rw (zero==suc s) refl
  item-extend [] (suc s) (suc i) x e = rw (suc==suc i s) (item-extend [] s i x refl)
  item-extend (y ∷ ys) zero i x e = ground arith
  item-extend (y ∷ ys) (suc s) zero x e = rw (zero==suc s) refl
  item-extend (y ∷ ys) (suc s) (suc i) x e = rw (suc==suc i s) (item-extend ys s i x e)

  found :
      (table : List (Option T)) (sgid : ℕ) (item old : T)
      → item_at table sgid ≡ some old
      → get_tl table sgid item ≡ (table, old)
  unfolding get_tl
  found table sgid item old e = rw (get_elem?-item table sgid old e, get_tl) refl

  get_elem?-none :
      (table : List (Option T)) (s : ℕ)
      → item_at table s ≡ none
      → (get_elem? table s ≡ none) ⊎ (get_elem? table s ≡ some none)
  get_elem?-none [] s e = inl refl
  get_elem?-none (y ∷ ys) zero e = inr (ap some e)
  get_elem?-none (y ∷ ys) (suc s) e = get_elem?-none ys s e

  -- The tables that differ from `table` in holding `item` in the slot.
  abbrev Holds : (table table' : List (Option T)) (sgid : ℕ) (item : T) → Type 0
  Holds table table' sgid item =
      (i : ℕ) → item_at table' i ≡ (if i == sgid then some item else item_at table i)

  get_tl-new :
      (table : List (Option T)) (sgid : ℕ) (item : T)
      → item_at table sgid ≡ none
      → (table' : List (Option T)) × (get_tl table sgid item ≡ (table', item))
        × Holds table table' sgid item
  unfolding get_tl
  get_tl-new table sgid item e = elim (get_elem?-none table sgid e) [
    | inl beyond ↦ (
      extend table sgid item,
      rw (beyond, get_tl) refl,
      λ i. item-extend table sgid i item beyond,
    )
    | inr vacant ↦
        (reset table sgid item, rw (vacant, get_tl) refl, λ i. item-reset table sgid i item vacant)
  ]

  old-Holds :
      (table : List (Option T)) (sgid : ℕ) (old : T)
      → item_at table sgid ≡ some old
      → Holds table table sgid old
  old-Holds table sgid old e i = elim (Bool-cases (i == sgid)) [
    | inl same ↦ rw same (ap (item_at table) ((==_iff i sgid).0 same) ∙ e)
    | inr other ↦ rw other refl
  ]

  new-found :
      (table table' : List (Option T)) (sgid : ℕ) (item : T)
      → Holds table table' sgid item
      → item_at table' sgid ≡ some item
  new-found table table' sgid item h =
      let same : (sgid == sgid) ≡ true = ground arith in h sgid ∙ rw same refl

  -- A thread gets the item of its slot, or the new item if the slot is empty or beyond the table. The
  -- table then has that item in the slot and every other item where it was, and the thread gets the
  -- same item, whatever a new one would hold, and leaves the table alone when it asks again.
  get_tl-keeps :
      (table : List (Option T)) (sgid i : ℕ) (item item' : T)
      → let r = get_tl table sgid item in
        (r.1 ≡ (elim (item_at table sgid) [ none ↦ item | some old ↦ old ]))
        × (item_at r.0 i ≡ (if i == sgid then some r.1 else item_at table i))
        × (get_tl r.0 sgid item' ≡ r)
  get_tl-keeps table sgid i item item' = elim (Option-cases (item_at table sgid)) [
    | inl e ↦
        let (table', made, holds) = get_tl-new table sgid item e in
        rw (made, e)
          (refl, holds i, found table' sgid item' item (new-found table table' sgid item holds))
    | inr (old, e) ↦
        rw (found table sgid item old e, e)
          (refl, old-Holds table sgid old e i, found table sgid item' old e)
  ]
