-- ===== src/Siblings/Places.antt =====
-- Where the leaves below a node stand, and what one of them does to the others.
use Prim.{absurd}
use native.Mathlib.Nat.{mul-le-mul_right, one-le-pow, div-add-mod', mod-lt, div-lt_iff_lt-mul}
use aiotest.Prelude.{
  ℕ, ◌+◌, ◌-◌, ◌*◌, ◌/◌, ◌^◌, ◌≤◌, ◌<◌, ◌≡◌, ◌⊎◌, List, [], ◌∷◌, sym, ap, ◌∙◌, subst, inl, inr,
  true, false, ◌&&◌, ◌==◌, ==_iff, ltb, leb, Bool-cases, arith,
}
use aiotest.Prelude.Bytes.{Bytes, copy}
use aiotest.Engine.{Engine}
use aiotest.Cache.{Cell}
use aiotest.Cache.View.{view, SameBytes, IsCoherent}
use aiotest.Node.{Piece}
use aiotest.Siblings.{Siblings, under, shared_of, child, put_child, view_below}

-- A request for one of the children of a node
pub record InChild (n m start : ℕ) (p : Piece) : Type 0 where
  pub index : p.index < 2 ^ n
  pub low : start + p.index * 2 ^ m ≤ p.begin
  pub order : p.begin < p.end
  pub high : p.end ≤ start + p.index * 2 ^ m + 2 ^ m
  pub word : p.end < 2 ^ 64

grow : (m j k : ℕ) → j + 1 ≤ k → j * 2 ^ m + 2 ^ m ≤ k * 2 ^ m
grow m j k h = omega (arith, mul-le-mul_right (2 ^ m) h)

pub apart :
    (m j k : ℕ)
    → (j == k) ≡ false
    → (j * 2 ^ m + 2 ^ m ≤ k * 2 ^ m) ⊎ (k * 2 ^ m + 2 ^ m ≤ j * 2 ^ m)
apart m j k e = elim (Bool-cases (ltb j k)) [
  | inl l ↦ let lt : j + 1 ≤ k = ground (arith, l) in inl (grow m j k lt)
  | inr l ↦ let lt : k + 1 ≤ j = ground (arith, l, e) in inr (grow m k j lt)
]

module _ (n m start : ℕ) where
  -- The child that a position belongs to
  pub child_place :
      (i : ℕ)
      → start ≤ i
      → i < start + 2 ^ n * 2 ^ m
      → let k = (i - start) / 2 ^ m in
        (k < 2 ^ n) × (start + k * 2 ^ m ≤ i) × (i < start + k * 2 ^ m + 2 ^ m)
  child_place i lo hi =
      let page : 0 < 2 ^ m = one-le-pow m 2 (omega arith) in
      let lt : (i - start) / 2 ^ m < 2 ^ n = (div-lt_iff_lt-mul page).1 (omega (arith, lo, hi)) in
      (
        lt,
        omega (arith, lo, div-add-mod' (i - start) (2 ^ m)),
        omega (arith, lo, div-add-mod' (i - start) (2 ^ m), mod-lt (i - start) page),
      )

module _ {E : Engine} (n m start : ℕ) where
  pub record AllCoherent (s : Siblings E) : Type 0 where
    pub coherent : (j : ℕ) → j < 2 ^ n → IsCoherent m (child s j)
    pub place : (j : ℕ) → j < 2 ^ n → (child s j).offset ≡ start + j * 2 ^ m

  -- What a child reads and writes outside of its page is the file.
  pub view_outside :
      (c : Cell E) (i : ℕ)
      → c.effective ≤ 2 ^ m
      → (i < c.offset) ⊎ (c.offset + 2 ^ m ≤ i)
      → view c i ≡ E.bytes c.file i
  view_outside c i fits out = ground (arith, fits, out)

  -- Within a child's page, the leaves are read through that child.
  pub view_below_lem :
      (s : Siblings E) (j i : ℕ)
      → j < 2 ^ n
      → start + j * 2 ^ m ≤ i
      → i < start + j * 2 ^ m + 2 ^ m
      → view_below n m start s i ≡ view (child s j) i
  view_below_lem s j i index lo hi =
      let top = grow m j (2 ^ n) (omega (arith, index)) in
      let in_node : (leb start i && ltb i (start + 2 ^ n * 2 ^ m)) ≡ true =
        ground (arith, lo, hi, top) in
      let spot = child_place n m start i (omega (arith, lo)) (omega (arith, hi, top)) in
      let k = (i - start) / 2 ^ m in
      let here : k ≡ j = elim (Bool-cases (j == k)) [
        | inl e ↦ sym ((==_iff j k).0 e)
        | inr e ↦ elim (apart m j k e) [
          | inl h ↦ absurd (omega (arith, h, hi, spot.1))
          | inr h ↦ absurd (omega (arith, h, lo, spot.2))
        ]
      ] in
      rw in_node (ap (λ x. view (child s x) i) here)

-- Child `j` is replaced by `c`, which stands in the same place and has not changed what stands elsewhere.
module _ {E : Engine} {n m start : ℕ} {s : Siblings E} (good : AllCoherent n m start s) (j : ℕ)
    (index : j < 2 ^ n) (c : Cell E) (fresh_one : IsCoherent m c)
    (place : c.offset ≡ (child s j).offset)
    (keeps : (i : ℕ)
      → (i < start + j * 2 ^ m) ⊎ (start + j * 2 ^ m + 2 ^ m ≤ i)
      → view c i ≡ view (child s j) i) where
  abbrev Outside : ℕ → Type 0
  Outside i = (i < start + j * 2 ^ m) ⊎ (start + j * 2 ^ m + 2 ^ m ≤ i)

  at_place : c.offset ≡ start + j * 2 ^ m
  at_place = place ∙ good.place j index

  file-Outside : (i : ℕ) → Outside i → E.bytes c.file i ≡ E.bytes s.shared.file i
  file-Outside i out =
      sym (
        view_outside n m start c i fresh_one.fits
          (subst (λ x. (i < x) ⊎ (x + 2 ^ m ≤ i)) (sym at_place) out))
      ∙ keeps i out
      ∙ view_outside n m start (child s j) i (good.coherent j index).fits
          (subst (λ x. (i < x) ⊎ (x + 2 ^ m ≤ i)) (sym (good.place j index)) out)

  other_page :
      (k i : ℕ)
      → (j == k) ≡ false
      → start + k * 2 ^ m ≤ i
      → i < start + k * 2 ^ m + 2 ^ m
      → Outside i
  other_page k i e lo hi = elim (apart m j k e) [
    | inl h ↦ inr (omega (arith, h, lo))
    | inr h ↦ inl (omega (arith, h, hi))
  ]

  -- The other children see the same bytes of the file.
  other-IsCoherent :
      (k : ℕ) → k < 2 ^ n → (j == k) ≡ false → IsCoherent m (under (shared_of c) (s.leaf k))
  other-IsCoherent k lt e =
      let old = good.coherent k lt in
      let there = good.place k lt in
      record {
        aligned = old.aligned;
        room = old.room;
        fits = old.fits;
        owned = old.owned;
        clean = λ d i below.
            old.clean d i below
            ∙ sym (
                file-Outside ((s.leaf k).offset + i) (
                  other_page k ((s.leaf k).offset + i) e (omega (arith, there))
                    (omega (arith, there, below, old.fits))));
      }

  pub put-AllCoherent : AllCoherent n m start (put_child s j c)
  put-AllCoherent = record {
    coherent = λ k lt. elim (Bool-cases (k == j)) [
      | inl e ↦ rw e fresh_one
      | inr e ↦ rw e (other-IsCoherent k lt (ground (arith, e)))
    ];
    place = λ k lt. elim (Bool-cases (k == j)) [
      | inl e ↦ rw e (at_place ∙ ap (λ x. start + x * 2 ^ m) (sym ((==_iff k j).0 e)))
      | inr e ↦ rw e (good.place k lt)
    ];
  }

  view_other :
      (k i : ℕ)
      → k < 2 ^ n
      → (j == k) ≡ false
      → start + k * 2 ^ m ≤ i
      → i < start + k * 2 ^ m + 2 ^ m
      → view (under (shared_of c) (s.leaf k)) i ≡ view (child s k) i
  view_other k i lt e lo hi = ground (arith, file-Outside i (other_page k i e lo hi))

  inside :
      (f : Bytes) (k i : ℕ)
      → k < 2 ^ n
      → start + k * 2 ^ m ≤ i
      → i < start + k * 2 ^ m + 2 ^ m
      → (start + j * 2 ^ m ≤ i → i < start + j * 2 ^ m + 2 ^ m → view c i ≡ f i)
      → (Outside i → view (child s k) i ≡ f i)
      → view (child (put_child s j c) k) i ≡ f i
  inside f k i lt lo hi here elsewhere = elim (Bool-cases (k == j)) [
    | inl e ↦
        let same_one : k ≡ j = (==_iff k j).0 e in
        rw e (
          here (subst (λ x. start + x * 2 ^ m ≤ i) same_one lo)
            (subst (λ x. i < start + x * 2 ^ m + 2 ^ m) same_one hi))
    | inr e ↦
        let other_one : (j == k) ≡ false = ground (arith, e) in
        rw e (view_other k i lt other_one lo hi ∙ elsewhere (other_page k i other_one lo hi))
  ]

  beyond : (i : ℕ) → (leb start i && ltb i (start + 2 ^ n * 2 ^ m)) ≡ false → Outside i
  beyond i e =
      let top = grow m j (2 ^ n) (omega (arith, index)) in
      elim (Bool-cases (leb start i)) [
        | inl g ↦ inr (ground (arith, e, g, top))
        | inr g ↦ inl (ground (arith, g))
      ]

  -- What can be read through the leaves changes in the place of that one only.
  pub put-view :
      (f : Bytes)
      → ((i : ℕ) → start + j * 2 ^ m ≤ i → i < start + j * 2 ^ m + 2 ^ m → view c i ≡ f i)
      → ((i : ℕ) → Outside i → view_below n m start s i ≡ f i)
      → SameBytes (view_below n m start (put_child s j c)) f
  put-view f here elsewhere i = elim (Bool-cases (leb start i && ltb i (start + 2 ^ n * 2 ^ m))) [
    | inl e ↦
        let spot = child_place n m start i (ground (arith, e)) (ground (arith, e)) in
        let k = (i - start) / 2 ^ m in
        rw e (
          inside f k i spot.0 spot.1 spot.2 (here i)
            (λ out. let old = elsewhere i out in rw e at old))
    | inr e ↦
        let out = beyond i e in
        let old = elsewhere i out in rw e (file-Outside i out ∙ (rw e at old))
  ]

abbrev pub AllIn : (n m start : ℕ) → List Piece → Type 0
AllIn n m start [] = Unit
AllIn n m start (p ∷ ps) = InChild n m start p × AllIn n m start ps

-- A copy changes nothing outside of its range, and depends on what it is laid over at each position only.
module _ (src f : Bytes) (begin end ptr i : ℕ) where
  pub copy_outside :
      (i < begin) ⊎ (end ≤ i) → begin < end → copy f begin src ptr (end - begin) i ≡ f i
  copy_outside out order = ground (arith, out, order)

  pub copy_over :
      (g : Bytes)
      → f i ≡ g i
      → copy f begin src ptr (end - begin) i ≡ copy g begin src ptr (end - begin) i
  copy_over g e = ground (arith, e)
