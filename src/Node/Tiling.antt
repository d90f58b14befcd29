-- ===== src/Node/Tiling.antt =====
-- The requests that an inner node pushes tile the request that it was given.
use native.Mathlib.Nat.{mod-lt, div-add-mod'}
use Prim.Native.Nat.{bit_and}
use aiotest.Prelude.{
  ℕ, zero, suc, ◌+◌, ◌-◌, ◌*◌, ◌/◌, ◌^◌, ◌≤◌, ◌<◌, ◌≡◌, refl, ◌∙◌, ap, subst, some, List, [], ◌∷◌,
  ◌==◌, arith, length, inl, inr, Bool-cases,
}
use aiotest.Prelude.Word.{add64, sub64, neg64}
use aiotest.Node.{Piece, child_offset, rest_pieces, split_between, pieces, split_locks}
use aiotest.Node.Ranges.{
  InNode, child_pos, child_offset_lem, first_lem, last_lem, first_byte, last_start, suffix_lem,
  range_lem,
}

-- `ps` are requests for children of the node at `offset`, one after another without gap or overlap
-- from `pos` to `end`; each stays within its child, and its bytes are where the caller's buffer has
-- them if those for `pos` stand at `ptr`.
abbrev pub Tiles : (n m offset end pos ptr : ℕ) → List Piece → Type 0
Tiles n m offset end pos ptr [] = pos ≡ end
Tiles n m offset end pos ptr (p ∷ ps) =
    (p.begin ≡ pos)
    × (p.begin < p.end)
    × (p.ptr ≡ ptr)
    × (p.index < 2 ^ n)
    × (p.hint ≡ offset + p.index * 2 ^ m)
    × (p.hint ≤ p.begin)
    × (p.end ≤ p.hint + 2 ^ m)
    × Tiles n m offset end p.end (ptr + (p.end - p.begin)) ps

module _ {n m q begin end : ℕ} (r : InNode n m q begin end) where
  abbrev start : ℕ
  start = q * 2 ^ n * 2 ^ m

  abbrev first : ℕ
  first = begin / 2 ^ m - q * 2 ^ n

  abbrev last : ℕ
  last = (end - 1) / 2 ^ m - q * 2 ^ n

  abbrev last_piece : ℕ → Piece
  last_piece suffix =
      let at = bit_and (sub64 end 1) (neg64 (2 ^ m)) in
      record { index = last; hint = at; begin = at; end = end; ptr = suffix }

  abbrev inner_piece : ℕ → ℕ → Piece
  inner_piece i suffix = record {
    index = i + 1;
    hint = child_offset m start (i + 1);
    begin = child_offset m start (i + 1);
    end = child_offset m start (i + 2);
    ptr = suffix;
  }

  last_piece-Tiles :
      (i suffix : ℕ)
      → i + 1 ≡ last
      → Tiles n m start end (start + (i + 1) * 2 ^ m) suffix (last_piece suffix ∷ [])
  last_piece-Tiles i suffix e = rw ((last_start r)) (
    omega (arith, (range_lem r), ap (λ x. x * 2 ^ m) e),
    omega (arith, div-add-mod' (end - 1) (2 ^ m)),
    refl,
    (range_lem r).1,
    omega (arith, (range_lem r)),
    omega arith,
    omega (arith, div-add-mod' (end - 1) (2 ^ m), mod-lt (end - 1) (child_pos r)),
    refl,
  )

  inner_piece-Tiles :
      (i suffix : ℕ) (ps : List Piece)
      → i + 2 ≤ last
      → Tiles n m start end (start + (i + 2) * 2 ^ m) (suffix + 2 ^ m) ps
      → Tiles n m start end (start + (i + 1) * 2 ^ m) suffix (inner_piece i suffix ∷ ps)
  inner_piece-Tiles i suffix ps le tiles =
      rw
        (
          (child_offset_lem r) (i + 1) (omega (arith, (range_lem r))),
          (child_offset_lem r) (i + 2) (omega (arith, (range_lem r))),
        )
        (
          refl,
          omega (arith, (child_pos r)),
          refl,
          omega (arith, (range_lem r)),
          refl,
          omega arith,
          omega arith,
          subst (λ x. Tiles n m start end (start + (i + 2) * 2 ^ m) (suffix + x) ps) (omega arith)
              tiles,
        )

  rest_lem :
      (fuel i suffix : ℕ)
      → i < last
      → last ≤ i + fuel
      → (ps : List Piece) × (rest_pieces fuel m start last end i suffix ≡ some ps)
        × Tiles n m start end (start + (i + 1) * 2 ^ m) suffix ps
        × (length ps ≡ last - i)
  unfolding rest_pieces
  rest_lem zero i suffix lt le = absurd (omega arith)
  rest_lem (suc fuel) i suffix lt le = elim (Bool-cases (i + 1 == last)) [
    | inl e ↦ (
      last_piece suffix ∷ [],
      rw (e, rest_pieces) refl,
      last_piece-Tiles i suffix (ground arith),
      ground arith,
    )
    | inr e ↦
        let (ps, eq, tiles, len) =
          rest_lem fuel (i + 1) (suffix + 2 ^ m) (ground arith) (ground arith) in
        (
          inner_piece i suffix ∷ ps,
          rw (e, eq) refl,
          inner_piece-Tiles i suffix ps (ground arith) (
              subst (λ x. Tiles n m start end (start + x * 2 ^ m) (suffix + 2 ^ m) ps) (omega arith)
                tiles),
          ground arith,
        )
  ]

  abbrev lone_piece : ℕ → Piece
  lone_piece ptr = record {
    index = first;
    hint = bit_and begin (neg64 (2 ^ m));
    begin = begin;
    end = end;
    ptr = ptr;
  }

  abbrev first_piece : ℕ → Piece
  first_piece ptr =
      let at = bit_and begin (neg64 (2 ^ m)) in
      record { index = first; hint = at; begin = begin; end = add64 at (2 ^ m); ptr = ptr }

  lone_piece-Tiles : (ptr : ℕ) → first ≡ last → Tiles n m start end begin ptr (lone_piece ptr ∷ [])
  lone_piece-Tiles ptr e = rw (first_byte r) (
    refl,
    r.order,
    refl,
    omega (arith, (range_lem r)),
    omega (arith, (range_lem r)),
    omega (arith, div-add-mod' begin (2 ^ m)),
    omega (
      arith,
      (range_lem r),
      ap (λ x. x * 2 ^ m) e,
      div-add-mod' (end - 1) (2 ^ m),
      mod-lt (end - 1) (child_pos r),
    ),
    refl,
  )

  first_piece-Tiles :
      (ptr : ℕ) (ps : List Piece)
      → first < last
      → Tiles n m start end
          (start + (first + 1) * 2 ^ m)
          (ptr + (begin / 2 ^ m * 2 ^ m + 2 ^ m - begin))
          ps
      → Tiles n m start end begin ptr (first_piece ptr ∷ ps)
  first_piece-Tiles ptr ps lt tiles =
      rw ((first_byte r), next)
        (
          refl,
          omega (arith, div-add-mod' begin (2 ^ m), mod-lt begin (child_pos r)),
          refl,
          omega (arith, (range_lem r)),
          omega (arith, (range_lem r)),
          omega (arith, div-add-mod' begin (2 ^ m)),
          omega arith,
          subst (λ x. Tiles n m start end x (ptr + (begin / 2 ^ m * 2 ^ m + 2 ^ m - begin)) ps)
              (omega (arith, (range_lem r))) tiles,
        )
    where
      below : (first + 1) * 2 ^ m ≤ last * 2 ^ m
      below = grind arith

      next : add64 (begin / 2 ^ m * 2 ^ m) (2 ^ m) ≡ begin / 2 ^ m * 2 ^ m + 2 ^ m
      next = omega (arith, below, (range_lem r), div-add-mod' (end - 1) (2 ^ m))

  pieces_between :
      (ptr : ℕ)
      → pieces n m start begin end ptr
        ≡ split_between n m start begin end ptr first last
            (ptr + (begin / 2 ^ m * 2 ^ m + 2 ^ m - begin))
  unfolding pieces
  pieces_between ptr = rw ((suffix_lem r), (first_lem r), (last_lem r)) refl

  split_between-Tiles :
      (ptr : ℕ)
      → (ps : List Piece) × (split_between n m start begin end ptr first last
            (ptr + (begin / 2 ^ m * 2 ^ m + 2 ^ m - begin))
          ≡ some ps)
        × Tiles n m start end begin ptr ps
        × (length ps ≡ last - first + 1)
  unfolding split_between
  split_between-Tiles ptr = elim (Bool-cases (first == last)) [
    | inl e ↦ (lone_piece ptr ∷ [], rw e refl, lone_piece-Tiles ptr (ground arith), ground arith)
    | inr e ↦
        let (ps, eq, tiles, len) =
          rest_lem (2 ^ n) first (ptr + (begin / 2 ^ m * 2 ^ m + 2 ^ m - begin))
            (ground (arith, (range_lem r))) (omega (arith, (range_lem r))) in
        (
          first_piece ptr ∷ ps,
          rw (e, eq) refl,
          first_piece-Tiles ptr ps (ground (arith, (range_lem r))) tiles,
          omega (arith, len, (range_lem r)),
        )
  ]

  -- A request within an inner node is split into as many requests as the node takes locks; they tile
  -- it from `begin` to `end`, one for each child that it meets, with their bytes where the caller's
  -- buffer has them. The loop ends.
  pub pieces_lem :
      (ptr : ℕ)
      → (ps : List Piece) × (pieces n m (q * 2 ^ n * 2 ^ m) begin end ptr ≡ some ps)
        × Tiles n m (q * 2 ^ n * 2 ^ m) end begin ptr ps
        × (length ps ≡ (split_locks n m begin end).0)
  pieces_lem ptr =
      let (ps, eq, tiles, len) = split_between-Tiles ptr in
      (ps, pieces_between ptr ∙ eq, tiles, omega (arith, len, (first_lem r), (last_lem r)))
