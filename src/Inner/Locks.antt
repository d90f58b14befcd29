-- ===== src/Inner/Locks.antt =====
-- The locks that a call of an inner node takes, against the tasks that it pushes.
use aiotest.Prelude.{
  ℕ, suc, ◌+◌, ◌-◌, ◌*◌, ◌^◌, ◌≡◌, refl, ap, ◌∙◌, Bool, not, ◌&&◌, ◌||◌, ltb, leb, Option, none,
  some, List, [], ◌∷◌, length, Bool-cases, inl, inr, arith,
}
use aiotest.Prelude.Word.{sub64}
use aiotest.Prelude.Bytes.{Bytes}
use aiotest.Engine.{Engine}
use aiotest.Controller.{Limits}
use aiotest.Cache.{Cell, request, fwrite}
use aiotest.Cache.Effects.{fwrite-Effect}
use aiotest.Leaf.{covers_all}
use aiotest.Node.{Piece, pieces, get_range}
use aiotest.Node.Ranges.{InNode}
use aiotest.Node.Tiling.{pieces_lem}
use aiotest.Subtree.{Children, merge}
use aiotest.Inner.{
  Call, inner_read, read_within, read_whole, inner_write, write_within, write_whole, split, splits,
}
use aiotest.Inner.Below.{Work, read_work, write_work, sum, touch_all, grow}

-- The node takes one lock for each task that it pushes. The request takes one less, since the call
-- passes its own lock on to one of them.
abbrev pub Counts : {E : Engine} → (lck : ℕ) → Call E → Type 0
Counts lck call = (call.lck ≡ lck + length call.work) × (call.io_locks ≡ length call.work - 1)

length-read_work : (ps : List Piece) → length (read_work ps) ≡ length ps
length-read_work [] = refl
length-read_work (p ∷ ps) = ap suc (length-read_work ps)

length-write_work : (ps : List Piece) → length (write_work ps) ≡ length ps
length-write_work [] = refl
length-write_work (p ∷ ps) = ap suc (length-write_work ps)

-- The call is given, with these locks.
abbrev pub Gives : {A : Type 0} → (A → Type 0) → Option A → Type 0
Gives P none = ⊥
Gives P (some x) = P x

module _ {E : Engine} {n q begin end : ℕ} (rest : List ℕ) (s : Cell E)
    (r : InNode n (sum rest) q begin end) (place : s.offset ≡ q * 2 ^ n * 2 ^ sum rest) (lck : ℕ)
    (cs : Children) where
  split-Counts :
      (to_work : List Piece → List Work) (at : ℕ)
      → ((ps : List Piece) → length (to_work ps) ≡ length ps)
      → (call : Call E) × (split n rest to_work s lck cs begin end at ≡ some call) × Counts lck call
  unfolding split
  split-Counts to_work at same_length =
      let (ps, eq, tiles, len) = pieces_lem r at in
      let eq' : pieces n (sum rest) s.offset begin end at ≡ some ps = rw place eq in
      let (first, last) = get_range n (sum rest) begin end in
      (
        record {
          cell = s;
          lck = lck + (last - first + 1);
          below = touch_all rest (grow (last + 1) cs) ps;
          io_locks = last - first;
          left = [];
          work = to_work ps;
        },
        rw (split, eq') refl,
        (omega (arith, len, same_length ps), omega (arith, len, same_length ps)),
      )

  module _ (c : Limits) (fresh : Bytes) (ptr : Bytes) (at : ℕ) where
    read_within-Counts :
        Gives (λ x. Counts lck x.0) (read_within n rest c fresh s lck cs begin end ptr at)
    unfolding read_within read_whole
    read_within-Counts =
        let (call, eq, counts) = split-Counts read_work at length-read_work in
        elim (Bool-cases (not (covers_all (n + sum rest)) && s.cached)) [
          | inl e ↦ rw e (omega arith, omega arith)
          | inr e ↦ elim (Bool-cases (splits (n + sum rest) lck begin end)) [
            | inl e' ↦ rw (e, e', eq) counts
            | inr e' ↦ elim (Bool-cases (merge (n + sum rest) c fresh s cs request).2) [
              | inl e'' ↦ rw (e, e', e'') (omega arith, omega arith)
              | inr e'' ↦ rw (e, e', e'') (omega arith, omega arith)
            ]
          ]
        ]

    write_within-Counts : Gives (Counts lck) (write_within n rest c fresh s lck cs begin end ptr at)
    unfolding write_within write_whole
    write_within-Counts =
        let (call, eq, counts) = split-Counts write_work at length-write_work in
        elim (Bool-cases (not (covers_all (n + sum rest)) && s.cached)) [
          | inl e ↦ rw e (omega arith, omega arith)
          | inr e ↦ elim (Bool-cases (splits (n + sum rest) lck begin end)) [
            | inl e' ↦ rw (e, e', eq) counts
            | inr e' ↦ rw (e, e') (omega arith, omega arith)
          ]
        ]

module _ {E : Engine} {n q begin end : ℕ} (rest : List ℕ) (s : Cell E)
    (r : InNode n (sum rest) q begin end) (place : s.offset ≡ q * 2 ^ n * 2 ^ sum rest) (lck : ℕ)
    (cs : Children) (c : Limits) (fresh : Bytes) (ptr : Bytes) (at : ℕ) (partial : Bool) where
  -- A call of read or of write on an inner node, at a range of one or more bytes within the node: it
  -- ends, whether it fails, the node answers it or the node splits it. The node's counter of locked
  -- children has gone up by the number of requests that were pushed for the children, and the request
  -- has taken one lock less than that, or none where nothing was pushed.
  pub inner-Counts :
      Gives (λ x. Counts lck x.0) (inner_read n rest c fresh partial s lck cs begin end ptr at)
      × Gives (Counts lck) (inner_write n rest c fresh s lck cs begin end ptr at)
  unfolding inner_read inner_write
  inner-Counts = (read_lem, write_lem)
    where
      beyond : Bool
      beyond = covers_all (n + sum rest) && ltb s.size end

      read_lem :
          Gives (λ x. Counts lck x.0) (inner_read n rest c fresh partial s lck cs begin end ptr at)
      read_lem = elim (Bool-cases beyond) [
        | inl e ↦ elim (Bool-cases (not partial || leb s.size begin)) [
          | inl e' ↦ rw (e, e') (omega arith, omega arith)
          | inr e' ↦
              let cut : InNode n (sum rest) q begin s.size = record {
                width = r.width;
                low = r.low;
                order = ground (arith, e');
                high = ground (arith, e, r.high);
                word = ground (arith, e, r.word);
              } in
              rw (e, e') (read_within-Counts rest s cut place lck cs c fresh ptr at)
        ]
        | inr e ↦ rw e (read_within-Counts rest s r place lck cs c fresh ptr at)
      ]

      write_lem : Gives (Counts lck) (inner_write n rest c fresh s lck cs begin end ptr at)
      write_lem =
          let w = fwrite s (λ _. 0) 0 (sub64 end 1) 1 request in
          elim (Bool-cases beyond) [
            | inl e ↦ elim (Bool-cases w.1) [
              | inl e' ↦
                  rw (e, e')
                    (write_within-Counts rest (record (w.0) { size = end }) r
                      ((fwrite-Effect s (λ _. 0) 0 (sub64 end 1) 1 request).offset ∙ place) lck cs c
                      fresh ptr at)
              | inr e' ↦ rw (e, e') (omega arith, omega arith)
            ]
            | inr e ↦ rw e (write_within-Counts rest s r place lck cs c fresh ptr at)
          ]
