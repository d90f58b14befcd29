-- ===== src/Siblings/Descent.antt =====
-- A request that is split at every level of a tree, down to the leaves: read and write of the inner nodes
-- of include/backup/BTree.hpp, by one worker, which runs the tasks of a round from the last one on. The
-- root looks at the size of the file before it splits: it cuts a partial read off or fails it, and makes the
-- file longer for a write (inner_read and inner_write of Inner.antt). That comes before these rounds.
use aiotest.Prelude.Word.{pow-add}
use aiotest.Prelude.{
  ℕ, ◌+◌, ◌-◌, ◌*◌, ◌^◌, ◌≤◌, ◌<◌, ◌≡◌, refl, ap, ◌∙◌, subst, Bool, false, Option, none, some, List,
  [], ◌∷◌, ◌++◌, ltb, leb, ◌&&◌, ◌||◌, arith,
}
use aiotest.Node.{Piece, pieces}
use aiotest.Node.Ranges.{InNode}
use aiotest.Node.Tiling.{Tiles, pieces_lem}
use aiotest.Node.Order.{Tiles-le}

infixl 5 ◌>>=◌
abbrev ◌>>=◌ {ℓ κ} : {A : Type ℓ} {B : Type κ} → Option A → (A → Option B) → Option B
none >>= f = none
some x >>= f = f x

-- What the nodes of one level push for their children of 2 ^ m bytes when they run `tasks`; the node of a
-- task stands at its `hint`.
unfoldable pub push_all : (n m : ℕ) → (tasks : List Piece) → Option (List Piece)
push_all n m [] = some []
push_all n m (p ∷ ps) = do
  earlier ← push_all n m ps
  own ← pieces n m p.hint p.begin p.end p.ptr
  some (earlier ++ own)

-- How many bits of an address are below a level, with leaves of 2 ^ m bytes
abbrev pub bits_below : (levels : List ℕ) → (m : ℕ) → ℕ
bits_below [] m = m
bits_below (n ∷ ns) m = n + bits_below ns m

-- One round for each level of inner nodes
unfoldable pub descend : (levels : List ℕ) → (m : ℕ) → (tasks : List Piece) → Option (List Piece)
descend [] m ps = some ps
descend (n ∷ ns) m ps = do pushed ← push_all n (bits_below ns m) ps; descend ns m pushed

abbrev pub is_at : Piece → ℕ → Bool
is_at p i = leb p.begin i && ltb i p.end

abbrev pub covers : List Piece → ℕ → Bool
covers [] i = false
covers (p ∷ ps) i = is_at p i || covers ps i

covers-append : (xs ys : List Piece) (i : ℕ) → covers (xs ++ ys) i ≡ (covers xs i || covers ys i)
covers-append [] ys i = refl
covers-append (p ∷ xs) ys i = ground (arith, covers-append xs ys i)

-- The part of a request, from `start` on with its bytes from `from` on, that is for one node of 2 ^ m bytes
module _ (start from : ℕ) where
  pub record OnLevel (m : ℕ) (p : Piece) : Type 0 where
    pub number : ℕ
    pub place : p.hint ≡ number * 2 ^ m
    pub low : p.hint ≤ p.begin
    pub order : p.begin < p.end
    pub high : p.end ≤ p.hint + 2 ^ m
    pub word : p.end < 2 ^ 64
    pub behind : start ≤ p.begin
    pub buffer : p.ptr + start ≡ from + p.begin

  abbrev pub AllOn : (m : ℕ) → List Piece → Type 0
  AllOn m [] = Unit
  AllOn m (p ∷ ps) = OnLevel m p × AllOn m ps

  append-AllOn : (m : ℕ) (xs ys : List Piece) → AllOn m xs → AllOn m ys → AllOn m (xs ++ ys)
  append-AllOn m [] ys a b = b
  append-AllOn m (p ∷ xs) ys (h, a) b = (h, append-AllOn m xs ys a b)

  Tiles-AllOn :
      (n m q end pos ptr : ℕ) (ps : List Piece)
      → end < 2 ^ 64
      → start ≤ pos
      → ptr + start ≡ from + pos
      → Tiles n m (q * 2 ^ n * 2 ^ m) end pos ptr ps
      → AllOn m ps × ((i : ℕ) → covers ps i ≡ (leb pos i && ltb i end))
  Tiles-AllOn n m q end pos ptr [] word below buffer t = (tt, λ i. ground (arith, t))
  Tiles-AllOn n m q end pos ptr (p ∷ ps) word below buffer t =
      let le = Tiles-le n m (q * 2 ^ n * 2 ^ m) end p.end (ptr + (p.end - p.begin)) ps t.7 in
      let rest =
        Tiles-AllOn n m q end p.end (ptr + (p.end - p.begin)) ps word
          (omega (arith, below, t.0, t.1)) (omega (arith, buffer, t.0, t.1)) t.7 in
      (
        (
          record {
            number = q * 2 ^ n + p.index;
            place = grind (arith, t.4);
            low = t.5;
            order = t.1;
            high = t.6;
            word = omega (arith, le, word);
            behind = omega (arith, below, t.0);
            buffer = omega (arith, buffer, t.0, t.2);
          },
          rest.0,
        ),
        λ i. ground (arith, rest.1 i, le, t.0, t.1),
      )

  -- A split at one node
  pieces-AllOn :
      (n m : ℕ) (p : Piece)
      → n + m ≤ 64
      → OnLevel (n + m) p
      → (ps : List Piece) × (pieces n m p.hint p.begin p.end p.ptr ≡ some ps)
        × AllOn m ps
        × ((i : ℕ) → covers ps i ≡ is_at p i)
  pieces-AllOn n m p width on =
      let at : p.hint ≡ on.number * 2 ^ n * 2 ^ m =
        on.place ∙ ap (λ x. on.number * x) (pow-add n m) ∙ grind arith in
      let r : InNode n m on.number p.begin p.end = record {
        width = width;
        low = omega (arith, at, on.low);
        order = on.order;
        high =
            subst (λ x. p.end ≤ x)
              (ap (λ x. x + 2 ^ (n + m)) at
                ∙ ap (λ x. on.number * 2 ^ n * 2 ^ m + x) (pow-add n m)
                ∙ grind arith)
              on.high;
        word = on.word;
      } in
      let (ps, e, tiles, len) = pieces_lem r p.ptr in
      let all =
        Tiles-AllOn n m on.number p.end p.begin p.ptr ps on.word on.behind on.buffer tiles in
      (ps, ap (λ x. pieces n m x p.begin p.end p.ptr) at ∙ e, all.0, all.1)

  push_all-AllOn :
      (n m : ℕ) (ts : List Piece)
      → n + m ≤ 64
      → AllOn (n + m) ts
      → (us : List Piece) × (push_all n m ts ≡ some us)
        × AllOn m us
        × ((i : ℕ) → covers us i ≡ covers ts i)
  unfolding push_all
  push_all-AllOn n m [] width all = ([], refl, tt, λ i. refl)
  push_all-AllOn n m (p ∷ ts) width (on, all) =
      let (us, e, alls, c) = push_all-AllOn n m ts width all in
      let (ps, e', alls', c') = pieces-AllOn n m p width on in
      (
        us ++ ps,
        rw (e, e') refl,
        append-AllOn m us ps alls alls',
        λ i. covers-append us ps i ∙ ground (arith, c i, c' i),
      )

  pub descend-AllOn :
      (ns : List ℕ) (m : ℕ) (ts : List Piece)
      → bits_below ns m ≤ 64
      → AllOn (bits_below ns m) ts
      → (us : List Piece) × (descend ns m ts ≡ some us)
        × AllOn m us
        × ((i : ℕ) → covers us i ≡ covers ts i)
  unfolding descend
  descend-AllOn [] m ts width all = (ts, refl, all, λ i. refl)
  descend-AllOn (n ∷ ns) m ts width all =
      let (us, e, alls, c) = push_all-AllOn n (bits_below ns m) ts width all in
      let (vs, e', alls', c') = descend-AllOn ns m us (omega (arith, width)) alls in
      (vs, rw e e', alls', λ i. c' i ∙ c i)
