-- ===== src/Collector/Written.antt =====
-- The flushing phase as it is seen from the file: what a turn keeps.
use Prim.{absurd}
use aiotest.Prelude.{
  ℕ, ◌+◌, ◌≤◌, ◌<◌, ◌≡◌, refl, ap, sym, subst, ◌∙◌, ◌⊎◌, inl, inr, true, false, not, ◌&&◌, ◌||◌,
  some, ltb, ◌==◌, ==_iff, get_elem?, if◌then◌else◌, Bool-cases, arith,
}
use aiotest.Prelude.Bytes.{Bytes}
use aiotest.Engine.{Engine}
use aiotest.Cache.{is_null}
use aiotest.Subtree.{Page}
use aiotest.Collector.{
  Shared, System, Pc, testing, popping, through, holding, returning, cell_at, flush_move, advance,
}
use aiotest.Collector.Hands.{le-total, advance_at, entries}
use aiotest.Collector.Accounts.{Accounts, advance-Accounts, flush-Balance, Held-of}
use aiotest.Collector.Eviction.{
  Outside, write_page, write_within, write_away, Handled, suicide-Handled, evict-Handled,
}
use aiotest.Collector.Flushing.{
  Flushing, evicted, effort, busy, tests, holds, after, GoesOn, Quiet, pop-Quiet, push-Quiet,
  Quiet-turn, Quiet-to_do, handled_turn, other, old_page,
}
use aiotest.Collector.Rounds.{is_through}

-- Before the phase: the nodes in the queue keep out of each other's way, and the bytes of a clean cache
-- are in the file.
pub record IsOrderly {E : Engine} (s : Shared E) : Type 0 where
  pub apart :
      (x y : ℕ)
      → entries x s.cache ≡ 1
      → entries y s.cache ≡ 1
      → (x == y) ≡ false
      → ((s.page x).offset + (s.page x).effective ≤ (s.page y).offset)
        ⊎ ((s.page y).offset + (s.page y).effective ≤ (s.page x).offset)
  pub clean :
      (x j : ℕ)
      → entries x s.cache ≡ 1
      → (s.page x).dirty ≡ false
      → j < (s.page x).effective
      → E.bytes s.file ((s.page x).offset + j) ≡ (s.page x).memory j

module _ {E : Engine} (bits : ℕ → ℕ) (fresh : Bytes) (s : Shared E) (x : ℕ) where
  flushed_node : (s.page x).cached ≡ true → Handled s x (flush_move bits fresh s (holding x)).0
  unfolding flush_move cell_at
  flushed_node h = elim (Bool-cases (is_null (s.page x).parent)) [
    | inl orphan ↦ rw orphan (suicide-Handled bits fresh s x orphan h)
    | inr there ↦ rw there (evict-Handled bits fresh s x there)
  ]

  flushed_place : GoesOn (flush_move bits fresh s (holding x)).1
  unfolding flush_move cell_at
  flushed_place = elim (Bool-cases (is_null (s.page x).parent)) [
    | inl orphan ↦
        rw orphan
          (record { is_busy = refl; no_test = refl; price = omega arith; empty = λ y. refl })
    | inr there ↦
        rw there (record { is_busy = refl; no_test = refl; price = omega arith; empty = λ y. refl })
  ]

module _ {E : Engine} (bits : ℕ → ℕ) (fresh : Bytes) (n : ℕ) (s₀ : Shared E)
    (once : (x : ℕ) → entries x s₀.cache ≤ 1) (orderly : IsOrderly s₀) where
  abbrev pub Fl : System E → Type 0
  Fl = Flushing bits fresh n s₀ once

  pub record Written (s : System E) : Type 0 where
    pub nodes : Fl s
    -- What has been evicted is in the file, and what was clean.
    pub safe :
        s.shared.failed ≡ false
        → (x j : ℕ) → entries x s₀.cache ≡ 1
        → (evicted s₀ s x ≡ true) ⊎ ((s₀.page x).dirty ≡ false)
        → j < (s₀.page x).effective
        → E.bytes s.shared.file ((s₀.page x).offset + j) ≡ (s₀.page x).memory j
    pub outside :
        (i : ℕ)
        → ((x : ℕ) → entries x s₀.cache ≡ 1 → (s₀.page x).dirty ≡ true → Outside (s₀.page x) i)
        → E.bytes s.shared.file i ≡ E.bytes s₀.file i

  Quiet-Written :
      (i : ℕ) (s : System E) (p : Pc)
      → get_elem? s.workers i ≡ some p
      → (s' : Shared E) (p' : Pc) → Quiet s.shared p s' p'
      → Accounts bits (after i s s' p')
      → Written s
      → Written (after i s s' p') × (effort (after i s s' p') < effort s)
  Quiet-Written i s p e s' p' q a w =
      let t = Quiet-turn bits fresh n s₀ once i s p e w.nodes s' p' q a in
      (
        record {
          nodes = t.0;
          safe = λ f x j m c lt.
              ap (λ r. E.bytes r.file ((s₀.page x).offset + j)) q.same
              ∙ w.safe (sym (ap (λ r. r.failed) q.same) ∙ f) x j m
                  (subst (λ k. (ltb k (entries x s₀.cache) ≡ true) ⊎ ((s₀.page x).dirty ≡ false))
                    (Quiet-to_do i s p e s' p' q x) c)
                  lt;
          outside = λ k far. ap (λ r. E.bytes r.file k) q.same ∙ w.outside k far;
        },
        t.1,
      )

  module _ (i : ℕ) (s : System E) (x : ℕ) (e : get_elem? s.workers i ≡ some (holding x))
      (w : Written s) (s' : Shared E) (p' : Pc) (d : Handled s.shared x s')
      (place : GoesOn p') where
    p₀ : Page
    p₀ = s₀.page x

    old : s.shared.page x ≡ s₀.page x
    old = old_page bits fresh n s₀ once i s x e w.nodes s' p' d place

    queued : entries x s₀.cache ≡ 1
    queued =
        omega
          (arith, once x, w.nodes.left x, le-total (holds x) s.workers i (holding x) e, same_self)
      where
        same_self : holds x (holding x) ≡ 1
        same_self = ground arith

    contents :
        s'.file
        ≡ (if (s₀.page x).dirty then (write_page E s.shared.file (s₀.page x)).0 else s.shared.file)
    contents =
        d.contents
        ∙ ap (λ p. if p.dirty then (write_page E s.shared.file p).0 else s.shared.file) old

    failure :
        s'.failed
        ≡ (s.shared.failed || (s₀.page x).dirty && not (write_page E s.shared.file (s₀.page x)).1)
    failure =
        d.failure ∙ ap (λ p. s.shared.failed || p.dirty && not (write_page E s.shared.file p).1) old

    -- Bytes out of the way of the node are as they were.
    away :
        (k : ℕ)
        → ((s₀.page x).dirty ≡ true → Outside (s₀.page x) k)
        → E.bytes s'.file k ≡ E.bytes s.shared.file k
    away k out = ap (λ f. E.bytes f k) contents ∙ elim (Bool-cases (s₀.page x).dirty) [
      | inl dirty ↦ rw dirty (write_away E s.shared.file (s₀.page x) k (out dirty))
      | inr tidy ↦ rw tidy refl
    ]

    within :
        s'.failed ≡ false
        → (j : ℕ) → j < (s₀.page x).effective
        → E.bytes s'.file ((s₀.page x).offset + j) ≡ (s₀.page x).memory j
    within f j lt = elim (Bool-cases (s₀.page x).dirty) [
      | inl dirty ↦
          ap (λ g. E.bytes g ((s₀.page x).offset + j)) contents
          ∙ rw dirty
              (write_within E s.shared.file (s₀.page x) j (ground (arith, failure, dirty, f)) lt)
      | inr tidy ↦
          away ((s₀.page x).offset + j) (λ dirty. cc)
          ∙ w.safe (ground (arith, failure, f)) x j queued (inr tidy) lt
    ]

    handled_Written :
        Accounts bits (after i s s' p')
        → Written (after i s s' p') × (effort (after i s s' p') < effort s)
    handled_Written a =
        let t = handled_turn bits fresh n s₀ once i s x e w.nodes s' p' d place a in
        (
          record {
            nodes = t.0;
            safe = λ f y j m c lt. elim (Bool-cases (y == x)) [
              | inl q ↦
                  subst
                    (λ z.
                      j < (s₀.page z).effective
                      → E.bytes s'.file ((s₀.page z).offset + j) ≡ (s₀.page z).memory j)
                    (sym ((==_iff y x).0 q)) (within f j) lt
              | inr q ↦
                  away ((s₀.page y).offset + j) (λ dirty. out y j m q lt)
                  ∙ w.safe (ground (arith, failure, f)) y j m
                      (subst
                        (λ k. (ltb k (entries y s₀.cache) ≡ true) ⊎ ((s₀.page y).dirty ≡ false))
                        (other bits fresh n s₀ once i s x e w.nodes s' p' d place y q) c)
                      lt
            ];
            outside = λ k far. away k (far x queued) ∙ w.outside k far;
          },
          t.1,
        )
      where
        out :
            (y j : ℕ)
            → entries y s₀.cache ≡ 1
            → (y == x) ≡ false
            → j < (s₀.page y).effective
            → Outside (s₀.page x) ((s₀.page y).offset + j)
        out y j m q lt = elim (orderly.apart y x m queued q) [
          | inl h ↦ inl (omega (arith, h, lt))
          | inr h ↦ inr (omega (arith, h))
        ]

  next-Accounts :
      (i : ℕ) (s : System E) (p : Pc) (e : get_elem? s.workers i ≡ some p) (w : Written s)
      → let r = flush_move bits fresh s.shared p in Accounts bits (after i s r.0 r.1)
  next-Accounts i s p e w = subst (Accounts bits) (advance_at (flush_move bits fresh) i s p e) (
      advance-Accounts bits (flush_move bits fresh) (flush-Balance bits fresh) i s w.nodes.accounts)

  pub turn_lem :
      (i : ℕ) (s : System E) (p : Pc)
      → get_elem? s.workers i ≡ some p
      → is_through p ≡ false
      → Written s
      → let move = flush_move bits fresh in
        Written (advance move i s) × (effort (advance move i s) < effort s)
  unfolding flush_move
  turn_lem i s through e t w = ground (arith, t)
  turn_lem i s testing e t w =
      let mine = le-total tests s.workers i testing e in
      absurd (omega (arith, mine, w.nodes.untested))
  turn_lem i s popping e t w =
      let mine = le-total busy s.workers i popping e in
      rw (advance_at (flush_move bits fresh) i s popping e) (
        Quiet-Written i s popping e _ _
          (pop-Quiet s.shared s.shared.cache refl (omega (arith, mine, w.nodes.tokens)))
          (next-Accounts i s popping e w) w)
  turn_lem i s (returning x) e t w = rw (advance_at (flush_move bits fresh) i s (returning x) e) (
      Quiet-Written i s (returning x) e _ _ (push-Quiet s.shared x)
        (next-Accounts i s (returning x) e w) w)
  turn_lem i s (holding x) e t w =
      let paid = Held-of bits s i (holding x) e w.nodes.accounts x (ground arith) in
      rw (advance_at (flush_move bits fresh) i s (holding x) e) (
        handled_Written i s x e w _ _ (flushed_node bits fresh s.shared x paid.0)
          (flushed_place bits fresh s.shared x) (next-Accounts i s (holding x) e w))
