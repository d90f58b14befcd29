-- ===== src/Collector/Accounts.antt =====
-- The accounts of the nodes with a cache: who has them, and what they cost.
use native.Mathlib.Nat.{one-le-pow}
use aiotest.Prelude.{
  ℕ, ◌∙◌, ◌+◌, ◌^◌, ◌≤◌, ◌<◌, ◌≡◌, refl, sym, subst, Bool, true, false, Option, none, some, List,
  [], ◌∷◌, ◌++◌, ◌==◌, ltb, get_elem?, if◌then◌else◌, inl, inr, Bool-cases, Option-cases, arith,
}
use aiotest.Prelude.Word.{sub64}
use aiotest.Prelude.Bytes.{Bytes}
use aiotest.Engine.{Engine}
use aiotest.Cache.{Cell, fail, fail_to, fwrite, unlock, toggle, is_null}
use aiotest.Leaf.{evict, gc, suicide, write_back}
use aiotest.Collector.{
  Shared, System, Pc, testing, popping, through, holding, returning, cell_at, with_cell, with_node,
  sweep_move, sweep_pop, flush_pop, flush_move, advance,
}
use aiotest.Collector.Hands.{
  total, total-set, le-total, carries, carried, entries, budget, entries-append, budget-append,
  carries-carried, advance_at,
}

abbrev pub flag : Bool → ℕ
flag true = 1
flag false = 0

-- Each node with a cache stands in the queue or is with a worker, once, and no other node does; the
-- memory in use is what these nodes take.
pub record Accounts {E : Engine} (bits : ℕ → ℕ) (s : System E) : Type 0 where
  pub owned :
      (x : ℕ)
      → entries x s.shared.cache + total (carries x) s.workers ≡ flag (s.shared.page x).cached
  pub spent : s.shared.used ≡ budget bits s.shared.cache + total (carried bits) s.workers
  pub word : s.shared.used < 2 ^ 64

module _ {E : Engine} (s : Shared E) (x : ℕ) (r : Cell E × Bool) where
  pub node_cache : (with_node s x r).cache ≡ s.cache
  unfolding with_node with_cell
  node_cache = elim (Bool-cases r.1) [ inl e ↦ rw e refl | inr e ↦ rw e refl ]

  pub node_used : (with_node s x r).used ≡ r.0.used
  unfolding with_node with_cell
  node_used = elim (Bool-cases r.1) [ inl e ↦ rw e refl | inr e ↦ rw e refl ]

  pub node_cached :
      (y : ℕ)
      → ((with_node s x r).page y).cached ≡ (if y == x then r.0.cached else (s.page y).cached)
  unfolding with_node with_cell
  node_cached y = ground arith

module _ {E : Engine} where
  released :
      (fresh : Bytes) (n : ℕ) (c : Cell E)
      → c.cached ≡ true
      → ((evict fresh n c true).cached ≡ false)
        × ((evict fresh n c true).used ≡ sub64 c.used (2 ^ n))
  unfolding evict write_back fwrite fail_to fail unlock toggle
  released fresh n c h = ground arith

  pub kept :
      (fresh : Bytes) (n : ℕ) (c : Cell E)
      → ((evict fresh n c false).cached ≡ c.cached) × ((evict fresh n c false).used ≡ c.used)
  unfolding evict write_back fwrite fail_to fail unlock toggle
  kept fresh n c = ground arith

  collected :
      (fresh : Bytes) (n : ℕ) (c : Cell E)
      → c.cached ≡ true
      → ((gc fresh n c).0.cached ≡ false) × ((gc fresh n c).0.used ≡ sub64 c.used (2 ^ n))
  unfolding gc suicide
  collected fresh n c h = ground (arith, released fresh n c h)

module _ {E : Engine} (bits : ℕ → ℕ) where
  -- What a worker's step gives and takes.
  pub record Balance (s : Shared E) (p : Pc) (s' : Shared E) (p' : Pc) : Type 0 where
    pub nodes :
        (x : ℕ)
        → entries x s'.cache + carries x p' + flag (s.page x).cached
          ≡ entries x s.cache + carries x p + flag (s'.page x).cached
    pub money :
        budget bits s'.cache + carried bits p' + s.used
        ≡ budget bits s.cache + carried bits p + s'.used
    pub less : s'.used ≤ s.used

  -- The node in a worker's hands has a cache, which is paid for.
  abbrev pub Held : Shared E → Pc → Type 0
  Held s p = (x : ℕ) → carries x p ≡ 1 → ((s.page x).cached ≡ true) × (2 ^ bits x ≤ s.used)

  same-Balance :
      (s : Shared E) (p p' : Pc)
      → ((x : ℕ) → carries x p' ≡ carries x p)
      → carried bits p' ≡ carried bits p
      → Balance s p s p'
  same-Balance s p p' h k = record {
    nodes = λ x. omega (arith, h x);
    money = omega arith;
    less = omega arith;
  }

  -- A node in the hands of a worker is given back, and its cache is given up.
  gives_up :
      (s s' : Shared E) (x : ℕ) (p' : Pc)
      → ((s.page x).cached ≡ true) × (2 ^ bits x ≤ s.used)
      → s.used < 2 ^ 64
      → s'.cache ≡ s.cache
      → s'.used ≡ sub64 s.used (2 ^ bits x)
      → ((y : ℕ) → (s'.page y).cached ≡ (if y == x then false else (s.page y).cached))
      → ((y : ℕ) → carries y p' ≡ 0)
      → carried bits p' ≡ 0
      → Balance s (holding x) s' p'
  gives_up s s' x p' h w c u pg n m = record {
    nodes = λ y. ground (arith, pg y, n y, c);
    money = ground (arith, c, one-le-pow (bits x) 2);
    less = ground (arith, one-le-pow (bits x) 2);
  }

  module _ (fresh : Bytes) where
    gc-Balance :
        (s : Shared E) (x : ℕ)
        → ((s.page x).cached ≡ true) × (2 ^ bits x ≤ s.used)
        → s.used < 2 ^ 64
        → Balance s (holding x) (with_node s x (gc fresh (bits x) (cell_at s x))) testing
    unfolding with_node with_cell cell_at
    gc-Balance s x h w =
        let r = gc fresh (bits x) (cell_at s x) in
        let e = collected fresh (bits x) (cell_at s x) h.0 in
        gives_up s (with_node s x r) x testing h w (node_cache s x r) (node_used s x r ∙ e.1)
          (λ y. ground (arith, node_cached s x r y, e)) (λ y. refl) refl

    suicide-Balance :
        (s : Shared E) (x : ℕ)
        → ((s.page x).cached ≡ true) × (2 ^ bits x ≤ s.used)
        → s.used < 2 ^ 64
        → Balance s (holding x) (with_node s x (suicide fresh (bits x) (cell_at s x))) popping
    unfolding cell_at suicide
    suicide-Balance s x h w =
        let r = suicide fresh (bits x) (cell_at s x) in
        let e = released fresh (bits x) (cell_at s x) h.0 in
        gives_up s (with_node s x r) x popping h w (node_cache s x r) (node_used s x r ∙ e.1)
          (λ y. ground (arith, node_cached s x r y, e)) (λ y. refl) refl

    keep-Balance :
        (s : Shared E) (x : ℕ)
        → Balance s
            (holding x)
            (with_cell s x (evict fresh (bits x) (cell_at s x) false))
            (returning x)
    unfolding with_cell cell_at
    keep-Balance s x =
        let e = kept fresh (bits x) (cell_at s x) in
        record {
          nodes = λ y. ground (arith, e);
          money = ground (arith, e);
          less = ground (arith, e);
        }

  pop-Balance :
      (s : Shared E) (c : List (Option ℕ)) (e : Option ℕ) (p : Pc)
      → s.cache ≡ e ∷ c
      → ((x : ℕ) → carries x p + entries x c ≡ entries x (e ∷ c))
      → carried bits p + budget bits c ≡ budget bits (e ∷ c)
      → Balance s popping (record s { cache = c }) p
  pop-Balance s c e p q h k = record {
    nodes = λ x. rw q (omega (arith, h x));
    money = rw q (omega (arith, k));
    less = omega arith;
  }

  push-Balance :
      (s : Shared E) (x : ℕ)
      → Balance s (returning x) (record s { cache = s.cache ++ some x ∷ [] }) popping
  push-Balance s x = record {
    nodes = λ y. omega (arith, entries-append y s.cache (some x ∷ []));
    money = omega (arith, budget-append bits s.cache (some x ∷ []));
    less = omega arith;
  }

  sweep_pop-Balance :
      (s : Shared E) (c : List (Option ℕ))
      → s.cache ≡ c
      → Balance s popping (sweep_pop s c).0 (sweep_pop s c).1
  unfolding sweep_pop
  sweep_pop-Balance s [] q = same-Balance s _ _ (λ x. refl) refl
  sweep_pop-Balance s (none ∷ c) q = pop-Balance s c none testing q (λ x. omega arith) (omega arith)
  sweep_pop-Balance s (some x ∷ c) q = pop-Balance s c (some x) (holding x) q (λ y. refl) refl

  flush_pop-Balance :
      (s : Shared E) (c : List (Option ℕ))
      → s.cache ≡ c
      → Balance s popping (flush_pop s c).0 (flush_pop s c).1
  unfolding flush_pop
  flush_pop-Balance s [] q = same-Balance s _ _ (λ x. refl) refl
  flush_pop-Balance s (none ∷ c) q = pop-Balance s c none through q (λ x. omega arith) (omega arith)
  flush_pop-Balance s (some x ∷ c) q = pop-Balance s c (some x) (holding x) q (λ y. refl) refl

  module _ (fresh : Bytes) where
    pub sweep-Balance :
        (lower : ℕ) (s : Shared E) (p : Pc)
        → Held s p
        → s.used < 2 ^ 64
        → Balance s p (sweep_move bits fresh lower s p).0 (sweep_move bits fresh lower s p).1
    unfolding sweep_move
    sweep-Balance lower s testing h w = elim (Bool-cases (ltb lower s.used)) [
      | inl e ↦ rw e (same-Balance s testing popping (λ x. refl) refl)
      | inr e ↦ rw e (same-Balance s testing through (λ x. refl) refl)
    ]
    sweep-Balance lower s popping h w = sweep_pop-Balance s s.cache refl
    sweep-Balance lower s (holding x) h w = gc-Balance fresh s x (h x (ground arith)) w
    sweep-Balance lower s (returning x) h w = same-Balance s _ _ (λ x. refl) refl
    sweep-Balance lower s through h w = same-Balance s _ _ (λ x. refl) refl

    pub flush-Balance :
        (s : Shared E) (p : Pc)
        → Held s p
        → s.used < 2 ^ 64
        → Balance s p (flush_move bits fresh s p).0 (flush_move bits fresh s p).1
    unfolding flush_move
    flush-Balance s testing h w = same-Balance s _ _ (λ x. refl) refl
    flush-Balance s popping h w = flush_pop-Balance s s.cache refl
    flush-Balance s (holding x) h w = elim (Bool-cases (is_null (cell_at s x).parent)) [
      | inl e ↦ rw e (suicide-Balance fresh s x (h x (ground arith)) w)
      | inr e ↦ rw e (keep-Balance fresh s x)
    ]
    flush-Balance s (returning x) h w = push-Balance s x
    flush-Balance s through h w = same-Balance s _ _ (λ x. refl) refl

  pub Held-of :
      (s : System E) (i : ℕ) (p : Pc)
      → get_elem? s.workers i ≡ some p
      → Accounts bits s
      → Held s.shared p
  Held-of s i p at a x c =
      let mine = le-total (carries x) s.workers i p at in
      let cost = le-total (carried bits) s.workers i p at in
      (ground (arith, mine, c, a.owned x), omega (arith, cost, a.spent, carries-carried bits x p c))

  -- A step that keeps the balance keeps the accounts.
  pub advance-Accounts :
      (move : Shared E → Pc → Shared E × Pc)
      → ((s : Shared E) (p : Pc)
          → Held s p
          → s.used < 2 ^ 64
          → Balance s p (move s p).0 (move s p).1)
      → (i : ℕ) (s : System E) → Accounts bits s
      → Accounts bits (advance move i s)
  unfolding advance
  advance-Accounts move b i s a = elim (Option-cases (get_elem? s.workers i)) [
    | inl e ↦ rw (e, advance) a
    | inr (p, e) ↦
        let bal = b s.shared p (Held-of s i p e a) a.word in
        let r = move s.shared p in
        subst (Accounts bits) (sym (advance_at move i s p e)) (record {
          owned =
              λ x. omega (arith, bal.nodes x, a.owned x, total-set (carries x) s.workers i p r.1 e);
          spent = omega (arith, bal.money, a.spent, total-set (carried bits) s.workers i p r.1 e);
          word = omega (arith, bal.less, a.word);
        })
  ]
