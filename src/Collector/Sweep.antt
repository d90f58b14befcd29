-- ===== src/Collector/Sweep.antt =====
-- The loop of the case GC in src/backup/Worker.cpp, by all workers.
use Prim.{absurd}
use aiotest.Prelude.{
  ℕ, ◌+◌, ◌*◌, ◌≤◌, ◌<◌, ◌≡◌, refl, ap, subst, ◌∙◌, ◌⊎◌, inl, inr, false, Option, none, some, List,
  [], ◌∷◌, ltb, length, get_elem?, Bool-cases, arith,
}
use aiotest.Prelude.Bytes.{Bytes}
use aiotest.Engine.{Engine}
use aiotest.Leaf.{gc}
use aiotest.Collector.{
  Shared, System, Pc, testing, popping, through, holding, returning, cell_at, sweep_pop, sweep_move,
  advance, run_schedule, all_at,
}
use aiotest.Collector.Hands.{
  total, total-set, le-total, advance_at, carried, budget, passed, length-set_pc, length-all_at,
  total_each, get_elem?-all_at, all_at_lem,
}
use aiotest.Collector.Accounts.{Accounts, node_cache, advance-Accounts, sweep-Balance, Held-of}
use aiotest.Collector.Rounds.{is_through, run-Inv, run_ends}
use aiotest.Worker.Ids.{count}

-- What a worker's place is worth, and all of them with three for each entry of the queue.
abbrev cost : Pc → ℕ
cost testing = 2
cost popping = 1
cost (holding x) = 3
cost (returning x) = 3
cost through = 0

abbrev returns : Pc → ℕ
returns (returning x) = 1
returns testing = 0
returns popping = 0
returns (holding x) = 0
returns through = 0

abbrev effort : {E : Engine} → System E → ℕ
effort s = 3 * length s.shared.cache + total cost s.workers

none_passed : (p : Pc) → is_through p ≡ false → passed p ≡ 0
none_passed through t = ground (arith, t)
none_passed testing t = refl
none_passed popping t = refl
none_passed (holding x) t = refl
none_passed (returning x) t = refl

module _ {E : Engine} (bits : ℕ → ℕ) (fresh : Bytes) (lower : ℕ) where
  cheaper_pop :
      (s : Shared E) (c : List (Option ℕ))
      → s.cache ≡ c
      → 3 * length (sweep_pop s c).0.cache + cost (sweep_pop s c).1 < 3 * length s.cache + 1
  unfolding sweep_pop
  cheaper_pop s [] q = rw q (omega arith)
  cheaper_pop s (none ∷ c) q = rw q (omega arith)
  cheaper_pop s (some x ∷ c) q = rw q (omega arith)

  cheaper :
      (s : Shared E) (p : Pc)
      → is_through p ≡ false
      → returns p ≡ 0
      → let r = sweep_move bits fresh lower s p in
        3 * length r.0.cache + cost r.1 < 3 * length s.cache + cost p
  unfolding sweep_move
  cheaper s testing t r = ground arith
  cheaper s popping t r = cheaper_pop s s.cache refl
  cheaper s (holding x) t r = rw (node_cache s x (gc fresh (bits x) (cell_at s x))) (omega arith)
  cheaper s (returning x) t r = ground (arith, r)
  cheaper s through t r = ground (arith, t)

  -- The budget is kept, or there is nothing left to collect.
  Enough : Shared E → Type 0
  Enough s = (s.used ≤ lower) ⊎ (s.cache ≡ [])

  pop-Enough :
      (s : Shared E) (c : List (Option ℕ))
      → s.cache ≡ c
      → (passed (sweep_pop s c).1 ≡ 0) ⊎ Enough (sweep_pop s c).0
  unfolding sweep_pop Enough
  pop-Enough s [] q = inr (inr q)
  pop-Enough s (none ∷ c) q = inl refl
  pop-Enough s (some x ∷ c) q = inl refl

  leaves-Enough :
      (s : Shared E) (p : Pc)
      → is_through p ≡ false
      → let r = sweep_move bits fresh lower s p in (passed r.1 ≡ 0) ⊎ Enough r.0
  unfolding sweep_move Enough
  leaves-Enough s testing t = elim (Bool-cases (ltb lower s.used)) [
    | inl e ↦ rw e (inl refl)
    | inr e ↦ rw e (inr (inl (ground (arith, e))))
  ]
  leaves-Enough s popping t = pop-Enough s s.cache refl
  leaves-Enough s (holding x) t = inl refl
  leaves-Enough s (returning x) t = inl refl
  leaves-Enough s through t = ground (arith, t)

  pop_empty :
      (s : Shared E) (c : List (Option ℕ)) → s.cache ≡ c → c ≡ [] → (sweep_pop s c).0.cache ≡ []
  unfolding sweep_pop
  pop_empty s [] q e = q
  pop_empty s (none ∷ c) q e = cc
  pop_empty s (some x ∷ c) q e = cc

  stays_empty :
      (s : Shared E) (p : Pc) → s.cache ≡ [] → (sweep_move bits fresh lower s p).0.cache ≡ []
  unfolding sweep_move
  stays_empty s testing e = ground (arith, e)
  stays_empty s popping e = pop_empty s s.cache refl e
  stays_empty s (holding x) e = node_cache s x (gc fresh (bits x) (cell_at s x)) ∙ e
  stays_empty s (returning x) e = e
  stays_empty s through e = e

  none_new :
      (s : Shared E) (p : Pc) → returns p ≡ 0 → returns (sweep_move bits fresh lower s p).1 ≡ 0
  unfolding sweep_move sweep_pop
  none_new s testing r = ground arith
  none_new s popping r = ground arith
  none_new s (holding x) r = refl
  none_new s (returning x) r = r
  none_new s through r = refl

  -- During the phase of `n` workers.
  record Sweeping (n : ℕ) (s : System E) : Type 0 where
    accounts : Accounts bits s
    crew : length s.workers ≡ n
    no_return : total returns s.workers ≡ 0
    goal : (total passed s.workers ≡ 0) ⊎ Enough s.shared

  turn_lem :
      (n i : ℕ) (s : System E) (p : Pc)
      → get_elem? s.workers i ≡ some p
      → is_through p ≡ false
      → Sweeping n s
      → let move = sweep_move bits fresh lower in
        Sweeping n (advance move i s) × (effort (advance move i s) < effort s)
  unfolding Enough
  turn_lem n i s p e t h =
      let move = sweep_move bits fresh lower in
      let r = move s.shared p in
      let mine = le-total returns s.workers i p e in
      let none_back : returns p ≡ 0 = omega (arith, h.no_return, mine) in
      let bal =
        sweep-Balance bits fresh lower s.shared p (Held-of bits s i p e h.accounts)
          h.accounts.word in
      rw (advance_at move i s p e) (
        record {
          accounts =
              subst (Accounts bits) (advance_at move i s p e)
                (advance-Accounts bits move (sweep-Balance bits fresh lower) i s h.accounts);
          crew = length-set_pc s.workers i r.1 ∙ h.crew;
          no_return = omega (
            arith,
            total-set returns s.workers i p r.1 e,
            h.no_return,
            none_new s.shared p none_back,
          );
          goal = elim h.goal [
            | inl q ↦ elim (leaves-Enough s.shared p t) [
              | inl o ↦
                  inl (omega (arith, total-set passed s.workers i p r.1 e, q, o, none_passed p t))
              | inr o ↦ inr o
            ]
            | inr (inl u) ↦ inr (inl (omega (arith, u, bal.less)))
            | inr (inr c) ↦ inr (inr (stays_empty s.shared p c))
          ];
        },
        omega (arith, total-set cost s.workers i p r.1 e, cheaper s.shared p t none_back),
      )

  at_first :
      (n : ℕ) (s : Shared E)
      → Accounts bits (record { shared = s; workers = all_at testing n })
      → Sweeping n (record { shared = s; workers = all_at testing n })
  at_first n s a = record {
    accounts = a;
    crew = length-all_at testing n;
    no_return = omega (arith, total_each returns testing n);
    goal = inl (omega (arith, total_each passed testing n));
  }

  -- When all are through, the budget is kept.
  at_last :
      (n : ℕ) (s : System E)
      → 0 < n
      → Sweeping n s
      → s.workers ≡ all_at through n
      → s.shared.used ≤ lower
  unfolding Enough
  at_last n s some_worker h e = elim h.goal [
    | inl q ↦ absurd (omega (arith, ap (total passed) e, q, total_each passed through n))
    | inr (inl u) ↦ u
    | inr (inr c) ↦ omega (
      arith,
      h.accounts.spent,
      ap (budget bits) c,
      ap (total (carried bits)) e,
      total_each (carried bits) through n,
    )
  ]

  -- All workers collect nodes with a cache in turns that come in any order, and the accounts are right
  -- at first: each node with a cache stands once in the queue, no other node does, and the memory in use
  -- is what these nodes take. If every worker gets more turns than three for each entry of the
  -- queue and two for each worker, then all of them end their loops, and behind these turns the memory in
  -- use is at most the bound, and the accounts are right again.
  pub sweep_done :
      (n : ℕ) (is : List ℕ) (s : Shared E)
      → 0 < n
      → Accounts bits (record { shared = s; workers = all_at testing n })
      → ((i : ℕ) → i < n → 3 * length s.cache + n * 2 < count i is)
      → let t =
          run_schedule
            (sweep_move bits fresh lower)
            is
            (record { shared = s; workers = all_at testing n }) in
        (t.workers ≡ all_at through n) × (t.shared.used ≤ lower) × Accounts bits t
  unfolding sweep_move
  sweep_done n is s some_worker a turns = (ended, at_last n t some_worker kept ended, kept.accounts)
    where
      first : System E
      first = record { shared = s; workers = all_at testing n }

      t : System E
      t = run_schedule (sweep_move bits fresh lower) is first

      kept : Sweeping n t
      kept =
          run-Inv (sweep_move bits fresh lower) (Sweeping n) effort (λ s. refl) (turn_lem n) is
            first (at_first n s a)

      ends : (i : ℕ) → i < n → get_elem? t.workers i ≡ some through
      ends i lt =
          run_ends (sweep_move bits fresh lower) (Sweeping n) effort (λ s. refl) (turn_lem n) is i
            first testing (at_first n s a) (get_elem?-all_at testing n i lt)
            (inl (omega (arith, turns i lt, total_each cost testing n)))

      ended : t.workers ≡ all_at through n
      ended = all_at_lem n t.workers through kept.crew ends
