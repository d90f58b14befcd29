-- ===== src/Collector/Rounds.antt =====
-- The turns of one worker in a phase of src/backup/Worker.cpp, and a measure that they use up.
use aiotest.Prelude.{
  ℕ, zero, suc, ◌≤◌, ◌<◌, ◌≡◌, refl, ap, sym, subst, ◌∙◌, ◌⊎◌, inl, inr, Bool, true, false, none,
  some, List, [], ◌∷◌, ◌==◌, ==_iff, get_elem?, if◌then◌else◌, Bool-cases, Option-cases, arith,
}
use aiotest.Engine.{Engine}
use aiotest.Collector.{
  Shared, System, Pc, testing, popping, through, holding, returning, advance, run_schedule, set_pc,
}
use aiotest.Collector.Hands.{advance_at}
use aiotest.Worker.Ids.{count}

abbrev pub is_through : Pc → Bool
is_through through = true
is_through other = false

through_of : (p : Pc) → is_through p ≡ true → p ≡ through
through_of through e = refl
through_of testing e = ground (arith, e)
through_of popping e = ground (arith, e)
through_of (holding x) e = ground (arith, e)
through_of (returning x) e = ground (arith, e)

set_pc_same : (ps : List Pc) (i : ℕ) (p : Pc) → get_elem? ps i ≡ some p → set_pc ps i p ≡ ps
set_pc_same [] i p e = refl
set_pc_same (q ∷ ps) zero p e = ap (λ r. r ∷ ps) (ground (arith, e))
set_pc_same (q ∷ ps) (suc i) p e = ap (λ r. q ∷ r) (set_pc_same ps i p e)

get_elem?-set_pc :
    (ps : List Pc) (i j : ℕ) (p q : Pc)
    → get_elem? ps i ≡ some p
    → get_elem? (set_pc ps j q) i ≡ some (if i == j then q else p)
get_elem?-set_pc [] i j p q e = ground (arith, e)
get_elem?-set_pc (r ∷ ps) zero zero p q e = refl
get_elem?-set_pc (r ∷ ps) zero (suc j) p q e = ground (arith, e)
get_elem?-set_pc (r ∷ ps) (suc i) zero p q e = ground (arith, e)
get_elem?-set_pc (r ∷ ps) (suc i) (suc j) p q e = ground (arith, get_elem?-set_pc ps i j p q e)

module _ {E : Engine} (move : Shared E → Pc → Shared E × Pc) (Inv : System E → Type 0)
    (measure : System E → ℕ) (rests : (s : Shared E) → move s through ≡ (s, through))
    (falls : (i : ℕ) (s : System E) (p : Pc)
      → get_elem? s.workers i ≡ some p
      → is_through p ≡ false
      → Inv s
      → Inv (advance move i s) × (measure (advance move i s) < measure s)) where
  idle_turn : (i : ℕ) (s : System E) → get_elem? s.workers i ≡ some through → advance move i s ≡ s
  idle_turn i s e =
      advance_at move i s through e
      ∙ ap (λ r. record { shared = r.0; workers = set_pc s.workers i r.1 }) (rests s.shared)
      ∙ ap (λ w. record { shared = s.shared; workers = w }) (set_pc_same s.workers i through e)

  no_turn : (i : ℕ) (s : System E) → get_elem? s.workers i ≡ none → advance move i s ≡ s
  unfolding advance
  no_turn i s e = rw (e, advance) refl

  -- A turn, whoever has it.
  any_turn :
      (i : ℕ) (s : System E)
      → Inv s
      → Inv (advance move i s) × (measure (advance move i s) ≤ measure s)
  any_turn i s h = elim (Option-cases (get_elem? s.workers i)) [
    | inl e ↦ rw (no_turn i s e) (h, omega arith)
    | inr (p, e) ↦ elim (Bool-cases (is_through p)) [
      | inl t ↦ rw (idle_turn i s (e ∙ ap some (through_of p t))) (h, omega arith)
      | inr t ↦ let f = falls i s p e t h in (f.0, omega (arith, f.1))
    ]
  ]

  others_stay :
      (i j : ℕ) (s : System E) (p : Pc)
      → get_elem? s.workers i ≡ some p
      → (i == j) ≡ false
      → get_elem? (advance move j s).workers i ≡ some p
  others_stay i j s p e apart = elim (Option-cases (get_elem? s.workers j)) [
    | inl n ↦ rw (no_turn j s n) e
    | inr (q, n) ↦ rw (advance_at move j s q n) (
        get_elem?-set_pc s.workers i j p _ e
        ∙ ap (λ b. some (if b then (move s.shared q).1 else p)) apart)
  ]

  own_turn :
      (i : ℕ) (s : System E) (p : Pc)
      → get_elem? s.workers i ≡ some p
      → get_elem? (advance move i s).workers i ≡ some (move s.shared p).1
  own_turn i s p e = rw (advance_at move i s p e) (
      get_elem?-set_pc s.workers i i p _ e
      ∙ ap (λ b. some (if b then (move s.shared p).1 else p)) ((==_iff i i).1 refl))

  pub run-Inv : (is : List ℕ) (s : System E) → Inv s → Inv (run_schedule move is s)
  unfolding run_schedule
  run-Inv [] s h = h
  run-Inv (i ∷ is) s h = run-Inv is (advance move i s) (any_turn i s h).0

  -- A worker that is through stays there, and one with more turns than the measure gets there.
  pub run_ends :
      (is : List ℕ) (i : ℕ) (s : System E) (p : Pc)
      → Inv s
      → get_elem? s.workers i ≡ some p
      → (measure s < count i is) ⊎ (is_through p ≡ true)
      → get_elem? (run_schedule move is s).workers i ≡ some through
  unfolding run_schedule
  run_ends [] i s p h e (inl m) = ground (arith, m)
  run_ends [] i s p h e (inr t) = e ∙ ap some (through_of p t)
  run_ends (j ∷ is) i s p h e m =
      let next = any_turn j s h in
      elim (Bool-cases (i == j)) [
        | inr apart ↦
            run_ends is i (advance move j s) p next.0 (others_stay i j s p e apart)
              (fewer apart next.1 m)
        | inl own ↦
            let e' : get_elem? s.workers j ≡ some p =
              subst (λ k. get_elem? s.workers k ≡ some p) ((==_iff i j).0 own) e in
            elim (Bool-cases (is_through p)) [
              | inl t ↦
                  run_ends is i (advance move j s) p next.0
                    (rw (idle_turn j s (e' ∙ ap some (through_of p t))) e) (inr t)
              | inr t ↦
                  let f = falls j s p e' t h in
                  run_ends is i (advance move j s) (move s.shared p).1 f.0
                    (subst (λ k. get_elem? (advance move j s).workers k ≡ some (move s.shared p).1)
                      (sym ((==_iff i j).0 own)) (own_turn j s p e'))
                    (inl (nearer own t f.1 m))
            ]
      ]
    where
      fewer :
          (i == j) ≡ false
          → measure (advance move j s) ≤ measure s
          → (measure s < count i (j ∷ is)) ⊎ (is_through p ≡ true)
          → (measure (advance move j s) < count i is) ⊎ (is_through p ≡ true)
      fewer apart le (inl lt) = inl (ground (arith, apart, le, lt))
      fewer apart le (inr t) = inr t

      nearer :
          (i == j) ≡ true
          → is_through p ≡ false
          → measure (advance move j s) < measure s
          → (measure s < count i (j ∷ is)) ⊎ (is_through p ≡ true)
          → measure (advance move j s) < count i is
      nearer own t lt (inl le) = ground (arith, own, le, lt)
      nearer own t lt (inr e) = ground (arith, e, t)
