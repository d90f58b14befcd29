-- ===== src/Aio/Slots.antt =====
-- Registered files, and the errors that the wrapper reports.
use Prim.{absurd}
use aiotest.Prelude.{
  ℕ, zero, suc, ◌<◌, ◌≡◌, refl, sym, ap, ◌∙◌, true, false, not, Option, none, some, inl, inr, ◌==◌,
  ==_iff, if◌then◌else◌, Bool-cases, Option-cases, arith,
}
use aiotest.Aio.{Registry, register_fd, deregister_fd, aio_end, deregister_below, put}

module _ {Tree : Type 0} where
  put_same : (bts : ℕ → Option Tree) (fd : ℕ) (t : Option Tree) → put bts fd t fd ≡ t
  put_same bts fd t = ground arith

  restored :
      (bts : ℕ → Option Tree) (fd i : ℕ) (t : Option Tree)
      → bts fd ≡ none
      → put (put bts fd t) fd none i ≡ bts i
  restored bts fd i t free = elim (Bool-cases (i == fd)) [
    | inl e ↦ rw e (sym (ap bts ((==_iff i fd).0 e) ∙ free))
    | inr e ↦ rw e refl
  ]

  put_free : (bts : ℕ → Option Tree) (fd i : ℕ) → bts fd ≡ none → bts i ≡ put bts fd none i
  put_free bts fd i free = elim (Bool-cases (i == fd)) [
    | inl e ↦ rw e (ap bts ((==_iff i fd).0 e) ∙ free)
    | inr e ↦ rw e refl
  ]

  register_lem :
      (s : Registry Tree) (fd : ℕ) (tree : Tree)
      → s.initialised ≡ true
      → s.bts fd ≡ none
      → register_fd s fd (tree, false) ≡ (record s { bts = put s.bts fd (some tree) }, true)
  unfolding register_fd
  register_lem s fd tree init free = rw free (
      ap (λ b. if not b then (s, false) else (record s { bts = put s.bts fd (some tree) }, true))
        init)

  deregister_lem :
      (s : Registry Tree) (fd : ℕ) (tree : Tree)
      → s.initialised ≡ true
      → s.bts fd ≡ some tree
      → deregister_fd s fd ≡ (record s { bts = put s.bts fd none }, some tree)
  unfolding deregister_fd
  deregister_lem s fd tree init taken = rw taken (
      ap (λ b. if not b then (s, none) else (record s { bts = put s.bts fd none }, some tree)) init)

  deregister-initialised :
      (s : Registry Tree) (fd : ℕ)
      → s.initialised ≡ true
      → (deregister_fd s fd).0.initialised ≡ true
  unfolding deregister_fd
  deregister-initialised s fd init = elim (Option-cases (s.bts fd)) [
    | inl free ↦ rw init rw free init
    | inr (tree, taken) ↦ rw init rw taken init
  ]

  deregister-bts :
      (s : Registry Tree) (fd i : ℕ)
      → s.initialised ≡ true
      → (deregister_fd s fd).0.bts i ≡ put s.bts fd none i
  unfolding deregister_fd
  deregister-bts s fd i init = elim (Option-cases (s.bts fd)) [
    | inl free ↦ rw init rw free (put_free s.bts fd i free)
    | inr (tree, taken) ↦ rw init rw taken refl
  ]

  -- Registering a free descriptor with a tree whose engine did not fail works, and changes no other
  -- descriptor; deregistering it then hands that tree back and leaves every descriptor as it was.
  register_deregister :
      (s : Registry Tree) (fd : ℕ) (tree : Tree) (i : ℕ)
      → s.initialised ≡ true
      → s.bts fd ≡ none
      → let r = register_fd s fd (tree, false) in
        let d = deregister_fd r.0 fd in
        (r.1 ≡ true)
        × (r.0.bts i ≡ (if i == fd then some tree else s.bts i))
        × (d.1 ≡ some tree)
        × (d.0.bts i ≡ s.bts i)
  register_deregister s fd tree i init free =
      let e = register_lem s fd tree init free in
      let s' : Registry Tree = record s { bts = put s.bts fd (some tree) } in
      let d =
        ap (λ t. deregister_fd t.0 fd) e
        ∙ deregister_lem s' fd tree init (put_same s.bts fd (some tree)) in
      (
        ap (λ t. t.1) e,
        ap (λ t. t.0.bts i) e,
        ap (λ t. t.1) d,
        ap (λ t. t.0.bts i) d ∙ restored s.bts fd i (some tree) free,
      )

  -- A descriptor that is free stays free.
  below-free :
      (s : Registry Tree) (n i : ℕ)
      → s.initialised ≡ true
      → s.bts i ≡ none
      → (deregister_below s n).bts i ≡ none
  unfolding deregister_below
  below-free s zero i init free = free
  below-free s (suc n) i init free =
      below-free (deregister_fd s n).0 n i (deregister-initialised s n init) (
        deregister-bts s n i init
        ∙ elim (Bool-cases (i == n)) [ inl e ↦ rw e refl | inr e ↦ rw e free ])

  below_lem :
      (s : Registry Tree) (n i : ℕ)
      → s.initialised ≡ true
      → i < n
      → (deregister_below s n).bts i ≡ none
  unfolding deregister_below
  below_lem s zero i init h = absurd (omega (arith, h))
  below_lem s (suc n) i init h = elim (Bool-cases (i == n)) [
    | inl e ↦
        below-free (deregister_fd s n).0 n i (deregister-initialised s n init)
          (deregister-bts s n i init ∙ rw e refl)
    | inr e ↦
        below_lem (deregister_fd s n).0 n i (deregister-initialised s n init) (ground (arith, e, h))
  ]

  -- Ending the wrapper while it is initialised frees every descriptor.
  aio_end-free :
      (s : Registry Tree) (fd : ℕ)
      → s.initialised ≡ true
      → fd < 65536
      → ((aio_end s).bts fd ≡ none) × ((aio_end s).initialised ≡ false)
  unfolding aio_end
  aio_end-free s fd init h = (below_lem s 65536 fd init h, refl)
