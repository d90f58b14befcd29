-- ===== src/Collector/Flushed.antt =====
-- What the flushing phase leaves: the nodes, the queue and the file.
use aiotest.Prelude.{
  ℕ, ◌+◌, ◌*◌, ◌≤◌, ◌<◌, ◌≡◌, refl, ap, ◌∙◌, inl, inr, true, false, ◌&&◌, some, List, ◌==◌, length,
  get_elem?, if◌then◌else◌, arith,
}
use aiotest.Prelude.Bytes.{Bytes}
use aiotest.Engine.{Engine}
use aiotest.Cache.{is_null}
use aiotest.Collector.{
  Shared, System, popping, through, flush_move, run_schedule, all_at, push_nulls,
}
use aiotest.Collector.Hands.{
  total, carries, entries, length-all_at, total_each, get_elem?-all_at, all_at_lem,
}
use aiotest.Collector.Accounts.{Accounts, flag}
use aiotest.Collector.Eviction.{cleaned, Outside}
use aiotest.Collector.Steps.{Step-Accounts, begins_flush}
use aiotest.Collector.Tokens.{
  nulls, nulls-push_nulls, waiting_none, waiting-push_nulls, front-push_nulls,
}
use aiotest.Collector.Flushing.{evicted, effort, busy, tests, holds, to_do, cost}
use aiotest.Collector.Written.{IsOrderly, Written, turn_lem}
use aiotest.Collector.Rounds.{run-Inv, run_ends}
use aiotest.Worker.Ids.{count}

-- After the phase: no null is left, the nodes that hang in the tree are in the queue again, once, and the
-- others have been deleted. All caches are clean. If nothing failed, the file holds what they hold.
-- Where no cache was dirty, the file is as it was.
pub record IsFlushed {E : Engine} (s₀ t : Shared E) : Type 0 where
  pub no_null : nulls t.cache ≡ 0
  pub queue :
      (x : ℕ) → entries x t.cache ≡ (if is_null (s₀.page x).parent then 0 else entries x s₀.cache)
  pub pages :
      (x : ℕ) → t.page x ≡ (if entries x s₀.cache == 1 then cleaned (s₀.page x) else s₀.page x)
  pub gone :
      (x : ℕ)
      → t.deleted x
        ≡ (if entries x s₀.cache == 1 && is_null (s₀.page x).parent then true else s₀.deleted x)
  pub safe :
      t.failed ≡ false
      → (x j : ℕ) → entries x s₀.cache ≡ 1
      → j < (s₀.page x).effective
      → E.bytes t.file ((s₀.page x).offset + j) ≡ (s₀.page x).memory j
  pub outside :
      (i : ℕ)
      → ((x : ℕ) → entries x s₀.cache ≡ 1 → (s₀.page x).dirty ≡ true → Outside (s₀.page x) i)
      → E.bytes t.file i ≡ E.bytes s₀.file i

-- The state in which the phase begins.
abbrev pub at_flush : {E : Engine} → (n : ℕ) → Shared E → System E
at_flush n s₀ = record {
  shared = record s₀ { cache = push_nulls n s₀.cache };
  workers = all_at popping n;
}

module _ {E : Engine} (bits : ℕ → ℕ) (fresh : Bytes) (n : ℕ) (s₀ : Shared E) (some_worker : 0 < n)
    (no_null : nulls s₀.cache ≡ 0)
    (accounts : Accounts bits (record { shared = s₀; workers = all_at through n }))
    (orderly : IsOrderly s₀) where
  once : (x : ℕ) → entries x s₀.cache ≤ 1
  once x = ground (arith, accounts.owned x)

  first_to_do : (x : ℕ) → to_do x (at_flush n s₀) ≡ entries x s₀.cache
  first_to_do x =
      omega (arith, waiting-push_nulls x n s₀.cache some_worker, total_each (holds x) popping n)

  none_yet : (x : ℕ) → evicted s₀ (at_flush n s₀) x ≡ false
  none_yet x = ground (arith, first_to_do x)

  at_first : Written bits fresh n s₀ once orderly (at_flush n s₀)
  at_first = record {
    nodes = record {
      accounts = Step-Accounts bits fresh n (begins_flush refl) accounts;
      crew = length-all_at popping n;
      tokens = omega (arith, nulls-push_nulls n s₀.cache, no_null, total_each busy popping n);
      untested = omega (arith, total_each tests popping n);
      left = λ x. omega (arith, first_to_do x);
      pages = λ x. rw (none_yet x) refl;
      gone = λ x. rw (none_yet x) refl;
    };
    safe = λ f x j m c lt. elim c [
      | inl done ↦ ground (arith, done, none_yet x)
      | inr tidy ↦ orderly.clean x j m tidy lt
    ];
    outside = λ k far. refl;
  }

  at_last :
      (t : System E)
      → Written bits fresh n s₀ once orderly t
      → t.workers ≡ all_at through n
      → IsFlushed s₀ t.shared
  at_last t w e = record {
    no_null = none_left;
    queue = λ x. ground (
      arith,
      w.nodes.accounts.owned x,
      accounts.owned x,
      ap (total (carries x)) e,
      total_each (carries x) through n,
      once x,
      ap (λ p. flag p.cached) (page_lem x),
    );
    pages = page_lem;
    gone = λ x.
        w.nodes.gone x
        ∙ ap (λ b. if b && is_null (s₀.page x).parent then true else s₀.deleted x) (all_done x);
    safe = λ f x j m lt. w.safe f x j m (inl (ground (arith, all_done x, m))) lt;
    outside = w.outside;
  }
    where
      none_left : nulls t.shared.cache ≡ 0
      none_left = omega (arith, w.nodes.tokens, ap (total busy) e, total_each busy through n)

      all_done : (x : ℕ) → evicted s₀ t x ≡ (entries x s₀.cache == 1)
      all_done x = ground (
        arith,
        once x,
        waiting_none x t.shared.cache none_left,
        ap (total (holds x)) e,
        total_each (holds x) through n,
      )

      page_lem :
          (x : ℕ)
          → t.shared.page x ≡ (if entries x s₀.cache == 1 then cleaned (s₀.page x) else s₀.page x)
      page_lem x =
          w.nodes.pages x ∙ ap (λ b. if b then cleaned (s₀.page x) else s₀.page x) (all_done x)

  -- All workers flush the nodes with a cache in turns that come in any order. Before the phase the accounts are right,
  -- no null stands in the queue, the cached bytes of no two nodes overlap, and the bytes of a clean cache
  -- are in the file. If every worker gets more turns than three for each entry of the queue and one for
  -- each worker, then all of them end their loops, and behind these turns no null is left in the queue; the
  -- nodes that hang in the tree stand in it once again, and their caches are clean; the others are deleted;
  -- the accounts are right. If the tree is not marked as failed then, the file holds all that the caches held. Where there
  -- was no dirty cache it is as it was, failed or not.
  pub flush_phase :
      (is : List ℕ)
      → ((i : ℕ) → i < n → 3 * length s₀.cache + n < count i is)
      → let t = run_schedule (flush_move bits fresh) is (at_flush n s₀) in
        (t.workers ≡ all_at through n) × IsFlushed s₀ t.shared × Accounts bits t
  unfolding flush_move
  flush_phase is turns = (ended, at_last t kept ended, kept.nodes.accounts)
    where
      t : System E
      t = run_schedule (flush_move bits fresh) is (at_flush n s₀)

      kept : Written bits fresh n s₀ once orderly t
      kept =
          run-Inv (flush_move bits fresh) (Written bits fresh n s₀ once orderly) effort (λ s. refl)
            (turn_lem bits fresh n s₀ once orderly) is (at_flush n s₀) at_first

      ends : (i : ℕ) → i < n → get_elem? t.workers i ≡ some through
      ends i lt =
          run_ends (flush_move bits fresh) (Written bits fresh n s₀ once orderly) effort (λ s. refl)
            (turn_lem bits fresh n s₀ once orderly) is i (at_flush n s₀) popping at_first
            (get_elem?-all_at popping n i lt)
            (inl
              (omega (arith, turns i lt, total_each cost popping n, front-push_nulls n s₀.cache)))

      ended : t.workers ≡ all_at through n
      ended = all_at_lem n t.workers through kept.nodes.crew ends
