-- ===== src/Store/Bolt/Pruned.antt =====
-- What BoltStore.PruneRuns leaves.
use clock_relay.Store.Bolt.Saving.{completed_bound}
use clock_relay.Store.Bolt.Counting.{completed_run_count_lem}
use clock_relay.Store.Bolt.Counter.{completed_run_count}
use clock_relay.Store.Bolt.Effects.{ok_inj, bind_ok}
use clock_relay.Store.Bolt.Shrunk.{older-IsPhase, excess-IsPhase}
use clock_relay.Store.Interface.{days_before}
use clock_relay.Store.Bolt.Pruning.{prune_by_age, prune_by_count}
use clock_relay.Base.Int.{ℤ, pos, ltb_ℤ, pos_part}
use clock_relay.Store.Bolt.Phases.{IsPhase, AreYoung, AreOld, AreFirst}
use clock_relay.Store.Bolt.Invariant.{IsIndexed, completed, run_of}
use clock_relay.Model.{Time, Run}
use clock_relay.Config.Types.{RunRetentionConfig}
use clock_relay.Store.Bolt.Buckets.{BoltLibrary, Tx, BoltLaws}
use clock_relay.Base.{
  Text, ℕ, arith, ◌+◌, ◌≡◌, Option-cases, ok, false, ◌⊎◌, ◌-◌, ◌≤◌, Bool-cases, inl, some, none,
  inr, ◌<◌, subst, ap, true,
}
use clock_relay.Store.Bolt.Pruning.{prune_runs}

module _ {B : Type 0} (l : BoltLibrary B) where
  -- A run is deleted for its age, or because the number of the others reaches the maximum.
  abbrev pub IsNeeded : RunRetentionConfig → Time → Tx B → Tx B → Type 0
  IsNeeded retention now tx tx' =
      (i : Text) (d : Run)
      → run_of l tx i ≡ some d
      → run_of l tx' i ≡ none
      → ((ltb_ℤ (pos 0) retention.max_age_days ≡ true)
          × (d.started_at < days_before retention.max_age_days now))
        ⊎ ((ltb_ℤ (pos 0) retention.max_records ≡ true)
            × (completed l tx' ≡ pos_part retention.max_records))

  -- What retention asks for, of the runs before and after.
  pub record IsPruned (retention : RunRetentionConfig) (now : Time) (deleted : ℕ) (kept : ℤ)
      (tx tx' : Tx B) : Type 0 where
    pub phase : IsPhase l deleted tx tx'
    pub count : kept ≡ pos (completed l tx')
    pub young :
        (ltb_ℤ (pos 0) retention.max_age_days ≡ false)
        ⊎ AreYoung l (days_before retention.max_age_days now) tx'
    pub few :
        (ltb_ℤ (pos 0) retention.max_records ≡ false)
        ⊎ (completed l tx' ≤ pos_part retention.max_records)
    pub first : AreFirst l tx tx'
    pub needed : IsNeeded retention now tx tx'

  same-IsPhase : (tx : Tx B) → IsIndexed l tx → IsPhase l 0 tx tx
  same-IsPhase tx h = record {
    indexed = h;
    left = λ j r e. e;
    running = λ j r e live. e;
    recount = omega arith;
    some_deleted = λ j r there e. absurd (ground (arith, there, e));
  }

  then-IsPhase :
      (a b : ℕ) (tx tx1 tx' : Tx B)
      → IsPhase l a tx tx1
      → IsPhase l b tx1 tx'
      → IsPhase l (a + b) tx tx'
  then-IsPhase a b tx tx1 tx' p q = record {
    indexed = q.indexed;
    left = λ j r e. p.left j r (q.left j r e);
    running = λ j r e live. q.running j r (p.running j r e live) live;
    recount = omega (arith, p.recount, q.recount);
    some_deleted = λ j r there e. elim (Option-cases (run_of l tx1 j)) [
      | inl e1 ↦ omega (arith, p.some_deleted j r there e1)
      | inr (r1, e1) ↦ omega (arith, q.some_deleted j r1 e1 e)
    ];
  }

  module _ (laws : BoltLaws l) (retention : RunRetentionConfig) (now : Time) where
    -- What the deletion by age does for the rest of the specification.
    abbrev ByAge : Tx B → Tx B → Type 0
    ByAge tx tx1 =
        ((ltb_ℤ (pos 0) retention.max_age_days ≡ false) × (tx ≡ tx1))
        ⊎ ((ltb_ℤ (pos 0) retention.max_age_days ≡ true)
            × AreYoung l (days_before retention.max_age_days now) tx1
            × AreOld l (days_before retention.max_age_days now) tx tx1)

    abbrev ByCount : ℕ → Tx B → Tx B → Type 0
    ByCount deleted tx tx1 =
        ((ltb_ℤ (pos 0) retention.max_records ≡ false) × (tx ≡ tx1))
        ⊎ ((ltb_ℤ (pos 0) retention.max_records ≡ true)
            × (deleted ≡ completed l tx - pos_part retention.max_records)
            × AreFirst l tx tx1)

    pub age-IsPhase :
        (tx tx' : Tx B) (deleted : ℕ)
        → IsIndexed l tx
        → prune_by_age l retention now tx ≡ ok (deleted, tx')
        → IsPhase l deleted tx tx' × ByAge tx tx'
    age-IsPhase tx tx' deleted h made = elim (Bool-cases (ltb_ℤ (pos 0) retention.max_age_days)) [
      | inl on ↦
          let (phase, young, old) = older-IsPhase l laws _ tx tx' deleted h (rw on at made) in
          (phase, inr (on, young, old))
      | inr off ↦
          let end : ◌≡◌ {A = ℕ × Tx B} (0, tx) (deleted, tx') = ok_inj (rw off at made) in
          (
            subst (λ (x : ℕ × Tx B). IsPhase l x.0 tx x.1) end (same-IsPhase tx h),
            inl (off, ap (λ x. x.1) end),
          )
    ]

    pub count-IsPhase :
        (tx tx' : Tx B) (deleted : ℕ)
        → IsIndexed l tx
        → prune_by_count l retention tx ≡ ok (deleted, tx')
        → IsPhase l deleted tx tx' × ByCount deleted tx tx'
    count-IsPhase tx tx' deleted h made = elim (Bool-cases (ltb_ℤ (pos 0) retention.max_records)) [
      | inl on ↦
          let (phase, size, first) = excess-IsPhase l laws _ tx tx' deleted h (rw on at made) in
          (phase, inr (on, size, first))
      | inr off ↦
          let end : ◌≡◌ {A = ℕ × Tx B} (0, tx) (deleted, tx') = ok_inj (rw off at made) in
          (
            subst (λ (x : ℕ × Tx B). IsPhase l x.0 tx x.1) end (same-IsPhase tx h),
            inl (off, ap (λ x. x.1) end),
          )
    ]

    module _ (tx tx1 tx' : Tx B) (a b : ℕ) (p : IsPhase l a tx tx1) (q : IsPhase l b tx1 tx')
        (by_age : ByAge tx tx1) (by_count : ByCount b tx1 tx') where
      both_young :
          (ltb_ℤ (pos 0) retention.max_age_days ≡ false)
          ⊎ AreYoung l (days_before retention.max_age_days now) tx'
      both_young = elim by_age [
        | inl (off, same) ↦ inl off
        | inr (on, young, old) ↦ inr (λ j r e done. young j r (q.left j r e) done)
      ]

      both_few :
          (ltb_ℤ (pos 0) retention.max_records ≡ false)
          ⊎ (completed l tx' ≤ pos_part retention.max_records)
      both_few = elim by_count [
        | inl (off, same) ↦ inl off
        | inr (on, size, first) ↦ inr (omega (arith, size, q.recount))
      ]

      both_first : AreFirst l tx tx'
      both_first i j d r was e left done = elim (Option-cases (run_of l tx1 i)) [
        | inl e1 ↦ elim by_age [
          | inl (off, same) ↦ absurd (ground (arith, was, e1, ap (λ t. run_of l t i) same))
          | inr (on, young, old) ↦ omega (arith, old i d was e1, young j r (q.left j r left) done)
        ]
        | inr (d1, e1) ↦ elim by_count [
          | inl (off, same) ↦ absurd (ground (arith, e1, e, ap (λ t. run_of l t i) same))
          | inr (on, size, first) ↦
              let same : d1 ≡ d = ground (arith, p.left i d1 e1, was) in
              ground (arith, ap (λ (x : Run). x.started_at) same, first i j d1 r e1 e left done)
        ]
      ]

      both-IsNeeded : IsNeeded retention now tx tx'
      both-IsNeeded i d was e = elim (Option-cases (run_of l tx1 i)) [
        | inl e1 ↦ elim by_age [
          | inl (off, same) ↦ absurd (ground (arith, was, e1, ap (λ t. run_of l t i) same))
          | inr (on, young, old) ↦ inl (on, old i d was e1)
        ]
        | inr (d1, e1) ↦ elim by_count [
          | inl (off, same) ↦ absurd (ground (arith, e1, e, ap (λ t. run_of l t i) same))
          | inr (on, size, first) ↦
              inr (on, omega (arith, size, q.recount, q.some_deleted i d1 e1 e))
        ]
      ]

    -- On a store whose indexes and counter agree with its runs, PruneRuns that succeeds keeps them so,
    -- spares every running run, counts what it deletes and keeps, leaves no finished run that is too
    -- old and at most max_records of them, deletes the oldest first, and none without need.
    pub prune_runs-IsPruned :
        (tx tx' : Tx B) (deleted : ℕ) (kept : ℤ)
        → IsIndexed l tx
        → prune_runs l retention now tx ≡ ok ((deleted, kept), tx')
        → IsPruned retention now deleted kept tx tx'
    unfolding prune_runs
    prune_runs-IsPruned tx tx' deleted kept h made =
        let ((a, tx1), aged, s1) = bind_ok (prune_by_age l retention now tx) _ made in
        let ((b, tx2), shrunk, s2) = bind_ok (prune_by_count l retention tx1) _ s1 in
        let (n, counted, last) = bind_ok (completed_run_count l tx2) _ s2 in
        let (p, by_age) = age-IsPhase tx tx1 a h aged in
        let (q, by_count) = count-IsPhase tx1 tx2 b p.indexed shrunk in
        let total =
          completed_run_count_lem l laws (completed l tx2) tx2
            (omega (arith, completed_bound l laws tx2)) q.indexed.counted in
        let same : n ≡ pos (completed l tx2) = ground (arith, counted, total) in
        let end : ◌≡◌ {A = (ℕ × ℤ) × Tx B} ((a + b, n), tx2) ((deleted, kept), tx') = ok_inj last in
        subst (λ (x : (ℕ × ℤ) × Tx B). IsPruned retention now x.0.0 x.0.1 tx x.1) end
          (record {
            phase = then-IsPhase a b tx tx1 tx2 p q;
            count = same;
            young = both_young tx tx1 tx2 a b p q by_age by_count;
            few = both_few tx tx1 tx2 a b p q by_age by_count;
            first = both_first tx tx1 tx2 a b p q by_age by_count;
            needed = both-IsNeeded tx tx1 tx2 a b p q by_age by_count;
          })
