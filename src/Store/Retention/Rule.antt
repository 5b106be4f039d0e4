-- ===== src/Store/Retention/Rule.antt =====
-- The retention rule of pruneRuns: which runs it removes and what it reports.
use mathlib.Core.List.{reverse-reverse}
use mathlib.Core.Bool.{false≢true}
use clock_relay.Store.Retention.Order.{mark_excess_parts, oldest_first}
use clock_relay.Base.Sorting.{All-sort, count_if-sort, reverse-IsSorted, sort-IsSorted, IsSorted}
use clock_relay.Store.Interface.{days_before}
use Prim.Native.Nat.{min}
use clock_relay.Store.Retention.Marks.{
  is_old, is_kept, retained_completed_run_count_lem, kept_count_lem, member-mark_old,
  mark_excess_only, mark_excess_keeps, kept_count-reverse, kept_count-mark_excess,
  mark_excess_conserves, mark_old_conserves,
}
use clock_relay.Config.Validate.{member}
use clock_relay.Base.Int.{ltb_ℤ, pos, pos_part}
use clock_relay.Store.Retention.Ids.{IsUnique, sort-IsUnique, reverse-IsUnique, any_by_id}
use clock_relay.Model.{Time}
use clock_relay.Base.{
  List, ℕ, Bool, if◌then◌else◌, not, Text, reverse, All, ◌&&◌, ◌≡◌, any, text_eq, All-map, true,
  ◌∙◌, any-reverse, false, refl, Bool-cases, count_if, ◌+◌, inl, All-zip, ap, ◌≤◌, count_if-cong,
  inr, [], arith, sym, any_none, length, All-intro, All-reverse,
}
use clock_relay.Config.Types.{RunRetentionConfig}
use clock_relay.Store.Retention.{
  StoredRun, is_live, sort_stored_runs, prune_victims, old_victims, newest_first, all_victims,
  mark_excess, kept_count,
}

-- A completed run that is older than the configured number of days.
abbrev pub is_expired : RunRetentionConfig → Time → StoredRun → Bool
is_expired retention now r =
    ltb_ℤ (pos 0) retention.max_age_days && is_old (days_before retention.max_age_days now) r

-- The completed runs that are young enough.
abbrev pub is_fresh : RunRetentionConfig → Time → StoredRun → Bool
is_fresh retention now r = not (is_live r) && not (is_expired retention now r)

-- How many of `n` runs the configured number of records admits.
abbrev pub admitted : RunRetentionConfig → ℕ → ℕ
admitted retention n =
    if ltb_ℤ (pos 0) retention.max_records then min (pos_part retention.max_records) n else n

newest_total : (x y : StoredRun) → newest_first x y ≡ false → newest_first y x ≡ true
newest_total x y h = ground arith

newest_trans :
    (x y z : StoredRun)
    → newest_first x y ≡ true
    → newest_first y z ≡ true
    → newest_first x z ≡ true
newest_trans x y z h k = ground arith

module _ (stored : List StoredRun) (retention : RunRetentionConfig) (now : Time)
    (unique : IsUnique stored) where
  runs : List StoredRun
  runs = sort_stored_runs stored

  old : List Text
  old = old_victims retention now runs

  unique_runs : IsUnique runs
  unfolding runs sort_stored_runs
  unique_runs = sort-IsUnique newest_first stored unique

  unique_reverse : IsUnique (reverse runs)
  unique_reverse = reverse-IsUnique runs unique_runs

  -- The victims that `prune_victims` returns.
  abbrev pub victims : List Text
  victims = (prune_victims stored retention now).1

  victims_lem : victims ≡ all_victims retention now runs
  unfolding prune_victims runs
  victims_lem = refl

  member-old :
      (k : Text) → member k old ≡ any (λ r. text_eq r.id k && is_expired retention now r) runs
  unfolding old old_victims member
  member-old k = elim (Bool-cases (ltb_ℤ (pos 0) retention.max_age_days)) [
    | inl on ↦ simp on (member-mark_old (days_before retention.max_age_days now) runs [] k)
    | inr off ↦ simp off (sym (any_none _ runs (λ r. ground arith)))
  ]

  old_by_run : All (λ r. member r.id old ≡ is_expired retention now r) runs
  old_by_run =
      All-map
        (λ r.
          any (λ t. text_eq t.id r.id && is_expired retention now t) runs
          ≡ is_expired retention now r)
        (λ r. member r.id old ≡ is_expired retention now r) runs (λ r e. member-old r.id ∙ e)
        (any_by_id (is_expired retention now) runs unique_runs)

  completed_by_run :
      All
        (λ r. any (λ t. text_eq t.id r.id && not (is_live t)) (reverse runs) ≡ not (is_live r))
        runs
  completed_by_run =
      All-map (λ r. any (λ t. text_eq t.id r.id && not (is_live t)) runs ≡ not (is_live r))
        (λ r. any (λ t. text_eq t.id r.id && not (is_live t)) (reverse runs) ≡ not (is_live r)) runs
        (λ r e. any-reverse (λ (t : StoredRun). text_eq t.id r.id && not (is_live t)) runs ∙ e)
        (any_by_id (λ t. not (is_live t)) runs unique_runs)

  limit : ℕ
  limit = pos_part retention.max_records

  -- The victims by count, where a count is configured.
  victims_by_count :
      ltb_ℤ (pos 0) retention.max_records ≡ true
      → victims ≡ mark_excess limit (kept_count runs old) (reverse runs) old
  unfolding all_victims old limit
  victims_by_count on = victims_lem ∙ rw on

  victims_by_age : ltb_ℤ (pos 0) retention.max_records ≡ false → victims ≡ old
  unfolding all_victims old limit
  victims_by_age off = victims_lem ∙ rw off

  running_point :
      (r : StoredRun)
      → member r.id old ≡ is_expired retention now r
      → any (λ t. text_eq t.id r.id && not (is_live t)) (reverse runs) ≡ not (is_live r)
      → is_live r ≡ true
      → member r.id victims ≡ false
  running_point r e c live = elim (Bool-cases (ltb_ℤ (pos 0) retention.max_records)) [
    | inl on ↦ rw (victims_by_count on) (
        mark_excess_only limit (kept_count runs old) (reverse runs) old r.id (ground arith)
          (ground arith))
    | inr off ↦ rw (victims_by_age off) (ground arith)
  ]

  -- A running run is never a victim.
  pub running_run_kept : All (λ r. is_live r ≡ true → member r.id victims ≡ false) stored
  unfolding runs sort_stored_runs
  running_run_kept = All-sort newest_first _ stored (
      All-map _ (λ r. is_live r ≡ true → member r.id victims ≡ false) runs
        (λ r h. running_point r h.0 h.1) (All-zip _ _ runs old_by_run completed_by_run))

  expired_point :
      (r : StoredRun)
      → member r.id old ≡ is_expired retention now r
      → is_expired retention now r ≡ true
      → member r.id victims ≡ true
  expired_point r e x = elim (Bool-cases (ltb_ℤ (pos 0) retention.max_records)) [
    | inl on ↦
        rw (victims_by_count on)
          (mark_excess_keeps limit (kept_count runs old) (reverse runs) old r.id (e ∙ x))
    | inr off ↦ rw (victims_by_age off) (e ∙ x)
  ]

  -- A completed run from before the configured number of days is a victim.
  pub expired_run_removed :
      All (λ r. is_expired retention now r ≡ true → member r.id victims ≡ true) stored
  unfolding runs sort_stored_runs
  expired_run_removed = All-sort newest_first _ stored (
      All-map _ (λ r. is_expired retention now r ≡ true → member r.id victims ≡ true) runs
        expired_point old_by_run)

  -- `pruneRuns` reports the completed runs that it keeps.
  reported_kept : (prune_victims stored retention now).0.kept ≡ kept_count runs victims
  unfolding prune_victims runs
  reported_kept = retained_completed_run_count_lem _ _

  kept_count-old : kept_count runs old ≡ count_if (is_fresh retention now) stored
  unfolding runs sort_stored_runs
  kept_count-old =
      kept_count_lem runs old
      ∙ count_if-cong (is_kept old) (is_fresh retention now) runs (
          All-map _ (λ r. is_kept old r ≡ is_fresh retention now r) runs (λ r e. ground arith)
            old_by_run)
      ∙ count_if-sort newest_first (is_fresh retention now) stored

  count_marked :
      kept_count runs (mark_excess limit (kept_count runs old) (reverse runs) old)
      ≡ min limit (kept_count runs old)
  count_marked =
      sym (kept_count-reverse runs _)
      ∙ (rw (kept_count-reverse runs old) at
          (kept_count-mark_excess limit (reverse runs) old unique_reverse))

  kept_count-victims : kept_count runs victims ≡ admitted retention (kept_count runs old)
  unfolding limit
  kept_count-victims = elim (Bool-cases (ltb_ℤ (pos 0) retention.max_records)) [
    | inl on ↦ rw (victims_by_count on, on) count_marked
    | inr off ↦ rw (victims_by_age off, off)
  ]

  -- The report counts the completed runs that are no victims.
  pub kept_by_victims :
      (prune_victims stored retention now).0.kept ≡ count_if (is_kept victims) stored
  unfolding runs sort_stored_runs
  kept_by_victims =
      reported_kept
      ∙ kept_count_lem runs victims
      ∙ count_if-sort newest_first (is_kept victims) stored

  -- The number of completed runs that are kept is the number of those that are young enough, cut to
  -- the configured number of records.
  pub kept_exactly :
      (prune_victims stored retention now).0.kept
      ≡ admitted retention (count_if (is_fresh retention now) stored)
  kept_exactly = reported_kept ∙ kept_count-victims ∙ ap (admitted retention) kept_count-old

  kept_count-nil : kept_count runs [] ≡ count_if (λ r. not (is_live r)) stored
  unfolding runs sort_stored_runs member
  kept_count-nil = kept_count_lem runs [] ∙ count_if-sort newest_first (λ r. not (is_live r)) stored

  old_conserves : length old + kept_count runs old ≡ count_if (λ r. not (is_live r)) stored
  unfolding old old_victims
  old_conserves = elim (Bool-cases (ltb_ℤ (pos 0) retention.max_age_days)) [
    | inl on ↦ simp on (
        omega (
          arith,
          mark_old_conserves (days_before retention.max_age_days now) runs [] unique_runs,
          kept_count-nil,
        ))
    | inr off ↦ simp off (omega (arith, kept_count-nil))
  ]

  victims_conserve : length victims + kept_count runs victims ≡ length old + kept_count runs old
  victims_conserve = elim (Bool-cases (ltb_ℤ (pos 0) retention.max_records)) [
    | inl on ↦ rw (victims_by_count on) (
        rw (kept_count-reverse runs old, kept_count-reverse runs) at
          (mark_excess_conserves limit (reverse runs) old unique_reverse))
    | inr off ↦ rw (victims_by_age off)
  ]

  reported_deleted : (prune_victims stored retention now).0.deleted ≡ length victims
  unfolding prune_victims
  reported_deleted = refl

  -- What is deleted and what is kept add up to the completed runs that were there.
  pub deleted_add_kept :
      (prune_victims stored retention now).0.deleted + (prune_victims stored retention now).0.kept
      ≡ count_if (λ r. not (is_live r)) stored
  deleted_add_kept = omega (arith, reported_deleted, reported_kept, victims_conserve, old_conserves)

  -- A time that parts the runs removed by the count from the runs that are kept.
  record Threshold : Type 0 where
    at : Time
    marked :
        All
          (λ r. member r.id old ≡ false → member r.id victims ≡ true → r.run.started_at ≤ at)
          stored
    kept : All (λ r. is_kept victims r ≡ true → at ≤ r.run.started_at) stored

  from_reverse {κ} : (P : StoredRun → Type κ) → All P (reverse runs) → All P stored
  unfolding runs sort_stored_runs
  from_reverse P h =
      All-sort newest_first P stored (rw (reverse-reverse runs) at (All-reverse P (reverse runs) h))

  IsSorted-reverse : IsSorted oldest_first (reverse runs)
  unfolding runs sort_stored_runs
  IsSorted-reverse =
      reverse-IsSorted newest_first runs
        (sort-IsSorted newest_first newest_total newest_trans stored)

  threshold_by_count : ltb_ℤ (pos 0) retention.max_records ≡ true → Threshold
  threshold_by_count on =
      let parts =
        mark_excess_parts limit (kept_count runs old) (reverse runs) old 0 unique_reverse
          IsSorted-reverse (All-intro _ (reverse runs) (λ r. omega arith)) in
      record {
        at = parts.at;
        marked = rw (victims_by_count on) (from_reverse _ parts.marked);
        kept = rw (victims_by_count on) (from_reverse _ parts.kept);
      }

  threshold_by_age : ltb_ℤ (pos 0) retention.max_records ≡ false → Threshold
  threshold_by_age off = record {
    at = 0;
    marked =
        All-intro _ stored (λ r a b. absurd (false≢true (sym a ∙ (rw (victims_by_age off) at b))));
    kept = All-intro _ stored (λ r k. omega arith);
  }

  threshold : Threshold
  threshold = elim (Bool-cases (ltb_ℤ (pos 0) retention.max_records)) [
    | inl on ↦ threshold_by_count on
    | inr off ↦ threshold_by_age off
  ]

  pair_point :
      (at : Time) (v k : StoredRun)
      → member v.id old ≡ is_expired retention now v
      → (member v.id old ≡ false → member v.id victims ≡ true → v.run.started_at ≤ at)
      → (is_expired retention now k ≡ true → member k.id victims ≡ true)
      → (is_kept victims k ≡ true → at ≤ k.run.started_at)
      → is_live v ≡ false
      → member v.id victims ≡ true
      → is_kept victims k ≡ true
      → v.run.started_at ≤ k.run.started_at
  pair_point at v k e m x q live gone kept = ground arith

  -- No completed run that is removed started after a completed run that is kept.
  pub removed_before_kept :
      All
        (λ v.
          All
            (λ k.
              is_live v ≡ false
              → member v.id victims ≡ true
              → is_kept victims k ≡ true
              → v.run.started_at ≤ k.run.started_at)
            stored)
        stored
  unfolding runs sort_stored_runs
  removed_before_kept =
      All-map _ _ stored
        (λ v h.
          All-map _ _ stored (λ k g. pair_point threshold.at v k h.0 h.1 g.0 g.1)
            (All-zip _ _ stored expired_run_removed threshold.kept))
        (All-zip _ _ stored (All-sort newest_first _ stored old_by_run) threshold.marked)
