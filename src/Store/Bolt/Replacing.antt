-- ===== src/Store/Bolt/Replacing.antt =====
-- The steps of writeRun together.
use clock_relay.Base.{
  Text, ◌≡◌, Option, ok, some, ℕ, if◌then◌else◌, ap, true, ◌+◌, text_eq, ◌∙◌, Bool-cases, inl, inr,
  none, ◌⊎◌, sym, arith, text_eq_iff, subst, refl, ◌<◌,
}
use clock_relay.Store.Bolt.Buckets.{BoltLibrary, BoltLaws, Tx, IsImage, year_10000}
use clock_relay.Store.Bolt.Views.{IsIndex, AreNamed, IsSetAt, IsMoved, moved-IsIndex}
use clock_relay.Store.Bolt.Keys.{
  IsPlain, lacks_nul, started_key_is, running_key_is, started_key-Tells, running_key-Tells,
}
use clock_relay.Store.Bolt.Effects.{at, Indexed}
use clock_relay.Store.Bolt.Counting.{Recounted, Counts}
use clock_relay.Store.Bolt.Invariant.{
  run_of, decoded, completed, completed_in, raw_completed, IsIndexed, read_run,
}
use clock_relay.Store.Bolt.Written.{PutRun, Dropped, bit}
use clock_relay.Store.Interface.{is_completed_run}
use clock_relay.Base.Ordered.{count_values, value_counts, count-put_ordered, put_ordered}
use clock_relay.Model.{Run}

pub value_counts_lem :
    {B : Type 0} (l : BoltLibrary B) (o : Option Text)
    → value_counts (raw_completed l) o ≡ bit l (completed_in (decoded l o))
value_counts_lem l none = refl
value_counts_lem l (some raw) = refl

-- The index keys of a run are those of its image.
module _ {B : Type 0} (l : BoltLibrary B) (r r' : Run) (image : IsImage r r') where
  started_key-image : (k : Text) → started_key_is l r' k ≡ started_key_is l r k
  started_key-image k = rw (image.id, image.started_at)

  running_key-image : (k : Text) → running_key_is l r' k ≡ running_key_is l r k
  running_key-image k = rw (image.id, image.status, image.schedule_name)

module _ {B : Type 0} (l : BoltLibrary B) (laws : BoltLaws l) (run : Run) (raw : Text)
    (old : Option Run) (r' : Run) (tx tx1 tx2 tx3 tx' : Tx B) (read : l.unmarshal_run raw ≡ ok r')
    (image : IsImage run r') (was : run_of l tx run.id ≡ old) (dropped : Dropped l old tx tx1)
    (put : PutRun l run.id raw tx1 tx2) (added : Indexed l run (some run.id) tx2 tx3) (n : ℕ)
    (recounted : Recounted l n tx3 tx') where
  runs_at : (j : Text) → at l tx'.runs j ≡ (if text_eq run.id j then some raw else at l tx.runs j)
  runs_at j =
      ap (λ b. at l b j) (recounted.runs ∙ added.runs)
      ∙ put.run_at j
      ∙ ap (λ b. if text_eq run.id j then some raw else at l b j) dropped.runs

  pub run_set : IsSetAt run.id (some r') (run_of l tx) (run_of l tx')
  run_set j =
      ap (decoded l) (runs_at j)
      ∙ (elim (Bool-cases (text_eq run.id j)) [ inl e ↦ rw (e, read) | inr e ↦ rw e ])

  started-IsMoved :
      IsMoved
        (started_key_is l)
        run.id
        old
        (some r')
        (at l tx.runs_by_started_at)
        (at l tx'.runs_by_started_at)
  started-IsMoved k =
      ap (λ b. at l b k) recounted.started
      ∙ added.started k
      ∙ ap (λ b. if started_key_is l run k then some run.id else at l b k) put.started
      ∙ ap (λ v. if started_key_is l run k then some run.id else v) (dropped.started k)
      ∙ rw (started_key-image l run r' image k)

  running-IsMoved :
      IsMoved
        (running_key_is l)
        run.id
        old
        (some r')
        (at l tx.running_runs_by_schedule)
        (at l tx'.running_runs_by_schedule)
  running-IsMoved k =
      ap (λ b. at l b k) recounted.running
      ∙ added.running k
      ∙ ap (λ b. if running_key_is l run k then some run.id else at l b k) put.running
      ∙ ap (λ v. if running_key_is l run k then some run.id else v) (dropped.running k)
      ∙ rw (running_key-image l run r' image k)

  module _ (bounded : run.started_at < year_10000) (nul_free : lacks_nul run.schedule_name ≡ true)
      (h : IsIndexed l tx) where
    run_cases :
        (j : Text) (r : Run)
        → run_of l tx' j ≡ some r
        → ((run.id ≡ j) × (r' ≡ r)) ⊎ (run_of l tx j ≡ some r)
    run_cases j r e = elim (Bool-cases (text_eq run.id j)) [
      | inl same ↦ inl ((text_eq_iff run.id j).0 same, ground (arith, run_set j, same, e))
      | inr other ↦ inr (sym (run_set j ∙ rw other) ∙ e)
    ]

    plain : IsPlain r'
    plain = record {
      bounded = rw image.started_at bounded;
      nul_free = rw image.schedule_name nul_free;
    }

    still_named : AreNamed IsPlain (run_of l tx')
    still_named = record {
      name_of = λ j r e. elim (run_cases j r e) [
        | inl (same, is) ↦ ap (λ (q : Run). q.id) (sym is) ∙ image.id ∙ same
        | inr old_one ↦ h.named.name_of j r old_one
      ];
      good = λ j r e. elim (run_cases j r e) [
        | inl (same, is) ↦ subst IsPlain is plain
        | inr old_one ↦ h.named.good j r old_one
      ];
    }

    still_readable :
        (j other : Text) → at l tx'.runs j ≡ some other → (r : Run) × (l.unmarshal_run other ≡ ok r)
    still_readable j other e = elim (Bool-cases (text_eq run.id j)) [
      | inl same ↦ (r', ap l.unmarshal_run (ground (arith, runs_at j, same, e)) ∙ read)
      | inr other_id ↦ h.readable j other (sym (runs_at j ∙ rw other_id) ∙ e)
    ]

    still_started : IsIndex (started_key_is l) (at l tx'.runs_by_started_at) (run_of l tx')
    still_started =
        moved-IsIndex IsPlain (started_key_is l) (started_key-Tells l laws) run.id old (some r')
          (at l tx.runs_by_started_at) (at l tx'.runs_by_started_at) (run_of l tx) (run_of l tx')
          was h.named still_named run_set started-IsMoved h.started

    still_running : IsIndex (running_key_is l) (at l tx'.running_runs_by_schedule) (run_of l tx')
    still_running =
        moved-IsIndex IsPlain (running_key_is l) (running_key-Tells l laws) run.id old (some r')
          (at l tx.running_runs_by_schedule) (at l tx'.running_runs_by_schedule) (run_of l tx)
          (run_of l tx') was h.named still_named run_set running-IsMoved h.running

    -- The invariant, once the counter is known to be right.
    pub run-IsIndexed : Counts l (completed l tx') tx' → IsIndexed l tx'
    run-IsIndexed counts = record {
      readable = still_readable;
      named = still_named;
      started = still_started;
      running = still_running;
      counted = counts;
    }

  completed-image : bit l (is_completed_run r') ≡ bit l (is_completed_run run)
  unfolding is_completed_run
  completed-image = rw image.status

  pub completed_change :
      completed l tx' + bit l (completed_in old) ≡ completed l tx + bit l (is_completed_run run)
  completed_change =
      let there = laws.bucket.entries-IsOrdered tx.runs in
      let change =
        count-put_ordered (raw_completed l) run.id raw (l.bucket.entries tx.runs) there in
      let new_entries =
        ap l.bucket.entries (recounted.runs ∙ added.runs)
        ∙ put.runs
        ∙ ap (λ b. put_ordered run.id raw (l.bucket.entries b)) dropped.runs in
      let old_bit =
        value_counts_lem l (at l tx.runs run.id) ∙ ap (λ o. bit l (completed_in o)) was in
      let new_bit = ap (λ r. bit l (completed_in (read_run l r))) read ∙ completed-image in
      omega (arith, ap (count_values (raw_completed l)) new_entries, change, old_bit, new_bit)
