-- ===== src/Store/Bolt/Cleared.antt =====
-- What the reset of buckets leaves: BoltStore.ClearRuns.
use clock_relay.Base.Int.{pos}
use clock_relay.Base.Ordered.{count_values}
use clock_relay.Store.Bolt.Effects.{bind_ok, at, ok_inj, then_ok}
use clock_relay.Store.Bolt.Counting.{Counts, set_completed_run_count_lem}
use clock_relay.Store.Bolt.Invariant.{run_of, IsIndexed, raw_completed}
use clock_relay.Store.Bolt.Views.{Runs, IsIndex}
use clock_relay.Model.{Run}
use clock_relay.Store.Bolt.Opening.{
  clear_runs, runs_by_started_at_name, running_runs_by_schedule_name,
}
use clock_relay.Store.Bolt.Opening.{
  reset_bucket, reset_runs, reset_started, reset_running, runs_name,
}
use clock_relay.Store.Bolt.Buckets.{BoltLibrary, Tx, BoltLaws}
use clock_relay.Base.{[], Text, get, Bool, ◌≡◌, ok, none, arith, refl, ap, subst, sym, ◌∙◌}

module _ {B : Type 0} (l : BoltLibrary B) where
  pub empty-IsIndex :
      (key_is : Run → Text → Bool) (b : B) (runs : Runs)
      → l.bucket.entries b ≡ []
      → ((j : Text) → runs j ≡ none)
      → IsIndex key_is (at l b) runs
  unfolding get
  empty-IsIndex key_is b runs e no_runs = record {
    of_key = λ k id found. absurd (ground (arith, found, ap (get k) e));
    to_key = λ id r k there key. absurd (ground (arith, no_runs id, there));
  }

  empty_runs : (tx : Tx B) (j : Text) → l.bucket.entries tx.runs ≡ [] → run_of l tx j ≡ none
  unfolding get
  empty_runs tx j e = rw e refl

  empty-IsIndexed :
      (tx : Tx B)
      → l.bucket.entries tx.runs ≡ []
      → l.bucket.entries tx.runs_by_started_at ≡ []
      → l.bucket.entries tx.running_runs_by_schedule ≡ []
      → Counts l 0 tx
      → IsIndexed l tx
  unfolding get
  empty-IsIndexed tx runs started running counts =
      let no_runs : (j : Text) → run_of l tx j ≡ none = λ j. empty_runs tx j runs in
      record {
        readable = λ id raw found. absurd (ground (arith, found, ap (get id) runs));
        named = record {
          name_of = λ id r there. absurd (ground (arith, no_runs id, there));
          good = λ id r there. absurd (ground (arith, no_runs id, there));
        };
        started = empty-IsIndex _ tx.runs_by_started_at (run_of l tx) started no_runs;
        running = empty-IsIndex _ tx.running_runs_by_schedule (run_of l tx) running no_runs;
        counted =
            subst (λ n. Counts l n tx) (sym (ap (count_values (raw_completed l)) runs)) counts;
      }

  pub reset_bucket_lem :
      (laws : BoltLaws l) (name : Text) (b : B)
      → reset_bucket l name ≡ ok b
      → l.bucket.entries b ≡ []
  unfolding reset_bucket
  reset_bucket_lem laws name b made =
      laws.bucket.entries-create_bucket name b
        (then_ok (l.bucket.delete_bucket name) (l.bucket.create_bucket name) made)

  pub reset_started_lem :
      (laws : BoltLaws l) (tx tx' : Tx B)
      → reset_started l tx ≡ ok tx'
      → (l.bucket.entries tx'.runs_by_started_at ≡ [])
        × (tx'.runs ≡ tx.runs)
        × (tx'.running_runs_by_schedule ≡ tx.running_runs_by_schedule)
  unfolding reset_started
  reset_started_lem laws tx tx' made =
      let (b, reset, end) = bind_ok (reset_bucket l runs_by_started_at_name) _ made in
      let empty = reset_bucket_lem laws runs_by_started_at_name b reset in
      subst
        (λ (t : Tx B).
          (l.bucket.entries t.runs_by_started_at ≡ [])
          × (t.runs ≡ tx.runs)
          × (t.running_runs_by_schedule ≡ tx.running_runs_by_schedule))
        (ok_inj end) (empty, refl, refl)

  pub reset_running_lem :
      (laws : BoltLaws l) (tx tx' : Tx B)
      → reset_running l tx ≡ ok tx'
      → (l.bucket.entries tx'.running_runs_by_schedule ≡ [])
        × (tx'.runs ≡ tx.runs)
        × (tx'.runs_by_started_at ≡ tx.runs_by_started_at)
  unfolding reset_running
  reset_running_lem laws tx tx' made =
      let (b, reset, end) = bind_ok (reset_bucket l running_runs_by_schedule_name) _ made in
      let empty = reset_bucket_lem laws running_runs_by_schedule_name b reset in
      subst
        (λ (t : Tx B).
          (l.bucket.entries t.running_runs_by_schedule ≡ [])
          × (t.runs ≡ tx.runs)
          × (t.runs_by_started_at ≡ tx.runs_by_started_at))
        (ok_inj end) (empty, refl, refl)

  reset_runs_lem :
      (laws : BoltLaws l) (tx tx' : Tx B)
      → reset_runs l tx ≡ ok tx'
      → l.bucket.entries tx'.runs ≡ []
  unfolding reset_runs
  reset_runs_lem laws tx tx' made =
      let (b, reset, end) = bind_ok (reset_bucket l runs_name) _ made in
      subst (λ (t : Tx B). l.bucket.entries t.runs ≡ []) (ok_inj end)
        (reset_bucket_lem laws runs_name b reset)

  -- ClearRuns that succeeds leaves no run, and indexes and a counter that say so.
  pub clear_runs-IsIndexed :
      (laws : BoltLaws l) (tx tx' : Tx B)
      → clear_runs l tx ≡ ok tx'
      → IsIndexed l tx' × ((j : Text) → run_of l tx' j ≡ none)
  unfolding clear_runs
  clear_runs-IsIndexed laws tx tx' made =
      let (tx1, first, s1) = bind_ok (reset_runs l tx) _ made in
      let (tx2, second, s2) = bind_ok (reset_started l tx1) _ s1 in
      let (tx3, third, last) = bind_ok (reset_running l tx2) _ s2 in
      let (started, same_runs, same_running) = reset_started_lem laws tx1 tx2 second in
      let (running, same_runs', same_started) = reset_running_lem laws tx2 tx3 third in
      let c = set_completed_run_count_lem l laws (pos 0) tx3 tx' last in
      let runs =
        ap l.bucket.entries (c.runs ∙ same_runs' ∙ same_runs) ∙ reset_runs_lem laws tx tx1 first in
      (
        empty-IsIndexed tx' runs (ap l.bucket.entries (c.started ∙ same_started) ∙ started)
            (ap l.bucket.entries c.running ∙ running) c.counts,
        λ j. empty_runs tx' j runs,
      )
