-- ===== src/Store/Bolt/Saving.antt =====
-- writeRun keeps the invariant and sets one run.
use clock_relay.Store.Bolt.Replacing.{completed_change, run-IsIndexed, run_set}
use clock_relay.Store.Bolt.Counter.{completed_run_count_key}
use clock_relay.Store.Bolt.Indexes.{put_run, add_run_indexes}
use clock_relay.Base.Int.{half_word}
use clock_relay.Store.Bolt.Writing.{write_run, decoded_old, remove_old}
use clock_relay.Base.{◌≡◌, ok, some, ap, ◌+◌, ◌∙◌, sym, arith, subst, ◌<◌}
use clock_relay.Store.Bolt.Buckets.{BoltLibrary, BoltLaws, Tx, IsImage}
use clock_relay.Store.Bolt.Views.{IsSetAt}
use clock_relay.Store.Bolt.Keys.{IsStorable}
use clock_relay.Store.Bolt.Effects.{at, bind_ok, add_run_indexes_lem}
use clock_relay.Store.Bolt.Counting.{Counts}
use clock_relay.Store.Bolt.Invariant.{run_of, completed, raw_completed, IsIndexed}
use clock_relay.Store.Bolt.Written.{decoded_old_lem, remove_old_lem, put_run_lem, count_written_lem}
use clock_relay.Base.Ordered.{count_values-le-length}
use clock_relay.Model.{Run}

-- The run is in the store, in the fields by which the store finds it, and all other runs are as
-- before.
pub record IsStored {B : Type 0} (l : BoltLibrary B) (run : Run) (tx tx' : Tx B) : Type 0 where
  pub stored : Run
  pub image : IsImage run stored
  pub set : IsSetAt run.id (some stored) (run_of l tx) (run_of l tx')

module _ {B : Type 0} (l : BoltLibrary B) (laws : BoltLaws l) where
  pub completed_bound : (tx : Tx B) → completed l tx + 1 < half_word
  completed_bound tx = omega (
    arith,
    laws.bucket.length-entries tx.runs,
    count_values-le-length (raw_completed l) (l.bucket.entries tx.runs),
  )

  -- A write of a storable run that succeeds keeps both indexes and the counter in step with the runs, and sets
  -- the run alone.
  pub write_run-IsIndexed :
      (run : Run) (tx tx' : Tx B)
      → IsStorable run
      → IsIndexed l tx
      → write_run l run tx ≡ ok tx'
      → IsIndexed l tx' × IsStored l run tx tx'
  unfolding write_run
  write_run-IsIndexed run tx tx' storable h written =
      let (raw, marshalled, s1) = bind_ok (l.marshal_run run) _ written in
      let (old, olds, s2) = bind_ok (decoded_old l (l.bucket.get_value run.id tx.runs)) _ s1 in
      let (tx1, removing, s3) = bind_ok (remove_old l old tx) _ s2 in
      let (tx2, putting, s4) = bind_ok (put_run l run.id raw tx1) _ s3 in
      let (tx3, adding, counting) = bind_ok (add_run_indexes l run tx2) _ s4 in
      let (r', read, image) =
        laws.unmarshal-marshal run raw storable.ascii_id storable.ascii_name marshalled in
      let was =
        decoded_old_lem l (at l tx.runs run.id) old
          (ap (decoded_old l) (sym (laws.bucket.get_value_lem run.id tx.runs)) ∙ olds) in
      let dropped = remove_old_lem l laws old tx tx1 removing in
      let put = put_run_lem l laws run.id raw tx1 tx2 putting in
      let added = add_run_indexes_lem l laws run tx2 tx3 adding in
      let counts =
        ap (λ b. at l b completed_run_count_key)
          (added.run_stats ∙ put.run_stats ∙ dropped.run_stats)
        ∙ h.counted in
      let recounted =
        count_written_lem l laws run old (completed l tx) tx3 tx' (completed_bound tx) counts
          counting in
      let change =
        completed_change l laws run raw old r' tx tx1 tx2 tx3 tx' read image was dropped put added _
          recounted in
      (
        run-IsIndexed l laws run raw old r' tx tx1 tx2 tx3 tx' read image was dropped put added _
            recounted (laws.marshal-bound run raw marshalled) storable.nul_free h
            (subst (λ n. Counts l n tx') (omega (arith, change)) recounted.counts),
        record {
          stored = r';
          image = image;
          set =
              run_set l laws run raw old r' tx tx1 tx2 tx3 tx' read image was dropped put added _
                recounted;
        },
      )
