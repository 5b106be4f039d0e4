-- ===== src/Store/Bolt/Deleted.antt =====
-- deleteRunByIndexedKey keeps the invariant and removes one run.
use clock_relay.Store.Bolt.Counting.{Counts}
use clock_relay.Store.Bolt.Counter.{increment_completed_run_count, completed_run_count_key}
use clock_relay.Store.Interface.{is_completed_run}
use clock_relay.Store.Bolt.Written.{bit}
use clock_relay.Store.Bolt.Keys.{started_key_is}
use clock_relay.Store.Bolt.Effects.{
  at, bind_ok, both_indexes, delete_started_lem, delete_if_running,
}
use clock_relay.Store.Bolt.Views.{IsSetAt}
use clock_relay.Store.Bolt.Invariant.{read_run, decoded, IsIndexed, run_of, completed}
use clock_relay.Store.Bolt.Indexes.{
  found_run, run_by_id, delete_run_by_indexed_key, delete_started, delete_running,
  run_started_at_index_key, running_run_schedule_key, delete_run,
}
use clock_relay.Model.{Run, is_running}
use clock_relay.Store.Bolt.Buckets.{BoltLibrary, BoltLaws, Tx}
use clock_relay.Base.{
  Text, Option, Result, ◌≡◌, ◌>>=◌, ok, some, ap, err, none, if◌then◌else◌, true, ◌+◌, text_eq_iff,
  ◌∙◌, arith, subst,
}
use clock_relay.Base.Int.{negsuc}
use clock_relay.Store.Bolt.Deleting.{
  delete_run_lem, count_deleted, still-IsIndexed, run_gone, completed_change,
}
use clock_relay.Store.Bolt.Saving.{completed_bound}

module _ {B : Type 0} (l : BoltLibrary B) where
  found_run_lem :
      (id : Text) (o : Option Text) (r : Run) → found_run l id o ≡ ok r → decoded l o ≡ some r
  found_run_lem id none r h = cc
  found_run_lem id (some raw) r h = ap (read_run l) h

  pub read_run_total : (v : Result Run) (r : Run) → read_run l v ≡ some r → v ≡ ok r
  read_run_total (err x) r h = cc
  read_run_total (ok q) r h = cc

  found_run_total :
      (id : Text) (o : Option Text) (r : Run) → decoded l o ≡ some r → found_run l id o ≡ ok r
  found_run_total id none r h = cc
  found_run_total id (some raw) r h = read_run_total (l.unmarshal_run raw) r h

-- One run is gone, and the number of completed runs follows.
pub record IsDeleted {B : Type 0} (l : BoltLibrary B) (id : Text) (r : Run) (tx tx' : Tx B)
    : Type 0 where
  pub indexed : IsIndexed l tx'
  pub gone : IsSetAt id none (run_of l tx) (run_of l tx')
  pub recount : completed l tx' + bit l (is_completed_run r) ≡ completed l tx

module _ {B : Type 0} (l : BoltLibrary B) (laws : BoltLaws l) where
  pub run_by_id_lem :
      (id : Text) (tx : Tx B) (r : Run) → run_by_id l id tx ≡ ok r → run_of l tx id ≡ some r
  unfolding run_by_id
  run_by_id_lem id tx r h =
      found_run_lem l id (at l tx.runs id) r (rw (laws.bucket.get_value_lem id tx.runs) at h)

  pub run_by_id_total :
      (id : Text) (tx : Tx B) (r : Run)
      → IsIndexed l tx
      → run_of l tx id ≡ some r
      → run_by_id l id tx ≡ ok r
  unfolding run_by_id
  run_by_id_total id tx r h there =
      rw (laws.bucket.get_value_lem id tx.runs) (found_run_total l id (at l tx.runs id) r there)

  -- deleteRunByIndexedKey, once the run is found.
  abbrev delete_found : Text → Text → Run → Tx B → Result (Tx B)
  delete_found key id run tx = do
    tx1 ← delete_started l key tx
    tx2 ←
        if is_running run.status
        then delete_running l (running_run_schedule_key run) tx1
        else ok tx1
    tx3 ← delete_run l id tx2
    if is_completed_run run then increment_completed_run_count l (negsuc 0) tx3 else ok tx3

  delete_found-IsIndexed :
      (key id : Text) (r : Run) (tx tx' : Tx B)
      → IsIndexed l tx
      → run_of l tx id ≡ some r
      → started_key_is l r key ≡ true
      → delete_found key id r tx ≡ ok tx'
      → IsDeleted l id r tx tx'
  delete_found-IsIndexed key id r tx tx' h was is_key deleted =
      let own : run_started_at_index_key l r ≡ key =
        (text_eq_iff (run_started_at_index_key l r) key).0 is_key in
      let (tx1, first, s2) = bind_ok (delete_started l key tx) _ deleted in
      let (tx2, second, s3) =
        bind_ok
          (if is_running r.status
            then delete_running l (running_run_schedule_key r) tx1
            else ok tx1)
          _ s2 in
      let (tx3, third, last) = bind_ok (delete_run l id tx2) _ s3 in
      let removed =
        both_indexes l laws r none tx tx1 tx2
          (delete_started_lem l laws (run_started_at_index_key l r) tx tx1 (rw own first))
          (delete_if_running l laws (is_running r.status) (running_run_schedule_key r) tx1 tx2
            second) in
      let dropped = delete_run_lem l laws id tx2 tx3 third in
      let counts =
        ap (λ b. at l b completed_run_count_key) (dropped.run_stats ∙ removed.run_stats)
        ∙ h.counted in
      let recounted =
        count_deleted l laws r (completed l tx) tx3 tx' (omega (arith, completed_bound l laws tx))
          counts last in
      let change = completed_change l laws id r tx tx2 tx3 tx' was removed dropped _ recounted in
      record {
        indexed =
            still-IsIndexed l laws id r tx tx2 tx3 tx' was removed dropped _ recounted h
              (subst (λ n. Counts l n tx') (omega (arith, change)) recounted.counts);
        gone = run_gone l laws id r tx tx2 tx3 tx' was removed dropped _ recounted;
        recount = change;
      }

  -- The deletion of a run by its key in the index by start keeps both indexes and the counter in step
  -- with the runs, and removes that run alone.
  pub delete_run_by_indexed_key-IsIndexed :
      (key id : Text) (r : Run) (tx tx' : Tx B)
      → IsIndexed l tx
      → run_of l tx id ≡ some r
      → started_key_is l r key ≡ true
      → delete_run_by_indexed_key l key id tx ≡ ok tx'
      → IsDeleted l id r tx tx'
  unfolding delete_run_by_indexed_key
  delete_run_by_indexed_key-IsIndexed key id r tx tx' h was is_key deleted =
      delete_found-IsIndexed key id r tx tx' h was is_key
        (rw (run_by_id_total id tx r h was) at deleted)
