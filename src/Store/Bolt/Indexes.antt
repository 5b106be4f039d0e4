-- ===== src/Store/Bolt/Indexes.antt =====
-- The keys of the two indexes and the changes of single buckets: runStartedAtIndexKey,
-- startedAtFromRunIndexKey, runningRunSchedulePrefix, runningRunScheduleKey, addRunIndexes,
-- removeRunIndexes, runByID and deleteRunByIndexedKey of internal/store/store.go.
use clock_relay.Base.{
  Text, Result, ◌++◌, if◌then◌else◌, ◌>>=◌, Option, ◌∷◌, ltb, ok, err, [], length, config_error,
  str, take, some, none,
}
use clock_relay.Store.Bolt.Buckets.{BoltLibrary, Tx, key_length}
use clock_relay.Store.Bolt.Counter.{increment_completed_run_count}
use clock_relay.Store.Interface.{is_completed_run}
use clock_relay.Base.Int.{negsuc}
use clock_relay.Model.{Run, Time, is_running}

-- runningRunSchedulePrefix; NUL ends the schedule's name
abbrev pub running_run_schedule_prefix : Text → Text
running_run_schedule_prefix name = name ++ 0 ∷ []

-- runningRunScheduleKey
abbrev pub running_run_schedule_key : Run → Text
running_run_schedule_key run = run.schedule_name ++ 0 ∷ run.id

module _ {B : Type 0} (l : BoltLibrary B) where
  -- runStartedAtIndexKey; 124 is "|"
  abbrev pub run_started_at_index_key : Run → Text
  run_started_at_index_key run = l.format_key run.started_at ++ 124 ∷ run.id

  -- startedAtFromRunIndexKey
  unfoldable pub started_at_from_run_index_key : Text → Result Time
  started_at_from_run_index_key key =
      if ltb (length key) key_length
      then err (config_error (str "invalid run time index key"))
      else l.parse_key (take key_length key)

  -- One key is put into or deleted from one bucket of the transaction.
  unfoldable pub put_started : Text → Text → Tx B → Result (Tx B)
  put_started key id tx = do
    b ← l.bucket.put_value key id tx.runs_by_started_at
    ok (record tx { runs_by_started_at = b })

  unfoldable pub delete_started : Text → Tx B → Result (Tx B)
  delete_started key tx = do
    b ← l.bucket.delete_key key tx.runs_by_started_at
    ok (record tx { runs_by_started_at = b })

  unfoldable pub put_running : Text → Text → Tx B → Result (Tx B)
  put_running key id tx = do
    b ← l.bucket.put_value key id tx.running_runs_by_schedule
    ok (record tx { running_runs_by_schedule = b })

  unfoldable pub delete_running : Text → Tx B → Result (Tx B)
  delete_running key tx = do
    b ← l.bucket.delete_key key tx.running_runs_by_schedule
    ok (record tx { running_runs_by_schedule = b })

  unfoldable pub put_run : Text → Text → Tx B → Result (Tx B)
  put_run id raw tx = do b ← l.bucket.put_value id raw tx.runs; ok (record tx { runs = b })

  unfoldable pub delete_run : Text → Tx B → Result (Tx B)
  delete_run id tx = do b ← l.bucket.delete_key id tx.runs; ok (record tx { runs = b })

  -- addRunIndexes
  unfoldable pub add_run_indexes : Run → Tx B → Result (Tx B)
  add_run_indexes run tx = do
    tx1 ← put_started (run_started_at_index_key run) run.id tx
    if is_running run.status then put_running (running_run_schedule_key run) run.id tx1 else ok tx1

  -- removeRunIndexes
  unfoldable pub remove_run_indexes : Run → Tx B → Result (Tx B)
  remove_run_indexes run tx = do
    tx1 ← delete_started (run_started_at_index_key run) tx
    if is_running run.status then delete_running (running_run_schedule_key run) tx1 else ok tx1

  abbrev pub found_run : Text → Option Text → Result Run
  found_run id none = err (config_error (str "run not found: " ++ id))
  found_run id (some raw) = l.unmarshal_run raw

  -- runByID
  unfoldable pub run_by_id : Text → Tx B → Result Run
  run_by_id id tx = found_run id (l.bucket.get_value id tx.runs)

  -- deleteRunByIndexedKey
  unfoldable pub delete_run_by_indexed_key : Text → Text → Tx B → Result (Tx B)
  delete_run_by_indexed_key key id tx = do
    run ← run_by_id id tx
    tx1 ← delete_started key tx
    tx2 ←
        if is_running run.status then delete_running (running_run_schedule_key run) tx1 else ok tx1
    tx3 ← delete_run id tx2
    if is_completed_run run then increment_completed_run_count l (negsuc 0) tx3 else ok tx3
