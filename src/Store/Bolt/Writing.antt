-- ===== src/Store/Bolt/Writing.antt =====
-- writeRun of internal/store/store.go, within its transaction.
use clock_relay.Base.{
  Option, Result, Text, ok, Bool, if◌then◌else◌, some, false, ◌&&◌, ◌>>=◌, none, true, not, ◌||◌,
}
use clock_relay.Store.Bolt.Buckets.{BoltLibrary, Tx}
use clock_relay.Store.Bolt.Counter.{increment_completed_run_count}
use clock_relay.Store.Bolt.Indexes.{put_run, add_run_indexes, remove_run_indexes}
use clock_relay.Store.Interface.{is_completed_run}
use clock_relay.Base.Int.{pos, negsuc}
use clock_relay.Model.{Run}

module _ {B : Type 0} (l : BoltLibrary B) where
  -- The run that has been stored under the same id, if there is one.
  abbrev pub decoded_old : Option Text → Result (Option Run)
  decoded_old none = ok none
  decoded_old (some raw) = do run ← l.unmarshal_run raw; ok (some run)

  abbrev pub remove_old : Option Run → Tx B → Result (Tx B)
  remove_old none tx = ok tx
  remove_old (some old) tx = remove_run_indexes l old tx

  abbrev pub was_completed : Option Run → Bool
  was_completed none = false
  was_completed (some old) = is_completed_run old

  abbrev pub had_old_run : Option Run → Bool
  had_old_run none = false
  had_old_run (some old) = true

  -- The change of the counter at the end of writeRun.
  unfoldable pub count_written : Run → Option Run → Tx B → Result (Tx B)
  count_written run old tx =
      if is_completed_run run && (not (had_old_run old) || not (was_completed old))
      then increment_completed_run_count l (pos 1) tx
      else if not (is_completed_run run) && had_old_run old && was_completed old
      then increment_completed_run_count l (negsuc 0) tx
      else ok tx

  -- The function that writeRun passes to db.Update.
  unfoldable pub write_run : Run → Tx B → Result (Tx B)
  write_run run tx = do
    raw ← l.marshal_run run
    old ← decoded_old (l.bucket.get_value run.id tx.runs)
    tx1 ← remove_old old tx
    tx2 ← put_run l run.id raw tx1
    tx3 ← add_run_indexes l run tx2
    count_written run old tx3
