-- ===== src/Store/Bolt/Opening.antt =====
-- OpenBoltStore, rebuildRunIndexes, resetBucket and BoltStore.ClearRuns of internal/store/store.go.
use clock_relay.Base.{
  ◌∷◌, Option, Text, Result, Bool, Map, str, ◌>>=◌, ℕ, some, true, ◌||◌, ◌>>◌, ok, if◌then◌else◌,
  false, none, ◌+◌, [],
}
use clock_relay.Store.Bolt.Buckets.{BoltLibrary, Tx}
use clock_relay.Store.Bolt.Counter.{set_completed_run_count, completed_run_count_key}
use clock_relay.Store.Bolt.Indexes.{add_run_indexes}
use clock_relay.Store.Interface.{is_completed_run}
use clock_relay.Base.Int.{pos}

-- The buckets of a file, of which any may be missing.
pub record BoltFile (B : Type 0) : Type 0 where
  pub runs : Option B
  pub run_stats : Option B
  pub runs_by_started_at : Option B
  pub running_runs_by_schedule : Option B
  pub schedules : Option B

abbrev pub runs_name : Text
runs_name = str "runs"

abbrev pub run_stats_name : Text
run_stats_name = str "run_stats"

abbrev pub runs_by_started_at_name : Text
runs_by_started_at_name = str "runs_by_started_at"

abbrev pub running_runs_by_schedule_name : Text
running_runs_by_schedule_name = str "running_runs_by_schedule"

abbrev pub schedules_name : Text
schedules_name = str "schedules"

module _ {B : Type 0} (l : BoltLibrary B) where
  -- resetBucket, of a bucket that is there
  unfoldable pub reset_bucket : Text → Result B
  reset_bucket name = do l.bucket.delete_bucket name; l.bucket.create_bucket name

  unfoldable pub reset_started : Tx B → Result (Tx B)
  unfolding reset_bucket
  reset_started tx = do
    b ← reset_bucket runs_by_started_at_name
    ok (record tx { runs_by_started_at = b })

  unfoldable pub reset_running : Tx B → Result (Tx B)
  unfolding reset_bucket
  reset_running tx = do
    b ← reset_bucket running_runs_by_schedule_name
    ok (record tx { running_runs_by_schedule = b })

  unfoldable pub reset_runs : Tx B → Result (Tx B)
  unfolding reset_bucket
  reset_runs tx = do b ← reset_bucket runs_name; ok (record tx { runs = b })

  -- The function that ClearRuns passes to db.Update.
  unfoldable pub clear_runs : Tx B → Result (Tx B)
  unfolding reset_runs reset_started reset_running
  clear_runs tx = do
    tx1 ← reset_runs tx
    tx2 ← reset_started tx1
    tx3 ← reset_running tx2
    set_completed_run_count l (pos 0) tx3

  abbrev pub count_one : Bool → ℕ
  count_one completed = if completed then 1 else 0

  -- The loop of rebuildRunIndexes over the runs, with its count.
  unfoldable pub index_runs : Map Text → ℕ → Tx B → Result (ℕ × Tx B)
  index_runs [] count tx = ok (count, tx)
  index_runs ((id, raw) ∷ entries) count tx = do
    run ← l.unmarshal_run raw
    tx1 ← add_run_indexes l run tx
    index_runs entries (count + count_one (is_completed_run run)) tx1

  -- rebuildRunIndexes
  unfoldable pub rebuild_run_indexes : Tx B → Result (Tx B)
  unfolding reset_started reset_running
  rebuild_run_indexes tx = do
    tx1 ← reset_started tx
    tx2 ← reset_running tx1
    tx3 ← set_completed_run_count l (pos 0) tx2
    indexed ← index_runs (l.bucket.entries tx3.runs) 0 tx3
    set_completed_run_count l (pos indexed.0) indexed.1

  -- tx.CreateBucketIfNotExists(name)
  abbrev pub create_if_missing : Text → Option B → Result B
  create_if_missing name none = l.bucket.create_bucket name
  create_if_missing name (some b) = ok b

  abbrev is_missing : Option B → Bool
  is_missing none = true
  is_missing (some b) = false

  abbrev lacks_count : Option B → Bool
  lacks_count none = true
  lacks_count (some b) = elim (l.bucket.get_value completed_run_count_key b) [
    | none ↦ true
    | some raw ↦ false
  ]

  -- Whether OpenBoltStore builds the indexes again.
  unfoldable pub needs_index_rebuild : BoltFile B → Bool
  needs_index_rebuild file =
      is_missing file.runs_by_started_at
      || is_missing file.running_runs_by_schedule
      || lacks_count file.run_stats

  unfoldable pub create_buckets : BoltFile B → Result (Tx B)
  create_buckets file = do
    runs ← create_if_missing runs_name file.runs
    schedules ← create_if_missing schedules_name file.schedules
    started ← create_if_missing runs_by_started_at_name file.runs_by_started_at
    running ← create_if_missing running_runs_by_schedule_name file.running_runs_by_schedule
    stats ← create_if_missing run_stats_name file.run_stats
    ok (record {
      runs = runs;
      run_stats = stats;
      runs_by_started_at = started;
      running_runs_by_schedule = running;
      schedules = schedules;
    })

  -- The function that OpenBoltStore passes to db.Update.
  unfoldable pub open_tx : BoltFile B → Result (Tx B)
  open_tx file = do
    tx ← create_buckets file
    if needs_index_rebuild file then rebuild_run_indexes tx else ok tx

  -- OpenBoltStore, once the file is open; on an error it is closed again.
  unfoldable pub open_bolt_store : BoltFile B → Result (Tx B)
  unfolding open_tx create_buckets
  open_bolt_store file = do tx ← open_tx file; l.commit tx; ok tx
