-- ===== src/Store/Bolt/Pruning.antt =====
-- pruneRunsOlderThan, pruneRunsOverCount and BoltStore.PruneRuns of internal/store/store.go.
use Prim.Native.Nat.{ℕ, suc}
use clock_relay.Base.{
  Text, Map, ℕ, Result, if◌then◌else◌, ok, ◌>>=◌, ◌∷◌, length, ◌-◌, ◌+◌, ltb, [], suc, zero,
}
use clock_relay.Store.Bolt.Buckets.{BoltLibrary, Tx}
use clock_relay.Store.Bolt.Counter.{completed_run_count}
use clock_relay.Store.Bolt.Indexes.{
  run_by_id, delete_run_by_indexed_key, started_at_from_run_index_key,
}
use clock_relay.Store.Interface.{days_before}
use clock_relay.Config.Types.{RunRetentionConfig}
use clock_relay.Model.{Run, Time, is_running}
use clock_relay.Base.Int.{ℤ, pos, ltb_ℤ, pos_part, negsuc, half_word, word}

module _ {B : Type 0} (l : BoltLibrary B) where
  -- An entry of the index becomes a victim unless its run is running.
  abbrev pub with_victim : Run → Text × Text → Map Text → Map Text
  with_victim run victim rest = if is_running run.status then rest else victim ∷ rest

  -- The loop of pruneRunsOlderThan over the index, which stops at the first run that is not older.
  unfoldable pub older_victims : Time → Tx B → Map Text → Result (Map Text)
  older_victims cutoff tx [] = ok []
  older_victims cutoff tx ((key, id) ∷ entries) =
      let others = older_victims cutoff tx entries in
      do
        started_at ← started_at_from_run_index_key l key
        if ltb started_at cutoff
            then (do run ← run_by_id l id tx; rest ← others; ok (with_victim run (key, id) rest))
            else ok []

  -- The loop of pruneRunsOverCount over the index, which stops after `excess` victims.
  unfoldable pub excess_victims : ℕ → Tx B → Map Text → Result (Map Text)
  excess_victims excess tx [] = ok []
  excess_victims zero tx (e ∷ entries) = ok []
  excess_victims (suc excess) tx ((key, id) ∷ entries) =
      let same = excess_victims (suc excess) tx entries in
      let fewer = excess_victims excess tx entries in
      do
        run ← run_by_id l id tx
        if is_running run.status then same else (do rest ← fewer; ok ((key, id) ∷ rest))

  -- The loop over the victims.
  unfoldable pub delete_victims : Map Text → Tx B → Result (Tx B)
  delete_victims [] tx = ok tx
  delete_victims ((key, id) ∷ victims) tx = do
    tx1 ← delete_run_by_indexed_key l key id tx
    delete_victims victims tx1

  abbrev pub delete_counted : Map Text → Tx B → Result (ℕ × Tx B)
  delete_counted victims tx = do tx1 ← delete_victims victims tx; ok (length victims, tx1)

  -- pruneRunsOlderThan
  unfoldable pub prune_runs_older_than : Time → Tx B → Result (ℕ × Tx B)
  prune_runs_older_than cutoff tx = do
    victims ← older_victims cutoff tx (l.bucket.entries tx.runs_by_started_at)
    delete_counted victims tx

  -- count - maxRecords, where that is positive. Both are of int's range, so that the difference wraps
  -- around only from a negative count, of a corrupt counter.
  abbrev pub excess_of : ℤ → ℕ → ℕ
  excess_of (pos count) max_records = count - max_records
  excess_of (negsuc m) max_records =
      if ltb half_word (m + 1 + max_records) then word - (m + 1 + max_records) else 0

  -- pruneRunsOverCount, for a maximum above 0
  unfoldable pub prune_runs_over_count : ℕ → Tx B → Result (ℕ × Tx B)
  prune_runs_over_count max_records tx = do
    count ← completed_run_count l tx
    victims ←
        excess_victims (excess_of count max_records) tx (l.bucket.entries tx.runs_by_started_at)
    delete_counted victims tx

  abbrev pub prune_by_age : RunRetentionConfig → Time → Tx B → Result (ℕ × Tx B)
  prune_by_age retention now tx =
      if ltb_ℤ (pos 0) retention.max_age_days
      then prune_runs_older_than (days_before retention.max_age_days now) tx
      else ok (0, tx)

  abbrev pub prune_by_count : RunRetentionConfig → Tx B → Result (ℕ × Tx B)
  prune_by_count retention tx =
      if ltb_ℤ (pos 0) retention.max_records
      then prune_runs_over_count (pos_part retention.max_records) tx
      else ok (0, tx)

  -- The function that PruneRuns passes to db.Update: the numbers of runs deleted and kept.
  unfoldable pub prune_runs : RunRetentionConfig → Time → Tx B → Result ((ℕ × ℤ) × Tx B)
  prune_runs retention now tx = do
    by_age ← prune_by_age retention now tx
    by_count ← prune_by_count retention by_age.1
    kept ← completed_run_count l by_count.1
    ok ((by_age.0 + by_count.0, kept), by_count.1)
