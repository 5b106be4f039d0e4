-- ===== src/Store/Bolt/Methods.antt =====
-- The methods of BoltStore of internal/store/store.go. Each is one transaction.
use Prim.Native.Nat.{ℕ}
use clock_relay.Base.{
  ◌∷◌, Result, Text, Map, ℕ, ◌>>=◌, List, Bool, err, ok, ◌&&◌, reverse, leb, [], ◌+◌, none, some,
  if◌then◌else◌, Option,
}
use clock_relay.Store.Bolt.Buckets.{BoltLibrary, Tx, update, run_update}
use clock_relay.Store.Bolt.Writing.{write_run}
use clock_relay.Store.Bolt.Indexes.{running_run_schedule_prefix}
use clock_relay.Store.Bolt.Opening
use clock_relay.Store.Bolt.Pruning
use clock_relay.Store.Interface.{StoreMethods, RunRetentionResult, sort_schedules}
use clock_relay.Config.Defaults.{normalize_schedule}
use clock_relay.Config.Types.{ScheduleConfig, RunRetentionConfig}
use clock_relay.Base.Ordered.{starts_with}
use clock_relay.Base.Int.{ℤ, pos, ltb_ℤ, pos_part}
use clock_relay.Model.{Run, Time}

-- limit > 0 && len(runs) >= limit
abbrev pub reached : ℤ → ℕ → Bool
reached limit n = ltb_ℤ (pos 0) limit && leb (pos_part limit) n

module _ {B : Type 0} (l : BoltLibrary B) where
  abbrev pub put_schedule : ScheduleConfig → Tx B → Result (Tx B)
  put_schedule schedule tx = do
    raw ← l.marshal_schedule schedule
    b ← l.bucket.put_value schedule.name raw tx.schedules
    ok (record tx { schedules = b })

  -- SaveSchedule
  unfoldable pub save_schedule : ScheduleConfig → Tx B → Result (Unit {0}) × Tx B
  save_schedule schedule db = run_update l (put_schedule (normalize_schedule schedule) db) db

  abbrev pub drop_schedule : Text → Tx B → Result (Tx B)
  drop_schedule name tx = do
    b ← l.bucket.delete_key name tx.schedules
    ok (record tx { schedules = b })

  -- DeleteSchedule
  unfoldable pub delete_schedule : Text → Tx B → Result (Unit {0}) × Tx B
  delete_schedule name db = run_update l (drop_schedule name db) db

  unfoldable pub decode_schedules : Map Text → Result (List ScheduleConfig)
  decode_schedules [] = ok []
  decode_schedules ((name, raw) ∷ entries) = do
    schedule ← l.unmarshal_schedule raw
    schedules ← decode_schedules entries
    ok (schedule ∷ schedules)

  -- ListSchedules
  unfoldable pub list_schedules : Tx B → Result (List ScheduleConfig)
  unfolding decode_schedules
  list_schedules db = do
    schedules ← decode_schedules (l.bucket.entries db.schedules)
    ok (sort_schedules schedules)

  -- SaveRun and UpdateRun
  unfoldable pub save_run : Run → Tx B → Result (Unit {0}) × Tx B
  save_run run db = run_update l (write_run l run db) db

  -- One entry of the index: a run that is not there is skipped.
  abbrev pub list_found :
      ℤ → ℕ → Result (List Run) → Result (List Run) → Option Text → Result (List Run)
  list_found limit n skipped others none = skipped
  list_found limit n skipped others (some raw) = do
    run ← l.unmarshal_run raw
    if reached limit (n + 1) then ok (run ∷ []) else (do rest ← others; ok (run ∷ rest))

  -- The loop of ListRuns over the index, from its end; `n` runs have been listed.
  unfoldable pub listed_runs : ℤ → ℕ → Tx B → Map Text → Result (List Run)
  listed_runs limit n tx [] = ok []
  listed_runs limit n tx ((key, id) ∷ entries) =
      let skipped = listed_runs limit n tx entries in
      let others = listed_runs limit (n + 1) tx entries in
      list_found limit n skipped others (l.bucket.get_value id tx.runs)

  -- ListRuns
  unfoldable pub list_runs : ℤ → Tx B → Result (List Run)
  list_runs limit db = listed_runs limit 0 db (reverse (l.bucket.entries db.runs_by_started_at))

  -- ClearRuns
  unfoldable pub clear_runs : Tx B → Result (Unit {0}) × Tx B
  clear_runs db = run_update l (Opening.clear_runs l db) db

  abbrev pub retention_result : Result (ℕ × ℤ) × Tx B → Result RunRetentionResult × Tx B
  retention_result (err x, db) = (err x, db)
  retention_result (ok (deleted, kept), db) =
      (ok (record { deleted = deleted; kept = pos_part kept }), db)

  -- PruneRuns; a corrupt counter that reads as a negative number is reported as 0
  unfoldable pub prune_runs : RunRetentionConfig → Time → Tx B → Result RunRetentionResult × Tx B
  prune_runs retention now db =
      retention_result (update l (Pruning.prune_runs l retention now db) db)

  -- HasRunningRun
  unfoldable pub has_running_run : Text → Tx B → Result Bool
  has_running_run name db =
      let prefix = running_run_schedule_prefix name in
      ok (starts_with prefix (l.bucket.seek prefix db.running_runs_by_schedule))

  -- The bbolt store fills the interface.
  unfoldable pub bolt_methods : StoreMethods (Tx B)
  bolt_methods = record {
    save_schedule = save_schedule;
    delete_schedule = delete_schedule;
    list_schedules = list_schedules;
    save_run = save_run;
    update_run = save_run;
    list_runs = list_runs;
    clear_runs = clear_runs;
    prune_runs = prune_runs;
    has_running_run = has_running_run;
  }
