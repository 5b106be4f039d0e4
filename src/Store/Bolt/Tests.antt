-- ===== src/Store/Bolt/Tests.antt =====
-- Runs of the bbolt store on a concrete database.
use clock_relay.Store.Bolt.Sparing.{has_running_run_spared}
use clock_relay.Store.Bolt.Terminating.{prune_runs-Succeeds}
use clock_relay.Store.Bolt.Pruner.{Succeeds}
use clock_relay.Store.Bolt.Listed.{IsListing, list_runs-IsListing}
use clock_relay.Store.Bolt.Rebuilt.{HasRuns, open_bolt_store-IsIndexed}
use clock_relay.Store.Bolt.Pruning.{
  prune_runs_older_than, prune_runs_over_count, older_victims, excess_victims, delete_victims,
}
use clock_relay.Store.Bolt.Keys.{started_key_is, IsStorable}
use clock_relay.Store.Bolt.Running.{RunningRun, has_running_run_iff}
use clock_relay.Store.Bolt.Refinement.{call_all-Calls}
use clock_relay.Base.Int.{ℤ, wrap64, pos, ◌+ℤ◌}
use clock_relay.Store.Bolt.Sequences.{call_all, Call, Calls, save, prune, clear}
use clock_relay.Store.Bolt.Pruned.{IsPruned, prune_runs-IsPruned}
use clock_relay.Config.Types.{RunRetentionConfig}
use clock_relay.Store.Bolt.Deleted.{IsDeleted, delete_run_by_indexed_key-IsIndexed}
use clock_relay.Store.Bolt.Methods.{has_running_run}
use clock_relay.Store.Bolt.Saving.{IsStored, write_run-IsIndexed}
use clock_relay.Store.Interface.{is_completed_run}
use clock_relay.Base.Ordered.{put_ordered}
use clock_relay.Store.Bolt.Indexes.{
  add_run_indexes, put_started, put_running, put_run, run_started_at_index_key,
  delete_run_by_indexed_key, remove_run_indexes, run_by_id, delete_started, delete_running,
  delete_run, started_at_from_run_index_key,
}
use clock_relay.Store.Bolt.Counter.{
  set_completed_run_count, put_uint64, increment_completed_run_count, completed_run_count, uint64,
}
use clock_relay.Store.Bolt.Cleared.{clear_runs-IsIndexed}
use clock_relay.Store.Bolt.Writing.{write_run, count_written}
use clock_relay.Store.Bolt.Invariant.{IsIndexed, run_of}
use clock_relay.Model.{Time, Run, succeeded, running}
use clock_relay.Store.Bolt.Buckets.{Tx}
use clock_relay.Store.Bolt.Database.{Bucket, sample-IsReliable}
use clock_relay.Store.Bolt.Sample.{sample_library, sample_laws}
use clock_relay.Base.{
  [], Text, Result, arith, err, str, ok, ◌≡◌, some, none, refl, get, text_eq, text_lt, ℕ, Option,
  List, true, ◌↔◌, ◌∷◌, false, del, ◌<◌, inl, ◌++◌, length,
}
use clock_relay.Store.Bolt.Opening.{
  clear_runs, reset_runs, reset_started, reset_running, reset_bucket, BoltFile, create_buckets,
  needs_index_rebuild, open_bolt_store, open_tx, rebuild_run_indexes, index_runs,
}
use clock_relay.Store.Bolt.Pruning.{prune_runs}
use clock_relay.Store.Bolt.Methods.{list_runs}
use clock_relay.Store.Bolt.Listing.{listed}

abbrev empty_bucket : Bucket
empty_bucket = record { entries = []; sorted = tt; small = omega arith }

abbrev empty_tx : Tx Bucket
empty_tx = record {
  runs = empty_bucket;
  run_stats = empty_bucket;
  runs_by_started_at = empty_bucket;
  running_runs_by_schedule = empty_bucket;
  schedules = empty_bucket;
}

abbrev tx_of : Result (Tx Bucket) → Tx Bucket
tx_of (err x) = empty_tx
tx_of (ok tx) = tx

abbrev pruned_of : Result ((ℕ × ℤ) × Tx Bucket) → Tx Bucket
pruned_of (err x) = empty_tx
pruned_of (ok (n, tx)) = tx

abbrev finished_run : Text → Time → Run
finished_run id started = record {
  id = id;
  schedule_name = str "job";
  target_type = str "http";
  triggered_by = str "schedule";
  status = succeeded;
  scheduled_at = started;
  started_at = started;
  finished_at = some started;
  structured_output = [];
  error = [];
}

abbrev run_or : Option Run → Run
run_or none = finished_run [] 0
run_or (some r) = r

abbrev live_run : Run
live_run = record (finished_run (str "a") 1) { status = running; finished_at = none }

finished_run-IsStorable :
    (c : ℕ) (started : Time) → c < 128 → IsStorable (finished_run (c ∷ []) started)
unfolding str
finished_run-IsStorable c started h = record {
  ascii_id = ground (arith, h);
  ascii_name = refl;
  nul_free = refl;
}

live_run-IsStorable : IsStorable live_run
unfolding str
live_run-IsStorable = record { ascii_id = refl; ascii_name = refl; nul_free = refl }

cleared : Tx Bucket
cleared = tx_of (clear_runs sample_library empty_tx)

cleared_lem : clear_runs sample_library empty_tx ≡ ok cleared
unfolding cleared sample_library clear_runs reset_runs reset_started reset_running reset_bucket
    set_completed_run_count put_uint64
cleared_lem = refl

clear_runs-IsIndexed_example :
    IsIndexed sample_library cleared × ((j : Text) → run_of sample_library cleared j ≡ none)
clear_runs-IsIndexed_example =
    clear_runs-IsIndexed sample_library sample_laws empty_tx cleared cleared_lem

saved : Tx Bucket
saved = tx_of (write_run sample_library live_run cleared)

saved_lem : write_run sample_library live_run cleared ≡ ok saved
unfolding saved cleared sample_library clear_runs reset_runs reset_started reset_running
    reset_bucket set_completed_run_count put_uint64 write_run add_run_indexes put_started
    put_running put_run count_written put_ordered get text_eq text_lt is_completed_run
    increment_completed_run_count completed_run_count uint64 str wrap64 ◌+ℤ◌ remove_run_indexes
saved_lem = refl

write_run-IsIndexed_example :
    IsIndexed sample_library saved × IsStored sample_library live_run cleared saved
unfolding str
write_run-IsIndexed_example =
    write_run-IsIndexed sample_library sample_laws live_run cleared saved live_run-IsStorable
      clear_runs-IsIndexed_example.0 saved_lem

has_running_run_iff_example :
    ((has_running_run sample_library (str "job") saved ≡ ok true)
      ↔ RunningRun sample_library (str "job") saved)
    × ((has_running_run sample_library (str "job") saved ≡ ok false)
        ↔ ¬ RunningRun sample_library (str "job") saved)
unfolding str
has_running_run_iff_example =
    has_running_run_iff sample_library sample_laws (str "job") saved write_run-IsIndexed_example.0
      refl

-- Two more runs, which have finished.
abbrev run_b : Run
run_b = finished_run (str "b") 2

abbrev run_c : Run
run_c = finished_run (str "c") 3

saved_b : Tx Bucket
saved_b = tx_of (write_run sample_library run_b saved)

saved_b_lem : write_run sample_library run_b saved ≡ ok saved_b
unfolding saved_b saved cleared sample_library clear_runs reset_runs reset_started reset_running
    reset_bucket set_completed_run_count put_uint64 write_run add_run_indexes put_started
    put_running put_run count_written put_ordered get text_eq text_lt is_completed_run
    increment_completed_run_count completed_run_count uint64 str wrap64 ◌+ℤ◌ remove_run_indexes
saved_b_lem = refl

saved_b-IsIndexed : IsIndexed sample_library saved_b
unfolding str
saved_b-IsIndexed =
    (write_run-IsIndexed sample_library sample_laws run_b saved saved_b
      (finished_run-IsStorable 98 2 (omega arith)) write_run-IsIndexed_example.0 saved_b_lem).0

saved_c : Tx Bucket
saved_c = tx_of (write_run sample_library run_c saved_b)

saved_c_lem : write_run sample_library run_c saved_b ≡ ok saved_c
unfolding saved_c saved_b saved cleared sample_library clear_runs reset_runs reset_started
    reset_running reset_bucket set_completed_run_count put_uint64 write_run add_run_indexes
    put_started put_running put_run count_written put_ordered get text_eq text_lt is_completed_run
    increment_completed_run_count completed_run_count uint64 str wrap64 ◌+ℤ◌ remove_run_indexes
saved_c_lem = refl

saved_c-IsIndexed : IsIndexed sample_library saved_c
unfolding str
saved_c-IsIndexed =
    (write_run-IsIndexed sample_library sample_laws run_c saved_b saved_c
      (finished_run-IsStorable 99 3 (omega arith)) saved_b-IsIndexed saved_c_lem).0

stored_b : Run
stored_b = run_or (run_of sample_library saved_c (str "b"))

abbrev key_b : Text
key_b = run_started_at_index_key sample_library run_b

stored_b_lem : run_of sample_library saved_c (str "b") ≡ some stored_b
unfolding stored_b saved_c saved_b saved cleared sample_library clear_runs reset_runs reset_started
    reset_running reset_bucket set_completed_run_count put_uint64 write_run add_run_indexes
    put_started put_running put_run count_written put_ordered get text_eq text_lt is_completed_run
    increment_completed_run_count completed_run_count uint64 str wrap64 ◌+ℤ◌ remove_run_indexes
stored_b_lem = refl

key_b_lem : started_key_is sample_library stored_b key_b ≡ true
unfolding stored_b saved_c saved_b saved cleared sample_library clear_runs reset_runs reset_started
    reset_running reset_bucket set_completed_run_count put_uint64 write_run add_run_indexes
    put_started put_running put_run count_written put_ordered get text_eq text_lt is_completed_run
    increment_completed_run_count completed_run_count uint64 str wrap64 ◌+ℤ◌ remove_run_indexes
key_b_lem = refl

deleted_b : Tx Bucket
deleted_b = tx_of (delete_run_by_indexed_key sample_library key_b (str "b") saved_c)

deleted_b_lem : delete_run_by_indexed_key sample_library key_b (str "b") saved_c ≡ ok deleted_b
unfolding deleted_b saved_c saved_b saved cleared sample_library clear_runs reset_runs reset_started
    reset_running reset_bucket set_completed_run_count put_uint64 write_run add_run_indexes
    put_started put_running put_run count_written put_ordered get text_eq text_lt is_completed_run
    increment_completed_run_count completed_run_count uint64 str wrap64 ◌+ℤ◌ remove_run_indexes
    delete_run_by_indexed_key run_by_id delete_started delete_running delete_run del
deleted_b_lem = refl

delete_run_by_indexed_key-IsIndexed_example :
    IsDeleted sample_library (str "b") stored_b saved_c deleted_b
delete_run_by_indexed_key-IsIndexed_example =
    delete_run_by_indexed_key-IsIndexed sample_library sample_laws key_b (str "b") stored_b saved_c
      deleted_b saved_c-IsIndexed stored_b_lem key_b_lem deleted_b_lem

-- At most one finished run, and none that is older than a day.
abbrev one_run : RunRetentionConfig
one_run = record { max_age_days = pos 1; max_records = pos 1 }

pruned : Tx Bucket
pruned = pruned_of (prune_runs sample_library one_run 5 saved_c)

pruned_lem : prune_runs sample_library one_run 5 saved_c ≡ ok ((1, pos 1), pruned)
unfolding pruned saved_c saved_b saved cleared sample_library clear_runs reset_runs reset_started
    reset_running reset_bucket set_completed_run_count put_uint64 write_run add_run_indexes
    put_started put_running put_run count_written put_ordered get text_eq text_lt is_completed_run
    increment_completed_run_count completed_run_count uint64 str wrap64 ◌+ℤ◌ remove_run_indexes
    delete_run_by_indexed_key run_by_id delete_started delete_running delete_run del prune_runs
    prune_runs_older_than prune_runs_over_count older_victims excess_victims
    started_at_from_run_index_key delete_victims
pruned_lem = refl

prune_runs-IsPruned_example : IsPruned sample_library one_run 5 1 (pos 1) saved_c pruned
prune_runs-IsPruned_example =
    prune_runs-IsPruned sample_library sample_laws one_run 5 saved_c pruned 1 (pos 1)
      saved_c-IsIndexed pruned_lem

abbrev some_calls : List Call
some_calls = save live_run ∷ save run_b ∷ prune one_run 5 ∷ clear ∷ []

call_all-Calls_example :
    IsIndexed sample_library (call_all sample_library some_calls cleared).1
    × Calls some_calls
        (call_all sample_library some_calls cleared).0
        (run_of sample_library cleared)
        (run_of sample_library (call_all sample_library some_calls cleared).1)
unfolding str
call_all-Calls_example =
    call_all-Calls sample_library sample_laws some_calls cleared
      (live_run-IsStorable, (finished_run-IsStorable 98 2 (omega arith), (tt, (tt, tt))))
      clear_runs-IsIndexed_example.0

-- A file with runs and without indexes and counter.
old_file : BoltFile Bucket
old_file = record {
  runs = some saved_c.runs;
  run_stats = none;
  runs_by_started_at = none;
  running_runs_by_schedule = none;
  schedules = none;
}

created : Tx Bucket
created = tx_of (create_buckets sample_library old_file)

created_lem : create_buckets sample_library old_file ≡ ok created
unfolding created old_file create_buckets sample_library str
created_lem = refl

created-HasRuns : HasRuns sample_library created
unfolding created old_file create_buckets sample_library str
created-HasRuns = record { readable = saved_c-IsIndexed.readable; named = saved_c-IsIndexed.named }

opened : Tx Bucket
opened = tx_of (open_bolt_store sample_library old_file)

opened_lem : open_bolt_store sample_library old_file ≡ ok opened
unfolding opened created old_file saved_c saved_b saved create_buckets open_bolt_store open_tx
    needs_index_rebuild rebuild_run_indexes index_runs cleared sample_library clear_runs reset_runs
    reset_started reset_running reset_bucket set_completed_run_count put_uint64 write_run
    add_run_indexes put_started put_running put_run count_written put_ordered get text_eq text_lt
    is_completed_run increment_completed_run_count completed_run_count uint64 str wrap64 ◌+ℤ◌
    remove_run_indexes
opened_lem = refl

needs_rebuild : needs_index_rebuild sample_library old_file ≡ true
unfolding old_file needs_index_rebuild
needs_rebuild = refl

open_bolt_store-IsIndexed_example : IsIndexed sample_library opened × (opened.runs ≡ created.runs)
open_bolt_store-IsIndexed_example =
    open_bolt_store-IsIndexed sample_library sample_laws old_file created opened created_lem
      created-HasRuns (inl needs_rebuild) opened_lem

list_runs-IsListing_example :
    (rs rest : List Run) × (list_runs sample_library (pos 2) saved_c ≡ ok rs)
    × IsListing sample_library saved_c (rs ++ rest)
    × (length rs ≡ listed (pos 2) (length (rs ++ rest)))
list_runs-IsListing_example =
    list_runs-IsListing sample_library sample_laws saved_c saved_c-IsIndexed (pos 2)

prune_runs-Succeeds_example : Succeeds (prune_runs sample_library one_run 5 saved_c)
unfolding sample_library
prune_runs-Succeeds_example =
    prune_runs-Succeeds sample_library sample_laws sample-IsReliable one_run 5 saved_c
      saved_c-IsIndexed

has_running_run_spared_example :
    has_running_run sample_library (str "job") pruned
    ≡ has_running_run sample_library (str "job") saved_c
unfolding str
has_running_run_spared_example =
    has_running_run_spared sample_library sample_laws one_run 5 (str "job") saved_c pruned 1 (pos 1)
      refl saved_c-IsIndexed pruned_lem
