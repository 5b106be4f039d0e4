-- ===== src/Store/Tests.antt =====
-- The store's theorems at small inputs, and what its routines do on them.
use clock_relay.Store.Memory.Listing.{listed, list_runs_newest}
use clock_relay.Base.Sorting.{IsSorted, sort}
use clock_relay.Store.Retention.Marks.{is_kept}
use clock_relay.Store.Interface.{is_completed_run, starts_after, RunRetentionResult}
use mathlib.Core.List.{Perm}
use clock_relay.Config.Validate.{member}
use clock_relay.Store.Retention.Rule.{is_expired, admitted, is_fresh, victims, removed_before_kept}
use clock_relay.Store.Retention.{
  prune_victims, is_live, sort_stored_runs, mark_old, kept_count, mark_excess,
  retained_completed_run_count,
}
use clock_relay.Base.Int.{pos}
use clock_relay.Store.Memory.Pruning.{
  reported, stored_runs-IsUnique, pruned, has_running_run-prune_runs, report-prune_runs,
  age-prune_runs, count-prune_runs,
}
use clock_relay.Store.Retention.Ids.{IsUnique}
use clock_relay.Config.Types.{RunRetentionConfig}
use clock_relay.Store.Memory.{
  MemoryStore, prune_runs, has_running_run, stored_runs, list_runs, values, delete_all,
}
use clock_relay.Model.{RunStatus, Time, Run, succeeded, day, failed, running, skipped}
use clock_relay.Base.{
  Text, Map, has, All, count_if, List, [], str, not, ◌*◌, none, text_eq, ◌≡◌, ◌∷◌, IsMap, false,
  ◌+◌, ok, ◌++◌, true, ◌≤◌, del, length, refl,
}

abbrev run_at : Text → RunStatus → Time → Run
run_at id status started = record {
  id = id;
  schedule_name = str "nightly";
  target_type = str "http";
  triggered_by = str "scheduler";
  status = status;
  scheduled_at = started;
  started_at = started;
  finished_at = none;
  structured_output = [];
  error = [];
}

-- Three completed runs and a running one, in no order.
abbrev some_runs : Map Run
some_runs =
    (str "b", run_at (str "b") succeeded (41 * day))
    ∷ (str "a", run_at (str "a") failed (3 * day))
    ∷ (str "d", run_at (str "d") running (2 * day))
    ∷ (str "c", run_at (str "c") skipped (42 * day))
    ∷ []

abbrev sample : MemoryStore
sample = record { runs = some_runs; schedules = [] }

-- Thirty days and one record.
abbrev month_and_one : RunRetentionConfig
month_and_one = record { max_records = pos 1; max_age_days = pos 30 }

sample_keys : IsMap some_runs
unfolding has str text_eq
sample_keys = (refl, (refl, (refl, (refl, tt))))

sample_unique : IsUnique (stored_runs some_runs)
sample_unique = stored_runs-IsUnique some_runs sample_keys

-- The old run and the older of the two young ones are removed.
prune_sample : prune_runs month_and_one (43 * day) sample ≡ (
  ok (record { deleted = 2; kept = 1 }),
  record {
    runs =
        (str "d", run_at (str "d") running (2 * day))
        ∷ (str "c", run_at (str "c") skipped (42 * day))
        ∷ [];
    schedules = [];
  },
)
unfolding prune_runs prune_victims sort_stored_runs mark_old kept_count mark_excess
    retained_completed_run_count is_completed_run member delete_all del stored_runs str text_eq sort
prune_sample = refl

removed_before_kept_example :
    All
      (λ v.
        All
          (λ k.
            is_live v ≡ false
            → member v.id (victims (stored_runs some_runs) month_and_one (43 * day) sample_unique)
              ≡ true
            → is_kept (victims (stored_runs some_runs) month_and_one (43 * day) sample_unique) k
              ≡ true
            → v.run.started_at ≤ k.run.started_at)
          (stored_runs some_runs))
      (stored_runs some_runs)
removed_before_kept_example =
    removed_before_kept (stored_runs some_runs) month_and_one (43 * day) sample_unique

has_running_run-prune_runs_example :
    has_running_run (str "nightly") (pruned sample month_and_one (43 * day))
    ≡ has_running_run (str "nightly") sample
has_running_run-prune_runs_example =
    has_running_run-prune_runs sample month_and_one (43 * day) sample_keys (str "nightly")

count-prune_runs_example :
    (count_if (λ r. not (is_live r)) (stored_runs (pruned sample month_and_one (43 * day)).runs)
      ≡ (reported sample month_and_one (43 * day)).kept)
    × ((reported sample month_and_one (43 * day)).kept
        ≡ admitted month_and_one
            (count_if (is_fresh month_and_one (43 * day)) (stored_runs sample.runs)))
count-prune_runs_example = count-prune_runs sample month_and_one (43 * day) sample_keys

report-prune_runs_example :
    (r : RunRetentionResult) × ((prune_runs month_and_one (43 * day) sample).0 ≡ ok r)
    × (r.deleted + r.kept ≡ count_if (λ q. not (is_live q)) (stored_runs sample.runs))
    × (r.kept
        ≡ count_if
            (λ q. not (is_live q))
            (stored_runs (pruned sample month_and_one (43 * day)).runs))
report-prune_runs_example = report-prune_runs sample month_and_one (43 * day) sample_keys

age-prune_runs_example :
    All
      (λ r. is_expired month_and_one (43 * day) r ≡ false)
      (stored_runs (pruned sample month_and_one (43 * day)).runs)
age-prune_runs_example = age-prune_runs sample month_and_one (43 * day) sample_keys

list_runs_newest_example :
    (l rest : List Run) × (list_runs (pos 2) sample ≡ ok l)
    × Perm (l ++ rest) (values sample.runs)
    × IsSorted starts_after (l ++ rest)
    × (length l ≡ listed (pos 2) (length (l ++ rest)))
list_runs_newest_example = list_runs_newest (pos 2) sample
