-- ===== src/Store/Retention.antt =====
-- pruneRuns of internal/store/store.go, the retention rule of the memory store.
pub mod Ids
pub mod Marks
pub mod Order
pub mod Rule
use clock_relay.Base.Int.{ltb_ℤ, pos, pos_part}
use clock_relay.Config.Validate.{member}
use clock_relay.Store.Interface.{RunRetentionResult, is_completed_run, days_before}
use clock_relay.Base.Sorting.{sort}
use clock_relay.Config.Types.{RunRetentionConfig}
use clock_relay.Model.{Run, Time, is_running}
use clock_relay.Base.{
  Text, Bool, List, ℕ, leb, if◌then◌else◌, ◌∷◌, not, ◌-◌, length, ◌&&◌, ltb, [], ◌+◌, ◌||◌, reverse,
}

pub record StoredRun : Type 0 where
  pub id : Text
  pub run : Run

abbrev pub newest_first : StoredRun → StoredRun → Bool
newest_first a b = leb b.run.started_at a.run.started_at

-- sortStoredRunsNewestFirst
unfoldable pub sort_stored_runs : List StoredRun → List StoredRun
sort_stored_runs = sort newest_first

abbrev pub is_live : StoredRun → Bool
is_live r = is_running r.run.status

-- victims[id] = struct{}{}
abbrev pub add_victim : Text → List Text → List Text
add_victim id victims = if member id victims then victims else id ∷ victims

-- The loop that marks completed runs from before the cutoff.
unfoldable pub mark_old : Time → List StoredRun → List Text → List Text
mark_old cutoff [] victims = victims
mark_old cutoff (r ∷ runs) victims =
    mark_old cutoff runs
      (if not (is_live r) && ltb r.run.started_at cutoff then add_victim r.id victims else victims)

-- The loop that counts the completed runs that are not marked.
unfoldable pub kept_count : List StoredRun → List Text → ℕ
kept_count [] victims = 0
kept_count (r ∷ runs) victims =
    (if not (member r.id victims) && not (is_live r) then 1 else 0) + kept_count runs victims

-- The loop over i from len(runs)-1 down to 0, on the reversed list: it marks the oldest completed
-- runs while more than `limit` are kept.
unfoldable pub mark_excess : ℕ → ℕ → List StoredRun → List Text → List Text
mark_excess limit kept [] victims = victims
mark_excess limit kept (r ∷ runs) victims =
    let passed = mark_excess limit kept runs victims in
    let marked = mark_excess limit (kept - 1) runs (add_victim r.id victims) in
    if ltb limit kept
    then (if is_live r || member r.id victims then passed else marked)
    else victims

-- retainedCompletedRunCount
unfoldable pub retained_completed_run_count : List StoredRun → List Text → ℕ
retained_completed_run_count [] victims = 0
retained_completed_run_count (r ∷ runs) victims =
    let rest = retained_completed_run_count runs victims in
    if member r.id victims then rest else if is_completed_run r.run then rest + 1 else rest

-- The victims by age, of the sorted runs.
unfoldable pub old_victims : RunRetentionConfig → Time → List StoredRun → List Text
old_victims retention now runs =
    if ltb_ℤ (pos 0) retention.max_age_days
    then mark_old (days_before retention.max_age_days now) runs []
    else []

-- The victims by age and by count, of the sorted runs.
unfoldable pub all_victims : RunRetentionConfig → Time → List StoredRun → List Text
unfolding old_victims
all_victims retention now runs =
    let old = old_victims retention now runs in
    if ltb_ℤ (pos 0) retention.max_records
    then mark_excess (pos_part retention.max_records) (kept_count runs old) (reverse runs) old
    else old

-- pruneRuns
unfoldable pub prune_victims :
    List StoredRun → RunRetentionConfig → Time → RunRetentionResult × List Text
unfolding all_victims
prune_victims stored retention now =
    let runs = sort_stored_runs stored in
    let victims = all_victims retention now runs in
    (record { deleted = length victims; kept = retained_completed_run_count runs victims }, victims)
