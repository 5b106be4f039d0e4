-- ===== src/Store/Interface.antt =====
-- The interface store.Store of internal/store/store.go, and what its two implementations share.
use clock_relay.Base.Sorting.{sort}
use clock_relay.Base.Int.{ℤ, negsuc, pos, pos_part}
use clock_relay.Model.{Run, Time, is_running, day}
use clock_relay.Config.Types.{ScheduleConfig, RunRetentionConfig}
use clock_relay.Base.{
  Text, ℕ, List, Result, Bool, not, leb, ◌-◌, if◌then◌else◌, text_lt, ◌==◌, ◌*◌, ◌||◌, ltb, length,
  take,
}

-- The methods that a store has. Each returns the store that it leaves, also beside an error.
pub record RunRetentionResult : Type 0 where
  pub deleted : ℕ
  pub kept : ℕ

pub record StoreMethods (S : Type 0) : Type 0 where
  pub save_schedule : ScheduleConfig → S → Result (Unit {0}) × S
  pub delete_schedule : Text → S → Result (Unit {0}) × S
  pub list_schedules : S → Result (List ScheduleConfig)
  pub save_run : Run → S → Result (Unit {0}) × S
  pub update_run : Run → S → Result (Unit {0}) × S
  pub list_runs : ℤ → S → Result (List Run)
  pub clear_runs : S → Result (Unit {0}) × S
  pub prune_runs : RunRetentionConfig → Time → S → Result RunRetentionResult × S
  pub has_running_run : Text → S → Result Bool

-- isCompletedRun
unfoldable pub is_completed_run : Run → Bool
is_completed_run r = not (is_running r.status)

-- a.StartedAt.Compare(b.StartedAt) >= 0: not sorted behind `b`
abbrev pub starts_after : Run → Run → Bool
starts_after a b = leb b.started_at a.started_at

-- sortRuns
unfoldable pub sort_runs : List Run → List Run
sort_runs = sort starts_after

-- trimRuns
unfoldable pub trim_runs : List Run → ℤ → List Run
trim_runs runs (negsuc n) = runs
trim_runs runs (pos limit) = if limit == 0 || ltb (length runs) limit then runs else take limit runs

abbrev pub name_le : ScheduleConfig → ScheduleConfig → Bool
name_le a b = not (text_lt b.name a.name)

-- sortSchedules
unfoldable pub sort_schedules : List ScheduleConfig → List ScheduleConfig
sort_schedules = sort name_le

-- now.AddDate(0, 0, -days) of a time in UTC, where days have 24 hours. A result before the year 1
-- stops there: no time lies before it, as none lies before the real result. The wrap of AddDate for
-- day counts above about 10 ^ 14 is left out.
abbrev pub days_before : ℤ → Time → Time
days_before days now = now - pos_part days * day
