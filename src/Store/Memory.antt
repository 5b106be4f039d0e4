-- ===== src/Store/Memory.antt =====
-- MemoryStore of internal/store/store.go. Its methods hold the lock throughout and are atomic.
pub mod Pruning
pub mod Listing
use clock_relay.Config.Defaults.{normalize_schedule}
use clock_relay.Store.Retention.{StoredRun, prune_victims}
use clock_relay.Base.Int.{ℤ}
use clock_relay.Model.{Run, Time, is_running}
use clock_relay.Store.Interface.{
  StoreMethods, sort_schedules, trim_runs, RunRetentionResult, sort_runs,
}
use clock_relay.Config.Types.{ScheduleConfig, RunRetentionConfig}
use clock_relay.Base.{
  Text, Map, [], List, ◌∷◌, Result, Bool, del, ok, false, put, if◌then◌else◌, text_eq, ◌&&◌, true,
}

pub record MemoryStore : Type 0 where
  pub runs : Map Run
  pub schedules : Map ScheduleConfig

-- NewMemoryStore
abbrev pub new_memory_store : MemoryStore
new_memory_store = record { runs = []; schedules = [] }

abbrev pub values {ℓ} : {V : Type ℓ} → Map V → List V
values [] = []
values ((k, v) ∷ m) = v ∷ values m

unfoldable pub stored_runs : Map Run → List StoredRun
stored_runs [] = []
stored_runs ((id, run) ∷ m) = record { id = id; run = run } ∷ stored_runs m

-- for id := range victims { delete(s.runs, id) }
unfoldable pub delete_all {ℓ} : {V : Type ℓ} → List Text → Map V → Map V
delete_all [] m = m
delete_all (id ∷ ids) m = delete_all ids (del id m)

unfoldable pub save_schedule : ScheduleConfig → MemoryStore → Result (Unit {0}) × MemoryStore
save_schedule schedule s =
    let n = normalize_schedule schedule in
    (ok tt, record s { schedules = put n.name n s.schedules })

unfoldable pub delete_schedule : Text → MemoryStore → Result (Unit {0}) × MemoryStore
delete_schedule name s = (ok tt, record s { schedules = del name s.schedules })

unfoldable pub list_schedules : MemoryStore → Result (List ScheduleConfig)
list_schedules s = ok (sort_schedules (values s.schedules))

unfoldable pub save_run : Run → MemoryStore → Result (Unit {0}) × MemoryStore
save_run run s = (ok tt, record s { runs = put run.id run s.runs })

unfoldable pub update_run : Run → MemoryStore → Result (Unit {0}) × MemoryStore
unfolding save_run
update_run = save_run

unfoldable pub list_runs : ℤ → MemoryStore → Result (List Run)
list_runs limit s = ok (trim_runs (sort_runs (values s.runs)) limit)

unfoldable pub clear_runs : MemoryStore → Result (Unit {0}) × MemoryStore
clear_runs s = (ok tt, record s { runs = [] })

unfoldable pub prune_runs :
    RunRetentionConfig → Time → MemoryStore → Result RunRetentionResult × MemoryStore
prune_runs retention now s =
    let (result, victims) = prune_victims (stored_runs s.runs) retention now in
    (ok result, record s { runs = delete_all victims s.runs })

unfoldable pub any_running : Text → Map Run → Bool
any_running name [] = false
any_running name ((id, run) ∷ m) =
    let rest = any_running name m in
    if text_eq run.schedule_name name && is_running run.status then true else rest

unfoldable pub has_running_run : Text → MemoryStore → Result Bool
unfolding any_running
has_running_run name s = ok (any_running name s.runs)

-- The memory store fills the interface.
unfoldable pub memory_methods : StoreMethods MemoryStore
memory_methods = record {
  save_schedule = save_schedule;
  delete_schedule = delete_schedule;
  list_schedules = list_schedules;
  save_run = save_run;
  update_run = update_run;
  list_runs = list_runs;
  clear_runs = clear_runs;
  prune_runs = prune_runs;
  has_running_run = has_running_run;
}
