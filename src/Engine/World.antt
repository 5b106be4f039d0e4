-- ===== src/Engine/World.antt =====
-- What the engine is given: its store, the cron package, the platform and the targets; and its state.
use clock_relay.Base.Int.{ℤ}
use clock_relay.Target.Http.{TargetOutcome}
use clock_relay.Model.{Run, Time, minute, RunStatus, Any}
use clock_relay.Store.Interface.{StoreMethods}
use clock_relay.Engine.Timing.{Job}
use clock_relay.Config.Types.{ScheduleConfig, Config, FaktoryInstance}
use clock_relay.Platform.{Platform}
use clock_relay.Base.{
  Text, Result, ℕ, ◌≡◌, Map, ◌*◌, Option, none, List, ok, if◌then◌else◌, ◌==◌, some, Error, err,
}

-- The cron package: a running cron.Cron is a value of `C`.
pub record CronMethods (C : Type 0) : Type 0 where
  -- cron.TryNewParser(options)
  pub new_parser : Result (Unit {0})
  -- parser.Parse(spec)
  pub parse : Text → Result (Unit {0})
  -- cron.New(...)
  pub new_cron : C
  -- c.ScheduleJob(schedule, job), where the job triggers the schedule of this name
  pub schedule_job : Job → Text → C → Result ℕ × C
  -- c.Remove(id)
  pub remove : ℕ → C → C
  -- The schedule that an entry triggers, if there is one of this id.
  pub entry : C → ℕ → Option Text
  -- c.Entry(id).Next and c.Entry(id).Prev
  pub entry_next : C → ℕ → Time
  pub entry_prev : C → ℕ → Time

-- What the package documents of its entries: a new one gets an id of its own, a removed one is gone,
-- and nothing else changes.
pub record CronLaws {C : Type 0} (m : CronMethods C) : Type 0 where
  pub entry-new_cron : (k : ℕ) → m.entry m.new_cron k ≡ none
  pub schedule_job-fresh :
      (j : Job) (n : Text) (c : C) (id : ℕ) → (m.schedule_job j n c).0 ≡ ok id → m.entry c id ≡ none
  pub entry-schedule_job :
      (j : Job) (n : Text) (c : C) (id k : ℕ)
      → (m.schedule_job j n c).0 ≡ ok id
      → m.entry (m.schedule_job j n c).1 k ≡ (if id == k then some n else m.entry c k)
  pub entry-schedule_job_failed :
      (j : Job) (n : Text) (c : C) (e : Error) (k : ℕ)
      → (m.schedule_job j n c).0 ≡ err e
      → m.entry (m.schedule_job j n c).1 k ≡ m.entry c k
  pub entry-remove :
      (id : ℕ) (c : C) (k : ℕ) → m.entry (m.remove id c) k ≡ (if id == k then none else m.entry c k)

pub record World (S C : Type 0) : Type 0 where
  pub platform : Platform
  pub store : StoreMethods S
  pub cron : CronMethods C
  -- target.TriggerTarget within the schedule's timeout
  pub trigger_target : ScheduleConfig → Run → List FaktoryInstance → TargetOutcome

-- A goroutine that executeRun has been started in.
pub record Execution : Type 0 where
  pub schedule : ScheduleConfig
  pub run : Run

-- The value of an attribute of a log record.
pub data AttrValue : Type 0 where
  text : Text → AttrValue
  status : RunStatus → AttrValue
  instant : Time → AttrValue
  milliseconds : ℤ → AttrValue
  value : Any → AttrValue
  output : Map Any → AttrValue

abbrev pub Attrs : Type 0
Attrs = Map AttrValue

-- Engine. The wait group counts the executions in `pending`; `events` are the records that
-- logRunEvent has emitted, the last one first.
pub record Engine (S C : Type 0) : Type 0 where
  pub cfg : Config
  pub store : S
  pub cron : C
  pub schedules : Map ScheduleConfig
  pub entry_ids : Map ℕ
  pub last_run_prune : Time
  pub runs_since_prune : ℕ
  pub pending : List Execution
  pub events : List Attrs

-- runPruneEvery, 5 * time.Minute, and runPruneEveryN
abbrev pub run_prune_every : ℕ
run_prune_every = 5 * minute

abbrev pub run_prune_every_n : ℕ
run_prune_every_n = 100
