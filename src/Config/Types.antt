-- ===== src/Config/Types.antt =====
-- The structs of internal/config/config.go.
use clock_relay.Base.{Bool, Option, List, Text, Map}
use clock_relay.Base.Int.{ℤ}
use clock_relay.Model.{Any, Time, Duration}

pub record FaktoryInstance : Type 0 where
  pub name : Text
  pub url : Text
  pub password_env : Text

pub record ServerConfig : Type 0 where
  pub addr : Text

pub record StoreConfig : Type 0 where
  pub type : Text
  pub path : Text

-- Go's `int` is an integer of 64 bits.
pub record RunRetentionConfig : Type 0 where
  pub max_records : ℤ
  pub max_age_days : ℤ

pub record RunLoggingConfig : Type 0 where
  pub stdout : Text

-- `none` is a nil map or slice.
pub record TargetConfig : Type 0 where
  pub type : Text
  pub url : Text
  pub method : Text
  pub headers : Map Text
  pub body : Option (Map Any)
  pub args : Option (List Any)
  pub queue : Text
  pub job_type : Text
  pub instance_name : Text

pub record ScheduleConfig : Type 0 where
  pub name : Text
  pub description : Text
  pub schedule_type : Text
  pub cron : Text
  pub timezone : Text
  pub run_at : Text
  pub starts_at : Text
  pub rate_interval : ℤ
  pub rate_unit : Text
  pub completed_at : Option Time
  pub paused : Bool
  pub timeout : Duration
  pub allow_concurrent : Bool
  pub target : TargetConfig
  pub next_run : Time
  pub previous_run : Time

pub record Config : Type 0 where
  pub server : ServerConfig
  pub store : StoreConfig
  pub run_retention : RunRetentionConfig
  pub run_logging : RunLoggingConfig
  pub faktory : List FaktoryInstance
  pub schedules : List ScheduleConfig

-- ScheduleConfig.AllowsConcurrentRuns
unfoldable pub allows_concurrent_runs : ScheduleConfig → Bool
allows_concurrent_runs s = s.allow_concurrent
