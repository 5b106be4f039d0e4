-- ===== src/Model.antt =====
-- internal/model/model.go, with the values that an `any` of a body or an output can hold, and time.
use clock_relay.Base.{ℕ, Bool, Option, Text, Map}
use clock_relay.Base.Int.{ℤ}

-- A time.Time is the number of nanoseconds since January 1 of the year 1 in UTC, Go's zero time.
-- Locations only matter where a time is parsed or printed. Times before the year 1 do not occur.
abbrev pub Time : Type 0
Time = ℕ

-- A time.Duration, in nanoseconds.
abbrev pub Duration : Type 0
Duration = ℤ

abbrev pub second : ℕ
second = 1000000000

abbrev pub minute : ℕ
minute = 60000000000

abbrev pub hour : ℕ
hour = 3600000000000

abbrev pub day : ℕ
day = 86400000000000

mutual
  pub data Any : Type 0 where
    null : Any
    bool : Bool → Any
    number : Text → Any
    string : Text → Any
    time : Time → Any
    list : Anys → Any
    object : Fields → Any

  pub data Anys : Type 0 where
    nil : Anys
    cons : Any → Anys → Anys

  pub data Fields : Type 0 where
    end : Fields
    field : Text → Any → Fields → Fields

pub data RunStatus : Type 0 where
  running succeeded failed skipped : RunStatus

pub record Run : Type 0 where
  pub id : Text
  pub schedule_name : Text
  pub target_type : Text
  pub triggered_by : Text
  pub status : RunStatus
  pub scheduled_at : Time
  pub started_at : Time
  pub finished_at : Option Time
  pub structured_output : Map Any
  pub error : Text

-- run.Status == model.RunRunning
abbrev pub is_running : RunStatus → Bool
is_running running = Bool.true
is_running _ = Bool.false
