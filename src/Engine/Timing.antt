-- ===== src/Engine/Timing.antt =====
-- When a schedule fires: rateDuration, rateSchedule, onceSchedule, cronSchedule and
-- scheduledAtForSchedule of internal/engine/engine.go.
use clock_relay.Config.Validate.{parse_local_date_time}
use Prim.Native.Nat.{min}
use clock_relay.Config.Defaults.{is_empty}
use clock_relay.Platform.{Platform}
use clock_relay.Base.Int.{ℤ, wrap64, negsuc, ◌*ℤ◌, pos_part, half_word, pos, neg_part}
use clock_relay.Config.Types.{ScheduleConfig}
use clock_relay.Model.{Time, Duration, minute, hour, second}
use clock_relay.Base.{
  Text, if◌then◌else◌, ℕ, Result, ◌-◌, text_eq, ◌+◌, ltb, ◌%◌, ok, str, err, ◌++◌, ◌==◌, ◌>>◌, ◌/◌,
  ◌>>=◌, ◌*◌, config_error,
}

-- A cron.Schedule: one that the cron package has parsed, or one of the engine's own two types.
pub data Job : Type 0 where
  cron_job : Text → Job
  rate_job : Time → Duration → Job
  once_job : Time → Job

-- cronSpec
unfoldable pub cron_spec : ScheduleConfig → Text
cron_spec s =
    if is_empty s.timezone then s.cron else str "CRON_TZ=" ++ (s.timezone ++ (str " " ++ s.cron))

-- time.Duration(n) * unit, which wraps around
abbrev pub times : ℤ → ℕ → Duration
times n unit = wrap64 (n *ℤ pos unit)

-- rateDuration
unfoldable pub rate_duration : ScheduleConfig → Duration
rate_duration s =
    if text_eq s.rate_unit (str "minutes")
    then times s.rate_interval minute
    else if text_eq s.rate_unit (str "hours")
    then times s.rate_interval hour
    else if text_eq s.rate_unit (str "days")
    then wrap64 (times s.rate_interval 24 *ℤ pos hour)
    else pos 0

-- t.Add(d); a result before the year 1 stops there
abbrev pub add_duration : Time → Duration → Time
add_duration t d = t + pos_part d - neg_part d

-- t.Sub(u) for u <= t, which stops at the largest duration
abbrev pub since : Time → Time → ℕ
since t u = min (t - u) (half_word - 1)

-- rateSchedule.Next; the zero time means that there is no next run
unfoldable pub rate_next : Time → Duration → Time → Time
rate_next start (negsuc n) t = 0
rate_next start (pos interval) t =
    if interval == 0
    then 0
    else if ltb t start
    then start
    else add_duration start (wrap64 (pos ((since t start / interval + 1) * interval)))

-- onceSchedule.Next
unfoldable pub once_next : Time → Time → Time
once_next run_at t = if ltb t run_at then run_at else 0

module _ (p : Platform) where
  -- Engine.cronSchedule. `now` has the readings of the clock in this call, in their order, and
  -- `parse` is the cron parser.
  unfoldable pub cron_schedule :
      (Text → Result (Unit {0})) → (ℕ → Time) → ScheduleConfig → Result Job
  cron_schedule parse now s =
      if text_eq s.schedule_type (str "cron")
      then (do parse (cron_spec s); ok (cron_job (cron_spec s)))
      else if text_eq s.schedule_type (str "rate")
      then (do
        start ← parse_local_date_time p s.starts_at s.timezone
        ok (rate_job start (rate_duration s)))
      else if text_eq s.schedule_type (str "once")
      then (do
        run_at ← parse_local_date_time p s.run_at s.timezone
        ok (once_job (if ltb (now 0) run_at then run_at else now 1 + second)))
      else err (
          config_error (
            str "unsupported schedule_type for schedule "
            ++ (s.name ++ (str ": " ++ s.schedule_type))))

  -- now.UTC().Truncate(time.Minute)
  abbrev pub truncate_minute : Time → Time
  truncate_minute t = t - t % minute

  abbrev value_or : Result Time → Time → Time
  value_or (ok t) d = t
  value_or (err e) d = d

  -- scheduledAtForSchedule
  unfoldable pub scheduled_at_for_schedule : ScheduleConfig → Time → Time
  scheduled_at_for_schedule s now =
      if text_eq s.schedule_type (str "once")
      then value_or (parse_local_date_time p s.run_at s.timezone) (truncate_minute now)
      else truncate_minute now
