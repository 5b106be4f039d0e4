-- ===== src/Config/Spec.antt =====
-- What a valid configuration is, said without the order of the checks in Config.Validate.
use clock_relay.Base.{ℕ, true, false, List, Text, [], ◌∷◌, str, ◌≡◌, ◌≢◌, ◌⊎◌, contains, ok, ◌<◌}
use clock_relay.Base.Int.{pos}
use clock_relay.Model.{Time}
use clock_relay.Platform.{Platform, Location}
use clock_relay.Config.Types.{ScheduleConfig, TargetConfig, Config, FaktoryInstance}
use clock_relay.Config.Defaults.{normalize_schedule}
use clock_relay.Config.Validate.{
  member, all_name_bytes, parse_local_date_time, is_logging_mode, is_rate_unit,
}

abbrev pub IsValidTarget : TargetConfig → Type 0
IsValidTarget t =
    (t.type ≡ str "http") × (t.url ≢ [])
    ⊎ (t.type ≡ str "faktory") × (t.instance_name ≢ []) × (t.job_type ≢ [])

-- Nonempty names and addresses, and no name twice or in `seen`.
abbrev pub IsValidInstances : List Text → List FaktoryInstance → Type 0
IsValidInstances seen [] = Unit
IsValidInstances seen (i ∷ is) =
    (i.name ≢ [])
    × (i.url ≢ [])
    × (member i.name seen ≡ false)
    × IsValidInstances (i.name ∷ seen) is

-- The names that the loop over the instances has collected.
abbrev pub collect : List Text → List FaktoryInstance → List Text
collect seen [] = seen
collect seen (i ∷ is) = collect (i.name ∷ seen) is

module _ (p : Platform) where
  abbrev pub IsLocalDateTime : Text → Text → Type 0
  IsLocalDateTime raw timezone = (t : Time) × (parse_local_date_time p raw timezone ≡ ok t)

  pub data IsValidTiming (s : ScheduleConfig) : Type 0 where
    valid_once :
        s.schedule_type ≡ str "once"
        → s.run_at ≢ []
        → IsLocalDateTime s.run_at s.timezone
        → IsValidTiming s
    valid_rate :
        s.schedule_type ≡ str "rate"
        → s.starts_at ≢ []
        → IsLocalDateTime s.starts_at s.timezone
        → (n : ℕ) → s.rate_interval ≡ pos n
        → 0 < n
        → is_rate_unit s.rate_unit ≡ true
        → IsValidTiming s
    valid_cron : s.schedule_type ≡ str "cron" → s.cron ≢ [] → IsValidTiming s

  pub record IsValidSchedule (instances : List Text) (s : ScheduleConfig) : Type 0 where
    pub named : s.name ≢ []
    pub spelled : all_name_bytes s.name ≡ true
    pub no_dots : contains s.name (str "..") ≡ false
    pub zone : (l : Location) × (p.load_location s.timezone ≡ ok l)
    pub timing : IsValidTiming s
    pub target : IsValidTarget s.target
    pub resolved : s.target.type ≡ str "faktory" → member s.target.instance_name instances ≡ true

  abbrev pub AreValidSchedules : List Text → List Text → List ScheduleConfig → Type 0
  AreValidSchedules instances seen [] = Unit
  AreValidSchedules instances seen (s ∷ l) =
      IsValidSchedule instances (normalize_schedule s)
      × (member s.name seen ≡ false)
      × AreValidSchedules instances (s.name ∷ seen) l

  pub record IsValidConfig (c : Config) : Type 0 where
    pub records : (n : ℕ) × (c.run_retention.max_records ≡ pos n)
    pub age : (n : ℕ) × (c.run_retention.max_age_days ≡ pos n)
    pub logging : is_logging_mode c.run_logging.stdout ≡ true
    pub instances : IsValidInstances [] c.faktory
    pub schedules : AreValidSchedules (collect [] c.faktory) [] c.schedules
