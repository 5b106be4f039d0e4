-- ===== src/Config/Validate.antt =====
-- The validation of internal/config/config.go, ParseLocalDateTime and LoadConfig.
use clock_relay.Base.{
  ℕ, Bool, true, false, not, List, Text, ◌&&◌, ◌||◌, ◌++◌, [], ◌∷◌, str, text_eq, leb, ◌==◌,
  if◌then◌else◌, map, contains, Option, none, some, Result, ok, err, ◌>>=◌, ◌>>◌, Error,
  config_error, external_error, wrapped_error,
}
use clock_relay.Base.Int.{pos, ltb_ℤ}
use clock_relay.Base.Spaces.{trim_space}
use clock_relay.Model.{Time}
use clock_relay.Platform.{Platform}
use clock_relay.Config.Types.{
  ScheduleConfig, TargetConfig, Config, FaktoryInstance, RunRetentionConfig, RunLoggingConfig,
}
use clock_relay.Config.Defaults.{is_empty, normalize_schedule, apply_defaults}

-- `if test { return error }`
abbrev pub fail_if : Bool → Error → Result (Unit {0})
fail_if true e = err e
fail_if false e = ok tt

-- A set of texts, map[string]struct{}.
unfoldable pub member : Text → List Text → Bool
member k [] = false
member k (j ∷ s) = text_eq j k || member k s

-- ValidateRunRetention
unfoldable pub validate_run_retention : RunRetentionConfig → Result (Unit {0})
validate_run_retention r = do
  fail_if (ltb_ℤ r.max_records (pos 0))
      (config_error (str "run_retention.max_records must be non-negative"))
  fail_if (ltb_ℤ r.max_age_days (pos 0))
      (config_error (str "run_retention.max_age_days must be non-negative"))

-- The cases of the switch in ValidateRunLogging.
abbrev pub is_logging_mode : Text → Bool
is_logging_mode s =
    is_empty s || text_eq s (str "off") || text_eq s (str "summary") || text_eq s (str "full")

-- ValidateRunLogging
unfoldable pub validate_run_logging : RunLoggingConfig → Result (Unit {0})
validate_run_logging l =
    if is_logging_mode l.stdout
    then ok tt
    else err (config_error (str "run_logging.stdout must be off, summary, or full"))

-- The loop over c.Faktory in Config.Validate; the result is the set of the names.
unfoldable pub validate_instances : List FaktoryInstance → List Text → Result (List Text)
validate_instances [] seen = ok seen
validate_instances (i ∷ is) seen = do
  fail_if (is_empty i.name) (config_error (str "faktory instance name is required"))
  fail_if (member i.name seen) (config_error (str "duplicate faktory instance: " ++ i.name))
  fail_if (is_empty i.url) (config_error (str "faktory instance url is required for: " ++ i.name))
  validate_instances is (i.name ∷ seen)

-- [A-Za-z0-9._-]
abbrev pub is_name_byte : ℕ → Bool
is_name_byte c =
    (leb b'A' c && leb c b'Z')
    || (leb b'a' c && leb c b'z')
    || (leb b'0' c && leb c b'9')
    || c == b'.'
    || c == b'_'
    || c == b'-'

unfoldable pub all_name_bytes : Text → Bool
all_name_bytes [] = true
all_name_bytes (c ∷ s) = is_name_byte c && all_name_bytes s

-- validScheduleName.MatchString
unfoldable pub valid_schedule_name : Text → Bool
valid_schedule_name s = not (is_empty s) && all_name_bytes s

-- TargetConfig.Validate
unfoldable pub validate_target : TargetConfig → Text → Result (Unit {0})
validate_target t name =
    if text_eq t.type (str "http")
    then fail_if (is_empty t.url)
        (config_error (str "http target url is required for schedule: " ++ name))
    else if text_eq t.type (str "faktory")
    then (do
      fail_if (is_empty t.instance_name)
          (config_error (str "faktory target instance is required for schedule: " ++ name))
      fail_if (is_empty t.job_type)
          (config_error (str "faktory target job_type is required for schedule: " ++ name)))
    else err
        (config_error (str "unsupported target type for schedule " ++ name ++ str ": " ++ t.type))

abbrev pub is_rate_unit : Text → Bool
is_rate_unit u = text_eq u (str "minutes") || text_eq u (str "hours") || text_eq u (str "days")

-- `if err != nil { return fmt.Errorf(prefix + "%w", err) }`
abbrev pub wrap {ℓ} : {A : Type ℓ} → Text → Result A → Result A
wrap s (ok a) = ok a
wrap s (err e) = err (wrapped_error s e)

-- The first result that is no error; the last stands behind the loop over the layouts.
abbrev or_else {ℓ} : {A : Type ℓ} → Result A → Result A → Result A
or_else (ok a) r = ok a
or_else (err e) r = r

module _ (p : Platform) where
  -- ParseLocalDateTime
  unfoldable pub parse_local_date_time : Text → Text → Result Time
  parse_local_date_time raw timezone = do
    location ← p.load_location timezone
    let s = trim_space raw
    or_else (p.parse_in_location (str "2006-01-02T15:04") s location) (
        or_else (p.parse_in_location (str "2006-01-02T15:04:05") s location) (
          or_else (p.parse_rfc3339 s)
            (err (external_error (str "expected local datetime like 2026-05-10T09:00")))))

  -- validateScheduleTiming
  unfoldable pub validate_schedule_timing : ScheduleConfig → Result (Unit {0})
  validate_schedule_timing s =
      if text_eq s.schedule_type (str "once")
      then (do
        fail_if (is_empty s.run_at)
            (config_error (str "run_at is required for once schedule: " ++ s.name))
        _ ←
            wrap (str "invalid run_at for schedule " ++ s.name ++ str ": ")
              (parse_local_date_time s.run_at s.timezone)
        ok tt)
      else if text_eq s.schedule_type (str "rate")
      then (do
        fail_if (is_empty s.starts_at)
            (config_error (str "starts_at is required for rate schedule: " ++ s.name))
        _ ←
            wrap (str "invalid starts_at for schedule " ++ s.name ++ str ": ")
              (parse_local_date_time s.starts_at s.timezone)
        fail_if (not (ltb_ℤ (pos 0) s.rate_interval))
            (config_error (str "rate_interval must be positive for schedule: " ++ s.name))
        fail_if (not (is_rate_unit s.rate_unit)) (
            config_error
              (str "rate_unit must be minutes, hours, or days for schedule: " ++ s.name)))
      else if text_eq s.schedule_type (str "cron")
      then fail_if (is_empty s.cron)
          (config_error (str "cron is required for schedule: " ++ s.name))
      else err (
          config_error (
            str "unsupported schedule_type for schedule " ++ s.name ++ str ": " ++ s.schedule_type))

  -- The body of the loop over c.Schedules in Config.Validate, on the normalized schedule.
  unfoldable pub validate_schedule_body : List Text → List Text → ScheduleConfig → Result (Unit {0})
  validate_schedule_body instances seen s = do
    fail_if (is_empty s.name) (config_error (str "schedule name is required"))
    fail_if (not (valid_schedule_name s.name) || contains s.name (str "..")) (
        config_error (
          str "schedule name may only contain letters, numbers, dots, underscores, and dashes: "
          ++ s.name))
    fail_if (member s.name seen) (config_error (str "duplicate schedule name: " ++ s.name))
    _ ←
        wrap (str "invalid timezone for schedule " ++ s.name ++ str ": ")
          (p.load_location s.timezone)
    validate_schedule_timing s
    validate_target s.target s.name
    fail_if
        (text_eq s.target.type (str "faktory")
          && not (is_empty s.target.instance_name)
          && not (member s.target.instance_name instances))
        (config_error (
          str "unknown faktory instance for schedule "
          ++ s.name
          ++ str ": "
          ++ s.target.instance_name))

  unfoldable pub validate_schedules :
      List Text → List Text → List ScheduleConfig → Result (Unit {0})
  validate_schedules instances seen [] = ok tt
  validate_schedules instances seen (s ∷ l) = do
    validate_schedule_body instances seen (normalize_schedule s)
    validate_schedules instances ((normalize_schedule s).name ∷ seen) l

  -- Config.Validate
  unfoldable pub validate : Config → Result (Unit {0})
  validate c = do
    validate_run_retention c.run_retention
    validate_run_logging c.run_logging
    instances ← validate_instances c.faktory []
    validate_schedules instances [] c.schedules

  -- LoadConfig, with os.ReadFile(path) and yaml.Unmarshal(raw, &cfg) as arguments
  unfoldable pub load_config : Result Text → (Text → Result Config) → Result Config
  load_config read_file unmarshal = do
    raw ← read_file
    c ← unmarshal raw
    validate (apply_defaults c)
    ok (apply_defaults c)

-- Config.FaktoryInstanceNames
unfoldable pub faktory_instance_names : Config → List Text
faktory_instance_names c = map (λ i. i.name) c.faktory

-- The loop of Config.FindFaktoryInstance.
unfoldable pub find_instance : Text → List FaktoryInstance → Option FaktoryInstance
find_instance name [] = none
find_instance name (i ∷ is) =
    let rest = find_instance name is in if text_eq i.name name then some i else rest

-- Config.FindFaktoryInstance
unfoldable pub find_faktory_instance : Config → Text → Option FaktoryInstance
unfolding find_instance
find_faktory_instance c name = find_instance name c.faktory
