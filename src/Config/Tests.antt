-- ===== src/Config/Tests.antt =====
-- The configuration's theorems at a small input.
use clock_relay.Base.Spaces.{trim_space}
use clock_relay.Config.Soundness.{validate_iff_IsValidConfig}
use clock_relay.Config.Spec.{IsValidConfig}
use clock_relay.Base.Int.{pos}
use clock_relay.Config.Defaults.{normalize_schedule, apply_defaults}
use clock_relay.Config.Filled.{
  normalize_schedule-IsNormalized, apply_defaults-HasDefaults, IsNormalized, HasDefaults,
}
use clock_relay.Config.Validate.{
  validate, validate_run_retention, validate_run_logging, validate_instances, validate_schedules,
  validate_schedule_body, valid_schedule_name, all_name_bytes, validate_schedule_timing,
  validate_target, member, parse_local_date_time,
}
use clock_relay.Config.Types.{TargetConfig, ScheduleConfig, Config}
use clock_relay.Platform.{Platform}
use clock_relay.Base.{ok, str, [], ◌≡◌, none, ◌↔◌, false, ◌∷◌, contains, has_prefix, text_eq, refl}

-- A platform that knows every zone and reads every local time as the zero time.
abbrev pub plain_platform : Platform
plain_platform = record {
  load_location = λ name. ok 0;
  parse_in_location = λ layout raw location. ok 0;
  parse_rfc3339 = λ raw. ok 0;
  format_rfc3339_nano = λ t. [];
  sha1_hex = λ s. s;
}

abbrev pub web_target : TargetConfig
web_target = record {
  type = str "http";
  url = str "http://localhost/hook";
  method = [];
  headers = [];
  body = none;
  args = none;
  queue = [];
  job_type = [];
  instance_name = [];
}

abbrev pub nightly : ScheduleConfig
nightly = record {
  name = str "nightly";
  description = [];
  schedule_type = [];
  cron = str "0 2 * * *";
  timezone = [];
  run_at = [];
  starts_at = [];
  rate_interval = pos 0;
  rate_unit = [];
  completed_at = none;
  paused = false;
  timeout = pos 0;
  allow_concurrent = false;
  target = web_target;
  next_run = 0;
  previous_run = 0;
}

abbrev pub one_job : Config
one_job = record {
  server = record { addr = [] };
  store = record { type = []; path = [] };
  run_retention = record { max_records = pos 0; max_age_days = pos 0 };
  run_logging = record { stdout = [] };
  faktory = [];
  schedules = nightly ∷ [];
}

validate-one_job : validate plain_platform one_job ≡ ok tt
unfolding validate validate_run_retention validate_run_logging validate_instances validate_schedules
    validate_schedule_body valid_schedule_name all_name_bytes validate_schedule_timing
    validate_target member contains normalize_schedule has_prefix str text_eq parse_local_date_time
    trim_space
validate-one_job = refl

validate_iff_IsValidConfig_example :
    (validate plain_platform one_job ≡ ok tt) ↔ IsValidConfig plain_platform one_job
validate_iff_IsValidConfig_example = validate_iff_IsValidConfig plain_platform one_job

normalize_schedule-IsNormalized_example : IsNormalized nightly (normalize_schedule nightly)
normalize_schedule-IsNormalized_example = normalize_schedule-IsNormalized nightly

apply_defaults-HasDefaults_example : HasDefaults one_job (apply_defaults one_job)
apply_defaults-HasDefaults_example = apply_defaults-HasDefaults one_job
