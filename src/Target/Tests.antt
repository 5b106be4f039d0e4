-- ===== src/Target/Tests.antt =====
-- The targets' theorems at small inputs.
use clock_relay.Base.Spaces.{trim_space}
use clock_relay.Config.Defaults.{normalize_schedule}
use clock_relay.Base.Int.{pos}
use clock_relay.Base.{
  All, str, [], ok, none, ◌≡◌, ◌↔◌, false, ◌∷◌, contains, has_prefix, text_eq, refl,
}
use clock_relay.Config.Validate.{
  validate, validate_run_retention, validate_run_logging, validate_instances, validate_schedules,
  validate_schedule_body, valid_schedule_name, all_name_bytes, validate_schedule_timing,
  validate_target, member, parse_local_date_time,
}
use clock_relay.Model.{Run, running}
use clock_relay.Target.Http.{HttpLibrary, trigger_http}
use clock_relay.Target.Faktory.{FaktoryLibrary}
use clock_relay.Platform.{Platform}
use clock_relay.Config.Types.{FaktoryInstance, ScheduleConfig, Config}
use clock_relay.Target.Dispatch.{
  validate-IsDispatchable, trigger_http_succeeds, IsDispatchable, Answered,
}

abbrev instance_app : FaktoryInstance
instance_app = record { name = str "app"; url = str "localhost:7419"; password_env = [] }

abbrev mail : ScheduleConfig
mail = record {
  name = str "mail";
  description = [];
  schedule_type = [];
  cron = str "0 2 * * *";
  timezone = [];
  run_at = [];
  starts_at = [];
  rate_interval = pos 0;
  rate_unit = [];
  completed_at = none;
  paused = false;
  timeout = pos 0;
  allow_concurrent = false;
  target = record {
    type = str "faktory";
    url = [];
    method = [];
    headers = [];
    body = none;
    args = none;
    queue = [];
    job_type = str "Mail";
    instance_name = str "app";
  };
  next_run = 0;
  previous_run = 0;
}

abbrev config : Config
config = record {
  server = record { addr = [] };
  store = record { type = []; path = [] };
  run_retention = record { max_records = pos 0; max_age_days = pos 0 };
  run_logging = record { stdout = [] };
  faktory = instance_app ∷ [];
  schedules = mail ∷ [];
}

abbrev platform : Platform
platform = record {
  load_location = λ name. ok 0;
  parse_in_location = λ layout raw location. ok 0;
  parse_rfc3339 = λ raw. ok 0;
  format_rfc3339_nano = λ t. [];
  sha1_hex = λ s. s;
}

-- A client package whose connections take every job.
abbrev faktory : FaktoryLibrary (Unit {0})
faktory = record {
  context_error = none;
  time_left = none;
  default_server = record {
    network = str "tcp";
    address = str "localhost:7419";
    password = [];
    timeout = pos 0;
    tls = false;
  };
  new_job = λ type args. record { jid = str "1"; type = type; queue = []; args = args };
  open_server = λ server. ok tt;
  push = λ client job. ok tt;
  queue_sizes = λ client. ok [];
  parse_url = λ raw. ok (record { scheme = str "tcp"; host = raw });
  getenv = λ name. [];
}

-- A server that answers every request with 204.
abbrev http : HttpLibrary
http = record {
  marshal = λ body. ok (str "{}");
  new_request =
      λ method url body. ok (record { method = method; url = url; headers = []; body = body });
  canonical = λ key. key;
  perform = λ req. ok (record { status_code = 204; status = str "204 No Content"; body = ok [] });
  itoa = λ n. str "204";
}

abbrev sample_run : Run
sample_run = record {
  id = str "mail-1";
  schedule_name = str "mail";
  target_type = str "http";
  triggered_by = str "manual";
  status = running;
  scheduled_at = 1;
  started_at = 2;
  finished_at = none;
  structured_output = [];
  error = [];
}

config_accepted : validate platform config ≡ ok tt
unfolding validate validate_run_retention validate_run_logging validate_instances validate_schedules
    validate_schedule_body valid_schedule_name all_name_bytes validate_schedule_timing
    validate_target member contains normalize_schedule has_prefix str text_eq parse_local_date_time
    trim_space
config_accepted = refl

validate-IsDispatchable_example :
    All (λ s. IsDispatchable faktory config.faktory (normalize_schedule s)) config.schedules
validate-IsDispatchable_example = validate-IsDispatchable faktory platform config config_accepted

trigger_http_succeeds_example :
    ((trigger_http http mail sample_run).error ≡ none) ↔ Answered http mail sample_run
trigger_http_succeeds_example = trigger_http_succeeds http mail sample_run
