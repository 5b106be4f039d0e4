-- ===== src/Config/Defaults.antt =====
-- NormalizeSchedule and Config.ApplyDefaults of internal/config/config.go.
use clock_relay.Base.{
  Bool, Text, ◌&&◌, ◌≡◌, refl, map, [], ◌∷◌, str, text_eq, if◌then◌else◌, arith, ◌*◌, ◌==◌,
}
use clock_relay.Base.Int.{ℤ, pos, negsuc}
use clock_relay.Model.{second}
use clock_relay.Config.Types.{ScheduleConfig, TargetConfig, Config}

-- s == ""
abbrev pub is_empty : Text → Bool
is_empty [] = Bool.true
is_empty (c ∷ s) = Bool.false

-- The value, or a default where the field is "".
abbrev pub or_default : Text → Text → Text
or_default [] d = d
or_default (c ∷ s) d = c ∷ s

-- n == 0
abbrev pub is_zero : ℤ → Bool
is_zero (pos n) = n == 0
is_zero (negsuc n) = Bool.false

abbrev pub or_default_int : ℤ → ℤ → ℤ
or_default_int n d = if is_zero n then d else n

unfoldable pub normalize_target : TargetConfig → TargetConfig
normalize_target t = record t {
  method = or_default t.method (str "POST");
  queue = if text_eq t.type (str "faktory") && is_empty t.queue then str "default" else t.queue;
}

-- NormalizeSchedule
unfoldable pub normalize_schedule : ScheduleConfig → ScheduleConfig
unfolding normalize_target
normalize_schedule s = record s {
  schedule_type = or_default s.schedule_type (str "cron");
  timezone = or_default s.timezone (str "UTC");
  timeout = or_default_int s.timeout (pos (30 * second));
  target = normalize_target s.target;
  next_run = 0;
  previous_run = 0;
}

-- Config.ApplyDefaults
unfoldable pub apply_defaults : Config → Config
apply_defaults c = record {
  server = record { addr = or_default c.server.addr (str ":9808") };
  store = record {
    type = or_default c.store.type (str "bbolt");
    path = or_default c.store.path (str "./data/clock-relay.db");
  };
  run_retention = record {
    max_records = or_default_int c.run_retention.max_records (pos 10000);
    max_age_days = or_default_int c.run_retention.max_age_days (pos 30);
  };
  run_logging = record { stdout = or_default c.run_logging.stdout (str "summary") };
  faktory = c.faktory;
  schedules = map normalize_schedule c.schedules;
}

or_default_idem : (s d : Text) → or_default (or_default s d) d ≡ or_default s d
or_default_idem [] [] = refl
or_default_idem [] (c ∷ d) = refl
or_default_idem (c ∷ s) d = refl

-- Normalizing a normalized schedule changes nothing.
pub normalize_schedule_idem :
    (s : ScheduleConfig) → normalize_schedule (normalize_schedule s) ≡ normalize_schedule s
unfolding normalize_schedule str
normalize_schedule_idem s = ground (
  arith,
  or_default_idem s.schedule_type (str "cron"),
  or_default_idem s.timezone (str "UTC"),
  or_default_idem s.target.method (str "POST"),
)
