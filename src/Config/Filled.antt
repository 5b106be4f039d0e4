-- ===== src/Config/Filled.antt =====
-- What NormalizeSchedule and ApplyDefaults fill in, and what they leave as it is.
use clock_relay.Model.{second}
use clock_relay.Config.Defaults.{
  or_default, or_default_int, normalize_target, normalize_schedule, apply_defaults, is_empty,
}
use clock_relay.Base.{
  text_eq, text_eq_refl, text_eq_iff, if◌then◌else◌, ◌&&◌, List, Text, ◌≡◌, ◌≢◌, ◌⊎◌, refl, map, [],
  ◌∷◌, str, inl, inr, arith, ◌*◌, suc, zero,
}
use clock_relay.Base.Int.{ℤ, pos, negsuc}
use clock_relay.Config.Types.{ScheduleConfig, TargetConfig, Config}

-- What a field is after a default has been put in where it is "".
abbrev pub IsFilled : Text → Text → Text → Type 0
IsFilled before default after =
    ((before ≡ []) × (after ≡ default)) ⊎ ((before ≢ []) × (after ≡ before))

-- What a number is after a default has been put in where it is 0.
abbrev pub IsFilledInt : ℤ → ℤ → ℤ → Type 0
IsFilledInt before default after =
    ((before ≡ pos 0) × (after ≡ default)) ⊎ ((before ≢ pos 0) × (after ≡ before))

-- The target `t'` is `t` with the defaults; only a faktory target has one for its queue.
pub record HasTargetDefaults (t t' : TargetConfig) : Type 0 where
  pub method : IsFilled t.method (str "POST") t'.method
  pub faktory_queue : t.type ≡ str "faktory" → IsFilled t.queue (str "default") t'.queue
  pub other_queue : t.type ≢ str "faktory" → t'.queue ≡ t.queue
  pub others : t' ≡ record t { method = t'.method; queue = t'.queue }

-- The schedule `s'` is `s` with the defaults and without the times of its next and its previous run.
pub record IsNormalized (s s' : ScheduleConfig) : Type 0 where
  pub schedule_type : IsFilled s.schedule_type (str "cron") s'.schedule_type
  pub timezone : IsFilled s.timezone (str "UTC") s'.timezone
  pub timeout : IsFilledInt s.timeout (pos (30 * second)) s'.timeout
  pub target : HasTargetDefaults s.target s'.target
  pub others : s' ≡ record s {
    schedule_type = s'.schedule_type;
    timezone = s'.timezone;
    timeout = s'.timeout;
    target = s'.target;
    next_run = 0;
    previous_run = 0;
  }

-- Every schedule is normalized, at its place in the list.
pub data AreNormalized : List ScheduleConfig → List ScheduleConfig → Type 0 where
  no_schedules : AreNormalized [] []
  one_more :
      {s s' : ScheduleConfig} {l l' : List ScheduleConfig}
      → IsNormalized s s'
      → AreNormalized l l'
      → AreNormalized (s ∷ l) (s' ∷ l')

-- The configuration `c'` is `c` with the defaults.
pub record HasDefaults (c c' : Config) : Type 0 where
  pub addr : IsFilled c.server.addr (str ":9808") c'.server.addr
  pub store_type : IsFilled c.store.type (str "bbolt") c'.store.type
  pub store_path : IsFilled c.store.path (str "./data/clock-relay.db") c'.store.path
  pub max_records : IsFilledInt c.run_retention.max_records (pos 10000) c'.run_retention.max_records
  pub max_age_days : IsFilledInt c.run_retention.max_age_days (pos 30) c'.run_retention.max_age_days
  pub stdout : IsFilled c.run_logging.stdout (str "summary") c'.run_logging.stdout
  pub faktory : c'.faktory ≡ c.faktory
  pub schedules : AreNormalized c.schedules c'.schedules

or_default-IsFilled : (s d : Text) → IsFilled s d (or_default s d)
or_default-IsFilled [] d = inl (refl, refl)
or_default-IsFilled (c ∷ s) d = inr (λ e. cc, refl)

or_default_int-IsFilledInt : (n d : ℤ) → IsFilledInt n d (or_default_int n d)
or_default_int-IsFilledInt (pos zero) d = inl (refl, refl)
or_default_int-IsFilledInt (pos (suc n)) d = inr (λ e. cc, ground arith)
or_default_int-IsFilledInt (negsuc n) d = inr (λ e. cc, refl)

queue-IsFilled :
    (t : TargetConfig) (q : Text)
    → t.type ≡ str "faktory"
    → IsFilled q
        (str "default")
        (if text_eq t.type (str "faktory") && is_empty q then str "default" else q)
queue-IsFilled t [] faktory = inl (refl, rw (faktory, text_eq_refl (str "faktory")) refl)
queue-IsFilled t (c ∷ q) faktory = inr (λ e. cc, rw (faktory, text_eq_refl (str "faktory")) refl)

normalize_target-HasTargetDefaults : (t : TargetConfig) → HasTargetDefaults t (normalize_target t)
unfolding normalize_target
normalize_target-HasTargetDefaults t = record {
  method = or_default-IsFilled t.method (str "POST");
  faktory_queue = queue-IsFilled t t.queue;
  other_queue = λ other. ground (arith, other, text_eq_iff t.type (str "faktory"));
  others = refl;
}

-- NormalizeSchedule puts "cron", "UTC", 30 seconds, "POST" and, for a faktory target, the queue
-- "default" in the place of an empty type, zone, timeout, method and queue, keeps them where they are
-- not empty, and changes nothing else of the schedule but the times of the next and the previous run,
-- which become zero.
pub normalize_schedule-IsNormalized : (s : ScheduleConfig) → IsNormalized s (normalize_schedule s)
unfolding normalize_schedule
normalize_schedule-IsNormalized s = record {
  schedule_type = or_default-IsFilled s.schedule_type (str "cron");
  timezone = or_default-IsFilled s.timezone (str "UTC");
  timeout = or_default_int-IsFilledInt s.timeout (pos (30 * second));
  target = normalize_target-HasTargetDefaults s.target;
  others = refl;
}

map-AreNormalized : (l : List ScheduleConfig) → AreNormalized l (map normalize_schedule l)
map-AreNormalized [] = no_schedules
map-AreNormalized (s ∷ l) = one_more (normalize_schedule-IsNormalized s) (map-AreNormalized l)

-- ApplyDefaults puts the default of each setting in its place where it is "" or 0, keeps it where it
-- is not, keeps the Faktory instances, and normalizes each schedule at its place.
pub apply_defaults-HasDefaults : (c : Config) → HasDefaults c (apply_defaults c)
unfolding apply_defaults
apply_defaults-HasDefaults c = record {
  addr = or_default-IsFilled c.server.addr (str ":9808");
  store_type = or_default-IsFilled c.store.type (str "bbolt");
  store_path = or_default-IsFilled c.store.path (str "./data/clock-relay.db");
  max_records = or_default_int-IsFilledInt c.run_retention.max_records (pos 10000);
  max_age_days = or_default_int-IsFilledInt c.run_retention.max_age_days (pos 30);
  stdout = or_default-IsFilled c.run_logging.stdout (str "summary");
  faktory = refl;
  schedules = map-AreNormalized c.schedules;
}
