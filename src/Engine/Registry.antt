-- ===== src/Engine/Registry.antt =====
-- The schedules of the engine and their cron entries: registration and DeleteSchedule of
-- internal/engine/engine.go. Each holds the engine's lock throughout and is atomic. `now` has the readings of the clock in a call, in their order.
use clock_relay.Base.Int.{pos}
use clock_relay.Config.Validate.{validate, wrap}
use clock_relay.Config.Defaults.{normalize_schedule}
use clock_relay.Model.{Time}
use clock_relay.Engine.Timing.{Job, cron_schedule, cron_spec}
use clock_relay.Engine.World.{World, Engine}
use clock_relay.Config.Types.{ScheduleConfig, FaktoryInstance}
use clock_relay.Base.{
  Text, Option, Error, Bool, config_error, List, Result, ℕ, text_eq, false, not, str, get, del, ok,
  some, ◌&&◌, ◌++◌, none, err, if◌then◌else◌, put, true, ◌>>◌, [], ◌∷◌,
}

-- schedule.ScheduleType == "once"
abbrev pub is_once : ScheduleConfig → Bool
is_once s = text_eq s.schedule_type (str "once")

abbrev pub is_some {ℓ} : {A : Type ℓ} → Option A → Bool
is_some none = false
is_some (some a) = true

-- Whether registerScheduleLocked makes a cron entry for the schedule.
abbrev pub is_armed : ScheduleConfig → Bool
is_armed s = not s.paused && not (is_once s && is_some s.completed_at)

abbrev pub not_found : Text → Error
not_found name = config_error (str "schedule not found: " ++ name)

abbrev pub already_exists : Text → Error
already_exists name = config_error (str "schedule already exists: " ++ name)

module _ {S C : Type 0} (w : World S C) where
  -- validateSchedule
  unfoldable pub validate_schedule : ScheduleConfig → List FaktoryInstance → Result (Unit {0})
  validate_schedule schedule faktory = do
    let s = normalize_schedule schedule
    validate w.platform (record {
      server = record { addr = [] };
      store = record { type = []; path = [] };
      run_retention = record { max_records = pos 0; max_age_days = pos 0 };
      run_logging = record { stdout = [] };
      faktory = faktory;
      schedules = s ∷ [];
    })
    if text_eq s.schedule_type (str "cron")
        then (do
          w.cron.new_parser
          wrap (str "invalid cron for schedule " ++ (s.name ++ str ": "))
              (w.cron.parse (cron_spec s)))
        else ok tt

  -- removeEntryLocked
  unfoldable pub remove_entry : Text → Engine S C → Engine S C
  remove_entry name e = elim (get name e.entry_ids) [
    | none ↦ e
    | some id ↦ record e { cron = w.cron.remove id e.cron; entry_ids = del name e.entry_ids }
  ]

  -- removeScheduleLocked
  unfoldable pub remove_schedule : Text → Engine S C → Engine S C
  unfolding remove_entry
  remove_schedule name e =
      let e1 = remove_entry name e in record e1 { schedules = del name e1.schedules }

  abbrev pub keep_entry : Text → Result ℕ × C → Engine S C → Result (Unit {0}) × Engine S C
  keep_entry name (ok id, c) e = (ok tt, record e { cron = c; entry_ids = put name id e.entry_ids })
  keep_entry name (err x, c) e = (err x, record e { cron = c })

  abbrev pub schedule_entry : Text → Result Job → Engine S C → Result (Unit {0}) × Engine S C
  schedule_entry name (err x) e = (err x, e)
  schedule_entry name (ok job) e = keep_entry name (w.cron.schedule_job job name e.cron) e

  -- registerScheduleLocked
  unfoldable pub register_entry :
      (ℕ → Time) → ScheduleConfig → Engine S C → Result (Unit {0}) × Engine S C
  unfolding remove_entry
  register_entry now s e =
      let e1 = remove_entry s.name e in
      if is_armed s
      then schedule_entry s.name (cron_schedule w.platform w.cron.parse now s) e1
      else (ok tt, e1)

  abbrev pub drop_if_failed : Text → Result (Unit {0}) × Engine S C → Result (Unit {0}) × Engine S C
  drop_if_failed name (ok _, e) = (ok tt, e)
  drop_if_failed name (err x, e) = (err x, record e { schedules = del name e.schedules })

  abbrev pub register_valid :
      (ℕ → Time) → ScheduleConfig → Result (Unit {0}) → Engine S C → Result (Unit {0}) × Engine S C
  register_valid now s (err x) e = (err x, e)
  register_valid now s (ok _) e =
      drop_if_failed s.name
        (register_entry now s (record e { schedules = put s.name s e.schedules }))

  -- registerSchedule
  unfoldable pub register_schedule :
      (ℕ → Time) → ScheduleConfig → Engine S C → Result (Unit {0}) × Engine S C
  unfolding register_entry
  register_schedule now s e =
      register_valid now (normalize_schedule s)
        (validate_schedule (normalize_schedule s) e.cfg.faktory) e

  -- DeleteSchedule
  unfoldable pub delete_schedule : Text → Engine S C → Result (Unit {0}) × Engine S C
  unfolding remove_schedule
  delete_schedule name e = elim (get name e.schedules) [
    | none ↦ (err (not_found name), e)
    | some s ↦
        let e1 = remove_schedule name e in
        let (r, store) = w.store.delete_schedule name e1.store in (r, record e1 { store = store })
  ]
