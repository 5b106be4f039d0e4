-- ===== src/Engine/Startup.antt =====
-- NewEngine of internal/engine/engine.go, and the methods that only read or pass on.
use clock_relay.Store.Memory.{values}
use clock_relay.Config.Validate.{validate_run_retention, validate_run_logging}
use clock_relay.Engine.Registry.{register_schedule}
use clock_relay.Store.Interface.{name_le}
use clock_relay.Engine.Pruning.{prune_runs, mark_run_pruned}
use clock_relay.Base.Sorting.{sort}
use clock_relay.Config.Defaults.{apply_defaults}
use clock_relay.Model.{Time, Run}
use clock_relay.Base.Int.{ℤ}
use clock_relay.Config.Types.{Config, ScheduleConfig}
use clock_relay.Engine.World.{World, Engine}
use clock_relay.Base.{
  List, ℕ, Bool, [], Result, ok, true, err, if◌then◌else◌, get, ◌∷◌, ◌&&◌, ◌>>◌, false, ◌+◌, not,
  none, map, some,
}

abbrev pub is_nil {ℓ} : {A : Type ℓ} → List A → Bool
is_nil [] = true
is_nil (x ∷ l) = false

-- Of two steps, the second counts only if the first succeeds.
abbrev pub and_then {ℓ} :
    {A : Type ℓ} → Result (Unit {0}) × A → Result (Unit {0}) × A → Result (Unit {0}) × A
and_then (err x, a) rest = (err x, a)
and_then (ok _, a) rest = rest

module _ {S C : Type 0} (w : World S C) where
  -- The loop that seeds an empty store with the configured schedules.
  unfoldable pub save_all : List ScheduleConfig → S → Result (Unit {0}) × S
  save_all [] store = (ok tt, store)
  save_all (s ∷ l) store =
      let out = w.store.save_schedule s store in and_then out (save_all l out.1)

  -- The loop that registers the schedules.
  unfoldable pub register_all :
      (ℕ → Time) → List ScheduleConfig → Engine S C → Result (Unit {0}) × Engine S C
  register_all now [] e = (ok tt, e)
  register_all now (s ∷ l) e =
      let out = register_schedule w now s e in
      and_then out (register_all (λ k. now (k + 2)) l out.1)

  -- The engine before its first prune.
  abbrev pub empty_engine : Config → S → Engine S C
  empty_engine cfg store = record {
    cfg = cfg;
    store = store;
    cron = w.cron.new_cron;
    schedules = [];
    entry_ids = [];
    last_run_prune = 0;
    runs_since_prune = 0;
    pending = [];
    events = [];
  }

  abbrev pub load_schedules :
      (ℕ → Time)
      → Config
      → List ScheduleConfig
      → Result (Unit {0}) × S
      → Result (Unit {0}) × Engine S C
  load_schedules now cfg schedules (err x, store) = (err x, empty_engine cfg store)
  load_schedules now cfg schedules (ok _, store) =
      let out = prune_runs w (now 0) (empty_engine cfg store) in
      and_then out (register_all (λ k. now (k + 2)) schedules (mark_run_pruned w (now 1) out.1))

  abbrev pub seed_or_load :
      (ℕ → Time) → Config → List ScheduleConfig → S → Result (Unit {0}) × Engine S C
  seed_or_load now cfg listed store =
      if is_nil listed && not (is_nil cfg.schedules)
      then load_schedules now cfg cfg.schedules (save_all cfg.schedules store)
      else load_schedules now cfg listed (ok tt, store)

  abbrev pub with_listed :
      (ℕ → Time) → Config → Result (List ScheduleConfig) → S → Result (Unit {0}) × Engine S C
  with_listed now cfg (err x) store = (err x, empty_engine cfg store)
  with_listed now cfg (ok listed) store = seed_or_load now cfg listed store

  -- NewEngine; beside an error stands the engine as far as it was built, for its store.
  unfoldable pub new_engine : (ℕ → Time) → Config → S → Result (Unit {0}) × Engine S C
  unfolding save_all register_all
  new_engine now config store =
      let cfg = apply_defaults config in
      with_listed now cfg
        (do
          validate_run_retention cfg.run_retention
          validate_run_logging cfg.run_logging
          w.cron.new_parser
          w.store.list_schedules store)
        store

  abbrev pub with_entry : Engine S C → ScheduleConfig → ScheduleConfig
  with_entry e s = elim (get s.name e.entry_ids) [
    | none ↦ s
    | some id ↦ record s {
      next_run = w.cron.entry_next e.cron id;
      previous_run = w.cron.entry_prev e.cron id;
    }
  ]

  -- Schedules
  unfoldable pub schedules : Engine S C → List ScheduleConfig
  schedules e = sort name_le (map (with_entry e) (values e.schedules))

  -- Runs
  unfoldable pub runs : ℤ → Engine S C → Result (List Run)
  runs limit e = w.store.list_runs limit e.store

  -- ClearRuns
  unfoldable pub clear_runs : Engine S C → Result (Unit {0}) × Engine S C
  clear_runs e = let (r, store) = w.store.clear_runs e.store in (r, record e { store = store })
