-- ===== src/Engine/Runs.antt =====
-- Trigger, TriggerManual and executeRun of internal/engine/engine.go. `now` has the readings of the
-- clock in a call, in their order.
use clock_relay.Engine.Pausing.{mark_one_time_completed}
use clock_relay.Engine.Events.{log_run_event}
use clock_relay.Engine.Registry.{is_once, not_found}
use clock_relay.Engine.Pruning.{maybe_prune_runs}
use clock_relay.Target.Http.{TargetOutcome}
use clock_relay.Config.Types.{ScheduleConfig, allows_concurrent_runs}
use clock_relay.Model.{Time, Run, running, skipped, succeeded, failed}
use clock_relay.Engine.World.{World, Engine, Execution}
use clock_relay.Base.{
  Text, str, ℕ, ◌++◌, Result, Option, take, if◌then◌else◌, err, Bool, get, none, [], some, ok, ◌&&◌,
  ◌∷◌, true, config_error, text_eq, false, ◌+◌, error_text,
}

abbrev skipped_message : Text
skipped_message = str "skipped because a previous run is still running"

module _ {S C : Type 0} (w : World S C) where
  -- runID
  unfoldable pub run_id : Text → Text → Time → Text
  run_id name triggered_by at =
      name
      ++ (str "-"
          ++ take 12 (
              w.platform.sha1_hex (
                name
                ++ (str "|" ++ (triggered_by ++ (str "|" ++ w.platform.format_rfc3339_nano at))))))

  -- The run that Trigger starts.
  unfoldable pub new_run : ScheduleConfig → Text → Time → Time → Run
  unfolding run_id
  new_run s triggered_by at started = record {
    id = run_id s.name triggered_by at;
    schedule_name = s.name;
    target_type = s.target.type;
    triggered_by = triggered_by;
    status = running;
    scheduled_at = at;
    started_at = started;
    finished_at = none;
    structured_output = [];
    error = [];
  }

  -- The run that Trigger records instead where a previous one still runs.
  unfoldable pub skipped_run : ScheduleConfig → Text → Time → Time → Time → Run
  unfolding new_run
  skipped_run s triggered_by at started finished = record (new_run s triggered_by at started) {
    status = skipped;
    finished_at = some finished;
    error = skipped_message;
  }

  abbrev pub complete_once : Time → ScheduleConfig → Text → Engine S C → Engine S C
  complete_once now s triggered_by e =
      if is_once s && text_eq triggered_by (str "scheduler")
      then (mark_one_time_completed w now s.name e).1
      else e

  abbrev pub started :
      Time → ScheduleConfig → Run → Result (Unit {0}) × S → Engine S C → Result Run × Engine S C
  started now s run (err x, store) e = (err x, record e { store = store })
  started now s run (ok _, store) e =
      let e1 = complete_once now s run.triggered_by (record e { store = store }) in
      (ok run, record e1 { pending = record { schedule = s; run = run } ∷ e1.pending })

  -- The second half of Trigger: the run is saved and its goroutine is started.
  unfoldable pub start_run :
      (ℕ → Time) → ScheduleConfig → Text → Time → Engine S C → Result Run × Engine S C
  unfolding new_run
  start_run now s triggered_by at e =
      let run = new_run s triggered_by at (now 0) in
      started (now 1) s run (w.store.save_run run e.store) e

  abbrev pub recorded :
      (ℕ → Time) → Run → Result (Unit {0}) × S → Engine S C → Result Run × Engine S C
  recorded now run (err x, store) e = (err x, record e { store = store })
  recorded now run (ok _, store) e =
      (ok run, maybe_prune_runs w (now 2) (now 3) (log_run_event run (record e { store = store })))

  -- Trigger where a previous run still runs.
  unfoldable pub skip_run :
      (ℕ → Time) → ScheduleConfig → Text → Time → Engine S C → Result Run × Engine S C
  unfolding skipped_run
  skip_run now s triggered_by at e =
      let run = skipped_run s triggered_by at (now 0) (now 1) in
      recorded now run (w.store.save_run run e.store) e

  abbrev pub skip_or_start :
      (ℕ → Time) → ScheduleConfig → Text → Time → Result Bool → Engine S C → Result Run × Engine S C
  skip_or_start now s triggered_by at (err x) e = (err x, e)
  skip_or_start now s triggered_by at (ok true) e = skip_run now s triggered_by at e
  skip_or_start now s triggered_by at (ok false) e = start_run now s triggered_by at e

  abbrev pub trigger_found :
      (ℕ → Time) → Text → Text → Time → Option ScheduleConfig → Engine S C → Result Run × Engine S C
  trigger_found now name triggered_by at none e = (err (not_found name), e)
  trigger_found now name triggered_by at (some s) e =
      if allows_concurrent_runs s
      then start_run now s triggered_by at e
      else skip_or_start now s triggered_by at (w.store.has_running_run s.name e.store) e

  -- Trigger
  unfoldable pub trigger : (ℕ → Time) → Text → Text → Time → Engine S C → Result Run × Engine S C
  unfolding allows_concurrent_runs
  trigger now name triggered_by at e =
      trigger_found now name triggered_by at (get name e.schedules) e

  abbrev pub trigger_unpaused :
      (ℕ → Time) → Text → Option ScheduleConfig → Engine S C → Result Run × Engine S C
  trigger_unpaused now name none e = (err (not_found name), e)
  trigger_unpaused now name (some s) e =
      if s.paused
      then (err (config_error (str "cannot run paused job: " ++ name)), e)
      else trigger (λ k. now (k + 1)) name (str "manual") (now 0) e

  -- TriggerManual
  unfoldable pub trigger_manual : (ℕ → Time) → Text → Engine S C → Result Run × Engine S C
  trigger_manual now name e = trigger_unpaused now name (get name e.schedules) e

  -- The run with the outcome of its target.
  unfoldable pub finished_run : Time → TargetOutcome → Run → Run
  finished_run now outcome run = elim outcome.error [
    | none ↦ record run {
      finished_at = some now;
      structured_output = outcome.structured_output;
      status = succeeded;
    }
    | some x ↦ record run {
      finished_at = some now;
      structured_output = outcome.structured_output;
      status = failed;
      error = error_text x;
    }
  ]

  -- executeRun; an error of UpdateRun is only logged
  unfoldable pub execute_run : (ℕ → Time) → Execution → Engine S C → Engine S C
  unfolding finished_run
  execute_run now x e =
      let outcome = w.trigger_target x.schedule x.run e.cfg.faktory in
      let run = finished_run (now 0) outcome x.run in
      maybe_prune_runs w (now 1) (now 2)
        (log_run_event run (record e { store = (w.store.update_run run e.store).1 }))
