-- ===== src/Engine/Collision.antt =====
-- Triggers of one minute share the id of a run: what that does to the guard against overlaps, over
-- the memory store.
use clock_relay.Engine.Registry.{is_once}
use clock_relay.Config.Types.{allows_concurrent_runs, ScheduleConfig}
use clock_relay.Model.{Run, Time, running, is_running}
use clock_relay.Engine.Events.{log_run_event}
use clock_relay.Engine.Pruning.{maybe_prune_runs, should_prune}
use clock_relay.Engine.World.{World, Engine, Execution}
use clock_relay.Base.{
  put, Text, Map, ◌≡◌, IsMap, ℕ, false, arith, true, get, text_eq_refl, some, ◌∷◌, [], refl,
  Bool-cases, inl, inr, put-IsMap, ◌∙◌, ap,
}
use clock_relay.Store.Memory.{memory_methods, MemoryStore, any_running, has_running_run, save_run}
use clock_relay.Store.Memory.Pruning.{has_running_run-prune_runs}
use clock_relay.Engine.Recorded.{pending-log, pending-maybe_prune}
use clock_relay.Store.Memory
use clock_relay.Engine.Startup.{clear_runs}
use clock_relay.Engine.Runs.{trigger, run_id, start_run, new_run, skip_run, skipped_run}

any_running-put_running :
    (name id : Text) (r : Run) (m : Map Run)
    → r.schedule_name ≡ name
    → r.status ≡ running
    → any_running name (put id r m) ≡ true
unfolding any_running put
any_running-put_running name id r [] named live = rw (named, live, text_eq_refl) refl
any_running-put_running name id r ((j, q) ∷ m) named live =
    let rest = any_running-put_running name id r m named live in
    ground (arith, named, live, text_eq_refl name)

any_running-put_over :
    (name id : Text) (r q : Run) (m : Map Run)
    → any_running name m ≡ false
    → is_running q.status ≡ false
    → any_running name (put id q (put id r m)) ≡ false
unfolding any_running put
any_running-put_over name id r q [] free ended = ground (arith, text_eq_refl id)
any_running-put_over name id r q ((j, p) ∷ m) free ended =
    let rest = any_running-put_over name id r q m in ground (arith, text_eq_refl id, rest)

module _ {C : Type 0} (given : World MemoryStore C) where
  -- The world with the memory store as its store.
  abbrev pub over_memory : World MemoryStore C
  over_memory = record given { store = memory_methods }

  any_running-maybe_prune :
      (now later : Time) (e : Engine MemoryStore C) (name : Text)
      → IsMap e.store.runs
      → any_running name (maybe_prune_runs over_memory now later e).store.runs
        ≡ any_running name e.store.runs
  unfolding maybe_prune_runs memory_methods has_running_run
  any_running-maybe_prune now later e name keys =
      elim (Bool-cases (should_prune over_memory now e)) [
        | inl due ↦
            let same = has_running_run-prune_runs e.store e.cfg.run_retention later keys name in
            rw due cc
        | inr early ↦ rw early
      ]

  schedules-maybe_prune :
      (now later : Time) (e : Engine MemoryStore C)
      → (maybe_prune_runs over_memory now later e).schedules ≡ e.schedules
  unfolding maybe_prune_runs
  schedules-maybe_prune now later e = ground arith

  log-store : (run : Run) (e : Engine MemoryStore C) → (log_run_event run e).store ≡ e.store
  unfolding log_run_event
  log-store run e = ground arith

  schedules-log :
      (run : Run) (e : Engine MemoryStore C) → (log_run_event run e).schedules ≡ e.schedules
  unfolding log_run_event
  schedules-log run e = ground arith

  -- A trigger of a schedule without a running run starts one.
  trigger_free :
      (now : ℕ → Time) (name by : Text) (at : Time) (e : Engine MemoryStore C) (s : ScheduleConfig)
      → get name e.schedules ≡ some s
      → s.allow_concurrent ≡ false
      → is_once s ≡ false
      → any_running s.name e.store.runs ≡ false
      → (trigger over_memory now name by at e).1 ≡ record e {
        store = record (e.store) {
          runs =
              put
                (run_id over_memory s.name by at)
                (new_run over_memory s by at (now 0))
                e.store.runs;
        };
        pending = record { schedule = s; run = new_run over_memory s by at (now 0) } ∷ e.pending;
      }
  unfolding trigger start_run allows_concurrent_runs memory_methods has_running_run save_run
  trigger_free now name by at e s found guarded lasting free = simp (found, guarded, free, lasting)

  -- What a trigger of a schedule with a running run leaves.
  trigger_busy :
      (now : ℕ → Time) (name by : Text) (at : Time) (e : Engine MemoryStore C) (s : ScheduleConfig)
      → get name e.schedules ≡ some s
      → s.allow_concurrent ≡ false
      → any_running s.name e.store.runs ≡ true
      → IsMap e.store.runs
      → let e1 = (trigger over_memory now name by at e).1 in
        (e1.pending ≡ e.pending)
        × (e1.schedules ≡ e.schedules)
        × (any_running s.name e1.store.runs
            ≡ any_running s.name (
                put
                  (run_id over_memory s.name by at)
                  (skipped_run over_memory s by at (now 0) (now 1))
                  e.store.runs))
  unfolding trigger skip_run allows_concurrent_runs memory_methods has_running_run save_run
  trigger_busy now name by at e s found guarded busy keys =
      let run = skipped_run over_memory s by at (now 0) (now 1) in
      let e1 = record e { store = record (e.store) { runs = put run.id run e.store.runs } } in
      let e2 = log_run_event run e1 in
      let stored = log-store run e1 in
      let same =
        any_running-maybe_prune (now 2) (now 3) e2 s.name
          (rw stored (put-IsMap run.id run e.store.runs keys)) in
      simp (found, guarded, busy)
        (
          pending-maybe_prune over_memory (now 2) (now 3) e2 ∙ pending-log over_memory run e1,
          schedules-maybe_prune (now 2) (now 3) e2 ∙ schedules-log run e1,
          same ∙ ap (λ t. any_running s.name t.runs) stored,
        )

  abbrev pub execution : ScheduleConfig → Text → Time → Time → Execution
  execution s by at started = record { schedule = s; run = new_run over_memory s by at started }

  -- Take a schedule that is not a one-time schedule, does not allow concurrent runs and has no running
  -- run, in an engine over a memory store whose map of runs has unique keys. Three triggers of it by the
  -- same cause for one instant add two executions to the pending ones: the run that the second trigger
  -- records as skipped takes the place of the running one, which has the same id.
  pub same_instant_overlaps :
      (first second third : ℕ → Time) (name by : Text) (at : Time) (e : Engine MemoryStore C)
      (s : ScheduleConfig)
      → get name e.schedules ≡ some s
      → s.allow_concurrent ≡ false
      → is_once s ≡ false
      → any_running s.name e.store.runs ≡ false
      → IsMap e.store.runs
      → let e1 = (trigger over_memory first name by at e).1 in
        let e2 = (trigger over_memory second name by at e1).1 in
        (trigger over_memory third name by at e2).1.pending
        ≡ execution s by at (third 0) ∷ execution s by at (first 0) ∷ e.pending
  unfolding new_run skipped_run
  same_instant_overlaps first second third name by at e s found guarded lasting free keys =
      let run = new_run over_memory s by at (first 0) in
      let e1 : Engine MemoryStore C = record e {
        store = record (e.store) { runs = put run.id run e.store.runs };
        pending = execution s by at (first 0) ∷ e.pending;
      } in
      let started = trigger_free first name by at e s found guarded lasting free in
      let (pending, schedules, left) =
        trigger_busy second name by at e1 s found guarded
          (any_running-put_running s.name run.id run e.store.runs refl refl)
          (put-IsMap run.id run e.store.runs keys) in
      let again =
        trigger_free third name by at (trigger over_memory second name by at e1).1 s
          (rw schedules found) guarded lasting
          (left ∙ any_running-put_over s.name run.id run _ e.store.runs free refl) in
      rw (started, again) (ap (λ l. execution s by at (third 0) ∷ l) pending)

  -- ClearRuns of the memory store also removes the runs that are still running: the next trigger of a
  -- schedule that is not a one-time schedule and does not allow concurrent runs starts an execution,
  -- whatever executions are pending.
  pub clear_runs_overlaps :
      (now : ℕ → Time) (name by : Text) (at : Time) (e : Engine MemoryStore C) (s : ScheduleConfig)
      → get name e.schedules ≡ some s
      → s.allow_concurrent ≡ false
      → is_once s ≡ false
      → (trigger over_memory now name by at (clear_runs over_memory e).1).1.pending
        ≡ execution s by at (now 0) ∷ e.pending
  unfolding clear_runs memory_methods any_running Memory.clear_runs
  clear_runs_overlaps now name by at e s found guarded lasting =
      rw (trigger_free now name by at (clear_runs over_memory e).1 s found guarded lasting refl)
        refl
