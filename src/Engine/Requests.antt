-- ===== src/Engine/Requests.antt =====
-- The engine under any sequence of calls: the registry stays consistent from NewEngine on.
use clock_relay.Engine.Switching.{toggle_pause-IsConsistent, mark_one_time_completed-IsConsistent}
use clock_relay.Engine.Pausing.{toggle_pause}
use clock_relay.Engine.Startup.{clear_runs}
use clock_relay.Engine.Consistency.{
  stored-IsConsistent, save_schedule-IsConsistent, delete_schedule-IsConsistent,
}
use clock_relay.Engine.Registry.{delete_schedule, is_once}
use clock_relay.Engine.Runs.{
  skip_run, trigger, execute_run, trigger_manual, start_run, trigger_found, trigger_unpaused,
  recorded, started, skip_or_start,
}
use clock_relay.Engine.Entries.{IsConsistent}
use clock_relay.Engine.Saving.{save_schedule}
use clock_relay.Config.Types.{ScheduleConfig}
use clock_relay.Engine.Events.{log_run_event}
use clock_relay.Engine.Pruning.{maybe_prune_runs}
use clock_relay.Model.{Time, Run}
use clock_relay.Engine.World.{World, Engine, CronLaws, Execution}
use clock_relay.Base.{
  Text, ℕ, List, Option, ◌∷◌, ◌≡◌, ◌∙◌, arith, none, [], Result, some, Bool, suc, err, Bool-cases,
  refl, zero, ok, inl, true, false, inr, get, ◌&&◌, str, text_eq,
}

-- The calls that change the engine. A finished execution is the `i`-th of those that are pending.
pub data Request : Type 0 where
  save : (ℕ → Time) → Text → ScheduleConfig → Request
  delete : Text → Request
  toggle : (ℕ → Time) → Text → Request
  fire : (ℕ → Time) → Text → Text → Time → Request
  fire_manual : (ℕ → Time) → Text → Request
  finish : (ℕ → Time) → ℕ → Request
  clear : Request

-- The `i`-th entry and the others.
abbrev pub pick {ℓ} : {A : Type ℓ} → ℕ → List A → Option (A × List A)
pick i [] = none
pick zero (x ∷ xs) = some (x, xs)
pick (suc i) (x ∷ xs) = elim (pick i xs) [ none ↦ none | some (y, ys) ↦ some (y, x ∷ ys) ]

module _ {S C : Type 0} (w : World S C) where
  abbrev pub finish_picked :
      (ℕ → Time) → Option (Execution × List Execution) → Engine S C → Engine S C
  finish_picked now none e = e
  finish_picked now (some (x, rest)) e = execute_run w now x (record e { pending = rest })

  unfoldable pub perform : Request → Engine S C → Engine S C
  perform (save now original s) e = (save_schedule w now original s e).1
  perform (delete name) e = (delete_schedule w name e).1
  perform (toggle now name) e = (toggle_pause w now name e).1
  perform (fire now name by at) e = (trigger w now name by at e).1
  perform (fire_manual now name) e = (trigger_manual w now name e).1
  perform (finish now i) e = finish_picked now (pick i e.pending) e
  perform clear e = (clear_runs w e).1

  unfoldable pub perform_all : List Request → Engine S C → Engine S C
  perform_all [] e = e
  perform_all (r ∷ rs) e = perform_all rs (perform r e)

  -- The parts of the engine that the registry rests on are the same.
  pub record SameRegistry (e e' : Engine S C) : Type 0 where
    pub cron : e'.cron ≡ e.cron
    pub schedules : e'.schedules ≡ e.schedules
    pub entry_ids : e'.entry_ids ≡ e.entry_ids

  SameRegistry-trans : {a b c : Engine S C} → SameRegistry a b → SameRegistry b c → SameRegistry a c
  SameRegistry-trans p q = record {
    cron = q.cron ∙ p.cron;
    schedules = q.schedules ∙ p.schedules;
    entry_ids = q.entry_ids ∙ p.entry_ids;
  }

  pub same-IsConsistent :
      {e e' : Engine S C} → SameRegistry e e' → IsConsistent w e → IsConsistent w e'
  same-IsConsistent h c = record {
    owned = record {
      of_id = λ k id p. rw h.cron (c.owned.of_id k id (rw h.entry_ids at p));
      to_id = λ id k p. rw h.entry_ids (c.owned.to_id id k (rw h.cron at p));
    };
    named = λ k. rw h.schedules (c.named k);
    armed = λ k. rw (h.schedules, h.entry_ids) (c.armed k);
  }

  maybe_prune-SameRegistry :
      (now later : Time) (e : Engine S C) → SameRegistry e (maybe_prune_runs w now later e)
  unfolding maybe_prune_runs
  maybe_prune-SameRegistry now later e = record {
    cron = ground arith;
    schedules = ground arith;
    entry_ids = ground arith;
  }

  log-SameRegistry : (run : Run) (e : Engine S C) → SameRegistry e (log_run_event run e)
  unfolding log_run_event
  log-SameRegistry run e = record {
    cron = ground arith;
    schedules = ground arith;
    entry_ids = ground arith;
  }

  logged-IsConsistent :
      (now later : Time) (run : Run) (e : Engine S C) (store : S)
      → IsConsistent w e
      → IsConsistent w
          (maybe_prune_runs w now later (log_run_event run (record e { store = store })))
  logged-IsConsistent now later run e store c =
      same-IsConsistent
        (SameRegistry-trans (log-SameRegistry run (record e { store = store }))
          (maybe_prune-SameRegistry now later _))
        (stored-IsConsistent w e store c)

  recorded-IsConsistent :
      (now : ℕ → Time) (run : Run) (out : Result (Unit {0}) × S) (e : Engine S C)
      → IsConsistent w e
      → IsConsistent w (recorded w now run out e).1
  recorded-IsConsistent now run (err x, store) e c = stored-IsConsistent w e store c
  recorded-IsConsistent now run (ok u, store) e c =
      logged-IsConsistent (now 2) (now 3) run e store c

module _ {S C : Type 0} (w : World S C) (laws : CronLaws w.cron) where
  started-IsConsistent :
      (now : Time) (s : ScheduleConfig) (run : Run) (out : Result (Unit {0}) × S) (e : Engine S C)
      → IsConsistent w e
      → IsConsistent w (started w now s run out e).1
  started-IsConsistent now s run (err x, store) e c = stored-IsConsistent w e store c
  started-IsConsistent now s run (ok u, store) e c =
      let c1 = stored-IsConsistent w e store c in
      elim (Bool-cases (is_once s && text_eq run.triggered_by (str "scheduler"))) [
        | inl once ↦ rw once (
            same-IsConsistent w (record { cron = refl; schedules = refl; entry_ids = refl })
              (mark_one_time_completed-IsConsistent w laws now s.name _ c1))
        | inr plain ↦
            rw plain
              (same-IsConsistent w (record { cron = refl; schedules = refl; entry_ids = refl }) c1)
      ]

  chosen-IsConsistent :
      (now : ℕ → Time) (s : ScheduleConfig) (by : Text) (at : Time) (r : Result Bool)
      (e : Engine S C)
      → IsConsistent w e
      → IsConsistent w (skip_or_start w now s by at r e).1
  unfolding skip_run start_run
  chosen-IsConsistent now s by at (err x) e c = c
  chosen-IsConsistent now s by at (ok true) e c = recorded-IsConsistent w now _ _ e c
  chosen-IsConsistent now s by at (ok false) e c = started-IsConsistent (now 1) s _ _ e c

  trigger-IsConsistent :
      (now : ℕ → Time) (n by : Text) (at : Time) (e : Engine S C)
      → IsConsistent w e
      → IsConsistent w (trigger w now n by at e).1
  unfolding trigger
  trigger-IsConsistent now n by at e c = found (get n e.schedules)
    where
      found : (o : Option ScheduleConfig) → IsConsistent w (trigger_found w now n by at o e).1
      found none = c
      found (some s) = elim (Bool-cases s.allow_concurrent) [
        | inl free ↦ simp free (chosen-IsConsistent now s by at (ok false) e c)
        | inr guarded ↦
            simp guarded
              (chosen-IsConsistent now s by at (w.store.has_running_run s.name e.store) e c)
      ]

  manual-IsConsistent :
      (now : ℕ → Time) (n : Text) (o : Option ScheduleConfig) (e : Engine S C)
      → IsConsistent w e
      → IsConsistent w (trigger_unpaused w now n o e).1
  manual-IsConsistent now n none e c = c
  manual-IsConsistent now n (some s) e c = elim (Bool-cases s.paused) [
    | inl paused ↦ simp paused c
    | inr free ↦ simp free (trigger-IsConsistent _ n (str "manual") (now 0) e c)
  ]

  finish-IsConsistent :
      (now : ℕ → Time) (o : Option (Execution × List Execution)) (e : Engine S C)
      → IsConsistent w e
      → IsConsistent w (finish_picked w now o e)
  unfolding execute_run
  finish-IsConsistent now none e c = c
  finish-IsConsistent now (some (x, rest)) e c =
      logged-IsConsistent w (now 1) (now 2) _ (record e { pending = rest }) _
        (same-IsConsistent w (record { cron = refl; schedules = refl; entry_ids = refl }) c)

  pub perform-IsConsistent :
      (r : Request) (e : Engine S C) → IsConsistent w e → IsConsistent w (perform w r e)
  unfolding perform trigger_manual clear_runs
  perform-IsConsistent (save now original s) e c =
      save_schedule-IsConsistent w laws now original s e c
  perform-IsConsistent (delete name) e c = delete_schedule-IsConsistent w laws name e c
  perform-IsConsistent (toggle now name) e c = toggle_pause-IsConsistent w laws now name e c
  perform-IsConsistent (fire now name by at) e c = trigger-IsConsistent now name by at e c
  perform-IsConsistent (fire_manual now name) e c =
      manual-IsConsistent now name (get name e.schedules) e c
  perform-IsConsistent (finish now i) e c = finish-IsConsistent now (pick i e.pending) e c
  perform-IsConsistent clear e c = stored-IsConsistent w e _ c
