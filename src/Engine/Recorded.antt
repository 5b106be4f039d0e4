-- ===== src/Engine/Recorded.antt =====
-- What the saves of Trigger leave in the store, and among the pending executions.
use clock_relay.Config.Types.{ScheduleConfig}
use clock_relay.Engine.Registry.{remove_entry, is_once, is_some}
use clock_relay.Model.{Time, Run}
use Prim.Native.Nat.{ℕ}
use clock_relay.Engine.Pausing.{mark_one_time_completed}
use clock_relay.Engine.Events.{log_run_event}
use clock_relay.Engine.Pruning.{maybe_prune_runs, should_prune}
use clock_relay.Base.{
  ℕ, Text, Result, ◌≡◌, arith, ok, err, get, some, true, ◌⊎◌, inl, ◌∙◌, inr, Bool-cases, ap, refl,
  ◌&&◌, text_eq, str, Option-cases, not, ◌||◌, Map,
}
use clock_relay.Engine.World.{World, Engine}
use clock_relay.Engine.Runs.{recorded, complete_once}

-- The store after a skipped run: as SaveRun leaves it, or pruned after that.
abbrev pub IsRecorded : {S C : Type 0} → World S C → Time → Engine S C → S → S → Type 0
IsRecorded w later e saved store =
    (store ≡ saved) ⊎ (store ≡ (w.store.prune_runs e.cfg.run_retention later saved).1)

-- The store after a run has been started: as SaveRun leaves it, or, for a one-time schedule that the
-- scheduler fires, as the save of the schedule of its name as completed leaves it after that.
abbrev pub IsRunningIn :
    {S C : Type 0} → World S C → Time → Map ScheduleConfig → ScheduleConfig → Text → S → S → Type 0
IsRunningIn w now schedules s by saved store =
    (store ≡ saved)
    ⊎ ((is_once s && text_eq by (str "scheduler") ≡ true)
        × (q : ScheduleConfig) × (get s.name schedules ≡ some q)
        × (store ≡ (w.store.save_schedule (record q { completed_at = some now }) saved).1))

module _ {S C : Type 0} (w : World S C) where
  pub pending-maybe_prune :
      (now later : Time) (e : Engine S C) → (maybe_prune_runs w now later e).pending ≡ e.pending
  unfolding maybe_prune_runs
  pending-maybe_prune now later e = ground arith

  pub pending-log : (run : Run) (e : Engine S C) → (log_run_event run e).pending ≡ e.pending
  unfolding log_run_event
  pending-log run e = ground arith

  pending-mark_one_time :
      (now : Time) (name : Text) (e : Engine S C)
      → (mark_one_time_completed w now name e).1.pending ≡ e.pending
  unfolding mark_one_time_completed remove_entry
  pending-mark_one_time now name e = ground arith

  pub recorded-pending :
      (now : ℕ → Time) (run : Run) (out : Result (Unit {0}) × S) (e : Engine S C)
      → (recorded w now run out e).1.pending ≡ e.pending
  recorded-pending now run (err x, store) e = refl
  recorded-pending now run (ok u, store) e =
      let e1 = record e { store = store } in
      pending-maybe_prune (now 2) (now 3) (log_run_event run e1) ∙ pending-log run e1

  log-same :
      (run : Run) (e : Engine S C)
      → ((log_run_event run e).store ≡ e.store) × ((log_run_event run e).cfg ≡ e.cfg)
  unfolding log_run_event
  log-same run e = (ground arith, ground arith)

  maybe_prune-IsRecorded :
      (now later : Time) (e : Engine S C)
      → IsRecorded w later e e.store (maybe_prune_runs w now later e).store
  unfolding maybe_prune_runs
  maybe_prune-IsRecorded now later e = elim (Bool-cases (should_prune w now e)) [
    | inl due ↦ rw due (inr refl)
    | inr early ↦ rw early (inl refl)
  ]

  pub recorded-IsRecorded :
      (now : ℕ → Time) (run : Run) (store : S) (e : Engine S C)
      → IsRecorded w (now 3) e store (recorded w now run (ok tt, store) e).1.store
  recorded-IsRecorded now run store e =
      let e1 = record e { store = store } in
      let (stored, cfg) = log-same run e1 in
      elim (maybe_prune-IsRecorded (now 2) (now 3) (log_run_event run e1)) [
        | inl same ↦ inl (same ∙ stored)
        | inr pruned ↦ inr (
            pruned
            ∙ ap (λ c. (w.store.prune_runs c.run_retention (now 3) (log_run_event run e1).store).1)
                cfg
            ∙ ap (λ t. (w.store.prune_runs e.cfg.run_retention (now 3) t).1) stored)
      ]

  pub complete_once-pending :
      (now : Time) (s : ScheduleConfig) (by : Text) (e : Engine S C)
      → (complete_once w now s by e).pending ≡ e.pending
  complete_once-pending now s by e = elim (Bool-cases (is_once s && text_eq by (str "scheduler"))) [
    | inl once ↦ rw once (pending-mark_one_time now s.name e)
    | inr other ↦ rw other
  ]

  mark_one_time-store :
      (now : Time) (name : Text) (e : Engine S C)
      → ((mark_one_time_completed w now name e).1.store ≡ e.store)
        ⊎ ((q : ScheduleConfig) × (get name e.schedules ≡ some q)
            × ((mark_one_time_completed w now name e).1.store
                ≡ (w.store.save_schedule (record q { completed_at = some now }) e.store).1))
  unfolding mark_one_time_completed remove_entry
  mark_one_time-store now name e = elim (Option-cases (get name e.schedules)) [
    | inl missing ↦ inl (ground (arith, missing))
    | inr (q, found) ↦ elim (Bool-cases (not (is_once q) || is_some q.completed_at)) [
      | inl keep ↦ inl (ground (arith, found, keep))
      | inr done ↦ inr (q, found, ground (arith, found, done))
    ]
  ]

  once_store :
      (now : Time) (s : ScheduleConfig) (by : Text) (e : Engine S C)
      → is_once s && text_eq by (str "scheduler") ≡ true
      → (complete_once w now s by e).store ≡ (mark_one_time_completed w now s.name e).1.store
  once_store now s by e once = rw once refl

  once-IsRunningIn :
      (now : Time) (s : ScheduleConfig) (by : Text) (e : Engine S C)
      → is_once s && text_eq by (str "scheduler") ≡ true
      → ((mark_one_time_completed w now s.name e).1.store ≡ e.store)
        ⊎ ((q : ScheduleConfig) × (get s.name e.schedules ≡ some q)
            × ((mark_one_time_completed w now s.name e).1.store
                ≡ (w.store.save_schedule (record q { completed_at = some now }) e.store).1))
      → IsRunningIn w now e.schedules s by e.store (complete_once w now s by e).store
  once-IsRunningIn now s by e once (inl same) = inl (once_store now s by e once ∙ same)
  once-IsRunningIn now s by e once (inr (q, found, saved)) =
      inr (once, q, found, once_store now s by e once ∙ saved)

  pub complete_once-IsRunningIn :
      (now : Time) (s : ScheduleConfig) (by : Text) (e : Engine S C)
      → IsRunningIn w now e.schedules s by e.store (complete_once w now s by e).store
  complete_once-IsRunningIn now s by e =
      elim (Bool-cases (is_once s && text_eq by (str "scheduler"))) [
        | inl once ↦ once-IsRunningIn now s by e once (mark_one_time-store now s.name e)
        | inr other ↦ rw other (inl refl)
      ]
