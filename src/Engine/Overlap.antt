-- ===== src/Engine/Overlap.antt =====
-- Schedules whose runs must not overlap.
use clock_relay.Config.Types.{ScheduleConfig}
use clock_relay.Engine.Registry.{not_found}
use clock_relay.Model.{Time, Run}
use Prim.Native.Nat.{ℕ}
use clock_relay.Base.{
  ℕ, Text, Result, ◌≡◌, Error, ok, err, get, ◌∷◌, some, false, true, ◌⊎◌, inl, Bool, Option, inr,
  Bool-cases, ap, refl, none,
}
use clock_relay.Engine.Recorded.{
  IsRecorded, IsRunningIn, recorded-pending, recorded-IsRecorded, complete_once-pending,
  complete_once-IsRunningIn,
}
use clock_relay.Engine.World.{World, Engine}
use clock_relay.Config.Types.{allows_concurrent_runs}
use clock_relay.Engine.Runs.{
  trigger, skip_run, start_run, new_run, skipped_run, recorded, started, skip_or_start,
  trigger_found,
}

-- What became of a trigger: `s` is the schedule of the name and `out` the result.
pub data Triggered {S C : Type 0} (w : World S C) (now : ℕ → Time) (name by : Text) (at : Time)
    (e : Engine S C) (out : Result Run × Engine S C) : Type 0 where
  unknown :
      get name e.schedules ≡ none
      → out ≡ (err (not_found name), e)
      → Triggered w now name by at e out
  unanswered :
      (s : ScheduleConfig) (x : Error)
      → get name e.schedules ≡ some s
      → s.allow_concurrent ≡ false
      → w.store.has_running_run s.name e.store ≡ err x
      → out ≡ (err x, e)
      → Triggered w now name by at e out
  not_recorded :
      (s : ScheduleConfig) (x : Error) (saved : S)
      → get name e.schedules ≡ some s
      → s.allow_concurrent ≡ false
      → w.store.has_running_run s.name e.store ≡ ok true
      → w.store.save_run (skipped_run w s by at (now 0) (now 1)) e.store ≡ (err x, saved)
      → out ≡ (err x, record e { store = saved })
      → Triggered w now name by at e out
  was_skipped :
      (s : ScheduleConfig) (saved : S)
      → get name e.schedules ≡ some s
      → s.allow_concurrent ≡ false
      → w.store.has_running_run s.name e.store ≡ ok true
      → w.store.save_run (skipped_run w s by at (now 0) (now 1)) e.store ≡ (ok tt, saved)
      → out.0 ≡ ok (skipped_run w s by at (now 0) (now 1))
      → out.1.pending ≡ e.pending
      → IsRecorded w (now 3) e saved out.1.store
      → Triggered w now name by at e out
  not_started :
      (s : ScheduleConfig) (x : Error) (saved : S)
      → get name e.schedules ≡ some s
      → (s.allow_concurrent ≡ true) ⊎ (w.store.has_running_run s.name e.store ≡ ok false)
      → w.store.save_run (new_run w s by at (now 0)) e.store ≡ (err x, saved)
      → out ≡ (err x, record e { store = saved })
      → Triggered w now name by at e out
  was_started :
      (s : ScheduleConfig) (saved : S)
      → get name e.schedules ≡ some s
      → (s.allow_concurrent ≡ true) ⊎ (w.store.has_running_run s.name e.store ≡ ok false)
      → w.store.save_run (new_run w s by at (now 0)) e.store ≡ (ok tt, saved)
      → out.0 ≡ ok (new_run w s by at (now 0))
      → out.1.pending ≡ record { schedule = s; run = new_run w s by at (now 0) } ∷ e.pending
      → IsRunningIn w (now 1) e.schedules s by saved out.1.store
      → Triggered w now name by at e out

module _ {S C : Type 0} (w : World S C) where
  skipped-Triggered :
      (now : ℕ → Time) (name by : Text) (at : Time) (e : Engine S C) (s : ScheduleConfig)
      (out : Result (Unit {0}) × S)
      → w.store.save_run (skipped_run w s by at (now 0) (now 1)) e.store ≡ out
      → get name e.schedules ≡ some s
      → s.allow_concurrent ≡ false
      → w.store.has_running_run s.name e.store ≡ ok true
      → Triggered w now name by at e (recorded w now (skipped_run w s by at (now 0) (now 1)) out e)
  skipped-Triggered now name by at e s (err x, store) saved found guarded busy =
      not_recorded s x store found guarded busy saved refl
  skipped-Triggered now name by at e s (ok u, store) saved found guarded busy =
      let run = skipped_run w s by at (now 0) (now 1) in
      was_skipped s store found guarded busy saved refl (recorded-pending w now run (ok u, store) e)
        (recorded-IsRecorded w now run store e)

  started-Triggered :
      (now : ℕ → Time) (name by : Text) (at : Time) (e : Engine S C) (s : ScheduleConfig)
      (out : Result (Unit {0}) × S)
      → w.store.save_run (new_run w s by at (now 0)) e.store ≡ out
      → get name e.schedules ≡ some s
      → (s.allow_concurrent ≡ true) ⊎ (w.store.has_running_run s.name e.store ≡ ok false)
      → Triggered w now name by at e (started w (now 1) s (new_run w s by at (now 0)) out e)
  unfolding new_run
  started-Triggered now name by at e s (err x, store) saved found free =
      not_started s x store found free saved refl
  started-Triggered now name by at e s (ok u, store) saved found free =
      let run = new_run w s by at (now 0) in
      let e1 = record e { store = store } in
      was_started s store found free saved refl
        (ap (λ l. record { schedule = s; run = run } ∷ l) (complete_once-pending w (now 1) s by e1))
        (complete_once-IsRunningIn w (now 1) s by e1)

  guarded-Triggered :
      (now : ℕ → Time) (name by : Text) (at : Time) (e : Engine S C) (s : ScheduleConfig)
      → get name e.schedules ≡ some s
      → s.allow_concurrent ≡ false
      → (r : Result Bool) → w.store.has_running_run s.name e.store ≡ r
      → Triggered w now name by at e (skip_or_start w now s by at r e)
  unfolding skip_run start_run
  guarded-Triggered now name by at e s found guarded (err x) h = unanswered s x found guarded h refl
  guarded-Triggered now name by at e s found guarded (ok true) h =
      skipped-Triggered now name by at e s _ refl found guarded h
  guarded-Triggered now name by at e s found guarded (ok false) h =
      started-Triggered now name by at e s _ refl found (inr h)

  found-Triggered :
      (now : ℕ → Time) (name by : Text) (at : Time) (e : Engine S C) (o : Option ScheduleConfig)
      → get name e.schedules ≡ o
      → Triggered w now name by at e (trigger_found w now name by at o e)
  unfolding allows_concurrent_runs start_run
  found-Triggered now name by at e none h = unknown h refl
  found-Triggered now name by at e (some s) h = elim (Bool-cases s.allow_concurrent) [
    | inl free ↦ simp free (started-Triggered now name by at e s _ refl h (inl free))
    | inr guarded ↦ simp guarded (guarded-Triggered now name by at e s h guarded _ refl)
  ]

  -- A trigger of an unknown name, or one where the store gives no answer or does not save the run,
  -- fails and starts nothing. Else it starts one execution of a run that SaveRun has saved as running,
  -- where the schedule allows concurrent runs or the store has no running run of it; or it starts
  -- nothing and SaveRun has saved a skipped run, where the schedule does not allow concurrent runs and
  -- the store has a running one.
  pub trigger_starts_or_skips :
      (now : ℕ → Time) (name by : Text) (at : Time) (e : Engine S C)
      → Triggered w now name by at e (trigger w now name by at e)
  unfolding trigger
  trigger_starts_or_skips now name by at e = found-Triggered now name by at e _ refl
