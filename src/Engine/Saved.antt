-- ===== src/Engine/Saved.antt =====
-- What a save that succeeds leaves in the engine.
use clock_relay.Model.{Time}
use Prim.Native.Nat.{ℕ}
use clock_relay.Config.Defaults.{normalize_schedule, is_empty, normalize_schedule_idem}
use clock_relay.Base.{
  get, Map, ℕ, ◌≡◌, Result, some, put, ok, Option, get-put, Result-cases, Text, text_eq_refl, inl,
  err, arith, inr, refl, Bool, Bool-cases, if◌then◌else◌, false, true, none, Option-cases, not,
  text_eq, ◌&&◌, Error, ◌∙◌, ap, subst,
}
use clock_relay.Engine.KeptTimes.{
  IsCompletedAt, given, taken_over, keeps_time, keeps_time-KeepsTime, is_other,
}
use clock_relay.Engine.World.{World, Engine, CronLaws}
use clock_relay.Config.Types.{ScheduleConfig}
use clock_relay.Engine.Entries.{register_entry-Registered}
use clock_relay.Engine.Saving.{
  save_schedule, save_valid, save_checked, write_schedule, registered_or_restored, store_save,
}
use clock_relay.Engine.Registry.{
  register_schedule, drop_if_failed, register_entry, validate_schedule, is_some,
}

-- The engine `e` has under the schedule's name the schedule `s` as it was given, field by field, but
-- for the defaults and the completion time. `old` is the schedule that is edited.
pub record IsSaved {S C : Type 0} (old : Option ScheduleConfig) (s : ScheduleConfig)
    (e : Engine S C) : Type 0 where
  pub saved : ScheduleConfig
  pub found : get s.name e.schedules ≡ some saved
  pub as_given : saved ≡ record (normalize_schedule s) { completed_at = saved.completed_at }
  pub completed : IsCompletedAt old (normalize_schedule s) saved.completed_at

-- The schedule that a save edits; no original name is given for a new one.
abbrev pub edited_schedule : {S C : Type 0} → Text → Engine S C → Option ScheduleConfig
edited_schedule original e = if is_empty original then none else get original e.schedules

abbrev completed_at_time : Option Time → ScheduleConfig → ScheduleConfig
completed_at_time at s = record s { completed_at = at }

module _ {S C : Type 0} (w : World S C) (laws : CronLaws w.cron) where
  abbrev HasSaved : ScheduleConfig → Engine S C → Type 0
  HasSaved s e = get s.name e.schedules ≡ some (normalize_schedule s)

  kept_by_drop :
      (s : ScheduleConfig) (schedules : Map ScheduleConfig) (out : Result (Unit {0}) × Engine S C)
      → out.1.schedules ≡ put s.name s schedules
      → (drop_if_failed w s.name out).0 ≡ ok tt
      → get s.name (drop_if_failed w s.name out).1.schedules ≡ some s
  kept_by_drop s schedules (ok u, e) h fine =
      rw (h, get-put s.name s.name s schedules, text_eq_refl) refl
  kept_by_drop s schedules (err x, e) h fine = absurd (ground (arith, fine))

  register_schedule-HasSaved :
      (now : ℕ → Time) (s : ScheduleConfig) (e : Engine S C)
      → (register_schedule w now s e).0 ≡ ok tt
      → HasSaved s (register_schedule w now s e).1
  unfolding register_schedule normalize_schedule
  register_schedule-HasSaved now s e fine =
      let n = normalize_schedule s in
      elim (Result-cases (validate_schedule w n e.cfg.faktory)) [
        | inl (u, valid) ↦
            let e1 = record e { schedules = put n.name n e.schedules } in
            let registered = register_entry-Registered w laws now n e1 in
            rw valid (
              kept_by_drop n e.schedules (register_entry w now n e1) registered.schedules
                (rw valid at fine))
        | inr (x, failed) ↦ absurd (ground (arith, rw failed at fine))
      ]

  registered-HasSaved :
      (now : ℕ → Time) (s : ScheduleConfig) (old : Option (Text × ScheduleConfig))
      (out : Result (Unit {0}) × Engine S C)
      → (out.0 ≡ ok tt → HasSaved s out.1)
      → (registered_or_restored w now s old out).0 ≡ ok tt
      → HasSaved s (registered_or_restored w now s old out).1
  registered-HasSaved now s old (ok u, e) h fine = h refl
  registered-HasSaved now s old (err x, e) h fine = absurd (ground (arith, fine))

  written-HasSaved :
      (now : ℕ → Time) (s : ScheduleConfig) (old : Option (Text × ScheduleConfig))
      (stored : Result (Unit {0}) × S) (e : Engine S C)
      → (write_schedule w now s old stored e).0 ≡ ok tt
      → HasSaved s (write_schedule w now s old stored e).1
  written-HasSaved now s old (err x, store) e fine = absurd (ground (arith, fine))
  written-HasSaved now s old (ok u, store) e fine =
      registered-HasSaved now s old _ (register_schedule-HasSaved now s _) fine

  checked-HasSaved :
      (now : ℕ → Time) (s : ScheduleConfig) (old : Option (Text × ScheduleConfig)) (e : Engine S C)
      → (save_checked w now s old e).0 ≡ ok tt
      → HasSaved s (save_checked w now s old e).1
  unfolding save_checked
  checked-HasSaved now s old e fine = written-HasSaved now s old (store_save w s old e.store) e fine

  new-IsSaved : (n : ScheduleConfig) (e : Engine S C) → HasSaved n e → IsSaved none n e
  unfolding normalize_schedule
  new-IsSaved n e found = record {
    saved = normalize_schedule n;
    found = found;
    as_given = refl;
    completed = given (λ o no. absurd (ground (arith, no)));
  }

  carried-IsSaved :
      (old n : ScheduleConfig) (e : Engine S C)
      → normalize_schedule n ≡ n
      → (c : Bool) → keeps_time old n ≡ c
      → HasSaved (if c then record n { completed_at = old.completed_at } else n) e
      → IsSaved (some old) n e
  unfolding normalize_schedule
  carried-IsSaved old n e fixed true kept found = record {
    saved = normalize_schedule (record n { completed_at = old.completed_at });
    found = found;
    as_given = refl;
    completed = rw fixed (taken_over old refl (keeps_time-KeepsTime old n kept));
  }
  carried-IsSaved old n e fixed false kept found = record {
    saved = normalize_schedule n;
    found = found;
    as_given = refl;
    completed = rw fixed (given (λ o is_old keeps. is_other o old n kept is_old keeps));
  }

  valid-IsSaved :
      (now : ℕ → Time) (original : Text) (n : ScheduleConfig) (e : Engine S C)
      → normalize_schedule n ≡ n
      → (save_valid w now original n e).0 ≡ ok tt
      → IsSaved (edited_schedule original e) n (save_valid w now original n e).1
  unfolding save_valid
  valid-IsSaved now original s e fixed fine = elim (Bool-cases (is_empty original)) [
    | inl new ↦ elim (Bool-cases (is_some (get s.name e.schedules))) [
      | inl taken ↦ absurd (ground (arith, new, taken, fine))
      | inr free ↦
          rw (new, free) (new-IsSaved s _ (checked-HasSaved now s none e (rw (new, free) at fine)))
    ]
    | inr edited ↦ elim (Option-cases (get original e.schedules)) [
      | inl missing ↦ absurd (ground (arith, edited, missing, fine))
      | inr (old, there) ↦
          elim (Bool-cases (not (text_eq original s.name) && is_some (get s.name e.schedules))) [
            | inl taken ↦ absurd (ground (arith, edited, there, taken, fine))
            | inr free ↦
                rw (edited, there, free)
                  (carried-IsSaved old s _ fixed _ refl (
                    checked-HasSaved now _ (some (original, old)) e
                      (rw (edited, there, free) at fine)))
          ]
    ]
  ]

  normalized_name : (s : ScheduleConfig) → (normalize_schedule s).name ≡ s.name
  unfolding normalize_schedule
  normalized_name s = refl

  normal-IsSaved :
      (old : Option ScheduleConfig) (s : ScheduleConfig) (e : Engine S C)
      → IsSaved old (normalize_schedule s) e
      → IsSaved old s e
  normal-IsSaved old s e h = record {
    saved = h.saved;
    found = rw (normalized_name s) at h.found;
    as_given = h.as_given ∙ ap (completed_at_time h.saved.completed_at) (normalize_schedule_idem s);
    completed =
        subst (λ n. IsCompletedAt old n h.saved.completed_at) (normalize_schedule_idem s)
          h.completed;
  }

  save_valid_lem :
      (now : ℕ → Time) (original : Text) (s : ScheduleConfig) (e : Engine S C)
      → validate_schedule w (normalize_schedule s) e.cfg.faktory ≡ ok tt
      → save_schedule w now original s e ≡ save_valid w now original (normalize_schedule s) e
  unfolding save_schedule
  save_valid_lem now original s e valid = ground (arith, valid)

  save_invalid_lem :
      (now : ℕ → Time) (original : Text) (s : ScheduleConfig) (e : Engine S C) (x : Error)
      → validate_schedule w (normalize_schedule s) e.cfg.faktory ≡ err x
      → (save_schedule w now original s e).0 ≡ err x
  unfolding save_schedule
  save_invalid_lem now original s e x failed = ground (arith, failed)

  -- A save that succeeds leaves the given schedule in the engine under its name, every field of it as
  -- it was given but for the defaults of NormalizeSchedule and the completion time: an edit of a
  -- one-time schedule that keeps its time and its zone and gives no completion time takes over that of
  -- the schedule before the edit.
  pub save_schedule-IsSaved :
      (now : ℕ → Time) (original : Text) (s : ScheduleConfig) (e : Engine S C)
      → (save_schedule w now original s e).0 ≡ ok tt
      → IsSaved (edited_schedule original e) s (save_schedule w now original s e).1
  save_schedule-IsSaved now original s e fine =
      elim (Result-cases (validate_schedule w (normalize_schedule s) e.cfg.faktory)) [
        | inl (u, valid) ↦
            let opened = save_valid_lem now original s e valid in
            rw opened (
              normal-IsSaved _ s _ (
                valid-IsSaved now original (normalize_schedule s) e (normalize_schedule_idem s)
                  (rw opened at fine)))
        | inr (x, failed) ↦
            absurd (ground (arith, save_invalid_lem now original s e x failed, fine))
      ]
