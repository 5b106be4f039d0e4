-- ===== src/Engine/Entries.antt =====
-- The cron entries are exactly those that the engine knows of, and each belongs to a schedule that
-- is to fire.
use clock_relay.Model.{Time}
use clock_relay.Engine.Timing.{Job, cron_schedule}
use clock_relay.Engine.Registry.{remove_entry, is_some, is_armed, keep_entry, register_entry}
use clock_relay.Config.Types.{ScheduleConfig}
use clock_relay.Engine.World.{World, Engine, CronLaws}
use clock_relay.Base.{
  Text, Option, ℕ, Bool, some, get, ◌≡◌, false, Option-cases, none, inl, if◌then◌else◌, arith, inr,
  text_eq, get-del, Result-cases, text_eq_iff, get-put, ◌∙◌, sym, del, Result, ◌&&◌, ok, true, err,
  refl, Bool-cases, text_eq_refl,
}

-- The entry ids of the engine are the entries of the cron package.
pub record Owned {S C : Type 0} (w : World S C) (e : Engine S C) : Type 0 where
  pub of_id : (k : Text) (id : ℕ) → get k e.entry_ids ≡ some id → w.cron.entry e.cron id ≡ some k
  pub to_id : (id : ℕ) (k : Text) → w.cron.entry e.cron id ≡ some k → get k e.entry_ids ≡ some id

abbrev pub armed_in : Option ScheduleConfig → Bool
armed_in none = false
armed_in (some s) = is_armed s

abbrev pub NamedIn : Text → Option ScheduleConfig → Type 0
NamedIn k none = Unit
NamedIn k (some s) = s.name ≡ k

-- The registry of the engine is consistent.
pub record IsConsistent {S C : Type 0} (w : World S C) (e : Engine S C) : Type 0 where
  pub owned : Owned w e
  pub named : (k : Text) → NamedIn k (get k e.schedules)
  pub armed : (k : Text) → is_some (get k e.entry_ids) ≡ armed_in (get k e.schedules)

module _ {S C : Type 0} (w : World S C) (laws : CronLaws w.cron) where
  remove_entry_absent :
      (n : Text) (e : Engine S C) → get n e.entry_ids ≡ none → remove_entry w n e ≡ e
  unfolding remove_entry
  remove_entry_absent n e h = ground arith

  remove_entry_present :
      (n : Text) (e : Engine S C) (id : ℕ)
      → get n e.entry_ids ≡ some id
      → remove_entry w n e
        ≡ record e { cron = w.cron.remove id e.cron; entry_ids = del n e.entry_ids }
  unfolding remove_entry
  remove_entry_present n e id h = ground arith

  pub remove_entry-Owned : (n : Text) (e : Engine S C) → Owned w e → Owned w (remove_entry w n e)
  remove_entry-Owned n e o = elim (Option-cases (get n e.entry_ids)) [
    | inl absent ↦ rw (remove_entry_absent n e absent) o
    | inr (id, present) ↦ rw (remove_entry_present n e id present) (record {
      of_id = λ k id' h. ground (
        arith,
        get-del n k e.entry_ids,
        text_eq_iff n k,
        laws.entry-remove id e.cron id',
        o.of_id k id',
        o.of_id n id present,
      );
      to_id = λ id' k h. ground (
        arith,
        get-del n k e.entry_ids,
        text_eq_iff n k,
        laws.entry-remove id e.cron id',
        o.to_id id' k,
      );
    })
  ]

  pub get-remove_entry :
      (n k : Text) (e : Engine S C)
      → get k (remove_entry w n e).entry_ids ≡ (if text_eq n k then none else get k e.entry_ids)
  unfolding remove_entry
  get-remove_entry n k e = ground (arith, get-del n k e.entry_ids, text_eq_iff n k)

  pub schedules-remove_entry :
      (n : Text) (e : Engine S C) → (remove_entry w n e).schedules ≡ e.schedules
  unfolding remove_entry
  schedules-remove_entry n e = ground arith

  -- A job that is kept under a name with no entry.
  keep_entry-Owned :
      (n : Text) (job : Job) (e : Engine S C)
      → get n e.entry_ids ≡ none
      → Owned w e
      → Owned w (keep_entry w n (w.cron.schedule_job job n e.cron) e).1
  keep_entry-Owned n job e free o = elim (Result-cases (w.cron.schedule_job job n e.cron).0) [
    | inl (id, made) ↦
        rw (made, keep_entry)
          (record {
            of_id = λ k id' h. ground (
              arith,
              get-put n k id e.entry_ids,
              text_eq_iff n k,
              laws.schedule_job-fresh job n e.cron id made,
              laws.entry-schedule_job job n e.cron id id' made,
              o.of_id k id',
            );
            to_id = λ id' k h. ground (
              arith,
              get-put n k id e.entry_ids,
              text_eq_iff n k,
              free,
              laws.entry-schedule_job job n e.cron id id' made,
              o.to_id id' k,
            );
          })
    | inr (x, failed) ↦
        rw (failed, keep_entry)
          (record {
            of_id =
                λ k id h. laws.entry-schedule_job_failed job n e.cron x id failed ∙ o.of_id k id h;
            to_id = λ id k h.
                o.to_id id k (sym (laws.entry-schedule_job_failed job n e.cron x id failed) ∙ h);
          })
  ]

  abbrev pub is_ok {ℓ} : {A : Type ℓ} → Result A → Bool
  is_ok (ok a) = true
  is_ok (err x) = false

  get-keep_entry :
      (n k : Text) (job : Job) (e : Engine S C)
      → is_some (get k (keep_entry w n (w.cron.schedule_job job n e.cron) e).1.entry_ids) ≡ (
          if text_eq n k && is_ok (keep_entry w n (w.cron.schedule_job job n e.cron) e).0
          then true
          else is_some (get k e.entry_ids))
  get-keep_entry n k job e = elim (Result-cases (w.cron.schedule_job job n e.cron).0) [
    | inl (id, made) ↦ ground (arith, made, get-put n k id e.entry_ids)
    | inr (x, failed) ↦ ground (arith, failed)
  ]

  -- What registerScheduleLocked leaves: an entry under the schedule's name exactly if the schedule is
  -- armed and there was no error, and all else as before.
  pub record Registered (s : ScheduleConfig) (e : Engine S C) (out : Result (Unit {0}) × Engine S C)
      : Type 0 where
    pub owned : Owned w e → Owned w out.1
    pub schedules : out.1.schedules ≡ e.schedules
    pub cfg : out.1.cfg ≡ e.cfg
    pub entry_ids :
        (k : Text)
        → is_some (get k out.1.entry_ids)
          ≡ (if text_eq s.name k then is_armed s && is_ok out.0 else is_some (get k e.entry_ids))

  pub cfg-remove_entry : (n : Text) (e : Engine S C) → (remove_entry w n e).cfg ≡ e.cfg
  unfolding remove_entry
  cfg-remove_entry n e = ground arith

  unchanged-keep_entry :
      (n : Text) (made : Result ℕ × C) (e : Engine S C)
      → ((keep_entry w n made e).1.schedules ≡ e.schedules)
        × ((keep_entry w n made e).1.cfg ≡ e.cfg)
  unchanged-keep_entry n (ok id, c) e = (refl, refl)
  unchanged-keep_entry n (err x, c) e = (refl, refl)

  removed-Registered :
      (s : ScheduleConfig) (e : Engine S C) (r : Result (Unit {0}))
      → is_armed s && is_ok r ≡ false
      → Registered s e (r, remove_entry w s.name e)
  removed-Registered s e r h = record {
    owned = remove_entry-Owned s.name e;
    schedules = schedules-remove_entry s.name e;
    cfg = cfg-remove_entry s.name e;
    entry_ids = λ k. ground (arith, get-remove_entry s.name k e, h);
  }

  kept-Registered :
      (s : ScheduleConfig) (job : Job) (e : Engine S C)
      → is_armed s ≡ true
      → Registered s e (
          keep_entry w s.name
            (w.cron.schedule_job job s.name (remove_entry w s.name e).cron)
            (remove_entry w s.name e))
  kept-Registered s job e h =
      let e1 = remove_entry w s.name e in
      let (schedules, cfg) =
        unchanged-keep_entry s.name (w.cron.schedule_job job s.name e1.cron) e1 in
      record {
        owned = λ o.
            keep_entry-Owned s.name job e1 (get-remove_entry s.name s.name e ∙ rw text_eq_refl)
              (remove_entry-Owned s.name e o);
        schedules = schedules ∙ schedules-remove_entry s.name e;
        cfg = cfg ∙ cfg-remove_entry s.name e;
        entry_ids =
            λ k. ground (arith, get-keep_entry s.name k job e1, get-remove_entry s.name k e, h);
      }

  pub register_entry-Registered :
      (now : ℕ → Time) (s : ScheduleConfig) (e : Engine S C)
      → Registered s e (register_entry w now s e)
  unfolding register_entry
  register_entry-Registered now s e = elim (Bool-cases (is_armed s)) [
    | inr off ↦ rw off (removed-Registered s e (ok tt) (rw off))
    | inl on ↦ elim (Result-cases (cron_schedule w.platform w.cron.parse now s)) [
      | inl (job, made) ↦ rw (on, made) (kept-Registered s job e on)
      | inr (x, failed) ↦ rw (on, failed) (removed-Registered s e (err x) (rw on))
    ]
  ]
