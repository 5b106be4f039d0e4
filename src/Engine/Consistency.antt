-- ===== src/Engine/Consistency.antt =====
-- Every method that changes the schedules keeps the registry consistent, on its error paths too.
use clock_relay.Engine.Saving.{
  remove_replaced, restore_old, registered_or_restored, write_schedule, save_checked, save_schedule,
  store_save, save_valid, carry_completed,
}
use clock_relay.Config.Defaults.{normalize_schedule, is_empty}
use clock_relay.Model.{Time}
use clock_relay.Engine.Registry.{
  remove_schedule, register_schedule, drop_if_failed, validate_schedule, is_some, delete_schedule,
  not_found,
}
use clock_relay.Engine.Entries.{
  IsConsistent, Owned, NamedIn, remove_entry-Owned, Registered, schedules-remove_entry,
  get-remove_entry, armed_in, register_entry-Registered,
}
use clock_relay.Config.Types.{ScheduleConfig}
use clock_relay.Engine.World.{World, Engine, CronLaws}
use clock_relay.Base.{
  Text, Option, none, Option-cases, Result, ℕ, get, arith, ◌≡◌, Bool-cases, inl, put, Result-cases,
  if◌then◌else◌, text_eq, get-del, inr, subst, ok, text_eq_iff, err, some, get-put, del, refl, ◌⊎◌,
  not, ◌&&◌,
}

module _ {S C : Type 0} (w : World S C) where
  -- One name has been given the schedule `v`, or none, and all others are as before.
  pub record Assigned (n : Text) (v : Option ScheduleConfig) (e e' : Engine S C) : Type 0 where
    pub owned : Owned w e → Owned w e'
    pub schedules : (k : Text) → get k e'.schedules ≡ (if text_eq n k then v else get k e.schedules)
    pub entry_ids :
        (k : Text)
        → is_some (get k e'.entry_ids)
          ≡ (if text_eq n k then armed_in v else is_some (get k e.entry_ids))

  Assigned-named :
      (n k : Text) (v : Option ScheduleConfig) (e e' : Engine S C)
      → NamedIn n v
      → Assigned n v e e'
      → NamedIn k (get k e.schedules)
      → NamedIn k (get k e'.schedules)
  Assigned-named n k v e e' h a old = elim (Bool-cases (text_eq n k)) [
    | inl same ↦ rw (a.schedules k, same) (subst (λ m. NamedIn m v) ((text_eq_iff n k).0 same) h)
    | inr other ↦ rw (a.schedules k, other) old
  ]

  pub Assigned-IsConsistent :
      (n : Text) (v : Option ScheduleConfig) (e e' : Engine S C)
      → NamedIn n v
      → Assigned n v e e'
      → IsConsistent w e
      → IsConsistent w e'
  Assigned-IsConsistent n v e e' h a c = record {
    owned = a.owned c.owned;
    named = λ k. Assigned-named n k v e e' h a (c.named k);
    armed = λ k. ground (arith, a.entry_ids k, a.schedules k, c.armed k);
  }

  -- The store plays no part.
  pub stored-IsConsistent :
      (e : Engine S C) (store : S) → IsConsistent w e → IsConsistent w (record e { store = store })
  stored-IsConsistent e store c = record {
    owned = record { of_id = c.owned.of_id; to_id = c.owned.to_id };
    named = c.named;
    armed = c.armed;
  }

module _ {S C : Type 0} (w : World S C) (laws : CronLaws w.cron) where
  remove_schedule-Assigned :
      (n : Text) (e : Engine S C) → Assigned w n none e (remove_schedule w n e)
  unfolding remove_schedule
  remove_schedule-Assigned n e = record {
    owned = λ o.
        let o1 = remove_entry-Owned w laws n e o in record { of_id = o1.of_id; to_id = o1.to_id };
    schedules = λ k. ground (arith, schedules-remove_entry w laws n e, get-del n k e.schedules);
    entry_ids = λ k. ground (arith, get-remove_entry w laws n k e);
  }

  pub remove_schedule-IsConsistent :
      (n : Text) (e : Engine S C) → IsConsistent w e → IsConsistent w (remove_schedule w n e)
  remove_schedule-IsConsistent n e =
      Assigned-IsConsistent w n none e (remove_schedule w n e) tt (remove_schedule-Assigned n e)

  delete_absent :
      (n : Text) (e : Engine S C)
      → get n e.schedules ≡ none
      → delete_schedule w n e ≡ (err (not_found n), e)
  unfolding delete_schedule
  delete_absent n e h = ground arith

  delete_present :
      (n : Text) (e : Engine S C) (s : ScheduleConfig)
      → get n e.schedules ≡ some s
      → let r = w.store.delete_schedule n (remove_schedule w n e).store in
        delete_schedule w n e ≡ (r.0, record (remove_schedule w n e) { store = r.1 })
  unfolding delete_schedule
  delete_present n e s h = ground arith

  pub delete_schedule-IsConsistent :
      (n : Text) (e : Engine S C) → IsConsistent w e → IsConsistent w (delete_schedule w n e).1
  delete_schedule-IsConsistent n e c = elim (Option-cases (get n e.schedules)) [
    | inl absent ↦ rw (delete_absent n e absent) c
    | inr (s, present) ↦
        rw (delete_present n e s present)
          (stored-IsConsistent w (remove_schedule w n e) _ (remove_schedule-IsConsistent n e c))
  ]

  -- A registration of `s` over a name whose schedule is already `s`.
  put-Registered :
      (s : ScheduleConfig) (e : Engine S C) (out : Result (Unit {0}) × Engine S C)
      → Registered w laws s (record e { schedules = put s.name s e.schedules }) out
      → IsConsistent w e
      → IsConsistent w (drop_if_failed w s.name out).1
  put-Registered s e (ok u, e') h c =
      Assigned-IsConsistent w s.name (some s) e e' refl
        (record {
          owned = λ o. h.owned (record { of_id = o.of_id; to_id = o.to_id });
          schedules = λ k. ground (arith, h.schedules, get-put s.name k s e.schedules);
          entry_ids = λ k. ground (arith, h.entry_ids k);
        })
        c
  put-Registered s e (err x, e') h c =
      Assigned-IsConsistent w s.name none e (record e' { schedules = del s.name e'.schedules }) tt
        (record {
          owned = λ o.
              let o1 = h.owned (record { of_id = o.of_id; to_id = o.to_id }) in
              record { of_id = o1.of_id; to_id = o1.to_id };
          schedules = λ k.
              ground
                (arith, h.schedules, get-del s.name k e'.schedules, get-put s.name k s e.schedules);
          entry_ids = λ k. ground (arith, h.entry_ids k);
        })
        c

  pub register_schedule-IsConsistent :
      (now : ℕ → Time) (s : ScheduleConfig) (e : Engine S C)
      → IsConsistent w e
      → IsConsistent w (register_schedule w now s e).1
  unfolding register_schedule
  register_schedule-IsConsistent now s e c =
      elim (Result-cases (validate_schedule w (normalize_schedule s) e.cfg.faktory)) [
        | inl (u, valid) ↦ rw valid (
            put-Registered (normalize_schedule s) e _
              (register_entry-Registered w laws now (normalize_schedule s) _) c)
        | inr (x, failed) ↦ rw failed c
      ]

  remove_replaced-IsConsistent :
      (s : ScheduleConfig) (old : Option (Text × ScheduleConfig)) (e : Engine S C)
      → IsConsistent w e
      → IsConsistent w (remove_replaced w s old e)
  unfolding remove_replaced
  remove_replaced-IsConsistent s none e c = remove_schedule-IsConsistent s.name e c
  remove_replaced-IsConsistent s (some (original, old)) e c =
      elim (Bool-cases (text_eq original s.name)) [
        | inl same ↦ rw same (remove_schedule-IsConsistent s.name e c)
        | inr renamed ↦
            rw renamed
              (remove_schedule-IsConsistent s.name _ (remove_schedule-IsConsistent original e c))
      ]

  restore_old-IsConsistent :
      (now : ℕ → Time) (old : Option (Text × ScheduleConfig)) (e : Engine S C)
      → IsConsistent w e
      → IsConsistent w (restore_old w now old e)
  unfolding restore_old
  restore_old-IsConsistent now none e c = c
  restore_old-IsConsistent now (some (original, old)) e c =
      register_schedule-IsConsistent _ old _ (stored-IsConsistent w e _ c)

  registered-IsConsistent :
      (now : ℕ → Time) (s : ScheduleConfig) (old : Option (Text × ScheduleConfig))
      (out : Result (Unit {0}) × Engine S C)
      → IsConsistent w out.1
      → IsConsistent w (registered_or_restored w now s old out).1
  registered-IsConsistent now s old (ok u, e) c = c
  registered-IsConsistent now s old (err x, e) c = restore_old-IsConsistent now old _ (
      stored-IsConsistent w (remove_schedule w s.name e) _
        (remove_schedule-IsConsistent s.name e c))

  written-IsConsistent :
      (now : ℕ → Time) (s : ScheduleConfig) (old : Option (Text × ScheduleConfig))
      (stored : Result (Unit {0}) × S) (e : Engine S C)
      → IsConsistent w e
      → IsConsistent w (write_schedule w now s old stored e).1
  written-IsConsistent now s old (err x, store) e c = stored-IsConsistent w e store c
  written-IsConsistent now s old (ok u, store) e c = registered-IsConsistent now s old _ (
      register_schedule-IsConsistent now s _
        (remove_replaced-IsConsistent s old _ (stored-IsConsistent w e store c)))

  save_checked-IsConsistent :
      (now : ℕ → Time) (s : ScheduleConfig) (old : Option (Text × ScheduleConfig)) (e : Engine S C)
      → IsConsistent w e
      → IsConsistent w (save_checked w now s old e).1
  unfolding save_checked
  save_checked-IsConsistent now s old e c =
      written-IsConsistent now s old (store_save w s old e.store) e c

  -- What SaveSchedule does is nothing, or a checked save.
  save_schedule_cases :
      (now : ℕ → Time) (original : Text) (s : ScheduleConfig) (e : Engine S C)
      → ((save_schedule w now original s e).1 ≡ e)
        ⊎ ((s1 : ScheduleConfig) × (old : Option (Text × ScheduleConfig)) × (save_schedule w now
                original s e
              ≡ save_checked w now s1 old e))
  unfolding save_schedule save_valid
  save_schedule_cases now original s e =
      let n = normalize_schedule s in
      elim (Result-cases (validate_schedule w n e.cfg.faktory)) [
        | inr (x, refused) ↦ inl (ground arith)
        | inl (u, valid) ↦ elim (Bool-cases (is_empty original)) [
          | inl new ↦ elim (Bool-cases (is_some (get n.name e.schedules))) [
            | inl taken ↦ inl (ground arith)
            | inr free ↦ inr (n, none, ground arith)
          ]
          | inr edit ↦ elim (Option-cases (get original e.schedules)) [
            | inl absent ↦ inl (ground arith)
            | inr (old, present) ↦
                elim (Bool-cases
                  (not (text_eq original n.name) && is_some (get n.name e.schedules))) [
                    | inl taken ↦ inl (ground arith)
                    | inr free ↦ inr (carry_completed w old n, some (original, old), ground arith)
                  ]
          ]
        ]
      ]

  pub save_schedule-IsConsistent :
      (now : ℕ → Time) (original : Text) (s : ScheduleConfig) (e : Engine S C)
      → IsConsistent w e
      → IsConsistent w (save_schedule w now original s e).1
  save_schedule-IsConsistent now original s e c = elim (save_schedule_cases now original s e) [
    | inl same ↦ rw same c
    | inr (s1, old, saved) ↦ rw saved (save_checked-IsConsistent now s1 old e c)
  ]
