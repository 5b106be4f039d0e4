-- ===== src/Engine/Switching.antt =====
-- TogglePause and markOneTimeCompleted keep the registry consistent.
use clock_relay.Engine.Consistency.{Assigned, Assigned-IsConsistent, stored-IsConsistent}
use clock_relay.Engine.Entries.{
  IsConsistent, Registered, register_entry-Registered, remove_entry-Owned, schedules-remove_entry,
  NamedIn, get-remove_entry,
}
use clock_relay.Engine.Registry.{is_armed, is_once, remove_entry, register_entry, is_some}
use clock_relay.Model.{Time}
use clock_relay.Config.Types.{ScheduleConfig}
use clock_relay.Engine.Pausing.{
  toggle_pause, toggle_saved, mark_one_time_completed, resumed_or_paused,
}
use clock_relay.Engine.World.{World, CronLaws, Engine}
use clock_relay.Base.{
  Text, ℕ, get, Result, ◌≡◌, none, some, false, Bool-cases, Option-cases, ◌⊎◌, arith, not, inl,
  Result-cases, ok, inr, true, put, get-put, err, subst, sym, ◌||◌,
}

module _ {S C : Type 0} (w : World S C) (laws : CronLaws w.cron) where
  toggle_absent :
      (now : ℕ → Time) (n : Text) (e : Engine S C)
      → get n e.schedules ≡ none
      → (toggle_pause w now n e).1 ≡ e
  unfolding toggle_pause
  toggle_absent now n e h = ground arith

  toggle_present :
      (now : ℕ → Time) (n : Text) (e : Engine S C) (s : ScheduleConfig)
      → get n e.schedules ≡ some s
      → let s1 = record s { paused = not s.paused } in
        let e1 = record e { store = (w.store.save_schedule s1 e.store).1 } in
        ((toggle_pause w now n e).1 ≡ e1)
        ⊎ ((toggle_pause w now n e).1 ≡ (toggle_saved w now n s1 e1).1)
  unfolding toggle_pause
  toggle_present now n e s h =
      elim (Result-cases (w.store.save_schedule (record s { paused = not s.paused }) e.store).0) [
        | inl (u, saved) ↦ inr (ground arith)
        | inr (x, failed) ↦ inl (ground arith)
      ]

  -- A schedule that does not fire takes the place of the one of its name.
  disarmed-Assigned :
      (n : Text) (s : ScheduleConfig) (e : Engine S C)
      → is_armed s ≡ false
      → Assigned w n
          (some s)
          e
          (record (remove_entry w n e) { schedules = put n s (remove_entry w n e).schedules })
  disarmed-Assigned n s e off = record {
    owned = λ o.
        let o1 = remove_entry-Owned w laws n e o in record { of_id = o1.of_id; to_id = o1.to_id };
    schedules = λ k. ground (
      arith,
      schedules-remove_entry w laws n e,
      get-put n k s (remove_entry w n e).schedules,
      get-put n k s e.schedules,
    );
    entry_ids = λ k. ground (arith, get-remove_entry w laws n k e, off);
  }

  resumed-IsConsistent :
      (n : Text) (s : ScheduleConfig) (e : Engine S C) (out : Result (Unit {0}) × Engine S C)
      → s.name ≡ n
      → Registered w laws s e out
      → IsConsistent w e
      → IsConsistent w (resumed_or_paused w n s out).1
  resumed-IsConsistent n s e (ok u, e') named h c =
      Assigned-IsConsistent w n (some s) e _ named
        (record {
          owned = λ o. let o1 = h.owned o in record { of_id = o1.of_id; to_id = o1.to_id };
          schedules = λ k. ground (arith, h.schedules, get-put n k s e'.schedules);
          entry_ids = λ k. ground (arith, h.entry_ids k, named);
        })
        c
  resumed-IsConsistent n s e (err x, e') named h c =
      let again = record s { paused = true } in
      Assigned-IsConsistent w n (some again) e _ named
        (record {
          owned = λ o. let o1 = h.owned o in record { of_id = o1.of_id; to_id = o1.to_id };
          schedules = λ k. ground (arith, h.schedules, get-put n k again e'.schedules);
          entry_ids = λ k. ground (arith, h.entry_ids k, named);
        })
        c

  toggle_saved_paused :
      (now : ℕ → Time) (n : Text) (s : ScheduleConfig) (e : Engine S C)
      → s.paused ≡ true
      → (toggle_saved w now n s e).1
        ≡ record (remove_entry w n e) { schedules = put n s (remove_entry w n e).schedules }
  unfolding toggle_saved
  toggle_saved_paused now n s e h = ground arith

  toggle_saved_resumed :
      (now : ℕ → Time) (n : Text) (s : ScheduleConfig) (e : Engine S C)
      → s.paused ≡ false
      → (toggle_saved w now n s e).1 ≡ (resumed_or_paused w n s (register_entry w now s e)).1
  unfolding toggle_saved
  toggle_saved_resumed now n s e h = ground arith

  toggle_saved-IsConsistent :
      (now : ℕ → Time) (n : Text) (s : ScheduleConfig) (e : Engine S C)
      → s.name ≡ n
      → IsConsistent w e
      → IsConsistent w (toggle_saved w now n s e).1
  toggle_saved-IsConsistent now n s e named c = elim (Bool-cases s.paused) [
    | inl paused ↦
        subst (IsConsistent w) (sym (toggle_saved_paused now n s e paused))
          (Assigned-IsConsistent w n (some s) e _ named (disarmed-Assigned n s e (ground arith)) c)
    | inr resumed ↦
        subst (IsConsistent w) (sym (toggle_saved_resumed now n s e resumed))
          (resumed-IsConsistent n s e _ named (register_entry-Registered w laws now s e) c)
  ]

  pub toggle_pause-IsConsistent :
      (now : ℕ → Time) (n : Text) (e : Engine S C)
      → IsConsistent w e
      → IsConsistent w (toggle_pause w now n e).1
  toggle_pause-IsConsistent now n e c = elim (Option-cases (get n e.schedules)) [
    | inl absent ↦ rw (toggle_absent now n e absent) c
    | inr (s, present) ↦ elim (toggle_present now n e s present) [
      | inl failed ↦ rw failed (stored-IsConsistent w e _ c)
      | inr saved ↦ rw saved (
          toggle_saved-IsConsistent now n (record s { paused = not s.paused }) _
            (subst (NamedIn n) present (c.named n)) (stored-IsConsistent w e _ c))
    ]
  ]

  mark_cases :
      (now : Time) (n : Text) (e : Engine S C)
      → ((store : S) × ((mark_one_time_completed w now n e).1 ≡ record e { store = store }))
        ⊎ ((s : ScheduleConfig) × (store : S) × (get n e.schedules ≡ some s)
            × (is_once s ≡ true)
            × ((mark_one_time_completed w now n e).1
                ≡ remove_entry w n (record e {
                  store = store;
                  schedules = put n (record s { completed_at = some now }) e.schedules;
                })))
  unfolding mark_one_time_completed
  mark_cases now n e = elim (Option-cases (get n e.schedules)) [
    | inl absent ↦ inl (e.store, ground arith)
    | inr (s, present) ↦ elim (Bool-cases (not (is_once s) || is_some s.completed_at)) [
      | inl settled ↦ inl (e.store, ground arith)
      | inr due ↦
          let s1 = record s { completed_at = some now } in
          let saved = w.store.save_schedule s1 e.store in
          elim (Result-cases saved.0) [
            | inl (u, done) ↦ inr (s, saved.1, present, ground arith, ground arith)
            | inr (x, failed) ↦ inl (saved.1, ground arith)
          ]
    ]
  ]

  remove-put-Assigned :
      (n : Text) (s : ScheduleConfig) (e : Engine S C)
      → is_armed s ≡ false
      → Assigned w n (some s) e (remove_entry w n (record e { schedules = put n s e.schedules }))
  remove-put-Assigned n s e off =
      let e1 = record e { schedules = put n s e.schedules } in
      record {
        owned = λ o. remove_entry-Owned w laws n e1 (record { of_id = o.of_id; to_id = o.to_id });
        schedules =
            λ k. ground (arith, schedules-remove_entry w laws n e1, get-put n k s e.schedules);
        entry_ids = λ k. ground (arith, get-remove_entry w laws n k e1, off);
      }

  pub mark_one_time_completed-IsConsistent :
      (now : Time) (n : Text) (e : Engine S C)
      → IsConsistent w e
      → IsConsistent w (mark_one_time_completed w now n e).1
  mark_one_time_completed-IsConsistent now n e c = elim (mark_cases now n e) [
    | inl (store, same) ↦ subst (IsConsistent w) (sym same) (stored-IsConsistent w e store c)
    | inr (s, store, present, once, done) ↦
        let s1 = record s { completed_at = some now } in
        subst (IsConsistent w) (sym done) (
          Assigned-IsConsistent w n (some s1) (record e { store = store }) _
            (subst (NamedIn n) present (c.named n))
            (remove-put-Assigned n s1 (record e { store = store }) (ground arith))
            (stored-IsConsistent w e store c))
  ]
