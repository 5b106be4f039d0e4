-- ===== src/Engine/Pausing.antt =====
-- TogglePause and markOneTimeCompleted of internal/engine/engine.go. Each holds the engine's lock
-- throughout and is atomic. `now` has the readings of the clock in a call, in their order.
use clock_relay.Model.{Time}
use clock_relay.Engine.Registry.{remove_entry, register_entry, not_found, is_once, is_some}
use clock_relay.Config.Types.{ScheduleConfig}
use clock_relay.Engine.World.{World, Engine}
use clock_relay.Base.{
  Text, ℕ, Result, Bool, get, ok, if◌then◌else◌, put, true, err, none, some, not, ◌||◌,
}

module _ {S C : Type 0} (w : World S C) where
  abbrev pub resumed_or_paused :
      Text → ScheduleConfig → Result (Unit {0}) × Engine S C → Result Bool × Engine S C
  resumed_or_paused name s (ok _, e) =
      (ok s.paused, record e { schedules = put name s e.schedules })
  resumed_or_paused name s (err x, e) =
      let again = record s { paused = true } in
      (
        err x,
        record e {
          store = (w.store.save_schedule again e.store).1;
          schedules = put name again e.schedules;
        },
      )

  -- TogglePause once the changed schedule has been saved.
  unfoldable pub toggle_saved :
      (ℕ → Time) → Text → ScheduleConfig → Engine S C → Result Bool × Engine S C
  toggle_saved now name s e =
      let e1 = remove_entry w name e in
      if s.paused
      then (ok true, record e1 { schedules = put name s e1.schedules })
      else resumed_or_paused name s (register_entry w now s e)

  -- TogglePause
  unfoldable pub toggle_pause : (ℕ → Time) → Text → Engine S C → Result Bool × Engine S C
  toggle_pause now name e = elim (get name e.schedules) [
    | none ↦ (err (not_found name), e)
    | some s ↦
        let s1 = record s { paused = not s.paused } in
        let (r, store) = w.store.save_schedule s1 e.store in
        let e1 = record e { store = store } in
        elim r [ err x ↦ (err x, e1) | ok _ ↦ toggle_saved now name s1 e1 ]
  ]

  -- markOneTimeCompleted
  unfoldable pub mark_one_time_completed : Time → Text → Engine S C → Result (Unit {0}) × Engine S C
  mark_one_time_completed now name e = elim (get name e.schedules) [
    | none ↦ (err (not_found name), e)
    | some s ↦
        let s1 = record s { completed_at = some now } in
        let (r, store) = w.store.save_schedule s1 e.store in
        let e1 = record e { store = store } in
        if not (is_once s) || is_some s.completed_at then (ok tt, e) else elim r [
          | err x ↦ (err x, e1)
          | ok _ ↦ (ok tt, remove_entry w name (record e1 { schedules = put name s1 e1.schedules }))
        ]
  ]
