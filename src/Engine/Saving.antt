-- ===== src/Engine/Saving.antt =====
-- SaveSchedule of internal/engine/engine.go. It holds the engine's lock throughout and is atomic.
-- `now` has the readings of the clock in a call, in their order.
use clock_relay.Config.Defaults.{normalize_schedule, is_empty}
use clock_relay.Model.{Time}
use clock_relay.Engine.Registry.{
  remove_schedule, register_schedule, is_once, is_some, validate_schedule, already_exists,
  not_found,
}
use clock_relay.Config.Types.{ScheduleConfig}
use clock_relay.Engine.World.{World, Engine}
use clock_relay.Base.{
  Text, ℕ, if◌then◌else◌, Option, Result, ◌&&◌, ok, err, some, text_eq, ◌+◌, get, not, none,
}

module _ {S C : Type 0} (w : World S C) where
  -- A one-time schedule that is edited without a new time stays completed.
  abbrev pub carry_completed : ScheduleConfig → ScheduleConfig → ScheduleConfig
  carry_completed old s =
      if is_once s
        && is_once old
        && text_eq s.run_at old.run_at
        && text_eq s.timezone old.timezone
        && not (is_some s.completed_at)
      then record s { completed_at = old.completed_at }
      else s

  -- The store's part of a rename: the original is deleted, and on an error both steps are undone.
  unfoldable pub store_rename :
      ScheduleConfig → Option (Text × ScheduleConfig) → S → Result (Unit {0}) × S
  store_rename s none store = (ok tt, store)
  store_rename s (some (original, old)) store =
      let (r, deleted) = w.store.delete_schedule original store in
      let restored = (w.store.save_schedule old (w.store.delete_schedule s.name deleted).1).1 in
      if text_eq original s.name
      then (ok tt, store)
      else elim r [ ok _ ↦ (ok tt, deleted) | err x ↦ (err x, restored) ]

  unfoldable pub store_save :
      ScheduleConfig → Option (Text × ScheduleConfig) → S → Result (Unit {0}) × S
  unfolding store_rename
  store_save s old store =
      let (r, saved) = w.store.save_schedule s store in
      elim r [ err x ↦ (err x, saved) | ok _ ↦ store_rename s old saved ]

  -- The engine's part of a rename, and the removal of what had the schedule's name.
  unfoldable pub remove_replaced :
      ScheduleConfig → Option (Text × ScheduleConfig) → Engine S C → Engine S C
  unfolding remove_schedule
  remove_replaced s none e = remove_schedule w s.name e
  remove_replaced s (some (original, old)) e =
      if text_eq original s.name
      then remove_schedule w s.name e
      else remove_schedule w s.name (remove_schedule w original e)

  unfoldable pub restore_old : (ℕ → Time) → Option (Text × ScheduleConfig) → Engine S C → Engine S C
  unfolding register_schedule
  restore_old now none e = e
  restore_old now (some (original, old)) e =
      (register_schedule w (λ k. now (k + 2)) old
        (record e { store = (w.store.save_schedule old e.store).1 })).1

  -- What SaveSchedule does after a registration: on an error it restores what was there.
  abbrev pub registered_or_restored :
      (ℕ → Time)
      → ScheduleConfig
      → Option (Text × ScheduleConfig)
      → Result (Unit {0}) × Engine S C
      → Result (Unit {0}) × Engine S C
  registered_or_restored now s old (ok _, e) = (ok tt, e)
  registered_or_restored now s old (err x, e) =
      let e1 = remove_schedule w s.name e in
      (
        err x,
        restore_old now old (record e1 { store = (w.store.delete_schedule s.name e1.store).1 }),
      )

  -- SaveSchedule from the first write on.
  abbrev pub write_schedule :
      (ℕ → Time)
      → ScheduleConfig
      → Option (Text × ScheduleConfig)
      → Result (Unit {0}) × S
      → Engine S C
      → Result (Unit {0}) × Engine S C
  write_schedule now s old (err x, store) e = (err x, record e { store = store })
  write_schedule now s old (ok _, store) e =
      registered_or_restored now s old
        (register_schedule w now s (remove_replaced s old (record e { store = store })))

  unfoldable pub save_checked :
      (ℕ → Time)
      → ScheduleConfig
      → Option (Text × ScheduleConfig)
      → Engine S C
      → Result (Unit {0}) × Engine S C
  unfolding store_save register_schedule remove_replaced restore_old
  save_checked now s old e = write_schedule now s old (store_save s old e.store) e

  -- The lookups of SaveSchedule: the original is there, and a new name is free.
  unfoldable pub save_valid :
      (ℕ → Time) → Text → ScheduleConfig → Engine S C → Result (Unit {0}) × Engine S C
  save_valid now original s e =
      let taken = is_some (get s.name e.schedules) in
      if is_empty original
      then (if taken then (err (already_exists s.name), e) else save_checked now s none e)
      else elim (get original e.schedules) [
        | none ↦ (err (not_found original), e)
        | some old ↦
            if not (text_eq original s.name) && taken
            then (err (already_exists s.name), e)
            else save_checked now (carry_completed old s) (some (original, old)) e
      ]

  -- SaveSchedule
  unfoldable pub save_schedule :
      (ℕ → Time) → Text → ScheduleConfig → Engine S C → Result (Unit {0}) × Engine S C
  save_schedule now original schedule e =
      let s = normalize_schedule schedule in
      elim (validate_schedule w s e.cfg.faktory) [
        | err x ↦ (err x, e)
        | ok _ ↦ save_valid now original s e
      ]
