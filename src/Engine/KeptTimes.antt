-- ===== src/Engine/KeptTimes.antt =====
-- When an edit of a one-time schedule keeps its time, by SaveSchedule of internal/engine/engine.go.
use clock_relay.Model.{Time}
use clock_relay.Base.{
  ◌≡◌, some, Option, text_eq_refl, arith, refl, Bool, false, true, none, not, text_eq, ◌&&◌, str,
  ap, text_eq_iff,
}
use clock_relay.Config.Types.{ScheduleConfig}
use clock_relay.Engine.Registry.{is_some, is_once}

-- A completed one-time schedule is edited and keeps its time and its zone.
abbrev pub KeepsTime : ScheduleConfig → ScheduleConfig → Type 0
KeepsTime old s =
    (s.schedule_type ≡ str "once")
    × (old.schedule_type ≡ str "once")
    × (s.run_at ≡ old.run_at)
    × (s.timezone ≡ old.timezone)
    × (s.completed_at ≡ none)

-- The completion time that a save leaves: where the edited schedule keeps its time, that of the
-- schedule before the edit, and else the one that is given.
pub data IsCompletedAt (old : Option ScheduleConfig) (s : ScheduleConfig)
    : Option Time → Type 0 where
  given :
      ((o : ScheduleConfig) → old ≡ some o → ¬ KeepsTime o s) → IsCompletedAt old s s.completed_at
  taken_over :
      (o : ScheduleConfig) → old ≡ some o → KeepsTime o s → IsCompletedAt old s o.completed_at

-- The test of SaveSchedule.
abbrev pub keeps_time : ScheduleConfig → ScheduleConfig → Bool
keeps_time old s =
    is_once s
    && is_once old
    && text_eq s.run_at old.run_at
    && text_eq s.timezone old.timezone
    && not (is_some s.completed_at)

is_some-none : {A : Type 0} (o : Option A) → is_some o ≡ false → o ≡ none
is_some-none none h = refl
is_some-none (some a) h = absurd (ground (arith, h))

pub keeps_time-KeepsTime : (old s : ScheduleConfig) → keeps_time old s ≡ true → KeepsTime old s
keeps_time-KeepsTime old s h =
    let kind = text_eq_iff s.schedule_type (str "once") in
    let old_kind = text_eq_iff old.schedule_type (str "once") in
    let time = text_eq_iff s.run_at old.run_at in
    let zone = text_eq_iff s.timezone old.timezone in
    let free = is_some-none s.completed_at in
    (ground arith, ground arith, ground arith, ground arith, ground arith)

KeepsTime-keeps_time : (old s : ScheduleConfig) → KeepsTime old s → keeps_time old s ≡ true
KeepsTime-keeps_time old s (kind, old_kind, time, zone, free) =
    rw
      (
        kind,
        old_kind,
        time,
        zone,
        free,
        text_eq_refl (str "once"),
        text_eq_refl old.run_at,
        text_eq_refl old.timezone,
      )
      refl

pub is_other :
    (o old s : ScheduleConfig) → keeps_time old s ≡ false → some old ≡ some o → ¬ KeepsTime o s
is_other o old s other is_old keeps =
    let same : old ≡ o = cc in
    let kept = KeepsTime-keeps_time o s keeps in
    absurd (cc (other, ap (λ x. keeps_time x s) same, kept))
