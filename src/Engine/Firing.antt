-- ===== src/Engine/Firing.antt =====
-- The instants at which a rate schedule fires.
use clock_relay.Model.{minute, hour, day}
use Prim.Native.Nat.{ℕ}
use clock_relay.Config.Types.{ScheduleConfig}
use clock_relay.Base.Int.{◌*ℤ◌, wrap64, half_word, pos, word, negsuc}
use clock_relay.Base.{
  Text, ℕ, str, ◌*◌, ◌≡◌, ◌/◌, ◌<◌, ◌+◌, ◌≤◌, ◌-◌, arith, text_eq, ◌∙◌, ap, refl,
}
use clock_relay.Engine.Timing.{rate_next, times, rate_duration}
use native.Mathlib.Nat.{div-mul-le_self, lt-div-mul-add}

-- The units of a rate and their lengths.
pub data IsUnit (text : Text) (length : ℕ) : Type 0 where
  by_minutes : text ≡ str "minutes" → length ≡ minute → IsUnit text length
  by_hours : text ≡ str "hours" → length ≡ hour → IsUnit text length
  by_days : text ≡ str "days" → length ≡ day → IsUnit text length

-- A product that stays in the range is not changed by the wrap-around.
times_exact : (n unit : ℕ) → n * unit < half_word → times (pos n) unit ≡ pos (n * unit)
unfolding ◌*ℤ◌ wrap64
times_exact n unit h = ground arith

-- A product beyond the range becomes negative.
times_wraps :
    (n unit : ℕ)
    → half_word ≤ n * unit
    → n * unit < word
    → times (pos n) unit ≡ negsuc (word - n * unit - 1)
unfolding ◌*ℤ◌ wrap64
times_wraps n unit low high = ground arith

rate_duration_exact :
    (s : ScheduleConfig) (n unit : ℕ)
    → IsUnit s.rate_unit unit
    → s.rate_interval ≡ pos n
    → n * unit < half_word
    → rate_duration s ≡ pos (n * unit)
unfolding rate_duration str text_eq
rate_duration_exact s n unit (by_minutes u l) e h =
    rw (u, e, l) (times_exact n minute (omega (arith, rw l at h)))
rate_duration_exact s n unit (by_hours u l) e h =
    rw (u, e, l) (times_exact n hour (omega (arith, rw l at h)))
rate_duration_exact s n unit (by_days u l) e h =
    let short = rw l at h in
    rw (u, e, l, times_exact n 24 (omega (arith, short)))
      (times_exact (n * 24) hour (omega (arith, short)) ∙ ap pos (omega arith))

-- The first multiple of `i` above `a`.
abbrev above : ℕ → ℕ → ℕ
above a i = (a / i + 1) * i

above-bounds : (a i : ℕ) → 0 < i → (a < above a i) × (above a i ≤ a + i)
above-bounds a i h =
    let low = div-mul-le_self a i in
    let high = lt-div-mul-add {a = a} {b = i} h in (ground arith, ground arith)

rate_next_exact :
    (start i t : ℕ)
    → 0 < i
    → start ≤ t
    → t - start + i < half_word
    → rate_next start (pos i) t ≡ start + above (t - start) i
unfolding rate_next wrap64
rate_next_exact start i t h before short = let bounds = above-bounds (t - start) i h in ground arith

-- A rate schedule with a positive interval, that starts at `t` or before and for which the time since
-- its start and one interval together are below 2 ^ 63 nanoseconds, fires on the grid
-- start + k * interval: the next instant lies behind `t`, by at most one interval.
pub rate_fires_on_grid :
    (s : ScheduleConfig) (n unit start t : ℕ)
    → IsUnit s.rate_unit unit
    → s.rate_interval ≡ pos n
    → 0 < n * unit
    → start ≤ t
    → t - start + n * unit < half_word
    → (rate_next start (rate_duration s) t ≡ start + ((t - start) / (n * unit) + 1) * (n * unit))
      × (t < rate_next start (rate_duration s) t)
      × (rate_next start (rate_duration s) t ≤ t + n * unit)
rate_fires_on_grid s n unit start t u e h before short =
    let exact = rate_duration_exact s n unit u e (omega (arith, short)) in
    let (low, high) = above-bounds (t - start) (n * unit) h in
    let next = rate_next_exact start (n * unit) t h before short in
    rw exact (next, omega (arith, next, low, before), omega (arith, next, high, before))

-- A rate schedule that started at least 2 ^ 63 nanoseconds, about 292 years, ago has no next instant
-- behind `t`.
pub rate_stuck_in_past :
    (start i t : ℕ) → 0 < i → i < half_word → start + half_word ≤ t → rate_next start (pos i) t ≤ t
unfolding rate_next wrap64
rate_stuck_in_past start i t h fits far =
    let bounds = above-bounds (half_word - 1) i h in ground arith

-- A rate of 106752 to 213503 days has no next instant at all, whatever the start and `t` are: its
-- length wraps around to a negative one.
pub long_rate_never_fires :
    (s : ScheduleConfig) (n start t : ℕ)
    → s.rate_unit ≡ str "days"
    → s.rate_interval ≡ pos n
    → 106752 ≤ n
    → n ≤ 213503
    → rate_next start (rate_duration s) t ≡ 0
unfolding rate_next rate_duration str text_eq
long_rate_never_fires s n start t u e low high =
    rw
      (
        u,
        e,
        times_exact n 24 (omega (arith, high)),
        times_wraps (n * 24) hour (omega (arith, low)) (omega (arith, high)),
      )
      refl
