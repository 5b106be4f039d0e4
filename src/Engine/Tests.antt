-- ===== src/Engine/Tests.antt =====
-- The engine's theorems at small inputs.
use clock_relay.Config.Validate.{valid_schedule_name, all_name_bytes}
use clock_relay.Engine.Storable.{trigger_runs-IsStorable}
use clock_relay.Store.Bolt.Keys.{IsStorable}
use clock_relay.Engine.Firing.{
  long_rate_never_fires, rate_stuck_in_past, rate_fires_on_grid, by_minutes,
}
use clock_relay.Engine.Runs.{trigger, run_id, new_run, skipped_run}
use clock_relay.Engine.Registry.{is_once}
use clock_relay.Engine.Timing.{rate_next, rate_duration}
use clock_relay.Engine.Collision.{
  execution, same_instant_overlaps, over_memory, clear_runs_overlaps,
}
use clock_relay.Engine.Overlap.{Triggered, trigger_starts_or_skips}
use clock_relay.Engine.Reachability.{registry-IsConsistent}
use clock_relay.Engine.Startup.{new_engine, clear_runs}
use clock_relay.Base.Int.{pos, half_word}
use clock_relay.Engine.Entries.{IsConsistent}
use clock_relay.Engine.Requests.{
  Request, save, perform_all, toggle, fire_manual, fire, finish, delete, clear,
}
use clock_relay.Model.{Time, minute}
use clock_relay.Config.Types.{ScheduleConfig}
use clock_relay.Engine.World.{Engine, World}
use clock_relay.Store.Memory.{MemoryStore, new_memory_store, any_running}
use clock_relay.Base.{
  ℕ, List, some, ◌≤◌, ◌≡◌, arith, [], refl, ◌∷◌, ◌+◌, str, false, get, text_eq, ◌*◌, ◌/◌, ◌<◌,
}
use clock_relay.Engine.Samples.{Names, names_laws, sample_world, nightly, one_job, clock, idle}

-- A second schedule is saved, paused and fired, and the first one is renamed and fired.
abbrev some_requests : List Request
some_requests =
    save clock [] (record nightly { name = str "hourly" })
    ∷ toggle clock (str "hourly")
    ∷ fire_manual clock (str "hourly")
    ∷ save clock (str "nightly") (record nightly { name = str "daily" })
    ∷ fire clock (str "daily") (str "scheduler") 960
    ∷ finish clock 0
    ∷ delete (str "hourly")
    ∷ clear
    ∷ []

registry-IsConsistent_example : IsConsistent sample_world (
    perform_all sample_world some_requests
      (new_engine sample_world clock one_job new_memory_store).1)
registry-IsConsistent_example =
    registry-IsConsistent sample_world names_laws clock one_job new_memory_store some_requests

idle_found : get nightly.name idle.schedules ≡ some nightly
unfolding get text_eq str
idle_found = refl

nightly_lasts : is_once nightly ≡ false
unfolding text_eq str
nightly_lasts = refl

idle_free : any_running nightly.name idle.store.runs ≡ false
unfolding any_running
idle_free = refl

trigger_starts_or_skips_example :
    Triggered sample_world clock
      (str "nightly")
      (str "scheduler")
      960
      idle
      (trigger sample_world clock (str "nightly") (str "scheduler") 960 idle)
trigger_starts_or_skips_example =
    trigger_starts_or_skips sample_world clock (str "nightly") (str "scheduler") 960 idle

abbrev fire_at_960 : (ℕ → Time) → Engine MemoryStore Names → Engine MemoryStore Names
fire_at_960 now e =
    (trigger (over_memory sample_world) now (str "nightly") (str "scheduler") 960 e).1

abbrev later : ℕ → ℕ → Time
later n k = 1000 + n * 20 + k

same_instant_overlaps_example :
    (fire_at_960 (later 2) (fire_at_960 (later 1) (fire_at_960 (later 0) idle))).pending
    ≡ execution sample_world nightly (str "scheduler") 960 (later 2 0)
      ∷ execution sample_world nightly (str "scheduler") 960 (later 0 0)
      ∷ []
same_instant_overlaps_example =
    same_instant_overlaps sample_world (later 0) (later 1) (later 2) (str "nightly")
      (str "scheduler") 960 idle nightly idle_found refl nightly_lasts idle_free tt

-- The same engine while the job runs.
abbrev busy : Engine MemoryStore Names
busy = record idle {
  store = record {
    runs =
        (
          run_id sample_world (str "nightly") (str "scheduler") 960,
          new_run sample_world nightly (str "scheduler") 960 980,
        )
        ∷ [];
    schedules = [];
  };
  pending = execution sample_world nightly (str "scheduler") 960 980 ∷ [];
}

clear_runs_overlaps_example :
    (fire_at_960 clock (clear_runs (over_memory sample_world) busy).1).pending
    ≡ execution sample_world nightly (str "scheduler") 960 1000
      ∷ execution sample_world nightly (str "scheduler") 960 980
      ∷ []
clear_runs_overlaps_example =
    clear_runs_overlaps sample_world clock (str "nightly") (str "scheduler") 960 busy nightly
      idle_found refl nightly_lasts

-- Every 15 minutes.
abbrev quarterly : ScheduleConfig
quarterly = record nightly {
  schedule_type = str "rate";
  rate_interval = pos 15;
  rate_unit = str "minutes";
}

rate_fires_on_grid_example :
    (rate_next 1000 (rate_duration quarterly) (1000 + 40 * minute)
      ≡ 1000 + (40 * minute / (15 * minute) + 1) * (15 * minute))
    × (1000 + 40 * minute < rate_next 1000 (rate_duration quarterly) (1000 + 40 * minute))
    × (rate_next 1000 (rate_duration quarterly) (1000 + 40 * minute)
        ≤ 1000 + 40 * minute + 15 * minute)
rate_fires_on_grid_example =
    rate_fires_on_grid quarterly 15 minute 1000 (1000 + 40 * minute) (by_minutes refl refl) refl
      (omega arith) (omega arith) (omega arith)

rate_stuck_in_past_example : rate_next 0 (pos minute) (half_word + minute) ≤ half_word + minute
rate_stuck_in_past_example =
    rate_stuck_in_past 0 minute (half_word + minute) (omega arith) (omega arith) (omega arith)

abbrev three_centuries : ScheduleConfig
three_centuries = record nightly {
  schedule_type = str "rate";
  rate_interval = pos 110000;
  rate_unit = str "days";
}

long_rate_never_fires_example : rate_next 1000 (rate_duration three_centuries) 2000 ≡ 0
long_rate_never_fires_example =
    long_rate_never_fires three_centuries 110000 1000 2000 refl refl (omega arith) (omega arith)

-- A world with a hash that is written in hexadecimal digits.
abbrev hex_world : World MemoryStore Names
hex_world = record sample_world {
  platform = record sample_world.platform {
    sha1_hex = λ s. str "da39a3ee5e6b4b0d3255bfef95601890afd80709";
  };
}

trigger_runs-IsStorable_example :
    IsStorable (new_run hex_world nightly (str "api") 5 6)
    × IsStorable (skipped_run hex_world nightly (str "api") 5 6 7)
unfolding str valid_schedule_name all_name_bytes
trigger_runs-IsStorable_example =
    trigger_runs-IsStorable hex_world nightly (str "api") 5 6 7 (λ t. refl) refl
