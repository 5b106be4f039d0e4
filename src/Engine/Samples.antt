-- ===== src/Engine/Samples.antt =====
-- A small world for tests: the memory store, a cron package that keeps names under ids, and a
-- configuration with one schedule.
use clock_relay.Base.Int.{pos}
use clock_relay.Model.{Time}
use clock_relay.Config.Types.{ScheduleConfig, Config}
use Prim.Native.Nat.{max}
use clock_relay.Engine.World.{World, CronMethods, CronLaws, Engine}
use clock_relay.Store.Memory.{memory_methods, MemoryStore, new_memory_store}
use clock_relay.Base.{
  Text, ℕ, List, Option, none, some, ◌≤◌, ◌≡◌, ok, arith, if◌then◌else◌, [], refl, ◌==◌, ◌∷◌, ◌+◌,
  str, false,
}

-- A cron package that only keeps the names under their ids.
abbrev pub Names : Type 0
Names = List (ℕ × Text)

unfoldable pub name_at : Names → ℕ → Option Text
name_at [] k = none
name_at ((id, n) ∷ c) k = if id == k then some n else name_at c k

unfoldable pub without : ℕ → Names → Names
without k [] = []
without k ((id, n) ∷ c) = let rest = without k c in if id == k then rest else (id, n) ∷ rest

-- Larger than every id.
unfoldable pub next_id : Names → ℕ
next_id [] = 1
next_id ((id, n) ∷ c) = max (id + 1) (next_id c)

name_at-beyond : (c : Names) (k : ℕ) → next_id c ≤ k → name_at c k ≡ none
unfolding name_at next_id
name_at-beyond [] k h = refl
name_at-beyond ((id, n) ∷ c) k h = let rest = name_at-beyond c k (omega arith) in ground arith

name_at-without :
    (id : ℕ) (c : Names) (k : ℕ)
    → name_at (without id c) k ≡ (if id == k then none else name_at c k)
unfolding name_at without
name_at-without id [] k = ground arith
name_at-without id ((i, n) ∷ c) k = let rest = name_at-without id c k in ground arith

abbrev pub names_cron : CronMethods Names
names_cron = record {
  new_parser = ok tt;
  parse = λ spec. ok tt;
  new_cron = [];
  schedule_job = λ job name c. (ok (next_id c), (next_id c, name) ∷ c);
  remove = without;
  entry = name_at;
  entry_next = λ c id. 0;
  entry_prev = λ c id. 0;
}

pub names_laws : CronLaws names_cron
unfolding name_at
names_laws = record {
  entry-new_cron = λ k. refl;
  schedule_job-fresh = λ j n c id h. name_at-beyond c id (ground (arith, h));
  entry-schedule_job = λ j n c id k h. ground (arith, h);
  entry-schedule_job_failed = λ j n c e k h. absurd (ground (arith, h));
  entry-remove = λ id c k. name_at-without id c k;
}

abbrev pub sample_world : World MemoryStore Names
sample_world = record {
  platform = record {
    load_location = λ name. ok 0;
    parse_in_location = λ layout raw location. ok 0;
    parse_rfc3339 = λ raw. ok 0;
    format_rfc3339_nano = λ t. [];
    sha1_hex = λ s. s;
  };
  store = memory_methods;
  cron = names_cron;
  trigger_target = λ s run instances. record { structured_output = []; error = none };
}

abbrev pub nightly : ScheduleConfig
nightly = record {
  name = str "nightly";
  description = [];
  schedule_type = str "cron";
  cron = str "0 2 * * *";
  timezone = [];
  run_at = [];
  starts_at = [];
  rate_interval = pos 0;
  rate_unit = [];
  completed_at = none;
  paused = false;
  timeout = pos 0;
  allow_concurrent = false;
  target = record {
    type = str "http";
    url = str "http://localhost/hook";
    method = [];
    headers = [];
    body = none;
    args = none;
    queue = [];
    job_type = [];
    instance_name = [];
  };
  next_run = 0;
  previous_run = 0;
}

abbrev pub one_job : Config
one_job = record {
  server = record { addr = [] };
  store = record { type = []; path = [] };
  run_retention = record { max_records = pos 0; max_age_days = pos 0 };
  run_logging = record { stdout = [] };
  faktory = [];
  schedules = nightly ∷ [];
}

abbrev pub clock : ℕ → Time
clock k = 1000 + k

-- An engine with the nightly job, before any run.
abbrev pub idle : Engine MemoryStore Names
idle = record {
  cfg = one_job;
  store = new_memory_store;
  cron = (1, str "nightly") ∷ [];
  schedules = (str "nightly", nightly) ∷ [];
  entry_ids = (str "nightly", 1) ∷ [];
  last_run_prune = 900;
  runs_since_prune = 0;
  pending = [];
  events = [];
}
