-- ===== src/Engine/Storable.antt =====
-- The runs that Trigger makes can be written to the bbolt store and found again.
use clock_relay.Config.Types.{ScheduleConfig}
use clock_relay.Model.{Time}
use clock_relay.Store.Bolt.Keys.{lacks_nul, IsStorable}
use clock_relay.Engine.Runs.{run_id, new_run, skipped_run}
use clock_relay.Engine.World.{World}
use clock_relay.Store.Bolt.Buckets.{is_ascii}
use clock_relay.Config.Validate.{is_name_byte, all_name_bytes, valid_schedule_name}
use clock_relay.Base.{
  ◌∷◌, [], Text, ℕ, ◌≡◌, true, str, ltb, ◌++◌, take, ◌==◌, arith, suc, false, refl, zero,
}

name_byte_ascii : (c : ℕ) → is_name_byte c ≡ true → (ltb c 128 ≡ true) × ((c == 0) ≡ false)
name_byte_ascii c h = ground arith

all_name_bytes_plain :
    (s : Text) → all_name_bytes s ≡ true → (is_ascii s ≡ true) × (lacks_nul s ≡ true)
unfolding all_name_bytes
all_name_bytes_plain [] h = (refl, refl)
all_name_bytes_plain (c ∷ s) h = ground (arith, name_byte_ascii c, all_name_bytes_plain s)

is_ascii-append : (a b : Text) → is_ascii a ≡ true → is_ascii b ≡ true → is_ascii (a ++ b) ≡ true
is_ascii-append [] b h k = k
is_ascii-append (c ∷ a) b h k = ground (arith, is_ascii-append a b)

is_ascii-take : (n : ℕ) (s : Text) → is_ascii s ≡ true → is_ascii (take n s) ≡ true
is_ascii-take zero s h = refl
is_ascii-take (suc n) [] h = refl
is_ascii-take (suc n) (c ∷ s) h = ground (arith, is_ascii-take n s)

module _ {S C : Type 0} (w : World S C) where
  run_id_ascii :
      (name triggered_by : Text) (at : Time)
      → ((s : Text) → is_ascii (w.platform.sha1_hex s) ≡ true)
      → is_ascii name ≡ true
      → is_ascii (run_id w name triggered_by at) ≡ true
  unfolding run_id str
  run_id_ascii name triggered_by at hex h =
      is_ascii-append name _ h (is_ascii-take 12 (w.platform.sha1_hex _) (hex _))

  -- A run that Trigger starts or skips of a schedule with a valid name, where hashes are written in
  -- ASCII, can be written to the bbolt store and found again.
  pub trigger_runs-IsStorable :
      (s : ScheduleConfig) (triggered_by : Text) (at started finished : Time)
      → ((t : Text) → is_ascii (w.platform.sha1_hex t) ≡ true)
      → valid_schedule_name s.name ≡ true
      → IsStorable (new_run w s triggered_by at started)
        × IsStorable (skipped_run w s triggered_by at started finished)
  unfolding new_run skipped_run valid_schedule_name
  trigger_runs-IsStorable s triggered_by at started finished hex valid =
      let (ascii, free) = all_name_bytes_plain s.name (ground (arith, valid)) in
      let id = run_id_ascii s.name triggered_by at hex ascii in
      (
        record { ascii_id = id; ascii_name = ascii; nul_free = free },
        record { ascii_id = id; ascii_name = ascii; nul_free = free },
      )
