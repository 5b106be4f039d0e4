-- ===== src/Store/Bolt/Invariant.antt =====
-- The invariant of the bbolt store: both indexes and the counter agree with the runs.
use Prim.Native.Nat.{ℕ}
use clock_relay.Base.{Result, Option, Text, ℕ, err, some, Bool, ◌≡◌, none, false, ok}
use clock_relay.Store.Bolt.Buckets.{BoltLibrary, Tx}
use clock_relay.Store.Bolt.Views.{Runs, IsIndex, AreNamed}
use clock_relay.Store.Bolt.Keys.{IsPlain, started_key_is, running_key_is}
use clock_relay.Store.Bolt.Effects.{at}
use clock_relay.Store.Bolt.Counting.{Counts}
use clock_relay.Store.Interface.{is_completed_run}
use clock_relay.Base.Ordered.{count_values}
use clock_relay.Model.{Run}

abbrev pub completed_in : Option Run → Bool
completed_in none = false
completed_in (some r) = is_completed_run r

module _ {B : Type 0} (l : BoltLibrary B) where
  abbrev pub read_run : Result Run → Option Run
  read_run (err x) = none
  read_run (ok r) = some r

  abbrev pub decoded : Option Text → Option Run
  decoded none = none
  decoded (some raw) = read_run (l.unmarshal_run raw)

  -- The runs of the store by their ids.
  abbrev pub run_of : Tx B → Runs
  run_of tx id = decoded (at l tx.runs id)

  abbrev pub raw_completed : Text → Bool
  raw_completed raw = completed_in (read_run (l.unmarshal_run raw))

  -- How many completed runs there are.
  abbrev pub completed : Tx B → ℕ
  completed tx = count_values raw_completed (l.bucket.entries tx.runs)

  pub record IsIndexed (tx : Tx B) : Type 0 where
    pub readable :
        (id raw : Text) → at l tx.runs id ≡ some raw → (r : Run) × (l.unmarshal_run raw ≡ ok r)
    pub named : AreNamed IsPlain (run_of tx)
    pub started : IsIndex (started_key_is l) (at l tx.runs_by_started_at) (run_of tx)
    pub running : IsIndex (running_key_is l) (at l tx.running_runs_by_schedule) (run_of tx)
    pub counted : Counts l (completed tx) tx
