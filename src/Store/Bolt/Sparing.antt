-- ===== src/Store/Bolt/Sparing.antt =====
-- BoltStore.PruneRuns and the guard against overlapping runs.
use clock_relay.Store.Bolt.Running.{has_running_run-cong}
use clock_relay.Store.Bolt.Pruned.{prune_runs-IsPruned}
use clock_relay.Store.Bolt.Invariant.{IsIndexed}
use clock_relay.Store.Bolt.Keys.{lacks_nul}
use clock_relay.Base.Int.{ℤ}
use clock_relay.Model.{Time}
use clock_relay.Config.Types.{RunRetentionConfig}
use clock_relay.Store.Bolt.Buckets.{BoltLibrary, BoltLaws, Tx}
use clock_relay.Base.{Text, ℕ, ◌≡◌, true, ok}
use clock_relay.Store.Bolt.Pruning.{prune_runs}
use clock_relay.Store.Bolt.Methods.{has_running_run}

-- PruneRuns that succeeds on a store whose indexes and counter agree with its runs changes no answer
-- of HasRunningRun, for names without NUL.
pub has_running_run_spared :
    {B : Type 0} (l : BoltLibrary B) (laws : BoltLaws l) (retention : RunRetentionConfig)
    (now : Time) (name : Text) (tx tx' : Tx B) (deleted : ℕ) (kept : ℤ)
    → lacks_nul name ≡ true
    → IsIndexed l tx
    → prune_runs l retention now tx ≡ ok ((deleted, kept), tx')
    → has_running_run l name tx' ≡ has_running_run l name tx
has_running_run_spared l laws retention now name tx tx' deleted kept plain h made =
    let p = (prune_runs-IsPruned l laws retention now tx tx' deleted kept h made).phase in
    has_running_run-cong l laws name tx' tx plain p.indexed h (
      (λ (id, r, there, live, named). (id, r, p.left id r there, live, named)),
      λ (id, r, there, live, named). (id, r, p.running id r there live, live, named),
    )
