-- ===== src/Engine/Pruning.antt =====
-- pruneRuns, markRunPruned and maybePruneRuns of internal/engine/engine.go.
use clock_relay.Model.{Time}
use clock_relay.Engine.World.{World, Engine, run_prune_every, run_prune_every_n}
use clock_relay.Base.{Result, Bool, if◌then◌else◌, ◌>>=◌, ◌==◌, ◌+◌, ok, ◌||◌, leb}

module _ {S C : Type 0} (w : World S C) where
  -- pruneRuns
  unfoldable pub prune_runs : Time → Engine S C → Result (Unit {0}) × Engine S C
  prune_runs now e =
      let (r, store) = w.store.prune_runs e.cfg.run_retention now e.store in
      (r >>= (λ _. ok tt), record e { store = store })

  -- markRunPruned
  unfoldable pub mark_run_pruned : Time → Engine S C → Engine S C
  mark_run_pruned now e = record e { last_run_prune = now; runs_since_prune = 0 }

  -- The test of maybePruneRuns, on the counter after its increment.
  unfoldable pub should_prune : Time → Engine S C → Bool
  should_prune now e =
      e.last_run_prune == 0
      || leb (e.last_run_prune + run_prune_every) now
      || leb run_prune_every_n (e.runs_since_prune + 1)

  -- maybePruneRuns; an error of pruneRuns is only logged
  unfoldable pub maybe_prune_runs : Time → Time → Engine S C → Engine S C
  unfolding should_prune mark_run_pruned prune_runs
  maybe_prune_runs now later e =
      if should_prune now e
      then (prune_runs later (mark_run_pruned now e)).1
      else record e { runs_since_prune = e.runs_since_prune + 1 }
