-- ===== src/Store/Memory/Pruning.antt =====
-- MemoryStore.PruneRuns: what the runs of the store are afterwards.
use clock_relay.Store.Retention.Rule.{
  is_expired, admitted, deleted_add_kept, is_fresh, running_run_kept, kept_by_victims,
  expired_run_removed, kept_exactly,
}
use clock_relay.Store.Retention.Ids.{has_id, IsUnique}
use clock_relay.Store.Retention.{prune_victims, is_live}
use clock_relay.Store.Interface.{RunRetentionResult}
use clock_relay.Model.{Time, Run}
use clock_relay.Config.Validate.{member}
use clock_relay.Config.Types.{RunRetentionConfig}
use clock_relay.Store.Memory.{
  MemoryStore, stored_runs, delete_all, any_running, prune_runs, has_running_run,
}
use clock_relay.Base.{
  Text, has, Map, del, List, IsMap, ◌≡◌, keep, any, count_if, ◌+◌, All, not, text_eq, ap, sym, ◌&&◌,
  ok, false, keep_all, ◌∙◌, All-keep_of, ◌∷◌, any-keep, All-map, arith, [], keep-keep,
  count_if-keep, keep-cong, refl, text_eq_comm, Result, err,
}

abbrev pub report_of : Result RunRetentionResult → RunRetentionResult
report_of (err x) = record { deleted = 0; kept = 0 }
report_of (ok r) = r

module _ (s : MemoryStore) (retention : RunRetentionConfig) (now : Time) where
  -- The store that PruneRuns leaves and the report that it returns.
  abbrev pub pruned : MemoryStore
  pruned = (prune_runs retention now s).1

  abbrev pub reported : RunRetentionResult
  reported = report_of (prune_runs retention now s).0

  abbrev removed : List Text
  removed = (prune_victims (stored_runs s.runs) retention now).1

has_id-stored_runs : (k : Text) (m : Map Run) → has_id k (stored_runs m) ≡ has k m
unfolding stored_runs has
has_id-stored_runs k [] = refl
has_id-stored_runs k ((j, r) ∷ m) = ground (arith, has_id-stored_runs k m)

pub stored_runs-IsUnique : (m : Map Run) → IsMap m → IsUnique (stored_runs m)
unfolding stored_runs
stored_runs-IsUnique [] h = tt
stored_runs-IsUnique ((k, r) ∷ m) h = (has_id-stored_runs k m ∙ h.0, stored_runs-IsUnique m h.1)

stored_runs-del :
    (k : Text) (m : Map Run)
    → stored_runs (del k m) ≡ keep (λ r. not (text_eq r.id k)) (stored_runs m)
unfolding stored_runs del
stored_runs-del k [] = refl
stored_runs-del k ((j, r) ∷ m) = ground (arith, stored_runs-del k m)

pub stored_runs-delete_all :
    (ids : List Text) (m : Map Run)
    → stored_runs (delete_all ids m) ≡ keep (λ r. not (member r.id ids)) (stored_runs m)
unfolding delete_all member
stored_runs-delete_all [] m = sym (keep_all _ (stored_runs m) (λ r. refl))
stored_runs-delete_all (id ∷ ids) m =
    stored_runs-delete_all ids (del id m)
    ∙ ap (keep (λ r. not (member r.id ids))) (stored_runs-del id m)
    ∙ keep-keep _ _ (stored_runs m)
    ∙ keep-cong (λ r. not (text_eq r.id id) && not (member r.id ids)) _ (stored_runs m)
        (λ r. ground (arith, text_eq_comm r.id id))

any_running_lem :
    (name : Text) (m : Map Run)
    → any_running name m ≡ any (λ r. text_eq r.run.schedule_name name && is_live r) (stored_runs m)
unfolding any_running stored_runs
any_running_lem name [] = refl
any_running_lem name ((k, r) ∷ m) = ground (arith, any_running_lem name m)

module _ (s : MemoryStore) (retention : RunRetentionConfig) (now : Time) (keys : IsMap s.runs) where
  unique : IsUnique (stored_runs s.runs)
  unique = stored_runs-IsUnique s.runs keys

  left :
      stored_runs (pruned s retention now).runs
      ≡ keep (λ r. not (member r.id (removed s retention now))) (stored_runs s.runs)
  unfolding prune_runs
  left = stored_runs-delete_all (removed s retention now) s.runs

  -- Pruning does not change whether a schedule has a running run.
  pub has_running_run-prune_runs :
      (name : Text) → has_running_run name (pruned s retention now) ≡ has_running_run name s
  unfolding has_running_run
  has_running_run-prune_runs name = ap ok (
      any_running_lem name (pruned s retention now).runs
      ∙ ap (any _) left
      ∙ any-keep _ _ (stored_runs s.runs) (
          All-map _ _ (stored_runs s.runs) (λ r h live. ground (arith, h))
            (running_run_kept (stored_runs s.runs) retention now unique))
      ∙ sym (any_running_lem name s.runs))

  -- After pruning the store has as many completed runs as the report says, and these are the runs
  -- of the configured number of days, cut to the configured number of records.
  pub count-prune_runs :
      (count_if (λ r. not (is_live r)) (stored_runs (pruned s retention now).runs)
        ≡ (reported s retention now).kept)
      × ((reported s retention now).kept
          ≡ admitted retention (count_if (is_fresh retention now) (stored_runs s.runs)))
  unfolding prune_runs
  count-prune_runs = (
    ap (count_if _) left
        ∙ count_if-keep _ _ (stored_runs s.runs)
        ∙ sym (kept_by_victims (stored_runs s.runs) retention now unique),
    kept_exactly (stored_runs s.runs) retention now unique,
  )

  -- PruneRuns succeeds with a report whose two numbers add up to the completed runs that the store
  -- had, and whose number of kept runs is that of the completed runs that are left.
  pub report-prune_runs :
      (r : RunRetentionResult) × ((prune_runs retention now s).0 ≡ ok r)
      × (r.deleted + r.kept ≡ count_if (λ q. not (is_live q)) (stored_runs s.runs))
      × (r.kept ≡ count_if (λ q. not (is_live q)) (stored_runs (pruned s retention now).runs))
  unfolding prune_runs
  report-prune_runs = (
    reported s retention now,
    refl,
    deleted_add_kept (stored_runs s.runs) retention now unique,
    sym count-prune_runs.0,
  )

  -- No completed run that is left is older than the configured number of days.
  pub age-prune_runs :
      All (λ r. is_expired retention now r ≡ false) (stored_runs (pruned s retention now).runs)
  age-prune_runs = rw left (
      All-keep_of _ _ (stored_runs s.runs) (
        All-map _ _ (stored_runs s.runs) (λ r h q. ground arith)
          (expired_run_removed (stored_runs s.runs) retention now unique)))
