-- ===== src/Engine/Reachability.antt =====
-- From NewEngine on, whatever is called and whatever fails, the registry is consistent.
use clock_relay.Engine.Registry.{register_schedule}
use clock_relay.Config.Defaults.{apply_defaults}
use clock_relay.Engine.Consistency.{stored-IsConsistent, register_schedule-IsConsistent}
use clock_relay.Engine.Entries.{IsConsistent}
use clock_relay.Model.{Time}
use clock_relay.Config.Types.{Config, ScheduleConfig}
use clock_relay.Engine.Requests.{
  perform_all, Request, perform, perform-IsConsistent, same-IsConsistent,
}
use clock_relay.Engine.Pruning.{prune_runs, mark_run_pruned}
use clock_relay.Engine.Startup.{
  register_all, new_engine, empty_engine, load_schedules, and_then, seed_or_load, with_listed,
  is_nil, save_all,
}
use clock_relay.Engine.World.{World, CronLaws, Engine}
use clock_relay.Base.{
  get, ℕ, List, ◌∷◌, Result, inl, refl, err, inr, ok, ◌+◌, [], Bool-cases, ◌&&◌, not,
}

module _ {S C : Type 0} (w : World S C) (laws : CronLaws w.cron) where
  empty-IsConsistent : (cfg : Config) (store : S) → IsConsistent w (empty_engine w cfg store)
  unfolding get
  empty-IsConsistent cfg store = record {
    owned = record { of_id = λ k id h. cc; to_id = λ id k h. cc (laws.entry-new_cron id) };
    named = λ k. tt;
    armed = λ k. refl;
  }

  and_then-IsConsistent :
      (out rest : Result (Unit {0}) × Engine S C)
      → IsConsistent w out.1
      → IsConsistent w rest.1
      → IsConsistent w (and_then out rest).1
  and_then-IsConsistent (err x, e) rest c d = c
  and_then-IsConsistent (ok u, e) rest c d = d

  register_all-IsConsistent :
      (l : List ScheduleConfig) (now : ℕ → Time) (e : Engine S C)
      → IsConsistent w e
      → IsConsistent w (register_all w now l e).1
  unfolding register_all
  register_all-IsConsistent [] now e c = c
  register_all-IsConsistent (s ∷ l) now e c =
      let c1 = register_schedule-IsConsistent w laws now s e c in
      and_then-IsConsistent (register_schedule w now s e) _ c1
        (register_all-IsConsistent l (λ k. now (k + 2)) _ c1)

  pruned-IsConsistent :
      (now : Time) (e : Engine S C) → IsConsistent w e → IsConsistent w (prune_runs w now e).1
  unfolding prune_runs
  pruned-IsConsistent now e c = stored-IsConsistent w e _ c

  marked-IsConsistent :
      (now : Time) (e : Engine S C) → IsConsistent w e → IsConsistent w (mark_run_pruned w now e)
  unfolding mark_run_pruned
  marked-IsConsistent now e c =
      same-IsConsistent w (record { cron = refl; schedules = refl; entry_ids = refl }) c

  loaded-IsConsistent :
      (now : ℕ → Time) (cfg : Config) (l : List ScheduleConfig) (out : Result (Unit {0}) × S)
      → IsConsistent w (load_schedules w now cfg l out).1
  loaded-IsConsistent now cfg l (err x, store) = empty-IsConsistent cfg store
  loaded-IsConsistent now cfg l (ok u, store) =
      let e = empty_engine w cfg store in
      let c = pruned-IsConsistent (now 0) e (empty-IsConsistent cfg store) in
      and_then-IsConsistent (prune_runs w (now 0) e) _ c
        (register_all-IsConsistent l _ _ (marked-IsConsistent (now 1) _ c))

  seeded-IsConsistent :
      (now : ℕ → Time) (cfg : Config) (listed : List ScheduleConfig) (store : S)
      → IsConsistent w (seed_or_load w now cfg listed store).1
  seeded-IsConsistent now cfg listed store =
      elim (Bool-cases (is_nil listed && not (is_nil cfg.schedules))) [
        | inl seed ↦
            rw seed (loaded-IsConsistent now cfg cfg.schedules (save_all w cfg.schedules store))
        | inr load ↦ rw load (loaded-IsConsistent now cfg listed (ok tt, store))
      ]

  listed-IsConsistent :
      (now : ℕ → Time) (cfg : Config) (r : Result (List ScheduleConfig)) (store : S)
      → IsConsistent w (with_listed w now cfg r store).1
  listed-IsConsistent now cfg (err x) store = empty-IsConsistent cfg store
  listed-IsConsistent now cfg (ok listed) store = seeded-IsConsistent now cfg listed store

  new_engine-IsConsistent :
      (now : ℕ → Time) (config : Config) (store : S)
      → IsConsistent w (new_engine w now config store).1
  unfolding new_engine
  new_engine-IsConsistent now config store = listed-IsConsistent now (apply_defaults config) _ store

  perform_all-IsConsistent :
      (rs : List Request) (e : Engine S C) → IsConsistent w e → IsConsistent w (perform_all w rs e)
  unfolding perform_all
  perform_all-IsConsistent [] e c = c
  perform_all-IsConsistent (r ∷ rs) e c =
      perform_all-IsConsistent rs (perform w r e) (perform-IsConsistent w laws r e c)

  -- After NewEngine and any calls, failing or not, the entries of the cron package are exactly the
  -- engine's entry ids, and a name has one exactly if its schedule is neither paused nor a
  -- completed one-time schedule: no deleted, renamed, paused or completed schedule fires, and no
  -- other one is forgotten.
  pub registry-IsConsistent :
      (now : ℕ → Time) (config : Config) (store : S) (rs : List Request)
      → IsConsistent w (perform_all w rs (new_engine w now config store).1)
  registry-IsConsistent now config store rs =
      perform_all-IsConsistent rs _ (new_engine-IsConsistent now config store)
