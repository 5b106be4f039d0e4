-- ===== src/Store/Bolt/Sequences.antt =====
-- Sequences of calls of BoltStore against a map of runs.
use clock_relay.Store.Bolt.Finished.{HasFinished}
use clock_relay.Store.Interface.{days_before}
use clock_relay.Base.Int.{ltb_ℤ, pos, pos_part}
use clock_relay.Store.Bolt.Methods.{save_schedule, delete_schedule}
use clock_relay.Store.Bolt.Buckets.{BoltLibrary, IsImage, Tx}
use clock_relay.Config.Types.{RunRetentionConfig, ScheduleConfig}
use clock_relay.Store.Bolt.Views.{Runs, IsSetAt}
use clock_relay.Store.Bolt.Keys.{IsStorable}
use clock_relay.Model.{Run, Time, is_running}
use clock_relay.Base.{
  ◌∷◌, [], Text, List, Result, ◌≡◌, Bool, true, some, err, none, false, ◌≤◌, ok, ◌⊎◌, ℕ, ◌<◌,
}
use clock_relay.Store.Bolt.Methods

-- A call that may change the store.
pub data Call : Type 0 where
  save : Run → Call
  clear : Call
  prune : RunRetentionConfig → Time → Call
  put : ScheduleConfig → Call
  drop : Text → Call

-- The runs to save can be written.
abbrev pub IsPlainCall : Call → Type 0
IsPlainCall (save run) = IsStorable run
IsPlainCall _ = Unit

-- No finished run that is left started before one that was deleted.
abbrev pub IsOldestFirst : Runs → Runs → Type 0
IsOldestFirst m m' =
    (i j : Text) (d q : Run)
    → m i ≡ some d
    → m' i ≡ none
    → m' j ≡ some q
    → is_running q.status ≡ false
    → d.started_at ≤ q.started_at

-- Finished runs have been deleted, the oldest first: those that are too old, and those beyond the
-- maximal number. No other run is deleted, and none without need.
pub record IsPrunedMap (retention : RunRetentionConfig) (now : Time) (m m' : Runs) : Type 0 where
  pub left : (j : Text) (r : Run) → m' j ≡ some r → m j ≡ some r
  pub running : (j : Text) (r : Run) → m j ≡ some r → is_running r.status ≡ true → m' j ≡ some r
  pub young :
      (ltb_ℤ (pos 0) retention.max_age_days ≡ false)
      ⊎ ((j : Text) (q : Run)
          → m' j ≡ some q
          → is_running q.status ≡ false
          → days_before retention.max_age_days now ≤ q.started_at)
  pub few :
      (ltb_ℤ (pos 0) retention.max_records ≡ false)
      ⊎ ((n : ℕ) × HasFinished n m' × (n ≤ pos_part retention.max_records))
  pub first : IsOldestFirst m m'
  pub needed :
      (i : Text) (d : Run)
      → m i ≡ some d
      → m' i ≡ none
      → ((ltb_ℤ (pos 0) retention.max_age_days ≡ true)
          × (d.started_at < days_before retention.max_age_days now))
        ⊎ ((ltb_ℤ (pos 0) retention.max_records ≡ true)
            × HasFinished (pos_part retention.max_records) m')

-- What a call does to the runs, where it succeeds.
abbrev pub Does : Call → Runs → Runs → Type 0
Does (save run) m m' = (r : Run) × IsImage run r × IsSetAt run.id (some r) m m'
Does clear m m' = (j : Text) → m' j ≡ none
Does (prune retention now) m m' = IsPrunedMap retention now m m'
Does (put schedule) m m' = (j : Text) → m' j ≡ m j
Does (drop name) m m' = (j : Text) → m' j ≡ m j

-- A sequence of calls on a map of runs, with whether each succeeds; a call that fails changes nothing.
pub data Calls : List Call → List Bool → Runs → Runs → Type 1 where
  done : {m : Runs} → Calls [] [] m m
  fails :
      {call : Call} {calls : List Call} {oks : List Bool} {m m' : Runs}
      → Calls calls oks m m'
      → Calls (call ∷ calls) (false ∷ oks) m m'
  does :
      {call : Call} {calls : List Call} {oks : List Bool} {m m1 m' : Runs}
      → Does call m m1
      → Calls calls oks m1 m'
      → Calls (call ∷ calls) (true ∷ oks) m m'

abbrev is_ok {ℓ} : {A : Type ℓ} → Result A → Bool
is_ok (err x) = false
is_ok (ok a) = true

abbrev pub reported {ℓ} : {A : Type ℓ} {B : Type 0} → Result A × Tx B → Bool × Tx B
reported (res, tx) = (is_ok res, tx)

module _ {B : Type 0} (l : BoltLibrary B) where
  -- The call and whether it succeeded.
  unfoldable pub call_store : Call → Tx B → Bool × Tx B
  unfolding Methods.save_run Methods.clear_runs Methods.prune_runs save_schedule delete_schedule
  call_store (save run) db = reported (Methods.save_run l run db)
  call_store clear db = reported (Methods.clear_runs l db)
  call_store (prune retention now) db = reported (Methods.prune_runs l retention now db)
  call_store (put schedule) db = reported (save_schedule l schedule db)
  call_store (drop name) db = reported (delete_schedule l name db)

  unfoldable pub call_all : List Call → Tx B → List Bool × Tx B
  unfolding call_store
  call_all [] db = ([], db)
  call_all (call ∷ calls) db =
      let (succeeded, db1) = call_store call db in
      let (oks, db') = call_all calls db1 in (succeeded ∷ oks, db')
