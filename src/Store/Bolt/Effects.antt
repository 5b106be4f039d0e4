-- ===== src/Store/Bolt/Effects.antt =====
-- What the changes of single buckets leave, where they succeed.
use clock_relay.Base.{
  Result, Text, Option, ◌≡◌, ◌>>=◌, ◌>>◌, get, if◌then◌else◌, ok, err, text_eq, some, refl, ap,
  none, ◌∙◌, get-del, Bool, subst, true, ◌&&◌, false,
}
use clock_relay.Store.Bolt.Buckets.{BoltLibrary, BoltLaws, Tx}
use clock_relay.Store.Bolt.Indexes.{
  put_started, delete_started, put_running, delete_running, add_run_indexes, remove_run_indexes,
  run_started_at_index_key, running_run_schedule_key,
}
use clock_relay.Store.Bolt.Keys.{started_key_is, running_key_is}
use clock_relay.Base.Ordered.{get-put_ordered}
use clock_relay.Model.{Run, is_running}

-- A chain that succeeds has succeeded in its first step.
pub bind_ok {ℓ κ} :
    {V : Type ℓ} {W : Type κ} (m : Result V) (f : V → Result W) {b : W}
    → (m >>= f) ≡ ok b
    → (a : V) × (m ≡ ok a) × (f a ≡ ok b)
bind_ok (err x) f h = cc
bind_ok (ok a) f h = (a, refl, h)

pub then_ok {κ} :
    {W : Type κ} (m : Result (Unit {0})) (n : Result W) {b : W} → (m >> n) ≡ ok b → n ≡ ok b
then_ok (err x) n h = cc
then_ok (ok a) n h = h

pub ok_inj {ℓ} : {V : Type ℓ} {a b : V} → ◌≡◌ {A = Result V} (ok a) (ok b) → a ≡ b
ok_inj h = cc

module _ {B : Type 0} (l : BoltLibrary B) where
  -- The value of a key in a bucket.
  abbrev pub at : B → Text → Option Text
  at b k = get k (l.bucket.entries b)

  -- One key of the index by start now stands for `v`.
  pub record Started (key : Text) (v : Option Text) (tx tx' : Tx B) : Type 0 where
    pub runs : tx'.runs ≡ tx.runs
    pub run_stats : tx'.run_stats ≡ tx.run_stats
    pub running : tx'.running_runs_by_schedule ≡ tx.running_runs_by_schedule
    pub started :
        (k : Text)
        → at tx'.runs_by_started_at k ≡ (if text_eq key k then v else at tx.runs_by_started_at k)

  -- One key of the index of running runs now stands for `v`, if the run is running.
  pub record Ran (live : Bool) (key : Text) (v : Option Text) (tx tx' : Tx B) : Type 0 where
    pub runs : tx'.runs ≡ tx.runs
    pub run_stats : tx'.run_stats ≡ tx.run_stats
    pub started : tx'.runs_by_started_at ≡ tx.runs_by_started_at
    pub running :
        (k : Text)
        → at tx'.running_runs_by_schedule k
          ≡ (if live && text_eq key k then v else at tx.running_runs_by_schedule k)

  -- The four buckets that a write of a run can change, by what it does to the indexes: the run's keys
  -- now stand for `v`.
  pub record Indexed (run : Run) (v : Option Text) (tx tx' : Tx B) : Type 0 where
    pub runs : tx'.runs ≡ tx.runs
    pub run_stats : tx'.run_stats ≡ tx.run_stats
    pub started :
        (k : Text)
        → at tx'.runs_by_started_at k
          ≡ (if started_key_is l run k then v else at tx.runs_by_started_at k)
    pub running :
        (k : Text)
        → at tx'.running_runs_by_schedule k
          ≡ (if running_key_is l run k then v else at tx.running_runs_by_schedule k)

  module _ (laws : BoltLaws l) where
    pub at-put_value :
        (k v : Text) (b b' : B) (j : Text)
        → l.bucket.put_value k v b ≡ ok b'
        → at b' j ≡ (if text_eq k j then some v else at b j)
    at-put_value k v b b' j h =
        ap (get j) (laws.bucket.entries-put_value k v b b' h) ∙ get-put_ordered k j v _

    pub at-delete_key :
        (k : Text) (b b' : B) (j : Text)
        → l.bucket.delete_key k b ≡ ok b'
        → at b' j ≡ (if text_eq k j then none else at b j)
    at-delete_key k b b' j h = ap (get j) (laws.bucket.entries-delete_key k b b' h) ∙ get-del k j _

    put_started_lem :
        (key id : Text) (tx tx' : Tx B)
        → put_started l key id tx ≡ ok tx'
        → Started key (some id) tx tx'
    unfolding put_started
    put_started_lem key id tx tx' h =
        let (b, done, made) = bind_ok (l.bucket.put_value key id tx.runs_by_started_at) _ h in
        subst (λ t. Started key (some id) tx t) (ok_inj made)
          (record {
            runs = refl;
            run_stats = refl;
            running = refl;
            started = λ k. at-put_value key id tx.runs_by_started_at b k done;
          })

    put_running_lem :
        (key id : Text) (tx tx' : Tx B)
        → put_running l key id tx ≡ ok tx'
        → Ran true key (some id) tx tx'
    unfolding put_running
    put_running_lem key id tx tx' h =
        let (b, done, made) = bind_ok (l.bucket.put_value key id tx.running_runs_by_schedule) _ h in
        subst (λ t. Ran true key (some id) tx t) (ok_inj made)
          (record {
            runs = refl;
            run_stats = refl;
            started = refl;
            running = λ k. at-put_value key id tx.running_runs_by_schedule b k done;
          })

    pub delete_started_lem :
        (key : Text) (tx tx' : Tx B) → delete_started l key tx ≡ ok tx' → Started key none tx tx'
    unfolding delete_started
    delete_started_lem key tx tx' h =
        let (b, done, made) = bind_ok (l.bucket.delete_key key tx.runs_by_started_at) _ h in
        subst (λ t. Started key none tx t) (ok_inj made)
          (record {
            runs = refl;
            run_stats = refl;
            running = refl;
            started = λ k. at-delete_key key tx.runs_by_started_at b k done;
          })

    delete_running_lem :
        (key : Text) (tx tx' : Tx B) → delete_running l key tx ≡ ok tx' → Ran true key none tx tx'
    unfolding delete_running
    delete_running_lem key tx tx' h =
        let (b, done, made) = bind_ok (l.bucket.delete_key key tx.running_runs_by_schedule) _ h in
        subst (λ t. Ran true key none tx t) (ok_inj made)
          (record {
            runs = refl;
            run_stats = refl;
            started = refl;
            running = λ k. at-delete_key key tx.running_runs_by_schedule b k done;
          })

    put_if_running :
        (live : Bool) (key id : Text) (tx tx' : Tx B)
        → (if live then put_running l key id tx else ok tx) ≡ ok tx'
        → Ran live key (some id) tx tx'
    put_if_running true key id tx tx' h = put_running_lem key id tx tx' h
    put_if_running false key id tx tx' h =
        subst (λ t. Ran false key (some id) tx t) (ok_inj h)
          (record { runs = refl; run_stats = refl; started = refl; running = λ k. refl })

    pub delete_if_running :
        (live : Bool) (key : Text) (tx tx' : Tx B)
        → (if live then delete_running l key tx else ok tx) ≡ ok tx'
        → Ran live key none tx tx'
    delete_if_running true key tx tx' h = delete_running_lem key tx tx' h
    delete_if_running false key tx tx' h =
        subst (λ t. Ran false key none tx t) (ok_inj h)
          (record { runs = refl; run_stats = refl; started = refl; running = λ k. refl })

    pub both_indexes :
        (run : Run) (v : Option Text) (tx tx1 tx' : Tx B)
        → Started (run_started_at_index_key l run) v tx tx1
        → Ran (is_running run.status) (running_run_schedule_key run) v tx1 tx'
        → Indexed run v tx tx'
    both_indexes run v tx tx1 tx' p q = record {
      runs = q.runs ∙ p.runs;
      run_stats = q.run_stats ∙ p.run_stats;
      started = λ k. ap (λ b. at b k) q.started ∙ p.started k;
      running = λ k. q.running k ∙ rw p.running;
    }

    pub add_run_indexes_lem :
        (run : Run) (tx tx' : Tx B)
        → add_run_indexes l run tx ≡ ok tx'
        → Indexed run (some run.id) tx tx'
    unfolding add_run_indexes
    add_run_indexes_lem run tx tx' h =
        let key = run_started_at_index_key l run in
        let (tx1, first, second) = bind_ok (put_started l key run.id tx) _ h in
        both_indexes run (some run.id) tx tx1 tx' (put_started_lem key run.id tx tx1 first) (
          put_if_running (is_running run.status) (running_run_schedule_key run) run.id tx1 tx'
            second)

    pub remove_run_indexes_lem :
        (run : Run) (tx tx' : Tx B) → remove_run_indexes l run tx ≡ ok tx' → Indexed run none tx tx'
    unfolding remove_run_indexes
    remove_run_indexes_lem run tx tx' h =
        let key = run_started_at_index_key l run in
        let (tx1, first, second) = bind_ok (delete_started l key tx) _ h in
        both_indexes run none tx tx1 tx' (delete_started_lem key tx tx1 first)
          (delete_if_running (is_running run.status) (running_run_schedule_key run) tx1 tx' second)
