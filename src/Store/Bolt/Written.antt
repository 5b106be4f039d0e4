-- ===== src/Store/Bolt/Written.antt =====
-- writeRun keeps the invariant and sets one run.
use clock_relay.Base.Int.{half_word}
use clock_relay.Base.{
  Text, Option, Bool, ◌≡◌, ℕ, if◌then◌else◌, ok, ◌+◌, text_eq, subst, some, none, ◌<◌, refl, ◌-◌,
  Bool-cases, inl, arith, inr,
}
use clock_relay.Store.Bolt.Buckets.{BoltLibrary, BoltLaws, Tx}
use clock_relay.Store.Bolt.Writing.{decoded_old, remove_old, count_written}
use clock_relay.Store.Bolt.Indexes.{put_run}
use clock_relay.Store.Bolt.Views.{key_at}
use clock_relay.Store.Bolt.Keys.{started_key_is, running_key_is}
use clock_relay.Store.Bolt.Effects.{at, bind_ok, ok_inj, at-put_value, remove_run_indexes_lem}
use clock_relay.Store.Bolt.Counting.{Counts, Recounted, increment_one, decrement_one}
use clock_relay.Store.Bolt.Invariant.{decoded, completed_in}
use clock_relay.Store.Interface.{is_completed_run}
use clock_relay.Base.Ordered.{put_ordered}
use clock_relay.Model.{Run}

module _ {B : Type 0} (l : BoltLibrary B) where
  -- One run has been put into the bucket of the runs.
  pub record PutRun (id raw : Text) (tx tx' : Tx B) : Type 0 where
    pub runs : l.bucket.entries tx'.runs ≡ put_ordered id raw (l.bucket.entries tx.runs)
    pub run_at : (j : Text) → at l tx'.runs j ≡ (if text_eq id j then some raw else at l tx.runs j)
    pub started : tx'.runs_by_started_at ≡ tx.runs_by_started_at
    pub running : tx'.running_runs_by_schedule ≡ tx.running_runs_by_schedule
    pub run_stats : tx'.run_stats ≡ tx.run_stats

  pub put_run_lem :
      (laws : BoltLaws l) (id raw : Text) (tx tx' : Tx B)
      → put_run l id raw tx ≡ ok tx'
      → PutRun id raw tx tx'
  unfolding put_run
  put_run_lem laws id raw tx tx' h =
      let (b, done, made) = bind_ok (l.bucket.put_value id raw tx.runs) _ h in
      subst (λ t. PutRun id raw tx t) (ok_inj made)
        (record {
          runs = laws.bucket.entries-put_value id raw tx.runs b done;
          run_at = λ j. at-put_value l laws id raw tx.runs b j done;
          started = refl;
          running = refl;
          run_stats = refl;
        })

  pub decoded_old_lem :
      (o : Option Text) (old : Option Run) → decoded_old l o ≡ ok old → decoded l o ≡ old
  decoded_old_lem none old h = ok_inj h
  decoded_old_lem (some raw) old h =
      let (r, read, made) = bind_ok (l.unmarshal_run raw) _ h in rw read (ok_inj made)

  -- The keys of the old run, if there is one, are gone.
  pub record Dropped (old : Option Run) (tx tx' : Tx B) : Type 0 where
    pub runs : tx'.runs ≡ tx.runs
    pub run_stats : tx'.run_stats ≡ tx.run_stats
    pub started :
        (k : Text)
        → at l tx'.runs_by_started_at k
          ≡ (if key_at (started_key_is l) old k then none else at l tx.runs_by_started_at k)
    pub running :
        (k : Text)
        → at l tx'.running_runs_by_schedule k
          ≡ (if key_at (running_key_is l) old k then none else at l tx.running_runs_by_schedule k)

  pub remove_old_lem :
      (laws : BoltLaws l) (old : Option Run) (tx tx' : Tx B)
      → remove_old l old tx ≡ ok tx'
      → Dropped old tx tx'
  remove_old_lem laws none tx tx' h =
      subst (λ t. Dropped none tx t) (ok_inj h)
        (record { runs = refl; run_stats = refl; started = λ k. refl; running = λ k. refl })
  remove_old_lem laws (some old) tx tx' h =
      let d = remove_run_indexes_lem l laws old tx tx' h in
      record { runs = d.runs; run_stats = d.run_stats; started = d.started; running = d.running }

  abbrev pub bit : Bool → ℕ
  bit b = if b then 1 else 0

  pub same_count : (n : ℕ) (tx tx' : Tx B) → Counts l n tx → ok tx ≡ ok tx' → Recounted l n tx tx'
  same_count n tx tx' h made =
      subst (λ t. Recounted l n tx t) (ok_inj made)
        (record { runs = refl; started = refl; running = refl; counts = h })

  -- The change of the counter is that of the completed runs.
  pub count_written_lem :
      (laws : BoltLaws l) (run : Run) (old : Option Run) (n : ℕ) (tx tx' : Tx B)
      → n + 1 < half_word
      → Counts l n tx
      → count_written l run old tx ≡ ok tx'
      → Recounted l (n + bit (is_completed_run run) - bit (completed_in old)) tx tx'
  unfolding count_written
  count_written_lem laws run none n tx tx' small h made = elim (Bool-cases (is_completed_run run)) [
    | inl c ↦ rw c (
        subst (λ m. Recounted l m tx tx') (omega arith)
          (increment_one l laws n tx tx' small h (rw c at made)))
    | inr c ↦
        rw c
          (subst (λ m. Recounted l m tx tx') (omega arith) (same_count n tx tx' h (rw c at made)))
  ]
  count_written_lem laws run (some q) n tx tx' small h made =
      elim (Bool-cases (is_completed_run run)) [
        | inl c ↦ elim (Bool-cases (is_completed_run q)) [
          | inl d ↦
              rw (c, d)
                (subst (λ m. Recounted l m tx tx') (omega arith)
                  (same_count n tx tx' h (rw (c, d) at made)))
          | inr d ↦
              rw (c, d)
                (subst (λ m. Recounted l m tx tx') (omega arith)
                  (increment_one l laws n tx tx' small h (rw (c, d) at made)))
        ]
        | inr c ↦ elim (Bool-cases (is_completed_run q)) [
          | inl d ↦
              rw (c, d)
                (subst (λ m. Recounted l m tx tx') (omega arith)
                  (decrement_one l laws n tx tx' (omega arith) h (rw (c, d) at made)))
          | inr d ↦
              rw (c, d)
                (subst (λ m. Recounted l m tx tx') (omega arith)
                  (same_count n tx tx' h (rw (c, d) at made)))
        ]
      ]
