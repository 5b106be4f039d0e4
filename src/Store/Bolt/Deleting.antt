-- ===== src/Store/Bolt/Deleting.antt =====
-- What the steps of deleteRunByIndexedKey leave.
use clock_relay.Store.Bolt.Counter.{increment_completed_run_count}
use clock_relay.Base.Int.{half_word, negsuc}
use Prim.Native.Nat.{ℕ}
use clock_relay.Base.{
  Text, ℕ, ◌≡◌, ◌<◌, del, ok, some, if◌then◌else◌, subst, none, text_eq, ap, ◌+◌, arith, refl, ◌∙◌,
  ◌-◌, Bool-cases, inl, inr,
}
use clock_relay.Store.Bolt.Buckets.{BoltLibrary, BoltLaws, Tx}
use clock_relay.Store.Bolt.Indexes.{delete_run}
use clock_relay.Store.Bolt.Views.{AreNamed, IsSetAt, IsMoved, moved-IsIndex}
use clock_relay.Store.Bolt.Keys.{
  IsPlain, started_key_is, running_key_is, started_key-Tells, running_key-Tells,
}
use clock_relay.Store.Bolt.Effects.{at, bind_ok, ok_inj, at-delete_key, Indexed}
use clock_relay.Store.Bolt.Counting.{Counts, Recounted, decrement_one}
use clock_relay.Store.Bolt.Invariant.{
  run_of, decoded, completed, completed_in, raw_completed, IsIndexed,
}
use clock_relay.Store.Bolt.Written.{bit, same_count}
use clock_relay.Store.Bolt.Replacing.{value_counts_lem}
use clock_relay.Store.Interface.{is_completed_run}
use clock_relay.Base.Ordered.{count_values, count-del}
use clock_relay.Model.{Run}

module _ {B : Type 0} (l : BoltLibrary B) where
  -- One run has been deleted from the bucket of the runs.
  pub record DroppedRun (id : Text) (tx tx' : Tx B) : Type 0 where
    pub runs : l.bucket.entries tx'.runs ≡ del id (l.bucket.entries tx.runs)
    pub run_at : (j : Text) → at l tx'.runs j ≡ (if text_eq id j then none else at l tx.runs j)
    pub started : tx'.runs_by_started_at ≡ tx.runs_by_started_at
    pub running : tx'.running_runs_by_schedule ≡ tx.running_runs_by_schedule
    pub run_stats : tx'.run_stats ≡ tx.run_stats

  pub delete_run_lem :
      (laws : BoltLaws l) (id : Text) (tx tx' : Tx B)
      → delete_run l id tx ≡ ok tx'
      → DroppedRun id tx tx'
  unfolding delete_run
  delete_run_lem laws id tx tx' h =
      let (b, done, made) = bind_ok (l.bucket.delete_key id tx.runs) _ h in
      subst (λ t. DroppedRun id tx t) (ok_inj made)
        (record {
          runs = laws.bucket.entries-delete_key id tx.runs b done;
          run_at = λ j. at-delete_key l laws id tx.runs b j done;
          started = refl;
          running = refl;
          run_stats = refl;
        })

  pub count_deleted :
      (laws : BoltLaws l) (r : Run) (n : ℕ) (tx tx' : Tx B)
      → n < half_word
      → Counts l n tx
      → (if is_completed_run r then increment_completed_run_count l (negsuc 0) tx else ok tx)
        ≡ ok tx'
      → Recounted l (n - bit l (is_completed_run r)) tx tx'
  count_deleted laws r n tx tx' small h made = elim (Bool-cases (is_completed_run r)) [
    | inl c ↦ rw c (decrement_one l laws n tx tx' small h (rw c at made))
    | inr c ↦
        rw c
          (subst (λ m. Recounted l m tx tx') (omega arith) (same_count l n tx tx' h (rw c at made)))
  ]

module _ {B : Type 0} (l : BoltLibrary B) (laws : BoltLaws l) (id : Text) (r : Run)
    (tx tx1 tx2 tx' : Tx B) (was : run_of l tx id ≡ some r) (removed : Indexed l r none tx tx1)
    (dropped : DroppedRun l id tx1 tx2) (n : ℕ) (recounted : Recounted l n tx2 tx') where
  runs_at : (j : Text) → at l tx'.runs j ≡ (if text_eq id j then none else at l tx.runs j)
  runs_at j =
      ap (λ b. at l b j) recounted.runs
      ∙ dropped.run_at j
      ∙ ap (λ b. if text_eq id j then none else at l b j) removed.runs

  pub run_gone : IsSetAt id none (run_of l tx) (run_of l tx')
  run_gone j =
      ap (decoded l) (runs_at j)
      ∙ (elim (Bool-cases (text_eq id j)) [ inl e ↦ rw e | inr e ↦ rw e ])

  started-IsMoved :
      IsMoved
        (started_key_is l)
        id
        (some r)
        none
        (at l tx.runs_by_started_at)
        (at l tx'.runs_by_started_at)
  started-IsMoved k = ap (λ b. at l b k) (recounted.started ∙ dropped.started) ∙ removed.started k

  running-IsMoved :
      IsMoved
        (running_key_is l)
        id
        (some r)
        none
        (at l tx.running_runs_by_schedule)
        (at l tx'.running_runs_by_schedule)
  running-IsMoved k = ap (λ b. at l b k) (recounted.running ∙ dropped.running) ∙ removed.running k

  pub completed_change : completed l tx' + bit l (is_completed_run r) ≡ completed l tx
  completed_change =
      let entries =
        ap l.bucket.entries recounted.runs
        ∙ dropped.runs
        ∙ ap (λ b. del id (l.bucket.entries b)) removed.runs in
      let old_bit = value_counts_lem l (at l tx.runs id) ∙ ap (λ o. bit l (completed_in o)) was in
      omega (
        arith,
        ap (count_values (raw_completed l)) entries,
        count-del (raw_completed l) id (l.bucket.entries tx.runs)
            (laws.bucket.entries-IsOrdered tx.runs),
        old_bit,
      )

  module _ (h : IsIndexed l tx) where
    left_run : (j : Text) (q : Run) → run_of l tx' j ≡ some q → run_of l tx j ≡ some q
    left_run j q e = ground (arith, run_gone j, e)

    left_named : AreNamed IsPlain (run_of l tx')
    left_named = record {
      name_of = λ j q e. h.named.name_of j q (left_run j q e);
      good = λ j q e. h.named.good j q (left_run j q e);
    }

    pub still-IsIndexed : Counts l (completed l tx') tx' → IsIndexed l tx'
    still-IsIndexed counts = record {
      readable = λ j raw e. h.readable j raw (ground (arith, runs_at j, e));
      named = left_named;
      started =
          moved-IsIndex IsPlain (started_key_is l) (started_key-Tells l laws) id (some r) none _ _
            (run_of l tx) (run_of l tx') was h.named left_named run_gone started-IsMoved h.started;
      running =
          moved-IsIndex IsPlain (running_key_is l) (running_key-Tells l laws) id (some r) none _ _
            (run_of l tx) (run_of l tx') was h.named left_named run_gone running-IsMoved h.running;
      counted = counts;
    }
