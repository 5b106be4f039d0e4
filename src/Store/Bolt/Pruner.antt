-- ===== src/Store/Bolt/Pruner.antt =====
-- Single deletions of BoltStore do not fail by themselves.
use clock_relay.Store.Bolt.Deleting.{delete_run_lem}
use clock_relay.Store.Bolt.Effects.{at, delete_if_running, delete_started_lem}
use clock_relay.Store.Bolt.Saving.{completed_bound}
use clock_relay.Store.Interface.{is_completed_run}
use clock_relay.Store.Bolt.Deleted.{run_by_id_total}
use clock_relay.Store.Bolt.Invariant.{IsIndexed, run_of, completed}
use clock_relay.Store.Bolt.Counting.{Counts, completed_run_count_lem, length-put_uint64}
use clock_relay.Model.{Run, is_running}
use clock_relay.Base.Int.{ℤ, half_word, negsuc, pos_part, pos, wrap64, ◌+ℤ◌}
use clock_relay.Store.Bolt.Indexes.{
  delete_started, delete_running, delete_run, delete_run_by_indexed_key, run_by_id,
  running_run_schedule_key,
}
use clock_relay.Store.Bolt.Counter.{
  set_completed_run_count, increment_completed_run_count, completed_run_count_key, put_uint64,
  completed_run_count,
}
use clock_relay.Store.Bolt.Buckets.{BucketMethods, BoltLibrary, BoltLaws, Tx}
use clock_relay.Base.{
  Text, ◌>>=◌, Result, ◌≡◌, get, ok, some, Bool, ap, length, ℕ, ◌∙◌, ◌≤◌, ◌<◌, if◌then◌else◌, true,
  refl, false, arith,
}

-- A result that is no error.
abbrev pub Succeeds {ℓ} : {A : Type ℓ} → Result A → Type ℓ
Succeeds {A = A} m = (a : A) × (m ≡ ok a)

pub chain-Succeeds {ℓ κ} :
    {V : Type ℓ} {W : Type κ} (m : Result V) (f : V → Result W)
    → Succeeds m
    → ((a : V) → m ≡ ok a → Succeeds (f a))
    → Succeeds (m >>= f)
chain-Succeeds m f (a, e) g = let (b, e') = g a e in (b, ap (λ v. v >>= f) e ∙ e')

-- A write to a bucket fails only for what the package documents: not a deletion, and not a value of
-- admitted size under a key that is there.
pub record IsReliable {B : Type 0} (m : BucketMethods B) : Type 0 where
  pub deletes : (k : Text) (b : B) → Succeeds (m.delete_key k b)
  pub overwrites :
      (k v w : Text) (b : B)
      → get k (m.entries b) ≡ some w
      → length v ≤ 2147483646
      → Succeeds (m.put_value k v b)

module _ {B : Type 0} (l : BoltLibrary B) (laws : BoltLaws l) (r : IsReliable l.bucket) where
  set-Succeeds :
      (c : ℤ) (n : ℕ) (tx : Tx B) → Counts l n tx → Succeeds (set_completed_run_count l c tx)
  unfolding set_completed_run_count
  set-Succeeds c n tx counts =
      chain-Succeeds
        (l.bucket.put_value completed_run_count_key (put_uint64 (pos_part c)) tx.run_stats) _
        (r.overwrites completed_run_count_key (put_uint64 (pos_part c)) _ tx.run_stats counts
          (omega (arith, length-put_uint64 (pos_part c))))
        (λ b e. (_, refl))

  increment-Succeeds :
      (delta : ℤ) (n : ℕ) (tx : Tx B)
      → n < half_word
      → Counts l n tx
      → Succeeds (increment_completed_run_count l delta tx)
  unfolding increment_completed_run_count
  increment-Succeeds delta n tx small counts =
      chain-Succeeds (completed_run_count l tx) _
        (pos n, completed_run_count_lem l laws n tx small counts)
        (λ c e. set-Succeeds (wrap64 (c +ℤ delta)) n tx counts)

  delete_started-Succeeds : (key : Text) (tx : Tx B) → Succeeds (delete_started l key tx)
  unfolding delete_started
  delete_started-Succeeds key tx =
      chain-Succeeds (l.bucket.delete_key key tx.runs_by_started_at) _
        (r.deletes key tx.runs_by_started_at) (λ b e. (_, refl))

  delete_running-Succeeds :
      (live : Bool) (key : Text) (tx : Tx B)
      → Succeeds (if live then delete_running l key tx else ok tx)
  unfolding delete_running
  delete_running-Succeeds true key tx =
      chain-Succeeds (l.bucket.delete_key key tx.running_runs_by_schedule) _
        (r.deletes key tx.running_runs_by_schedule) (λ b e. (_, refl))
  delete_running-Succeeds false key tx = (tx, refl)

  delete_run-Succeeds : (id : Text) (tx : Tx B) → Succeeds (delete_run l id tx)
  unfolding delete_run
  delete_run-Succeeds id tx =
      chain-Succeeds (l.bucket.delete_key id tx.runs) _ (r.deletes id tx.runs) (λ b e. (_, refl))

  count-Succeeds :
      (completed : Bool) (n : ℕ) (tx : Tx B)
      → n < half_word
      → Counts l n tx
      → Succeeds (if completed then increment_completed_run_count l (negsuc 0) tx else ok tx)
  count-Succeeds true n tx small counts = increment-Succeeds (negsuc 0) n tx small counts
  count-Succeeds false n tx small counts = (tx, refl)

  pub delete-Succeeds :
      (key id : Text) (q : Run) (tx : Tx B)
      → IsIndexed l tx
      → run_of l tx id ≡ some q
      → Succeeds (delete_run_by_indexed_key l key id tx)
  unfolding delete_run_by_indexed_key
  delete-Succeeds key id q tx h there =
      chain-Succeeds (run_by_id l id tx) _ (q, run_by_id_total l laws id tx q h there)
        (λ run found.
          chain-Succeeds (delete_started l key tx) _ (delete_started-Succeeds key tx) (λ tx1 first.
            chain-Succeeds
              (if is_running run.status
                then delete_running l (running_run_schedule_key run) tx1
                else ok tx1)
              _ (delete_running-Succeeds (is_running run.status) (running_run_schedule_key run) tx1)
              (λ tx2 second.
                chain-Succeeds (delete_run l id tx2) _ (delete_run-Succeeds id tx2) (λ tx3 third.
                  count-Succeeds (is_completed_run run) (completed l tx) tx3
                    (omega (arith, completed_bound l laws tx))
                    (ap (λ b. at l b completed_run_count_key)
                        ((delete_run_lem l laws id tx2 tx3 third).run_stats
                          ∙ (delete_if_running l laws (is_running run.status)
                              (running_run_schedule_key run) tx1 tx2 second).run_stats
                          ∙ (delete_started_lem l laws key tx tx1 first).run_stats)
                      ∙ h.counted)))))
