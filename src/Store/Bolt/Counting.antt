-- ===== src/Store/Bolt/Counting.antt =====
-- What a change of the counter of completed runs leaves.
use Prim.Native.Nat.{ℕ}
use clock_relay.Base.{
  ℕ, ◌≡◌, length, some, ◌<◌, ok, ◌+◌, arith, subst, ◌-◌, refl, ◌∙◌, text_eq_refl,
}
use clock_relay.Store.Bolt.Buckets.{BoltLibrary, BoltLaws, Tx}
use clock_relay.Store.Bolt.Counter.{
  completed_run_count_key, put_uint64, uint64-put_uint64, completed_run_count,
  set_completed_run_count, increment_completed_run_count,
}
use clock_relay.Store.Bolt.Effects.{at, bind_ok, ok_inj, at-put_value}
use clock_relay.Base.Int.{ℤ, pos, negsuc, wrap64, ◌+ℤ◌, half_word, pos_part}

pub length-put_uint64 : (n : ℕ) → length (put_uint64 n) ≡ 8
unfolding put_uint64
length-put_uint64 n = refl

module _ {B : Type 0} (l : BoltLibrary B) where
  -- The counter reads `n`.
  abbrev pub Counts : ℕ → Tx B → Type 0
  Counts n tx = at l tx.run_stats completed_run_count_key ≡ some (put_uint64 n)

  -- Only the counter has changed, and it reads `n`.
  pub record Recounted (n : ℕ) (tx tx' : Tx B) : Type 0 where
    pub runs : tx'.runs ≡ tx.runs
    pub started : tx'.runs_by_started_at ≡ tx.runs_by_started_at
    pub running : tx'.running_runs_by_schedule ≡ tx.running_runs_by_schedule
    pub counts : Counts n tx'

  module _ (laws : BoltLaws l) where
    pub completed_run_count_lem :
        (n : ℕ) (tx : Tx B) → n < half_word → Counts n tx → completed_run_count l tx ≡ ok (pos n)
    unfolding completed_run_count wrap64
    completed_run_count_lem n tx small h =
        rw
          (
            laws.bucket.get_value_lem completed_run_count_key tx.run_stats,
            h,
            length-put_uint64 n,
            uint64-put_uint64 n (omega arith),
          )
          (ground arith)

    pub set_completed_run_count_lem :
        (c : ℤ) (tx tx' : Tx B)
        → set_completed_run_count l c tx ≡ ok tx'
        → Recounted (pos_part c) tx tx'
    unfolding set_completed_run_count
    set_completed_run_count_lem c tx tx' h =
        let (b, done, made) =
          bind_ok
            (l.bucket.put_value completed_run_count_key (put_uint64 (pos_part c)) tx.run_stats) _
            h in
        subst (λ t. Recounted (pos_part c) tx t) (ok_inj made)
          (record {
            runs = refl;
            started = refl;
            running = refl;
            counts =
                at-put_value l laws completed_run_count_key _ tx.run_stats b completed_run_count_key
                  done
                ∙ rw text_eq_refl;
          })

    increment_lem :
        (delta : ℤ) (n : ℕ) (tx tx' : Tx B)
        → n < half_word
        → Counts n tx
        → increment_completed_run_count l delta tx ≡ ok tx'
        → Recounted (pos_part (wrap64 (pos n +ℤ delta))) tx tx'
    unfolding increment_completed_run_count
    increment_lem delta n tx tx' small h made =
        set_completed_run_count_lem (wrap64 (pos n +ℤ delta)) tx tx'
          (rw (completed_run_count_lem n tx small h) at made)

    pub increment_one :
        (n : ℕ) (tx tx' : Tx B)
        → n + 1 < half_word
        → Counts n tx
        → increment_completed_run_count l (pos 1) tx ≡ ok tx'
        → Recounted (n + 1) tx tx'
    unfolding wrap64 ◌+ℤ◌
    increment_one n tx tx' small h made =
        subst (λ m. Recounted m tx tx') (ground arith)
          (increment_lem (pos 1) n tx tx' (omega arith) h made)

    pub decrement_one :
        (n : ℕ) (tx tx' : Tx B)
        → n < half_word
        → Counts n tx
        → increment_completed_run_count l (negsuc 0) tx ≡ ok tx'
        → Recounted (n - 1) tx tx'
    unfolding wrap64 ◌+ℤ◌
    decrement_one n tx tx' small h made =
        subst (λ m. Recounted m tx tx') (ground arith)
          (increment_lem (negsuc 0) n tx tx' small h made)
