-- ===== src/Store/Bolt/Counter.antt =====
-- The counter of completed runs: completedRunCount, setCompletedRunCount and
-- incrementCompletedRunCount of internal/store/store.go.
use Prim.Native.Nat.{ℕ}
use clock_relay.Base.{
  ◌>>=◌, Text, ℕ, Option, Result, str, ◌/◌, ◌∷◌, ◌<◌, ok, ◌%◌, ◌*◌, ◌≡◌, some, [], ◌+◌, arith,
  if◌then◌else◌, length, ◌==◌, err, config_error, none,
}
use clock_relay.Base.Int.{ℤ, pos, wrap64, pos_part, ◌+ℤ◌}
use clock_relay.Store.Bolt.Buckets.{BoltLibrary, Tx}

-- completedRunCountKey
abbrev pub completed_run_count_key : Text
completed_run_count_key = str "completed_count"

-- binary.BigEndian.PutUint64
unfoldable pub put_uint64 : ℕ → Text
put_uint64 n =
    (n / 72057594037927936 % 256)
    ∷ (n / 281474976710656 % 256)
    ∷ (n / 1099511627776 % 256)
    ∷ (n / 4294967296 % 256)
    ∷ (n / 16777216 % 256)
    ∷ (n / 65536 % 256)
    ∷ (n / 256 % 256)
    ∷ (n % 256)
    ∷ []

abbrev big_endian : ℕ → Text → ℕ
big_endian acc [] = acc
big_endian acc (b ∷ s) = big_endian (acc * 256 + b) s

-- binary.BigEndian.Uint64, of eight bytes
unfoldable pub uint64 : Text → ℕ
uint64 s = big_endian 0 s

-- The big-endian bytes of a number below 2 ^ 64 read back as that number.
pub uint64-put_uint64 : (n : ℕ) → n < 18446744073709551616 → uint64 (put_uint64 n) ≡ n
unfolding uint64 put_uint64
uint64-put_uint64 n h = omega arith

module _ {B : Type 0} (l : BoltLibrary B) where
  abbrev count_of : Option Text → Result ℤ
  count_of none = ok (pos 0)
  count_of (some raw) =
      if length raw == 8
      then ok (wrap64 (pos (uint64 raw)))
      else err (config_error (str "invalid completed run count"))

  -- completedRunCount
  unfoldable pub completed_run_count : Tx B → Result ℤ
  completed_run_count tx = count_of (l.bucket.get_value completed_run_count_key tx.run_stats)

  -- setCompletedRunCount; a negative count is written as 0
  unfoldable pub set_completed_run_count : ℤ → Tx B → Result (Tx B)
  set_completed_run_count count tx = do
    stats ← l.bucket.put_value completed_run_count_key (put_uint64 (pos_part count)) tx.run_stats
    ok (record tx { run_stats = stats })

  -- incrementCompletedRunCount
  unfoldable pub increment_completed_run_count : ℤ → Tx B → Result (Tx B)
  increment_completed_run_count delta tx = do
    count ← completed_run_count tx
    set_completed_run_count (wrap64 (count +ℤ delta)) tx
