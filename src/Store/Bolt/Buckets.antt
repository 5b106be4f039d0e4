-- ===== src/Store/Bolt/Buckets.antt =====
-- What the bbolt store is given: the package bbolt, the JSON codec and the layout of its keys; and a
-- transaction's five buckets.
use Prim.Native.Nat.{ℕ}
use clock_relay.Base.{
  Map, Text, Result, ℕ, ◌≡◌, Option, get, ok, err, del, ◌<◌, [], length, text_lt, true, Bool, ◌∷◌,
  ltb, ◌&&◌,
}
use clock_relay.Model.{Run, Time}
use clock_relay.Config.Types.{ScheduleConfig}
use clock_relay.Base.Ordered.{put_ordered, IsOrdered, first_from}

-- The package bbolt. A bucket within a transaction is a value of `B`.
pub record BucketMethods (B : Type 0) : Type 0 where
  -- The keys and values that ForEach visits, and a cursor from First with Next, in their order; one
  -- from Last with Prev visits them backwards.
  pub entries : B → Map Text
  -- b.Get(key)
  pub get_value : Text → B → Option Text
  -- b.Put(key, value), b.Delete(key)
  pub put_value : Text → Text → B → Result B
  pub delete_key : Text → B → Result B
  -- cursor.Seek(key)
  pub seek : Text → B → Option (Text × Text)
  -- tx.DeleteBucket(name), tx.CreateBucket(name)
  pub delete_bucket : Text → Result (Unit {0})
  pub create_bucket : Text → Result B

-- What the package documents: a bucket holds its keys in byte order, and a write that succeeds
-- changes one key.
pub record BucketLaws {B : Type 0} (m : BucketMethods B) : Type 0 where
  pub entries-IsOrdered : (b : B) → IsOrdered (m.entries b)
  pub get_value_lem : (k : Text) (b : B) → m.get_value k b ≡ get k (m.entries b)
  pub entries-put_value :
      (k v : Text) (b b' : B)
      → m.put_value k v b ≡ ok b'
      → m.entries b' ≡ put_ordered k v (m.entries b)
  pub entries-delete_key :
      (k : Text) (b b' : B) → m.delete_key k b ≡ ok b' → m.entries b' ≡ del k (m.entries b)
  pub seek_lem : (k : Text) (b : B) → m.seek k b ≡ first_from k (m.entries b)
  -- A file has at most maxMapSize, 2 ^ 48 - 1, bytes.
  pub length-entries : (b : B) → length (m.entries b) < 281474976710656
  pub entries-create_bucket : (n : Text) (b : B) → m.create_bucket n ≡ ok b → m.entries b ≡ []

-- The buckets of a transaction, where all are there.
pub record Tx (B : Type 0) : Type 0 where
  pub runs : B
  pub run_stats : B
  pub runs_by_started_at : B
  pub running_runs_by_schedule : B
  pub schedules : B

pub record BoltLibrary (B : Type 0) : Type 0 where
  pub bucket : BucketMethods B
  -- json.Marshal and json.Unmarshal
  pub marshal_run : Run → Result Text
  pub unmarshal_run : Text → Result Run
  pub marshal_schedule : ScheduleConfig → Result Text
  pub unmarshal_schedule : Text → Result ScheduleConfig
  -- t.UTC().Format and time.Parse with the layout 20060102T150405.000000000Z
  pub format_key : Time → Text
  pub parse_key : Text → Result Time
  -- The commit at the end of db.Update
  pub commit : Tx B → Result (Unit {0})

-- The layout's length
abbrev pub key_length : ℕ
key_length = 26

-- The first instant of the year 10000, from which on the layout is longer and JSON refuses a time.
abbrev pub year_10000 : Time
year_10000 = 315537897600000000000

-- A run that is written and read back, in the fields by which the store finds it.
pub record IsImage (r r' : Run) : Type 0 where
  pub id : r'.id ≡ r.id
  pub schedule_name : r'.schedule_name ≡ r.schedule_name
  pub status : r'.status ≡ r.status
  pub started_at : r'.started_at ≡ r.started_at

-- JSON keeps a text in ASCII; it replaces bytes that are not UTF-8.
abbrev pub is_ascii : Text → Bool
is_ascii [] = true
is_ascii (c ∷ s) = ltb c 128 && is_ascii s

-- What is documented of the codec and the layout.
pub record BoltLaws {B : Type 0} (l : BoltLibrary B) : Type 0 where
  pub bucket : BucketLaws l.bucket
  pub unmarshal-marshal :
      (r : Run) (raw : Text)
      → is_ascii r.id ≡ true
      → is_ascii r.schedule_name ≡ true
      → l.marshal_run r ≡ ok raw
      → (r' : Run) × (l.unmarshal_run raw ≡ ok r') × IsImage r r'
  pub marshal-bound : (r : Run) (raw : Text) → l.marshal_run r ≡ ok raw → r.started_at < year_10000
  pub length-format_key : (t : Time) → t < year_10000 → length (l.format_key t) ≡ key_length
  pub format_key-lt :
      (s t : Time) → s < t → t < year_10000 → text_lt (l.format_key s) (l.format_key t) ≡ true
  pub parse-format : (t : Time) → t < year_10000 → l.parse_key (l.format_key t) ≡ ok t

-- db.Update: an error of the function, or of the commit, leaves the store as it was.
abbrev pub update {ℓ} :
    {A : Type ℓ} {B : Type 0} → BoltLibrary B → Result (A × Tx B) → Tx B → Result A × Tx B
update l (err x) db = (err x, db)
update l (ok (a, tx)) db = elim (l.commit tx) [ err x ↦ (err x, db) | ok _ ↦ (ok a, tx) ]

abbrev pub run_update :
    {B : Type 0} → BoltLibrary B → Result (Tx B) → Tx B → Result (Unit {0}) × Tx B
run_update l (err x) db = (err x, db)
run_update l (ok tx) db = elim (l.commit tx) [ err x ↦ (err x, db) | ok _ ↦ (ok tt, tx) ]
