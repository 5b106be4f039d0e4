-- ===== src/Store/Bolt/Database.antt =====
-- Buckets of a concrete database, by which the store can be run.
use clock_relay.Store.Bolt.Pruner.{IsReliable}
use clock_relay.Store.Bolt.Effects.{ok_inj}
use clock_relay.Store.Bolt.Buckets.{BucketMethods, BucketLaws}
use clock_relay.Base.Order.{text_lt_trans, text_lt_total}
use clock_relay.Base.Ordered.{put_ordered, IsOrdered, first_from, get_before}
use native.Mathlib.Decide.{dec_lt}
use clock_relay.Base.{
  ◌∷◌, [], Text, del, Map, str, All, Bool-cases, length, text_eq, ◌<◌, inl, Result, inr,
  text_eq_iff, ok, text_lt, err, All-map, ◌≡◌, config_error, true, arith, ap, sym, get, refl, ◌≤◌,
  some,
}

module _ {ℓ} {V : Type ℓ} where
  All-put_ordered {κ} :
      (P : Text × V → Type κ) (k : Text) (v : V) (m : Map V)
      → P (k, v)
      → All P m
      → All P (put_ordered k v m)
  unfolding put_ordered
  All-put_ordered P k v [] p h = (p, tt)
  All-put_ordered P k v ((j, w) ∷ m) p h = elim (Bool-cases (text_eq j k)) [
    | inl e ↦ rw e (p, h.1)
    | inr e ↦ elim (Bool-cases (text_lt k j)) [
      | inl less ↦ rw (e, less) (p, h)
      | inr more ↦ rw (e, more) (h.0, All-put_ordered P k v m p h.1)
    ]
  ]

  put_ordered-IsOrdered :
      (k : Text) (v : V) (m : Map V) → IsOrdered m → IsOrdered (put_ordered k v m)
  unfolding put_ordered
  put_ordered-IsOrdered k v [] h = (tt, tt)
  put_ordered-IsOrdered k v ((j, w) ∷ m) h = elim (Bool-cases (text_eq j k)) [
    | inl e ↦ rw e (rw ((text_eq_iff j k).0 e) at h.0, h.1)
    | inr e ↦ elim (Bool-cases (text_lt k j)) [
      | inl less ↦
          rw (e, less)
            (
              (
                less,
                All-map (λ e. text_lt j e.0 ≡ true) (λ e. text_lt k e.0 ≡ true) m
                    (λ e. text_lt_trans k j e.0 less) h.0,
              ),
              h,
            )
      | inr more ↦
          rw (e, more)
            (
              All-put_ordered (λ e. text_lt j e.0 ≡ true) k v m
                  (text_lt_total k j (ground (arith, e, text_eq_iff k j, text_eq_iff j k)) more)
                  h.0,
              put_ordered-IsOrdered k v m h.1,
            )
    ]
  ]

  All-del {κ} : (P : Text × V → Type κ) (k : Text) (m : Map V) → All P m → All P (del k m)
  unfolding del
  All-del P k [] h = tt
  All-del P k ((j, w) ∷ m) h = elim (Bool-cases (text_eq j k)) [
    | inl e ↦ rw e (All-del P k m h.1)
    | inr e ↦ rw e (h.0, All-del P k m h.1)
  ]

  del-IsOrdered : (k : Text) (m : Map V) → IsOrdered m → IsOrdered (del k m)
  unfolding del
  del-IsOrdered k [] h = tt
  del-IsOrdered k ((j, w) ∷ m) h = elim (Bool-cases (text_eq j k)) [
    | inl e ↦ rw e (del-IsOrdered k m h.1)
    | inr e ↦ rw e (All-del (λ e. text_lt j e.0 ≡ true) k m h.0, del-IsOrdered k m h.1)
  ]

module _ {ℓ} {V : Type ℓ} where
  length-del_le : (k : Text) (m : Map V) → length (del k m) ≤ length m
  unfolding del
  length-del_le k [] = omega arith
  length-del_le k ((j, w) ∷ m) = ground (arith, length-del_le k m)

  -- A new value under a key that is there adds no entry.
  length-put_le :
      (k : Text) (v w : V) (m : Map V)
      → IsOrdered m
      → get k m ≡ some w
      → length (put_ordered k v m) ≤ length m
  unfolding put_ordered get
  length-put_le k v w [] o h = cc
  length-put_le k v w ((j, u) ∷ m) o h = elim (Bool-cases (text_eq j k)) [
    | inl e ↦ rw e (omega arith)
    | inr e ↦ elim (Bool-cases (text_lt k j)) [
      | inl less ↦
          let before = get_before k m (
            All-map (λ x. text_lt j x.0 ≡ true) (λ x. text_lt k x.0 ≡ true) m
              (λ x. text_lt_trans k j x.0 less) o.0) in
          absurd (ground (arith, before, rw e at h))
      | inr more ↦ rw (e, more) (omega (arith, length-put_le k v w m o.1 (rw e at h)))
    ]
  ]

-- A bucket: the entries in order, and few enough.
pub record Bucket : Type 0 where
  pub entries : Map Text
  pub sorted : IsOrdered entries
  pub small : length entries < 281474976710656

abbrev full : Text
full = str "database full"

bucket_of : (m : Map Text) → IsOrdered m → Dec (length m < 281474976710656) → Result Bucket
bucket_of m o (yes small) = ok (record { entries = m; sorted = o; small = small })
bucket_of m o (no large) = err (config_error full)

bucket_of_lem :
    (m : Map Text) (o : IsOrdered m) (d : Dec (length m < 281474976710656)) (b : Bucket)
    → bucket_of m o d ≡ ok b
    → b.entries ≡ m
unfolding bucket_of
bucket_of_lem m o (yes small) b h = ap (λ (c : Bucket). c.entries) (sym (ok_inj h))
bucket_of_lem m o (no large) b h = cc

unfoldable pub sample_buckets : BucketMethods Bucket
unfolding bucket_of dec_lt put_ordered-IsOrdered del-IsOrdered All-put_ordered All-del
sample_buckets = record {
  entries = λ b. b.entries;
  get_value = λ k b. get k b.entries;
  put_value = λ k v b.
      let m = put_ordered k v b.entries in
      bucket_of m (put_ordered-IsOrdered k v b.entries b.sorted)
        (dec_lt (length m) 281474976710656);
  delete_key = λ k b.
      let m = del k b.entries in
      bucket_of m (del-IsOrdered k b.entries b.sorted) (dec_lt (length m) 281474976710656);
  seek = λ k b. first_from k b.entries;
  delete_bucket = λ name. ok tt;
  create_bucket = λ name. ok (record { entries = []; sorted = tt; small = omega arith });
}

pub sample-BucketLaws : BucketLaws sample_buckets
unfolding sample_buckets
sample-BucketLaws = record {
  entries-IsOrdered = λ b. b.sorted;
  get_value_lem = λ k b. refl;
  entries-put_value = λ k v b b' h. bucket_of_lem _ _ _ b' h;
  entries-delete_key = λ k b b' h. bucket_of_lem _ _ _ b' h;
  seek_lem = λ k b. refl;
  length-entries = λ b. b.small;
  entries-create_bucket = λ n b h. ap (λ (c : Bucket). c.entries) (sym (ok_inj h));
}

bucket_of_total :
    (m : Map Text) (o : IsOrdered m) (d : Dec (length m < 281474976710656))
    → length m < 281474976710656
    → (b : Bucket) × (bucket_of m o d ≡ ok b)
unfolding bucket_of
bucket_of_total m o (yes small) h = (record { entries = m; sorted = o; small = small }, refl)
bucket_of_total m o (no large) h = absurd (large h)

pub sample-IsReliable : IsReliable sample_buckets
unfolding sample_buckets
sample-IsReliable = record {
  deletes = λ k b. bucket_of_total _ _ _ (omega (arith, length-del_le k b.entries, b.small));
  overwrites = λ k v w b there size.
      bucket_of_total _ _ _ (omega (arith, length-put_le k v w b.entries b.sorted there, b.small));
}
