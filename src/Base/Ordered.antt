-- ===== src/Base/Ordered.antt =====
-- Maps whose entries stand in the order of their keys, as the entries of a bucket of bbolt.
use mathlib.Core.Path.{refl}
use clock_relay.Base.{
  Text, Map, get, Bool, ◌∷◌, ◌≡◌, All, text_lt, Option, ℕ, ◌+◌, del, if◌then◌else◌, true, some,
  arith, text_eq, [], none, All-map, text_eq_iff, Bool-cases, false, inl, has_prefix, inr, ap, ◌||◌,
  ◌≤◌, length, subst, text_eq_refl,
}
use clock_relay.Base.Order.{
  text_lt_irrefl, text_lt_trans, has_prefix_between, prefix_le, text_lt_asym,
}

module _ {ℓ} {V : Type ℓ} where
  -- The map with a new value under a key, in the order of the keys.
  unfoldable pub put_ordered : Text → V → Map V → Map V
  put_ordered k v [] = (k, v) ∷ []
  put_ordered k v ((j, w) ∷ m) =
      let rest = put_ordered k v m in
      if text_eq j k then (k, v) ∷ m else if text_lt k j then (k, v) ∷ (j, w) ∷ m else (j, w) ∷ rest

  -- The keys of the entries rise.
  abbrev pub IsOrdered : Map V → Type ℓ
  IsOrdered [] = Unit
  IsOrdered ((k, v) ∷ m) = All (λ e. text_lt k e.0 ≡ true) m × IsOrdered m

  pub get-put_ordered :
      (k j : Text) (v : V) (m : Map V)
      → get j (put_ordered k v m) ≡ (if text_eq k j then some v else get j m)
  unfolding get put_ordered
  get-put_ordered k j v [] = refl
  get-put_ordered k j v ((i, w) ∷ m) =
      ground (arith, text_eq_iff k j, text_eq_iff i k, text_eq_iff i j, get-put_ordered k j v m)

  -- A key before all others is not in the map.
  pub get_before : (k : Text) (m : Map V) → All (λ e. text_lt k e.0 ≡ true) m → get k m ≡ none
  unfolding get
  get_before k [] h = refl
  get_before k ((j, v) ∷ m) h =
      ground (arith, h.0, text_eq_iff j k, text_lt_irrefl k, get_before k m h.1)

  All_before :
      (k j : Text) (m : Map V)
      → text_lt k j ≡ true
      → All (λ e. text_lt j e.0 ≡ true) m
      → All (λ e. text_lt k e.0 ≡ true) m
  All_before k j m h =
      All-map (λ e. text_lt j e.0 ≡ true) (λ e. text_lt k e.0 ≡ true) m
        (λ e. text_lt_trans k j e.0 h)

  abbrev pub value_counts : (V → Bool) → Option V → ℕ
  value_counts p none = 0
  value_counts p (some v) = if p v then 1 else 0

  -- How many values pass a test.
  abbrev pub count_values : (V → Bool) → Map V → ℕ
  count_values p [] = 0
  count_values p ((k, v) ∷ m) = (if p v then 1 else 0) + count_values p m

  pub count-put_ordered :
      (p : V → Bool) (k : Text) (v : V) (m : Map V)
      → IsOrdered m
      → count_values p (put_ordered k v m) + value_counts p (get k m)
        ≡ count_values p m + value_counts p (some v)
  unfolding get put_ordered
  count-put_ordered p k v [] h = omega arith
  count-put_ordered p k v ((j, w) ∷ m) h = elim (Bool-cases (text_eq j k)) [
    | inl e ↦ rw e (omega arith)
    | inr e ↦ elim (Bool-cases (text_lt k j)) [
      | inl l ↦ rw (e, l, get_before k m (All_before k j m l h.0)) (omega arith)
      | inr l ↦ rw (e, l) (omega (arith, count-put_ordered p k v m h.1))
    ]
  ]

  pub count-del :
      (p : V → Bool) (k : Text) (m : Map V)
      → IsOrdered m
      → count_values p (del k m) + value_counts p (get k m) ≡ count_values p m
  unfolding get del
  count-del p k [] h = omega arith
  count-del p k ((j, w) ∷ m) h = elim (Bool-cases (text_eq j k)) [
    | inl e ↦
        let same = (text_eq_iff j k).0 e in
        rw e (
          omega (arith, count-del p k m h.1, ap (value_counts p) (get_before k m (rw same at h.0))))
    | inr e ↦ rw e (omega (arith, count-del p k m h.1))
  ]

  -- The first entry whose key is not before `k`.
  unfoldable pub first_from : Text → Map V → Option (Text × V)
  first_from k [] = none
  first_from k ((j, v) ∷ m) = if text_lt j k then first_from k m else some (j, v)

  abbrev pub starts_with : Text → Option (Text × V) → Bool
  starts_with p none = false
  starts_with p (some (k, v)) = has_prefix k p

  unfoldable pub any_with_prefix : Text → Map V → Bool
  any_with_prefix p [] = false
  any_with_prefix p ((k, v) ∷ m) = let rest = any_with_prefix p m in has_prefix k p || rest

  -- If a key has the prefix, then so does the first key that is not before it.
  later_prefix :
      (p j : Text) (m : Map V)
      → text_lt j p ≡ false
      → has_prefix j p ≡ false
      → All (λ e. text_lt j e.0 ≡ true) m
      → any_with_prefix p m ≡ false
  unfolding any_with_prefix
  later_prefix p j [] lo lacks h = refl
  later_prefix p j ((k, v) ∷ m) lo lacks h = elim (Bool-cases (has_prefix k p)) [
    | inl e ↦ absurd (ground (arith, has_prefix_between p j k e lo (text_lt_asym j k h.0)))
    | inr e ↦ rw e (later_prefix p j m lo lacks h.1)
  ]

  pub first_from-any :
      (p : Text) (m : Map V) → IsOrdered m → starts_with p (first_from p m) ≡ any_with_prefix p m
  unfolding first_from any_with_prefix
  first_from-any p [] h = refl
  first_from-any p ((k, v) ∷ m) h = elim (Bool-cases (text_lt k p)) [
    | inl e ↦ ground (arith, prefix_le p k, first_from-any p m h.1)
    | inr e ↦ ground (arith, later_prefix p k m e)
  ]

  pub count_values-le-length : (p : V → Bool) (m : Map V) → count_values p m ≤ length m
  count_values-le-length p [] = omega arith
  count_values-le-length p ((k, v) ∷ m) = ground (arith, count_values-le-length p m)

  pub get-All {κ} :
      (P : Text × V → Type κ) (k : Text) (v : V) (m : Map V) → get k m ≡ some v → All P m → P (k, v)
  unfolding get
  get-All P k v [] e h = cc
  get-All P k v ((j, w) ∷ m) e h = elim (Bool-cases (text_eq j k)) [
    | inl same ↦
        let key = (text_eq_iff j k).0 same in subst (λ x. P x) (ground (arith, e, same, key)) h.0
    | inr other ↦ get-All P k v m (rw other at e) h.1
  ]

  All-later :
      (j : Text) (w : V) (m all : Map V)
      → All (λ e. text_lt j e.0 ≡ true) m
      → All (λ e. get e.0 all ≡ some e.1) m
      → All (λ e. get e.0 ((j, w) ∷ all) ≡ some e.1) m
  unfolding get
  All-later j w [] all h k = tt
  All-later j w ((i, v) ∷ m) all h k =
      (ground (arith, h.0, k.0, text_eq_iff j i, text_lt_irrefl j), All-later j w m all h.1 k.1)

  -- Each entry of an ordered map is found under its key.
  pub All-get : (m : Map V) → IsOrdered m → All (λ e. get e.0 m ≡ some e.1) m
  unfolding get
  All-get [] h = tt
  All-get ((j, w) ∷ m) h = (rw text_eq_refl, All-later j w m m h.0 (All-get m h.1))

  count-All : (p : V → Bool) (m : Map V) → All (λ e. p e.1 ≡ false) m → count_values p m ≡ 0
  count-All p [] h = refl
  count-All p ((k, v) ∷ m) h = rw h.0 (omega (arith, count-All p m h.1))

  pub count-zero :
      (p : V → Bool) (m : Map V)
      → IsOrdered m
      → ((k : Text) (v : V) → get k m ≡ some v → p v ≡ false)
      → count_values p m ≡ 0
  count-zero p m o h =
      count-All p m
        (All-map (λ e. get e.0 m ≡ some e.1) (λ e. p e.1 ≡ false) m (λ e. h e.0 e.1) (All-get m o))
