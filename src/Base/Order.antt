-- ===== src/Base/Order.antt =====
-- The order of Go's strings and byte slices.
use mathlib.Core.Path.{refl}
use clock_relay.Base.{◌≡◌, false, true, ◌∷◌, arith, [], Bool-cases, inl, inr, length, ◌++◌}
use clock_relay.Base.Texts.{Text, text_lt, text_eq, has_prefix}

pub text_lt_irrefl : (s : Text) → text_lt s s ≡ false
unfolding text_lt
text_lt_irrefl [] = refl
text_lt_irrefl (a ∷ s) = ground (arith, text_lt_irrefl s)

pub text_lt_trans : (s t u : Text) → text_lt s t ≡ true → text_lt t u ≡ true → text_lt s u ≡ true
unfolding text_lt
text_lt_trans s t [] h k = ground arith
text_lt_trans s [] (c ∷ u) h k = ground arith
text_lt_trans [] (b ∷ t) (c ∷ u) h k = refl
text_lt_trans (a ∷ s) (b ∷ t) (c ∷ u) h k = ground (arith, text_lt_trans s t u)

-- Of two texts that differ, one lies before the other.
pub text_lt_total : (s t : Text) → text_eq s t ≡ false → text_lt s t ≡ false → text_lt t s ≡ true
unfolding text_lt text_eq
text_lt_total [] [] h k = cc
text_lt_total [] (b ∷ t) h k = cc
text_lt_total (a ∷ s) [] h k = refl
text_lt_total (a ∷ s) (b ∷ t) h k = ground (arith, text_lt_total s t)

-- What lies between a prefix and a text with it has the prefix too.
pub has_prefix_between :
    (p f s : Text)
    → has_prefix s p ≡ true
    → text_lt f p ≡ false
    → text_lt s f ≡ false
    → has_prefix f p ≡ true
unfolding text_lt has_prefix
has_prefix_between [] f s h lo hi = ground arith
has_prefix_between (a ∷ p) [] s h lo hi = cc
has_prefix_between (a ∷ p) (b ∷ f) [] h lo hi = cc
has_prefix_between (a ∷ p) (b ∷ f) (c ∷ s) h lo hi = ground (arith, has_prefix_between p f s)

-- A text with a prefix does not lie before it.
pub prefix_le : (p s : Text) → has_prefix s p ≡ true → text_lt s p ≡ false
unfolding text_lt has_prefix
prefix_le [] s h = ground arith
prefix_le (a ∷ p) [] h = cc
prefix_le (a ∷ p) (b ∷ s) h = ground (arith, prefix_le p s)

pub text_lt_asym : (s t : Text) → text_lt s t ≡ true → text_lt t s ≡ false
text_lt_asym s t h = elim (Bool-cases (text_lt t s)) [
  | inl k ↦ absurd (ground (arith, text_lt_trans s t s h k, text_lt_irrefl s))
  | inr k ↦ k
]

-- Texts whose first parts have one length stand in the order of those parts.
pub text_lt_append :
    (a b s t : Text) → length a ≡ length b → text_lt a b ≡ true → text_lt (a ++ s) (b ++ t) ≡ true
unfolding text_lt
text_lt_append [] [] s t e h = ground arith
text_lt_append [] (d ∷ b) s t e h = absurd (omega (arith, e))
text_lt_append (c ∷ a) [] s t e h = ground arith
text_lt_append (c ∷ a) (d ∷ b) s t e h =
    let shorter : length a ≡ length b = omega (arith, e) in
    ground (arith, text_lt_append a b s t shorter)
