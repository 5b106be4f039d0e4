-- ===== src/Base/Spaces.antt =====
-- strings.TrimSpace: the white space of Unicode, as it stands in UTF-8.
use Prim.Native.Nat.{ℕ, zero, suc}
use mathlib.Core.Bool.{Bool, ◌&&◌, ◌||◌}
use mathlib.Core.List.{[], ◌∷◌, reverse}
use clock_relay.Base.Tests.{leb, ◌==◌, if◌then◌else◌}
use clock_relay.Base.Lists.{length}
use clock_relay.Base.Texts.{Text}

abbrev between : ℕ → ℕ → ℕ → Bool
between lo hi c = leb lo c && leb c hi

-- One byte: a blank, or \t \n \v \f \r.
unfoldable pub space1 : ℕ → Bool
space1 a = a == 32 || between 9 13 a

-- Two bytes: U+0085 and U+00A0.
unfoldable pub space2 : ℕ → ℕ → Bool
space2 a b = a == 0xc2 && (b == 0x85 || b == 0xa0)

-- Three bytes: U+1680, U+2000 to U+200A, U+2028, U+2029, U+202F, U+205F and U+3000.
unfoldable pub space3 : ℕ → ℕ → ℕ → Bool
space3 a b c =
    (a == 0xe1 && b == 0x9a && c == 0x80)
    || (a == 0xe2 && b == 0x80 && (between 0x80 0x8a c || c == 0xa8 || c == 0xa9 || c == 0xaf))
    || (a == 0xe2 && b == 0x81 && c == 0x9f)
    || (a == 0xe3 && b == 0x80 && c == 0x80)

-- The text after a leading white space.
abbrev after_space : Text → Text
after_space [] = []
after_space (a ∷ []) = if space1 a then [] else a ∷ []
after_space (a ∷ b ∷ []) = if space1 a then b ∷ [] else if space2 a b then [] else a ∷ b ∷ []
after_space (a ∷ b ∷ c ∷ s) =
    if space1 a
    then b ∷ c ∷ s
    else if space2 a b
    then c ∷ s
    else if space3 a b c
    then s
    else a ∷ b ∷ c ∷ s

-- The same of a reversed text, whose last character stands first.
abbrev before_space : Text → Text
before_space [] = []
before_space (a ∷ []) = if space1 a then [] else a ∷ []
before_space (a ∷ b ∷ []) = if space1 a then b ∷ [] else if space2 b a then [] else a ∷ b ∷ []
before_space (a ∷ b ∷ c ∷ s) =
    if space1 a
    then b ∷ c ∷ s
    else if space2 b a
    then c ∷ s
    else if space3 c b a
    then s
    else a ∷ b ∷ c ∷ s

-- A function that only drops bytes, as often as there are bytes.
repeat : ℕ → (Text → Text) → Text → Text
repeat zero f s = s
repeat (suc n) f s = repeat n f (f s)

unfoldable pub trim_space : Text → Text
unfolding repeat space1 space2 space3
trim_space s =
    let left = repeat (length s) after_space s in
    reverse (repeat (length left) before_space (reverse left))
