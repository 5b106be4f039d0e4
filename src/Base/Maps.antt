-- ===== src/Base/Maps.antt =====
-- Go's map[string]V as an association list. The order of the list is the unspecified order in which
-- a `range` loop visits the map, so that what is proved for every list holds for every order.
use mathlib.Core.Path.{◌≡◌, refl}
use mathlib.Core.Bool.{Bool, true, false}
use mathlib.Core.List.{List, [], ◌∷◌}
use mathlib.Core.Option.{Option, none, some}
use native.Mathlib.Omega.{arith}
use clock_relay.Base.Tests.{if◌then◌else◌}
use clock_relay.Base.Texts.{Text, text_eq, text_eq_iff}

abbrev pub Map {ℓ} : Type ℓ → Type ℓ
Map V = List (Text × V)

module _ {ℓ} {V : Type ℓ} where
  -- v, ok := m[k]
  unfoldable pub get : Text → Map V → Option V
  get k [] = none
  get k ((j, v) ∷ m) = if text_eq j k then some v else get k m

  -- m[k] = v
  unfoldable pub put : Text → V → Map V → Map V
  put k v [] = (k, v) ∷ []
  put k v ((j, w) ∷ m) = if text_eq j k then (k, v) ∷ m else (j, w) ∷ put k v m

  -- delete(m, k)
  unfoldable pub del : Text → Map V → Map V
  del k [] = []
  del k ((j, v) ∷ m) = let rest = del k m in if text_eq j k then rest else (j, v) ∷ rest

  -- The key is in the map.
  unfoldable pub has : Text → Map V → Bool
  has k [] = false
  has k ((j, v) ∷ m) = let rest = has k m in if text_eq j k then true else rest

  pub get-put :
      (k j : Text) (v : V) (m : Map V)
      → get j (put k v m) ≡ (if text_eq k j then some v else get j m)
  unfolding get put
  get-put k j v [] = refl
  get-put k j v ((i, w) ∷ m) =
      ground (arith, text_eq_iff k j, text_eq_iff i k, text_eq_iff i j, get-put k j v m)

  pub get-del : (k j : Text) (m : Map V) → get j (del k m) ≡ (if text_eq k j then none else get j m)
  unfolding get del
  get-del k j [] = ground arith
  get-del k j ((i, w) ∷ m) =
      ground (arith, text_eq_iff k j, text_eq_iff i k, text_eq_iff i j, get-del k j m)

  pub has-put :
      (k j : Text) (v : V) (m : Map V) → has j (put k v m) ≡ (if text_eq k j then true else has j m)
  unfolding has put
  has-put k j v [] = ground arith
  has-put k j v ((i, w) ∷ m) =
      ground (arith, text_eq_iff k j, text_eq_iff i k, text_eq_iff i j, has-put k j v m)

  pub has-del :
      (k j : Text) (m : Map V) → has j (del k m) ≡ (if text_eq k j then false else has j m)
  unfolding has del
  has-del k j [] = ground arith
  has-del k j ((i, w) ∷ m) =
      ground (arith, text_eq_iff k j, text_eq_iff i k, text_eq_iff i j, has-del k j m)

  -- No key stands twice.
  abbrev pub IsMap : Map V → Type 0
  IsMap [] = Unit
  IsMap ((k, v) ∷ m) = (has k m ≡ false) × IsMap m

  pub put-IsMap : (k : Text) (v : V) (m : Map V) → IsMap m → IsMap (put k v m)
  unfolding has put
  put-IsMap k v [] h = (refl, tt)
  put-IsMap k v ((j, w) ∷ m) h =
      ground (arith, text_eq_iff j k, text_eq_iff k j, has-put k j v m, put-IsMap k v m)

  pub del-IsMap : (k : Text) (m : Map V) → IsMap m → IsMap (del k m)
  unfolding has del
  del-IsMap k [] h = tt
  del-IsMap k ((j, w) ∷ m) h =
      ground (arith, text_eq_iff j k, text_eq_iff k j, has-del k j m, del-IsMap k m)

pub ruleset map_laws = (get-put, get-del, has-put, has-del)
