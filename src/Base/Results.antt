-- ===== src/Base/Results.antt =====
-- Go's `(T, error)`. An error is `config.ConfigError`, an error of the standard library or of a
-- package that is named by a text, or one of these wrapped with a prefix by `fmt.Errorf`.
use mathlib.Core.List.{◌++◌}
use mathlib.Core.Path.{◌≡◌, refl}
use mathlib.Core.Logic.{◌⊎◌, inl, inr}
use clock_relay.Base.Texts.{Text}

pub data Error : Type 0 where
  config_error : Text → Error
  external_error : Text → Error
  wrapped_error : Text → Error → Error

-- err.Error()
unfoldable pub error_text : Error → Text
error_text (config_error s) = s
error_text (external_error s) = s
error_text (wrapped_error s e) = s ++ error_text e

pub data Result {ℓ} (V : Type ℓ) : Type ℓ where
  err : Error → Result V
  ok : V → Result V

-- `if err != nil { return err }`, and the rest with the value
infixl 10 ◌>>=◌ ◌>>◌
abbrev pub ◌>>=◌ {ℓ κ} : {V : Type ℓ} {W : Type κ} → Result V → (V → Result W) → Result W
◌>>=◌ (err why) rest = err why
◌>>=◌ (ok v) rest = rest v

abbrev pub ◌>>◌ {κ} : {W : Type κ} → Result (Unit {0}) → Result W → Result W
◌>>◌ (err why) rest = err why
◌>>◌ (ok _) rest = rest

pub Result-cases {ℓ} :
    {V : Type ℓ} (outcome : Result V)
    → ((v : V) × (outcome ≡ ok v)) ⊎ ((why : Error) × (outcome ≡ err why))
Result-cases (err why) = inr (why, refl)
Result-cases (ok v) = inl (v, refl)
