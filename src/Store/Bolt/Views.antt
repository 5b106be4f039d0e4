-- ===== src/Store/Bolt/Views.antt =====
-- An index of the runs by a key, and what a change of one run does to it.
use mathlib.Core.Bool.{false≢true}
use clock_relay.Base.{
  Text, Option, Bool, ◌≡◌, false, some, true, if◌then◌else◌, text_eq, ◌∙◌, none, text_eq_refl, refl,
  Bool-cases, inl, sym, arith, text_eq_iff, ap, subst, inr, ne_of_text_eq,
}
use clock_relay.Model.{Run}

-- A map of the runs by their ids, as a function.
abbrev pub Runs : Type 0
Runs = Text → Option Run

-- The keys of an index, as a function to the ids.
abbrev pub Keys : Type 0
Keys = Text → Option Text

-- Whether a run that there is has the key `k`.
abbrev pub key_at : (Run → Text → Bool) → Option Run → Text → Bool
key_at key_is none k = false
key_at key_is (some r) k = key_is r k

-- The index has exactly the keys of the runs, each with the run's id.
pub record IsIndex (key_is : Run → Text → Bool) (index : Keys) (runs : Runs) : Type 0 where
  pub of_key :
      (k id : Text) → index k ≡ some id → (r : Run) × (runs id ≡ some r) × (key_is r k ≡ true)
  pub to_key :
      (id : Text) (r : Run) (k : Text) → runs id ≡ some r → key_is r k ≡ true → index k ≡ some id

-- Each run stands under its own id and is `Good`.
pub record AreNamed (Good : Run → Type 0) (runs : Runs) : Type 0 where
  pub name_of : (id : Text) (r : Run) → runs id ≡ some r → r.id ≡ id
  pub good : (id : Text) (r : Run) → runs id ≡ some r → Good r

-- A key belongs to one id.
abbrev pub Tells : (Run → Type 0) → (Run → Text → Bool) → Type 0
Tells Good key_is =
    (a b : Run) (k : Text) → Good a → Good b → key_is a k ≡ true → key_is b k ≡ true → a.id ≡ b.id

-- One run is set, or removed, under an id.
abbrev pub IsSetAt : Text → Option Run → Runs → Runs → Type 0
IsSetAt id new runs runs' = (j : Text) → runs' j ≡ (if text_eq id j then new else runs j)

-- The index follows: the key of the old run is dropped and that of the new one is put.
abbrev pub IsMoved : (Run → Text → Bool) → Text → Option Run → Option Run → Keys → Keys → Type 0
IsMoved key_is id old new index index' =
    (k : Text)
    → index' k
      ≡ (if key_at key_is new k then some id else if key_at key_is old k then none else index k)

key_at_run :
    (key_is : Run → Text → Bool) (o : Option Run) (k : Text)
    → key_at key_is o k ≡ true
    → (r : Run) × (o ≡ some r) × (key_is r k ≡ true)
key_at_run key_is none k h = cc
key_at_run key_is (some r) k h = (r, refl, h)

module _ (Good : Run → Type 0) (key_is : Run → Text → Bool) (tells : Tells Good key_is) (id : Text)
    (old new : Option Run) (index index' : Keys) (runs runs' : Runs) (was : runs id ≡ old)
    (named : AreNamed Good runs) (named' : AreNamed Good runs') (set : IsSetAt id new runs runs')
    (moved : IsMoved key_is id old new index index') (h : IsIndex key_is index runs) where
  kept_run : (j : Text) → text_eq id j ≡ false → runs' j ≡ runs j
  kept_run j e = set j ∙ rw e

  new_run_at : runs' id ≡ new
  new_run_at = set id ∙ rw text_eq_refl

  of_kept_key :
      (k j : Text)
      → key_at key_is old k ≡ false
      → index k ≡ some j
      → (r : Run) × (runs' j ≡ some r) × (key_is r k ≡ true)
  of_kept_key k j o before =
      let (r, there, key) = h.of_key k j before in
      elim (Bool-cases (text_eq id j)) [
        | inl eq ↦
            let is_old = sym was ∙ ap runs ((text_eq_iff id j).0 eq) ∙ there in
            absurd (false≢true (sym o ∙ ap (λ q. key_at key_is q k) is_old ∙ key))
        | inr ne ↦ (r, kept_run j ne ∙ there, key)
      ]

  moved_of_key :
      (k j : Text) → index' k ≡ some j → (r : Run) × (runs' j ≡ some r) × (key_is r k ≡ true)
  moved_of_key k j e = elim (Bool-cases (key_at key_is new k)) [
    | inl n ↦
        let (r, is_new, key) = key_at_run key_is new k n in
        let same : id ≡ j = ground (arith, moved k, n, e) in
        (r, subst (λ j. runs' j ≡ some r) same (new_run_at ∙ is_new), key)
    | inr n ↦ elim (Bool-cases (key_at key_is old k)) [
      | inl o ↦ absurd (ground (arith, moved k, n, o, e))
      | inr o ↦ of_kept_key k j o (ground (arith, moved k, n, o, e))
    ]
  ]

  moved_to_key :
      (j : Text) (r : Run) (k : Text) → runs' j ≡ some r → key_is r k ≡ true → index' k ≡ some j
  moved_to_key j r k e key = elim (Bool-cases (text_eq id j)) [
    | inl eq ↦
        let same = (text_eq_iff id j).0 eq in
        let is_new = sym new_run_at ∙ ap runs' same ∙ e in
        moved k ∙ rw (ap (λ o. key_at key_is o k) is_new ∙ key) (ap some same)
    | inr ne ↦
        let there = sym (kept_run j ne) ∙ e in
        elim (Bool-cases (key_at key_is new k)) [
          | inl n ↦
              let (q, is_new, key') = key_at_run key_is new k n in
              let at = new_run_at ∙ is_new in
              absurd (
                ne_of_text_eq id j ne (
                  sym (named'.name_of id q at)
                  ∙ tells q r k (named'.good id q at) (named.good j r there) key' key
                  ∙ named.name_of j r there))
          | inr n ↦ elim (Bool-cases (key_at key_is old k)) [
            | inl o ↦
                let (q, is_old, key') = key_at_run key_is old k o in
                let at = was ∙ is_old in
                absurd (
                  ne_of_text_eq id j ne (
                    sym (named.name_of id q at)
                    ∙ tells q r k (named.good id q at) (named.good j r there) key' key
                    ∙ named.name_of j r there))
            | inr o ↦ moved k ∙ rw (n, o) (h.to_key j r k there key)
          ]
        ]
  ]

  pub moved-IsIndex : IsIndex key_is index' runs'
  moved-IsIndex = record { of_key = moved_of_key; to_key = moved_to_key }
