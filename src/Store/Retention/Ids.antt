-- ===== src/Store/Retention/Ids.antt =====
-- Lists of stored runs in which no id stands twice, as the keys of a map.
use mathlib.Core.List.{reverse-append}
use clock_relay.Base.Sorting.{insert, sort, any-sort, any-insert}
use clock_relay.Base.{
  Text, List, Bool, any, ◌∷◌, ◌≡◌, reverse, All, text_eq, false, [], Bool-cases, ◌∙◌, ◌++◌, ◌&&◌,
  arith, inl, any-append, any-reverse, text_eq_comm, text_eq_refl, inr, refl,
}
use clock_relay.Store.Retention.{StoredRun}

abbrev pub has_id : Text → List StoredRun → Bool
has_id k runs = any (λ r. text_eq r.id k) runs

abbrev pub IsUnique : List StoredRun → Type 0
IsUnique [] = Unit
IsUnique (r ∷ runs) = (has_id r.id runs ≡ false) × IsUnique runs

insert-IsUnique :
    (le : StoredRun → StoredRun → Bool) (r : StoredRun) (runs : List StoredRun)
    → has_id r.id runs ≡ false
    → IsUnique runs
    → IsUnique (insert le r runs)
unfolding insert
insert-IsUnique le r [] fresh h = (refl, tt)
insert-IsUnique le r (s ∷ runs) fresh h = elim (Bool-cases (le r s)) [
  | inl e ↦ rw e (fresh, h)
  | inr e ↦ rw e (
    ground (
      arith,
      any-insert le (λ (t : StoredRun). text_eq t.id s.id) r runs,
      text_eq_comm r.id s.id,
    ),
    insert-IsUnique le r runs (ground arith) h.1,
  )
]

pub sort-IsUnique :
    (le : StoredRun → StoredRun → Bool) (runs : List StoredRun)
    → IsUnique runs
    → IsUnique (sort le runs)
unfolding sort
sort-IsUnique le [] h = tt
sort-IsUnique le (r ∷ runs) h =
    insert-IsUnique le r (sort le runs)
      (any-sort le (λ (t : StoredRun). text_eq t.id r.id) runs ∙ h.0) (sort-IsUnique le runs h.1)

append-IsUnique :
    (runs : List StoredRun) (r : StoredRun)
    → IsUnique runs
    → has_id r.id runs ≡ false
    → IsUnique (runs ++ r ∷ [])
append-IsUnique [] r h fresh = (refl, tt)
append-IsUnique (s ∷ runs) r h fresh = (
  ground (
    arith,
    any-append (λ (t : StoredRun). text_eq t.id s.id) runs (r ∷ []),
    text_eq_comm r.id s.id,
  ),
  append-IsUnique runs r h.1 (ground arith),
)

pub reverse-IsUnique : (runs : List StoredRun) → IsUnique runs → IsUnique (reverse runs)
reverse-IsUnique [] h = tt
reverse-IsUnique (r ∷ runs) h = rw (reverse-append (r ∷ []) runs) (
    append-IsUnique (reverse runs) r (reverse-IsUnique runs h.1)
      (any-reverse (λ (t : StoredRun). text_eq t.id r.id) runs ∙ h.0))

module _ (p : StoredRun → Bool) where
  -- No entry with another id is taken for `r`.
  pub absent_any :
      (k : Text) (runs : List StoredRun)
      → has_id k runs ≡ false
      → any (λ r. text_eq r.id k && p r) runs ≡ false
  absent_any k [] h = refl
  absent_any k (r ∷ runs) h = ground (arith, absent_any k runs)

  pub other_ids :
      (k : Text) (runs : List StoredRun)
      → has_id k runs ≡ false
      → All (λ r. text_eq k r.id ≡ false) runs
  other_ids k [] h = tt
  other_ids k (r ∷ runs) h = (ground (arith, text_eq_comm r.id k), other_ids k runs (ground arith))

  extend_any :
      (s : StoredRun) (whole runs : List StoredRun)
      → All (λ r. text_eq s.id r.id ≡ false) runs
      → All (λ r. any (λ t. text_eq t.id r.id && p t) whole ≡ p r) runs
      → All (λ r. any (λ t. text_eq t.id r.id && p t) (s ∷ whole) ≡ p r) runs
  extend_any s whole [] d h = tt
  extend_any s whole (r ∷ runs) d h = (ground (arith, d.0, h.0), extend_any s whole runs d.1 h.1)

  -- A test on the entry that has an id is the test on the entry that was meant.
  pub any_by_id :
      (runs : List StoredRun)
      → IsUnique runs
      → All (λ r. any (λ t. text_eq t.id r.id && p t) runs ≡ p r) runs
  any_by_id [] h = tt
  any_by_id (r ∷ runs) h = (
    ground (arith, text_eq_refl r.id, absent_any r.id runs h.0),
    extend_any r runs runs (other_ids r.id runs h.0) (any_by_id runs h.1),
  )
