-- ===== src/Store/Bolt/Listing.antt =====
-- What BoltStore.ListRuns returns.
use mathlib.Core.List.{append-nil}
use clock_relay.Store.Bolt.Deleted.{read_run_total}
use clock_relay.Store.Bolt.Invariant.{decoded}
use clock_relay.Store.Bolt.Effects.{at}
use Prim.Native.Nat.{min, suc}
use clock_relay.Store.Bolt.Victims.{EntryRun, IsBounded}
use clock_relay.Model.{Run}
use clock_relay.Base.Sorting.{IsSorted}
use clock_relay.Base.Ordered.{IsOrdered}
use clock_relay.Store.Bolt.Buckets.{BoltLibrary, Tx, BoltLaws}
use clock_relay.Base.Int.{ℤ, ltb_ℤ, pos, pos_part, negsuc}
use clock_relay.Base.{
  ◌∷◌, [], Text, Map, ℕ, List, if◌then◌else◌, All, text_lt, ◌+◌, ◌<◌, ◌≡◌, Bool, false, ◌++◌, ok,
  true, ap, length, refl, ◌-◌, arith, Bool-cases, inl, inr, Option, some, none, Result, ◌∙◌, suc,
  zero,
}
use clock_relay.Store.Bolt.Methods.{listed_runs, reached, list_found}

pub ordered-IsSorted {ℓ} :
    {V : Type ℓ} (m : Map V) → IsOrdered m → IsSorted (λ a b. text_lt a.0 b.0) m
ordered-IsSorted [] h = tt
ordered-IsSorted ((k, v) ∷ m) h = (h.0, ordered-IsSorted m h.1)

-- The runs that are listed of `rs` if `n` have been listed before.
abbrev pub cut : ℤ → ℕ → List Run → List Run
cut limit n [] = []
cut limit n (r ∷ rs) =
    let rest = cut limit (n + 1) rs in if reached limit (n + 1) then r ∷ [] else r ∷ rest

cut_none : (limit : ℤ) (n : ℕ) (rs : List Run) → ltb_ℤ (pos 0) limit ≡ false → cut limit n rs ≡ rs
cut_none limit n [] off = refl
cut_none limit n (r ∷ rs) off = rw off (ap (λ t. r ∷ t) (cut_none limit (n + 1) rs off))

-- How many runs are listed of `n`.
abbrev pub listed : ℤ → ℕ → ℕ
listed limit n = if ltb_ℤ (pos 0) limit then min (pos_part limit) n else n

cut_parts :
    (l n : ℕ) (rs : List Run)
    → n < l
    → (rest : List Run) × (cut (pos l) n rs ++ rest ≡ rs)
      × (length (cut (pos l) n rs) ≡ min (l - n) (length rs))
cut_parts l n [] small = ([], refl, omega arith)
cut_parts l n (r ∷ rs) small = elim (Bool-cases (reached (pos l) (n + 1))) [
  | inl e ↦ rw e (rs, refl, ground (arith, small, e))
  | inr e ↦
      let (rest, parts, size) = cut_parts l (n + 1) rs (ground (arith, e, small)) in
      rw e (rest, ap (λ t. r ∷ t) parts, omega (arith, size, small))
]

pub cut-listed :
    (limit : ℤ) (rs : List Run)
    → (rest : List Run) × (cut limit 0 rs ++ rest ≡ rs)
      × (length (cut limit 0 rs) ≡ listed limit (length rs))
cut-listed (negsuc l) rs =
    let same = cut_none (negsuc l) 0 rs (ground arith) in
    ([], append-nil (cut (negsuc l) 0 rs) ∙ same, ground (arith, ap length same))
cut-listed (pos zero) rs =
    let same = cut_none (pos zero) 0 rs (ground arith) in
    ([], append-nil (cut (pos zero) 0 rs) ∙ same, ground (arith, ap length same))
cut-listed (pos (suc l)) rs =
    let (rest, parts, size) = cut_parts (suc l) 0 rs (omega arith) in
    (rest, parts, ground (arith, size))

module _ {B : Type 0} (l : BoltLibrary B) (tx : Tx B) where
  abbrev pub IsEntry : Text × Text → Type 0
  IsEntry = EntryRun l IsBounded tx

  -- The runs of some entries.
  abbrev pub runs_of : (xs : Map Text) → All IsEntry xs → List Run
  runs_of [] h = []
  runs_of (e ∷ xs) h = h.0.0 ∷ runs_of xs h.1

  stored_raw :
      (o : Option Text) (r : Run)
      → decoded l o ≡ some r
      → (raw : Text) × (o ≡ some raw) × (l.unmarshal_run raw ≡ ok r)
  stored_raw none r h = cc
  stored_raw (some raw) r h = (raw, refl, read_run_total l (l.unmarshal_run raw) r h)

  listed_one :
      (limit : ℤ) (n : ℕ) (r : Run) (skipped others : Result (List Run)) (rest : List Run)
      (raw : Text)
      → l.unmarshal_run raw ≡ ok r
      → others ≡ ok rest
      → list_found l limit n skipped others (some raw)
        ≡ ok (if reached limit (n + 1) then r ∷ [] else r ∷ rest)
  listed_one limit n r skipped others rest raw read e = elim (Bool-cases (reached limit (n + 1))) [
    | inl stop ↦ rw (read, stop) refl
    | inr more ↦ rw (read, more, e) refl
  ]

  pub listed_runs_lem :
      (laws : BoltLaws l) (limit : ℤ) (n : ℕ) (xs : Map Text) (h : All IsEntry xs)
      → listed_runs l limit n tx xs ≡ ok (cut limit n (runs_of xs h))
  unfolding listed_runs
  listed_runs_lem laws limit n [] h = refl
  listed_runs_lem laws limit n ((k, id) ∷ xs) ((r, there, own, bound), h) =
      let (raw, stored, read) = stored_raw (at l tx.runs id) r there in
      let skipped = listed_runs l limit n tx xs in
      let others = listed_runs l limit (n + 1) tx xs in
      ap (list_found l limit n skipped others) (laws.bucket.get_value_lem id tx.runs ∙ stored)
      ∙ listed_one limit n r skipped others (cut limit (n + 1) (runs_of xs h)) raw read
          (listed_runs_lem laws limit (n + 1) xs h)

  pub runs_of-All {κ} :
      {Q : Text × Text → Type 0} (xs : Map Text) (h : All IsEntry xs) (P : Run → Type κ)
      → ((f : Text × Text) (b : IsEntry f) → Q f → P b.0)
      → All Q xs
      → All P (runs_of xs h)
  runs_of-All [] h P f q = tt
  runs_of-All (e ∷ xs) h P f q = (f e h.0 q.0, runs_of-All xs h.1 P f q.1)

  pub runs_of-IsSorted :
      (le : Run → Run → Bool) (xs : Map Text) (h : All IsEntry xs)
      → ((e f : Text × Text) (a : IsEntry e) (b : IsEntry f)
          → text_lt f.0 e.0 ≡ true
          → le a.0 b.0 ≡ true)
      → IsSorted (λ e f. text_lt f.0 e.0) xs
      → IsSorted le (runs_of xs h)
  runs_of-IsSorted le [] h implies o = tt
  runs_of-IsSorted le (e ∷ xs) h implies o = (
    runs_of-All xs h.1 (λ r. le h.0.0 r ≡ true) (λ f b. implies e f h.0 b) o.0,
    runs_of-IsSorted le xs h.1 implies o.1,
  )
