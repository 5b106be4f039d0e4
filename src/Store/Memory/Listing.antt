-- ===== src/Store/Memory/Listing.antt =====
-- MemoryStore.ListRuns: newest first, and no run is left out for an older one.
use clock_relay.Base.Sorting.{IsSorted, sort-perm, sort-IsSorted}
use mathlib.Core.List.{append-nil, Perm}
use Prim.Native.Nat.{min}
use clock_relay.Store.Memory.{list_runs, MemoryStore, values}
use clock_relay.Store.Interface.{trim_runs, starts_after, sort_runs}
use clock_relay.Base.Int.{ℤ, negsuc, pos}
use clock_relay.Model.{Run}
use clock_relay.Base.{
  ℕ, List, ◌≡◌, suc, take, length, ◌++◌, false, true, ◌∷◌, if◌then◌else◌, [], ok, arith, zero, ◌==◌,
  Bool-cases, refl, ◌||◌, ltb, inl, inr,
}

starts_total : (x y : Run) → starts_after x y ≡ false → starts_after y x ≡ true
starts_total x y h = ground arith

starts_trans :
    (x y z : Run) → starts_after x y ≡ true → starts_after y z ≡ true → starts_after x z ≡ true
starts_trans x y z h k = ground arith

-- The runs that a limit cuts off.
abbrev pub drop {ℓ} : {A : Type ℓ} → ℕ → List A → List A
drop zero xs = xs
drop (suc n) [] = []
drop (suc n) (x ∷ xs) = drop n xs

take-append-drop {ℓ} : {A : Type ℓ} (n : ℕ) (xs : List A) → take n xs ++ drop n xs ≡ xs
take-append-drop zero xs = refl
take-append-drop (suc n) [] = refl
take-append-drop (suc n) (x ∷ xs) = rw (take-append-drop n xs)

length-take {ℓ} : {A : Type ℓ} (n : ℕ) (xs : List A) → length (take n xs) ≡ min n (length xs)
length-take zero xs = omega arith
length-take (suc n) [] = omega arith
length-take (suc n) (x ∷ xs) = omega (arith, length-take n xs)

-- The number of runs that ListRuns returns of `n`.
abbrev pub listed : ℤ → ℕ → ℕ
listed (negsuc l) n = n
listed (pos l) n = if l == 0 then n else min l n

trim_runs_parts :
    (l : ℤ) (runs : List Run)
    → (rest : List Run) × (trim_runs runs l ++ rest ≡ runs)
      × (length (trim_runs runs l) ≡ listed l (length runs))
unfolding trim_runs
trim_runs_parts (negsuc l) runs = ([], append-nil runs, refl)
trim_runs_parts (pos l) runs = elim (Bool-cases (l == 0 || ltb (length runs) l)) [
  | inl all ↦ rw all ([], append-nil runs, ground arith)
  | inr cut ↦ rw cut (drop l runs, take-append-drop l runs, ground (arith, length-take l runs))
]

-- ListRuns returns the first runs of all runs sorted from the newest to the oldest, `limit` of them
-- if `limit` is positive and there are so many, else all.
pub list_runs_newest :
    (limit : ℤ) (s : MemoryStore)
    → (l rest : List Run) × (list_runs limit s ≡ ok l)
      × Perm (l ++ rest) (values s.runs)
      × IsSorted starts_after (l ++ rest)
      × (length l ≡ listed limit (length (l ++ rest)))
unfolding list_runs sort_runs
list_runs_newest limit s =
    let (rest, parts, size) = trim_runs_parts limit (sort_runs (values s.runs)) in
    (
      trim_runs (sort_runs (values s.runs)) limit,
      rest,
      refl,
      rw parts (sort-perm starts_after (values s.runs)),
      rw parts (sort-IsSorted starts_after starts_total starts_trans (values s.runs)),
      rw parts size,
    )
