-- ===== src/Store/Bolt/Listed.antt =====
-- BoltStore.ListRuns lists the newest runs.
use mathlib.Core.List.{reverse-reverse}
use clock_relay.Base.Order.{text_lt_irrefl}
use clock_relay.Store.Bolt.Indexes.{run_started_at_index_key}
use clock_relay.Store.Bolt.Phases.{index_entries, at_entry}
use clock_relay.Store.Bolt.Victims.{started_at_le}
use clock_relay.Base.Sorting.{IsSorted, reverse-IsSorted}
use clock_relay.Store.Interface.{starts_after}
use clock_relay.Base.Int.{ℤ}
use clock_relay.Model.{Run}
use clock_relay.Store.Bolt.Invariant.{IsIndexed, run_of}
use clock_relay.Store.Bolt.Buckets.{BoltLibrary, Tx, BoltLaws}
use clock_relay.Base.{
  ◌∷◌, [], Text, List, Map, All, ◌≡◌, text_lt, any, true, ok, some, text_eq, not, ◌++◌, le→leb,
  Bool-cases, length, arith, inl, reverse, text_eq_iff, sym, All-reverse, All-map, ◌∙◌, ap, inr,
  refl, subst,
}
use clock_relay.Store.Bolt.Methods.{list_runs}
use clock_relay.Store.Bolt.Listing.{
  listed, IsEntry, runs_of, ordered-IsSorted, cut-listed, cut, listed_runs_lem, runs_of-IsSorted,
  runs_of-All,
}

module _ {B : Type 0} (l : BoltLibrary B) where
  -- All runs of the store, each once, from the newest to the oldest.
  pub record IsListing (db : Tx B) (rs : List Run) : Type 0 where
    pub stored : All (λ r. run_of l db r.id ≡ some r) rs
    pub complete :
        (id : Text) (r : Run) → run_of l db id ≡ some r → any (λ q. text_eq q.id id) rs ≡ true
    pub newest_first : IsSorted starts_after rs
    pub distinct : IsSorted (λ a b. not (text_eq a.id b.id)) rs

  module _ (laws : BoltLaws l) (db : Tx B) (h : IsIndexed l db) where
    id_of_entry : (e : Text × Text) (a : IsEntry l db e) → a.0.id ≡ e.1
    id_of_entry e a = h.named.name_of e.1 a.0 a.1

    -- The run of an entry is among those of all entries.
    own_runs :
        (xs : Map Text) (a : All (IsEntry l db) xs)
        → All (λ e. any (λ q. text_eq q.id e.1) (runs_of l db xs a) ≡ true) xs
    own_runs [] a = tt
    own_runs (e ∷ xs) a = (
      ground (arith, text_eq_iff a.0.0.id e.1, id_of_entry e a.0),
      All-map _ _ xs (λ f has. ground (arith, has)) (own_runs xs a.1),
    )

    later_entry :
        (e f : Text × Text) (a : IsEntry l db e) (b : IsEntry l db f)
        → text_lt f.0 e.0 ≡ true
        → starts_after a.0 b.0 ≡ true
    later_entry e f (r, r_there, r_own, r_bound) (q, q_there, q_own, q_bound) less =
        le→leb _ _ (started_at_le l laws q r f.0 e.0 q_bound q_own r_own less)

    other_entry :
        (e f : Text × Text) (a : IsEntry l db e) (b : IsEntry l db f)
        → text_lt f.0 e.0 ≡ true
        → not (text_eq a.0.id b.0.id) ≡ true
    other_entry e f (r, r_there, r_own, r_bound) (q, q_there, q_own, q_bound) less =
        elim (Bool-cases (text_eq r.id q.id)) [
          | inl same ↦
              let ids : e.1 ≡ f.1 =
                sym (h.named.name_of e.1 r r_there)
                ∙ (text_eq_iff r.id q.id).0 same
                ∙ h.named.name_of f.1 q q_there in
              let runs : r ≡ q = ground (arith, r_there, q_there, ids) in
              let keys : e.0 ≡ f.0 =
                sym ((text_eq_iff (run_started_at_index_key l r) e.0).0 r_own)
                ∙ ap (run_started_at_index_key l) runs
                ∙ (text_eq_iff (run_started_at_index_key l q) f.0).0 q_own in
              absurd (ground (arith, rw keys at less, text_lt_irrefl f.0))
          | inr other ↦ rw other refl
        ]

    -- ListRuns, on a store whose indexes agree with its runs, always returns the first runs of all runs
    -- from the newest to the oldest: `limit` of them if `limit` is positive and there are so many, else
    -- all.
    pub list_runs-IsListing :
        (limit : ℤ)
        → (rs rest : List Run) × (list_runs l limit db ≡ ok rs)
          × IsListing db (rs ++ rest)
          × (length rs ≡ listed limit (length (rs ++ rest)))
    unfolding list_runs
    list_runs-IsListing limit =
        let es = l.bucket.entries db.runs_by_started_at in
        let a : All (IsEntry l db) (reverse es) =
          All-reverse (IsEntry l db) es (index_entries l laws db h) in
        let all_runs = runs_of l db (reverse es) a in
        let falls =
          reverse-IsSorted (λ x y. text_lt x.0 y.0) es
            (ordered-IsSorted es (laws.bucket.entries-IsOrdered db.runs_by_started_at)) in
        let Own : Text × Text → Type 0 = λ e. any (λ q. text_eq q.id e.1) all_runs ≡ true in
        let (rest, parts, size) = cut-listed limit all_runs in
        (
          cut limit 0 all_runs,
          rest,
          listed_runs_lem l db laws limit 0 (reverse es) a,
          rw parts (record {
            stored =
                runs_of-All l db {Q = IsEntry l db} (reverse es) a _
                  (λ f b q. ap (run_of l db) (id_of_entry f b) ∙ b.1) a;
            complete = λ id r there.
                at_entry l Own db id r h
                  (subst (All Own) (reverse-reverse es)
                    (All-reverse Own (reverse es) (own_runs (reverse es) a)))
                  there;
            newest_first = runs_of-IsSorted l db starts_after (reverse es) a later_entry falls;
            distinct =
                runs_of-IsSorted l db (λ x y. not (text_eq x.id y.id)) (reverse es) a other_entry
                  falls;
          }),
          rw parts size,
        )
