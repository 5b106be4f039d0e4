-- ===== src/Store/Bolt/Finished.antt =====
-- The number of the finished runs of a map, and that the counter has it.
use clock_relay.Base.Order.{text_lt_irrefl}
use clock_relay.Model.{Run, is_running}
use clock_relay.Store.Bolt.Invariant.{
  raw_completed, completed, completed_in, decoded, run_of, read_run,
}
use clock_relay.Base.Sorting.{IsSorted}
use clock_relay.Base.Ordered.{IsOrdered, count_values, All-get, get-All}
use clock_relay.Store.Interface.{is_completed_run}
use clock_relay.Config.Validate.{member}
use clock_relay.Store.Bolt.Views.{Runs}
use clock_relay.Store.Bolt.Buckets.{BoltLibrary, BoltLaws, Tx}
use clock_relay.Base.{
  ◌∷◌, [], Text, ℕ, Map, List, length, All, Result, Option, if◌then◌else◌, ◌≡◌, not, true, text_eq,
  arith, Bool-cases, some, All-map, inl, text_eq_iff, get, refl, false, inr, text_lt, ap, err, ◌∙◌,
  ok, none,
}

-- The map has `n` finished runs: they can be listed by their ids, each once.
pub record HasFinished (n : ℕ) (m : Runs) : Type 0 where
  pub ids : List Text
  pub distinct : IsSorted (λ a b. not (text_eq a b)) ids
  pub finished : All (λ id. (r : Run) × (m id ≡ some r) × (is_running r.status ≡ false)) ids
  pub complete :
      (id : Text) (r : Run) → m id ≡ some r → is_running r.status ≡ false → member id ids ≡ true
  pub size : length ids ≡ n

module _ {B : Type 0} (l : BoltLibrary B) where
  finished_ids : Map Text → List Text
  finished_ids [] = []
  finished_ids ((k, raw) ∷ es) =
      let rest = finished_ids es in if raw_completed l raw then k ∷ rest else rest

  length-finished_ids :
      (es : Map Text) → length (finished_ids es) ≡ count_values (raw_completed l) es
  unfolding finished_ids
  length-finished_ids [] = refl
  length-finished_ids ((k, raw) ∷ es) = ground (arith, length-finished_ids es)

  All-finished_ids {κ} :
      (P : Text → Type κ) (es : Map Text)
      → All (λ e. raw_completed l e.1 ≡ true → P e.0) es
      → All P (finished_ids es)
  unfolding finished_ids
  All-finished_ids P [] h = tt
  All-finished_ids P ((k, raw) ∷ es) h = elim (Bool-cases (raw_completed l raw)) [
    | inl e ↦ rw e (h.0 e, All-finished_ids P es h.1)
    | inr e ↦ rw e (All-finished_ids P es h.1)
  ]

  distinct-finished_ids :
      (es : Map Text) → IsOrdered es → IsSorted (λ a b. not (text_eq a b)) (finished_ids es)
  unfolding finished_ids
  distinct-finished_ids [] o = tt
  distinct-finished_ids ((k, raw) ∷ es) o = elim (Bool-cases (raw_completed l raw)) [
    | inl e ↦ rw e (
      All-finished_ids (λ j. not (text_eq k j) ≡ true) es
          (All-map (λ x. text_lt k x.0 ≡ true) _ es
            (λ x less c. ground (arith, less, text_eq_iff k x.0, text_lt_irrefl k)) o.0),
      distinct-finished_ids es o.1,
    )
    | inr e ↦ rw e (distinct-finished_ids es o.1)
  ]

  members-finished_ids :
      (es : Map Text)
      → All (λ e. raw_completed l e.1 ≡ true → member e.0 (finished_ids es) ≡ true) es
  unfolding finished_ids member
  members-finished_ids [] = tt
  members-finished_ids ((k, raw) ∷ es) = (
    (λ e. ground (arith, e, text_eq_iff k k)),
    All-map _ _ es (λ x c e. ground (arith, c e)) (members-finished_ids es),
  )

  completed_raw :
      (v : Result Run)
      → completed_in (read_run l v) ≡ true
      → (r : Run) × (read_run l v ≡ some r) × (is_running r.status ≡ false)
  unfolding is_completed_run
  completed_raw (err x) h = cc
  completed_raw (ok r) h = (r, refl, ground arith)

  finished_raw :
      (o : Option Text) (r : Run)
      → decoded l o ≡ some r
      → is_running r.status ≡ false
      → (raw : Text) × (o ≡ some raw) × (raw_completed l raw ≡ true)
  unfolding is_completed_run
  finished_raw none r h done = cc
  finished_raw (some raw) r h done = (raw, refl, ap completed_in h ∙ rw done refl)

  -- The number of completed runs in the store is that of the finished runs of its map.
  pub completed-HasFinished :
      (laws : BoltLaws l) (tx : Tx B) → HasFinished (completed l tx) (run_of l tx)
  completed-HasFinished laws tx =
      let es = l.bucket.entries tx.runs in
      let o = laws.bucket.entries-IsOrdered tx.runs in
      record {
        ids = finished_ids es;
        distinct = distinct-finished_ids es o;
        finished = All-finished_ids _ es (
            All-map (λ e. get e.0 es ≡ some e.1) _ es
              (λ e found c.
                let (r, read, done) = completed_raw (l.unmarshal_run e.1) c in
                (r, ap (decoded l) found ∙ read, done))
              (All-get es o));
        complete = λ id r there done.
            let (raw, found, c) = finished_raw (get id es) r there done in
            get-All (λ e. raw_completed l e.1 ≡ true → member e.0 (finished_ids es) ≡ true) id raw
              es found (members-finished_ids es) c;
        size = length-finished_ids es;
      }
