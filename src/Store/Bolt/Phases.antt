-- ===== src/Store/Bolt/Phases.antt =====
-- The two loops of PruneRuns: what the deletion by age and the deletion by number leave.
use clock_relay.Base.Ordered.{get-All, All-get}
use clock_relay.Store.Bolt.Effects.{bind_ok, at, ok_inj}
use clock_relay.Store.Bolt.Indexes.{run_started_at_index_key}
use clock_relay.Store.Bolt.Emptied.{AreDeleted}
use clock_relay.Store.Bolt.Victims.{has_id, EntryRun, IsFinished, IsBounded}
use clock_relay.Store.Bolt.Pruning.{delete_victims, delete_counted}
use clock_relay.Store.Bolt.Invariant.{IsIndexed, run_of, completed}
use clock_relay.Model.{Time, Run, is_running}
use clock_relay.Store.Bolt.Buckets.{BoltLibrary, Tx, BoltLaws}
use clock_relay.Base.{
  ◌∷◌, [], Text, ℕ, Map, All, ◌≡◌, some, true, ok, ◌≤◌, none, Bool-cases, false, length, All-map,
  ◌<◌, text_eq, inl, ◌+◌, subst, arith, inr, text_eq_refl, text_eq_iff, sym, ap, ◌∙◌,
}

module _ {B : Type 0} (l : BoltLibrary B) where
  -- Finished runs have been deleted, `deleted` of them, and nothing else.
  pub record IsPhase (deleted : ℕ) (tx tx' : Tx B) : Type 0 where
    pub indexed : IsIndexed l tx'
    pub left : (j : Text) (r : Run) → run_of l tx' j ≡ some r → run_of l tx j ≡ some r
    pub running :
        (j : Text) (r : Run)
        → run_of l tx j ≡ some r
        → is_running r.status ≡ true
        → run_of l tx' j ≡ some r
    pub recount : completed l tx' + deleted ≡ completed l tx
    pub some_deleted :
        (j : Text) (r : Run) → run_of l tx j ≡ some r → run_of l tx' j ≡ none → 0 < deleted

  -- No finished run that started before the cutoff is left.
  abbrev pub AreYoung : Time → Tx B → Type 0
  AreYoung cutoff tx =
      (j : Text) (q : Run) → run_of l tx j ≡ some q → IsFinished q → cutoff ≤ q.started_at

  -- Every deleted run started before the cutoff.
  abbrev pub AreOld : Time → Tx B → Tx B → Type 0
  AreOld cutoff tx tx' =
      (i : Text) (d : Run) → run_of l tx i ≡ some d → run_of l tx' i ≡ none → d.started_at < cutoff

  -- No finished run that is left started before one that was deleted.
  abbrev pub AreFirst : Tx B → Tx B → Type 0
  AreFirst tx tx' =
      (i j : Text) (d q : Run)
      → run_of l tx i ≡ some d
      → run_of l tx' i ≡ none
      → run_of l tx' j ≡ some q
      → IsFinished q
      → d.started_at ≤ q.started_at

  pub has_id_found {κ} :
      (P : Text × Text → Type κ) (vs : Map Text) (j : Text)
      → All P vs
      → has_id vs j ≡ true
      → (k : Text) × P (k, j)
  has_id_found P [] j h e = cc
  has_id_found P ((k, id) ∷ vs) j h e = elim (Bool-cases (text_eq id j)) [
    | inl same ↦ (k, subst (λ i. P (k, i)) ((text_eq_iff id j).0 same) h.0)
    | inr other ↦ has_id_found P vs j h.1 (rw other at e)
  ]

  has_id-length : (vs : Map Text) (j : Text) → has_id vs j ≡ true → 0 < length vs
  has_id-length [] j e = cc
  has_id-length (v ∷ vs) j e = omega arith

  pub left_of :
      (vs : Map Text) (tx tx' : Tx B) (j : Text) (r : Run)
      → AreDeleted l vs tx tx'
      → run_of l tx' j ≡ some r
      → (has_id vs j ≡ false) × (run_of l tx j ≡ some r)
  left_of vs tx tx' j r d e = elim (Bool-cases (has_id vs j)) [
    | inl has ↦ absurd (ground (arith, d.gone j, has, e))
    | inr lacks ↦ (lacks, sym (d.gone j ∙ rw lacks) ∙ e)
  ]

  pub deleted_of :
      (vs : Map Text) (tx tx' : Tx B) (j : Text) (r : Run)
      → AreDeleted l vs tx tx'
      → run_of l tx j ≡ some r
      → run_of l tx' j ≡ none
      → has_id vs j ≡ true
  deleted_of vs tx tx' j r d was e = elim (Bool-cases (has_id vs j)) [
    | inl has ↦ has
    | inr lacks ↦ absurd (ground (arith, d.gone j, lacks, was, e))
  ]

  pub deleted-IsPhase :
      (vs : Map Text) (tx tx' : Tx B)
      → All (EntryRun l IsFinished tx) vs
      → AreDeleted l vs tx tx'
      → IsPhase (length vs) tx tx'
  deleted-IsPhase vs tx tx' v d = record {
    indexed = d.indexed;
    left = λ j r e. (left_of vs tx tx' j r d e).1;
    running = λ j r there live. elim (Bool-cases (has_id vs j)) [
      | inl has ↦
          let (k, (q, q_there, own, done)) = has_id_found (EntryRun l IsFinished tx) vs j v has in
          let same : q ≡ r = ground (arith, q_there, there) in
          absurd (ground (arith, ap (λ (x : Run). is_running x.status) same, done, live))
      | inr lacks ↦ d.gone j ∙ rw lacks there
    ];
    recount = d.recount;
    some_deleted = λ j r there e. has_id-length vs j (deleted_of vs tx tx' j r d there e);
  }

  -- The entries of the index by start stand for the runs.
  pub index_entries :
      (laws : BoltLaws l) (tx : Tx B)
      → IsIndexed l tx
      → All (EntryRun l IsBounded tx) (l.bucket.entries tx.runs_by_started_at)
  index_entries laws tx h =
      All-map (λ e. at l tx.runs_by_started_at e.0 ≡ some e.1) (EntryRun l IsBounded tx) _
        (λ e found.
          let (r, there, own) = h.started.of_key e.0 e.1 found in
          (r, there, own, (h.named.good e.1 r there).bounded))
        (All-get (l.bucket.entries tx.runs_by_started_at)
          (laws.bucket.entries-IsOrdered tx.runs_by_started_at))

  pub at_entry {κ} :
      (P : Text × Text → Type κ) (tx : Tx B) (id : Text) (r : Run)
      → IsIndexed l tx
      → All P (l.bucket.entries tx.runs_by_started_at)
      → run_of l tx id ≡ some r
      → P (run_started_at_index_key l r, id)
  at_entry P tx id r h all_p there =
      get-All P (run_started_at_index_key l r) id (l.bucket.entries tx.runs_by_started_at)
        (h.started.to_key id r (run_started_at_index_key l r) there
          (text_eq_refl (run_started_at_index_key l r)))
        all_p

  pub delete_counted_lem :
      (vs : Map Text) (tx tx' : Tx B) (deleted : ℕ)
      → delete_counted l vs tx ≡ ok (deleted, tx')
      → (delete_victims l vs tx ≡ ok tx') × (length vs ≡ deleted)
  delete_counted_lem vs tx tx' deleted made =
      let (tx1, emptied, last) = bind_ok (delete_victims l vs tx) _ made in
      let end : ◌≡◌ {A = ℕ × Tx B} (length vs, tx1) (deleted, tx') = ok_inj last in
      (emptied ∙ ap ok (ap (λ x. x.1) end), ap (λ x. x.0) end)
