-- ===== src/Store/Bolt/Rebuilt.antt =====
-- What rebuildRunIndexes and OpenBoltStore leave.
use clock_relay.Store.Bolt.Counting.{set_completed_run_count_lem, Recounted, Counts}
use clock_relay.Base.Ordered.{All-get, count_values}
use clock_relay.Base.Int.{pos}
use clock_relay.Store.Bolt.Counter.{set_completed_run_count}
use clock_relay.Store.Bolt.Keys.{IsPlain, started_key_is, running_key_is}
use clock_relay.Store.Bolt.Cleared.{empty-IsIndex, reset_started_lem, reset_running_lem}
use clock_relay.Store.Bolt.Views.{AreNamed, IsIndex}
use clock_relay.Store.Bolt.Invariant.{
  IsIndexed, run_of, decoded, read_run, completed, raw_completed,
}
use clock_relay.Model.{Run}
use clock_relay.Store.Bolt.Rebuilding.{
  IsReadable, HasIndexes, index_runs_lem, overlay, overlay-run_of,
}
use clock_relay.Store.Bolt.Effects.{at, bind_ok, ok_inj, then_ok}
use clock_relay.Store.Bolt.Buckets.{BoltLibrary, Tx, BoltLaws}
use clock_relay.Base.{
  [], Text, All, ◌≡◌, some, ok, All-map, none, ap, refl, ◌∙◌, subst, sym, All-intro, ℕ, true, ◌⊎◌,
  if◌then◌else◌, Bool-cases, inl, inr, arith,
}
use clock_relay.Store.Bolt.Opening.{
  rebuild_run_indexes, reset_started, reset_running, index_runs, open_bolt_store, open_tx, BoltFile,
  create_buckets, needs_index_rebuild,
}

module _ {B : Type 0} (l : BoltLibrary B) where
  -- The runs can be read and stand under their own ids; nothing is said of indexes and counter.
  pub record HasRuns (tx : Tx B) : Type 0 where
    pub readable :
        (id raw : Text) → at l tx.runs id ≡ some raw → (r : Run) × (l.unmarshal_run raw ≡ ok r)
    pub named : AreNamed IsPlain (run_of l tx)

  IsReadable-entries :
      (laws : BoltLaws l) (tx : Tx B) → HasRuns tx → All (IsReadable l) (l.bucket.entries tx.runs)
  IsReadable-entries laws tx h =
      All-map (λ e. at l tx.runs e.0 ≡ some e.1) (IsReadable l) _
        (λ e found.
          let (r, read) = h.readable e.0 e.1 found in
          let there : run_of l tx e.0 ≡ some r = ap (decoded l) found ∙ ap (read_run l) read in
          (r, read, h.named.name_of e.0 r there, h.named.good e.0 r there))
        (All-get (l.bucket.entries tx.runs) (laws.bucket.entries-IsOrdered tx.runs))

  no_indexes :
      (tx : Tx B)
      → l.bucket.entries tx.runs_by_started_at ≡ []
      → l.bucket.entries tx.running_runs_by_schedule ≡ []
      → HasIndexes l (λ j. none) tx
  no_indexes tx started running = record {
    named = record { name_of = λ j r e. cc; good = λ j r e. absurd (cc) };
    started = empty-IsIndex l _ tx.runs_by_started_at (λ j. none) started (λ j. refl);
    running = empty-IsIndex l _ tx.running_runs_by_schedule (λ j. none) running (λ j. refl);
  }

  Recounted-IsIndexed :
      (n : ℕ) (tx tx' : Tx B)
      → HasRuns tx'
      → HasIndexes l (run_of l tx') tx
      → Recounted l n tx tx'
      → n ≡ completed l tx'
      → IsIndexed l tx'
  Recounted-IsIndexed n tx tx' h i c number = record {
    readable = h.readable;
    named = h.named;
    started =
        subst (λ b. IsIndex (started_key_is l) (at l b) (run_of l tx')) (sym c.started) i.started;
    running =
        subst (λ b. IsIndex (running_key_is l) (at l b) (run_of l tx')) (sym c.running) i.running;
    counted = subst (λ m. Counts l m tx') number c.counts;
  }

  same-HasRuns : (tx tx' : Tx B) → tx'.runs ≡ tx.runs → HasRuns tx → HasRuns tx'
  same-HasRuns tx tx' same h = record {
    readable = λ id raw found. h.readable id raw (ap (λ b. at l b id) (sym same) ∙ found);
    named = subst (λ b. AreNamed IsPlain (λ j. decoded l (at l b j))) (sym same) h.named;
  }

  -- rebuildRunIndexes that succeeds on runs that can be read makes indexes and a counter that agree
  -- with the runs, whatever was there before, and leaves the runs as they are.
  pub rebuild_run_indexes-IsIndexed :
      (laws : BoltLaws l) (tx tx' : Tx B)
      → HasRuns tx
      → rebuild_run_indexes l tx ≡ ok tx'
      → IsIndexed l tx' × (tx'.runs ≡ tx.runs)
  unfolding rebuild_run_indexes
  rebuild_run_indexes-IsIndexed laws tx tx' h made =
      let (tx1, first, s1) = bind_ok (reset_started l tx) _ made in
      let (tx2, second, s2) = bind_ok (reset_running l tx1) _ s1 in
      let (tx3, third, s3) = bind_ok (set_completed_run_count l (pos 0) tx2) _ s2 in
      let ((n, tx4), fourth, last) =
        bind_ok (index_runs l (l.bucket.entries tx3.runs) 0 tx3) _ s3 in
      let (started, runs1, running1) = reset_started_lem l laws tx tx1 first in
      let (running, runs2, started2) = reset_running_lem l laws tx1 tx2 second in
      let c = set_completed_run_count_lem l laws (pos 0) tx2 tx3 third in
      let runs3 : tx3.runs ≡ tx.runs = c.runs ∙ runs2 ∙ runs1 in
      let es = l.bucket.entries tx3.runs in
      let (indexes, runs4, number) =
        index_runs_lem l laws es (λ j. none) 0 n tx3 tx4 (laws.bucket.entries-IsOrdered tx3.runs)
          (subst (λ b. All (IsReadable l) (l.bucket.entries b)) (sym runs3)
            (IsReadable-entries laws tx h))
          (All-intro _ es (λ e. refl))
          (no_indexes tx3 (ap l.bucket.entries (c.started ∙ started2) ∙ started)
            (ap l.bucket.entries c.running ∙ running))
          fourth in
      let d = set_completed_run_count_lem l laws (pos n) tx4 tx' last in
      let runs5 : tx'.runs ≡ tx.runs = d.runs ∙ runs4 ∙ runs3 in
      let view : overlay l es (λ j. none) ≡ run_of l tx' =
        overlay-run_of l laws tx3 ∙ ap (λ b j. decoded l (at l b j)) (sym (d.runs ∙ runs4)) in
      let total : n ≡ completed l tx' = omega (
        arith,
        number,
        ap (λ b. count_values (raw_completed l) (l.bucket.entries b)) (sym (d.runs ∙ runs4)),
      ) in
      (
        Recounted-IsIndexed n tx4 tx' (same-HasRuns tx tx' runs5 h)
            (subst (λ m. HasIndexes l m tx4) view indexes) d total,
        runs5,
      )

  -- OpenBoltStore that succeeds on a file whose runs can be read, and whose indexes and counter agree
  -- with them unless it makes them again, gives a store whose indexes and counter agree with its runs,
  -- which are those of the file.
  pub open_bolt_store-IsIndexed :
      (laws : BoltLaws l) (file : BoltFile B) (tx tx' : Tx B)
      → create_buckets l file ≡ ok tx
      → HasRuns tx
      → (needs_index_rebuild l file ≡ true) ⊎ IsIndexed l tx
      → open_bolt_store l file ≡ ok tx'
      → IsIndexed l tx' × (tx'.runs ≡ tx.runs)
  unfolding open_bolt_store open_tx
  open_bolt_store-IsIndexed laws file tx tx' created h sound made =
      let (tx1, opened, s1) = bind_ok (open_tx l file) _ made in
      let end : tx1 ≡ tx' = ok_inj (then_ok (l.commit tx1) (ok tx1) s1) in
      let (tx0, creating, rest) = bind_ok (create_buckets l file) _ opened in
      let same : tx0 ≡ tx = ok_inj (sym creating ∙ created) in
      let chosen : (if needs_index_rebuild l file then rebuild_run_indexes l tx else ok tx)
          ≡ ok tx' =
        ap (λ t. if needs_index_rebuild l file then rebuild_run_indexes l t else ok t) (sym same)
        ∙ rest
        ∙ ap ok end in
      elim (Bool-cases (needs_index_rebuild l file)) [
        | inl again ↦ rebuild_run_indexes-IsIndexed laws tx tx' h (rw again at chosen)
        | inr keep ↦ elim sound [
          | inl again ↦ absurd (ground (arith, again, keep))
          | inr indexed ↦
              let is_tx : tx ≡ tx' = ok_inj (rw keep at chosen) in
              subst (λ t. IsIndexed l t × (t.runs ≡ tx.runs)) is_tx (indexed, refl)
        ]
      ]
