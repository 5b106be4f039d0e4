-- ===== src/Store/Bolt/Rebuilding.antt =====
-- The loop of rebuildRunIndexes.
use clock_relay.Base.Order.{text_lt_irrefl}
use clock_relay.Store.Interface.{is_completed_run}
use clock_relay.Store.Bolt.Opening.{index_runs, count_one}
use clock_relay.Store.Bolt.Effects.{add_run_indexes_lem, at, ok_inj, bind_ok}
use clock_relay.Store.Bolt.Indexes.{add_run_indexes}
use mathlib.Core.Path.{fun_ext}
use clock_relay.Store.Bolt.Keys.{
  IsPlain, started_key_is, running_key_is, started_key-Tells, running_key-Tells,
}
use clock_relay.Store.Bolt.Invariant.{decoded, run_of, raw_completed, read_run, completed_in}
use clock_relay.Base.Ordered.{IsOrdered, get_before, count_values}
use clock_relay.Store.Bolt.Views.{Runs, AreNamed, IsIndex, moved-IsIndex}
use clock_relay.Model.{Run}
use clock_relay.Store.Bolt.Buckets.{BoltLibrary, BoltLaws, Tx}
use clock_relay.Base.{
  ◌∷◌, [], Text, Map, Option, get, if◌then◌else◌, some, none, ◌≡◌, text_eq, Bool-cases, ok, inl,
  refl, text_eq_iff, ◌∙◌, ap, inr, sym, subst, ℕ, All, ◌+◌, arith, All-map, text_lt, true, All-zip,
}

some_inj : {r q : Run} → some r ≡ some q → r ≡ q
some_inj h = cc

module _ {B : Type 0} (l : BoltLibrary B) where
  -- The runs of some entries, over other runs.
  unfoldable pub overlay : Map Text → Runs → Runs
  overlay [] m = m
  overlay ((id, raw) ∷ es) m = overlay es (λ j. if text_eq id j then decoded l (some raw) else m j)

  abbrev found_or : Option Text → Option Run → Option Run
  found_or none o = o
  found_or (some raw) o = decoded l (some raw)

  overlay-get :
      (es : Map Text) (m : Runs) (j : Text)
      → IsOrdered es
      → overlay es m j ≡ found_or (get j es) (m j)
  unfolding overlay get
  overlay-get [] m j o = refl
  overlay-get ((id, raw) ∷ es) m j o = elim (Bool-cases (text_eq id j)) [
    | inl e ↦
        let same = (text_eq_iff id j).0 e in
        let none_later : get j es ≡ none = get_before j es (rw same at o.0) in
        overlay-get es _ j o.1
        ∙ ap (λ q. found_or q (if text_eq id j then decoded l (some raw) else m j)) none_later
        ∙ rw e refl
    | inr e ↦ overlay-get es _ j o.1 ∙ rw e refl
  ]

  found_or-none : (o : Option Text) → found_or o none ≡ decoded l o
  found_or-none none = refl
  found_or-none (some raw) = refl

  pub overlay-run_of :
      (laws : BoltLaws l) (tx : Tx B) → overlay (l.bucket.entries tx.runs) (λ j. none) ≡ run_of l tx
  overlay-run_of laws tx = fun_ext (λ j.
      overlay-get (l.bucket.entries tx.runs) (λ j. none) j (laws.bucket.entries-IsOrdered tx.runs)
      ∙ found_or-none (get j (l.bucket.entries tx.runs)))

  -- An entry of the bucket of the runs, read back.
  abbrev pub IsReadable : Text × Text → Type 0
  IsReadable e = (r : Run) × (l.unmarshal_run e.1 ≡ ok r) × (r.id ≡ e.0) × IsPlain r

  -- Both indexes are those of the runs `m`.
  pub record HasIndexes (m : Runs) (tx : Tx B) : Type 0 where
    pub named : AreNamed IsPlain m
    pub started : IsIndex (started_key_is l) (at l tx.runs_by_started_at) m
    pub running : IsIndex (running_key_is l) (at l tx.running_runs_by_schedule) m

  added-HasIndexes :
      (laws : BoltLaws l) (m : Runs) (id : Text) (r : Run) (tx tx' : Tx B)
      → r.id ≡ id
      → IsPlain r
      → m id ≡ none
      → HasIndexes m tx
      → add_run_indexes l r tx ≡ ok tx'
      → HasIndexes (λ j. if text_eq id j then some r else m j) tx'
  added-HasIndexes laws m id r tx tx' own plain fresh h made =
      let added = add_run_indexes_lem l laws r tx tx' made in
      let named : AreNamed IsPlain (λ j. if text_eq id j then some r else m j) = record {
        name_of = λ j q e. elim (Bool-cases (text_eq id j)) [
          | inl same ↦
              ap (λ (x : Run). x.id) (sym (some_inj (rw same at e)))
              ∙ own
              ∙ (text_eq_iff id j).0 same
          | inr other ↦ h.named.name_of j q (rw other at e)
        ];
        good = λ j q e. elim (Bool-cases (text_eq id j)) [
          | inl same ↦ subst IsPlain (some_inj (rw same at e)) plain
          | inr other ↦ h.named.good j q (rw other at e)
        ];
      } in
      record {
        named = named;
        started =
            moved-IsIndex IsPlain (started_key_is l) (started_key-Tells l laws) id none (some r) _ _
              m _ fresh h.named named (λ j. refl) (λ k. added.started k ∙ rw own refl) h.started;
        running =
            moved-IsIndex IsPlain (running_key_is l) (running_key-Tells l laws) id none (some r) _ _
              m _ fresh h.named named (λ j. refl) (λ k. added.running k ∙ rw own refl) h.running;
      }

  -- The loop adds the runs of the entries to those so far, and their number.
  pub index_runs_lem :
      (laws : BoltLaws l) (es : Map Text) (m : Runs) (count n : ℕ) (tx tx' : Tx B)
      → IsOrdered es
      → All IsReadable es
      → All (λ e. m e.0 ≡ none) es
      → HasIndexes m tx
      → index_runs l es count tx ≡ ok (n, tx')
      → HasIndexes (overlay es m) tx'
        × (tx'.runs ≡ tx.runs)
        × (n ≡ count + count_values (raw_completed l) es)
  unfolding index_runs overlay
  index_runs_lem laws [] m count n tx tx' o read fresh h made =
      let end : ◌≡◌ {A = ℕ × Tx B} (count, tx) (n, tx') = ok_inj made in
      (
        subst (λ (x : ℕ × Tx B). HasIndexes m x.1) end h,
        sym (ap (λ (x : ℕ × Tx B). x.1.runs) end),
        omega (arith, ap (λ (x : ℕ × Tx B). x.0) end),
      )
  index_runs_lem laws ((id, raw) ∷ es) m count n tx tx' o ((r, decodes, own, plain), read) fresh h
        made =
      let (tx1, adding, rest) = bind_ok (add_run_indexes l r tx) _ (rw decodes at made) in
      let m1 : Runs = λ j. if text_eq id j then decoded l (some raw) else m j in
      let h1 = added-HasIndexes laws m id r tx tx1 own plain fresh.0 h adding in
      let (indexes, same, number) =
        index_runs_lem laws es m1 (count + count_one l (is_completed_run r)) n tx1 tx' o.1 read
          (All-map (λ e. (text_lt id e.0 ≡ true) × (m e.0 ≡ none)) (λ e. m1 e.0 ≡ none) es
            (λ e (less, missing).
              ground (arith, less, missing, text_eq_iff id e.0, text_lt_irrefl id))
            (All-zip (λ e. text_lt id e.0 ≡ true) (λ e. m e.0 ≡ none) es o.0 fresh.1))
          (subst (λ o. HasIndexes (λ j. if text_eq id j then o else m j) tx1)
            (sym (ap (read_run l) decodes)) h1)
          rest in
      (
        indexes,
        same ∙ (add_run_indexes_lem l laws r tx tx1 adding).runs,
        omega (arith, number, ap (λ q. count_one l (completed_in (read_run l q))) decodes),
      )
