-- ===== src/Store/Bolt/Selection.antt =====
-- The loops that choose the victims.
use clock_relay.Store.Bolt.Deleted.{run_by_id_lem}
use clock_relay.Store.Bolt.Keys.{started_key_is}
use clock_relay.Store.Bolt.Invariant.{run_of}
use clock_relay.Store.Bolt.Victims.{
  IsFinished, EntryRun, IsBounded, has_id, started_at_lem, started_at_le,
}
use clock_relay.Base.Ordered.{IsOrdered}
use clock_relay.Store.Bolt.Indexes.{started_at_from_run_index_key, run_by_id}
use clock_relay.Store.Bolt.Effects.{ok_inj, bind_ok}
use clock_relay.Store.Bolt.Pruning.{older_victims, with_victim}
use clock_relay.Model.{Run, Time, is_running}
use clock_relay.Store.Bolt.Buckets.{BoltLibrary, Tx, BoltLaws}
use clock_relay.Base.{
  ◌∷◌, [], Text, Map, All, ◌≡◌, Bool-cases, ok, subst, inl, inr, ltb, text_lt, true, ◌⊎◌, false,
  ◌<◌, some, arith, All-map, All-zip, ap, text_eq_iff, if◌then◌else◌, sym,
}

module _ {B : Type 0} (l : BoltLibrary B) where
  victim-All {κ} :
      (P : Text × Text → Type κ) (r : Run) (key id : Text) (rest : Map Text)
      → P (key, id)
      → All P rest
      → All P (with_victim l r (key, id) rest)
  victim-All P r key id rest p ps = elim (Bool-cases (is_running r.status)) [
    | inl live ↦ rw live ps
    | inr done ↦ rw done (p, ps)
  ]

  victim-IsOrdered :
      (r : Run) (key id : Text) (rest : Map Text)
      → All (λ e. text_lt key e.0 ≡ true) rest
      → IsOrdered rest
      → IsOrdered (with_victim l r (key, id) rest)
  victim-IsOrdered r key id rest p ps = elim (Bool-cases (is_running r.status)) [
    | inl live ↦ rw live ps
    | inr done ↦ rw done (p, ps)
  ]

module _ {B : Type 0} (l : BoltLibrary B) (tx : Tx B) (cutoff : Time) where
  -- An entry is passed on to the rest of the loop.
  record Passed (key id : Text) (es vs : Map Text) (t : Time) : Type 0 where
    run : Run
    rest : Map Text
    old : ltb t cutoff ≡ true
    found : run_by_id l id tx ≡ ok run
    others : older_victims l cutoff tx es ≡ ok rest
    chosen : with_victim l run (key, id) rest ≡ vs

  older_step :
      (key id : Text) (es vs : Map Text)
      → older_victims l cutoff tx ((key, id) ∷ es) ≡ ok vs
      → (t : Time) × (started_at_from_run_index_key l key ≡ ok t)
        × (Passed key id es vs t ⊎ ((ltb t cutoff ≡ false) × ([] ≡ vs)))
  unfolding older_victims
  older_step key id es vs made =
      let (t, parsed, s1) = bind_ok (started_at_from_run_index_key l key) _ made in
      (
        t,
        parsed,
        elim (Bool-cases (ltb t cutoff)) [
          | inl old ↦
              let (r, found, s2) = bind_ok (run_by_id l id tx) _ (rw old at s1) in
              let (rest, others, chosen) = bind_ok (older_victims l cutoff tx es) _ s2 in
              inl (record {
                run = r;
                rest = rest;
                old = old;
                found = found;
                others = others;
                chosen = ok_inj chosen;
              })
          | inr young ↦ inr (young, ok_inj (rw young at s1))
        ],
      )

  pub older-All {κ} :
      (P : Text × Text → Type κ) (es vs : Map Text)
      → All P es
      → older_victims l cutoff tx es ≡ ok vs
      → All P vs
  unfolding older_victims
  older-All P [] vs h made = subst (All P) (ok_inj made) tt
  older-All P ((key, id) ∷ es) vs h made = elim (older_step key id es vs made).2 [
    | inl p ↦
        subst (All P) p.chosen
          (victim-All l P p.run key id p.rest h.0 (older-All P es p.rest h.1 p.others))
    | inr (young, nothing) ↦ subst (All P) nothing tt
  ]

  pub older-IsOrdered :
      (es vs : Map Text) → IsOrdered es → older_victims l cutoff tx es ≡ ok vs → IsOrdered vs
  unfolding older_victims
  older-IsOrdered [] vs h made = subst IsOrdered (ok_inj made) tt
  older-IsOrdered ((key, id) ∷ es) vs h made = elim (older_step key id es vs made).2 [
    | inl p ↦ subst IsOrdered p.chosen (
        victim-IsOrdered l p.run key id p.rest
          (older-All (λ e. text_lt key e.0 ≡ true) es p.rest h.0 p.others)
          (older-IsOrdered es p.rest h.1 p.others))
    | inr (young, nothing) ↦ subst IsOrdered nothing tt
  ]

  -- A finished run that started before the cutoff.
  abbrev pub IsOld : Run → Type 0
  IsOld r = IsFinished r × (r.started_at < cutoff)

  victim_chosen :
      (r : Run) (key id : Text) (rest : Map Text)
      → run_of l tx id ≡ some r
      → started_key_is l r key ≡ true
      → r.started_at < cutoff
      → All (EntryRun l IsOld tx) rest
      → All (EntryRun l IsOld tx) (with_victim l r (key, id) rest)
  victim_chosen r key id rest there own old ps = elim (Bool-cases (is_running r.status)) [
    | inl live ↦ rw live ps
    | inr done ↦ rw done ((r, there, own, (done, old)), ps)
  ]

  module _ (laws : BoltLaws l) where
    pub older-IsOld :
        (es vs : Map Text)
        → All (EntryRun l IsBounded tx) es
        → older_victims l cutoff tx es ≡ ok vs
        → All (EntryRun l IsOld tx) vs
    unfolding older_victims
    older-IsOld [] vs h made = subst (All (EntryRun l IsOld tx)) (ok_inj made) tt
    older-IsOld ((key, id) ∷ es) vs h made =
        let (t, parsed, steps) = older_step key id es vs made in
        elim steps [
          | inl p ↦
              let (r, there, own, bound) = h.0 in
              let time : r.started_at ≡ t =
                ground (arith, started_at_lem l laws r key bound own, parsed) in
              let same : p.run ≡ r =
                ground (arith, run_by_id_lem l laws id tx p.run p.found, there) in
              subst (All (EntryRun l IsOld tx)) p.chosen (
                rw same (
                  victim_chosen r key id p.rest there own (ground (arith, time, p.old))
                    (older-IsOld es p.rest h.1 p.others)))
          | inr (young, nothing) ↦ subst (All (EntryRun l IsOld tx)) nothing tt
        ]

    -- All that are old are chosen.
    abbrev pub IsChosen : Map Text → Text × Text → Type 0
    IsChosen vs e = (r : Run) → run_of l tx e.1 ≡ some r → IsOld r → has_id vs e.1 ≡ true

    victim_complete :
        (r : Run) (key id : Text) (rest es : Map Text)
        → run_of l tx id ≡ some r
        → All (IsChosen rest) es
        → All (IsChosen (with_victim l r (key, id) rest)) ((key, id) ∷ es)
    victim_complete r key id rest es there ps = elim (Bool-cases (is_running r.status)) [
      | inl live ↦
          (subst (λ b. All (IsChosen (if b then rest else (key, id) ∷ rest)) ((key, id) ∷ es))
            (sym live)
            ((
              (λ q q_there old.
                  let same : q ≡ r = ground (arith, there, q_there) in
                  absurd (ground (arith, ap (λ (x : Run). is_running x.status) same, live, old.0))),
              ps,
            )))
      | inr done ↦
          (subst (λ b. All (IsChosen (if b then rest else (key, id) ∷ rest)) ((key, id) ∷ es))
            (sym done)
            ((
              (λ q q_there old. ground (arith, text_eq_iff id id)),
              All-map (IsChosen rest) (IsChosen ((key, id) ∷ rest)) es
                  (λ e c q q_there old. ground (arith, c q q_there old)) ps,
            )))
    ]

    pub older_complete :
        (es vs : Map Text)
        → IsOrdered es
        → All (EntryRun l IsBounded tx) es
        → older_victims l cutoff tx es ≡ ok vs
        → All (IsChosen vs) es
    older_complete [] vs o h made = tt
    older_complete ((key, id) ∷ es) vs o h made =
        let (t, parsed, steps) = older_step key id es vs made in
        let (r, there, own, bound) = h.0 in
        let time : r.started_at ≡ t =
          ground (arith, started_at_lem l laws r key bound own, parsed) in
        elim steps [
          | inl p ↦
              let same : p.run ≡ r =
                ground (arith, run_by_id_lem l laws id tx p.run p.found, there) in
              subst (λ vs. All (IsChosen vs) ((key, id) ∷ es)) p.chosen
                (subst (λ q. All (IsChosen (with_victim l q (key, id) p.rest)) ((key, id) ∷ es))
                  (sym same)
                  (victim_complete r key id p.rest es there
                    (older_complete es p.rest o.1 h.1 p.others)))
          | inr (young, nothing) ↦ (
            (λ q q_there old.
                let same : q ≡ r = ground (arith, there, q_there) in
                absurd (ground (arith, ap (λ (x : Run). x.started_at) same, time, young, old.1))),
            All-map (λ e. (text_lt key e.0 ≡ true) × EntryRun l IsBounded tx e) (IsChosen vs) es
                (λ e (less, (q, q_there, q_own, q_bound)) q' there' old.
                  let same : q' ≡ q = ground (arith, q_there, there') in
                  let later = started_at_le l laws r q key e.0 bound own q_own less in
                  absurd (
                    ground (arith, ap (λ (x : Run). x.started_at) same, later, time, young, old.1)))
                (All-zip (λ e. text_lt key e.0 ≡ true) (EntryRun l IsBounded tx) es o.0 h.1),
          )
        ]
