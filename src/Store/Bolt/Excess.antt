-- ===== src/Store/Bolt/Excess.antt =====
-- The loop that chooses the oldest finished runs beyond a number.
use clock_relay.Store.Bolt.Deleted.{run_by_id_lem}
use clock_relay.Store.Bolt.Effects.{bind_ok, ok_inj}
use clock_relay.Store.Bolt.Invariant.{run_of}
use clock_relay.Store.Bolt.Indexes.{run_by_id}
use clock_relay.Store.Bolt.Victims.{has_id, EntryRun, IsFinished, IsBounded}
use clock_relay.Base.Ordered.{IsOrdered}
use clock_relay.Model.{Run, is_running}
use clock_relay.Store.Bolt.Pruning.{excess_victims}
use clock_relay.Store.Bolt.Buckets.{BoltLibrary, Tx, BoltLaws}
use clock_relay.Base.{
  ◌∷◌, [], Text, ℕ, Map, suc, All, ◌≡◌, ok, true, ◌⊎◌, subst, length, some, ◌≤◌, text_lt,
  Bool-cases, inl, arith, inr, zero, ap, sym, ◌∙◌, text_eq_iff, All-intro, All-map, All-zip, refl,
}

module _ {B : Type 0} (l : BoltLibrary B) (tx : Tx B) where
  -- What the loop does at one entry.
  record Skipped (n : ℕ) (id : Text) (es vs : Map Text) : Type 0 where
    run : Run
    found : run_by_id l id tx ≡ ok run
    live : is_running run.status ≡ true
    others : excess_victims l (suc n) tx es ≡ ok vs

  record Taken (n : ℕ) (key id : Text) (es vs : Map Text) : Type 0 where
    run : Run
    rest : Map Text
    found : run_by_id l id tx ≡ ok run
    finished : IsFinished run
    others : excess_victims l n tx es ≡ ok rest
    chosen : (key, id) ∷ rest ≡ vs

  excess_step :
      (n : ℕ) (key id : Text) (es vs : Map Text)
      → excess_victims l (suc n) tx ((key, id) ∷ es) ≡ ok vs
      → Skipped n id es vs ⊎ Taken n key id es vs
  unfolding excess_victims
  excess_step n key id es vs made =
      let (r, found, s1) = bind_ok (run_by_id l id tx) _ made in
      elim (Bool-cases (is_running r.status)) [
        | inl live ↦ inl (record { run = r; found = found; live = live; others = rw live at s1 })
        | inr done ↦
            let (rest, others, chosen) = bind_ok (excess_victims l n tx es) _ (rw done at s1) in
            inr (record {
              run = r;
              rest = rest;
              found = found;
              finished = done;
              others = others;
              chosen = ok_inj chosen;
            })
      ]

  excess-All {κ} :
      (P : Text × Text → Type κ) (n : ℕ) (es vs : Map Text)
      → All P es
      → excess_victims l n tx es ≡ ok vs
      → All P vs
  unfolding excess_victims
  excess-All P n [] vs h made = subst (All P) (ok_inj made) tt
  excess-All P zero ((key, id) ∷ es) vs h made = subst (All P) (ok_inj made) tt
  excess-All P (suc n) ((key, id) ∷ es) vs h made = elim (excess_step n key id es vs made) [
    | inl s ↦ excess-All P (suc n) es vs h.1 s.others
    | inr t ↦ subst (All P) t.chosen (h.0, excess-All P n es t.rest h.1 t.others)
  ]

  pub excess-IsOrdered :
      (n : ℕ) (es vs : Map Text) → IsOrdered es → excess_victims l n tx es ≡ ok vs → IsOrdered vs
  unfolding excess_victims
  excess-IsOrdered n [] vs h made = subst IsOrdered (ok_inj made) tt
  excess-IsOrdered zero ((key, id) ∷ es) vs h made = subst IsOrdered (ok_inj made) tt
  excess-IsOrdered (suc n) ((key, id) ∷ es) vs h made = elim (excess_step n key id es vs made) [
    | inl s ↦ excess-IsOrdered (suc n) es vs h.1 s.others
    | inr t ↦ subst IsOrdered t.chosen (
      excess-All (λ e. text_lt key e.0 ≡ true) n es t.rest h.0 t.others,
      excess-IsOrdered n es t.rest h.1 t.others,
    )
  ]

  pub excess_le : (n : ℕ) (es vs : Map Text) → excess_victims l n tx es ≡ ok vs → length vs ≤ n
  unfolding excess_victims
  excess_le n [] vs made = subst (λ v. length v ≤ n) (ok_inj made) (omega arith)
  excess_le zero ((key, id) ∷ es) vs made = subst (λ v. length v ≤ 0) (ok_inj made) (omega arith)
  excess_le (suc n) ((key, id) ∷ es) vs made = elim (excess_step n key id es vs made) [
    | inl s ↦ excess_le (suc n) es vs s.others
    | inr t ↦ subst (λ v. length v ≤ suc n) t.chosen (omega (arith, excess_le n es t.rest t.others))
  ]

  pub excess-IsFinished :
      (laws : BoltLaws l) (n : ℕ) (es vs : Map Text)
      → All (EntryRun l IsBounded tx) es
      → excess_victims l n tx es ≡ ok vs
      → All (EntryRun l IsFinished tx) vs
  unfolding excess_victims
  excess-IsFinished laws n [] vs h made = subst (All (EntryRun l IsFinished tx)) (ok_inj made) tt
  excess-IsFinished laws zero ((key, id) ∷ es) vs h made =
      subst (All (EntryRun l IsFinished tx)) (ok_inj made) tt
  excess-IsFinished laws (suc n) ((key, id) ∷ es) vs h made =
      elim (excess_step n key id es vs made) [
        | inl s ↦ excess-IsFinished laws (suc n) es vs h.1 s.others
        | inr t ↦
            let (r, there, own, bound) = h.0 in
            let same : t.run ≡ r =
              ground (arith, run_by_id_lem l laws id tx t.run t.found, there) in
            subst (All (EntryRun l IsFinished tx)) t.chosen (
              (r, there, own, ap (λ (q : Run). is_running q.status) (sym same) ∙ t.finished),
              excess-IsFinished laws n es t.rest h.1 t.others,
            )
      ]

  -- The run of an entry is chosen if it has finished.
  abbrev pub IsTaken : Map Text → Text × Text → Type 0
  IsTaken vs e = (r : Run) → run_of l tx e.1 ≡ some r → IsFinished r → has_id vs e.1 ≡ true

  -- The entry is chosen, or all that are chosen have smaller keys.
  abbrev pub IsLater : Map Text → Text × Text → Type 0
  IsLater vs e = (has_id vs e.1 ≡ true) ⊎ All (λ v. text_lt v.0 e.0 ≡ true) vs

  abbrev pub IsLaterRun : Map Text → Text × Text → Type 0
  IsLaterRun vs e = (r : Run) → run_of l tx e.1 ≡ some r → IsFinished r → IsLater vs e

  module _ (laws : BoltLaws l) where
    no-Skipped :
        (n : ℕ) (id : Text) (es vs : Map Text) (r : Run)
        → Skipped n id es vs
        → run_of l tx id ≡ some r
        → ¬ IsFinished r
    no-Skipped n id es vs r s there done =
        let same : s.run ≡ r = ground (arith, run_by_id_lem l laws id tx s.run s.found, there) in
        ground (arith, ap (λ (q : Run). is_running q.status) same, s.live)

    -- As many are chosen as are asked for, or all that have finished.
    pub excess_all :
        (n : ℕ) (es vs : Map Text)
        → excess_victims l n tx es ≡ ok vs
        → (length vs ≡ n) ⊎ All (IsTaken vs) es
    unfolding excess_victims
    excess_all n [] vs made = inr tt
    excess_all zero ((key, id) ∷ es) vs made = inl (subst (λ v. length v ≡ 0) (ok_inj made) refl)
    excess_all (suc n) ((key, id) ∷ es) vs made = elim (excess_step n key id es vs made) [
      | inl s ↦ elim (excess_all (suc n) es vs s.others) [
        | inl enough ↦ inl enough
        | inr all_taken ↦
            inr ((λ r there done. absurd (no-Skipped n id es vs r s there done)), all_taken)
      ]
      | inr t ↦ elim (excess_all n es t.rest t.others) [
        | inl enough ↦ inl (subst (λ v. length v ≡ suc n) t.chosen (omega (arith, enough)))
        | inr all_taken ↦ inr (
            subst (λ v. All (IsTaken v) ((key, id) ∷ es)) t.chosen
              ((
                (λ r there done. ground (arith, text_eq_iff id id)),
                All-map (IsTaken t.rest) (IsTaken ((key, id) ∷ t.rest)) es
                    (λ e c r there done. ground (arith, c r there done)) all_taken,
              )))
      ]
    ]

    pub excess-IsLaterRun :
        (n : ℕ) (es vs : Map Text)
        → IsOrdered es
        → excess_victims l n tx es ≡ ok vs
        → All (IsLaterRun vs) es
    unfolding excess_victims
    excess-IsLaterRun n [] vs o made = tt
    excess-IsLaterRun zero ((key, id) ∷ es) vs o made =
        subst (λ v. All (IsLaterRun v) ((key, id) ∷ es)) (ok_inj made)
          (All-intro (IsLaterRun []) ((key, id) ∷ es) (λ e r there done. inr tt))
    excess-IsLaterRun (suc n) ((key, id) ∷ es) vs o made = elim (excess_step n key id es vs made) [
      | inl s ↦ (
        (λ r there done. absurd (no-Skipped n id es vs r s there done)),
        excess-IsLaterRun (suc n) es vs o.1 s.others,
      )
      | inr t ↦
          subst (λ v. All (IsLaterRun v) ((key, id) ∷ es)) t.chosen
            ((
              (λ r there done. inl (ground (arith, text_eq_iff id id))),
              All-map (λ e. (text_lt key e.0 ≡ true) × IsLaterRun t.rest e)
                  (IsLaterRun ((key, id) ∷ t.rest)) es
                  (λ e (less, c) r there done. elim (c r there done) [
                    | inl has ↦ inl (ground (arith, has))
                    | inr later ↦ inr (less, later)
                  ])
                  (All-zip (λ e. text_lt key e.0 ≡ true) (IsLaterRun t.rest) es o.0
                    (excess-IsLaterRun n es t.rest o.1 t.others)),
            ))
    ]
