-- ===== src/Store/Bolt/Running.antt =====
-- BoltStore.HasRunningRun finds exactly the running runs of a schedule.
use mathlib.Core.Bool.{false≢true}
use clock_relay.Base.{
  get, has_prefix, Text, Map, ◌++◌, ◌≡◌, Bool, some, true, ◌∷◌, ok, arith, Bool-cases, [], ap,
  text_eq_refl, ◌↔◌, text_eq_iff, inl, false, refl, inr, ◌∙◌, text_eq, sym,
}
use clock_relay.Store.Bolt.Buckets.{BoltLibrary, BoltLaws, Tx}
use clock_relay.Store.Bolt.Indexes.{running_run_schedule_prefix, running_run_schedule_key}
use clock_relay.Store.Bolt.Methods.{has_running_run}
use clock_relay.Store.Bolt.Invariant.{IsIndexed, run_of}
use clock_relay.Store.Bolt.Keys.{lacks_nul}
use clock_relay.Base.Ordered.{any_with_prefix, first_from-any}
use clock_relay.Model.{Run, is_running}

module _ {ℓ} {V : Type ℓ} where
  get_any_prefix :
      (p k : Text) (v : V) (m : Map V)
      → get k m ≡ some v
      → has_prefix k p ≡ true
      → any_with_prefix p m ≡ true
  unfolding get any_with_prefix
  get_any_prefix p k v [] e h = cc
  get_any_prefix p k v ((j, w) ∷ m) e h = ground (arith, text_eq_iff j k, get_any_prefix p k v m)

  any_prefix_get :
      (p : Text) (m : Map V)
      → any_with_prefix p m ≡ true
      → (k : Text) × (v : V) × (get k m ≡ some v) × (has_prefix k p ≡ true)
  unfolding get any_with_prefix
  any_prefix_get p [] h = cc
  any_prefix_get p ((j, w) ∷ m) h = elim (Bool-cases (has_prefix j p)) [
    | inl e ↦ (j, w, rw text_eq_refl, e)
    | inr e ↦
        let (k, v, found, e') = any_prefix_get p m (rw e at h) in
        elim (Bool-cases (text_eq j k)) [
          | inl same ↦ (k, w, rw same, e')
          | inr other ↦ (k, v, rw other found, e')
        ]
  ]

has_prefix-key : (a s : Text) → has_prefix (a ++ 0 ∷ s) (a ++ 0 ∷ []) ≡ true
unfolding has_prefix
has_prefix-key [] [] = refl
has_prefix-key [] (c ∷ s) = refl
has_prefix-key (c ∷ a) s = ground (arith, has_prefix-key a s)

key_of_prefix :
    (a b s : Text)
    → lacks_nul a ≡ true
    → lacks_nul b ≡ true
    → has_prefix (a ++ 0 ∷ s) (b ++ 0 ∷ []) ≡ true
    → a ≡ b
unfolding has_prefix
key_of_prefix [] [] s h k e = refl
key_of_prefix [] (c ∷ b) s h k e = absurd (ground arith)
key_of_prefix (c ∷ a) [] s h k e = absurd (ground arith)
key_of_prefix (c ∷ a) (d ∷ b) s h k e = ground (arith, key_of_prefix a b s)

module _ {B : Type 0} (l : BoltLibrary B) where
  -- A run of the schedule that is running.
  abbrev pub RunningRun : Text → Tx B → Type 0
  RunningRun name tx =
      (id : Text) × (r : Run) × (run_of l tx id ≡ some r)
      × (is_running r.status ≡ true)
      × (r.schedule_name ≡ name)

  module _ (laws : BoltLaws l) (name : Text) (tx : Tx B) (h : IsIndexed l tx) where
    seen : Bool
    seen =
        any_with_prefix (running_run_schedule_prefix name)
          (l.bucket.entries tx.running_runs_by_schedule)

    has_running_run_lem : has_running_run l name tx ≡ ok seen
    unfolding has_running_run seen
    has_running_run_lem =
        rw (laws.bucket.seek_lem (running_run_schedule_prefix name) tx.running_runs_by_schedule) (
          ap ok (
            first_from-any (running_run_schedule_prefix name)
              (l.bucket.entries tx.running_runs_by_schedule)
              (laws.bucket.entries-IsOrdered tx.running_runs_by_schedule)))

    seen_run : lacks_nul name ≡ true → seen ≡ true → RunningRun name tx
    unfolding seen
    seen_run plain e =
        let (k, id, found, prefixed) = any_prefix_get _ _ e in
        let (r, there, key) = h.running.of_key k id found in
        let same : running_run_schedule_key r ≡ k =
          ground (arith, text_eq_iff (running_run_schedule_key r) k) in
        (
          id,
          r,
          there,
          ground arith,
          key_of_prefix r.schedule_name name r.id (h.named.good id r there).nul_free plain
              (rw same prefixed),
        )

    run_seen : RunningRun name tx → seen ≡ true
    unfolding seen
    run_seen (id, r, there, live, named) =
        get_any_prefix (running_run_schedule_prefix name) (running_run_schedule_key r) id _
          (h.running.to_key id r (running_run_schedule_key r) there (rw (live, text_eq_refl)))
          (rw (← named) (has_prefix-key r.schedule_name r.id))

    -- For a name without NUL and indexes that agree with the runs, HasRunningRun answers yes exactly if
    -- a run of the schedule is running, and no exactly if none is.
    pub has_running_run_iff :
        lacks_nul name ≡ true
        → ((has_running_run l name tx ≡ ok true) ↔ RunningRun name tx)
          × ((has_running_run l name tx ≡ ok false) ↔ ¬ RunningRun name tx)
    has_running_run_iff plain = (
      (
        (λ e. seen_run plain (ground (arith, has_running_run_lem, e))),
        λ r. has_running_run_lem ∙ ap ok (run_seen r),
      ),
      (
        (λ e r. ground (arith, has_running_run_lem, e, run_seen r)),
        λ none_there. elim (Bool-cases seen) [
          | inl yes_seen ↦ absurd (none_there (seen_run plain yes_seen))
          | inr unseen ↦ has_running_run_lem ∙ ap ok unseen
        ],
      ),
    )

  pub has_running_run-cong :
      (laws : BoltLaws l) (name : Text) (tx tx' : Tx B)
      → lacks_nul name ≡ true
      → IsIndexed l tx
      → IsIndexed l tx'
      → RunningRun name tx ↔ RunningRun name tx'
      → has_running_run l name tx ≡ has_running_run l name tx'
  has_running_run-cong laws name tx tx' plain h h' same =
      let answers = has_running_run_iff laws name tx' h' plain in
      has_running_run_lem laws name tx h ∙ (elim (Bool-cases (seen laws name tx h)) [
        | inl yes_seen ↦
            ap ok yes_seen ∙ sym (answers.0.1 (same.0 (seen_run laws name tx h plain yes_seen)))
        | inr unseen ↦
            ap ok unseen
            ∙ sym (answers.1.1 (λ r. false≢true (sym unseen ∙ run_seen laws name tx h (same.1 r))))
      ])
