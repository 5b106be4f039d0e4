-- ===== src/Store/Bolt/Refinement.antt =====
-- BoltStore refines a map of runs, over any sequence of calls.
use clock_relay.Store.Bolt.Finished.{completed-HasFinished, HasFinished}
use clock_relay.Store.Bolt.Views.{Runs}
use clock_relay.Store.Bolt.Effects.{bind_ok, ok_inj}
use clock_relay.Config.Defaults.{normalize_schedule}
use clock_relay.Store.Bolt.Pruned.{prune_runs-IsPruned}
use clock_relay.Store.Bolt.Cleared.{clear_runs-IsIndexed}
use clock_relay.Store.Bolt.Saving.{write_run-IsIndexed}
use clock_relay.Store.Bolt.Writing.{write_run}
use clock_relay.Base.Int.{ℤ}
use clock_relay.Store.Bolt.Methods.{
  save_schedule, delete_schedule, retention_result, put_schedule, drop_schedule,
}
use clock_relay.Store.Bolt.Invariant.{IsIndexed, run_of}
use clock_relay.Store.Bolt.Sequences.{
  Call, call_store, call_all, Does, IsPlainCall, save, Calls, reported, done, prune, fails, put,
  does, drop, clear,
}
use clock_relay.Store.Bolt.Buckets.{BoltLibrary, BoltLaws, Tx, run_update, update}
use clock_relay.Base.{
  ◌∷◌, [], All, Bool, Result, List, ◌≡◌, ℕ, false, ok, ◌⊎◌, true, inl, err, inr, subst, refl, sym,
  ◌≤◌,
}
use clock_relay.Store.Bolt.Methods
use clock_relay.Store.Bolt.Pruning
use clock_relay.Store.Bolt.Opening

module _ {B : Type 0} (l : BoltLibrary B) (laws : BoltLaws l) where
  -- One call: it fails and the store is as before, or it does what it should.
  abbrev Step : Call → Tx B → Bool × Tx B → Type 0
  Step call db x =
      IsIndexed l x.1
      × (((x.0 ≡ false) × (x.1 ≡ db)) ⊎ ((x.0 ≡ true) × Does call (run_of l db) (run_of l x.1)))

  abbrev Effect : Call → Tx B → Tx B → Type 0
  Effect call db tx = IsIndexed l tx × Does call (run_of l db) (run_of l tx)

  abbrev committed {ℓ} : {A : Type ℓ} → A → Tx B → Tx B → Result (Unit {0}) → Result A × Tx B
  committed a db tx (err x) = (err x, db)
  committed a db tx (ok u) = (ok a, tx)

  run_update-Step :
      (call : Call) (m : Result (Tx B)) (db : Tx B)
      → IsIndexed l db
      → ((tx : Tx B) → m ≡ ok tx → Effect call db tx)
      → Step call db (reported (run_update l m db))
  run_update-Step call (err x) db h effect = (h, inl (refl, refl))
  run_update-Step call (ok tx) db h effect =
      elim (l.commit tx)
        as (λ c. Step call db (reported {A = Unit {0}} (committed {A = Unit {0}} tt db tx c))) [
          | err x ↦ (h, inl (refl, refl))
          | ok u ↦ let (indexed, effected) = effect tx refl in (indexed, inr (refl, effected))
        ]

  update-Step :
      (call : Call) (m : Result ((ℕ × ℤ) × Tx B)) (db : Tx B)
      → IsIndexed l db
      → ((n : ℕ) (k : ℤ) (tx : Tx B) → m ≡ ok ((n, k), tx) → Effect call db tx)
      → Step call db (reported (retention_result l (update l m db)))
  update-Step call (err x) db h effect = (h, inl (refl, refl))
  update-Step call (ok ((n, k), tx)) db h effect =
      elim (l.commit tx)
        as (λ c. Step call db (reported (retention_result l (committed (n, k) db tx c)))) [
          | err x ↦ (h, inl (refl, refl))
          | ok u ↦ let (indexed, effected) = effect n k tx refl in (indexed, inr (refl, effected))
        ]

  -- A change of the bucket of the schedules.
  rescheduled : (db : Tx B) (b : B) → IsIndexed l db → IsIndexed l (record db { schedules = b })
  rescheduled db b h = record {
    readable = h.readable;
    named = h.named;
    started = h.started;
    running = h.running;
    counted = h.counted;
  }

  few_of :
      {P : Type 0} {n k : ℕ} {m : Runs}
      → P ⊎ (n ≤ k)
      → HasFinished n m
      → P ⊎ ((n : ℕ) × HasFinished n m × (n ≤ k))
  few_of (inl off) h = inl off
  few_of (inr small) h = inr (_, h, small)

  needed_of :
      {P Q : Type 0} {n k : ℕ} {m : Runs}
      → P ⊎ (Q × (n ≡ k))
      → HasFinished n m
      → P ⊎ (Q × HasFinished k m)
  needed_of (inl old) h = inl old
  needed_of {m = m} (inr (on, full)) h = inr (on, subst (λ n. HasFinished n m) full h)

  call-Step :
      (call : Call) (db : Tx B)
      → IsPlainCall call
      → IsIndexed l db
      → Step call db (call_store l call db)
  unfolding call_store Methods.save_run Methods.clear_runs Methods.prune_runs save_schedule
      delete_schedule
  call-Step (save run) db free h = run_update-Step (save run) (write_run l run db) db h (λ tx made.
      let (indexed, stored) = write_run-IsIndexed l laws run db tx free h made in
      (indexed, (stored.stored, stored.image, stored.set)))
  call-Step clear db free h =
      run_update-Step clear (Opening.clear_runs l db) db h
        (λ tx made. clear_runs-IsIndexed l laws db tx made)
  call-Step (prune retention now) db free h =
      update-Step (prune retention now) (Pruning.prune_runs l retention now db) db h (λ n k tx made.
        let p = prune_runs-IsPruned l laws retention now db tx n k h made in
        (
          p.phase.indexed,
          record {
            left = p.phase.left;
            running = p.phase.running;
            young = p.young;
            few = few_of p.few (completed-HasFinished l laws tx);
            needed =
                λ i d was gone. needed_of (p.needed i d was gone) (completed-HasFinished l laws tx);
            first = p.first;
          },
        ))
  call-Step (put schedule) db free h =
      run_update-Step (put schedule) (put_schedule l (normalize_schedule schedule) db) db h
        (λ tx made.
          let (raw, encoded, s1) =
            bind_ok (l.marshal_schedule (normalize_schedule schedule)) _ made in
          let (b, written, last) =
            bind_ok (l.bucket.put_value (normalize_schedule schedule).name raw db.schedules) _ s1 in
          subst (λ t. Effect (put schedule) db t) (ok_inj last) (rescheduled db b h, λ j. refl))
  call-Step (drop name) db free h =
      run_update-Step (drop name) (drop_schedule l name db) db h (λ tx made.
        let (b, written, last) = bind_ok (l.bucket.delete_key name db.schedules) _ made in
        subst (λ t. Effect (drop name) db t) (ok_inj last) (rescheduled db b h, λ j. refl))

  -- Any sequence of calls whose runs can be written, on a store whose indexes and counter agree with its
  -- runs, acts on the runs as on a map: each call reports an error and leaves the runs as they were, or
  -- does to them what `Does` says of it; and the indexes and the counter stay in step.
  pub call_all-Calls :
      (calls : List Call) (db : Tx B)
      → All IsPlainCall calls
      → IsIndexed l db
      → IsIndexed l (call_all l calls db).1
        × Calls calls (call_all l calls db).0 (run_of l db) (run_of l (call_all l calls db).1)
  unfolding call_all
  call_all-Calls [] db free h = (h, done)
  call_all-Calls (call ∷ calls) db free h =
      let x = call_store l call db in
      let (indexed, outcome) = call-Step call db free.0 h in
      let (oks, end) = call_all l calls x.1 in
      let (indexed', later) = call_all-Calls calls x.1 free.1 indexed in
      (
        indexed',
        (elim outcome [
          | inl (failed, same) ↦
              subst (λ b. Calls (call ∷ calls) (b ∷ oks) (run_of l db) (run_of l end)) (sym failed)
                (fails (subst (λ t. Calls calls oks (run_of l t) (run_of l end)) same later))
          | inr (worked, effect) ↦
              subst (λ b. Calls (call ∷ calls) (b ∷ oks) (run_of l db) (run_of l end)) (sym worked)
                (does effect later)
        ]),
      )
