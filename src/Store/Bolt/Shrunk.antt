-- ===== src/Store/Bolt/Shrunk.antt =====
-- What pruneRunsOlderThan and pruneRunsOverCount leave.
use clock_relay.Store.Bolt.Indexes.{run_started_at_index_key}
use clock_relay.Store.Bolt.Emptied.{delete_victims_lem}
use clock_relay.Store.Bolt.Excess.{
  excess-IsFinished, excess-IsOrdered, excess_all, IsTaken, excess_le, IsLaterRun,
  excess-IsLaterRun,
}
use clock_relay.Store.Bolt.Selection.{older-IsOld, IsOld, older-IsOrdered, older_complete, IsChosen}
use clock_relay.Store.Bolt.Saving.{completed_bound}
use clock_relay.Store.Bolt.Counting.{completed_run_count_lem}
use clock_relay.Store.Bolt.Effects.{bind_ok}
use clock_relay.Base.Ordered.{count-zero}
use clock_relay.Store.Bolt.Victims.{IsFinished, EntryRun, started_at_le}
use clock_relay.Store.Bolt.Phases.{
  IsPhase, AreYoung, AreOld, AreFirst, delete_counted_lem, index_entries, deleted-IsPhase, left_of,
  at_entry, has_id_found, deleted_of,
}
use clock_relay.Store.Bolt.Invariant.{IsIndexed, run_of, completed, raw_completed}
use clock_relay.Model.{Time, Run, is_running}
use clock_relay.Store.Interface.{is_completed_run}
use clock_relay.Store.Bolt.Pruning.{
  prune_runs_older_than, prune_runs_over_count, older_victims, excess_victims,
}
use clock_relay.Store.Bolt.Buckets.{BoltLibrary, BoltLaws, Tx}
use clock_relay.Base.{
  Text, ℕ, ◌≡◌, ok, some, ◌-◌, Bool-cases, arith, inl, inr, All-map, refl, subst, sym, ◌∙◌, ltb, ap,
  text_lt, true, All-zip, text_eq_refl,
}

module _ {B : Type 0} (l : BoltLibrary B) (laws : BoltLaws l) where
  pub older-IsPhase :
      (cutoff : Time) (tx tx' : Tx B) (deleted : ℕ)
      → IsIndexed l tx
      → prune_runs_older_than l cutoff tx ≡ ok (deleted, tx')
      → IsPhase l deleted tx tx' × AreYoung l cutoff tx' × AreOld l cutoff tx tx'
  unfolding prune_runs_older_than
  older-IsPhase cutoff tx tx' deleted h made =
      let es = l.bucket.entries tx.runs_by_started_at in
      let sorted = laws.bucket.entries-IsOrdered tx.runs_by_started_at in
      let (vs, chosen, s1) = bind_ok (older_victims l cutoff tx es) _ made in
      let (emptied, size) = delete_counted_lem l vs tx tx' deleted s1 in
      let entries = index_entries l laws tx h in
      let olds = older-IsOld l tx cutoff laws es vs entries chosen in
      let finished =
        All-map (EntryRun l (IsOld l tx cutoff) tx) (EntryRun l IsFinished tx) vs
          (λ e (r, there, own, old). (r, there, own, old.0)) olds in
      let d =
        delete_victims_lem l laws vs tx tx' h (older-IsOrdered l tx cutoff es vs sorted chosen)
          finished emptied in
      (
        subst (λ n. IsPhase l n tx tx') size (deleted-IsPhase l vs tx tx' finished d),
        (λ j q e done.
            let (lacks, was) = left_of l vs tx tx' j q d e in
            let all_chosen = older_complete l tx cutoff laws es vs sorted entries chosen in
            let is_chosen =
              at_entry l (IsChosen l tx cutoff laws vs) tx j q h all_chosen was q was in
            elim (Bool-cases (ltb q.started_at cutoff)) [
              | inl early ↦ absurd (ground (arith, lacks, is_chosen (done, ground (arith, early))))
              | inr late ↦ ground (arith, late)
            ]),
        (λ i q was e.
            let (k, (r, there, own, old)) =
              has_id_found l (EntryRun l (IsOld l tx cutoff) tx) vs i olds
                (deleted_of l vs tx tx' i q d was e) in
            let same : r ≡ q = ground (arith, there, was) in
            ground (arith, ap (λ (x : Run). x.started_at) same, old.1)),
      )

  no_completed :
      (tx : Tx B)
      → IsIndexed l tx
      → ((j : Text) (q : Run) → run_of l tx j ≡ some q → ¬ IsFinished q)
      → completed l tx ≡ 0
  unfolding is_completed_run
  no_completed tx h none_finished =
      count-zero (raw_completed l) (l.bucket.entries tx.runs)
        (laws.bucket.entries-IsOrdered tx.runs)
        (λ k raw there.
          let (r, read) = h.readable k raw there in
          let stored : run_of l tx k ≡ some r = rw (there, read) refl in
          elim (Bool-cases (is_running r.status)) [
            | inl live ↦ rw (read, live) refl
            | inr done ↦ absurd (none_finished k r stored done)
          ])

  pub excess-IsPhase :
      (max_records : ℕ) (tx tx' : Tx B) (deleted : ℕ)
      → IsIndexed l tx
      → prune_runs_over_count l max_records tx ≡ ok (deleted, tx')
      → IsPhase l deleted tx tx' × (deleted ≡ completed l tx - max_records) × AreFirst l tx tx'
  unfolding prune_runs_over_count
  excess-IsPhase max_records tx tx' deleted h made =
      let es = l.bucket.entries tx.runs_by_started_at in
      let sorted = laws.bucket.entries-IsOrdered tx.runs_by_started_at in
      let counted =
        completed_run_count_lem l laws (completed l tx) tx
          (omega (arith, completed_bound l laws tx)) h.counted in
      let excess = completed l tx - max_records in
      let (vs, chosen, s1) = bind_ok (excess_victims l excess tx es) _ (rw counted at made) in
      let (emptied, size) = delete_counted_lem l vs tx tx' deleted s1 in
      let entries = index_entries l laws tx h in
      let finished = excess-IsFinished l tx laws excess es vs entries chosen in
      let d =
        delete_victims_lem l laws vs tx tx' h (excess-IsOrdered l tx excess es vs sorted chosen)
          finished emptied in
      let phase = deleted-IsPhase l vs tx tx' finished d in
      (
        subst (λ n. IsPhase l n tx tx') size phase,
        elim (excess_all l tx laws excess es vs chosen) [
          | inl enough ↦ sym size ∙ enough
          | inr all_taken ↦
              let none_left = no_completed tx' d.indexed (λ j q e done.
                let (lacks, was) = left_of l vs tx tx' j q d e in
                ground
                  (arith, lacks, at_entry l (IsTaken l tx vs) tx j q h all_taken was q was done)) in
              omega (arith, size, none_left, d.recount, excess_le l tx excess es vs chosen)
        ],
        (λ i j a q was e left done.
            let (lacks, there) = left_of l vs tx tx' j q d left in
            let later =
              at_entry l (IsLaterRun l tx vs) tx j q h
                (excess-IsLaterRun l tx laws excess es vs sorted chosen) there q there done in
            elim later [
              | inl has ↦ absurd (ground (arith, lacks, has))
              | inr all_less ↦
                  let (k, ((r, r_there, own, r_done), less)) =
                    has_id_found l
                      (λ v.
                        EntryRun l IsFinished tx v
                        × (text_lt v.0 (run_started_at_index_key l q) ≡ true))
                      vs i
                      (All-zip (EntryRun l IsFinished tx)
                        (λ v. text_lt v.0 (run_started_at_index_key l q) ≡ true) vs finished
                        all_less)
                      (deleted_of l vs tx tx' i a d was e) in
                  let same : r ≡ a = ground (arith, r_there, was) in
                  let order =
                    started_at_le l laws r q k (run_started_at_index_key l q)
                      (h.named.good i r r_there).bounded own
                      (text_eq_refl (run_started_at_index_key l q)) less in
                  ground (arith, ap (λ (x : Run). x.started_at) same, order)
            ]),
      )
