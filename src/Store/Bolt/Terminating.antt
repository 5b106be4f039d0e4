-- ===== src/Store/Bolt/Terminating.antt =====
-- BoltStore.PruneRuns does not fail by itself: its loops.
use clock_relay.Store.Bolt.Emptied.{still_there}
use clock_relay.Store.Bolt.Excess.{excess-IsOrdered, excess-IsFinished}
use clock_relay.Store.Bolt.Selection.{older-IsOrdered, IsOld, older-IsOld}
use clock_relay.Store.Bolt.Saving.{completed_bound}
use clock_relay.Store.Bolt.Phases.{index_entries}
use clock_relay.Store.Interface.{days_before}
use clock_relay.Store.Bolt.Deleted.{delete_run_by_indexed_key-IsIndexed, run_by_id_total}
use clock_relay.Store.Bolt.Counting.{completed_run_count_lem}
use clock_relay.Store.Bolt.Indexes.{
  delete_run_by_indexed_key, started_at_from_run_index_key, run_by_id,
}
use clock_relay.Store.Bolt.Pruned.{age-IsPhase, count-IsPhase}
use clock_relay.Base.Int.{pos, ltb_ℤ, pos_part}
use clock_relay.Store.Bolt.Counter.{completed_run_count}
use clock_relay.Store.Bolt.Victims.{EntryRun, IsFinished, IsBounded, started_at_lem}
use clock_relay.Base.Ordered.{IsOrdered}
use clock_relay.Model.{Time, is_running}
use clock_relay.Store.Bolt.Invariant.{IsIndexed, completed}
use clock_relay.Config.Types.{RunRetentionConfig}
use clock_relay.Store.Bolt.Pruner.{IsReliable, Succeeds, chain-Succeeds, delete-Succeeds}
use clock_relay.Store.Bolt.Buckets.{BoltLibrary, BoltLaws, Tx}
use clock_relay.Base.{
  ◌∷◌, [], Text, Map, ℕ, All, Bool-cases, suc, inl, refl, ltb, arith, All-map, inr, text_lt, zero,
  ◌≡◌, true, All-zip,
}
use clock_relay.Store.Bolt.Pruning.{
  prune_runs, delete_victims, older_victims, excess_victims, prune_runs_older_than,
  prune_runs_over_count, prune_by_age, prune_by_count, delete_counted, excess_of,
}

module _ {B : Type 0} (l : BoltLibrary B) (laws : BoltLaws l) (r : IsReliable l.bucket) where
  victims_succeed :
      (victims : Map Text) (tx : Tx B)
      → IsIndexed l tx
      → IsOrdered victims
      → All (EntryRun l IsFinished tx) victims
      → Succeeds (delete_victims l victims tx)
  unfolding delete_victims
  victims_succeed [] tx h o v = (tx, refl)
  victims_succeed ((k, id) ∷ victims) tx h o ((q, was, own, finished), v) =
      chain-Succeeds (delete_run_by_indexed_key l k id tx) _
        (delete-Succeeds l laws r k id q tx h was)
        (λ tx1 first.
          let d = delete_run_by_indexed_key-IsIndexed l laws k id q tx tx1 h was own first in
          victims_succeed victims tx1 d.indexed o.1 (
            All-map (λ e. (text_lt k e.0 ≡ true) × EntryRun l IsFinished tx e)
              (EntryRun l IsFinished tx1) victims
              (λ e (less, there). still_there l k id q tx tx1 e was own d.gone less there)
              (All-zip (λ e. text_lt k e.0 ≡ true) (EntryRun l IsFinished tx) victims o.0 v)))

  older-Succeeds :
      (cutoff : Time) (tx : Tx B) (es : Map Text)
      → IsIndexed l tx
      → All (EntryRun l IsBounded tx) es
      → Succeeds (older_victims l cutoff tx es)
  unfolding older_victims
  older-Succeeds cutoff tx [] h a = ([], refl)
  older-Succeeds cutoff tx ((key, id) ∷ es) h ((q, there, own, bound), a) =
      let (rest, others) = older-Succeeds cutoff tx es h a in
      chain-Succeeds (started_at_from_run_index_key l key) _
        (q.started_at, started_at_lem l laws q key bound own)
        (λ t parsed. elim (Bool-cases (ltb t cutoff)) [
          | inl old ↦ rw old (
              chain-Succeeds (run_by_id l id tx) _ (q, run_by_id_total l laws id tx q h there)
                (λ run found.
                  chain-Succeeds (older_victims l cutoff tx es) _ (rest, others)
                    (λ vs e. (_, refl))))
          | inr young ↦ rw young ([], refl)
        ])

  excess-Succeeds :
      (n : ℕ) (tx : Tx B) (es : Map Text)
      → IsIndexed l tx
      → All (EntryRun l IsBounded tx) es
      → Succeeds (excess_victims l n tx es)
  unfolding excess_victims
  excess-Succeeds n tx [] h a = ([], refl)
  excess-Succeeds zero tx ((key, id) ∷ es) h a = ([], refl)
  excess-Succeeds (suc n) tx ((key, id) ∷ es) h ((q, there, own, bound), a) =
      chain-Succeeds (run_by_id l id tx) _ (q, run_by_id_total l laws id tx q h there)
        (λ run found. elim (Bool-cases (is_running run.status)) [
          | inl live ↦ rw live (excess-Succeeds (suc n) tx es h a)
          | inr done ↦ rw done (
              chain-Succeeds (excess_victims l n tx es) _ (excess-Succeeds n tx es h a)
                (λ vs e. (_, refl)))
        ])

  count_ok : (tx : Tx B) → IsIndexed l tx → Succeeds (completed_run_count l tx)
  count_ok tx h = (
    pos (completed l tx),
    completed_run_count_lem l laws (completed l tx) tx (omega (arith, completed_bound l laws tx))
        h.counted,
  )

  counted-Succeeds :
      (victims : Map Text) (tx : Tx B)
      → IsIndexed l tx
      → IsOrdered victims
      → All (EntryRun l IsFinished tx) victims
      → Succeeds (delete_counted l victims tx)
  counted-Succeeds victims tx h o v =
      chain-Succeeds (delete_victims l victims tx) _ (victims_succeed victims tx h o v)
        (λ tx1 e. (_, refl))

  by_age-Succeeds :
      (retention : RunRetentionConfig) (now : Time) (tx : Tx B)
      → IsIndexed l tx
      → Succeeds (prune_by_age l retention now tx)
  unfolding prune_runs_older_than
  by_age-Succeeds retention now tx h = elim (Bool-cases (ltb_ℤ (pos 0) retention.max_age_days)) [
    | inl on ↦
        let cutoff = days_before retention.max_age_days now in
        let es = l.bucket.entries tx.runs_by_started_at in
        let sorted = laws.bucket.entries-IsOrdered tx.runs_by_started_at in
        let entries = index_entries l laws tx h in
        rw on (
          chain-Succeeds (older_victims l cutoff tx es) _ (older-Succeeds cutoff tx es h entries)
            (λ vs chosen.
              counted-Succeeds vs tx h (older-IsOrdered l tx cutoff es vs sorted chosen) (
                All-map (EntryRun l (IsOld l tx cutoff) tx) (EntryRun l IsFinished tx) vs
                  (λ e (q, there, own, old). (q, there, own, old.0))
                  (older-IsOld l tx cutoff laws es vs entries chosen))))
    | inr off ↦ rw off ((0, tx), refl)
  ]

  by_count-Succeeds :
      (retention : RunRetentionConfig) (tx : Tx B)
      → IsIndexed l tx
      → Succeeds (prune_by_count l retention tx)
  unfolding prune_runs_over_count
  by_count-Succeeds retention tx h = elim (Bool-cases (ltb_ℤ (pos 0) retention.max_records)) [
    | inl on ↦
        let es = l.bucket.entries tx.runs_by_started_at in
        let sorted = laws.bucket.entries-IsOrdered tx.runs_by_started_at in
        let entries = index_entries l laws tx h in
        rw on (
          chain-Succeeds (completed_run_count l tx) _ (count_ok tx h) (λ c counted.
            let excess = excess_of l c (pos_part retention.max_records) in
            chain-Succeeds (excess_victims l excess tx es) _
              (excess-Succeeds excess tx es h entries)
              (λ vs chosen.
                counted-Succeeds vs tx h (excess-IsOrdered l tx excess es vs sorted chosen)
                  (excess-IsFinished l tx laws excess es vs entries chosen))))
    | inr off ↦ rw off ((0, tx), refl)
  ]

  -- On a store whose indexes and counter agree with its runs, and over buckets that admit deletions
  -- and values of admitted size under keys that are there, the function of PruneRuns succeeds: its
  -- loops end and meet no missing run, no invalid key and no invalid count.
  pub prune_runs-Succeeds :
      (retention : RunRetentionConfig) (now : Time) (tx : Tx B)
      → IsIndexed l tx
      → Succeeds (prune_runs l retention now tx)
  unfolding prune_runs
  prune_runs-Succeeds retention now tx h =
      chain-Succeeds (prune_by_age l retention now tx) _ (by_age-Succeeds retention now tx h)
        (λ (a, tx1) aged.
          let h1 = (age-IsPhase l laws retention now tx tx1 a h aged).0.indexed in
          chain-Succeeds (prune_by_count l retention tx1) _ (by_count-Succeeds retention tx1 h1)
            (λ (b, tx2) shrunk.
              let h2 = (count-IsPhase l laws retention now tx1 tx2 b h1 shrunk).0.indexed in
              chain-Succeeds (completed_run_count l tx2) _ (count_ok tx2 h2)
                (λ n counted. (_, refl))))
