-- ===== src/Store/Bolt/Emptied.antt =====
-- The loop that deletes the victims.
use clock_relay.Store.Bolt.Deleted.{delete_run_by_indexed_key-IsIndexed}
use clock_relay.Store.Bolt.Written.{bit}
use clock_relay.Store.Bolt.Indexes.{run_started_at_index_key, delete_run_by_indexed_key}
use clock_relay.Store.Interface.{is_completed_run}
use clock_relay.Base.Order.{text_lt_irrefl}
use clock_relay.Store.Bolt.Effects.{ok_inj, bind_ok}
use clock_relay.Store.Bolt.Views.{IsSetAt}
use clock_relay.Store.Bolt.Keys.{started_key_is}
use clock_relay.Store.Bolt.Victims.{has_id, EntryRun, IsFinished}
use clock_relay.Base.Ordered.{IsOrdered}
use clock_relay.Store.Bolt.Invariant.{IsIndexed, run_of, completed}
use clock_relay.Store.Bolt.Pruning.{delete_victims}
use clock_relay.Model.{Run}
use clock_relay.Store.Bolt.Buckets.{BoltLibrary, Tx, BoltLaws}
use clock_relay.Base.{
  ◌∷◌, [], Text, Map, ◌≡◌, if◌then◌else◌, some, All, none, true, ok, ◌+◌, text_lt, subst, length,
  Bool-cases, text_eq, arith, inl, text_eq_iff, inr, ◌∙◌, sym, ℕ, ap, All-map, All-zip, refl,
}

module _ {B : Type 0} (l : BoltLibrary B) where
  -- The victims are gone, and the number of completed runs follows.
  pub record AreDeleted (victims : Map Text) (tx tx' : Tx B) : Type 0 where
    pub indexed : IsIndexed l tx'
    pub gone : (j : Text) → run_of l tx' j ≡ (if has_id victims j then none else run_of l tx j)
    pub recount : completed l tx' + length victims ≡ completed l tx

  -- The run of an entry is still there if another one, of a smaller key, is deleted.
  pub still_there :
      (k id : Text) (r : Run) (tx tx1 : Tx B) (e : Text × Text)
      → run_of l tx id ≡ some r
      → started_key_is l r k ≡ true
      → IsSetAt id none (run_of l tx) (run_of l tx1)
      → text_lt k e.0 ≡ true
      → EntryRun l IsFinished tx e
      → EntryRun l IsFinished tx1 e
  still_there k id r tx tx1 e was is_key gone less (q, there, own, done) =
      elim (Bool-cases (text_eq id e.1)) [
        | inl same ↦
            let id_eq = (text_eq_iff id e.1).0 same in
            let r_is : r ≡ q = ground (arith, was, there, id_eq) in
            let keys : k ≡ e.0 =
              sym ((text_eq_iff (run_started_at_index_key l r) k).0 is_key)
              ∙ ap (run_started_at_index_key l) r_is
              ∙ (text_eq_iff (run_started_at_index_key l q) e.0).0 own in
            absurd (ground (arith, rw keys at less, text_lt_irrefl e.0))
        | inr other ↦ (q, gone e.1 ∙ rw other there, own, done)
      ]

  one_less : (r : Run) (n m : ℕ) → IsFinished r → n + bit l (is_completed_run r) ≡ m → n + 1 ≡ m
  unfolding is_completed_run
  one_less r n m done e = rw done at e

  pub delete_victims_lem :
      (laws : BoltLaws l) (victims : Map Text) (tx tx' : Tx B)
      → IsIndexed l tx
      → IsOrdered victims
      → All (EntryRun l IsFinished tx) victims
      → delete_victims l victims tx ≡ ok tx'
      → AreDeleted victims tx tx'
  unfolding delete_victims
  delete_victims_lem laws [] tx tx' h o v deleted =
      subst (λ t. AreDeleted [] tx t) (ok_inj deleted)
        (record { indexed = h; gone = λ j. refl; recount = omega arith })
  delete_victims_lem laws ((k, id) ∷ victims) tx tx' h o ((r, was, own, done), v) deleted =
      let (tx1, first, rest) = bind_ok (delete_run_by_indexed_key l k id tx) _ deleted in
      let d = delete_run_by_indexed_key-IsIndexed l laws k id r tx tx1 h was own first in
      let v1 =
        All-map (λ e. (text_lt k e.0 ≡ true) × EntryRun l IsFinished tx e)
          (EntryRun l IsFinished tx1) victims
          (λ e (less, there). still_there k id r tx tx1 e was own d.gone less there)
          (All-zip (λ e. text_lt k e.0 ≡ true) (EntryRun l IsFinished tx) victims o.0 v) in
      let ds = delete_victims_lem laws victims tx1 tx' d.indexed o.1 v1 rest in
      record {
        indexed = ds.indexed;
        gone = λ j. ground (arith, ds.gone j, d.gone j);
        recount = omega (arith, ds.recount, one_less r _ _ done d.recount);
      }
