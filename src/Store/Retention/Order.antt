-- ===== src/Store/Retention/Order.antt =====
-- The loop over the count marks the oldest runs.
use mathlib.Core.Bool.{false≢true}
use clock_relay.Base.Sorting.{IsSorted}
use clock_relay.Store.Retention.Marks.{
  is_kept, member-add_victim, mark_excess_only, mark_excess_keeps,
}
use clock_relay.Config.Validate.{member}
use clock_relay.Store.Retention.Ids.{IsUnique, other_ids, absent_any}
use clock_relay.Model.{Time}
use clock_relay.Base.{
  Bool, List, leb, Text, ℕ, ◌≤◌, All, text_eq, ◌≡◌, arith, false, true, ◌∷◌, [], Bool-cases, sym,
  ltb, ◌∙◌, inr, inl, ◌||◌, ◌-◌, All-map, leb→le, not, text_eq_refl,
}
use clock_relay.Store.Retention.{StoredRun, mark_excess, add_victim, is_live}

abbrev pub oldest_first : StoredRun → StoredRun → Bool
oldest_first a b = leb a.run.started_at b.run.started_at

-- A time that parts the runs that the loop has marked from those that it has kept.
pub record Parting (runs : List StoredRun) (before after : List Text) (low : Time) : Type 0 where
  pub at : Time
  pub above : low ≤ at
  pub marked :
      All (λ r. member r.id before ≡ false → member r.id after ≡ true → r.run.started_at ≤ at) runs
  pub kept : All (λ r. is_kept after r ≡ true → at ≤ r.run.started_at) runs

unmarked-All :
    (victims : List Text) (low : Time) (runs : List StoredRun)
    → All
        (λ r. member r.id victims ≡ false → member r.id victims ≡ true → r.run.started_at ≤ low)
        runs
unmarked-All victims low [] = tt
unmarked-All victims low (r ∷ runs) =
    ((λ a b. absurd (false≢true (sym a ∙ b))), unmarked-All victims low runs)

kept-All :
    (victims : List Text) (low : Time) (runs : List StoredRun)
    → All (λ r. low ≤ r.run.started_at) runs
    → All (λ r. is_kept victims r ≡ true → low ≤ r.run.started_at) runs
kept-All victims low [] h = tt
kept-All victims low (r ∷ runs) h = ((λ k. h.0), kept-All victims low runs h.1)

-- A run with another id is not marked by the insertion.
still_unmarked :
    (s : StoredRun) (before after : List Text) (at : Time) (runs : List StoredRun)
    → All (λ r. text_eq s.id r.id ≡ false) runs
    → All
        (λ r.
          member r.id (add_victim s.id before) ≡ false
          → member r.id after ≡ true
          → r.run.started_at ≤ at)
        runs
    → All (λ r. member r.id before ≡ false → member r.id after ≡ true → r.run.started_at ≤ at) runs
still_unmarked s before after at [] d h = tt
still_unmarked s before after at (r ∷ runs) d h = (
  (λ a b. h.0 (ground (arith, member-add_victim s.id r.id before, d.0)) b),
  still_unmarked s before after at runs d.1 h.1,
)

pub mark_excess_parts :
    (limit kept : ℕ) (runs : List StoredRun) (victims : List Text) (low : Time)
    → IsUnique runs
    → IsSorted oldest_first runs
    → All (λ r. low ≤ r.run.started_at) runs
    → Parting runs victims (mark_excess limit kept runs victims) low
unfolding mark_excess
mark_excess_parts limit kept [] victims low u s b = record {
  at = low;
  above = omega arith;
  marked = tt;
  kept = tt;
}
mark_excess_parts limit kept (r ∷ runs) victims low u s b = elim (Bool-cases (ltb limit kept)) [
  | inr stop ↦ rw stop (record {
    at = low;
    above = omega arith;
    marked = unmarked-All victims low (r ∷ runs);
    kept = kept-All victims low (r ∷ runs) b;
  })
  | inl more ↦ elim (Bool-cases (is_live r || member r.id victims)) [
    | inl passed ↦
        let rest = mark_excess_parts limit kept runs victims low u.1 s.1 b.1 in
        rw (more, passed)
          (record {
            at = rest.at;
            above = rest.above;
            marked = (
              (λ a c. absurd (
                  ground (
                    arith,
                    c,
                    mark_excess_only limit kept runs victims r.id,
                    absent_any (λ (t : StoredRun). not (is_live t)) r.id runs,
                  ))),
              rest.marked,
            );
            kept = (
              (λ k.
                  absurd
                    (ground (arith, k, passed, mark_excess_keeps limit kept runs victims r.id))),
              rest.kept,
            );
          })
    | inr marked ↦
        let rest =
          mark_excess_parts limit (kept - 1) runs (add_victim r.id victims) r.run.started_at u.1 s.1
            (All-map (λ t. oldest_first r t ≡ true) (λ t. r.run.started_at ≤ t.run.started_at) runs
              (λ t. leb→le _ _) s.0) in
        rw (more, marked)
          (record {
            at = rest.at;
            above = omega (arith, rest.above, b.0);
            marked = (
              (λ a c. rest.above),
              still_unmarked r victims _ rest.at runs (other_ids (λ _. true) r.id runs u.0)
                  rest.marked,
            );
            kept = (
              (λ k. absurd (
                  ground (
                    arith,
                    k,
                    mark_excess_keeps limit (kept - 1) runs (add_victim r.id victims) r.id,
                    member-add_victim r.id r.id victims,
                    text_eq_refl r.id,
                  ))),
              rest.kept,
            );
          })
  ]
]
