-- ===== src/Store/Retention/Marks.antt =====
-- What the loops of pruneRuns mark, and what they count.
use Prim.Native.Nat.{min}
use clock_relay.Store.Retention.Ids.{has_id, IsUnique, absent_any}
use clock_relay.Store.Interface.{is_completed_run}
use clock_relay.Base.{
  List, ℕ, Text, Bool, not, ◌≡◌, reverse, if◌then◌else◌, ◌&&◌, count_if, ◌∷◌, arith, false, length,
  true, text_eq, ltb, any, [], count_if-reverse, text_eq_comm, ◌+◌, ◌-◌, text_eq_iff, text_eq_refl,
  refl,
}
use clock_relay.Model.{Time}
use clock_relay.Config.Validate.{member}
use clock_relay.Store.Retention.{
  StoredRun, mark_old, kept_count, mark_excess, retained_completed_run_count, add_victim, is_live,
}

pub member-add_victim :
    (id k : Text) (victims : List Text)
    → member k (add_victim id victims) ≡ (if text_eq id k then true else member k victims)
unfolding member
member-add_victim id k victims = ground (arith, text_eq_iff id k)

abbrev pub is_old : Time → StoredRun → Bool
is_old cutoff r = not (is_live r) && ltb r.run.started_at cutoff

-- The loop over the ages marks the old completed runs and nothing else.
pub member-mark_old :
    (cutoff : Time) (runs : List StoredRun) (victims : List Text) (k : Text)
    → member k (mark_old cutoff runs victims)
      ≡ (if member k victims then true else any (λ r. text_eq r.id k && is_old cutoff r) runs)
unfolding mark_old
member-mark_old cutoff [] victims k = ground arith
member-mark_old cutoff (r ∷ runs) victims k = ground (
  arith,
  member-mark_old cutoff runs victims k,
  member-mark_old cutoff runs (add_victim r.id victims) k,
  member-add_victim r.id k victims,
)

abbrev pub is_kept : List Text → StoredRun → Bool
is_kept victims r = not (member r.id victims) && not (is_live r)

pub kept_count_lem :
    (runs : List StoredRun) (victims : List Text)
    → kept_count runs victims ≡ count_if (is_kept victims) runs
unfolding kept_count
kept_count_lem [] victims = refl
kept_count_lem (r ∷ runs) victims = ground (arith, kept_count_lem runs victims)

pub retained_completed_run_count_lem :
    (runs : List StoredRun) (victims : List Text)
    → retained_completed_run_count runs victims ≡ kept_count runs victims
unfolding kept_count retained_completed_run_count is_completed_run
retained_completed_run_count_lem [] victims = refl
retained_completed_run_count_lem (r ∷ runs) victims =
    ground (arith, retained_completed_run_count_lem runs victims)

pub kept_count-reverse :
    (runs : List StoredRun) (victims : List Text)
    → kept_count (reverse runs) victims ≡ kept_count runs victims
kept_count-reverse runs victims = omega (
  arith,
  kept_count_lem runs victims,
  kept_count_lem (reverse runs) victims,
  count_if-reverse (is_kept victims) runs,
)

-- A victim that is not in the list does not change what is kept of it.
pub kept_count-add_victim :
    (id : Text) (runs : List StoredRun) (victims : List Text)
    → has_id id runs ≡ false
    → kept_count runs (add_victim id victims) ≡ kept_count runs victims
unfolding kept_count
kept_count-add_victim id [] victims h = refl
kept_count-add_victim id (r ∷ runs) victims h = ground (
  arith,
  kept_count-add_victim id runs victims,
  member-add_victim id r.id victims,
  text_eq_comm r.id id,
)

-- Each victim by age is one completed run fewer.
pub mark_old_conserves :
    (cutoff : Time) (runs : List StoredRun) (victims : List Text)
    → IsUnique runs
    → length (mark_old cutoff runs victims) + kept_count runs (mark_old cutoff runs victims)
      ≡ length victims + kept_count runs victims
unfolding mark_old kept_count
mark_old_conserves cutoff [] victims u = refl
mark_old_conserves cutoff (r ∷ runs) victims u = ground (
  arith,
  mark_old_conserves cutoff runs victims,
  mark_old_conserves cutoff runs (add_victim r.id victims),
  member-mark_old cutoff runs victims r.id,
  member-mark_old cutoff runs (add_victim r.id victims) r.id,
  member-add_victim r.id r.id victims,
  text_eq_refl r.id,
  absent_any (is_old cutoff) r.id runs,
  kept_count-add_victim r.id runs victims,
)

-- The loop over the count keeps what is marked.
pub mark_excess_keeps :
    (limit kept : ℕ) (runs : List StoredRun) (victims : List Text) (k : Text)
    → member k victims ≡ true
    → member k (mark_excess limit kept runs victims) ≡ true
unfolding mark_excess
mark_excess_keeps limit kept [] victims k h = h
mark_excess_keeps limit kept (r ∷ runs) victims k h = ground (
  arith,
  mark_excess_keeps limit kept runs victims k,
  mark_excess_keeps limit (kept - 1) runs (add_victim r.id victims) k,
  member-add_victim r.id k victims,
)

-- It marks only ids of completed runs in the list.
pub mark_excess_only :
    (limit kept : ℕ) (runs : List StoredRun) (victims : List Text) (k : Text)
    → member k victims ≡ false
    → any (λ r. text_eq r.id k && not (is_live r)) runs ≡ false
    → member k (mark_excess limit kept runs victims) ≡ false
unfolding mark_excess
mark_excess_only limit kept [] victims k h a = h
mark_excess_only limit kept (r ∷ runs) victims k h a = ground (
  arith,
  mark_excess_only limit kept runs victims k,
  mark_excess_only limit (kept - 1) runs (add_victim r.id victims) k,
  member-add_victim r.id k victims,
)

-- Started with the number of kept runs, it leaves as many of them as the limit allows.
pub kept_count-mark_excess :
    (limit : ℕ) (runs : List StoredRun) (victims : List Text)
    → IsUnique runs
    → kept_count runs (mark_excess limit (kept_count runs victims) runs victims)
      ≡ min limit (kept_count runs victims)
unfolding mark_excess kept_count
kept_count-mark_excess limit [] victims u = omega arith
kept_count-mark_excess limit (r ∷ runs) victims u = ground (
  arith,
  kept_count-mark_excess limit runs victims,
  kept_count-mark_excess limit runs (add_victim r.id victims),
  mark_excess_keeps limit (kept_count runs victims) runs victims r.id,
  mark_excess_keeps limit (kept_count runs victims) runs (add_victim r.id victims) r.id,
  member-add_victim r.id r.id victims,
  text_eq_refl r.id,
  kept_count-add_victim r.id runs victims,
)

pub mark_excess_conserves :
    (limit : ℕ) (runs : List StoredRun) (victims : List Text)
    → IsUnique runs
    → length (mark_excess limit (kept_count runs victims) runs victims)
        + kept_count runs (mark_excess limit (kept_count runs victims) runs victims)
      ≡ length victims + kept_count runs victims
unfolding mark_excess kept_count
mark_excess_conserves limit [] victims u = refl
mark_excess_conserves limit (r ∷ runs) victims u = ground (
  arith,
  mark_excess_conserves limit runs victims,
  mark_excess_conserves limit runs (add_victim r.id victims),
  mark_excess_keeps limit (kept_count runs victims) runs victims r.id,
  mark_excess_keeps limit (kept_count runs victims) runs (add_victim r.id victims) r.id,
  mark_excess_only limit (kept_count runs victims) runs victims r.id,
  member-add_victim r.id r.id victims,
  text_eq_refl r.id,
  absent_any (λ (t : StoredRun). not (is_live t)) r.id runs,
  kept_count-add_victim r.id runs victims,
)
