-- ===== src/Store/Bolt/Victims.antt =====
-- The entries of the index by start, and the times in their keys.
use clock_relay.Store.Bolt.Keys.{started_key_is}
use clock_relay.Store.Bolt.Invariant.{run_of}
use clock_relay.Store.Bolt.Indexes.{started_at_from_run_index_key, run_started_at_index_key}
use clock_relay.Model.{Run, is_running}
use clock_relay.Store.Bolt.Buckets.{BoltLibrary, BoltLaws, Tx, year_10000, key_length}
use clock_relay.Base.{
  Text, ℕ, Map, length, Bool, ◌≡◌, false, ◌<◌, take, ◌++◌, some, text_lt, arith, true, ◌∷◌, ok, ◌≤◌,
  suc, text_eq, text_eq_iff, ◌∙◌, ap, ◌||◌, sym, [], zero, ltb, Bool-cases, length-append, inl, inr,
  if◌then◌else◌, err, config_error, str,
}
use clock_relay.Base.Order.{text_lt_append, text_lt_asym}

pub take_part : (a s : Text) (n : ℕ) → length a ≡ n → take n (a ++ s) ≡ a
take_part [] s n h = ground arith
take_part (c ∷ a) s zero h = absurd (omega (arith, h))
take_part (c ∷ a) s (suc n) h = ap (λ t. c ∷ t) (take_part a s n (omega (arith, h)))

long_enough : (a s : Text) (n : ℕ) → length a ≡ n → ltb (length (a ++ s)) n ≡ false
long_enough a s n h = ground (arith, h, length-append a s)

-- The ids of the victims.
abbrev pub has_id : Map Text → Text → Bool
has_id [] j = false
has_id ((k, id) ∷ victims) j = text_eq id j || has_id victims j

abbrev pub IsFinished : Run → Type 0
IsFinished r = is_running r.status ≡ false

abbrev pub IsBounded : Run → Type 0
IsBounded r = r.started_at < year_10000

module _ {B : Type 0} (l : BoltLibrary B) where
  -- The run that an entry of the index stands for.
  abbrev pub EntryRun : (Run → Type 0) → Tx B → Text × Text → Type 0
  EntryRun P tx e = (r : Run) × (run_of l tx e.1 ≡ some r) × (started_key_is l r e.0 ≡ true) × P r

  module _ (laws : BoltLaws l) where
    pub started_at_lem :
        (r : Run) (k : Text)
        → r.started_at < year_10000
        → started_key_is l r k ≡ true
        → started_at_from_run_index_key l k ≡ ok r.started_at
    unfolding started_at_from_run_index_key
    started_at_lem r k bound is_key =
        let own : run_started_at_index_key l r ≡ k =
          (text_eq_iff (run_started_at_index_key l r) k).0 is_key in
        let size = laws.length-format_key r.started_at bound in
        let key = run_started_at_index_key l r in
        rw (← own) (
          ap
            (λ b.
              if b
              then err (config_error (str "invalid run time index key"))
              else l.parse_key (take key_length key))
            (long_enough (l.format_key r.started_at) (124 ∷ r.id) key_length size)
          ∙ ap l.parse_key (take_part (l.format_key r.started_at) (124 ∷ r.id) key_length size)
          ∙ laws.parse-format r.started_at bound)

    -- A run that started earlier has the smaller key.
    pub started_key-lt :
        (r q : Run)
        → r.started_at < q.started_at
        → q.started_at < year_10000
        → text_lt (run_started_at_index_key l r) (run_started_at_index_key l q) ≡ true
    started_key-lt r q earlier bound =
        text_lt_append (l.format_key r.started_at) (l.format_key q.started_at) (124 ∷ r.id)
          (124 ∷ q.id)
          (laws.length-format_key r.started_at (omega (arith, earlier, bound))
            ∙ sym (laws.length-format_key q.started_at bound))
          (laws.format_key-lt r.started_at q.started_at earlier bound)

    -- The run of the smaller key did not start later.
    pub started_at_le :
        (r q : Run) (j k : Text)
        → r.started_at < year_10000
        → started_key_is l r j ≡ true
        → started_key_is l q k ≡ true
        → text_lt j k ≡ true
        → r.started_at ≤ q.started_at
    started_at_le r q j k bound rj qk less = elim (Bool-cases (ltb q.started_at r.started_at)) [
      | inl later ↦
          let jr = (text_eq_iff (run_started_at_index_key l r) j).0 rj in
          let kq = (text_eq_iff (run_started_at_index_key l q) k).0 qk in
          let back = started_key-lt q r (ground (arith, later)) bound in
          absurd (ground (arith, text_lt_asym j k less, rw (jr, kq) at back))
      | inr not_later ↦ ground (arith, not_later)
    ]
