-- ===== src/Store/Bolt/Keys.antt =====
-- A key of an index tells which run it is of.
use clock_relay.Base.{
  Text, ◌<◌, text_eq_iff, ◌≡◌, Bool, true, length, ◌∙◌, arith, ◌∷◌, ◌++◌, text_eq, ◌&&◌, sym, not,
  ◌==◌, [], refl,
}
use clock_relay.Store.Bolt.Buckets.{BoltLibrary, BoltLaws, year_10000, is_ascii}
use clock_relay.Store.Bolt.Indexes.{run_started_at_index_key, running_run_schedule_key}
use clock_relay.Store.Bolt.Views.{Tells}
use clock_relay.Model.{Run, is_running}

-- A schedule's name has no NUL, as no valid name has.
abbrev pub lacks_nul : Text → Bool
lacks_nul [] = true
lacks_nul (c ∷ s) = not (c == 0) && lacks_nul s

-- What the store's keys rest on.
pub record IsPlain (r : Run) : Type 0 where
  pub bounded : r.started_at < year_10000
  pub nul_free : lacks_nul r.schedule_name ≡ true

-- A run that can be written and found again: its id and its schedule's name are ASCII, and the name
-- has no NUL.
pub record IsStorable (r : Run) : Type 0 where
  pub ascii_id : is_ascii r.id ≡ true
  pub ascii_name : is_ascii r.schedule_name ≡ true
  pub nul_free : lacks_nul r.schedule_name ≡ true

-- Two texts with a first part of one length.
split_by_length : (a b s t : Text) → length a ≡ length b → a ++ s ≡ b ++ t → (a ≡ b) × (s ≡ t)
split_by_length [] [] s t h e = (refl, e)
split_by_length [] (c ∷ b) s t h e = absurd (omega (arith, h))
split_by_length (c ∷ a) [] s t h e = absurd (omega (arith, h))
split_by_length (c ∷ a) (d ∷ b) s t h e =
    let (first, rest) = split_by_length a b s t (omega (arith, h)) (cc) in (cc, rest)

-- Two texts with a first part that the first NUL ends.
pub split_by_nul :
    (a b s t : Text)
    → lacks_nul a ≡ true
    → lacks_nul b ≡ true
    → a ++ 0 ∷ s ≡ b ++ 0 ∷ t
    → (a ≡ b) × (s ≡ t)
split_by_nul [] [] s t h k e = (refl, cc)
split_by_nul [] (c ∷ b) s t h k e = absurd (ground arith)
split_by_nul (c ∷ a) [] s t h k e = absurd (ground arith)
split_by_nul (c ∷ a) (d ∷ b) s t h k e =
    let (first, rest) = split_by_nul a b s t (ground arith) (ground arith) (cc) in (cc, rest)

module _ {B : Type 0} (l : BoltLibrary B) where
  abbrev pub started_key_is : Run → Text → Bool
  started_key_is r k = text_eq (run_started_at_index_key l r) k

  abbrev pub running_key_is : Run → Text → Bool
  running_key_is r k = is_running r.status && text_eq (running_run_schedule_key r) k

  module _ (laws : BoltLaws l) where
    pub started_key-Tells : Tells IsPlain started_key_is
    started_key-Tells a b k p q ha hb =
        let same =
          (text_eq_iff (run_started_at_index_key l a) k).0 ha
          ∙ sym ((text_eq_iff (run_started_at_index_key l b) k).0 hb) in
        let (time, rest) =
          split_by_length (l.format_key a.started_at) (l.format_key b.started_at) (124 ∷ a.id)
            (124 ∷ b.id)
            (laws.length-format_key a.started_at p.bounded
              ∙ sym (laws.length-format_key b.started_at q.bounded))
            same in
        cc

    pub running_key-Tells : Tells IsPlain running_key_is
    running_key-Tells a b k p q ha hb =
        let same : running_run_schedule_key a ≡ running_run_schedule_key b = ground (
          arith,
          text_eq_iff (running_run_schedule_key a) k,
          text_eq_iff (running_run_schedule_key b) k,
        ) in
        (split_by_nul a.schedule_name b.schedule_name a.id b.id p.nul_free q.nul_free same).1
