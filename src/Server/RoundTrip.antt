-- ===== src/Server/RoundTrip.antt =====
-- The paths that the pages link to are read back as the name and the action they are made of.
use Prim.Native.Nat.{ℕ}
use clock_relay.Base.{
  Text, str, ℕ, reverse, ◌==◌, ◌++◌, ◌≡◌, ◌∷◌, false, refl, [], arith, ap, true, has_prefix, Result,
  ◌∙◌, has_prefix-append, drop_prefix, ◌≢◌, ok, drop_prefix-append, some,
}
use clock_relay.Server.Paths.{
  Action, run_now, delete_it, toggle_it, suffix_of, schedule_action_from_path, trim_slashes,
  trim_left, has_suffix, drop_suffix,
}
use clock_relay.Server.Paths.{named, action_of_rest}
use mathlib.Core.List.{reverse-append, reverse-reverse}

-- The name does not begin with a slash.
abbrev pub IsNamed : Text → Type 0
IsNamed [] = ⊥
IsNamed (a ∷ s) = (a == 47) ≡ false

-- The last byte of an action's suffix.
suffix_end :
    (a : Action) → (c : ℕ) × (t : Text) × (reverse (suffix_of a) ≡ c ∷ t) × ((c == 47) ≡ false)
unfolding str
suffix_end run_now = (110, str "ur/", refl, refl)
suffix_end delete_it = (101, str "teled/", refl, refl)
suffix_end toggle_it = (101, str "suap/", refl, refl)

trim_left-keep : (c : ℕ) (t : Text) → (c == 47) ≡ false → trim_left 47 (c ∷ t) ≡ c ∷ t
unfolding trim_left
trim_left-keep c t h = ground (arith, h)

trim_left-name : (name t : Text) → IsNamed name → trim_left 47 (name ++ t) ≡ name ++ t
trim_left-name [] t h = absurd h
trim_left-name (a ∷ s) t h = trim_left-keep a (s ++ t) h

trim_left-end :
    (name : Text) (a : Action)
    → trim_left 47 (reverse (name ++ suffix_of a)) ≡ reverse (name ++ suffix_of a)
trim_left-end name a =
    let (c, t, ends, no_slash) = suffix_end a in
    rw (reverse-append name (suffix_of a), ends) (trim_left-keep c (t ++ reverse name) no_slash)

trim_slashes-path :
    (name : Text) (a : Action)
    → IsNamed name
    → trim_slashes (name ++ suffix_of a) ≡ name ++ suffix_of a
unfolding trim_slashes
trim_slashes-path name a h =
    ap (λ p. reverse (trim_left 47 (reverse p))) (trim_left-name name (suffix_of a) h)
    ∙ ap reverse (trim_left-end name a)
    ∙ reverse-reverse (name ++ suffix_of a)

has_suffix-append : (s p : Text) → has_suffix (s ++ p) p ≡ true
unfolding has_suffix
has_suffix-append s p = rw (reverse-append s p) (has_prefix-append (reverse p) (reverse s))

drop_suffix-append : (s p : Text) → drop_suffix (s ++ p) p ≡ s
unfolding drop_suffix
drop_suffix-append s p =
    ap (λ r. reverse (drop_prefix r (reverse p))) (reverse-append s p)
    ∙ ap reverse (drop_prefix-append (reverse p) (reverse s))
    ∙ reverse-reverse s

-- No action's suffix ends with that of another.
other_suffix :
    (name : Text) (a b : Action) → a ≢ b → has_suffix (name ++ suffix_of a) (suffix_of b) ≡ false
unfolding has_suffix has_prefix str
other_suffix name run_now run_now h = absurd (h refl)
other_suffix name run_now delete_it h = rw (reverse-append name (str "/run")) refl
other_suffix name run_now toggle_it h = rw (reverse-append name (str "/run")) refl
other_suffix name delete_it run_now h = rw (reverse-append name (str "/delete")) refl
other_suffix name delete_it delete_it h = absurd (h refl)
other_suffix name delete_it toggle_it h = rw (reverse-append name (str "/delete")) refl
other_suffix name toggle_it run_now h = rw (reverse-append name (str "/pause")) refl
other_suffix name toggle_it delete_it h = rw (reverse-append name (str "/pause")) refl
other_suffix name toggle_it toggle_it h = absurd (h refl)

module _ (unescape : Text → Result Text) where
  named_whole :
      (name : Text) (a : Action)
      → IsNamed name
      → unescape name ≡ ok name
      → named unescape a (name ++ suffix_of a) ≡ some (name, a)
  named_whole [] a h plain = absurd h
  named_whole (c ∷ s) a h plain = rw (drop_suffix-append (c ∷ s) (suffix_of a), plain) refl

  action_of_whole :
      (name : Text) (a : Action)
      → IsNamed name
      → unescape name ≡ ok name
      → action_of_rest unescape (name ++ suffix_of a) ≡ some (name, a)
  unfolding action_of_rest
  action_of_whole name run_now h plain =
      rw (has_suffix-append name (str "/run")) (named_whole name run_now h plain)
  action_of_whole name delete_it h plain =
      rw (other_suffix name delete_it run_now (λ e. cc), has_suffix-append name (str "/delete"))
        (named_whole name delete_it h plain)
  action_of_whole name toggle_it h plain =
      rw
        (
          other_suffix name toggle_it run_now (λ e. cc),
          other_suffix name toggle_it delete_it (λ e. cc),
          has_suffix-append name (str "/pause"),
        )
        (named_whole name toggle_it h plain)

  -- The path of an action on a name that is not empty, does not begin with a slash and is not
  -- changed by the escapes is read back as that name and action.
  pub path_round_trip :
      (name : Text) (a : Action)
      → IsNamed name
      → unescape name ≡ ok name
      → schedule_action_from_path unescape (str "/v1/schedules/" ++ (name ++ suffix_of a))
        ≡ some (name, a)
  unfolding schedule_action_from_path
  path_round_trip name a h plain =
      let rest = name ++ suffix_of a in
      rw
        (
          has_prefix-append (str "/v1/schedules/") rest,
          drop_prefix-append (str "/v1/schedules/") rest,
          trim_slashes-path name a h,
        )
        (action_of_whole name a h plain)
