-- ===== src/Server/Paths.antt =====
-- scheduleActionFromPath and editScheduleNameFromPath of internal/server/http.go.
use clock_relay.Config.Defaults.{is_empty}
use clock_relay.Base.{
  Text, Bool, reverse, ℕ, str, Result, has_prefix, drop_prefix, ◌∷◌, Option, if◌then◌else◌, err,
  ◌==◌, none, not, [], ok, ◌||◌, some,
}

-- strings.HasSuffix(s, p)
unfoldable pub has_suffix : Text → Text → Bool
has_suffix s p = has_prefix (reverse s) (reverse p)

-- strings.TrimSuffix(s, p), given that `p` is a suffix of `s`
unfoldable pub drop_suffix : Text → Text → Text
drop_suffix s p = reverse (drop_prefix (reverse s) (reverse p))

-- Without the bytes `c` at its start.
unfoldable pub trim_left : ℕ → Text → Text
trim_left c [] = []
trim_left c (a ∷ s) = let rest = trim_left c s in if a == c then rest else a ∷ s

-- strings.Trim(s, "/")
unfoldable pub trim_slashes : Text → Text
trim_slashes s = reverse (trim_left 47 (reverse (trim_left 47 s)))

pub data Action : Type 0 where
  run_now : Action
  delete_it : Action
  toggle_it : Action

abbrev pub suffix_of : Action → Text
suffix_of run_now = str "/run"
suffix_of delete_it = str "/delete"
suffix_of toggle_it = str "/pause"

abbrev non_empty : Action → Result Text → Option (Text × Action)
non_empty action (err x) = none
non_empty action (ok name) = if is_empty name then none else some (name, action)

-- `unescape` is url.PathUnescape.
module _ (unescape : Text → Result Text) where
  abbrev pub named : Action → Text → Option (Text × Action)
  named action rest = non_empty action (unescape (drop_suffix rest (suffix_of action)))

  -- The switch of scheduleActionFromPath.
  unfoldable pub action_of_rest : Text → Option (Text × Action)
  action_of_rest rest =
      if has_suffix rest (suffix_of run_now)
      then named run_now rest
      else if has_suffix rest (suffix_of delete_it)
      then named delete_it rest
      else if has_suffix rest (suffix_of toggle_it)
      then named toggle_it rest
      else none

  -- scheduleActionFromPath
  unfoldable pub schedule_action_from_path : Text → Option (Text × Action)
  schedule_action_from_path path =
      if has_prefix path (str "/v1/schedules/")
      then action_of_rest (trim_slashes (drop_prefix path (str "/v1/schedules/")))
      else none

  abbrev decoded : Result Text → Option Text
  decoded (err x) = none
  decoded (ok name) = some name

  -- editScheduleNameFromPath. Of a path that is shorter than the prefix and the suffix together,
  -- TrimSuffix takes away the suffix only where it is still there.
  unfoldable pub edit_schedule_name_from_path : Text → Option Text
  unfolding trim_slashes has_suffix drop_suffix
  edit_schedule_name_from_path path =
      let rest = drop_prefix path (str "/schedules/") in
      let name =
        trim_slashes
          (if has_suffix rest (str "/edit") then drop_suffix rest (str "/edit") else rest) in
      if not (has_prefix path (str "/schedules/")) || not (has_suffix path (str "/edit"))
      then none
      else if is_empty name
      then none
      else decoded (unescape name)
