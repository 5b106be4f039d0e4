-- ===== src/Server/Form.antt =====
-- scheduleFromRequest of internal/server/http.go and what it calls.
use clock_relay.Config.Defaults.{is_empty}
use clock_relay.Base.Int.{ℤ, pos}
use clock_relay.Model.{Duration, Any}
use Prim.Native.String.{String, []}
use Prim.Native.Nat.{ℕ}
use clock_relay.Base.{
  Text, ℕ, Option, List, Bool, Result, ◌∷◌, some, none, Map, str, [], if◌then◌else◌, ◌>>◌, ◌==◌,
  put, text_eq, err, ◌>>=◌, contains, ◌||◌, config_error, ok, false,
}
use clock_relay.Base.Spaces.{trim_space}
use clock_relay.Config.Types.{ScheduleConfig, TargetConfig}

-- A request: its headers, and what net/http and encoding/json read of its body.
pub record FormRequest : Type 0 where
  pub content_type : Text
  -- The schedule and the original name of a JSON body, within its limit of 1 MiB.
  pub payload : Result (ScheduleConfig × Text)
  -- r.ParseForm()
  pub parse_form : Result (Unit {0})
  -- r.FormValue(name)
  pub form_value : Text → Text

pub record FormLibrary : Type 0 where
  -- time.ParseDuration
  pub parse_duration : Text → Result Duration
  -- strconv.Atoi
  pub atoi : Text → Result ℤ
  -- decoder.Decode(&args) into a []any, where null is a nil slice, and the text from
  -- decoder.InputOffset() on
  pub decode_args : Text → Result (Option (List Any) × Text)

abbrev add_to_first : ℕ → List Text → List Text
add_to_first c [] = (c ∷ []) ∷ []
add_to_first c (line ∷ lines) = (c ∷ line) ∷ lines

-- strings.Split(s, "\n")
unfoldable pub split_lines : Text → List Text
split_lines [] = [] ∷ []
split_lines (c ∷ s) =
    let lines = split_lines s in if c == 10 then [] ∷ lines else add_to_first c lines

abbrev add_before : ℕ → Option (Text × Text) → Option (Text × Text)
add_before c none = none
add_before c (some (before, after)) = some (c ∷ before, after)

-- strings.Cut(s, sep) for a separator of one byte
unfoldable pub cut : ℕ → Text → Option (Text × Text)
cut sep [] = none
cut sep (c ∷ s) = let rest = cut sep s in if c == sep then some ([], s) else add_before c rest

-- The key and the value of a line: what stands around its first "=", or else its first ":".
unfoldable pub cut_line : Text → Option (Text × Text)
cut_line line = elim (cut 61 line) [ none ↦ cut 58 line | some pair ↦ some pair ]

abbrev put_line : Option (Text × Text) → Map Text → Map Text
put_line none values = values
put_line (some (key, value)) values = put (trim_space key) (trim_space value) values

-- The loop of parseKeyValues.
unfoldable pub put_lines : List Text → Map Text → Map Text
put_lines [] values = values
put_lines (raw ∷ lines) values =
    let line = trim_space raw in
    put_lines lines (if is_empty line then values else put_line (cut_line line) values)

-- parseKeyValues; a nil map is the empty one
unfoldable pub parse_key_values : Text → Map Text
unfolding split_lines put_lines
parse_key_values raw = put_lines (split_lines raw) []

-- allowConcurrentFromForm
unfoldable pub allow_concurrent_from_form : FormRequest → Bool
allow_concurrent_from_form r =
    let raw = trim_space (r.form_value (str "allow_concurrent_runs")) in
    text_eq raw (str "true")
    || text_eq raw (str "on")
    || text_eq raw (str "1")
    || text_eq raw (str "yes")

-- A form field without the white space around it.
abbrev pub field : FormRequest → String → Text
field r name = trim_space (r.form_value (str name))

abbrev pub plain_target : Text → TargetConfig
plain_target type = record {
  type = type;
  url = [];
  method = [];
  headers = [];
  body = none;
  args = none;
  queue = [];
  job_type = [];
  instance_name = [];
}

module _ (l : FormLibrary) where
  abbrev whole_array : Result (Option (List Any) × Text) → Result (Option (List Any))
  whole_array (err x) = err (config_error (str "faktory args must be a JSON array"))
  whole_array (ok (args, rest)) =
      if is_empty (trim_space rest)
      then ok args
      else err (config_error (str "faktory args must contain one JSON array"))

  -- parseJSONArgs
  unfoldable pub parse_json_args : Text → Result (Option (List Any))
  parse_json_args raw =
      let trimmed = trim_space raw in
      if is_empty trimmed then ok none else whole_array (l.decode_args trimmed)

  unfoldable pub timeout_from_form : FormRequest → Result Duration
  timeout_from_form r =
      let raw = field r "timeout" in if is_empty raw then ok (pos 0) else l.parse_duration raw

  unfoldable pub rate_interval_from_form : FormRequest → Result ℤ
  rate_interval_from_form r =
      let raw = field r "rate_interval" in if is_empty raw then ok (pos 0) else l.atoi raw

  unfoldable pub target_from_form : FormRequest → Result TargetConfig
  unfolding parse_key_values parse_json_args
  target_from_form r =
      let type = field r "target_type" in
      if text_eq type (str "http")
      then ok (record (plain_target type) {
        url = field r "target_url";
        method = field r "target_method";
        headers = parse_key_values (r.form_value (str "target_headers"));
      })
      else if text_eq type (str "faktory")
      then (do
        args ← parse_json_args (r.form_value (str "target_faktory_args"))
        ok (record (plain_target type) {
          instance_name = field r "target_faktory_instance";
          queue = field r "target_faktory_queue";
          job_type = field r "target_faktory_job_type";
          args = args;
        }))
      else ok (plain_target type)

  -- The part of scheduleFromRequest for a form.
  unfoldable pub schedule_from_form : FormRequest → Result (ScheduleConfig × Text)
  schedule_from_form r = do
    r.parse_form
    timeout ← timeout_from_form r
    target ← target_from_form r
    rate_interval ← rate_interval_from_form r
    let schedule : ScheduleConfig = record {
      name = field r "name";
      description = field r "description";
      schedule_type = field r "schedule_type";
      cron = field r "cron";
      timezone = field r "timezone";
      run_at = field r "run_at";
      starts_at = field r "starts_at";
      rate_interval = rate_interval;
      rate_unit = field r "rate_unit";
      completed_at = none;
      paused = false;
      timeout = timeout;
      allow_concurrent = allow_concurrent_from_form r;
      target = target;
      next_run = 0;
      previous_run = 0;
    }
    ok (schedule, field r "original_name")

  -- scheduleFromRequest
  unfoldable pub schedule_from_request : FormRequest → Result (ScheduleConfig × Text)
  unfolding schedule_from_form
  schedule_from_request r =
      if contains r.content_type (str "application/json") then r.payload else schedule_from_form r
