-- ===== src/Server/Handlers.antt =====
-- The handlers of internal/server/http.go that read or change the engine.
use clock_relay.Base.Int.{ℤ, pos}
use clock_relay.Model.{Run, Time}
use clock_relay.Config.Defaults.{or_default, is_empty}
use clock_relay.Config.Types.{ScheduleConfig}
use clock_relay.Engine.World.{World, Engine}
use clock_relay.Base.{
  Map, Text, Error, Bool, ℕ, str, contains, List, Result, error_text, if◌then◌else◌, Option, ◌∷◌,
  ◌++◌, none, err, [], text_eq, ok, some,
}
use clock_relay.Server.Paths.{Action, run_now, delete_it, toggle_it, schedule_action_from_path}
use clock_relay.Server.Form.{FormLibrary, FormRequest, schedule_from_request}
use clock_relay.Engine.Saving.{save_schedule}
use clock_relay.Engine.Registry.{delete_schedule}
use clock_relay.Engine.Pausing.{toggle_pause}
use clock_relay.Engine.Runs.{trigger_manual}
use clock_relay.Engine.Startup
use clock_relay.Engine.Startup.{clear_runs, schedules}

-- What a handler answers: a redirect to a location, or a status with a JSON value.
pub data Value : Type 0 where
  fields : Map Text → Value
  one_schedule : ScheduleConfig → Value
  all_schedules : List ScheduleConfig → Value
  one_run : Run → Value
  all_runs : List Run → Value

pub data Response : Type 0 where
  redirect : Text → Response
  json : ℕ → Value → Response

-- What a handler reads of a request.
pub record Incoming : Type 0 where
  pub path : Text
  pub accept : Text
  pub referer : Text
  -- r.URL.Query().Get("limit")
  pub limit : Text
  pub form : FormRequest

abbrev error_field : Error → Value
error_field x = fields ((str "error", error_text x) ∷ [])

-- wantsHTML
unfoldable pub wants_html : Incoming → Bool
wants_html r = contains r.accept (str "text/html")

-- A redirect with a notice for a browser, and else a value with its status.
abbrev notice_or : Incoming → Text → ℕ → Value → Response
notice_or r notice code value =
    if wants_html r then redirect (str "/?notice=" ++ notice) else json code value

-- `escape` is url.QueryEscape.
module _ (escape : Text → Text) where
  -- respondScheduleError
  unfoldable pub respond_schedule_error : Incoming → Error → Response
  respond_schedule_error r x =
      let to = or_default r.referer (str "/") in
      let separator = if contains to (str "?") then str "&" else str "?" in
      if wants_html r
      then redirect (to ++ (separator ++ (str "error=" ++ escape (error_text x))))
      else json 400 (error_field x)

-- findSchedule, in the schedules of the engine
unfoldable pub find_schedule : Text → List ScheduleConfig → Option ScheduleConfig
find_schedule name [] = none
find_schedule name (s ∷ l) =
    let rest = find_schedule name l in if text_eq s.name name then some s else rest

module _ {S C : Type 0} (w : World S C) (l : FormLibrary) (escape : Text → Text)
    (unescape : Text → Result Text) where
  -- apiSchedules
  unfoldable pub api_schedules : Engine S C → Response
  api_schedules e = json 200 (all_schedules (schedules w e))

  abbrev limit_of : Text → ℤ
  limit_of raw = elim (l.atoi raw) [ err x ↦ pos 50 | ok limit ↦ limit ]

  abbrev runs_response : Result (List Run) → Response
  runs_response (err x) = json 500 (error_field x)
  runs_response (ok runs) = json 200 (all_runs runs)

  -- apiRuns
  unfoldable pub api_runs : Incoming → Engine S C → Response
  api_runs r e =
      runs_response (Startup.runs w (if is_empty r.limit then pos 50 else limit_of r.limit) e)

  abbrev pub saved_response :
      Incoming → ScheduleConfig → Result (Unit {0}) × Engine S C → Response × Engine S C
  saved_response r s (err x, e) = (respond_schedule_error escape r x, e)
  saved_response r s (ok _, e) = (notice_or r (str "job+saved") 200 (one_schedule s), e)

  abbrev pub save_read :
      (ℕ → Time) → Incoming → Result (ScheduleConfig × Text) → Engine S C → Response × Engine S C
  save_read now r (err x) e = (respond_schedule_error escape r x, e)
  save_read now r (ok (s, original)) e = saved_response r s (save_schedule w now original s e)

  -- apiSaveSchedule
  unfoldable pub api_save_schedule : (ℕ → Time) → Incoming → Engine S C → Response × Engine S C
  api_save_schedule now r e = save_read now r (schedule_from_request l r.form) e

  abbrev pub cleared_response : Incoming → Result (Unit {0}) × Engine S C → Response × Engine S C
  cleared_response r (err x, e) = (json 500 (error_field x), e)
  cleared_response r (ok _, e) =
      (notice_or r (str "run+log+cleared") 200 (fields ((str "status", str "cleared") ∷ [])), e)

  -- apiClearRuns
  unfoldable pub api_clear_runs : Incoming → Engine S C → Response × Engine S C
  api_clear_runs r e = cleared_response r (clear_runs w e)

  abbrev pub deleted_response : Incoming → Result (Unit {0}) × Engine S C → Response × Engine S C
  deleted_response r (err x, e) = (respond_schedule_error escape r x, e)
  deleted_response r (ok _, e) =
      (notice_or r (str "job+deleted") 200 (fields ((str "status", str "deleted") ∷ [])), e)

  abbrev pause_status : Bool → Text
  pause_status paused = if paused then str "paused" else str "resumed"

  abbrev pub toggled_response : Incoming → Result Bool × Engine S C → Response × Engine S C
  toggled_response r (err x, e) = (respond_schedule_error escape r x, e)
  toggled_response r (ok paused, e) = (
    notice_or r (str "job+" ++ pause_status paused) 200 (
        fields (
          (str "status", pause_status paused)
          ∷ (str "paused", if paused then str "true" else str "false")
          ∷ [])),
    e,
  )

  abbrev pub ran_response : Incoming → Result Run × Engine S C → Response × Engine S C
  ran_response r (err x, e) = (json 400 (error_field x), e)
  ran_response r (ok run, e) = (notice_or r (str "job+triggered") 202 (one_run run), e)

  abbrev pub act :
      (ℕ → Time) → Incoming → Option (Text × Action) → Engine S C → Response × Engine S C
  act now r none e = (json 404 (fields ((str "error", str "not found") ∷ [])), e)
  act now r (some (name, delete_it)) e = deleted_response r (delete_schedule w name e)
  act now r (some (name, toggle_it)) e = toggled_response r (toggle_pause w now name e)
  act now r (some (name, run_now)) e = ran_response r (trigger_manual w now name e)

  -- apiScheduleAction
  unfoldable pub api_schedule_action : (ℕ → Time) → Incoming → Engine S C → Response × Engine S C
  api_schedule_action now r e = act now r (schedule_action_from_path unescape r.path) e
