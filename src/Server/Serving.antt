-- ===== src/Server/Serving.antt =====
-- The requests that may change the engine, and the calls of the engine they ask for.
use clock_relay.Engine.Startup.{clear_runs}
use clock_relay.Engine.Runs.{trigger_manual}
use clock_relay.Engine.Pausing.{toggle_pause}
use clock_relay.Server.RoundTrip.{IsNamed, path_round_trip}
use clock_relay.Engine.Saving.{save_schedule}
use clock_relay.Engine.Registry.{delete_schedule}
use clock_relay.Config.Types.{ScheduleConfig}
use clock_relay.Engine.Requests.{
  perform, perform_all, Request, fire_manual, delete, save, toggle, clear,
}
use clock_relay.Server.Paths.{
  Action, run_now, suffix_of, delete_it, toggle_it, schedule_action_from_path,
}
use clock_relay.Server.Handlers.{
  Incoming, api_save_schedule, Response, cleared_response, deleted_response, act, api_clear_runs,
  api_schedule_action, saved_response, toggled_response, ran_response,
}
use clock_relay.Model.{Time, Run}
use clock_relay.Server.Form.{FormLibrary, schedule_from_request}
use clock_relay.Engine.World.{World, Engine}
use clock_relay.Base.{
  Text, Result, ℕ, List, [], ◌∷◌, ◌≡◌, ◌++◌, str, ok, err, refl, Bool, some, ap, ◌∙◌,
}

-- The routes of NewHTTPServer with the method POST.
pub data Route : Type 0 where
  post_schedule : Route
  post_clear : Route
  post_action : Route

module _ {S C : Type 0} (w : World S C) (l : FormLibrary) (escape : Text → Text)
    (unescape : Text → Result Text) where
  unfoldable pub serve : Route → (ℕ → Time) → Incoming → Engine S C → Response × Engine S C
  serve post_schedule now r e = api_save_schedule w l escape unescape now r e
  serve post_clear now r e = api_clear_runs w l escape unescape r e
  serve post_action now r e = api_schedule_action w l escape unescape now r e

  unfoldable pub serve_all : List (Route × (ℕ → Time) × Incoming) → Engine S C → Engine S C
  serve_all [] e = e
  serve_all ((route, now, r) ∷ rs) e = serve_all rs (serve route now r e).1

-- The call of the engine that an action on a schedule is named after.
abbrev pub call_of : (ℕ → Time) → Text → Action → Request
call_of now name run_now = fire_manual now name
call_of now name delete_it = delete name
call_of now name toggle_it = toggle now name

-- The request asks for the call: a form or a JSON body that is read as a schedule asks to save it, the
-- path that ends in an action's word asks for that action, and the last route asks to clear the runs.
pub data Asks (l : FormLibrary) (unescape : Text → Result Text)
    : Route × (ℕ → Time) × Incoming → Request → Type 0 where
  asks_save :
      (now : ℕ → Time) (r : Incoming) (s : ScheduleConfig) (original : Text)
      → schedule_from_request l r.form ≡ ok (s, original)
      → Asks l unescape (post_schedule, now, r) (save now original s)
  asks_action :
      (now : ℕ → Time) (r : Incoming) (name : Text) (a : Action)
      → IsNamed name
      → unescape name ≡ ok name
      → r.path ≡ str "/v1/schedules/" ++ (name ++ suffix_of a)
      → Asks l unescape (post_action, now, r) (call_of now name a)
  asks_clear : (now : ℕ → Time) (r : Incoming) → Asks l unescape (post_clear, now, r) clear

-- Each request asks for the call at its place.
pub data AllAsk (l : FormLibrary) (unescape : Text → Result Text)
    : List (Route × (ℕ → Time) × Incoming) → List Request → Type 0 where
  no_more : AllAsk l unescape [] []
  one_more :
      {p : Route × (ℕ → Time) × Incoming} {q : Request} {ps : List (Route × (ℕ → Time) × Incoming)}
      {qs : List Request}
      → Asks l unescape p q
      → AllAsk l unescape ps qs
      → AllAsk l unescape (p ∷ ps) (q ∷ qs)

module _ {S C : Type 0} (w : World S C) (l : FormLibrary) (escape : Text → Text)
    (unescape : Text → Result Text) where
  engine-saved_response :
      (r : Incoming) (s : ScheduleConfig) (out : Result (Unit {0}) × Engine S C)
      → (saved_response w l escape unescape r s out).1 ≡ out.1
  engine-saved_response r s (err x, e) = refl
  engine-saved_response r s (ok v, e) = refl

  engine-cleared_response :
      (r : Incoming) (out : Result (Unit {0}) × Engine S C)
      → (cleared_response w l escape unescape r out).1 ≡ out.1
  engine-cleared_response r (err x, e) = refl
  engine-cleared_response r (ok v, e) = refl

  engine-deleted_response :
      (r : Incoming) (out : Result (Unit {0}) × Engine S C)
      → (deleted_response w l escape unescape r out).1 ≡ out.1
  engine-deleted_response r (err x, e) = refl
  engine-deleted_response r (ok v, e) = refl

  engine-toggled_response :
      (r : Incoming) (out : Result Bool × Engine S C)
      → (toggled_response w l escape unescape r out).1 ≡ out.1
  engine-toggled_response r (err x, e) = refl
  engine-toggled_response r (ok v, e) = refl

  engine-ran_response :
      (r : Incoming) (out : Result Run × Engine S C)
      → (ran_response w l escape unescape r out).1 ≡ out.1
  engine-ran_response r (err x, e) = refl
  engine-ran_response r (ok v, e) = refl

  act-call_of :
      (now : ℕ → Time) (r : Incoming) (name : Text) (a : Action) (e : Engine S C)
      → (act w l escape unescape now r (some (name, a)) e).1 ≡ perform w (call_of now name a) e
  unfolding perform
  act-call_of now r name delete_it e = engine-deleted_response r (delete_schedule w name e)
  act-call_of now r name toggle_it e = engine-toggled_response r (toggle_pause w now name e)
  act-call_of now r name run_now e = engine-ran_response r (trigger_manual w now name e)

  serve-perform :
      {route : Route} {now : ℕ → Time} {r : Incoming} {q : Request}
      → Asks l unescape (route, now, r) q
      → (e : Engine S C) → (serve w l escape unescape route now r e).1 ≡ perform w q e
  unfolding serve api_save_schedule api_clear_runs api_schedule_action perform
  serve-perform (asks_save now r s original read) e =
      rw read (engine-saved_response r s (save_schedule w now original s e))
  serve-perform (asks_action now r name a is_named plain at) e =
      ap (λ o. (act w l escape unescape now r o e).1)
        (ap (schedule_action_from_path unescape) at
          ∙ path_round_trip unescape name a is_named plain)
      ∙ act-call_of now r name a e
  serve-perform (asks_clear now r) e = engine-cleared_response r (clear_runs w e)

  -- Serving POST requests, each of which asks for a call of the engine, leaves the engine as these
  -- calls leave it in their order: a schedule that is read is saved, a path that ends in /run, /delete
  -- or /pause runs, deletes or toggles the schedule of its name, and the last route clears the runs.
  pub serve_all-perform_all :
      {rs : List (Route × (ℕ → Time) × Incoming)} {qs : List Request}
      → AllAsk l unescape rs qs
      → (e : Engine S C) → serve_all w l escape unescape rs e ≡ perform_all w qs e
  unfolding serve_all perform_all
  serve_all-perform_all no_more e = refl
  serve_all-perform_all (one_more {p = (route, now, r)} {q = q} asked more) e =
      rw (serve-perform asked e) (serve_all-perform_all more (perform w q e))
