-- ===== src/Server/Tests.antt =====
-- The server's theorems at small inputs.
use clock_relay.Server.RoundTrip.{path_round_trip}
use clock_relay.Server.Paths.{schedule_action_from_path, toggle_it, run_now, delete_it}
use clock_relay.Model.{Time}
use clock_relay.Server.Serving.{
  Route, serve_all, serve_all-perform_all, post_schedule, post_action, post_clear, AllAsk, one_more,
  no_more, asks_save, asks_clear, asks_action,
}
use clock_relay.Engine.Requests.{Request, perform_all, save, toggle, fire_manual, clear, delete}
use clock_relay.Server.Handlers.{Incoming}
use clock_relay.Engine.Saved.{IsSaved, save_schedule-IsSaved, edited_schedule}
use clock_relay.Base.Int.{pos}
use clock_relay.Store.Memory.{MemoryStore, new_memory_store}
use clock_relay.Engine.Saving.{save_schedule}
use clock_relay.Engine.World.{Engine}
use clock_relay.Config.Types.{ScheduleConfig}
use clock_relay.Base.{
  Text, contains, ok, if◌then◌else◌, str, [], has_prefix, get, text_eq, err, true, ◌≡◌, none,
  config_error, ◌∷◌, false, some, refl, del, put, List, ℕ, ◌++◌,
}
use clock_relay.Server.Form.{FormLibrary, FormRequest, schedule_from_request, schedule_from_form}
use clock_relay.Base.Spaces.{trim_space}
use clock_relay.Store.Memory
use clock_relay.Store.Memory.{memory_methods}
use clock_relay.Server.Form.{
  timeout_from_form, target_from_form, rate_interval_from_form, allow_concurrent_from_form,
}
use clock_relay.Config.Validate.{
  validate, validate_run_retention, validate_run_logging, validate_instances, validate_schedules,
  validate_schedule_body, valid_schedule_name, all_name_bytes, member, validate_schedule_timing,
  validate_target, parse_local_date_time,
}
use clock_relay.Config.Defaults.{normalize_schedule}
use clock_relay.Engine.Timing.{cron_schedule, cron_spec}
use clock_relay.Engine.Registry.{
  validate_schedule, remove_schedule, remove_entry, register_schedule, register_entry,
}
use clock_relay.Engine.Saving.{save_valid, save_checked, store_save, store_rename, remove_replaced}
use clock_relay.Server.Editing.{form_edit_resumes}
use clock_relay.Engine.Samples.{sample_world, names_laws, idle, nightly, clock, Names}

abbrev readers : FormLibrary
readers = record {
  parse_duration = λ raw. ok (pos 0);
  atoi = λ raw. ok (pos 0);
  decode_args = λ raw. ok (none, []);
}

-- The edit form of the nightly job.
unfoldable value_of : Text → Text
value_of name =
    if text_eq name (str "name")
    then str "nightly"
    else if text_eq name (str "original_name")
    then str "nightly"
    else if text_eq name (str "target_type")
    then str "http"
    else if text_eq name (str "target_url")
    then str "http://localhost/hook"
    else if text_eq name (str "cron")
    then str "0 3 * * *"
    else []

abbrev edit_form : FormRequest
edit_form = record {
  content_type = str "application/x-www-form-urlencoded";
  payload = err (config_error []);
  parse_form = ok tt;
  form_value = value_of;
}

abbrev edited : ScheduleConfig
edited = record nightly { schedule_type = []; cron = str "0 3 * * *" }

-- The engine with the nightly job paused.
abbrev resting : Engine MemoryStore Names
resting = record idle {
  schedules = (str "nightly", record nightly { paused = true }) ∷ [];
  cron = [];
  entry_ids = [];
}

edit_form_not_json : contains edit_form.content_type (str "application/json") ≡ false
unfolding contains has_prefix str
edit_form_not_json = refl

edit_form_read : schedule_from_request readers edit_form ≡ ok (edited, str "nightly")
unfolding schedule_from_request schedule_from_form str value_of text_eq contains timeout_from_form
    trim_space target_from_form rate_interval_from_form allow_concurrent_from_form
edit_form_read = refl

edit_saved : (save_schedule sample_world clock (str "nightly") edited resting).0 ≡ ok tt
unfolding save_schedule str text_eq validate_schedule validate validate_run_retention
    validate_run_logging validate_instances validate_schedules validate_schedule_body
    normalize_schedule valid_schedule_name all_name_bytes contains member validate_schedule_timing
    validate_target save_valid get save_checked del put has_prefix trim_space parse_local_date_time
    store_save store_rename remove_replaced remove_schedule remove_entry register_schedule
    register_entry cron_schedule cron_spec clock_relay.Store.Memory.save_schedule
    clock_relay.Store.Memory.delete_schedule memory_methods
edit_saved = refl

form_edit_resumes_example :
    (saved : ScheduleConfig) × (get edited.name
        (save_schedule sample_world clock (str "nightly") edited resting).1.schedules
      ≡ some saved)
    × (saved.paused ≡ false)
form_edit_resumes_example =
    form_edit_resumes readers edit_form edit_form_not_json sample_world names_laws clock edited
      (str "nightly") resting edit_form_read edit_saved

save_schedule-IsSaved_example :
    IsSaved
      (edited_schedule (str "nightly") resting)
      edited
      (save_schedule sample_world clock (str "nightly") edited resting).1
save_schedule-IsSaved_example =
    save_schedule-IsSaved sample_world names_laws clock (str "nightly") edited resting edit_saved

abbrev browser : Text → Incoming
browser path = record {
  path = path;
  accept = str "text/html";
  referer = [];
  limit = [];
  form = edit_form;
}

abbrev some_posts : List (Route × (ℕ → Time) × Incoming)
some_posts =
    (post_schedule, clock, browser (str "/v1/schedules"))
    ∷ (post_action, clock, browser (str "/v1/schedules/nightly/pause"))
    ∷ (post_action, clock, browser (str "/v1/schedules/nightly/run"))
    ∷ (post_clear, clock, browser (str "/v1/runs/clear"))
    ∷ (post_action, clock, browser (str "/v1/schedules/nightly/delete"))
    ∷ []

abbrev some_calls : List Request
some_calls =
    save clock (str "nightly") edited
    ∷ toggle clock (str "nightly")
    ∷ fire_manual clock (str "nightly")
    ∷ clear
    ∷ delete (str "nightly")
    ∷ []

posts-AllAsk : AllAsk readers (λ s. ok s) some_posts some_calls
unfolding str
posts-AllAsk =
    one_more (asks_save clock (browser (str "/v1/schedules")) edited (str "nightly") edit_form_read)
      (one_more
        (asks_action clock (browser (str "/v1/schedules/nightly/pause")) (str "nightly") toggle_it
          refl refl refl)
        (one_more
          (asks_action clock (browser (str "/v1/schedules/nightly/run")) (str "nightly") run_now
            refl refl refl)
          (one_more (asks_clear clock (browser (str "/v1/runs/clear"))) (
            one_more
              (asks_action clock (browser (str "/v1/schedules/nightly/delete")) (str "nightly")
                delete_it refl refl refl)
              no_more))))

serve_all-perform_all_example :
    serve_all sample_world readers (λ s. s) (λ s. ok s) some_posts resting
    ≡ perform_all sample_world some_calls resting
serve_all-perform_all_example =
    serve_all-perform_all sample_world readers (λ s. s) (λ s. ok s) posts-AllAsk resting

path_round_trip_example :
    schedule_action_from_path (λ s. ok s) (str "/v1/schedules/" ++ (str "nightly" ++ str "/pause"))
    ≡ some (str "nightly", toggle_it)
unfolding str
path_round_trip_example = path_round_trip (λ s. ok s) (str "nightly") toggle_it refl refl
