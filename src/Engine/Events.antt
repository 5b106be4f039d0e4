-- ===== src/Engine/Events.antt =====
-- logRunEvent and runSummaryOutputAttrs of internal/engine/engine.go.
use clock_relay.Config.Defaults.{is_empty}
use Prim.Native.Nat.{min}
use clock_relay.Base.Int.{ℤ, pos, half_word, sub_ℕ}
use clock_relay.Engine.World.{Attrs, Engine, value, instant, text, milliseconds, status, output}
use clock_relay.Model.{Run, Time, Any}
use clock_relay.Base.{
  Text, Option, List, Map, [], ◌∷◌, if◌then◌else◌, Bool, some, get, text_eq, leb, true, ◌++◌, str,
  false, none, ◌-◌, ◌/◌, ◌&&◌, not,
}

-- `if value, ok := output[field]; ok { attrs = append(attrs, name, value) }`
abbrev pub output_attr : Text → Option Any → Attrs
output_attr name none = []
output_attr name (some v) = (name, value v) ∷ []

abbrev output_attrs : List Text → Map Any → Attrs
output_attrs [] out = []
output_attrs (field ∷ fields) out = output_attr field (get field out) ++ output_attrs fields out

-- runSummaryOutputAttrs
unfoldable pub run_summary_output_attrs : Run → Attrs
run_summary_output_attrs run =
    if text_eq run.target_type (str "http")
    then output_attr (str "http_status_code") (get (str "status_code") run.structured_output)
    else if text_eq run.target_type (str "faktory")
    then output_attrs (str "provider" ∷ str "jid" ∷ str "queue" ∷ str "job_type" ∷ [])
        run.structured_output
    else []

-- Milliseconds of the difference of two times, which is cut to 64 bits and rounded towards zero.
abbrev pub milliseconds_between : Time → Time → ℤ
milliseconds_between start end =
    if leb start end
    then pos (min (end - start) (half_word - 1) / 1000000)
    else sub_ℕ 0 (min (start - end) half_word / 1000000)

abbrev finished_attrs : Time → Option Time → Attrs
finished_attrs started none = []
finished_attrs started (some t) =
    (str "finished_at", instant t)
    ∷ (str "duration_ms", milliseconds (milliseconds_between started t))
    ∷ []

-- The attributes of the record that logRunEvent emits.
unfoldable pub event_attrs : Text → Run → Attrs
unfolding run_summary_output_attrs
event_attrs mode run =
    ((str "run_id", text run.id)
      ∷ (str "schedule", text run.schedule_name)
      ∷ (str "target_type", text run.target_type)
      ∷ (str "triggered_by", text run.triggered_by)
      ∷ (str "status", status run.status)
      ∷ (str "scheduled_at", instant run.scheduled_at)
      ∷ (str "started_at", instant run.started_at)
      ∷ [])
    ++ (finished_attrs run.started_at run.finished_at
        ++ ((if is_empty run.error then [] else (str "error", text run.error) ∷ [])
            ++ (run_summary_output_attrs run
                ++ (if text_eq mode (str "full") && not (is_nil run.structured_output)
                    then (str "structured_output", output run.structured_output) ∷ []
                    else []))))
  where
    is_nil : Map Any → Bool
    is_nil [] = true
    is_nil (x ∷ m) = false

-- logRunEvent
unfoldable pub log_run_event : {S C : Type 0} → Run → Engine S C → Engine S C
log_run_event run e =
    let mode = e.cfg.run_logging.stdout in
    if text_eq mode (str "off") then e else record e { events = event_attrs mode run ∷ e.events }
