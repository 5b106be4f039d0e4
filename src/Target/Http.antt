-- ===== src/Target/Http.antt =====
-- triggerHTTP of internal/target/target.go. The network and net/http are an argument.
use clock_relay.Base.Spaces.{trim_space}
use clock_relay.Model.{Any, Run, string, time, number}
use clock_relay.Config.Types.{ScheduleConfig}
use clock_relay.Base.{
  ◌>>=◌, Text, ℕ, Map, Error, put, err, Result, [], Bool, ok, Option, some, ltb, str, ◌||◌, ◌∷◌,
  leb, take, none, if◌then◌else◌, external_error, ◌++◌,
}

-- A response. The body is what can be read of it, or the error with which reading stops before
-- max_output_bytes of it are read.
pub record HttpResponse : Type 0 where
  pub status_code : ℕ
  pub status : Text
  pub body : Result Text

pub record HttpRequest : Type 0 where
  pub method : Text
  pub url : Text
  pub headers : Map Text
  pub body : Text

pub record HttpLibrary : Type 0 where
  -- json.Marshal(body)
  pub marshal : Map Any → Result Text
  -- http.NewRequestWithContext(ctx, method, url, body)
  pub new_request : Text → Text → Text → Result HttpRequest
  -- textproto.CanonicalMIMEHeaderKey(key), by which Header.Set files a value
  pub canonical : Text → Text
  -- httpClient.Do(req) within the context's deadline
  pub perform : HttpRequest → Result HttpResponse
  -- strconv.Itoa, by which a status code is printed
  pub itoa : ℕ → Text

-- What TriggerTarget returns: a structured output, and an error or none. An output may stand beside
-- an error.
pub record TargetOutcome : Type 0 where
  pub structured_output : Map Any
  pub error : Option Error

abbrev pub failed_with : Error → TargetOutcome
failed_with e = record { structured_output = []; error = some e }

-- maxOutputBytes
abbrev pub max_output_bytes : ℕ
max_output_bytes = 65536

-- The default body, where the target has none.
unfoldable pub request_body : ScheduleConfig → Run → Map Any
request_body s run = elim s.target.body [
  | some body ↦ body
  | none ↦
      (str "run_id", string run.id)
      ∷ (str "schedule_name", string s.name)
      ∷ (str "scheduled_at", time run.scheduled_at)
      ∷ (str "triggered_by", string run.triggered_by)
      ∷ []
]

module _ (h : HttpLibrary) where
  -- req.Header.Set(key, value)
  abbrev pub set_header : Text → Text → HttpRequest → HttpRequest
  set_header key value req = record req { headers = put (h.canonical key) value req.headers }

  -- for key, value := range schedule.Target.Headers { req.Header.Set(key, value) }
  unfoldable pub set_headers : Map Text → HttpRequest → HttpRequest
  set_headers [] req = req
  set_headers ((key, value) ∷ m) req = set_headers m (set_header key value req)

  -- resp.StatusCode < 200 || resp.StatusCode >= 300
  abbrev pub is_failure : ℕ → Bool
  is_failure code = ltb code 200 || leb 300 code

  unfoldable pub response_outcome : HttpResponse → TargetOutcome
  response_outcome resp = elim resp.body [
    | err e ↦ failed_with e
    | ok bytes ↦ record {
      structured_output =
          (str "raw", string (trim_space (take max_output_bytes bytes)))
          ∷ (str "status_code", number (h.itoa resp.status_code))
          ∷ [];
      error =
          if is_failure resp.status_code
          then some (external_error (str "http target returned " ++ resp.status))
          else none;
    }
  ]

  -- The request that is sent.
  unfoldable pub build_request : ScheduleConfig → Run → Result HttpRequest
  build_request s run = do
    raw ← h.marshal (request_body s run)
    req ← h.new_request s.target.method s.target.url raw
    ok (
        set_headers s.target.headers (
          set_header (str "User-Agent") (str "clock-relay/0")
            (set_header (str "Content-Type") (str "application/json") req)))

  abbrev pub perform_request : Result HttpRequest → TargetOutcome
  perform_request (err e) = failed_with e
  perform_request (ok req) = elim (h.perform req) [
    | err e ↦ failed_with e
    | ok resp ↦ response_outcome resp
  ]

  -- triggerHTTP
  unfoldable pub trigger_http : ScheduleConfig → Run → TargetOutcome
  unfolding build_request response_outcome
  trigger_http s run = perform_request (build_request s run)
