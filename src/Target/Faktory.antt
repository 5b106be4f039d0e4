-- ===== src/Target/Faktory.antt =====
-- internal/target/target_faktory.go. The Faktory client package, the URL parser, the environment and
-- the context are an argument.
use clock_relay.Base.Sorting.{sort}
use clock_relay.Base.Int.{ltb_ℤ, pos}
use clock_relay.Config.Defaults.{is_empty, or_default}
use clock_relay.Config.Validate.{fail_if, wrap}
use clock_relay.Target.Http.{TargetOutcome, failed_with}
use clock_relay.Config.Types.{ScheduleConfig, FaktoryInstance}
use clock_relay.Model.{Duration, Any, string}
use clock_relay.Base.{
  Text, List, Option, Map, none, Result, Bool, Error, err, ◌>>◌, some, if◌then◌else◌, ◌>>=◌, ℕ, [],
  config_error, str, contains, ok, ◌++◌, not, ◌∷◌, text_eq, text_lt, ◌||◌,
}

-- A job of the client package, with the fields that the program reads or sets.
pub record FaktoryJob : Type 0 where
  pub jid : Text
  pub type : Text
  pub queue : Text
  pub args : List Any

-- A server of the client package.
pub record FaktoryServer : Type 0 where
  pub network : Text
  pub address : Text
  pub password : Text
  pub timeout : Duration
  pub tls : Bool

pub record ParsedUrl : Type 0 where
  pub scheme : Text
  pub host : Text

-- `Client` is an open connection.
pub record FaktoryLibrary (Client : Type 0) : Type 0 where
  -- ctx.Err() at the start
  pub context_error : Option Error
  -- time.Until(deadline), if the context has a deadline
  pub time_left : Option Duration
  -- faktory.DefaultServer()
  pub default_server : FaktoryServer
  -- faktory.NewJob(job_type, args...)
  pub new_job : Text → List Any → FaktoryJob
  -- server.Open()
  pub open_server : FaktoryServer → Result Client
  -- client.Push(job)
  pub push : Client → FaktoryJob → Result (Unit {0})
  -- client.QueueSizes()
  pub queue_sizes : Client → Result (Map ℕ)
  -- url.Parse
  pub parse_url : Text → Result ParsedUrl
  -- os.Getenv
  pub getenv : Text → Text

-- A nil slice is passed on as an empty one.
abbrev pub args_or_empty : Option (List Any) → List Any
args_or_empty none = []
args_or_empty (some args) = args

-- resolveFaktoryInstance
unfoldable pub resolve_faktory_instance :
    ScheduleConfig → List FaktoryInstance → Result FaktoryInstance
resolve_faktory_instance s [] =
    err (config_error (str "unknown faktory instance: " ++ s.target.instance_name))
resolve_faktory_instance s (i ∷ is) =
    let rest = resolve_faktory_instance s is in
    if text_eq i.name s.target.instance_name then ok i else rest

-- faktoryTargetResult
unfoldable pub faktory_target_result : FaktoryJob → Map Any
faktory_target_result job =
    (
      str "raw",
      string (
          str "faktory jid="
          ++ (job.jid ++ (str " queue=" ++ (job.queue ++ (str " job_type=" ++ job.type))))),
    )
    ∷ (str "provider", string (str "faktory"))
    ∷ (str "jid", string job.jid)
    ∷ (str "queue", string job.queue)
    ∷ (str "job_type", string job.type)
    ∷ []

module _ {Client : Type 0} (f : FaktoryLibrary Client) where
  -- buildFaktoryJob
  unfoldable pub build_faktory_job : ScheduleConfig → Result FaktoryJob
  build_faktory_job s = do
    fail_if (is_empty s.target.job_type) (config_error (str "faktory target job_type is required"))
    let job = f.new_job s.target.job_type (args_or_empty s.target.args)
    ok (record job { queue = or_default s.target.queue (str "default") })

  -- faktoryPassword
  unfoldable pub faktory_password : FaktoryInstance → Text
  faktory_password i = if is_empty i.password_env then [] else f.getenv i.password_env

  abbrev pub timed_server : FaktoryServer
  timed_server = elim f.time_left [
    | none ↦ f.default_server
    | some left ↦
        if ltb_ℤ (pos 0) left
        then record (f.default_server) { timeout = left }
        else f.default_server
  ]

  -- The part of faktoryServer for an address with a scheme.
  unfoldable pub url_server : FaktoryInstance → ParsedUrl → Result FaktoryServer
  unfolding faktory_password
  url_server i parsed = do
    fail_if (not (text_eq parsed.scheme (str "tcp") || text_eq parsed.scheme (str "tcp+tls")))
        (config_error (str "unsupported faktory url scheme: " ++ parsed.scheme))
    fail_if (is_empty parsed.host) (config_error (str "faktory url must include host and port"))
    ok (record (timed_server) {
      network = parsed.scheme;
      address = parsed.host;
      tls = text_eq parsed.scheme (str "tcp+tls") || timed_server.tls;
      password = faktory_password i;
    })

  -- faktoryServer
  unfoldable pub faktory_server : FaktoryInstance → Result FaktoryServer
  unfolding faktory_password url_server
  faktory_server i =
      if contains i.url (str "://")
      then wrap (str "parse faktory url: ") (f.parse_url i.url) >>= url_server i
      else ok (record (timed_server) {
        network = str "tcp";
        address = i.url;
        password = faktory_password i;
      })

  -- openFaktoryClient
  unfoldable pub open_faktory_client : FaktoryInstance → Result Client
  unfolding faktory_server
  open_faktory_client i = do server ← faktory_server i; f.open_server server

  abbrev pub context_check : Option Error → Result (Unit {0})
  context_check none = ok tt
  context_check (some e) = err e

  -- The job that triggerFaktory has pushed, or its error.
  unfoldable pub push_faktory_job : ScheduleConfig → List FaktoryInstance → Result FaktoryJob
  push_faktory_job s instances = do
    context_check f.context_error
    i ← resolve_faktory_instance s instances
    job ← build_faktory_job s
    client ← open_faktory_client i
    f.push client job
    ok job

  abbrev pub job_outcome : Result FaktoryJob → TargetOutcome
  job_outcome (err e) = failed_with e
  job_outcome (ok job) = record { structured_output = faktory_target_result job; error = none }

  -- triggerFaktory
  unfoldable pub trigger_faktory : ScheduleConfig → List FaktoryInstance → TargetOutcome
  unfolding push_faktory_job
  trigger_faktory s instances = job_outcome (push_faktory_job s instances)

  abbrev keys : Map ℕ → List Text
  keys [] = []
  keys ((k, n) ∷ m) = k ∷ keys m

  -- FaktoryQueues
  unfoldable pub faktory_queues : FaktoryInstance → Result (List Text)
  unfolding open_faktory_client
  faktory_queues i = do
    client ← open_faktory_client i
    sizes ← f.queue_sizes client
    ok (sort (λ a b. not (text_lt b a)) (keys sizes))
