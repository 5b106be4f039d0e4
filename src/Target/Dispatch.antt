-- ===== src/Target/Dispatch.antt =====
-- TriggerTarget of internal/target/target.go, and which schedules can be dispatched.
use clock_relay.Config.Soundness.{validate_iff_IsValidConfig}
use clock_relay.Config.Defaults.{or_default, normalize_schedule}
use clock_relay.Platform.{Platform}
use mathlib.Core.Bool.{false≢true}
use clock_relay.Config.Spec.{collect, IsValidSchedule, AreValidSchedules}
use clock_relay.Config.Validate.{find_instance, member, validate}
use clock_relay.Model.{Run}
use clock_relay.Config.Types.{ScheduleConfig, FaktoryInstance, Config}
use clock_relay.Target.Faktory.{
  FaktoryLibrary, trigger_faktory, resolve_faktory_instance, FaktoryJob, build_faktory_job,
  args_or_empty,
}
use clock_relay.Target.Http.{
  HttpLibrary, TargetOutcome, trigger_http, failed_with, HttpRequest, HttpResponse, build_request,
}
use clock_relay.Base.{
  List, if◌then◌else◌, text_eq, str, config_error, ◌++◌, ◌≡◌, Text, ok, ◌≢◌, ◌↔◌, [], some, true,
  ◌∷◌, ◌⊎◌, Bool-cases, inl, false, inr, refl, arith, none, Result-cases, All, ◌≤◌, ◌<◌,
}

module _ {Client : Type 0} (h : HttpLibrary) (f : FaktoryLibrary Client) where
  -- TriggerTarget
  unfoldable pub trigger_target : ScheduleConfig → Run → List FaktoryInstance → TargetOutcome
  trigger_target s run instances =
      if text_eq s.target.type (str "http")
      then trigger_http h s run
      else if text_eq s.target.type (str "faktory")
      then trigger_faktory f s instances
      else failed_with (config_error (str "unsupported target type: " ++ s.target.type))

member_tail :
    (name j : Text) (seen : List Text)
    → text_eq j name ≡ false
    → member name (j ∷ seen) ≡ true
    → member name seen ≡ true
unfolding member
member_tail name j seen e m = ground arith

not-member-nil : (name : Text) → ¬ (member name [] ≡ true)
unfolding member
not-member-nil name h = false≢true h

-- A collected name is the name of an instance.
member-collect :
    (name : Text) (is : List FaktoryInstance) (seen : List Text)
    → member name (collect seen is) ≡ true
    → (member name seen ≡ true) ⊎ ((i : FaktoryInstance) × (find_instance name is ≡ some i))
unfolding find_instance
member-collect name [] seen h = inl h
member-collect name (i ∷ is) seen h = elim (Bool-cases (text_eq i.name name)) [
  | inl e ↦ rw e (inr (i, refl))
  | inr e ↦ rw e (elim (member-collect name is (i.name ∷ seen) h) [
    | inl m ↦ inl (member_tail name i.name seen e m)
    | inr found ↦ inr found
  ])
]

-- The two lookups of an instance agree.
pub resolve-eq-find :
    (s : ScheduleConfig) (is : List FaktoryInstance) (i : FaktoryInstance)
    → (resolve_faktory_instance s is ≡ ok i) ↔ (find_instance s.target.instance_name is ≡ some i)
unfolding resolve_faktory_instance find_instance
resolve-eq-find s [] i = ((λ e. cc), (λ e. cc))
resolve-eq-find s (j ∷ is) i = elim (Bool-cases (text_eq j.name s.target.instance_name)) [
  | inl e ↦ rw e ((λ h. cc), (λ h. cc))
  | inr e ↦ rw e (resolve-eq-find s is i)
]

-- What it takes to dispatch a run of a schedule: an HTTP address, or an instance and a job with a
-- queue.
pub data IsDispatchable {Client : Type 0} (f : FaktoryLibrary Client) (is : List FaktoryInstance)
    (s : ScheduleConfig) : Type 0 where
  by_http : s.target.type ≡ str "http" → s.target.url ≢ [] → IsDispatchable f is s
  by_faktory :
      s.target.type ≡ str "faktory"
      → (i : FaktoryInstance) → resolve_faktory_instance s is ≡ ok i
      → (job : FaktoryJob) → build_faktory_job f s ≡ ok job
      → job.queue ≢ []
      → IsDispatchable f is s

found_instance :
    (s : ScheduleConfig) (is : List FaktoryInstance)
    → member s.target.instance_name (collect [] is) ≡ true
    → (i : FaktoryInstance) × (resolve_faktory_instance s is ≡ ok i)
found_instance s is m = elim (member-collect s.target.instance_name is [] m) [
  | inl none_seen ↦ absurd (not-member-nil _ none_seen)
  | inr (i, found) ↦ (i, (resolve-eq-find s is i).1 found)
]

module _ {Client : Type 0} (f : FaktoryLibrary Client) where
  built_job :
      (s : ScheduleConfig)
      → s.target.job_type ≢ []
      → (job : FaktoryJob) × (build_faktory_job f s ≡ ok job) × (job.queue ≢ [])
  unfolding build_faktory_job str
  built_job s h = (
    record (f.new_job s.target.job_type (args_or_empty s.target.args)) {
      queue = or_default s.target.queue (str "default");
    },
    ground arith,
    ground arith,
  )

  valid-IsDispatchable :
      (p : Platform) (is : List FaktoryInstance) (s : ScheduleConfig)
      → IsValidSchedule p (collect [] is) s
      → IsDispatchable f is s
  valid-IsDispatchable p is s v = elim v.target [
    | inl (kind, url) ↦ by_http kind url
    | inr (kind, named, typed) ↦
        let (i, found) = found_instance s is (v.resolved kind) in
        let (job, built, queued) = built_job s typed in by_faktory kind i found job built queued
  ]

  All-IsDispatchable :
      (p : Platform) (is : List FaktoryInstance) (seen : List Text) (l : List ScheduleConfig)
      → AreValidSchedules p (collect [] is) seen l
      → All (λ s. IsDispatchable f is (normalize_schedule s)) l
  All-IsDispatchable p is seen [] h = tt
  All-IsDispatchable p is seen (s ∷ l) h = (
    valid-IsDispatchable p is (normalize_schedule s) h.0,
    All-IsDispatchable p is (s.name ∷ seen) l h.2,
  )

  -- Every schedule of a configuration that Validate accepts can be dispatched: it has an HTTP address,
  -- or its Faktory instance is found and its job is built and has a queue.
  pub validate-IsDispatchable :
      (p : Platform) (c : Config)
      → validate p c ≡ ok tt
      → All (λ s. IsDispatchable f c.faktory (normalize_schedule s)) c.schedules
  validate-IsDispatchable p c accepted =
      All-IsDispatchable p c.faktory [] c.schedules
        ((validate_iff_IsValidConfig p c).0 accepted).schedules

module _ (h : HttpLibrary) where
  -- The request is built and answered with a status of success, and the answer can be read.
  abbrev pub Answered : ScheduleConfig → Run → Type 0
  Answered s run =
      (req : HttpRequest) × (resp : HttpResponse) × (bytes : Text) × (build_request h s run
        ≡ ok req)
      × (h.perform req ≡ ok resp)
      × (resp.body ≡ ok bytes)
      × (200 ≤ resp.status_code)
      × (resp.status_code < 300)

  trigger_forward :
      (s : ScheduleConfig) (run : Run) → (trigger_http h s run).error ≡ none → Answered s run
  unfolding trigger_http
  trigger_forward s run e = elim (Result-cases (build_request h s run)) [
    | inl (req, built) ↦ elim (Result-cases (h.perform req)) [
      | inl (resp, sent) ↦ elim (Result-cases resp.body) [
        | inl (bytes, got) ↦ (req, resp, bytes, built, sent, got, ground arith, ground arith)
        | inr failed ↦ absurd (ground (arith, failed.1, sent, built, e))
      ]
      | inr failed ↦ absurd (ground (arith, failed.1, built, e))
    ]
    | inr failed ↦ absurd (ground (arith, failed.1, e))
  ]

  trigger_backward :
      (s : ScheduleConfig) (run : Run) → Answered s run → (trigger_http h s run).error ≡ none
  unfolding trigger_http
  trigger_backward s run (req, resp, bytes, built, sent, got, low, high) = ground arith

  -- triggerHTTP succeeds exactly if the request is built and answered, the answer can be read, and
  -- its status is one of 200 to 299.
  pub trigger_http_succeeds :
      (s : ScheduleConfig) (run : Run) → ((trigger_http h s run).error ≡ none) ↔ Answered s run
  unfolding trigger_http
  trigger_http_succeeds s run = (trigger_forward s run, trigger_backward s run)
