-- ===== src/Config/Soundness.antt =====
-- Config.Validate accepts exactly the valid configurations.
use clock_relay.Config.Defaults.{normalize_schedule}
use clock_relay.Base.Int.{pos_part, pos}
use clock_relay.Platform.{Platform, Location}
use clock_relay.Base.{
  List, Text, [], ◌∷◌, str, text_eq_iff, ne_of_text_eq, ◌≡◌, arith, refl, ok, text_eq, Bool-cases,
  inl, Result-cases, inr, ◌≢◌, false, true, contains, ◌↔◌, subst, ℕ,
}
use clock_relay.Config.Types.{
  TargetConfig, FaktoryInstance, ScheduleConfig, Config, RunRetentionConfig, RunLoggingConfig,
}
use clock_relay.Config.Validate.{
  validate_target, validate_instances, validate_schedule_timing, validate_schedule_body,
  valid_schedule_name, parse_local_date_time, member, validate_schedules, all_name_bytes, validate,
  validate_run_retention, validate_run_logging, is_logging_mode,
}
use clock_relay.Config.Spec.{
  IsValidTarget, IsValidInstances, collect, IsValidTiming, IsValidSchedule, valid_once, valid_rate,
  valid_cron, AreValidSchedules, IsValidConfig,
}

http_ne_faktory : ¬ (str "http" ≡ str "faktory")
unfolding str text_eq
http_ne_faktory = ne_of_text_eq _ _ refl

validate_target_sound :
    (t : TargetConfig) (n : Text) → validate_target t n ≡ ok tt → IsValidTarget t
unfolding validate_target
validate_target_sound t n h =
    ground (arith, text_eq_iff t.type (str "http"), text_eq_iff t.type (str "faktory"))

validate_target_complete :
    (t : TargetConfig) (n : Text) → IsValidTarget t → validate_target t n ≡ ok tt
unfolding validate_target
validate_target_complete t n h =
    ground
      (arith, text_eq_iff t.type (str "http"), text_eq_iff t.type (str "faktory"), http_ne_faktory)

validate_instances_sound :
    (is : List FaktoryInstance) (seen names : List Text)
    → validate_instances is seen ≡ ok names
    → IsValidInstances seen is × (names ≡ collect seen is)
unfolding validate_instances
validate_instances_sound [] seen names h = (tt, cc)
validate_instances_sound (i ∷ is) seen names h =
    ground (arith, validate_instances_sound is (i.name ∷ seen) names)

validate_instances_complete :
    (is : List FaktoryInstance) (seen : List Text)
    → IsValidInstances seen is
    → validate_instances is seen ≡ ok (collect seen is)
unfolding validate_instances
validate_instances_complete [] seen h = refl
validate_instances_complete (i ∷ is) seen h =
    ground (arith, validate_instances_complete is (i.name ∷ seen))

kinds_differ :
    ¬ (str "once" ≡ str "rate") × ¬ (str "once" ≡ str "cron") × ¬ (str "rate" ≡ str "cron")
unfolding str text_eq
kinds_differ = (ne_of_text_eq _ _ refl, ne_of_text_eq _ _ refl, ne_of_text_eq _ _ refl)

has_instance : (t : TargetConfig) → t.type ≡ str "faktory" → IsValidTarget t → t.instance_name ≢ []
has_instance t e v = ground (arith, http_ne_faktory)

max_records_of :
    (r : RunRetentionConfig) → validate_run_retention r ≡ ok tt → (n : ℕ) × (r.max_records ≡ pos n)
unfolding validate_run_retention
max_records_of r h = (pos_part r.max_records, ground arith)

max_age_of :
    (r : RunRetentionConfig) → validate_run_retention r ≡ ok tt → (n : ℕ) × (r.max_age_days ≡ pos n)
unfolding validate_run_retention
max_age_of r h = (pos_part r.max_age_days, ground arith)

mode_of : (l : RunLoggingConfig) → validate_run_logging l ≡ ok tt → is_logging_mode l.stdout ≡ true
unfolding validate_run_logging
mode_of l h = ground arith

module _ (p : Platform) where
  validate_schedule_timing_sound :
      (s : ScheduleConfig) → validate_schedule_timing p s ≡ ok tt → IsValidTiming p s
  unfolding validate_schedule_timing
  validate_schedule_timing_sound s h = elim (Bool-cases (text_eq s.schedule_type (str "once"))) [
    | inl once ↦ elim (Result-cases (parse_local_date_time p s.run_at s.timezone)) [
      | inl parsed ↦ valid_once ((text_eq_iff _ _).0 once) (ground arith) parsed
      | inr failed ↦ ground arith
    ]
    | inr not_once ↦ elim (Bool-cases (text_eq s.schedule_type (str "rate"))) [
      | inl rate ↦ elim (Result-cases (parse_local_date_time p s.starts_at s.timezone)) [
        | inl parsed ↦
            valid_rate ((text_eq_iff _ _).0 rate) (ground arith) parsed (pos_part s.rate_interval)
              (ground arith) (ground arith) (ground arith)
        | inr failed ↦ ground arith
      ]
      | inr not_rate ↦ valid_cron ((text_eq_iff _ _).0 (ground arith)) (ground arith)
    ]
  ]

  validate_schedule_timing_complete :
      (s : ScheduleConfig) → IsValidTiming p s → validate_schedule_timing p s ≡ ok tt
  unfolding validate_schedule_timing
  validate_schedule_timing_complete s (valid_once k r (t, e)) =
      ground (arith, text_eq_iff s.schedule_type (str "once"))
  validate_schedule_timing_complete s (valid_rate k r (t, e) n i z u) = ground (
    arith,
    kinds_differ,
    text_eq_iff s.schedule_type (str "once"),
    text_eq_iff s.schedule_type (str "rate"),
  )
  validate_schedule_timing_complete s (valid_cron k c) = ground (
    arith,
    kinds_differ,
    text_eq_iff s.schedule_type (str "once"),
    text_eq_iff s.schedule_type (str "rate"),
    text_eq_iff s.schedule_type (str "cron"),
  )

  module _ (is seen : List Text) (s : ScheduleConfig) where
    -- The checks that the body has passed.
    passed_checks :
        validate_schedule_body p is seen s ≡ ok tt
        → (s.name ≢ [])
          × (all_name_bytes s.name ≡ true)
          × (contains s.name (str "..") ≡ false)
          × (member s.name seen ≡ false)
          × (validate_schedule_timing p s ≡ ok tt)
          × (validate_target s.target s.name ≡ ok tt)
          × (s.target.type ≡ str "faktory"
              → s.target.instance_name ≢ []
              → member s.target.instance_name is ≡ true)
    unfolding validate_schedule_body valid_schedule_name
    passed_checks h = ground (arith, text_eq_iff s.target.type (str "faktory"))

    passed_zone :
        validate_schedule_body p is seen s ≡ ok tt
        → (l : Location) × (p.load_location s.timezone ≡ ok l)
    unfolding validate_schedule_body
    passed_zone h = elim (Result-cases (p.load_location s.timezone)) [
      | inl loaded ↦ loaded
      | inr failed ↦ ground arith
    ]

    validate_schedule_body_sound :
        validate_schedule_body p is seen s ≡ ok tt
        → IsValidSchedule p is s × (member s.name seen ≡ false)
    validate_schedule_body_sound h =
        let (named, spelled, no_dots, fresh, timing, target, resolved) = passed_checks h in
        let valid : IsValidTarget s.target = validate_target_sound s.target s.name target in
        (
          record {
            named = named;
            spelled = spelled;
            no_dots = no_dots;
            zone = passed_zone h;
            timing = validate_schedule_timing_sound s timing;
            target = valid;
            resolved = λ e. resolved e (has_instance s.target e valid);
          },
          fresh,
        )

    validate_schedule_body_complete :
        IsValidSchedule p is s
        → member s.name seen ≡ false
        → validate_schedule_body p is seen s ≡ ok tt
    unfolding validate_schedule_body valid_schedule_name
    validate_schedule_body_complete v fresh = ground (
      arith,
      text_eq_iff s.target.type (str "faktory"),
      validate_schedule_timing_complete s v.timing,
      validate_target_complete s.target s.name v.target,
      v.named,
      v.spelled,
      v.no_dots,
      v.zone.1,
      v.resolved,
    )

  validate_schedules_sound :
      (is seen : List Text) (l : List ScheduleConfig)
      → validate_schedules p is seen l ≡ ok tt
      → AreValidSchedules p is seen l
  unfolding validate_schedules normalize_schedule
  validate_schedules_sound is seen [] h = tt
  validate_schedules_sound is seen (s ∷ l) h =
      let (first, rest) : (validate_schedule_body p is seen (normalize_schedule s) ≡ ok tt)
          × (validate_schedules p is (s.name ∷ seen) l ≡ ok tt) =
        ground arith in
      let (valid, fresh) = validate_schedule_body_sound is seen (normalize_schedule s) first in
      (valid, fresh, validate_schedules_sound is (s.name ∷ seen) l rest)

  validate_schedules_complete :
      (is seen : List Text) (l : List ScheduleConfig)
      → AreValidSchedules p is seen l
      → validate_schedules p is seen l ≡ ok tt
  unfolding validate_schedules normalize_schedule
  validate_schedules_complete is seen [] h = refl
  validate_schedules_complete is seen (s ∷ l) h = ground (
    arith,
    validate_schedule_body_complete is seen (normalize_schedule s) h.0 h.1,
    validate_schedules_complete is (s.name ∷ seen) l h.2,
  )

  passed_parts :
      (c : Config)
      → validate p c ≡ ok tt
      → (validate_run_retention c.run_retention ≡ ok tt)
        × (validate_run_logging c.run_logging ≡ ok tt)
        × ((is : List Text) × (validate_instances c.faktory [] ≡ ok is)
            × (validate_schedules p is [] c.schedules ≡ ok tt))
  unfolding validate
  passed_parts c h = elim (Result-cases (validate_instances c.faktory [])) [
    | inl (is, e) ↦ (ground arith, ground arith, (is, e, ground arith))
    | inr failed ↦ ground arith
  ]

  validate_sound : (c : Config) → validate p c ≡ ok tt → IsValidConfig p c
  validate_sound c h =
      let (retention, logging, (is, collected, schedules)) = passed_parts c h in
      let (instances, names) = validate_instances_sound c.faktory [] is collected in
      record {
        records = max_records_of c.run_retention retention;
        age = max_age_of c.run_retention retention;
        logging = mode_of c.run_logging logging;
        instances = instances;
        schedules =
            subst (λ n. AreValidSchedules p n [] c.schedules) names
              (validate_schedules_sound is [] c.schedules schedules);
      }

  validate_complete : (c : Config) → IsValidConfig p c → validate p c ≡ ok tt
  unfolding validate validate_run_retention validate_run_logging
  validate_complete c v = ground (
    arith,
    v.records.1,
    v.age.1,
    v.logging,
    validate_instances_complete c.faktory [] v.instances,
    validate_schedules_complete (collect [] c.faktory) [] c.schedules v.schedules,
  )

  -- Validate accepts a configuration exactly if it is valid: retention is not negative, the logging
  -- mode is known, Faktory instances have names and addresses and no two share a name, and the
  -- schedules, after the defaults of NormalizeSchedule, have distinct well-spelled names, a known
  -- time zone, the fields of their kind of timing, a complete target and a known instance.
  pub validate_iff_IsValidConfig : (c : Config) → (validate p c ≡ ok tt) ↔ IsValidConfig p c
  validate_iff_IsValidConfig c = (validate_sound c, validate_complete c)
