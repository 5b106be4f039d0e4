-- ===== src/Server/Editing.antt =====
-- What the edit form does to the schedule that is edited.
use clock_relay.Config.Defaults.{normalize_schedule}
use clock_relay.Model.{Time}
use clock_relay.Engine.World.{World, CronLaws, Engine}
use clock_relay.Config.Types.{ScheduleConfig}
use clock_relay.Base.{
  contains, str, ◌≡◌, false, Text, ok, ℕ, get, some, ◌∙◌, Result-cases, arith, ap, refl,
}
use clock_relay.Server.Form.{
  FormLibrary, FormRequest, schedule_from_request, schedule_from_form, timeout_from_form,
  target_from_form, rate_interval_from_form,
}
use clock_relay.Engine.Saved.{save_schedule-IsSaved}
use clock_relay.Engine.Saving.{save_schedule}

normalized_paused : (s : ScheduleConfig) → (normalize_schedule s).paused ≡ s.paused
unfolding normalize_schedule
normalized_paused s = refl

module _ (l : FormLibrary) (r : FormRequest)
    (is_form : contains r.content_type (str "application/json") ≡ false) where
  -- A schedule that is read from a form is not paused.
  form_unpaused :
      (s : ScheduleConfig) (original : Text)
      → schedule_from_request l r ≡ ok (s, original)
      → s.paused ≡ false
  unfolding schedule_from_request schedule_from_form
  form_unpaused s original read =
      let timeout = Result-cases (timeout_from_form l r) in
      let target = Result-cases (target_from_form l r) in
      let rate = Result-cases (rate_interval_from_form l r) in ground arith

  module _ {S C : Type 0} (w : World S C) (laws : CronLaws w.cron) where
    -- An edit through the form that succeeds leaves the schedule not paused, also where the edited
    -- schedule was paused.
    pub form_edit_resumes :
        (now : ℕ → Time) (s : ScheduleConfig) (original : Text) (e : Engine S C)
        → schedule_from_request l r ≡ ok (s, original)
        → (save_schedule w now original s e).0 ≡ ok tt
        → (saved : ScheduleConfig) × (get s.name (save_schedule w now original s e).1.schedules
            ≡ some saved)
          × (saved.paused ≡ false)
    form_edit_resumes now s original e read fine =
        let h = save_schedule-IsSaved w laws now original s e fine in
        (
          h.saved,
          h.found,
          ap (λ x. x.paused) h.as_given ∙ normalized_paused s ∙ form_unpaused s original read,
        )
