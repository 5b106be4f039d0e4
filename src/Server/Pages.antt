-- ===== src/Server/Pages.antt =====
-- What the pages of internal/server/http.go show: the runs of a job, labels and time zones.
use clock_relay.Config.Defaults.{or_default, is_empty}
use Prim.Native.Nat.{ℕ}
use clock_relay.Base.Int.{ℤ, negsuc, pos}
use clock_relay.Base.{
  Text, List, Option, str, ℕ, Map, some, map, if◌then◌else◌, ◌++◌, ◌∷◌, Result, put, get, text_eq,
  [], ◌==◌, err, any, none, keep, leb, ok, ◌||◌, ◌%◌, ◌&&◌,
}
use clock_relay.Config.Types.{ScheduleConfig}
use clock_relay.Model.{Run}

-- runView
pub record RunView : Type 0 where
  pub run : Run
  pub display_timezone : Text

abbrev timezones_of : List ScheduleConfig → Map Text → Map Text
timezones_of [] m = m
timezones_of (s ∷ l) m = timezones_of l (put s.name s.timezone m)

abbrev zone_or_utc : Option Text → Text
zone_or_utc none = str "UTC"
zone_or_utc (some zone) = or_default zone (str "UTC")

-- runViews; a missing key reads as the empty text
unfoldable pub run_views : List Run → List ScheduleConfig → List RunView
run_views runs schedules =
    map
      (λ run. record {
        run = run;
        display_timezone = zone_or_utc (get run.schedule_name (timezones_of schedules []));
      })
      runs

-- The runs that the index page shows.
unfoldable pub filtered_runs : Text → List Run → List Run
filtered_runs job runs = if is_empty job then runs else keep (λ r. text_eq r.schedule_name job) runs

abbrev pub Labels : Type 0
Labels = List (Text × Text)

abbrev pub label_of : Labels → Text → Text → Text
label_of [] other day = other ++ day
label_of ((k, label) ∷ l) other day = if text_eq day k then label else label_of l other day

abbrev weekdays : Labels
weekdays =
    (str "0", str "Sunday")
    ∷ (str "7", str "Sunday")
    ∷ (str "1", str "Monday")
    ∷ (str "2", str "Tuesday")
    ∷ (str "3", str "Wednesday")
    ∷ (str "4", str "Thursday")
    ∷ (str "5", str "Friday")
    ∷ (str "6", str "Saturday")
    ∷ []

-- weekdayLabel
unfoldable pub weekday_label : Text → Text
weekday_label = label_of weekdays (str "day ")

abbrev months : Labels
months =
    (str "1", str "Jan")
    ∷ (str "2", str "Feb")
    ∷ (str "3", str "Mar")
    ∷ (str "4", str "Apr")
    ∷ (str "5", str "May")
    ∷ (str "6", str "Jun")
    ∷ (str "7", str "Jul")
    ∷ (str "8", str "Aug")
    ∷ (str "9", str "Sep")
    ∷ (str "10", str "Oct")
    ∷ (str "11", str "Nov")
    ∷ (str "12", str "Dec")
    ∷ []

-- monthLabel
unfoldable pub month_label : Text → Text
month_label = label_of months (str "month ")

abbrev suffix_of_digit : ℕ → Text
suffix_of_digit digit =
    if digit == 1
    then str "st"
    else if digit == 2
    then str "nd"
    else if digit == 3
    then str "rd"
    else str "th"

-- The suffix of a number; Go's remainder of a negative one is not positive.
unfoldable pub suffix_of_number : ℤ → Text
suffix_of_number (negsuc n) = str "th"
suffix_of_number (pos n) =
    if leb 11 (n % 100) && leb (n % 100) 13 then str "th" else suffix_of_digit (n % 10)

-- `atoi` is strconv.Atoi and `itoa` strconv.Itoa.
module _ (atoi : Text → Result ℤ) (itoa : ℤ → Text) where
  -- ordinalSuffix
  unfoldable pub ordinal_suffix : Text → Text
  ordinal_suffix day = elim (atoi day) [ err x ↦ [] | ok n ↦ suffix_of_number n ]

  -- dayNumber
  unfoldable pub day_number : Text → Text
  day_number day = elim (atoi day) [ err x ↦ day | ok n ↦ itoa n ]

  -- ordinal
  unfoldable pub ordinal : Text → Text
  ordinal day = day_number day ++ ordinal_suffix day

-- timezoneOptions
abbrev pub timezone_options : List Text
timezone_options =
    str "UTC"
    ∷ str "America/New_York"
    ∷ str "America/Chicago"
    ∷ str "America/Denver"
    ∷ str "America/Los_Angeles"
    ∷ str "America/Phoenix"
    ∷ str "America/Anchorage"
    ∷ str "Pacific/Honolulu"
    ∷ str "America/Toronto"
    ∷ str "America/Vancouver"
    ∷ str "America/Mexico_City"
    ∷ str "America/Sao_Paulo"
    ∷ str "Europe/London"
    ∷ str "Europe/Dublin"
    ∷ str "Europe/Paris"
    ∷ str "Europe/Berlin"
    ∷ str "Europe/Amsterdam"
    ∷ str "Europe/Madrid"
    ∷ str "Europe/Rome"
    ∷ str "Europe/Stockholm"
    ∷ str "Europe/Warsaw"
    ∷ str "Europe/Istanbul"
    ∷ str "Africa/Johannesburg"
    ∷ str "Asia/Dubai"
    ∷ str "Asia/Jerusalem"
    ∷ str "Asia/Kolkata"
    ∷ str "Asia/Bangkok"
    ∷ str "Asia/Singapore"
    ∷ str "Asia/Hong_Kong"
    ∷ str "Asia/Shanghai"
    ∷ str "Asia/Tokyo"
    ∷ str "Asia/Seoul"
    ∷ str "Australia/Perth"
    ∷ str "Australia/Sydney"
    ∷ str "Pacific/Auckland"
    ∷ []

-- timezonesWithCurrent
unfoldable pub timezones_with_current : Text → List Text
timezones_with_current current =
    if any (λ option. text_eq option current) timezone_options || is_empty current
    then timezone_options
    else current ∷ timezone_options
