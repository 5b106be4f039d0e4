-- ===== src/Store/Bolt/Sample.antt =====
-- A concrete codec and layout of keys, with the concrete database.
use clock_relay.Store.Bolt.Database.{sample_buckets, sample-BucketLaws, Bucket}
use clock_relay.Store.Bolt.Victims.{take_part}
use clock_relay.Store.Memory.Listing.{drop}
use clock_relay.Model.{RunStatus, Run, running, succeeded, failed, skipped, Time}
use clock_relay.Store.Bolt.Effects.{ok_inj}
use clock_relay.Store.Bolt.Buckets.{BoltLibrary, BoltLaws, IsImage, year_10000, is_ascii}
use clock_relay.Base.Order.{text_lt_append}
use clock_relay.Base.{
  ◌∷◌, [], Text, str, Bool-cases, length, ◌<◌, inl, Result, inr, ok, text_lt, err, ◌≡◌,
  config_error, true, arith, ap, ℕ, ◌++◌, sym, suc, ◌+◌, ◌*◌, refl, ◌/◌, zero, length-append, ltb,
  ◌-◌, ◌%◌, ◌∙◌, if◌then◌else◌, take, none, ltb→lt,
}

-- The decimal digits of a number, as many as asked for.
digits : ℕ → ℕ → Text
digits zero t = []
digits (suc w) t = digits w (t / 10) ++ (48 + t % 10) ∷ []

-- 10 to the power `w`
abbrev power : ℕ → ℕ
power zero = 1
power (suc w) = 10 * power w

length-digits : (w t : ℕ) → length (digits w t) ≡ w
unfolding digits
length-digits zero t = refl
length-digits (suc w) t =
    omega (arith, length-append (digits w (t / 10)) ((48 + t % 10) ∷ []), length-digits w (t / 10))

text_lt-common : (a s t : Text) → text_lt (a ++ s) (a ++ t) ≡ text_lt s t
unfolding text_lt
text_lt-common [] s t = refl
text_lt-common (c ∷ a) s t = ground (arith, text_lt-common a s t)

last_digit : (c d : ℕ) → c < d → text_lt ((48 + c) ∷ []) ((48 + d) ∷ []) ≡ true
unfolding text_lt
last_digit c d h = ground (arith, h)

digits-lt : (w s t : ℕ) → s < t → t < power w → text_lt (digits w s) (digits w t) ≡ true
unfolding digits
digits-lt zero s t less small = absurd (omega (arith, less, small))
digits-lt (suc w) s t less small = elim (Bool-cases (ltb (s / 10) (t / 10))) [
  | inl e ↦
      text_lt_append (digits w (s / 10)) (digits w (t / 10)) _ _
        (length-digits w (s / 10) ∙ sym (length-digits w (t / 10)))
        (digits-lt w (s / 10) (t / 10) (ground (arith, e)) (omega (arith, small)))
  | inr e ↦
      let same : s / 10 ≡ t / 10 = ground (arith, e, less) in
      rw same (
        text_lt-common (digits w (t / 10)) _ _
        ∙ last_digit (s % 10) (t % 10) (omega (arith, same, less)))
]

number : ℕ → Text → ℕ
number acc [] = acc
number acc (c ∷ s) = number (acc * 10 + (c - 48)) s

number-append :
    (acc : ℕ) (a : Text) (c : ℕ) → number acc (a ++ c ∷ []) ≡ number acc a * 10 + (c - 48)
unfolding number
number-append acc [] c = refl
number-append acc (d ∷ a) c = number-append (acc * 10 + (d - 48)) a c

number-digits : (w t : ℕ) → t < power w → number 0 (digits w t) ≡ t
unfolding number digits
number-digits zero t small = omega (arith, small)
number-digits (suc w) t small = omega (
  arith,
  number-append 0 (digits w (t / 10)) (48 + t % 10),
  number-digits w (t / 10) (omega (arith, small)),
)

abbrev status_code : RunStatus → ℕ
status_code running = 0
status_code succeeded = 1
status_code failed = 2
status_code skipped = 3

abbrev status_of : ℕ → RunStatus
status_of zero = running
status_of (suc zero) = succeeded
status_of (suc (suc zero)) = failed
status_of (suc (suc (suc c))) = skipped

status_of-code : (s : RunStatus) → status_of (status_code s) ≡ s
status_of-code running = refl
status_of-code succeeded = refl
status_of-code failed = refl
status_of-code skipped = refl

abbrev late : Text
late = str "year outside of range"

-- The start, the status, the length of the schedule's name, the name and the id.
encode_run : Run → Result Text
encode_run r =
    if ltb r.started_at year_10000
    then ok
        (r.started_at ∷ status_code r.status ∷ length r.schedule_name ∷ (r.schedule_name ++ r.id))
    else err (config_error late)

abbrev run_from : Time → ℕ → Text → Text → Run
run_from t c name id = record {
  id = id;
  schedule_name = name;
  target_type = [];
  triggered_by = [];
  status = status_of c;
  scheduled_at = t;
  started_at = t;
  finished_at = none;
  structured_output = [];
  error = [];
}

decode_run : Text → Result Run
decode_run (t ∷ c ∷ n ∷ s) =
    if ltb t year_10000 then ok (run_from t c (take n s) (drop n s)) else err (config_error late)
decode_run _ = err (config_error late)

drop_part : (a s : Text) → drop (length a) (a ++ s) ≡ s
drop_part [] s = refl
drop_part (c ∷ a) s = drop_part a s

decode-encode :
    (r : Run) (raw : Text)
    → is_ascii r.id ≡ true
    → is_ascii r.schedule_name ≡ true
    → encode_run r ≡ ok raw
    → (r' : Run) × (decode_run raw ≡ ok r') × IsImage r r'
unfolding encode_run decode_run
decode-encode r raw a b h = elim (Bool-cases (ltb r.started_at year_10000)) [
  | inl e ↦
      let parts =
        r.started_at ∷ status_code r.status ∷ length r.schedule_name ∷ (r.schedule_name ++ r.id) in
      let is_raw : parts ≡ raw = ok_inj (rw e at h) in
      let name = take (length r.schedule_name) (r.schedule_name ++ r.id) in
      let id = drop (length r.schedule_name) (r.schedule_name ++ r.id) in
      (
        run_from r.started_at (status_code r.status) name id,
        ap decode_run (sym is_raw)
            ∙ ap
                (λ b.
                  if b
                  then ok (run_from r.started_at (status_code r.status) name id)
                  else err (config_error late))
                e,
        record {
          id = drop_part r.schedule_name r.id;
          schedule_name = take_part r.schedule_name r.id (length r.schedule_name) refl;
          status = status_of-code r.status;
          started_at = refl;
        },
      )
  | inr e ↦ absurd (ground (arith, rw e at h))
]

encode-bound : (r : Run) (raw : Text) → encode_run r ≡ ok raw → r.started_at < year_10000
unfolding encode_run
encode-bound r raw h = elim (Bool-cases (ltb r.started_at year_10000)) [
  | inl e ↦ ltb→lt r.started_at year_10000 e
  | inr e ↦ absurd (ground (arith, rw e at h))
]

unfoldable pub sample_library : BoltLibrary Bucket
unfolding sample_buckets encode_run decode_run digits number
sample_library = record {
  bucket = sample_buckets;
  marshal_run = encode_run;
  unmarshal_run = decode_run;
  marshal_schedule = λ schedule. ok schedule.name;
  unmarshal_schedule = λ raw. err (config_error late);
  format_key = λ t. digits 26 t;
  parse_key = λ s. ok (number 0 s);
  commit = λ tx. ok tt;
}

pub sample_laws : BoltLaws sample_library
unfolding sample_library
sample_laws = record {
  bucket = sample-BucketLaws;
  unmarshal-marshal = decode-encode;
  marshal-bound = encode-bound;
  length-format_key = λ t h. length-digits 26 t;
  format_key-lt = λ s t less h. digits-lt 26 s t less (omega (arith, h));
  parse-format = λ t h. ap ok (number-digits 26 t (omega (arith, h)));
}
