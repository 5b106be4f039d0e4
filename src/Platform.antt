-- ===== src/Platform.antt =====
-- What the program calls of the tz database, of time's layouts, of crypto/sha1, and of yaml and the
-- file system. Each is an argument of the definitions that use it.
use clock_relay.Base.{ℕ, Text, Result}
use clock_relay.Model.{Time}

-- A loaded *time.Location, by a handle.
abbrev pub Location : Type 0
Location = ℕ

pub record Platform : Type 0 where
  -- time.LoadLocation(name)
  pub load_location : Text → Result Location
  -- time.ParseInLocation(layout, raw, location)
  pub parse_in_location : Text → Text → Location → Result Time
  -- time.Parse(time.RFC3339, raw)
  pub parse_rfc3339 : Text → Result Time
  -- t.UTC().Format(time.RFC3339Nano)
  pub format_rfc3339_nano : Time → Text
  -- hex.EncodeToString(sha1.Sum(data))
  pub sha1_hex : Text → Text
