-- ===== src/Datetime/System.antt =====
-- src/qtl_datetime.c, the part that asks the operating system for the time and the time zone. What the
-- system answers is an argument.
use libqtl.Base.{
  ℕ, ◌+◌, ◌*◌, ◌/◌, ◌%◌, ◌^◌, ◌-◌, Option, none, some, List, [], ◌∷◌, ltb, if◌then◌else◌, u32,
  sub32, sub64, ℤ, over,
}

-- `(long)n` on Windows, where it has 32 bits, as a 64-bit pattern.
unfoldable pub to_long : ℕ → ℕ
to_long n = let v : ℕ = u32 n in if ltb v (2 ^ 31) then v else v + (2 ^ 64 - 2 ^ 32)

-- On Windows, from the two words of a file time: `tv_sec` and `tv_usec`.
unfoldable pub gettimeofday : ℕ → ℕ → ℕ × ℕ
gettimeofday high low =
    let intervals : ℕ = sub64 (high * 2 ^ 32 + low) 116_444_736_000_000_000 in
    (to_long (intervals / 10_000_000), to_long (intervals % 10_000_000 / 10))

-- What `GetTimeZoneInformation` returns, and the members that it sets, in minutes: `long`s of 32 bits, as
-- bit patterns.
pub data TimeZoneId : Type 0 where
  unknown standard daylight invalid : TimeZoneId

pub record TimeZoneInformation : Type 0 where
  pub bias : ℕ
  pub standard_bias : ℕ
  pub daylight_bias : ℕ

-- `_gettimezone`. The sums are of 32-bit `long`s, as bit patterns; an overflow, which C leaves undefined,
-- wraps around here, as it does in the product below.
unfoldable pub gettimezone : TimeZoneId → TimeZoneInformation → ℕ
gettimezone unknown tz = sub32 0 tz.bias
gettimezone standard tz = sub32 0 (u32 (tz.bias + tz.standard_bias))
gettimezone daylight tz = sub32 0 (u32 (tz.bias + tz.daylight_bias))
gettimezone invalid tz = 0

-- `get_timezone_offset` on Windows: a 32-bit pattern too.
unfoldable pub windows_get_timezone_offset : TimeZoneId → TimeZoneInformation → ℕ
windows_get_timezone_offset id tz = u32 (gettimezone id tz * 60)

-- `get_timezone_offset` elsewhere: `localtime_r` gives `tm_gmtoff` for a time, and `sec` is what the unset
-- variable holds.
unfoldable pub get_timezone_offset : (ℤ → ℤ) → ℤ → ℤ
get_timezone_offset localtime_r sec = over (localtime_r sec) 60

pub data Platform : Type 0 where
  windows free_bsd linux other : Platform

-- The variable TZ of the environment, and the zone that the C library keeps.
pub record TimeZone (Zone : Type 0) : Type 0 where
  pub tz : Option (List ℕ)
  pub zone : Zone

-- "UTC"
abbrev pub utc : List ℕ
utc = 85 ∷ 84 ∷ 67 ∷ []

module _ {Zone : Type 0} (zone_of : Option (List ℕ) → Zone) where
  -- `tzset` sets the zone from the variable, as `localtime` does too.
  abbrev tzset : TimeZone Zone → TimeZone Zone
  tzset t = record t { zone = zone_of t.tz }

  unfoldable pub free_bsd_update : TimeZone Zone → Option (List ℕ) → TimeZone Zone
  free_bsd_update t (some name) = t
  free_bsd_update t none =
      let in_utc : TimeZone Zone = tzset (record t { tz = some utc }) in
      tzset (record in_utc { tz = none })

  unfoldable pub qtl_timezone_update : Platform → TimeZone Zone → TimeZone Zone
  qtl_timezone_update windows t = t
  qtl_timezone_update free_bsd t = free_bsd_update t t.tz
  qtl_timezone_update linux t = tzset t
  qtl_timezone_update other t = t
