-- ===== src/Datetime.antt =====
-- src/qtl_datetime.c and include/qtl.h, the part on time stamps: a `datetime_t` counts microseconds
-- from 0001-01-01T00:00:00 in 64 bits. A pointer argument that is only written is a result.
pub mod RoundTrip
pub mod BrokenDown
pub mod System
pub mod Zones
use libqtl.Base.{
  ℕ, ◌+◌, ◌*◌, ◌/◌, ◌%◌, Option, none, some, ltb, if◌then◌else◌, u16, u32, u64, sub64, ℤ, pos,
  sub_ℕ,
}
use libqtl.Calendar.{Ymd, ymd_to_rdn, rdn_to_ymd}

abbrev pub ticks_per_second : ℕ
ticks_per_second = 1_000_000

abbrev pub ticks_per_day : ℕ
ticks_per_day = 86_400_000_000

abbrev pub epoch_date_time : ℕ
epoch_date_time = 62_135_596_800_000_000

abbrev pub min_date_time : ℕ
min_date_time = 0

abbrev pub max_date_time : ℕ
max_date_time = 315_537_897_599_999_999

unfoldable pub datetime_from_ymd : ℕ → ℕ → ℕ → ℕ
datetime_from_ymd year month day = u64 (ymd_to_rdn year month day * ticks_per_day)

-- `none` where `rdn_to_ymd` reads outside its table.
unfoldable pub datetime_to_ymd : ℕ → Option Ymd
datetime_to_ymd time = rdn_to_ymd (u32 (time / ticks_per_day))

unfoldable pub datetime_from_hmsu : ℕ → ℕ → ℕ → ℕ → ℕ
datetime_from_hmsu hour minute second usec =
    let total_seconds : ℕ = u64 (hour * 3600 + minute * 60 + second) in
    u64 (total_seconds * ticks_per_second + usec)

-- What `datetime_decode` writes through its pointers.
pub record Fields : Type 0 where
  pub year : ℕ
  pub month : ℕ
  pub day : ℕ
  pub hour : ℕ
  pub minute : ℕ
  pub second : ℕ
  pub usec : ℕ

-- The stores of `datetime_decode`, after its call of `rdn_to_ymd`.
unfoldable pub decode_time : ℕ → Ymd → Fields
decode_time dt t =
    let perday : ℕ = dt % ticks_per_day in
    let sod : ℕ = u32 (perday / ticks_per_second) in
    record {
      year = t.year;
      month = t.month;
      day = t.day;
      hour = u16 (sod / 60 / 60);
      minute = u16 (sod / 60 % 60);
      second = u16 (sod % 60);
      usec = u32 (perday % ticks_per_second);
    }

unfoldable pub datetime_decode : ℕ → Option Fields
datetime_decode dt = elim (rdn_to_ymd (u32 (dt / ticks_per_day))) [
  | none ↦ none
  | some t ↦ some (decode_time dt t)
]

-- `tv_sec` and `tv_usec` are given as 64-bit patterns, to which C converts them here.
unfoldable pub datetime_from_timeval : ℕ → ℕ → ℕ
datetime_from_timeval tv_sec tv_usec =
    u64 (u64 (tv_sec * ticks_per_second + tv_usec) + epoch_date_time)

-- `struct tm`, with the members that the C standard lists.
pub record Tm : Type 0 where
  pub tm_mday : ℤ
  pub tm_yday : ℤ
  pub tm_mon : ℤ
  pub tm_year : ℤ
  pub tm_wday : ℤ
  pub tm_sec : ℤ
  pub tm_min : ℤ
  pub tm_hour : ℤ
  pub tm_isdst : ℤ

-- `before_epoch` is the return value 1, `fault` a read outside the table of `rdn_to_ymd`.
pub data TmResult : Type 0 where
  ok : Tm → TmResult
  before_epoch fault : TmResult

-- The stores of `datetime_to_tm` in `*tmp`, after its call of `rdn_to_ymd`.
unfoldable pub fill_tm : ℕ → Tm → Ymd → Tm
fill_tm dt tmp t =
    let rdn : ℕ = u32 (dt / ticks_per_day) in
    let sod : ℕ = u32 (dt % ticks_per_day / ticks_per_second) in
    record tmp {
      tm_mday = pos t.day;
      tm_yday = sub_ℕ t.yday 1;
      tm_mon = sub_ℕ t.month 1;
      tm_year = sub_ℕ t.year 1900;
      tm_wday = pos (rdn % 7);
      tm_sec = pos (sod % 60);
      tm_min = pos (sod / 60 % 60);
      tm_hour = pos (sod / 60 / 60);
    }

-- `tmp` is what the memory behind the pointer holds before the call.
unfoldable pub datetime_to_tm : ℕ → Tm → TmResult
datetime_to_tm dt tmp =
    let filled : TmResult = elim (rdn_to_ymd (u32 (dt / ticks_per_day))) [
      | none ↦ fault
      | some t ↦ ok (fill_tm dt tmp t)
    ] in
    if ltb dt (sub64 dt epoch_date_time) then before_epoch else filled

-- `gettimeofday` is the caller's: the stamp is made of what it filled in.
unfoldable pub datetime_now : ℕ × ℕ → ℕ
datetime_now tv = u64 (u64 (tv.0 * ticks_per_second + tv.1) + epoch_date_time)
