-- ===== src/Datetime/BrokenDown.antt =====
-- `datetime_to_tm`, `datetime_from_timeval` and `datetime_now`: stamps against the Unix epoch.
use libqtl.Base.{
  true, false, ◌^◌, ℕ, zero, suc, ◌+◌, ◌-◌, ◌*◌, ◌/◌, ◌%◌, ◌≤◌, ◌<◌, ◌≡◌, ◌∙◌, ◌↔◌, refl, ap, some,
  arith, u32, sub64, ltb, pos,
}
use libqtl.Calendar.Months.{tables}
use libqtl.Calendar.{Ymd, leap_year, ymd_to_rdn, rdn_to_ymd}
use libqtl.Calendar.RoundTrip.{
  rdn_to_ymd-ymd_to_rdn, ymd_to_rdn_lem, leap_le, leap_day, day_in_month, day_of_year,
}
use libqtl.Datetime.{
  ticks_per_day, epoch_date_time, Tm, ok, before_epoch, datetime_from_timeval, datetime_to_tm,
  datetime_now, fill_tm, Fields,
}
use libqtl.Datetime.RoundTrip.{IsFields, stamp, stamp-Parts, stamp_lem}

-- A Unix time with less than 1000000 microseconds is shifted by the stamp of the epoch, when the sum fits
-- in 64 bits, whether it comes from the caller or the clock.
pub from_timeval_lem :
    (sec usec : ℕ)
    → usec < 1_000_000
    → sec * 1_000_000 + usec + epoch_date_time < 2 ^ 64
    → (datetime_from_timeval sec usec ≡ sec * 1_000_000 + usec + epoch_date_time)
      × (datetime_now (sec, usec) ≡ datetime_from_timeval sec usec)
unfolding datetime_from_timeval datetime_now
from_timeval_lem sec usec h k = (omega arith, refl)

-- The guard of `datetime_to_tm` is a test for stamps before the epoch, by wrap-around.
epoch_guard :
    (dt : ℕ) → dt < 2 ^ 64 → (ltb dt (sub64 dt epoch_date_time) ≡ true) ↔ (dt < epoch_date_time)
epoch_guard dt h = (λ e. ground arith, λ e. ground arith)

-- `datetime_to_tm` refuses exactly the 64-bit stamps before 1970-01-01T00:00:00.
pub before_epoch_iff :
    (dt : ℕ) (tmp : Tm)
    → dt < 2 ^ 64
    → (datetime_to_tm dt tmp ≡ before_epoch) ↔ (dt < epoch_date_time)
unfolding datetime_to_tm
before_epoch_iff dt tmp h = (λ e. ground arith, λ e. ground arith)

year_of_epoch : (t : Fields) → IsFields t → epoch_date_time ≤ stamp t → 1970 ≤ t.year
year_of_epoch t v h = omega (
  arith,
  stamp_lem t v,
  ymd_to_rdn_lem t.year t.month t.day v.date,
  (tables (leap_year t.year) t.month v.date.month_in.0 v.date.month_in.1).in_year,
  day_in_month t.year t.month t.day v.date,
  leap_le t.year,
  leap_day t.year v.date.year_in.0,
)

-- The C conventions for `struct tm`: months and days of the year from 0, years from 1900. The day of the
-- week is the day number modulo 7, and the daylight saving flag is that of `tmp`.
abbrev pub tm_of : Tm → Fields → Tm
tm_of tmp t = record {
  tm_mday = pos t.day;
  tm_yday = pos (day_of_year t.year t.month t.day - 1);
  tm_mon = pos (t.month - 1);
  tm_year = pos (t.year - 1900);
  tm_wday = pos (ymd_to_rdn t.year t.month t.day % 7);
  tm_sec = pos t.second;
  tm_min = pos t.minute;
  tm_hour = pos t.hour;
  tm_isdst = tmp.tm_isdst;
}

fill_tm_lem :
    (tmp : Tm) (t : Fields)
    → IsFields t
    → epoch_date_time ≤ stamp t
    → fill_tm (stamp t) tmp (record {
      year = t.year;
      month = t.month;
      day = t.day;
      yday = day_of_year t.year t.month t.day;
    })
      ≡ tm_of tmp t
unfolding fill_tm
fill_tm_lem tmp t v h =
    ground (arith, stamp-Parts t v, year_of_epoch t v h, v.date.day_in, v.date.month_in)

to_tm_ok :
    (dt : ℕ) (tmp : Tm) (c : Ymd) (n : ℕ)
    → epoch_date_time ≤ dt
    → dt < 2 ^ 64
    → u32 (dt / ticks_per_day) ≡ n
    → rdn_to_ymd n ≡ some c
    → datetime_to_tm dt tmp ≡ ok (fill_tm dt tmp c)
unfolding datetime_to_tm
to_tm_ok dt tmp c n h k e f =
    let g : ltb dt (sub64 dt epoch_date_time) ≡ false = ground arith in rw (g, e, f, datetime_to_tm)

-- Breaking down the stamp of a valid date and time (years up to 65535) from 1970 on succeeds. Of the
-- members of `struct tm` that the C standard lists, all have the values that it asks for but two: the day
-- of the week is the day number modulo 7, and the daylight saving flag keeps the value that was in memory.
pub datetime_to_tm-stamp :
    (t : Fields) (tmp : Tm)
    → IsFields t
    → epoch_date_time ≤ stamp t
    → datetime_to_tm (stamp t) tmp ≡ ok (tm_of tmp t)
datetime_to_tm-stamp t tmp v h =
    to_tm_ok (stamp t) tmp _ _ h (omega arith) (stamp-Parts t v).rdn_part
      (rdn_to_ymd-ymd_to_rdn t.year t.month t.day v.date)
    ∙ ap ok (fill_tm_lem tmp t v h)

-- The day of the week, Sunday = 0, of the n-th day after 1970-01-01, a Thursday.
abbrev pub weekday : ℕ → ℕ
weekday zero = 4
weekday (suc n) = (weekday n + 1) % 7

weekday_lem : (n : ℕ) → weekday n ≡ (n + 4) % 7
weekday_lem zero = refl
weekday_lem (suc n) = omega (arith, weekday_lem n)

abbrev pub epoch_rdn : ℕ
epoch_rdn = 719162

-- Breaking down the stamp of a valid date and time (years up to 65535) from 1970 on succeeds, and
-- `tm_wday` is the day before the right one: with Sunday = 0, as the comment and `struct tm` have it, it is
-- off by one for all of them.
pub tm_wday_off_by_one :
    (t : Fields) (tmp : Tm)
    → IsFields t
    → epoch_date_time ≤ stamp t
    → (r : Tm) × (datetime_to_tm (stamp t) tmp ≡ ok r)
      × (r.tm_wday ≡ pos ((weekday (ymd_to_rdn t.year t.month t.day - epoch_rdn) + 6) % 7))
tm_wday_off_by_one t tmp v h = (
  tm_of tmp t,
  datetime_to_tm-stamp t tmp v h,
  ap pos (omega (arith, stamp_lem t v, weekday_lem (ymd_to_rdn t.year t.month t.day - epoch_rdn))),
)
