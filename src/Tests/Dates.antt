-- ===== src/Tests/Dates.antt =====
-- The theorems on dates and time stamps at 2016-02-29, 23:59:59.999999.
use libqtl.Base.{◌+◌, ◌*◌, ◌-◌, ◌/◌, ◌%◌, ◌≤◌, ◌<◌, ◌≡◌, ◌↔◌, refl, arith, some, pos, ◌^◌}
use libqtl.Calendar.{Ymd, leap_year, month_days, rdn_to_ymd, yd_to_rdn, carry_month, ymd_to_rdn}
use libqtl.Calendar.RoundTrip.{IsDate, day_of_year, rdn_to_ymd-ymd_to_rdn}
use libqtl.Calendar.Days.{
  Date, IsValid, rdn_of, next_date, next_date-Follows, ymd_to_rdn-rdn_to_ymd,
}
use libqtl.Calendar.Order.{by_month, Before-rdn_of, ymd_to_rdn_carry, carry_month_range}
use libqtl.Datetime.{
  Fields, datetime_decode, datetime_to_tm, datetime_now, Tm, ok, before_epoch, epoch_date_time,
}
use libqtl.Datetime.RoundTrip.{
  IsFields, stamp, stamp_lem, datetime_decode-stamp, stamp-datetime_decode,
}
use libqtl.Datetime.BrokenDown.{
  tm_of, weekday, epoch_rdn, before_epoch_iff, datetime_to_tm-stamp, tm_wday_off_by_one,
}
use libqtl.Datetime.System.{gettimeofday}
use libqtl.Datetime.Zones.{datetime_now-gettimeofday}
use libqtl.Format.{Printed, datetime_format}
use libqtl.Format.RoundTrip.{datetime_from_iso8601-datetime_format}
use libqtl.Iso8601.{datetime_from_iso8601}
use libqtl.Iso8601.Outcome.{Result}

abbrev leap_day : Date
leap_day = record { y = 2016; m = 2; d = 29 }

abbrev new_year : Date
new_year = record { y = 2016; m = 1; d = 31 }

abbrev last_second : Fields
last_second = record {
  year = 2016;
  month = 2;
  day = 29;
  hour = 23;
  minute = 59;
  second = 59;
  usec = 999_999;
}

leap_day-IsDate : IsDate 2016 2 29
unfolding leap_year month_days
leap_day-IsDate = record { year_in = omega arith; month_in = omega arith; day_in = omega arith }

new_year-IsDate : IsDate 2016 1 31
unfolding leap_year month_days
new_year-IsDate = record { year_in = omega arith; month_in = omega arith; day_in = omega arith }

last_second-IsFields : IsFields last_second
last_second-IsFields = record {
  date = leap_day-IsDate;
  time = record {
    hour_in = omega arith;
    minute_in = omega arith;
    second_in = omega arith;
    usec_in = omega arith;
  };
}

leap_day_rdn : ymd_to_rdn 2016 2 29 ≡ 736022
unfolding leap_year month_days yd_to_rdn carry_month ymd_to_rdn
leap_day_rdn = refl

rdn_to_ymd-ymd_to_rdn_example :
    rdn_to_ymd (ymd_to_rdn 2016 2 29)
    ≡ some (record { year = 2016; month = 2; day = 29; yday = day_of_year 2016 2 29 })
rdn_to_ymd-ymd_to_rdn_example = rdn_to_ymd-ymd_to_rdn 2016 2 29 leap_day-IsDate

ymd_to_rdn-rdn_to_ymd_example :
    (t : Ymd) × (rdn_to_ymd 736022 ≡ some t)
    × IsDate t.year t.month t.day
    × (ymd_to_rdn t.year t.month t.day ≡ 736022)
    × (t.yday ≡ day_of_year t.year t.month t.day)
ymd_to_rdn-rdn_to_ymd_example = ymd_to_rdn-rdn_to_ymd 736022 (omega arith)

next_date-Follows_example :
    IsValid (next_date leap_day) × (rdn_of (next_date leap_day) ≡ rdn_of leap_day + 1)
next_date-Follows_example = next_date-Follows leap_day leap_day-IsDate (omega (arith, leap_day_rdn))

Before-rdn_of_example : rdn_of new_year < rdn_of leap_day
Before-rdn_of_example =
    Before-rdn_of new_year leap_day new_year-IsDate leap_day-IsDate (by_month refl (omega arith))

ymd_to_rdn_carry_example :
    (ymd_to_rdn 2015 (12 * 1 + 2) 29 ≡ ymd_to_rdn (2015 + 1) 2 29)
    × (ymd_to_rdn (2015 + 1) 0 29 ≡ ymd_to_rdn 2015 12 29)
ymd_to_rdn_carry_example =
    ymd_to_rdn_carry 2015 2 1 29 (omega arith) (omega arith) (omega arith) (omega arith)

carry_month_range_example : (1 ≤ (carry_month 2015 26).1) × ((carry_month 2015 26).1 ≤ 12)
carry_month_range_example = carry_month_range 2015 26

datetime_decode-stamp_example : datetime_decode (stamp last_second) ≡ some last_second
datetime_decode-stamp_example = datetime_decode-stamp last_second last_second-IsFields

stamp-datetime_decode_example :
    (t : Fields) × (datetime_decode 63592387199999999 ≡ some t)
    × IsFields t
    × (stamp t ≡ 63592387199999999)
stamp-datetime_decode_example = stamp-datetime_decode 63592387199999999 (omega arith)

from_1970 : epoch_date_time ≤ stamp last_second
from_1970 = omega (arith, stamp_lem last_second last_second-IsFields, leap_day_rdn)

-- Memory that holds ones.
abbrev old_tm : Tm
old_tm = record {
  tm_mday = pos 1;
  tm_yday = pos 1;
  tm_mon = pos 1;
  tm_year = pos 1;
  tm_wday = pos 1;
  tm_sec = pos 1;
  tm_min = pos 1;
  tm_hour = pos 1;
  tm_isdst = pos 1;
}

datetime_to_tm-stamp_example :
    datetime_to_tm (stamp last_second) old_tm ≡ ok (tm_of old_tm last_second)
datetime_to_tm-stamp_example =
    datetime_to_tm-stamp last_second old_tm last_second-IsFields from_1970

tm_wday_off_by_one_example :
    (r : Tm) × (datetime_to_tm (stamp last_second) old_tm ≡ ok r)
    × (r.tm_wday ≡ pos ((weekday (ymd_to_rdn 2016 2 29 - epoch_rdn) + 6) % 7))
tm_wday_off_by_one_example = tm_wday_off_by_one last_second old_tm last_second-IsFields from_1970

before_epoch_iff_example :
    (datetime_to_tm 62135596799999999 old_tm ≡ before_epoch) ↔ (62135596799999999 < epoch_date_time)
before_epoch_iff_example = before_epoch_iff 62135596799999999 old_tm (omega arith)

datetime_from_iso8601-datetime_format_example :
    (p : Printed) × (datetime_format 31 (stamp last_second) (pos 0) ≡ some p)
    × (datetime_from_iso8601 p.text p.dlen
        ≡ Result.ok (stamp (record last_second { usec = 999_999 / 1000 })))
datetime_from_iso8601-datetime_format_example =
    datetime_from_iso8601-datetime_format last_second 31 last_second-IsFields (omega arith)
      (omega arith)

-- A file time of the year 2016.
datetime_now-gettimeofday_example :
    datetime_now (gettimeofday 30_500_000 7)
    ≡ 50_491_123_200_000_000 + (30_500_000 * 2 ^ 32 + 7) / 10
datetime_now-gettimeofday_example =
    datetime_now-gettimeofday 30_500_000 7 (omega arith) (omega arith)
