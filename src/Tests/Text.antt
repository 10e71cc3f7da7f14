-- ===== src/Tests/Text.antt =====
-- Tests of the parser and the printer of time stamps.
use libqtl.Base.{ℕ, ◌≡◌, refl, List, [], ◌∷◌, ◌++◌, some, bytes, pos, negsuc}
use libqtl.Calendar.{
  leap_year, month_days, march_of_rdn, store_ymd, ymd_of_march, rdn_to_ymd, yd_to_rdn, carry_month,
  ymd_to_rdn,
}
use libqtl.Datetime.{datetime_from_ymd, datetime_from_hmsu}
use libqtl.Iso8601.{
  read, read_digit, parse_2d, parse_4d, expect, check_shape, parse_stamp, scan_digits, parse_digits,
  parse_fraction, parse_offset, parse_zone, datetime_from_iso8601,
}
use libqtl.Iso8601.Outcome.{Result, ok, refused, fault}
use libqtl.Format.{
  digits, date_time_text, fraction_text, offset_text, zone_text, timestamp_format_internal,
  precision_of, datetime_format,
}

-- All that the functions under test compute with.
code : Unit {0}
unfolding leap_year month_days march_of_rdn store_ymd ymd_of_march rdn_to_ymd yd_to_rdn carry_month
    ymd_to_rdn datetime_from_ymd datetime_from_hmsu read read_digit parse_2d parse_4d expect
    check_shape parse_stamp scan_digits parse_digits parse_fraction parse_offset parse_zone
    datetime_from_iso8601 digits date_time_text fraction_text offset_text zone_text
    timestamp_format_internal precision_of datetime_format
code = tt

parse : List ℕ → ℕ → Result ℕ
unfolding code
parse = datetime_from_iso8601

parses :
    (parse (bytes "2013-12-31T00:00:00Z") 20 ≡ ok 63524044800000000)
    × (parse (bytes "1970-01-01t00:00:01.5Z") 22 ≡ ok 62135596801500000)
    × (parse (bytes "1970-01-01 02:00:00+02:00") 25 ≡ ok 62135596800000000)
    × (parse (bytes "2013-02-29T00:00:00Z") 20 ≡ refused)
    × (parse (bytes "2013-12-31T00:00:00+") 20 ≡ fault)
unfolding parse
parses = (refl, refl, refl, refl, refl)

prints :
    (datetime_format 100 63524044800000000 (pos 0)
      ≡ some (record { dlen = 20; text = bytes "2013-12-31T00:00:00Z" ++ 0 ∷ [] }))
    × (datetime_format 100 62135596800123456 (negsuc 89)
        ≡ some (record { dlen = 30; text = bytes "1970-01-01T00:00:00.000123456-01:30" ++ 0 ∷ [] }))
unfolding code
prints = (refl, refl)
