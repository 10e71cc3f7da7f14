-- ===== src/Calendar/RoundTrip.antt =====
-- Civil dates and their day numbers: the conversions of the C file are inverse to one another.
use native.Mathlib.Decide.{dec_le}
use libqtl.Base.{
  ℕ, ◌+◌, ◌-◌, ◌*◌, ◌/◌, ◌≤◌, ◌≡◌, some, arith, ltb, if◌then◌else◌, to_int, get_elem?, u16, sub16,
  true, false,
}
use libqtl.Calendar.{
  day_offset, leap_year, month_days, carry_month, yd_to_rdn, ymd_to_rdn, rdn_to_ymd, march_of_rdn,
  store_ymd, ymd_of_march,
}
use libqtl.Calendar.MarchYear.{march_days, IsMarchDay, last_year, march_of_rdn_lem}
use libqtl.Calendar.Months.{
  before, month_length, offset, tables, month_of_day, offset_found, Tables,
}

-- A date of the proleptic Gregorian calendar whose year fits in 16 bits.
pub record IsDate (y m d : ℕ) : Type 0 where
  pub year_in : (1 ≤ y) × (y ≤ last_year)
  pub month_in : (1 ≤ m) × (m ≤ 12)
  pub day_in : (1 ≤ d) × (d ≤ month_days y m)

-- The day of the year, from 1.
abbrev pub day_of_year : ℕ → ℕ → ℕ → ℕ
day_of_year y m d = before (leap_year y) m + d

-- Days before the 1st of January of year y.
abbrev pub days_before_year : ℕ → ℕ
days_before_year y = 365 * (y - 1) + (y - 1) / 4 - (y - 1) / 100 + (y - 1) / 400

pub leap_day :
    (y : ℕ) → 1 ≤ y → days_before_year (y + 1) ≡ days_before_year y + 365 + to_int (leap_year y)
unfolding leap_year
leap_day y h = ground arith

pub day_in_month : (y m d : ℕ) → IsDate y m d → d ≤ month_length (leap_year y) m
unfolding month_days
day_in_month y m d v = v.day_in.1

pub carry_month_same : (y m : ℕ) → 1 ≤ m → m ≤ 12 → carry_month y m ≡ (y, m)
unfolding carry_month
carry_month_same y m lo hi = ground arith

yd_to_rdn_lem :
    (y d : ℕ)
    → 1 ≤ y
    → y ≤ last_year
    → 1 ≤ d
    → d ≤ 366
    → yd_to_rdn y (sub16 d 1) + 1 ≡ days_before_year y + d
unfolding yd_to_rdn
yd_to_rdn_lem y d h k lo hi = let p : sub16 y 1 ≡ y - 1 = omega arith in rw p (omega arith)

pub leap_le : (y : ℕ) → to_int (leap_year y) ≤ 1
leap_le y = ground arith

-- The day number is the number of whole years and days before the date.
pub ymd_to_rdn_lem :
    (y m d : ℕ) → IsDate y m d → ymd_to_rdn y m d + 1 ≡ days_before_year y + day_of_year y m d
unfolding ymd_to_rdn
ymd_to_rdn_lem y m d v = rw (carry_month_same y m v.month_in.0 v.month_in.1) (
    yd_to_rdn_lem y (day_of_year y m d) v.year_in.0 v.year_in.1 (omega arith)
      (omega (arith, t, day_in_month y m d v, leap_le y)))
  where
    t : Tables (leap_year y) m
    t = tables (leap_year y) m v.month_in.0 v.month_in.1

-- The March-year of a date, and its day there.
abbrev march_year : ℕ → ℕ → ℕ
march_year y m = if ltb m 3 then y - 1 else y

module _ (y m d : ℕ) (v : IsDate y m d) where
  abbrev date_tables : Tables (leap_year y) m
  date_tables = tables (leap_year y) m v.month_in.0 v.month_in.1

  march_days_winter :
      m ≤ 2
      → (ymd_to_rdn y m d + 307 ≡ march_days (y - 1) (offset m + d))
        × IsMarchDay (y - 1) (offset m + d)
  march_days_winter h = (
    omega (arith, date_tables.winter h, ymd_to_rdn_lem y m d v),
    omega (arith, date_tables.winter_end h, leap_day y v.year_in.0, day_in_month y m d v),
  )

  march_days_summer :
      3 ≤ m → (ymd_to_rdn y m d + 307 ≡ march_days y (offset m + d)) × IsMarchDay y (offset m + d)
  march_days_summer h = (
    omega (arith, date_tables.summer h, ymd_to_rdn_lem y m d v, leap_day y v.year_in.0),
    omega (arith, date_tables.summer_end h, day_in_month y m d v),
  )

  abbrev month_found : (535 * (offset m + d) + 48950) / 16384 ≡ (if ltb m 3 then m + 12 else m)
  month_found =
      month_of_day (leap_year y) m d v.month_in.0 v.month_in.1 v.day_in.0 (day_in_month y m d v)

  march_winter :
      m ≤ 2 → march_of_rdn (ymd_to_rdn y m d) ≡ record { y = y - 1; d = offset m + d; m = m + 12 }
  march_winter h =
      let (e, v') = march_days_winter h in
      let n : (535 * (offset m + d) + 48950) / 16384 ≡ m + 12 = ground (arith, month_found) in
      rw n at (march_of_rdn_lem (y - 1) (offset m + d) (ymd_to_rdn y m d) v' (omega arith) e)

  march_summer : 3 ≤ m → march_of_rdn (ymd_to_rdn y m d) ≡ record { y = y; d = offset m + d; m = m }
  march_summer h =
      let (e, v') = march_days_summer h in
      let n : (535 * (offset m + d) + 48950) / 16384 ≡ m = ground (arith, month_found) in
      rw n at (march_of_rdn_lem y (offset m + d) (ymd_to_rdn y m d) v' (omega arith) e)

stores_winter :
    (y m d o : ℕ)
    → 1 ≤ m
    → get_elem? day_offset m ≡ some o
    → ymd_of_march (record { y = y; d = d; m = m + 12 })
      ≡ some (record { year = u16 (y + 1); month = m; day = sub16 d o; yday = sub16 d 306 })
unfolding ymd_of_march
stores_winter y m d o h e =
    let t : ltb 12 (m + 12) ≡ true = ground arith in
    let n : m + 12 - 12 ≡ m = omega arith in rw (t, n) (unfold store_ymd in rw (e, store_ymd))

stores_summer :
    (y m d o : ℕ)
    → m ≤ 12
    → get_elem? day_offset m ≡ some o
    → ymd_of_march (record { y = y; d = d; m = m })
      ≡ some (record {
        year = y;
        month = m;
        day = sub16 d o;
        yday = u16 (d + 59 + to_int (leap_year y));
      })
unfolding ymd_of_march
stores_summer y m d o h e =
    let t : ltb 12 m ≡ false = ground arith in rw t (unfold store_ymd in rw (e, store_ymd))

-- Every valid date up to the year 65535 is found again from its day number, with its day of the year.
pub rdn_to_ymd-ymd_to_rdn :
    (y m d : ℕ)
    → IsDate y m d
    → rdn_to_ymd (ymd_to_rdn y m d)
      ≡ some (record { year = y; month = m; day = d; yday = day_of_year y m d })
unfolding rdn_to_ymd
rdn_to_ymd-ymd_to_rdn y m d v = elim (dec_le m 2) [
  | yes h ↦
      rw
        (
          march_winter y m d v h,
          stores_winter (y - 1) m (offset m + d) (offset m) v.month_in.0 found,
        )
        (ground (arith, t.winter h, t.winter_end h, leap_le y, in_month))
  | no h ↦
      rw
        (
          march_summer y m d v (omega arith),
          stores_summer y m (offset m + d) (offset m) v.month_in.1 found,
        )
        (ground (arith, t.summer (omega arith), t.summer_end (omega arith), leap_le y, in_month))
]
  where
    t : Tables (leap_year y) m
    t = tables (leap_year y) m v.month_in.0 v.month_in.1

    found : get_elem? day_offset m ≡ some (offset m)
    found = offset_found m v.month_in.0 v.month_in.1

    in_month : d ≤ month_length (leap_year y) m
    in_month = day_in_month y m d v
