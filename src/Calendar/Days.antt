-- ===== src/Calendar/Days.antt =====
-- Day numbers count days: they start at 0, go up by one from each date to the next, and reach every
-- date, so that the two conversions are inverse on both sides.
use native.Mathlib.Decide.{dec_lt}
use libqtl.Base.{
  true, false, ℕ, zero, suc, ◌+◌, ◌≤◌, ◌<◌, ◌≡◌, refl, some, arith, ltb, if◌then◌else◌,
}
use libqtl.Calendar.{Ymd, leap_year, month_days, ymd_to_rdn, rdn_to_ymd}
use libqtl.Calendar.MarchYear.{last_year}
use libqtl.Calendar.Months.{before, tables, Tables}
use libqtl.Calendar.RoundTrip.{
  IsDate, day_of_year, days_before_year, ymd_to_rdn_lem, rdn_to_ymd-ymd_to_rdn, leap_day,
  day_in_month,
}

pub record Date : Type 0 where
  pub y : ℕ
  pub m : ℕ
  pub d : ℕ

abbrev pub IsValid : Date → Type 0
IsValid t = IsDate t.y t.m t.d

abbrev pub rdn_of : Date → ℕ
rdn_of t = ymd_to_rdn t.y t.m t.d

-- 65535-12-31, the last date whose year fits.
abbrev pub last_rdn : ℕ
last_rdn = 23936165

-- `u` is a valid date, and one day after `t`.
abbrev Follows : Date → Date → Type 0
Follows t u = IsValid u × (rdn_of u ≡ rdn_of t + 1)

month_days_pos : (y m : ℕ) → 1 ≤ m → m ≤ 12 → 1 ≤ month_days y m
unfolding month_days
month_days_pos y m lo hi = omega (arith, (tables (leap_year y) m lo hi).long)

module _ (y m d : ℕ) (v : IsDate y m d) where
  abbrev here : ymd_to_rdn y m d + 1 ≡ days_before_year y + day_of_year y m d
  here = ymd_to_rdn_lem y m d v

  same_month :
      d < month_days y m
      → Follows (record { y = y; m = m; d = d }) (record { y = y; m = m; d = d + 1 })
  same_month h =
      let v' : IsDate y m (d + 1) = omega (arith, v) in
      (v', omega (arith, here, ymd_to_rdn_lem y m (d + 1) v'))

  next_month :
      d ≡ month_days y m
      → m < 12
      → Follows (record { y = y; m = m; d = d }) (record { y = y; m = suc m; d = 1 })
  unfolding month_days
  next_month e h =
      let v' : IsDate y (suc m) 1 = omega (arith, v, month_days_pos y (suc m) (omega arith) h) in
      let t : Tables (leap_year y) m = tables (leap_year y) m v.month_in.0 v.month_in.1 in
      (v', omega (arith, e, here, t.next_month h, ymd_to_rdn_lem y (suc m) 1 v'))

  next_year :
      d ≡ month_days y m
      → m ≡ 12
      → y < last_year
      → Follows (record { y = y; m = m; d = d }) (record { y = y + 1; m = 1; d = 1 })
  unfolding month_days
  next_year e h k =
      let v' : IsDate (y + 1) 1 1 =
        omega (arith, month_days_pos (y + 1) 1 (omega arith) (omega arith)) in
      let t : Tables (leap_year y) m = tables (leap_year y) m v.month_in.0 v.month_in.1 in
      let j : before (leap_year (y + 1)) 1 ≡ 0 = ground arith in
      (
        v',
        omega (
          arith,
          e,
          j,
          here,
          t.year_end h,
          leap_day y v.year_in.0,
          ymd_to_rdn_lem (y + 1) 1 1 v',
        ),
      )

  last_day : d ≡ month_days y m → m ≡ 12 → ymd_to_rdn y m d < last_rdn → y < last_year
  unfolding month_days
  last_day e h k =
      let t : Tables (leap_year y) m = tables (leap_year y) m v.month_in.0 v.month_in.1 in
      omega (arith, e, here, t.year_end h, leap_day y v.year_in.0)

-- The following date of the calendar.
abbrev pub next_date : Date → Date
next_date t =
    if ltb t.d (month_days t.y t.m)
    then record { y = t.y; m = t.m; d = t.d + 1 }
    else if ltb t.m 12
    then record { y = t.y; m = suc t.m; d = 1 }
    else record { y = t.y + 1; m = 1; d = 1 }

-- The date after a valid date before 65535-12-31 is valid, and its day number is one more.
pub next_date-Follows :
    (t : Date)
    → IsValid t
    → rdn_of t < last_rdn
    → IsValid (next_date t) × (rdn_of (next_date t) ≡ rdn_of t + 1)
next_date-Follows t v h = elim (dec_lt t.d (month_days t.y t.m)) [
  | yes p ↦
      let b : ltb t.d (month_days t.y t.m) ≡ true = ground arith in
      rw b (same_month t.y t.m t.d v p)
  | no p ↦
      let b : ltb t.d (month_days t.y t.m) ≡ false = ground arith in
      let e : t.d ≡ month_days t.y t.m = omega (arith, v) in
      elim (dec_lt t.m 12) [
        | yes q ↦
            let c : ltb t.m 12 ≡ true = ground arith in rw (b, c) (next_month t.y t.m t.d v e q)
        | no q ↦
            let c : ltb t.m 12 ≡ false = ground arith in
            let w : t.m ≡ 12 = omega (arith, v) in
            rw (b, c) (next_year t.y t.m t.d v e w (last_day t.y t.m t.d v e w h))
      ]
]

-- Every day number up to that of 65535-12-31 is the number of a valid date.
date_of_rdn : (n : ℕ) → n ≤ last_rdn → (t : Date) × IsValid t × (rdn_of t ≡ n)
unfolding month_days leap_year
date_of_rdn zero h =
    let v : IsDate 1 1 1 = omega arith in
    (record { y = 1; m = 1; d = 1 }, v, omega (arith, ymd_to_rdn_lem 1 1 1 v))
date_of_rdn (suc n) h =
    let (t, v, e) = date_of_rdn n (omega arith) in
    let (v', e') = next_date-Follows t v (omega arith) in (next_date t, v', omega arith)

-- For every day number up to that of 65535-12-31, `rdn_to_ymd` finds a valid date with its day of the
-- year, and `ymd_to_rdn` gives back the number.
pub ymd_to_rdn-rdn_to_ymd :
    (n : ℕ)
    → n ≤ last_rdn
    → (t : Ymd) × (rdn_to_ymd n ≡ some t)
      × IsDate t.year t.month t.day
      × (ymd_to_rdn t.year t.month t.day ≡ n)
      × (t.yday ≡ day_of_year t.year t.month t.day)
ymd_to_rdn-rdn_to_ymd n h =
    let (t, v, e) = date_of_rdn n h in
    (
      record { year = t.y; month = t.m; day = t.d; yday = day_of_year t.y t.m t.d },
      rw e at (rdn_to_ymd-ymd_to_rdn t.y t.m t.d v),
      v,
      e,
      refl,
    )

pub rdn_le_last : (y m d : ℕ) → IsDate y m d → ymd_to_rdn y m d ≤ last_rdn
rdn_le_last y m d v =
    let s : Tables (leap_year y) m = tables (leap_year y) m v.month_in.0 v.month_in.1 in
    omega (arith, s.in_year, day_in_month y m d v, ymd_to_rdn_lem y m d v, leap_day y v.year_in.0)
