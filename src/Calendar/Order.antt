-- ===== src/Calendar/Order.antt =====
-- Day numbers keep the order of dates, and a month outside 1..12 is carried into the year.
use mathlib.Core.Path.{ap₂}
use native.Mathlib.Nat.{le_refl, le_trans}
use native.Mathlib.Decide.{le_ind}
use libqtl.Base.{ap, ℕ, suc, ◌+◌, ◌*◌, ◌≤◌, ◌<◌, ◌≡◌, Bool, arith, to_int}
use libqtl.Calendar.{leap_year, ymd_to_rdn, carry_month}
use libqtl.Calendar.MarchYear.{last_year}
use libqtl.Calendar.Months.{before, tables, Tables}
use libqtl.Calendar.RoundTrip.{
  day_of_year, days_before_year, ymd_to_rdn_lem, leap_day, day_in_month, carry_month_same,
}
use libqtl.Calendar.Days.{Date, IsValid, rdn_of}

-- Calendar order: by year, then month, then day.
pub data Before (a b : Date) : Type 0 where
  by_year : a.y < b.y → Before a b
  by_month : a.y ≡ b.y → a.m < b.m → Before a b
  by_day : a.y ≡ b.y → a.m ≡ b.m → a.d < b.d → Before a b

before_mono : (b : Bool) (i j : ℕ) → 1 ≤ i → i ≤ j → j ≤ 12 → before b i ≤ before b j
before_mono b i j lo =
    le_ind (λ k. k ≤ 12 → before b i ≤ before b k) (λ _. le_refl _)
      (λ k le ih h.
        omega (arith, ih (omega arith), (tables b k (le_trans lo le) (omega arith)).next_month h))
      j

years_mono : (y z : ℕ) → 1 ≤ y → y ≤ z → days_before_year y ≤ days_before_year z
years_mono y z lo =
    le_ind (λ k. days_before_year y ≤ days_before_year k) (le_refl _)
      (λ k le ih. omega (arith, ih, leap_day k (le_trans lo le))) z

in_year :
    (t : Date)
    → IsValid t
    → (1 ≤ day_of_year t.y t.m t.d) × (day_of_year t.y t.m t.d ≤ 365 + to_int (leap_year t.y))
in_year t v =
    let s : Tables (leap_year t.y) t.m = tables (leap_year t.y) t.m v.month_in.0 v.month_in.1 in
    omega (arith, s.in_year, day_in_month t.y t.m t.d v)

-- Within a year, a day of an earlier month comes first.
month_order :
    (a b : Date)
    → IsValid a
    → IsValid b
    → a.y ≡ b.y
    → a.m < b.m
    → day_of_year a.y a.m a.d < day_of_year b.y b.m b.d
month_order a b va vb e h =
    let s : Tables (leap_year a.y) a.m = tables (leap_year a.y) a.m va.month_in.0 va.month_in.1 in
    rw (← e) (
      omega (
        arith,
        s.next_month (omega arith),
        before_mono (leap_year a.y) (suc a.m) b.m (omega arith) h vb.month_in.1,
        day_in_month a.y a.m a.d va,
      ))

-- Of two valid dates, the earlier has the smaller day number.
pub Before-rdn_of : (a b : Date) → IsValid a → IsValid b → Before a b → rdn_of a < rdn_of b
Before-rdn_of a b va vb (by_year h) = omega (
  arith,
  ymd_to_rdn_lem a.y a.m a.d va,
  ymd_to_rdn_lem b.y b.m b.d vb,
  leap_day a.y va.year_in.0,
  years_mono (a.y + 1) b.y (omega arith) (omega arith),
  in_year a va,
  in_year b vb,
)
Before-rdn_of a b va vb (by_month e h) = omega (
  arith,
  ymd_to_rdn_lem a.y a.m a.d va,
  ymd_to_rdn_lem b.y b.m b.d vb,
  ap days_before_year e,
  month_order a b va vb e h,
)
Before-rdn_of a b va vb (by_day e f h) = omega (
  arith,
  ymd_to_rdn_lem a.y a.m a.d va,
  ymd_to_rdn_lem b.y b.m b.d vb,
  ap days_before_year e,
  ap₂ (λ y m. before (leap_year y) m) e f,
)

carry_month_lem :
    (y m k : ℕ)
    → 1 ≤ m
    → m ≤ 12
    → 1 ≤ y + k
    → y + k ≤ last_year
    → carry_month y (12 * k + m) ≡ (y + k, m)
unfolding carry_month
carry_month_lem y m k lo hi p q = ground arith

-- Month 12 k + m of year y is month m of the k-th year after it, for all m from 1 to 12 and any day,
-- and month 0 is December of the year before, as long as the years stay within 1..65535.
pub ymd_to_rdn_carry :
    (y m k d : ℕ)
    → 1 ≤ m
    → m ≤ 12
    → 1 ≤ y
    → y + k ≤ last_year
    → (ymd_to_rdn y (12 * k + m) d ≡ ymd_to_rdn (y + k) m d)
      × (ymd_to_rdn (y + 1) 0 d ≡ ymd_to_rdn y 12 d)
unfolding ymd_to_rdn
ymd_to_rdn_carry y m k d lo hi p q =
    let zero_month : carry_month (y + 1) 0 ≡ (y, 12) = unfold carry_month in ground arith in
    (
      rw (carry_month_lem y m k lo hi (omega arith) q, carry_month_same (y + k) m lo hi),
      rw (zero_month, carry_month_same y 12 (omega arith) (omega arith)),
    )

-- Whatever month it is given, `ymd_to_rdn` indexes its table of months with a month from 1 to 12: its
-- two assertions hold.
pub carry_month_range : (y m : ℕ) → (1 ≤ (carry_month y m).1) × ((carry_month y m).1 ≤ 12)
unfolding carry_month
carry_month_range y m = ground arith
