-- ===== src/Calendar.antt =====
-- src/qtl_datetime.c, the part on days: leap years, month lengths, and the two conversions between
-- a civil date and its rata die number (rdn 0 is 0001-01-01). Every C conversion to `uint16_t` and
-- `uint32_t` is written out; `int` intermediate results stay below 2 ^ 31.
pub mod MarchYear
pub mod Months
pub mod RoundTrip
pub mod Days
pub mod Order
use libqtl.Base.{
  ℕ, ◌+◌, ◌-◌, ◌*◌, ◌/◌, ◌%◌, Bool, true, false, not, ◌&&◌, ◌||◌, Option, none, some, List, [], ◌∷◌,
  ltb, ◌==◌, if◌then◌else◌, to_int, get_elem?, get_or, u16, u32, sub16, sub32,
}

-- One row of the table of the same name; the second is that of leap years. Entry 0 is unused.
abbrev pub days_preceding_month : Bool → List ℕ
days_preceding_month false =
    0 ∷ 0 ∷ 31 ∷ 59 ∷ 90 ∷ 120 ∷ 151 ∷ 181 ∷ 212 ∷ 243 ∷ 273 ∷ 304 ∷ 334 ∷ []
days_preceding_month true =
    0 ∷ 0 ∷ 31 ∷ 60 ∷ 91 ∷ 121 ∷ 152 ∷ 182 ∷ 213 ∷ 244 ∷ 274 ∷ 305 ∷ 335 ∷ []

abbrev pub day_offset : List ℕ
day_offset = 0 ∷ 306 ∷ 337 ∷ 0 ∷ 31 ∷ 61 ∷ 92 ∷ 122 ∷ 153 ∷ 184 ∷ 214 ∷ 245 ∷ 275 ∷ []

-- `y & 3` is `y % 4`.
unfoldable pub leap_year : ℕ → Bool
leap_year y = (y % 4 == 0) && (not (y % 100 == 0) || (y % 400 == 0))

-- A row of the static table `days` of `month_days`.
abbrev pub days_table : Bool → List ℕ
days_table false = 0 ∷ 31 ∷ 28 ∷ 31 ∷ 30 ∷ 31 ∷ 30 ∷ 31 ∷ 31 ∷ 30 ∷ 31 ∷ 30 ∷ 31 ∷ []
days_table true = 0 ∷ 31 ∷ 29 ∷ 31 ∷ 30 ∷ 31 ∷ 30 ∷ 31 ∷ 31 ∷ 30 ∷ 31 ∷ 30 ∷ 31 ∷ []

-- Its callers pass 1 ≤ m ≤ 12, inside the table.
unfoldable pub month_days : ℕ → ℕ → ℕ
month_days y m = get_or (days_table ((m == 2) && leap_year y)) m 0

-- What `rdn_to_ymd` writes through its four pointers.
pub record Ymd : Type 0 where
  pub year : ℕ
  pub month : ℕ
  pub day : ℕ
  pub yday : ℕ

-- The locals of `rdn_to_ymd` before its `if`: the year that begins in March, the day in that year,
-- and the month, where 13 and 14 are January and February of the next year.
pub record March : Type 0 where
  pub y : ℕ
  pub d : ℕ
  pub m : ℕ

unfoldable pub march_of_rdn : ℕ → March
march_of_rdn rdn =
    let z : ℕ = u32 (u32 (rdn + 1) + 306) in
    let h : ℕ = sub32 (100 * z) 25 in
    let a : ℕ = h / 3652425 in
    let b : ℕ = sub32 a (a / 4) in
    let y : ℕ = u16 (u32 (100 * b + h) / 36525) in
    let d : ℕ = u16 (sub32 (b + z) (1461 * y / 4)) in
    record { y = y; d = d; m = u16 ((535 * d + 48950) / 16384) }

-- The stores through the pointers. `none` is a read outside `DayOffset`.
unfoldable pub store_ymd : ℕ → ℕ → ℕ → ℕ → Option Ymd
store_ymd y m d doy = elim (get_elem? day_offset m) [
  | none ↦ none
  | some offset ↦ some (record { year = y; month = m; day = sub16 d offset; yday = doy })
]

-- The `if` of `rdn_to_ymd`.
unfoldable pub ymd_of_march : March → Option Ymd
ymd_of_march s =
    if ltb 12 s.m
    then store_ymd (u16 (s.y + 1)) (s.m - 12) s.d (sub16 s.d 306)
    else store_ymd s.y s.m s.d (u16 (s.d + 59 + to_int (leap_year s.y)))

unfoldable pub rdn_to_ymd : ℕ → Option Ymd
rdn_to_ymd rdn = ymd_of_march (march_of_rdn rdn)

unfoldable pub yd_to_rdn : ℕ → ℕ → ℕ
yd_to_rdn y d = let p : ℕ = sub16 y 1 in u32 (365 * p + p / 4 - p / 100 + p / 400 + d)

-- The `if` of `ymd_to_rdn`: a month outside 1..12 is carried into the year.
unfoldable pub carry_month : ℕ → ℕ → ℕ × ℕ
carry_month y m =
    if ltb m 1 || ltb 12 m
    then (if m % 12 == 0 then (sub16 (u16 (y + m / 12)) 1, 12) else (u16 (y + m / 12), m % 12))
    else (y, m)

-- The sum of days is an `int`, then converted to the parameter type of `yd_to_rdn`.
unfoldable pub ymd_to_rdn : ℕ → ℕ → ℕ → ℕ
ymd_to_rdn y m d =
    let (y', m') = carry_month y m in
    yd_to_rdn y' (sub16 (get_or (days_preceding_month (leap_year y')) m' 0 + d) 1)
