-- ===== src/Format/ReadBack.antt =====
-- The parser reads back the first 19 bytes that the printer writes.
use libqtl.Base.{
  ℕ, ◌+◌, ◌*◌, ◌/◌, ◌%◌, ◌≤◌, ◌<◌, ◌≡◌, refl, ap, some, List, ◌++◌, arith, get_elem?, leb, ltb, not,
  ◌&&◌, true,
}
use libqtl.Calendar.Months.{tables}
use libqtl.Calendar.{leap_year, Ymd, month_days}
use libqtl.Calendar.RoundTrip.{IsDate}
use libqtl.Iso8601.{check_shape, parse_stamp, parse_2d, parse_4d}
use libqtl.Iso8601.Outcome.{ok}
use libqtl.Iso8601.Numbers.{expect_lem, read_lem, parse_2d_lem, parse_4d_lem}
use libqtl.Format.{digit, date_time_text}

-- `str` begins with the text of a date and of `v` seconds of a day.
pub record Begins (str : List ℕ) (t : Ymd) (v : ℕ) : Type 0 where
  at0 : get_elem? str 0 ≡ some (digit (t.year / 10 / 10 / 10 % 10))
  at1 : get_elem? str 1 ≡ some (digit (t.year / 10 / 10 % 10))
  at2 : get_elem? str 2 ≡ some (digit (t.year / 10 % 10))
  at3 : get_elem? str 3 ≡ some (digit (t.year % 10))
  at4 : get_elem? str 4 ≡ some b'-'
  at5 : get_elem? str 5 ≡ some (digit (t.month / 10 % 10))
  at6 : get_elem? str 6 ≡ some (digit (t.month % 10))
  at7 : get_elem? str 7 ≡ some b'-'
  at8 : get_elem? str 8 ≡ some (digit (t.day / 10 % 10))
  at9 : get_elem? str 9 ≡ some (digit (t.day % 10))
  at10 : get_elem? str 10 ≡ some b'T'
  at11 : get_elem? str 11 ≡ some (digit (v / 10 / 6 / 10 / 6 / 10 % 10))
  at12 : get_elem? str 12 ≡ some (digit (v / 10 / 6 / 10 / 6 % 10))
  at13 : get_elem? str 13 ≡ some b':'
  at14 : get_elem? str 14 ≡ some (digit (v / 10 / 6 / 10 % 6))
  at15 : get_elem? str 15 ≡ some (digit (v / 10 / 6 % 10))
  at16 : get_elem? str 16 ≡ some b':'
  at17 : get_elem? str 17 ≡ some (digit (v / 10 % 6))
  at18 : get_elem? str 18 ≡ some (digit (v % 10))

pub text-Begins : (t : Ymd) (v : ℕ) (rest : List ℕ) → Begins (date_time_text t v ++ rest) t v
unfolding date_time_text
text-Begins t v rest = record {
  at0 = refl;
  at1 = refl;
  at2 = refl;
  at3 = refl;
  at4 = refl;
  at5 = refl;
  at6 = refl;
  at7 = refl;
  at8 = refl;
  at9 = refl;
  at10 = refl;
  at11 = refl;
  at12 = refl;
  at13 = refl;
  at14 = refl;
  at15 = refl;
  at16 = refl;
  at17 = refl;
  at18 = refl;
}

pub check_shape_lem :
    (str : List ℕ) (t : Ymd) (v len : ℕ) → Begins str t v → 20 ≤ len → check_shape str len ≡ ok tt
unfolding check_shape
check_shape_lem str t v len b h =
    let g : leb 20 len ≡ true = ground arith in
    rw (
      g,
      expect_lem str 4 b'-' b.at4,
      expect_lem str 7 b'-' b.at7,
      expect_lem str 13 b':' b.at13,
      expect_lem str 16 b':' b.at16,
      read_lem str 10 b'T' b.at10,
    )

month_days_le : (y m : ℕ) → 1 ≤ m → m ≤ 12 → month_days y m ≤ 31
unfolding month_days
month_days_le y m lo hi = omega (arith, (tables (leap_year y) m lo hi).long)

module _ (str : List ℕ) (t : Ymd) (h mi s : ℕ) (b : Begins str t ((h * 60 + mi) * 60 + s)) where
  read_hour : h < 24 → mi < 60 → s < 60 → parse_2d str 11 ≡ ok h
  read_hour p q r =
      let e : (((h * 60 + mi) * 60 + s) / 10 / 6 / 10 / 6 / 10 % 10) * 10
            + ((h * 60 + mi) * 60 + s) / 10 / 6 / 10 / 6 % 10
          ≡ h =
        omega arith in
      rw (parse_2d_lem str 11 _ _ b.at11 b.at12 (omega arith) (omega arith)) (ap ok e)

  read_min : h < 24 → mi < 60 → s < 60 → parse_2d str 14 ≡ ok mi
  read_min p q r =
      let e : (((h * 60 + mi) * 60 + s) / 10 / 6 / 10 % 6) * 10
            + ((h * 60 + mi) * 60 + s) / 10 / 6 % 10
          ≡ mi =
        omega arith in
      rw (parse_2d_lem str 14 _ _ b.at14 b.at15 (omega arith) (omega arith)) (ap ok e)

  read_sec : h < 24 → mi < 60 → s < 60 → parse_2d str 17 ≡ ok s
  read_sec p q r =
      let e : (((h * 60 + mi) * 60 + s) / 10 % 6) * 10 + ((h * 60 + mi) * 60 + s) % 10 ≡ s =
        omega arith in
      rw (parse_2d_lem str 17 _ _ b.at17 b.at18 (omega arith) (omega arith)) (ap ok e)

  read_year : t.year ≤ 9999 → parse_4d str 0 ≡ ok t.year
  read_year p =
      let e : (t.year / 10 / 10 / 10 % 10) * 1000
            + (t.year / 10 / 10 % 10) * 100
            + (t.year / 10 % 10) * 10
            + t.year % 10
          ≡ t.year =
        omega arith in
      rw
        (parse_4d_lem str 0 _ _ _ _ b.at0 b.at1 b.at2 b.at3 (omega arith) (omega arith)
          (omega arith) (omega arith))
        (ap ok e)

  read_month : t.month ≤ 12 → parse_2d str 5 ≡ ok t.month
  read_month p =
      let e : (t.month / 10 % 10) * 10 + t.month % 10 ≡ t.month = omega arith in
      rw (parse_2d_lem str 5 _ _ b.at5 b.at6 (omega arith) (omega arith)) (ap ok e)

  read_day : t.day ≤ 31 → parse_2d str 8 ≡ ok t.day
  read_day p =
      let e : (t.day / 10 % 10) * 10 + t.day % 10 ≡ t.day = omega arith in
      rw (parse_2d_lem str 8 _ _ b.at8 b.at9 (omega arith) (omega arith)) (ap ok e)

  pub parse_stamp_lem :
      IsDate t.year t.month t.day
      → t.year ≤ 9999
      → h < 24
      → mi < 60
      → s < 60
      → parse_stamp str
        ≡ ok (record { year = t.year; month = t.month; day = t.day; hour = h; min = mi; sec = s })
  unfolding parse_stamp
  parse_stamp_lem v y p q r =
      let g1 : leb 1 t.year ≡ true = ground arith in
      let g2 : (leb 1 t.month && leb t.month 12) ≡ true = ground arith in
      let g3 : (leb 1 t.day && leb t.day 31) ≡ true =
        ground (arith, month_days_le t.year t.month) in
      let g4 : leb h 23 ≡ true = ground arith in
      let g5 : leb mi 59 ≡ true = ground arith in
      let g6 : leb s 59 ≡ true = ground arith in
      let g7 : not (ltb 28 t.day && ltb (month_days t.year t.month) t.day) ≡ true = ground arith in
      rw (
        read_year y,
        g1,
        read_month v.month_in.1,
        g2,
        read_day (omega (arith, month_days_le t.year t.month v.month_in.0 v.month_in.1)),
        g3,
        read_hour p q r,
        g4,
        read_min p q r,
        g5,
        read_sec p q r,
        g6,
        g7,
      )
