-- ===== src/Iso8601.antt =====
-- src/qtl_datetime.c, the parser of ISO 8601 time stamps: `parse_2d`, `parse_4d` and
-- `datetime_from_iso8601`. `str` is the memory that may be read from the pointer on, which may go
-- beyond the `len` bytes of the text; the pointers `cur` and `end` are offsets into it.
pub mod Outcome
pub mod Numbers
use Outcome.{Result, ok, refused, fault, ◌>>=◌, ◌>>◌, guard}
use libqtl.Base.{
  ℕ, zero, suc, ◌+◌, ◌-◌, ◌*◌, ◌/◌, ◌^◌, Bool, not, ◌&&◌, ◌||◌, List, [], ◌∷◌, ltb, leb, ◌==◌, none,
  some, if◌then◌else◌, get_elem?, get_or, sub8, u16, u32, u64, sub64,
}
use libqtl.Calendar.{month_days}
use libqtl.Datetime.{ticks_per_second, datetime_from_ymd, datetime_from_hmsu}

abbrev pub pow10 : List ℕ
pow10 =
    1 ∷ 10 ∷ 100 ∷ 1000 ∷ 10_000 ∷ 100_000 ∷ 1_000_000 ∷ 10_000_000 ∷ 100_000_000 ∷ 1_000_000_000
    ∷ []

-- `str[i]`
unfoldable pub read : List ℕ → ℕ → Result ℕ
read str i = elim (get_elem? str i) [ none ↦ fault | some c ↦ ok c ]

-- `(d = p[i] - '0') > 9` refuses; the difference is an `unsigned char`.
unfoldable pub read_digit : List ℕ → ℕ → Result ℕ
read_digit str i = do c ← read str i; guard (leb (sub8 c b'0') 9); ok (sub8 c b'0')

unfoldable pub parse_2d : List ℕ → ℕ → Result ℕ
parse_2d str i = do d0 ← read_digit str i; d1 ← read_digit str (i + 1); ok (d0 * 10 + d1)

unfoldable pub parse_4d : List ℕ → ℕ → Result ℕ
parse_4d str i = do
  d0 ← read_digit str i
  d1 ← read_digit str (i + 1)
  d2 ← read_digit str (i + 2)
  d3 ← read_digit str (i + 3)
  ok (d0 * 1000 + d1 * 100 + d2 * 10 + d3)

-- `str[i] != c` refuses.
unfoldable pub expect : List ℕ → ℕ → ℕ → Result (Unit {0})
expect str i c = do b ← read str i; guard (b == c)

-- The length and the separators.
unfoldable pub check_shape : List ℕ → ℕ → Result (Unit {0})
check_shape str len = do
  guard (leb 20 len)
  expect str 4 b'-'
  expect str 7 b'-'
  expect str 13 b':'
  expect str 16 b':'
  ch ← read str 10
  guard ((ch == b'T') || (ch == b' ') || (ch == b't'))

-- The six numbers before the fraction.
pub record Stamp : Type 0 where
  pub year : ℕ
  pub month : ℕ
  pub day : ℕ
  pub hour : ℕ
  pub min : ℕ
  pub sec : ℕ

unfoldable pub parse_stamp : List ℕ → Result Stamp
parse_stamp str = do
  year ← parse_4d str 0
  guard (leb 1 year)
  month ← parse_2d str 5
  guard (leb 1 month && leb month 12)
  day ← parse_2d str 8
  guard (leb 1 day && leb day 31)
  hour ← parse_2d str 11
  guard (leb hour 23)
  min ← parse_2d str 14
  guard (leb min 59)
  sec ← parse_2d str 17
  guard (leb sec 59)
  guard (not (ltb 28 day && ltb (month_days year month) day))
  ok (record { year = year; month = month; day = day; hour = hour; min = min; sec = sec })

-- The loop over the digits of the fraction, with `rounds` bytes before the end of the text. It
-- returns `cur` and `nsec`.
unfoldable pub scan_digits : List ℕ → ℕ → ℕ → ℕ → Result (ℕ × ℕ)
scan_digits str zero cur nsec = ok (cur, nsec)
scan_digits str (suc rounds) cur nsec = do
  c ← read str cur
  let digit = sub8 c b'0'
  let rest = scan_digits str rounds (cur + 1) (u32 (nsec * 10 + digit))
  if ltb 9 digit then ok (cur, nsec) else rest

-- The fraction after its point: the offset `cur`, the byte `ch` before it, and `nsec`.
unfoldable pub parse_digits : List ℕ → ℕ → Result (ℕ × ℕ × ℕ)
parse_digits str len = do
  (cur, nsec) ← scan_digits str (len - 20) 20 0
  guard (leb 1 (cur - 20) && leb (cur - 20) 9)
  guard (not (cur == len))
  ch ← read str cur
  ok (cur + 1, ch, u32 (nsec * get_or pow10 (9 - (cur - 20)) 0))

unfoldable pub parse_fraction : List ℕ → ℕ → Result (ℕ × ℕ × ℕ)
parse_fraction str len = do
  ch ← read str 19
  if ch == b'.' then parse_digits str len else ok (20, ch, 0)

-- A numeric zone designator whose sign is `ch`: the final `cur`, and `offset` as a 64-bit pattern.
unfoldable pub parse_offset : List ℕ → ℕ → ℕ → ℕ → Result (ℕ × ℕ)
parse_offset str len cur ch = do
  guard (not (ltb (cur + 5) len) && ((ch == b'+') || (ch == b'-')))
  expect str (cur + 2) b':'
  zone_hour ← parse_2d str cur
  guard (leb zone_hour 23)
  zone_min ← parse_2d str (cur + 3)
  guard (leb zone_min 59)
  let offset = u64 ((zone_hour * 60 + zone_min) * 60 * ticks_per_second)
  ok (cur + 5, (if ch == b'-' then sub64 0 offset else offset))

unfoldable pub parse_zone : List ℕ → ℕ → ℕ → ℕ → Result (ℕ × ℕ)
parse_zone str len cur ch =
    if (ch == b'Z') || (ch == b'z') then ok (cur, 0) else parse_offset str len cur ch

unfoldable pub datetime_from_iso8601 : List ℕ → ℕ → Result ℕ
datetime_from_iso8601 str len = do
  check_shape str len
  s ← parse_stamp str
  (cur, ch, nsec) ← parse_fraction str len
  (last, offset) ← parse_zone str len cur ch
  guard (last == len)
  ok (
      sub64
        (u64 (
          datetime_from_ymd s.year s.month s.day
          + datetime_from_hmsu s.hour s.min s.sec (nsec / 1000)))
        offset)
