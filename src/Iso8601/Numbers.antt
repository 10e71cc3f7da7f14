-- ===== src/Iso8601/Numbers.antt =====
-- What the number readers return on digits.
use libqtl.Base.{ℕ, ◌+◌, ◌*◌, ◌<◌, ◌≡◌, List, some, arith, get_elem?, leb, sub8, true}
use libqtl.Iso8601.{read, read_digit, parse_2d, parse_4d, expect}
use libqtl.Iso8601.Outcome.{ok}

pub read_lem : (str : List ℕ) (i c : ℕ) → get_elem? str i ≡ some c → read str i ≡ ok c
unfolding read
read_lem str i c e = rw (e, read)

pub expect_lem : (str : List ℕ) (i c : ℕ) → get_elem? str i ≡ some c → expect str i c ≡ ok tt
unfolding expect
expect_lem str i c e = rw (read_lem str i c e) (ground arith)

pub read_digit_lem :
    (str : List ℕ) (i a : ℕ) → get_elem? str i ≡ some (b'0' + a) → a < 10 → read_digit str i ≡ ok a
unfolding read_digit
read_digit_lem str i a e h =
    let d : sub8 (b'0' + a) b'0' ≡ a = omega arith in
    let g : leb a 9 ≡ true = ground arith in rw (read_lem str i (b'0' + a) e, d, g)

pub parse_2d_lem :
    (str : List ℕ) (i a b : ℕ)
    → get_elem? str i ≡ some (b'0' + a)
    → get_elem? str (i + 1) ≡ some (b'0' + b)
    → a < 10
    → b < 10
    → parse_2d str i ≡ ok (a * 10 + b)
unfolding parse_2d
parse_2d_lem str i a b e f h k = rw (read_digit_lem str i a e h, read_digit_lem str (i + 1) b f k)

pub parse_4d_lem :
    (str : List ℕ) (i a b c d : ℕ)
    → get_elem? str i ≡ some (b'0' + a)
    → get_elem? str (i + 1) ≡ some (b'0' + b)
    → get_elem? str (i + 2) ≡ some (b'0' + c)
    → get_elem? str (i + 3) ≡ some (b'0' + d)
    → a < 10
    → b < 10
    → c < 10
    → d < 10
    → parse_4d str i ≡ ok (a * 1000 + b * 100 + c * 10 + d)
unfolding parse_4d
parse_4d_lem str i a b c d p q r s h k l m = rw (
  read_digit_lem str i a p h,
  read_digit_lem str (i + 1) b q k,
  read_digit_lem str (i + 2) c r l,
  read_digit_lem str (i + 3) d s m,
)
