-- ===== src/Format/Fraction.antt =====
-- The parser's loop over the digits of the fraction, on digits that the printer stored.
use mathlib.Core.Path.{ap₂}
use libqtl.Base.{
  ℕ, zero, suc, ◌+◌, ◌-◌, ◌*◌, ◌/◌, ◌%◌, ◌^◌, ◌≤◌, ◌<◌, ◌≡◌, ap, ◌∙◌, some, List, arith, get_elem?,
  get_or, u32, ltb, sub8, true, false, leb, ◌&&◌, ◌==◌,
}
use libqtl.Iso8601.{scan_digits, parse_digits, pow10}
use libqtl.Iso8601.Outcome.{ok}
use libqtl.Iso8601.Numbers.{read_lem}
use libqtl.Format.{digit}

-- The bytes from `cur` on are the last n digits of v.
abbrev pub HasDigits : List ℕ → ℕ → ℕ → ℕ → Type 0
HasDigits str cur zero v = Unit
HasDigits str cur (suc n) v =
    HasDigits str cur n (v / 10) × (get_elem? str (cur + n) ≡ some (digit (v % 10)))

-- The number of those digits.
abbrev pub low_digits : ℕ → ℕ → ℕ
low_digits zero v = 0
low_digits (suc n) v = low_digits n (v / 10) * 10 + v % 10

low_digits-le : (n v : ℕ) → low_digits n v ≤ v
low_digits-le zero v = omega arith
low_digits-le (suc n) v = omega (arith, low_digits-le n (v / 10))

scan_step :
    (str : List ℕ) (r cur acc a : ℕ)
    → get_elem? str cur ≡ some (digit a)
    → a < 10
    → acc * 10 + a < 2 ^ 32
    → scan_digits str (suc r) cur acc ≡ scan_digits str r (cur + 1) (acc * 10 + a)
unfolding scan_digits
scan_step str r cur acc a e h k =
    let d : sub8 (digit a) b'0' ≡ a = omega arith in
    let g : ltb 9 a ≡ false = ground arith in
    let w : u32 (acc * 10 + a) ≡ acc * 10 + a = omega arith in
    rw (read_lem str cur (digit a) e, d, g, w)

-- The loop reads n digits, and goes on behind them.
scan_digits_lem :
    (str : List ℕ) (n r cur v : ℕ)
    → v < 2 ^ 32
    → HasDigits str cur n v
    → scan_digits str (n + r) cur 0 ≡ scan_digits str r (cur + n) (low_digits n v)
scan_digits_lem str zero r cur v h d =
    ap₂ (λ i j. scan_digits str i j 0) (omega arith) (omega arith)
scan_digits_lem str (suc n) r cur v h d =
    let small : low_digits n (v / 10) * 10 + v % 10 < 2 ^ 32 =
      omega (arith, low_digits-le n (v / 10)) in
    ap (λ i. scan_digits str i cur 0) (omega arith)
    ∙ scan_digits_lem str n (suc r) cur (v / 10) (omega arith) d.0
    ∙ scan_step str r (cur + n) (low_digits n (v / 10)) (v % 10) d.1 (omega arith) small
    ∙ ap (λ i. scan_digits str r i (low_digits (suc n) v)) (omega arith)

scan_stop :
    (str : List ℕ) (r cur acc c : ℕ)
    → get_elem? str cur ≡ some c
    → 9 < sub8 c b'0'
    → scan_digits str (suc r) cur acc ≡ ok (cur, acc)
unfolding scan_digits
scan_stop str r cur acc c e h =
    let g : ltb 9 (sub8 c b'0') ≡ true = ground arith in rw (read_lem str cur c e, g)

-- One to nine digits with another byte behind them are read as a whole fraction.
pub parse_digits_lem :
    (str : List ℕ) (n v c len : ℕ)
    → 1 ≤ n
    → n ≤ 9
    → v < 2 ^ 32
    → HasDigits str 20 n v
    → get_elem? str (20 + n) ≡ some c
    → 9 < sub8 c b'0'
    → len ≡ 21 + n
    → parse_digits str len ≡ ok (20 + n + 1, c, u32 (low_digits n v * get_or pow10 (9 - n) 0))
unfolding parse_digits
parse_digits_lem str n v c len lo hi h d e k p =
    let r : len - 20 ≡ n + 1 = omega arith in
    let scanned : scan_digits str (n + 1) 20 0 ≡ ok (20 + n, low_digits n v) =
      scan_digits_lem str n 1 20 v h d ∙ scan_stop str 0 (20 + n) (low_digits n v) c e k in
    let m : 20 + n - 20 ≡ n = omega arith in
    let g : (leb 1 n && leb n 9) ≡ true = ground arith in
    let f : ((20 + n) == len) ≡ false = ground arith in
    rw (r, scanned, m, g, f, read_lem str (20 + n) c e)
