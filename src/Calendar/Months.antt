-- ===== src/Calendar/Months.antt =====
-- What the four month tables of the C file say of one another.
use libqtl.Base.{
  ℕ, suc, ◌+◌, ◌*◌, ◌/◌, ◌≤◌, ◌<◌, ◌≡◌, Bool, true, false, ◌&&◌, some, arith, ltb, ◌==◌,
  if◌then◌else◌, to_int, get_elem?, get_or,
}
use libqtl.Calendar.{days_preceding_month, day_offset, days_table}

-- Days before month m, days in it, and days from the 1st of March before it.
abbrev pub before : Bool → ℕ → ℕ
before b m = get_or (days_preceding_month b) m 0

abbrev pub month_length : Bool → ℕ → ℕ
month_length b m = get_or (days_table ((m == 2) && b)) m 0

abbrev pub offset : ℕ → ℕ
offset m = get_or day_offset m 0

pub record Tables (b : Bool) (m : ℕ) : Type 0 where
  pub winter : m ≤ 2 → before b m + 306 ≡ offset m
  pub summer : 3 ≤ m → before b m ≡ offset m + 59 + to_int b
  pub winter_end : m ≤ 2 → offset m + month_length b m ≤ 365 + to_int b
  pub summer_end : 3 ≤ m → offset m + month_length b m ≤ 306
  pub next_month : m < 12 → before b (suc m) ≡ before b m + month_length b m
  pub year_end : m ≡ 12 → before b m + month_length b m ≡ 365 + to_int b
  pub in_year : before b m + month_length b m ≤ 365 + to_int b
  pub long : (28 ≤ month_length b m) × (month_length b m ≤ 31)

pub tables : (b : Bool) (m : ℕ) → 1 ≤ m → m ≤ 12 → Tables b m
tables true (suc (suc (suc (suc (suc (suc (suc (suc (suc (suc (suc (suc (suc k))))))))))))) lo hi =
    absurd (omega arith)
tables false (suc (suc (suc (suc (suc (suc (suc (suc (suc (suc (suc (suc (suc k))))))))))))) lo hi =
    absurd (omega arith)
tables b m lo hi = omega arith

-- The linear formula of `rdn_to_ymd` finds the month of every day.
pub month_of_day :
    (b : Bool) (m d : ℕ)
    → 1 ≤ m
    → m ≤ 12
    → 1 ≤ d
    → d ≤ month_length b m
    → (535 * (offset m + d) + 48950) / 16384 ≡ (if ltb m 3 then m + 12 else m)
month_of_day true (suc (suc (suc (suc (suc (suc (suc (suc (suc (suc (suc (suc (suc k))))))))))))) d
      lo hi p q =
    absurd (omega arith)
month_of_day false (suc (suc (suc (suc (suc (suc (suc (suc (suc (suc (suc (suc (suc k))))))))))))) d
      lo hi p q =
    absurd (omega arith)
month_of_day b m d lo hi p q = omega arith

pub offset_found : (m : ℕ) → 1 ≤ m → m ≤ 12 → get_elem? day_offset m ≡ some (offset m)
offset_found (suc (suc (suc (suc (suc (suc (suc (suc (suc (suc (suc (suc (suc k))))))))))))) lo hi =
    absurd (omega arith)
offset_found m lo hi = ground arith
