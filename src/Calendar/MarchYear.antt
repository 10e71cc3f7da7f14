-- ===== src/Calendar/MarchYear.antt =====
-- The arithmetic of `rdn_to_ymd` over years that begin in March: from the day number of the d-th
-- day of March-year y, `march_of_rdn` finds y and d again, and no word of it wraps.
use libqtl.Base.{ℕ, ◌+◌, ◌-◌, ◌*◌, ◌/◌, ◌%◌, ◌≤◌, ◌<◌, ◌≡◌, arith, u16, u32, sub32}
use libqtl.Calendar.{march_of_rdn}

-- A year in its cycle: 400 q + 100 r + 4 t + u.
record Cycle (y : ℕ) : Type 0 where
  q : ℕ
  r : ℕ
  t : ℕ
  u : ℕ
  sum : y ≡ 400 * q + 100 * r + 4 * t + u
  r_lt : r < 4
  t_lt : t < 25
  u_lt : u < 4

cycle : (y : ℕ) → Cycle y
cycle y = record {
  q = y / 400;
  r = y % 400 / 100;
  t = y % 100 / 4;
  u = y % 4;
  sum = omega arith;
  r_lt = omega arith;
  t_lt = omega arith;
  u_lt = omega arith;
}

-- Days up to the d-th of March-year y.
abbrev pub march_days : ℕ → ℕ → ℕ
march_days y d = 365 * y + y / 4 - y / 100 + y / 400 + d

march_days-Cycle :
    (y d : ℕ) (c : Cycle y)
    → march_days y d ≡ 146097 * c.q + 36524 * c.r + 1461 * c.t + 365 * c.u + d
march_days-Cycle y d c = omega arith

-- A day of a March-year: day 366 is the 29th of February of the next civil year.
abbrev pub IsMarchDay : ℕ → ℕ → Type 0
IsMarchDay y d =
    (1 ≤ d)
    × (d ≤ 365 + ((y + 1) / 4 - y / 4) + ((y + 1) / 400 - y / 400) - ((y + 1) / 100 - y / 100))

-- The last year that the 32-bit product `100 * Z` has room for is above this one.
abbrev pub last_year : ℕ
last_year = 65535

module _ (y d : ℕ) (c : Cycle y) (v : IsMarchDay y d) where
  open c use {q, r, t, u}

  -- The quotients of the algorithm, in turn.
  century : (100 * march_days y d - 25) / 3652425 ≡ 4 * q + r
  century = omega (arith, march_days-Cycle y d c, c.r_lt, c.t_lt, c.u_lt, c.sum)

  year_back : (100 * (3 * q + r) + (100 * march_days y d - 25)) / 36525 ≡ y
  year_back = omega (arith, march_days-Cycle y d c, c.r_lt, c.t_lt, c.u_lt, c.sum)

  day_back : 3 * q + r + march_days y d ≡ 1461 * y / 4 + d
  day_back = omega (arith, march_days-Cycle y d c, c.r_lt, c.t_lt, c.u_lt, c.sum)

  small : y ≤ last_year → (1 ≤ march_days y d) × (march_days y d < 23936534) × (d ≤ 366) × (q < 164)
  small h = (
    omega arith,
    omega (arith, march_days-Cycle y d c, c.r_lt, c.t_lt, c.u_lt, c.sum),
    omega arith,
    omega (arith, c.sum),
  )

-- The same with the words of the C code: none of them wraps.
module _ (y d z : ℕ) (v : IsMarchDay y d) (h : y ≤ last_year) (e : z ≡ march_days y d)
    (c : Cycle y) where
  open c use {q, r}

  bounds : (1 ≤ z) × (z < 23936534) × (d ≤ 366) × (q < 164)
  bounds = let b = small y d c v h in rw e b

  word_h : sub32 (100 * z) 25 ≡ 100 * z - 25
  word_h = omega (arith, bounds)

  word_a : (100 * z - 25) / 3652425 ≡ 4 * q + r
  word_a = rw e (century y d c v)

  word_b : sub32 (4 * q + r) ((4 * q + r) / 4) ≡ 3 * q + r
  word_b = omega (arith, bounds, c.r_lt)

  word_y : u16 (u32 (100 * (3 * q + r) + (100 * z - 25)) / 36525) ≡ y
  word_y =
      let n : u32 (100 * (3 * q + r) + (100 * z - 25)) ≡ 100 * (3 * q + r) + (100 * z - 25) =
        omega (arith, bounds, c.r_lt) in
      let b : (100 * (3 * q + r) + (100 * z - 25)) / 36525 ≡ y = rw e (year_back y d c v) in
      rw (n, b) (omega arith)

  word_d : u16 (sub32 (3 * q + r + z) (1461 * y / 4)) ≡ d
  word_d = omega (arith, bounds, day_back y d c v, e)

pub march_of_rdn_lem :
    (y d rdn : ℕ)
    → IsMarchDay y d
    → y ≤ last_year
    → rdn + 307 ≡ march_days y d
    → march_of_rdn rdn ≡ record { y = y; d = d; m = (535 * d + 48950) / 16384 }
unfolding march_of_rdn
march_of_rdn_lem y d rdn v h e =
    let c = cycle y in
    let z : u32 (u32 (rdn + 1) + 306) ≡ rdn + 307 = omega (arith, bounds y d (rdn + 307) v h e c) in
    let m : u16 ((535 * d + 48950) / 16384) ≡ (535 * d + 48950) / 16384 =
      omega (arith, bounds y d (rdn + 307) v h e c) in
    rw (
      z,
      word_h y d (rdn + 307) v h e c,
      word_a y d (rdn + 307) v h e c,
      word_b y d (rdn + 307) v h e c,
      word_y y d (rdn + 307) v h e c,
      word_d y d (rdn + 307) v h e c,
      m,
    )
