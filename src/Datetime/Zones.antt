-- ===== src/Datetime/Zones.antt =====
-- The time of Windows as a stamp.
use libqtl.Base.{ℕ, ◌+◌, ◌*◌, ◌/◌, ◌^◌, ◌≤◌, ◌<◌, ◌≡◌, arith}
use libqtl.Datetime.{datetime_now}
use libqtl.Datetime.System.{gettimeofday, to_long}

-- A file time counts tenths of microseconds from the year 1601. From 1970 on, as long as the seconds from
-- then fit in 31 bits, the stamp that `datetime_now` makes of it on Windows is its microseconds after the
-- stamp of 1601-01-01T00:00:00.
pub datetime_now-gettimeofday :
    (high low : ℕ)
    → 116_444_736_000_000_000 ≤ high * 2 ^ 32 + low
    → high * 2 ^ 32 + low < 116_444_736_000_000_000 + 2 ^ 31 * 10_000_000
    → datetime_now (gettimeofday high low) ≡ 50_491_123_200_000_000 + (high * 2 ^ 32 + low) / 10
unfolding datetime_now gettimeofday to_long
datetime_now-gettimeofday high low from to = ground (arith, from, to)
