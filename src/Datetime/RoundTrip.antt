-- ===== src/Datetime/RoundTrip.antt =====
-- Encoding and decoding a time stamp.
use libqtl.Base.{ℕ, ◌+◌, ◌*◌, ◌/◌, ◌%◌, ◌≤◌, ◌<◌, ◌≡◌, ◌∙◌, ap, some, arith, u32, u64}
use libqtl.Calendar.{Ymd, ymd_to_rdn, rdn_to_ymd}
use libqtl.Calendar.RoundTrip.{IsDate, rdn_to_ymd-ymd_to_rdn}
use libqtl.Calendar.Days.{last_rdn, rdn_le_last, ymd_to_rdn-rdn_to_ymd}
use libqtl.Datetime.{
  ticks_per_day, ticks_per_second, datetime_from_ymd, datetime_from_hmsu, Fields, decode_time,
  datetime_decode,
}

-- A time of day.
pub record IsTime (h mi s us : ℕ) : Type 0 where
  pub hour_in : h < 24
  pub minute_in : mi < 60
  pub second_in : s < 60
  pub usec_in : us < 1_000_000

-- The stamp of a date and a time, as `datetime_from_iso8601` adds it up.
abbrev pub stamp : Fields → ℕ
stamp t =
    u64
      (datetime_from_ymd t.year t.month t.day + datetime_from_hmsu t.hour t.minute t.second t.usec)

pub record IsFields (t : Fields) : Type 0 where
  pub date : IsDate t.year t.month t.day
  pub time : IsTime t.hour t.minute t.second t.usec

pub hmsu_lem :
    (h mi s us : ℕ)
    → IsTime h mi s us
    → datetime_from_hmsu h mi s us ≡ ((h * 60 + mi) * 60 + s) * 1_000_000 + us
unfolding datetime_from_hmsu
hmsu_lem h mi s us v = omega arith

pub from_ymd_lem :
    (y m d : ℕ) → IsDate y m d → datetime_from_ymd y m d ≡ ymd_to_rdn y m d * 86_400_000_000
unfolding datetime_from_ymd
from_ymd_lem y m d v = omega (arith, rdn_le_last y m d v)

-- The time of day is the remainder by a day, the day number the quotient, and nothing wraps.
pub stamp_lem :
    (t : Fields)
    → IsFields t
    → stamp t
      ≡ ymd_to_rdn t.year t.month t.day * 86_400_000_000
        + (((t.hour * 60 + t.minute) * 60 + t.second) * 1_000_000 + t.usec)
stamp_lem t v = omega (
  arith,
  hmsu_lem t.hour t.minute t.second t.usec v.time,
  from_ymd_lem t.year t.month t.day v.date,
  rdn_le_last t.year t.month t.day v.date,
)

-- What the divisions of the decoder find in a stamp.
pub record Parts (dt rdn h mi s us : ℕ) : Type 0 where
  pub sod_part : dt % ticks_per_day / ticks_per_second ≡ (h * 60 + mi) * 60 + s
  pub rdn_part : u32 (dt / ticks_per_day) ≡ rdn
  pub hour_part : u32 (dt % ticks_per_day / ticks_per_second) / 60 / 60 ≡ h
  pub minute_part : u32 (dt % ticks_per_day / ticks_per_second) / 60 % 60 ≡ mi
  pub second_part : u32 (dt % ticks_per_day / ticks_per_second) % 60 ≡ s
  pub usec_part : dt % ticks_per_day % ticks_per_second ≡ us

pub Parts-of_time :
    (n h mi s us : ℕ)
    → n ≤ last_rdn
    → IsTime h mi s us
    → Parts (n * 86_400_000_000 + (((h * 60 + mi) * 60 + s) * 1_000_000 + us)) n h mi s us
Parts-of_time n h mi s us k v =
    let w : ((h * 60 + mi) * 60 + s < 86_400)
        × ((((h * 60 + mi) * 60 + s) * 1_000_000 + us) < 86_400_000_000) =
      omega (arith, v) in
    let sod : u32 (
          (n * 86_400_000_000 + (((h * 60 + mi) * 60 + s) * 1_000_000 + us))
          % ticks_per_day
          / ticks_per_second)
        ≡ (h * 60 + mi) * 60 + s =
      omega (arith, w, v.usec_in) in
    record {
      sod_part = omega (arith, w, v.usec_in);
      rdn_part = omega (arith, w);
      hour_part = rw sod (omega (arith, v));
      minute_part = rw sod (omega (arith, v));
      second_part = rw sod (omega (arith, v));
      usec_part = omega (arith, w, v.usec_in);
    }

pub stamp-Parts :
    (t : Fields)
    → IsFields t
    → Parts (stamp t) (ymd_to_rdn t.year t.month t.day) t.hour t.minute t.second t.usec
stamp-Parts t v = rw (stamp_lem t v) (
    Parts-of_time (ymd_to_rdn t.year t.month t.day) t.hour t.minute t.second t.usec
      (rdn_le_last t.year t.month t.day v.date) v.time)

decode_time-Parts :
    (dt n : ℕ) (t : Ymd) (h mi s us : ℕ)
    → IsTime h mi s us
    → Parts dt n h mi s us
    → decode_time dt t ≡ record {
      year = t.year;
      month = t.month;
      day = t.day;
      hour = h;
      minute = mi;
      second = s;
      usec = us;
    }
unfolding decode_time
decode_time-Parts dt n t h mi s us v p = ground arith

datetime_decode_lem :
    (dt n : ℕ) (t : Ymd)
    → u32 (dt / ticks_per_day) ≡ n
    → rdn_to_ymd n ≡ some t
    → datetime_decode dt ≡ some (decode_time dt t)
unfolding datetime_decode
datetime_decode_lem dt n t e f = rw (e, f, datetime_decode)

-- Decoding the stamp of a valid date, up to the year 65535, and time gives back all seven fields.
pub datetime_decode-stamp : (t : Fields) → IsFields t → datetime_decode (stamp t) ≡ some t
datetime_decode-stamp t v =
    let p = stamp-Parts t v in
    datetime_decode_lem (stamp t) _ _ p.rdn_part (rdn_to_ymd-ymd_to_rdn t.year t.month t.day v.date)
    ∙ ap some (decode_time-Parts (stamp t) _ _ t.hour t.minute t.second t.usec v.time p)

-- 65535-12-31T23:59:59.999999, far above `MAX_DATE_TIME`.
abbrev pub last_stamp : ℕ
last_stamp = last_rdn * 86_400_000_000 + 86_399_999_999

-- Decoding a stamp up to that of 65535-12-31T23:59:59.999999 finds a valid date and time, whose stamp
-- is the one decoded.
pub stamp-datetime_decode :
    (dt : ℕ)
    → dt ≤ last_stamp
    → (t : Fields) × (datetime_decode dt ≡ some t) × IsFields t × (stamp t ≡ dt)
stamp-datetime_decode dt h =
    let (c, e, v, f, _) = ymd_to_rdn-rdn_to_ymd (dt / 86_400_000_000) (omega arith) in
    let t : Fields = record {
      year = c.year;
      month = c.month;
      day = c.day;
      hour = dt % 86_400_000_000 / 1_000_000 / 60 / 60;
      minute = dt % 86_400_000_000 / 1_000_000 / 60 % 60;
      second = dt % 86_400_000_000 / 1_000_000 % 60;
      usec = dt % 86_400_000_000 % 1_000_000;
    } in
    let w : IsFields t = record { date = v; time = omega arith } in
    let same : stamp t ≡ dt = omega (arith, stamp_lem t w, f) in
    (t, rw same at (datetime_decode-stamp t w), w, same)
