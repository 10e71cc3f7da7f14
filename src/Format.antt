-- ===== src/Format.antt =====
-- src/qtl_datetime.c, the printer: `timestamp_format_internal` and `datetime_format`. Each byte of the
-- text is stored once, so the stores make up a list; the final 0 is among them. What the code stores
-- does not depend on the buffer, whose length `len` is only tested, so the list may be longer than
-- the buffer: those stores are out of bounds.
pub mod ReadBack
pub mod Fraction
pub mod RoundTrip
use libqtl.Base.{
  ℕ, zero, suc, ◌+◌, ◌-◌, ◌*◌, ◌/◌, ◌%◌, Option, none, some, List, [], ◌∷◌, ◌++◌, leb, ltb, ◌==◌,
  if◌then◌else◌, get_or, u32, ℤ, pos, negsuc,
}
use libqtl.Calendar.{Ymd, rdn_to_ymd}
use libqtl.Datetime.{ticks_per_day, ticks_per_second}
use libqtl.Iso8601.{pow10}

-- `'0' + d`
abbrev pub digit : ℕ → ℕ
digit d = b'0' + d

-- `p[n-1] = '0' + (v % 10); v /= 10; …; p[0] = '0' + (v % 10)`
unfoldable pub digits : ℕ → ℕ → List ℕ
digits zero v = []
digits (suc n) v = digits n (v / 10) ++ digit (v % 10) ∷ []

-- The 19 bytes `YYYY-MM-DDThh:mm:ss`; `v` counts the seconds of the day.
unfoldable pub date_time_text : Ymd → ℕ → List ℕ
date_time_text t v =
    digit (t.year / 10 / 10 / 10 % 10)
    ∷ digit (t.year / 10 / 10 % 10)
    ∷ digit (t.year / 10 % 10)
    ∷ digit (t.year % 10)
    ∷ b'-'
    ∷ digit (t.month / 10 % 10)
    ∷ digit (t.month % 10)
    ∷ b'-'
    ∷ digit (t.day / 10 % 10)
    ∷ digit (t.day % 10)
    ∷ b'T'
    ∷ digit (v / 10 / 6 / 10 / 6 / 10 % 10)
    ∷ digit (v / 10 / 6 / 10 / 6 % 10)
    ∷ b':'
    ∷ digit (v / 10 / 6 / 10 % 6)
    ∷ digit (v / 10 / 6 % 10)
    ∷ b':'
    ∷ digit (v / 10 % 6)
    ∷ digit (v % 10)
    ∷ []

-- The fraction; its `switch` stores `precision` digits, 9 at most.
unfoldable pub fraction_text : ℕ → ℕ → List ℕ
fraction_text zero nsec = []
fraction_text precision nsec = b'.' ∷ digits precision (u32 (nsec / get_or pow10 (9 - precision) 0))

-- The sign and `hh:mm`; `v` is the absolute value of the offset in minutes.
unfoldable pub offset_text : ℕ → ℕ → List ℕ
offset_text sign v =
    sign
    ∷ digit (v / 10 / 6 / 10 % 10)
    ∷ digit (v / 10 / 6 % 10)
    ∷ b':'
    ∷ digit (v / 10 % 6)
    ∷ digit (v % 10)
    ∷ []

unfoldable pub zone_text : ℤ → List ℕ
zone_text (pos zero) = b'Z' ∷ []
zone_text (pos n) = offset_text b'+' n
zone_text (negsuc n) = offset_text b'-' (suc n)

-- The return value, and the bytes stored from `dst` on.
pub record Printed : Type 0 where
  pub dlen : ℕ
  pub text : List ℕ

-- `none` where `rdn_to_ymd` reads outside its table.
unfoldable pub timestamp_format_internal : ℕ → ℕ → ℤ → ℕ → Option Printed
timestamp_format_internal len dt zone_offset precision =
    let dlen : ℕ = if precision == 0 then 20 else 20 + (1 + precision) in
    let sec : ℕ = dt % ticks_per_day / ticks_per_second in
    let nsec : ℕ = u32 (dt % ticks_per_day % ticks_per_second) in
    let printed : Option Printed = elim (rdn_to_ymd (u32 (dt / ticks_per_day))) [
      | none ↦ none
      | some t ↦ some (record {
        dlen = dlen;
        text =
            date_time_text t (u32 (sec % ticks_per_second))
            ++ (fraction_text precision nsec ++ (zone_text zone_offset ++ 0 ∷ []));
      })
    ] in
    if leb len dlen then some (record { dlen = 0; text = [] }) else printed

-- How many digits the fraction gets.
unfoldable pub precision_of : ℕ → ℕ
precision_of dt =
    let f : ℕ = u32 (dt % ticks_per_day % ticks_per_second) in
    if f == 0 then 0 else if f % 1_000_000 == 0 then 3 else if f % 1000 == 0 then 6 else 9

-- `offset` is in the range of `int32_t`, to which the call converts it.
unfoldable pub datetime_format : ℕ → ℕ → ℤ → Option Printed
datetime_format len dt offset = timestamp_format_internal len dt offset (precision_of dt)
