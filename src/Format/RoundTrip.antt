-- ===== src/Format/RoundTrip.antt =====
-- Printing a time stamp and parsing the text.
use libqtl.Base.{
  ℕ, ◌+◌, ◌*◌, ◌/◌, ◌%◌, ◌≤◌, ◌<◌, ◌≡◌, refl, sym, ap, ◌∙◌, some, List, [], ◌∷◌, ◌++◌, arith,
  get_elem?, u32, pos, leb, true, false, ◌==◌, if◌then◌else◌, Bool-cases, inl, inr,
}
use libqtl.Calendar.{Ymd}
use libqtl.Calendar.RoundTrip.{rdn_to_ymd-ymd_to_rdn, ymd_to_rdn_lem, day_of_year}
use libqtl.Iso8601.{parse_fraction, parse_zone, datetime_from_iso8601, parse_digits}
use libqtl.Iso8601.Outcome.{ok}
use libqtl.Iso8601.Numbers.{read_lem}
use libqtl.Format.{
  digits, date_time_text, fraction_text, zone_text, Printed, timestamp_format_internal,
  precision_of, datetime_format,
}
use libqtl.Format.ReadBack.{Begins, text-Begins, check_shape_lem, parse_stamp_lem}
use libqtl.Format.Fraction.{HasDigits, parse_digits_lem, low_digits}
use libqtl.Datetime.{Fields, ticks_per_second, max_date_time}
use libqtl.Datetime.RoundTrip.{IsFields, stamp, stamp-Parts, stamp_lem, stamp-datetime_decode}

abbrev ymd_of : Fields → Ymd
ymd_of t = record {
  year = t.year;
  month = t.month;
  day = t.day;
  yday = day_of_year t.year t.month t.day;
}

abbrev seconds_of : Fields → ℕ
seconds_of t = (t.hour * 60 + t.minute) * 60 + t.second

-- The whole parser, from its parts.
assembled :
    (str : List ℕ) (t : Fields) (len cur ch nsec : ℕ)
    → IsFields t
    → t.year ≤ 9999
    → 20 ≤ len
    → Begins str (ymd_of t) (seconds_of t)
    → parse_fraction str len ≡ ok (cur, ch, nsec)
    → parse_zone str len cur ch ≡ ok (len, 0)
    → datetime_from_iso8601 str len ≡ ok (stamp (record t { usec = nsec / 1000 }))
unfolding datetime_from_iso8601
assembled str t len cur ch nsec v y h b f z =
    let g : (len == len) ≡ true = ground arith in
    rw
      (
        check_shape_lem str (ymd_of t) (seconds_of t) len b h,
        parse_stamp_lem str (ymd_of t) t.hour t.minute t.second b v.date y v.time.hour_in
            v.time.minute_in v.time.second_in,
        f,
        z,
        g,
      )
      (ap ok (omega arith))

-- What the printer stores for a stamp and a precision, in UTC.
abbrev tail_of : Fields → ℕ → List ℕ
tail_of t precision = fraction_text precision t.usec ++ (zone_text (pos 0) ++ 0 ∷ [])

abbrev text_of : Fields → ℕ → List ℕ
text_of t precision = date_time_text (ymd_of t) (seconds_of t) ++ tail_of t precision

printed :
    (t : Fields) (len precision dlen : ℕ)
    → IsFields t
    → dlen ≡ (if precision == 0 then 20 else 20 + (1 + precision))
    → dlen < len
    → timestamp_format_internal len (stamp t) (pos 0) precision
      ≡ some (record { dlen = dlen; text = text_of t precision })
unfolding timestamp_format_internal
printed t len precision dlen v e h =
    let p = stamp-Parts t v in
    let g : leb len dlen ≡ false = ground arith in
    let sod : u32 (seconds_of t % ticks_per_second) ≡ seconds_of t = omega (arith, v.time) in
    let us : u32 t.usec ≡ t.usec = omega (arith, v.time) in
    rw
      (
        ← e,
        g,
        p.rdn_part,
        rdn_to_ymd-ymd_to_rdn t.year t.month t.day v.date,
        p.sod_part,
        sod,
        p.usec_part,
        us,
      )
      (ap (λ n. some (record { dlen = n; text = text_of t precision })) (sym e))

zone_utc : (str : List ℕ) (len cur : ℕ) → parse_zone str len cur b'Z' ≡ ok (cur, 0)
unfolding parse_zone
zone_utc str len cur = refl

fraction_none :
    (str : List ℕ) (len : ℕ)
    → get_elem? str 19 ≡ some b'Z'
    → parse_fraction str len ≡ ok (20, b'Z', 0)
unfolding parse_fraction
fraction_none str len e = rw (read_lem str 19 b'Z' e)

fraction_some :
    (str : List ℕ) (len : ℕ)
    → get_elem? str 19 ≡ some b'.'
    → parse_fraction str len ≡ parse_digits str len
unfolding parse_fraction
fraction_some str len e = rw (read_lem str 19 b'.' e)

-- `text_of` computes to its bytes.
shown : Unit {0}
unfolding date_time_text fraction_text zone_text digits
shown = tt

-- The bytes behind the seconds: a point, the last six or nine digits of a number, and `Z`.
six_digits :
    (t : Fields)
    → (get_elem? (text_of t 6) 19 ≡ some b'.')
      × HasDigits (text_of t 6) 20 6 (u32 (t.usec / 1000))
      × (get_elem? (text_of t 6) 26 ≡ some b'Z')
unfolding shown
six_digits t = (refl, ((((((tt, refl), refl), refl), refl), refl), refl), refl)

nine_digits :
    (t : Fields)
    → (get_elem? (text_of t 9) 19 ≡ some b'.')
      × HasDigits (text_of t 9) 20 9 (u32 (t.usec / 1))
      × (get_elem? (text_of t 9) 29 ≡ some b'Z')
unfolding shown
nine_digits t =
    (refl, (((((((((tt, refl), refl), refl), refl), refl), refl), refl), refl), refl), refl)

module _ (t : Fields) (v : IsFields t) (y : t.year ≤ 9999) where
  -- Parsing the text of each precision, from its fraction.
  parsed :
      (precision len nsec : ℕ)
      → 20 ≤ len
      → parse_fraction (text_of t precision) len ≡ ok (len, b'Z', nsec)
      → nsec / 1000 ≡ t.usec / 1000
      → datetime_from_iso8601 (text_of t precision) len
        ≡ ok (stamp (record t { usec = t.usec / 1000 }))
  parsed precision len nsec h f e =
      assembled (text_of t precision) t len len b'Z' nsec v y h
        (text-Begins (ymd_of t) (seconds_of t) (tail_of t precision)) f
        (zone_utc (text_of t precision) len len)
      ∙ ap (λ n. ok (stamp (record t { usec = n }))) e

  back_whole :
      t.usec ≡ 0
      → datetime_from_iso8601 (text_of t 0) 20 ≡ ok (stamp (record t { usec = t.usec / 1000 }))
  back_whole e =
      parsed 0 20 0 (omega arith) (fraction_none (text_of t 0) 20 (unfold shown in refl))
        (omega arith)

  back_micro :
      t.usec % 1000 ≡ 0
      → datetime_from_iso8601 (text_of t 6) 27 ≡ ok (stamp (record t { usec = t.usec / 1000 }))
  back_micro e =
      let (p, d, z) = six_digits t in
      parsed 6 27 (u32 (low_digits 6 (u32 (t.usec / 1000)) * 1000)) (omega arith)
        (fraction_some (text_of t 6) 27 p
          ∙ parse_digits_lem (text_of t 6) 6 (u32 (t.usec / 1000)) b'Z' 27 (omega arith)
              (omega arith) (omega arith) d z (omega arith) refl)
        (omega (arith, v.time))

  back_nano :
      datetime_from_iso8601 (text_of t 9) 30 ≡ ok (stamp (record t { usec = t.usec / 1000 }))
  back_nano =
      let (p, d, z) = nine_digits t in
      parsed 9 30 (u32 (low_digits 9 (u32 (t.usec / 1)) * 1)) (omega arith)
        (fraction_some (text_of t 9) 30 p
          ∙ parse_digits_lem (text_of t 9) 9 (u32 (t.usec / 1)) b'Z' 30 (omega arith) (omega arith)
              (omega arith) d z (omega arith) refl)
        (omega (arith, v.time))

precision_lem :
    (t : Fields)
    → IsFields t
    → precision_of (stamp t) ≡ (if t.usec == 0 then 0 else if t.usec % 1000 == 0 then 6 else 9)
unfolding precision_of
precision_lem t v =
    let us : u32 t.usec ≡ t.usec = omega (arith, v.time) in
    rw ((stamp-Parts t v).usec_part, us) (ground (arith, v.time.usec_in))

-- What becomes of the stamp of `t`, printed with `precision` digits and parsed again.
abbrev Thousandth : Fields → ℕ → Type 0
Thousandth t len =
    (p : Printed) × (datetime_format len (stamp t) (pos 0) ≡ some p)
    × (datetime_from_iso8601 p.text p.dlen ≡ ok (stamp (record t { usec = t.usec / 1000 })))

read_back :
    (t : Fields) (len precision dlen : ℕ)
    → IsFields t
    → 30 < len
    → dlen ≤ 30
    → precision_of (stamp t) ≡ precision
    → dlen ≡ (if precision == 0 then 20 else 20 + (1 + precision))
    → datetime_from_iso8601 (text_of t precision) dlen
      ≡ ok (stamp (record t { usec = t.usec / 1000 }))
    → Thousandth t len
unfolding datetime_format
read_back t len precision dlen v h k e f back = (
  record { dlen = dlen; text = text_of t precision },
  rw e (printed t len precision dlen v f (omega arith)),
  back,
)

-- A valid stamp up to the year 9999 that is printed in UTC, into a buffer of more than 30 bytes, and
-- parsed again comes back with its date and its time to the second, but with a thousandth of its
-- microseconds: the printer takes them for nanoseconds.
pub datetime_from_iso8601-datetime_format :
    (t : Fields) (len : ℕ)
    → IsFields t
    → t.year ≤ 9999
    → 30 < len
    → (p : Printed) × (datetime_format len (stamp t) (pos 0) ≡ some p)
      × (datetime_from_iso8601 p.text p.dlen ≡ ok (stamp (record t { usec = t.usec / 1000 })))
datetime_from_iso8601-datetime_format t len v y h = elim (Bool-cases (t.usec == 0)) [
  | inl whole ↦
      read_back t len 0 20 v h (omega arith) (rw (precision_lem t v, whole)) refl
        (back_whole t v y (ground arith))
  | inr some_usec ↦ elim (Bool-cases (t.usec % 1000 == 0)) [
    | inl milli ↦
        read_back t len 6 27 v h (omega arith) (rw (precision_lem t v, some_usec, milli)) refl
          (back_micro t v y (ground arith))
    | inr micro ↦
        read_back t len 9 30 v h (omega arith) (rw (precision_lem t v, some_usec, micro)) refl
          (back_nano t v y)
  ]
]

-- In particular a stamp of whole seconds comes back unchanged.
pub whole_seconds :
    (dt len : ℕ)
    → dt ≤ max_date_time
    → dt % 1_000_000 ≡ 0
    → 30 < len
    → (p : Printed) × (datetime_format len dt (pos 0) ≡ some p)
      × (datetime_from_iso8601 p.text p.dlen ≡ ok dt)
whole_seconds dt len h e k =
    let (t, _, v, same) = stamp-datetime_decode dt (omega arith) in
    let y : t.year ≤ 9999 =
      omega (arith, same, stamp_lem t v, ymd_to_rdn_lem t.year t.month t.day v.date) in
    let z : t.usec / 1000 ≡ t.usec = omega (arith, same, (stamp-Parts t v).usec_part, v.time) in
    let (p, f, back) = datetime_from_iso8601-datetime_format t len v y k in
    (
      p,
      ap (λ n. datetime_format len n (pos 0)) (sym same) ∙ f,
      back ∙ ap (λ n. ok (stamp (record t { usec = n }))) z ∙ ap ok same,
    )
