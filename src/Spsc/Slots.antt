-- ===== src/Spsc/Slots.antt =====
-- Which slots of the array hold the queued records, from the oldest on, going round at the end.
use libqtl.Base.{
  ℕ, suc, ◌+◌, ◌-◌, ◌^◌, ◌≤◌, ◌<◌, ◌≡◌, ◌≢◌, sym, ◌∙◌, some, List, [], ◌∷◌, ◌++◌, arith, ltb, ◌==◌,
  if◌then◌else◌, length, get_elem?, set, get_elem?-set_self, get_elem?-set_ne,
}
use libqtl.Spsc.{next_record}

-- The slot `n` places behind slot `h`.
abbrev pub ahead : ℕ → ℕ → ℕ → ℕ
ahead cap h n = if ltb (h + n) cap then h + n else h + n - cap

pub next_record_lem : (cap h : ℕ) → h < cap → cap < 2 ^ 32 → next_record cap h ≡ ahead cap h 1
unfolding next_record
next_record_lem cap h lt fits = ground arith

pub ahead-ahead :
    (cap h n : ℕ) → h < cap → n < cap → ahead cap (ahead cap h 1) n ≡ ahead cap h (suc n)
ahead-ahead cap h n lt k = ground arith

pub ahead-lt : (cap h n : ℕ) → h < cap → n ≤ cap → ahead cap h n < cap
ahead-lt cap h n lt k = ground arith

pub ahead-ne : (cap h n : ℕ) → h < cap → suc n < cap → h ≢ ahead cap h (suc n)
ahead-ne cap h n lt k = ground arith

pub ahead-suc :
    (cap h n : ℕ) → h < cap → n < cap → ahead cap (ahead cap h n) 1 ≡ ahead cap h (suc n)
ahead-suc cap h n lt k = ground arith

-- The two tests of the queue: all slots but one used, and none used.
pub full_test : (cap h n : ℕ) → h < cap → n < cap → (ahead cap h (suc n) == h) ≡ (suc n == cap)
full_test cap h n lt k = ground arith

pub empty_test : (cap h n : ℕ) → h < cap → n < cap → (h == ahead cap h n) ≡ (n == 0)
empty_test cap h n lt k = ground arith

module _ {ℓ} {A : Type ℓ} where
  -- The slots from `h` on hold the listed records.
  abbrev pub Holds : List A → ℕ → ℕ → List A → Type ℓ
  Holds records cap h [] = Unit
  Holds records cap h (x ∷ xs) =
      (get_elem? records h ≡ some x) × Holds records cap (ahead cap h 1) xs

  -- A write to the slot behind them adds one record at the end.
  pub Holds-set :
      (records : List A) (cap h i : ℕ) (xs : List A) (e : A)
      → cap ≤ length records
      → h < cap
      → length xs < cap
      → i ≡ ahead cap h (length xs)
      → Holds records cap h xs
      → Holds (set records i e) cap h (xs ++ e ∷ [])
  Holds-set records cap h i [] e fits lt room at hold =
      let same : i ≡ h = ground arith in
      (rw same (get_elem?-set_self records h e (omega arith)), tt)
  Holds-set records cap h i (x ∷ xs) e fits lt room at hold =
      let ne : i ≢ h = λ same. ahead-ne cap h (length xs) lt room (sym same ∙ at) in
      (
        get_elem?-set_ne records i h e ne ∙ hold.0,
        Holds-set records cap (ahead cap h 1) i xs e fits (ahead-lt cap h 1 lt (omega arith))
            (omega arith) (at ∙ sym (ahead-ahead cap h (length xs) lt (omega arith))) hold.1,
      )

  pub Holds-prefix :
      (records : List A) (cap h : ℕ) (xs ys : List A)
      → Holds records cap h (xs ++ ys)
      → Holds records cap h xs
  Holds-prefix records cap h [] ys hold = tt
  Holds-prefix records cap h (x ∷ xs) ys hold =
      (hold.0, Holds-prefix records cap (ahead cap h 1) xs ys hold.1)

  pub Holds-snoc :
      (records : List A) (cap h : ℕ) (xs : List A) (e : A)
      → h < cap
      → length xs < cap
      → Holds records cap h xs
      → get_elem? records (ahead cap h (length xs)) ≡ some e
      → Holds records cap h (xs ++ e ∷ [])
  Holds-snoc records cap h [] e lt room hold last =
      let same : ahead cap h 0 ≡ h = ground arith in (rw same at last, tt)
  Holds-snoc records cap h (x ∷ xs) e lt room hold last = (
    hold.0,
    Holds-snoc records cap (ahead cap h 1) xs e (ahead-lt cap h 1 lt (omega arith)) (omega arith)
        hold.1 (rw (ahead-ahead cap h (length xs) lt (omega arith)) last),
  )
