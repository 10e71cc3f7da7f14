-- ===== src/Spsc/Refine.antt =====
-- Called from one thread at a time, the queue is a first-in first-out list of at most capacity - 1
-- records.
use libqtl.Base.{
  ℕ, suc, ◌^◌, ◌≤◌, ◌<◌, ◌≡◌, refl, sym, ap, ◌∙◌, Bool, true, false, ltb, ◌&&◌, some, List, [], ◌∷◌,
  ◌++◌, arith, ◌==◌, if◌then◌else◌, length, set, length-append, length-set, Bool-cases, inl, inr,
}
use libqtl.Spsc.{
  Spsc, built, assertion_failed, init_with, Item, empty, item, next_record, load_record,
  spsc_queue_init, spsc_queue_write, spsc_queue_read, spsc_queue_peek,
}
use libqtl.Spsc.Slots.{
  ahead, ahead-lt, ahead-ahead, ahead-suc, full_test, empty_test, next_record_lem, Holds, Holds-set,
}

module _ {ℓ} {A : Type ℓ} where
  -- The queue holds the records `xs`, the oldest first.
  pub record Represents (q : Spsc A) (xs : List A) : Type ℓ where
    pub fits : q.capacity < 2 ^ 32
    pub storage : q.capacity ≤ length q.records
    pub read_in : q.read_pos < q.capacity
    pub room : length xs < q.capacity
    pub write_at : q.write_pos ≡ ahead q.capacity q.read_pos (length xs)
    pub held : Holds q.records q.capacity q.read_pos xs

  -- The bounded list: what a write and a read do to it.
  abbrev pub push : ℕ → List A → A → List A × Bool
  push cap xs e = if suc (length xs) == cap then (xs, false) else (xs ++ e ∷ [], true)

  abbrev pub pop : List A → List A × Item A
  pop [] = ([], empty)
  pop (x ∷ xs) = (xs, item x)

  -- A queue made by `spsc_queue_init` for two records or more over a large enough array is empty.
  pub init-Represents :
      (checked : Bool) (records : List A) (size : ℕ)
      → 2 ≤ size
      → size < 2 ^ 32
      → size ≤ length records
      → (q : Spsc A) × (spsc_queue_init checked (some records) size ≡ built q) × Represents q []
  unfolding spsc_queue_init init_with
  init-Represents checked records size two fits room = (
    _,
    passes checked,
    record {
      fits = fits;
      storage = room;
      read_in = omega (arith, two);
      room = omega (arith, two);
      write_at = ground (arith, two);
      held = tt;
    },
  )
    where
      large : ltb size 2 ≡ false
      large = ground (arith, two)

      passes :
          (checked : Bool)
          → (if checked && ltb size 2 then assertion_failed else init_with (some records) size)
            ≡ init_with (some records) size
      passes true = rw large refl
      passes false = refl

  module _ (q : Spsc A) (xs : List A) (r : Represents q xs) where
    pub next_write :
        next_record q.capacity q.write_pos ≡ ahead q.capacity q.read_pos (suc (length xs))
    next_write =
        ap (next_record q.capacity) r.write_at
        ∙ next_record_lem q.capacity (ahead q.capacity q.read_pos (length xs))
            (ahead-lt q.capacity q.read_pos (length xs) r.read_in (omega arith)) r.fits
        ∙ ahead-suc q.capacity q.read_pos (length xs) r.read_in r.room

    pub is_full_lem :
        (next_record q.capacity q.write_pos == q.read_pos) ≡ (suc (length xs) == q.capacity)
    is_full_lem =
        ap (λ n. n == q.read_pos) next_write
        ∙ full_test q.capacity q.read_pos (length xs) r.read_in r.room

    pub is_empty_lem : (q.read_pos == q.write_pos) ≡ (length xs == 0)
    is_empty_lem =
        ap (λ n. q.read_pos == n) r.write_at
        ∙ empty_test q.capacity q.read_pos (length xs) r.read_in r.room

    stored :
        (e : A)
        → suc (length xs) < q.capacity
        → Represents
            (record q {
              records = set q.records q.write_pos e;
              write_pos = next_record q.capacity q.write_pos;
            })
            (xs ++ e ∷ [])
    stored e more = record {
      fits = r.fits;
      storage = rw (length-set q.records q.write_pos e) r.storage;
      read_in = r.read_in;
      room = omega (arith, length-append {ℓ} xs (e ∷ []));
      write_at =
          next_write
          ∙ ap (ahead q.capacity q.read_pos) (omega (arith, length-append {ℓ} xs (e ∷ [])));
      held =
          Holds-set q.records q.capacity q.read_pos q.write_pos xs e r.storage r.read_in r.room
            r.write_at r.held;
    }

    -- A write appends the record and returns true, or finds the list full, returns false and changes
    -- nothing.
    pub write_refines :
        (e : A)
        → Represents (spsc_queue_write q e).0 (push q.capacity xs e).0
          × ((spsc_queue_write q e).1 ≡ (push q.capacity xs e).1)
    unfolding spsc_queue_write
    write_refines e = elim (Bool-cases (suc (length xs) == q.capacity)) [
      | inl full ↦ rw (is_full_lem, full) (r, refl)
      | inr more ↦ rw (is_full_lem, more) (stored e (ground (arith, r.room)), refl)
    ]

  pub write-capacity : (q : Spsc A) (e : A) → (spsc_queue_write q e).0.capacity ≡ q.capacity
  unfolding spsc_queue_write
  write-capacity q e = elim (Bool-cases (next_record q.capacity q.write_pos == q.read_pos)) [
    | inl full ↦ rw full refl
    | inr room ↦ rw room refl
  ]

  pub read-capacity : (q : Spsc A) → (spsc_queue_read q).0.capacity ≡ q.capacity
  unfolding spsc_queue_read
  read-capacity q = elim (Bool-cases (q.read_pos == q.write_pos)) [
    | inl none_left ↦ rw none_left refl
    | inr more ↦ rw more refl
  ]

  -- A read takes the oldest record, which a peek also returns; both report an empty list.
  pub read_refines :
      (q : Spsc A) (xs : List A)
      → Represents q xs
      → Represents (spsc_queue_read q).0 (pop xs).0
        × ((spsc_queue_read q).1 ≡ (pop xs).1)
        × (spsc_queue_peek q ≡ (pop xs).1)
  unfolding spsc_queue_read spsc_queue_peek
  read_refines q [] r = rw (is_empty_lem q [] r) (r, refl, refl)
  read_refines q (x ∷ xs) r =
      let found : load_record q q.read_pos ≡ item x =
        unfold load_record in rw (r.held.0, load_record) in
      let nonempty : (suc (length xs) == 0) ≡ false = ground arith in
      rw (is_empty_lem q (x ∷ xs) r, nonempty) (taken, found, found)
    where
      step : next_record q.capacity q.read_pos ≡ ahead q.capacity q.read_pos 1
      step = next_record_lem q.capacity q.read_pos r.read_in r.fits

      taken : Represents (record q { read_pos = next_record q.capacity q.read_pos }) xs
      taken = rw step (record {
        fits = r.fits;
        storage = r.storage;
        read_in = ahead-lt q.capacity q.read_pos 1 r.read_in (omega (arith, r.room));
        room = omega (arith, r.room);
        write_at =
            r.write_at
            ∙ sym (ahead-ahead q.capacity q.read_pos (length xs) r.read_in (omega (arith, r.room)));
        held = r.held.1;
      })
