-- ===== src/Spsc/Threads/Invariant.antt =====
-- What holds of the queue and the two threads at every moment.
use libqtl.Base.{
  ℕ, suc, ◌≤◌, ◌<◌, ◌≡◌, ◌≢◌, refl, sym, ap, ◌∙◌, some, List, [], ◌∷◌, ◌++◌, append_assoc, arith,
  length, get_elem?, set, length-set, length-append,
}
use libqtl.Spsc.{Spsc, next_record}
use libqtl.Spsc.Slots.{
  ahead, ahead-ne, ahead-lt, ahead-ahead, next_record_lem, Holds-set, Holds-prefix, Holds-snoc,
}
use libqtl.Spsc.Refine.{Represents, next_write, is_full_lem, is_empty_lem}
use libqtl.Spsc.Threads.{Producer, Consumer, System}

module _ {A : Type 0} where
  -- What the producer's locals say of the queue, which holds `n` records.
  abbrev pub ProducerOk : Spsc A → ℕ → Producer A → Type 0
  ProducerOk q n Producer.resting = Unit
  ProducerOk q n (Producer.loaded e w) = w ≡ q.write_pos
  ProducerOk q n (Producer.storing e w m) =
      (w ≡ q.write_pos) × (m ≡ next_record q.capacity q.write_pos) × (suc n < q.capacity)
  ProducerOk q n (Producer.publishing e m) =
      (get_elem? q.records q.write_pos ≡ some e)
      × (m ≡ next_record q.capacity q.write_pos)
      × (suc n < q.capacity)

  abbrev pub HeadIs : A → List A → Type 0
  HeadIs x [] = ⊥
  HeadIs x (y ∷ ys) = x ≡ y

  -- What the consumer's locals say of the queue, which holds the records `xs`.
  abbrev pub ConsumerOk : Spsc A → List A → Consumer A → Type 0
  ConsumerOk q xs Consumer.resting = Unit
  ConsumerOk q xs (Consumer.loaded r) = r ≡ q.read_pos
  ConsumerOk q xs (Consumer.fetching r) = (r ≡ q.read_pos) × (0 < length xs)
  ConsumerOk q xs (Consumer.releasing x m) = (m ≡ next_record q.capacity q.read_pos) × HeadIs x xs

  -- The queue holds the records sent and not yet received, in order.
  pub record Inv (s : System A) : Type 0 where
    pub queued : List A
    pub represents : Represents s.q queued
    pub in_order : s.sent ≡ s.received ++ queued
    pub producer_ok : ProducerOk s.q (length queued) s.producer
    pub consumer_ok : ConsumerOk s.q queued s.consumer

  HeadIs-append : (x e : A) (xs : List A) → HeadIs x xs → HeadIs x (xs ++ e ∷ [])
  HeadIs-append x e [] h = absurd h
  HeadIs-append x e (y ∷ ys) h = h

  -- The producer moves: the consumer's facts survive a store and a publication.
  pub ConsumerOk-append :
      (q : Spsc A) (xs : List A) (e : A) (c : Consumer A)
      → ConsumerOk q xs c
      → ConsumerOk q (xs ++ e ∷ []) c
  ConsumerOk-append q xs e Consumer.resting h = tt
  ConsumerOk-append q xs e (Consumer.loaded r) h = h
  ConsumerOk-append q xs e (Consumer.fetching r) h =
      (h.0, omega (arith, h.1, length-append {0} xs (e ∷ [])))
  ConsumerOk-append q xs e (Consumer.releasing x m) h = (h.0, HeadIs-append x e xs h.1)

  pub same_read :
      (q r : Spsc A) (xs : List A) (c : Consumer A)
      → r.read_pos ≡ q.read_pos
      → r.capacity ≡ q.capacity
      → ConsumerOk q xs c
      → ConsumerOk r xs c
  same_read q r xs Consumer.resting e f h = tt
  same_read q r xs (Consumer.loaded i) e f h = h ∙ sym e
  same_read q r xs (Consumer.fetching i) e f h = (h.0 ∙ sym e, h.1)
  same_read q r xs (Consumer.releasing x m) e f h = (rw (e, f) h.0, h.1)

  -- The consumer moves: one record less, and the producer's facts survive.
  ProducerOk-less :
      (q : Spsc A) (n m : ℕ) (i : ℕ) (p : Producer A)
      → m ≤ n
      → ProducerOk q n p
      → ProducerOk (record q { read_pos = i }) m p
  ProducerOk-less q n m i Producer.resting le h = tt
  ProducerOk-less q n m i (Producer.loaded e w) le h = h
  ProducerOk-less q n m i (Producer.storing e w k) le h = (h.0, h.1, omega (arith, h.2))
  ProducerOk-less q n m i (Producer.publishing e k) le h = (h.0, h.1, omega (arith, h.2))

  -- After the store into the free slot the queue still holds the same records.
  pub stored_Represents :
      (q : Spsc A) (xs : List A) (e : A) (w : ℕ)
      → Represents q xs
      → w ≡ q.write_pos
      → Represents (record q { records = set q.records w e }) xs
  stored_Represents q xs e w r at = record {
    fits = r.fits;
    storage = rw (length-set q.records w e) r.storage;
    read_in = r.read_in;
    room = r.room;
    write_at = r.write_at;
    held = Holds-prefix (set q.records w e) q.capacity q.read_pos xs (e ∷ []) (
        Holds-set q.records q.capacity q.read_pos w xs e r.storage r.read_in r.room
          (at ∙ r.write_at) r.held);
  }

  -- The publication makes the stored record the last of the queue.
  pub published_Represents :
      (q : Spsc A) (xs : List A) (e : A) (n : ℕ)
      → Represents q xs
      → get_elem? q.records q.write_pos ≡ some e
      → n ≡ next_record q.capacity q.write_pos
      → suc (length xs) < q.capacity
      → Represents (record q { write_pos = n }) (xs ++ e ∷ [])
  published_Represents q xs e n r last at more = record {
    fits = r.fits;
    storage = r.storage;
    read_in = r.read_in;
    room = omega (arith, length-append {0} xs (e ∷ []));
    write_at =
        at
        ∙ next_write q xs r
        ∙ ap (ahead q.capacity q.read_pos) (omega (arith, length-append {0} xs (e ∷ [])));
    held =
        Holds-snoc q.records q.capacity q.read_pos xs e r.read_in r.room r.held
          (rw r.write_at at last);
  }

  -- The release of the oldest record.
  released_Represents :
      (q : Spsc A) (x : A) (xs : List A) (n : ℕ)
      → Represents q (x ∷ xs)
      → n ≡ next_record q.capacity q.read_pos
      → Represents (record q { read_pos = n }) xs
  released_Represents q x xs n r at =
      rw (at, next_record_lem q.capacity q.read_pos r.read_in r.fits)
        (record {
          fits = r.fits;
          storage = r.storage;
          read_in = ahead-lt q.capacity q.read_pos 1 r.read_in (omega (arith, r.room));
          room = omega (arith, r.room);
          write_at =
              r.write_at
              ∙ sym
                  (ahead-ahead q.capacity q.read_pos (length xs) r.read_in (omega (arith, r.room)));
          held = r.held.1;
        })

  pub write_pos_in : (q : Spsc A) (xs : List A) → Represents q xs → q.write_pos < length q.records
  write_pos_in q xs r = omega (
    arith,
    r.write_at,
    ahead-lt q.capacity q.read_pos (length xs) r.read_in (omega (arith, r.room)),
    r.storage,
  )

  -- The test for room finds room.
  pub room_found :
      (q : Spsc A) (xs : List A)
      → Represents q xs
      → next_record q.capacity q.write_pos ≢ q.read_pos
      → suc (length xs) < q.capacity
  room_found q xs r ne = grind (arith, is_full_lem q xs r, r.room)

  pub records_found :
      (q : Spsc A) (xs : List A) → Represents q xs → q.read_pos ≢ q.write_pos → 0 < length xs
  records_found q xs r ne = grind (arith, is_empty_lem q xs r)

  pub releasing_Inv :
      (s : System A) (x : A) (n : ℕ) (xs : List A)
      → Represents s.q xs
      → s.sent ≡ s.received ++ xs
      → ProducerOk s.q (length xs) s.producer
      → (n ≡ next_record s.q.capacity s.q.read_pos)
      → HeadIs x xs
      → Inv (record s {
        q = record (s.q) { read_pos = n };
        consumer = Consumer.resting;
        received = s.received ++ x ∷ [];
      })
  releasing_Inv s x n [] r o p at h = absurd h
  releasing_Inv s x n (y ∷ ys) r o p at h = record {
    queued = ys;
    represents = released_Represents s.q y ys n r at;
    in_order = rw (append_assoc, h) o;
    producer_ok = ProducerOk-less s.q (suc (length ys)) (length ys) n s.producer (omega arith) p;
    consumer_ok = tt;
  }

  pub head_found :
      (q : Spsc A) (xs : List A) (x : A)
      → Represents q xs
      → 0 < length xs
      → get_elem? q.records q.read_pos ≡ some x
      → HeadIs x xs
  head_found q [] x r some_left got = absurd (omega arith)
  head_found q (y ∷ ys) x r some_left got = let e : some x ≡ some y = sym got ∙ r.held.0 in cc

  pub slot_held :
      (q : Spsc A) (xs : List A)
      → Represents q xs
      → 0 < length xs
      → (x : A) × (ys : List A) × (xs ≡ x ∷ ys) × (get_elem? q.records q.read_pos ≡ some x)
  slot_held q [] r some_left = absurd (omega arith)
  slot_held q (y ∷ ys) r some_left = (y, ys, refl, r.held.0)

  pub slots_apart :
      (q : Spsc A) (xs : List A) → Represents q xs → 0 < length xs → q.read_pos ≢ q.write_pos
  slots_apart q [] r some_left e = omega arith
  slots_apart q (y ∷ ys) r some_left e =
      ahead-ne q.capacity q.read_pos (length ys) r.read_in r.room (e ∙ r.write_at)
