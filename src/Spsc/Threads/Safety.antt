-- ===== src/Spsc/Threads/Safety.antt =====
-- The invariant holds in every reachable state, and what follows for the two threads.
use libqtl.Base.{
  ℕ, suc, ◌<◌, ◌≡◌, ◌≢◌, refl, sym, ap, ◌∙◌, some, List, [], ◌∷◌, ◌++◌, append_assoc, arith, length,
  get_elem?, set, get_elem?-set_self,
}
use libqtl.Spsc.{Spsc, next_record}
use libqtl.Spsc.Refine.{Represents}
use libqtl.Spsc.Threads.{
  Producer, Consumer, System, Step, call_write, full, has_room, store, publish, call_read, nothing,
  something, fetch, release, start, Reach, here, next,
}
use libqtl.Spsc.Threads.Invariant.{
  ProducerOk, ConsumerOk, Inv, stored_Represents, published_Represents, write_pos_in, room_found,
  records_found, releasing_Inv, head_found, slot_held, slots_apart, ConsumerOk-append, same_read,
}

module _ {A : Type 0} where
  -- Every step of either thread keeps the invariant.
  pub Step-Inv : {s t : System A} → Step s t → Inv s → Inv t
  Step-Inv {s} (call_write e at to) inv = rw to (record {
    queued = inv.queued;
    represents = inv.represents;
    in_order = inv.in_order;
    producer_ok = refl;
    consumer_ok = inv.consumer_ok;
  })
  Step-Inv {s} (full e w at test to) inv = rw to (record {
    queued = inv.queued;
    represents = inv.represents;
    in_order = inv.in_order;
    producer_ok = tt;
    consumer_ok = inv.consumer_ok;
  })
  Step-Inv {s} (has_room e w at test to) inv =
      let p : w ≡ s.q.write_pos = rw at at inv.producer_ok in
      rw to (record {
        queued = inv.queued;
        represents = inv.represents;
        in_order = inv.in_order;
        producer_ok = (
          p,
          ap (next_record s.q.capacity) p,
          room_found s.q inv.queued inv.represents (rw p at test),
        );
        consumer_ok = inv.consumer_ok;
      })
  Step-Inv {s} (store e w n at to) inv =
      let p : (w ≡ s.q.write_pos)
          × (n ≡ next_record s.q.capacity s.q.write_pos)
          × (suc (length inv.queued) < s.q.capacity) =
        rw at at inv.producer_ok in
      let stored : get_elem? (set s.q.records w e) s.q.write_pos ≡ some e = rw p.0 (
        get_elem?-set_self s.q.records s.q.write_pos e
          (write_pos_in s.q inv.queued inv.represents)) in
      rw to (record {
        queued = inv.queued;
        represents = stored_Represents s.q inv.queued e w inv.represents p.0;
        in_order = inv.in_order;
        producer_ok = (stored, p.1, p.2);
        consumer_ok =
            same_read s.q (record (s.q) { records = set s.q.records w e }) inv.queued s.consumer
              refl refl inv.consumer_ok;
      })
  Step-Inv {s} (publish e n at to) inv =
      let (last, p, more) : (get_elem? s.q.records s.q.write_pos ≡ some e)
          × (n ≡ next_record s.q.capacity s.q.write_pos)
          × (suc (length inv.queued) < s.q.capacity) =
        rw at at inv.producer_ok in
      rw to (record {
        queued = inv.queued ++ e ∷ [];
        represents = published_Represents s.q inv.queued e n inv.represents last p more;
        in_order = ap (λ l. l ++ e ∷ []) inv.in_order ∙ append_assoc s.received inv.queued (e ∷ []);
        producer_ok = tt;
        consumer_ok =
            same_read s.q (record (s.q) { write_pos = n }) (inv.queued ++ e ∷ []) s.consumer refl
              refl (ConsumerOk-append s.q inv.queued e s.consumer inv.consumer_ok);
      })
  Step-Inv {s} (call_read at to) inv = rw to (record {
    queued = inv.queued;
    represents = inv.represents;
    in_order = inv.in_order;
    producer_ok = inv.producer_ok;
    consumer_ok = refl;
  })
  Step-Inv {s} (nothing r at test to) inv = rw to (record {
    queued = inv.queued;
    represents = inv.represents;
    in_order = inv.in_order;
    producer_ok = inv.producer_ok;
    consumer_ok = tt;
  })
  Step-Inv {s} (something r at test to) inv =
      let c : r ≡ s.q.read_pos = rw at at inv.consumer_ok in
      rw to (record {
        queued = inv.queued;
        represents = inv.represents;
        in_order = inv.in_order;
        producer_ok = inv.producer_ok;
        consumer_ok = (c, records_found s.q inv.queued inv.represents (rw c at test));
      })
  Step-Inv {s} (fetch r x at got to) inv =
      let c : (r ≡ s.q.read_pos) × (0 < length inv.queued) = rw at at inv.consumer_ok in
      rw to (record {
        queued = inv.queued;
        represents = inv.represents;
        in_order = inv.in_order;
        producer_ok = inv.producer_ok;
        consumer_ok = (
          ap (next_record s.q.capacity) c.0,
          head_found s.q inv.queued x inv.represents c.1 (rw c.0 at got),
        );
      })
  Step-Inv {s} (release x n at to) inv =
      let (p, h) : ConsumerOk s.q inv.queued (Consumer.releasing x n) = rw at at inv.consumer_ok in
      rw to (releasing_Inv s x n inv.queued inv.represents inv.in_order inv.producer_ok p h)

  pub start-Inv : (q : Spsc A) → Represents q [] → Inv (start q)
  start-Inv q r = record {
    queued = [];
    represents = r;
    in_order = refl;
    producer_ok = tt;
    consumer_ok = tt;
  }

  pub Reach-Inv : {s t : System A} → Inv s → Reach s t → Inv t
  Reach-Inv inv here = inv
  Reach-Inv inv (next r step) = Step-Inv step (Reach-Inv inv r)

  -- From an empty queue, however the two threads interleave, the records received are the first of the
  -- records sent, in order, without loss or repetition, and those still queued are fewer than the
  -- capacity.
  pub first_in_first_out :
      (q : Spsc A) {s : System A}
      → Represents q []
      → Reach (start q) s
      → (queued : List A) × (s.sent ≡ s.received ++ queued) × (length queued < s.q.capacity)
  first_in_first_out q r reach =
      let inv = Reach-Inv (start-Inv q r) reach in (inv.queued, inv.in_order, inv.represents.room)

  -- The two threads never touch one slot of the array at a time: when the producer is about to store
  -- into slot w and the consumer about to load slot r, the slots differ, and both are in the array.
  pub no_data_race :
      (q : Spsc A) {s : System A} (e : A) (w n r : ℕ)
      → Represents q []
      → Reach (start q) s
      → s.producer ≡ Producer.storing e w n
      → s.consumer ≡ Consumer.fetching r
      → (w ≢ r) × (w < length s.q.records) × (r < length s.q.records)
  no_data_race q {s} e w n r empty reach at_p at_c = (
    λ same. slots_apart s.q inv.queued inv.represents c.1 (sym c.0 ∙ sym same ∙ p.0),
    omega (arith, p.0, write_pos_in s.q inv.queued inv.represents),
    omega (arith, c.0, inv.represents),
  )
    where
      inv : Inv s
      inv = Reach-Inv (start-Inv q empty) reach

      p : ProducerOk s.q (length inv.queued) (Producer.storing e w n)
      p = rw at_p at inv.producer_ok

      c : ConsumerOk s.q inv.queued (Consumer.fetching r)
      c = rw at_c at inv.consumer_ok

  -- A consumer that passed its test finds a record in its slot: the oldest that was sent and not yet
  -- received.
  pub fetch_oldest :
      (q : Spsc A) {s : System A} (r : ℕ)
      → Represents q []
      → Reach (start q) s
      → s.consumer ≡ Consumer.fetching r
      → (x : A) × (rest : List A) × (get_elem? s.q.records r ≡ some x)
        × (s.sent ≡ s.received ++ (x ∷ rest))
  fetch_oldest q {s} r empty reach at =
      let inv = Reach-Inv (start-Inv q empty) reach in
      let c : ConsumerOk s.q inv.queued (Consumer.fetching r) = rw at at inv.consumer_ok in
      let (x, rest, e, found) = slot_held s.q inv.queued inv.represents c.1 in
      (x, rest, rw c.0 found, inv.in_order ∙ ap (λ l. s.received ++ l) e)
