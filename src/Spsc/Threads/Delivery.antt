-- ===== src/Spsc/Threads/Delivery.antt =====
-- Whatever the producer has sent, the consumer can receive without it.
use libqtl.Base.{
  ℕ, zero, suc, ◌+◌, ◌≤◌, ◌<◌, ◌≡◌, ◌≢◌, refl, sym, ap, ◌∙◌, false, some, List, [], ◌∷◌, ◌++◌,
  append-nil, arith, length, length-append, get_elem?, ◌==◌, Bool-cases, inl, inr, ==_iff,
}
use mathlib.Core.Path.{subst}
use libqtl.Spsc.{Spsc, next_record}
use libqtl.Spsc.Refine.{Represents, is_empty_lem}
use libqtl.Spsc.Threads.{
  Consumer, System, Step, Reach, start, here, next, call_read, nothing, something, fetch, release,
}
use libqtl.Spsc.Threads.Invariant.{Inv, ConsumerOk}
use libqtl.Spsc.Threads.Safety.{Step-Inv, Reach-Inv, start-Inv}

ne_of : (m n : ℕ) → (m == n) ≡ false → m ≢ n
ne_of m n e = ground (arith, e)

module _ {A : Type 0} where
  -- The consumer ends its call with at least so many more records received, and the producer stays.
  record Rested (gain : ℕ) (s : System A) : Type 0 where
    pub end : System A
    pub reach : Reach s end
    pub resting : end.consumer ≡ Consumer.resting
    pub producer_stays : end.producer ≡ s.producer
    pub sent_stays : end.sent ≡ s.sent
    pub gained : length s.received + gain ≤ length end.received
    pub inv : Inv end

  Reach-after : {s t u : System A} → Step s t → Reach t u → Reach s u
  Reach-after a here = next here a
  Reach-after a (next r b) = next (Reach-after a r) b

  Reach-Reach : {s t u : System A} → Reach s t → Reach t u → Reach s u
  Reach-Reach r here = r
  Reach-Reach r (next p b) = next (Reach-Reach r p) b

  module _ (s : System A) (inv : Inv s) where
    from_releasing : (x : A) (n : ℕ) → s.consumer ≡ Consumer.releasing x n → Rested 1 s
    from_releasing x n at =
        let step : Step s _ = release x n at refl in
        record {
          end = record s {
            q = record (s.q) { read_pos = n };
            consumer = Consumer.resting;
            received = s.received ++ x ∷ [];
          };
          reach = next here step;
          resting = refl;
          producer_stays = refl;
          sent_stays = refl;
          gained = omega (arith, length-append {0} s.received (x ∷ []));
          inv = Step-Inv step inv;
        }

  -- A step of the consumer that receives nothing, before.
  after :
      (gain : ℕ) (s : System A) (c : Consumer A)
      → Step s (record s { consumer = c })
      → Rested gain (record s { consumer = c })
      → Rested gain s
  after gain s c step r = record {
    end = r.end;
    reach = Reach-after step r.reach;
    resting = r.resting;
    producer_stays = r.producer_stays;
    sent_stays = r.sent_stays;
    gained = r.gained;
    inv = r.inv;
  }

  first_held :
      (q : Spsc A) (xs : List A)
      → Represents q xs
      → 0 < length xs
      → (x : A) × (get_elem? q.records q.read_pos ≡ some x)
  first_held q [] r pos = absurd (omega (arith, pos))
  first_held q (x ∷ xs) r pos = (x, r.held.0)

  from_fetching : (s : System A) → Inv s → (r : ℕ) → s.consumer ≡ Consumer.fetching r → Rested 1 s
  from_fetching s inv r at =
      let ok : ConsumerOk s.q inv.queued (Consumer.fetching r) =
        subst (λ c. ConsumerOk s.q inv.queued c) at inv.consumer_ok in
      let (x, found) = first_held s.q inv.queued inv.represents ok.1 in
      let c : Consumer A = Consumer.releasing x (next_record s.q.capacity r) in
      let step : Step s (record s { consumer = c }) = fetch r x at (rw ok.0 found) refl in
      after 1 s c step (
        from_releasing (record s { consumer = c }) (Step-Inv step inv) x
          (next_record s.q.capacity r) refl)

  less : (gain : ℕ) (s : System A) → Rested gain s → Rested 0 s
  less gain s r = record {
    end = r.end;
    reach = r.reach;
    resting = r.resting;
    producer_stays = r.producer_stays;
    sent_stays = r.sent_stays;
    gained = omega (arith, r.gained);
    inv = r.inv;
  }

  fetch_next :
      (s : System A)
      → Inv s
      → (r : ℕ) → s.consumer ≡ Consumer.loaded r
      → r ≢ s.q.write_pos
      → Rested 1 s
  fetch_next s inv r at ne =
      let c : Consumer A = Consumer.fetching r in
      let step : Step s (record s { consumer = c }) = something r at ne refl in
      after 1 s c step (from_fetching (record s { consumer = c }) (Step-Inv step inv) r refl)

  from_loaded : (s : System A) → Inv s → (r : ℕ) → s.consumer ≡ Consumer.loaded r → Rested 0 s
  from_loaded s inv r at = elim (Bool-cases (r == s.q.write_pos)) [
    | inl e ↦
        let step : Step s (record s { consumer = Consumer.resting }) =
          nothing r at ((==_iff r s.q.write_pos).0 e) refl in
        record {
          end = record s { consumer = Consumer.resting };
          reach = next here step;
          resting = refl;
          producer_stays = refl;
          sent_stays = refl;
          gained = omega arith;
          inv = Step-Inv step inv;
        }
    | inr e ↦ less 1 s (fetch_next s inv r at (ne_of r s.q.write_pos e))
  ]

  -- The consumer ends the call that it is in.
  settle : (s : System A) → Inv s → (c : Consumer A) → s.consumer ≡ c → Rested 0 s
  settle s inv Consumer.resting at = record {
    end = s;
    reach = here;
    resting = at;
    producer_stays = refl;
    sent_stays = refl;
    gained = omega arith;
    inv = inv;
  }
  settle s inv (Consumer.loaded r) at = from_loaded s inv r at
  settle s inv (Consumer.fetching r) at = less 1 s (from_fetching s inv r at)
  settle s inv (Consumer.releasing x n) at = less 1 s (from_releasing s inv x n at)

  -- A whole call, on a queue that is not empty.
  read_once :
      (s : System A) (inv : Inv s)
      → 0 < length inv.queued
      → s.consumer ≡ Consumer.resting
      → Rested 1 s
  read_once s inv pos at =
      let c : Consumer A = Consumer.loaded s.q.read_pos in
      let step : Step s (record s { consumer = c }) = call_read at refl in
      let nonempty : (length inv.queued == 0) ≡ false = ground (arith, pos) in
      after 1 s c step (
        fetch_next (record s { consumer = c }) (Step-Inv step inv) s.q.read_pos refl
          (ne_of s.q.read_pos s.q.write_pos
            (is_empty_lem s.q inv.queued inv.represents ∙ nonempty)))

  -- All that was sent has been received.
  record Delivered (s : System A) : Type 0 where
    pub end : System A
    pub reach : Reach s end
    pub producer_stays : end.producer ≡ s.producer
    pub sent_stays : end.sent ≡ s.sent
    pub none_left : end.received ≡ s.sent

  compose : (gain : ℕ) (s : System A) (r : Rested gain s) → Delivered r.end → Delivered s
  compose gain s r d = record {
    end = d.end;
    reach = Reach-Reach r.reach d.reach;
    producer_stays = d.producer_stays ∙ r.producer_stays;
    sent_stays = d.sent_stays ∙ r.sent_stays;
    none_left = d.none_left ∙ r.sent_stays;
  }

  deliver_rest :
      (n : ℕ) (s : System A) (inv : Inv s)
      → s.consumer ≡ Consumer.resting
      → length s.sent ≤ length s.received + n
      → (queued : List A) → inv.queued ≡ queued
      → Delivered s
  deliver_rest n s inv at few [] e = record {
    end = s;
    reach = here;
    producer_stays = refl;
    sent_stays = refl;
    none_left = sym (inv.in_order ∙ ap (λ q. s.received ++ q) e ∙ append-nil s.received);
  }
  deliver_rest zero s inv at few (x ∷ xs) e = absurd (
      omega
        (arith, few, ap length inv.in_order, length-append {0} s.received inv.queued, ap length e))
  deliver_rest (suc n) s inv at few (x ∷ xs) e =
      let r : Rested 1 s = read_once s inv (omega (arith, ap length e)) at in
      compose 1 s r (
        deliver_rest n r.end r.inv r.resting (omega (arith, few, r.gained, ap length r.sent_stays))
          r.inv.queued refl)

  -- From every state that the two threads reach over an empty queue, wherever they stand, they can go on to
  -- one in which the consumer has received everything sent, while the producer stands where it stood and
  -- has sent nothing more.
  pub all_received :
      (q : Spsc A) {s : System A}
      → Represents q []
      → Reach (start q) s
      → (t : System A) × Reach s t
        × (t.producer ≡ s.producer)
        × (t.sent ≡ s.sent)
        × (t.received ≡ s.sent)
  all_received q {s} r reach =
      let i : Inv s = Reach-Inv (start-Inv q r) reach in
      let k : Rested 0 s = settle s i s.consumer refl in
      let d : Delivered s =
        compose 0 s k (
          deliver_rest (length k.end.sent) k.end k.inv k.resting (omega arith) k.inv.queued refl) in
      (d.end, d.reach, d.producer_stays, d.sent_stays, d.none_left)
