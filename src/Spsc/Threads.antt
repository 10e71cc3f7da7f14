-- ===== src/Spsc/Threads.antt =====
-- src/spsc_queue.c under one producer and one consumer: `spsc_queue_write` and `spsc_queue_read` one
-- access to shared memory at a time, interleaved in any order. Each access takes effect at once and in
-- the order of the program, which is what the acquire and release orders give for these two threads.
mod Invariant
pub mod Safety
pub mod Delivery
use libqtl.Base.{ℕ, ◌≡◌, ◌≢◌, some, List, [], ◌∷◌, ◌++◌, get_elem?, set}
use libqtl.Spsc.{Spsc, next_record}

-- Where the producer stands in `spsc_queue_write (q, e)`, with its live locals.
pub data Producer (A : Type 0) : Type 0 where
  resting : Producer A
  loaded : (e : A) (current_write : ℕ) → Producer A  -- before the load of `read_pos`
  storing : (e : A) (current_write next : ℕ) → Producer A  -- before the store of the record
  publishing : (e : A) (next : ℕ) → Producer A  -- before the store of `write_pos`

-- Where the consumer stands in `spsc_queue_read (q, item)`.
pub data Consumer (A : Type 0) : Type 0 where
  resting : Consumer A
  loaded : (current_read : ℕ) → Consumer A  -- before the load of `write_pos`
  fetching : (current_read : ℕ) → Consumer A  -- before the load of the record
  releasing : (item : A) (next : ℕ) → Consumer A  -- before the store of `read_pos`

-- The queue, the two threads, and what writes have returned true for and reads have returned so far.
pub record System (A : Type 0) : Type 0 where
  pub q : Spsc A
  pub producer : Producer A
  pub consumer : Consumer A
  pub sent : List A
  pub received : List A

pub data Step {A : Type 0} (s t : System A) : Type 0 where
  call_write :
      (e : A)
      → s.producer ≡ Producer.resting
      → t ≡ record s { producer = Producer.loaded e s.q.write_pos }
      → Step s t
  full :
      (e : A) (w : ℕ)
      → s.producer ≡ Producer.loaded e w
      → next_record s.q.capacity w ≡ s.q.read_pos
      → t ≡ record s { producer = Producer.resting }
      → Step s t
  has_room :
      (e : A) (w : ℕ)
      → s.producer ≡ Producer.loaded e w
      → next_record s.q.capacity w ≢ s.q.read_pos
      → t ≡ record s { producer = Producer.storing e w (next_record s.q.capacity w) }
      → Step s t
  store :
      (e : A) (w n : ℕ)
      → s.producer ≡ Producer.storing e w n
      → t ≡ record s {
        q = record (s.q) { records = set s.q.records w e };
        producer = Producer.publishing e n;
      }
      → Step s t
  publish :
      (e : A) (n : ℕ)
      → s.producer ≡ Producer.publishing e n
      → t ≡ record s {
        q = record (s.q) { write_pos = n };
        producer = Producer.resting;
        sent = s.sent ++ e ∷ [];
      }
      → Step s t
  call_read :
      s.consumer ≡ Consumer.resting
      → t ≡ record s { consumer = Consumer.loaded s.q.read_pos }
      → Step s t
  nothing :
      (r : ℕ)
      → s.consumer ≡ Consumer.loaded r
      → r ≡ s.q.write_pos
      → t ≡ record s { consumer = Consumer.resting }
      → Step s t
  something :
      (r : ℕ)
      → s.consumer ≡ Consumer.loaded r
      → r ≢ s.q.write_pos
      → t ≡ record s { consumer = Consumer.fetching r }
      → Step s t
  fetch :
      (r : ℕ) (x : A)
      → s.consumer ≡ Consumer.fetching r
      → get_elem? s.q.records r ≡ some x
      → t ≡ record s { consumer = Consumer.releasing x (next_record s.q.capacity r) }
      → Step s t
  release :
      (x : A) (n : ℕ)
      → s.consumer ≡ Consumer.releasing x n
      → t ≡ record s {
        q = record (s.q) { read_pos = n };
        consumer = Consumer.resting;
        received = s.received ++ x ∷ [];
      }
      → Step s t

-- Two threads over a new queue, and what they can reach.
abbrev pub start : {A : Type 0} → Spsc A → System A
start q = record {
  q = q;
  producer = Producer.resting;
  consumer = Consumer.resting;
  sent = [];
  received = [];
}

pub data Reach {A : Type 0} (s : System A) : System A → Type 0 where
  here : Reach s s
  next : {t u : System A} → Reach s t → Step t u → Reach s u
