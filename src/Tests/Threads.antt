-- ===== src/Tests/Threads.antt =====
-- The theorems on the two threads, in a state where the producer is about to store a second record and
-- the consumer about to load the first.
use libqtl.Base.{ℕ, ◌<◌, ◌≡◌, ◌≢◌, refl, arith, some, List, [], ◌∷◌, ◌++◌, length, get_elem?}
use libqtl.Spsc.{Spsc, next_record}
use libqtl.Spsc.Refine.{Represents}
use libqtl.Spsc.Threads.{
  System, Producer, Consumer, Reach, start, here, next, call_write, has_room, store, publish,
  call_read, something,
}
use libqtl.Spsc.Threads.Delivery.{all_received}
use libqtl.Spsc.Threads.Safety.{first_in_first_out, no_data_race, fetch_oldest}

abbrev new_queue : Spsc ℕ
new_queue = record { capacity = 3; records = 0 ∷ 0 ∷ 0 ∷ []; read_pos = 0; write_pos = 0 }

new_queue-Represents : Represents new_queue []
new_queue-Represents = record {
  fits = omega arith;
  storage = omega arith;
  read_in = omega arith;
  room = omega arith;
  write_at = refl;
  held = tt;
}

abbrev middle : System ℕ
middle = record {
  q = record { capacity = 3; records = 7 ∷ 0 ∷ 0 ∷ []; read_pos = 0; write_pos = 1 };
  producer = Producer.storing 8 1 2;
  consumer = Consumer.fetching 0;
  sent = 7 ∷ [];
  received = [];
}

middle-Reach : Reach (start new_queue) middle
unfolding next_record
middle-Reach =
    next
      (next
        (next
          (next
            (next
              (next
                (next (next here (call_write 7 refl refl)) (has_room 7 0 refl (omega arith) refl))
                (store 7 0 1 refl refl))
              (publish 7 1 refl refl))
            (call_write 8 refl refl))
          (has_room 8 1 refl (omega arith) refl))
        (call_read refl refl))
      (something 0 refl (omega arith) refl)

first_in_first_out_example : (queued : List ℕ) × (7 ∷ [] ≡ [] ++ queued) × (length queued < 3)
first_in_first_out_example = first_in_first_out new_queue new_queue-Represents middle-Reach

no_data_race_example : (◌≢◌ {A = ℕ} 1 0) × (1 < 3) × (0 < 3)
no_data_race_example = no_data_race new_queue 8 1 2 0 new_queue-Represents middle-Reach refl refl

fetch_oldest_example :
    (x : ℕ) × (rest : List ℕ) × (get_elem? (7 ∷ 0 ∷ 0 ∷ []) 0 ≡ some x)
    × (7 ∷ [] ≡ [] ++ (x ∷ rest))
fetch_oldest_example = fetch_oldest new_queue 0 new_queue-Represents middle-Reach refl

all_received_example :
    (t : System ℕ) × Reach middle t
    × (t.producer ≡ Producer.storing 8 1 2)
    × (t.sent ≡ 7 ∷ [])
    × (t.received ≡ 7 ∷ [])
all_received_example = all_received new_queue new_queue-Represents middle-Reach
