-- ===== src/Tests/Queues.antt =====
-- The theorems on queues and events, at a queue of capacity 4 that holds three records, round the end of
-- its array.
use libqtl.Base.{
  ℕ, ◌+◌, ◌^◌, ◌<◌, ◌≡◌, refl, arith, false, ◌&&◌, none, some, List, [], ◌∷◌, ◌==◌, if◌then◌else◌,
}
use libqtl.Event.{Event, trade, event_init}
use libqtl.Event.Refs.{alive, acquire, release, use_all, fate, use_all-Held}
use libqtl.Spsc.{Spsc}
use libqtl.Spsc.Refine.{Represents, push, pop}
use libqtl.Spsc.Calls.{Call, write, read, size, is_full, run, run_list, run_refines}
use libqtl.EventQueue.{
  EventQueue, event_queue_push, event_queue_pop, event_queue_peek, event_queue_peek_time,
  event_queue_clear, Store, time_of_item, data_queue, master, normal,
}
use libqtl.EventQueue.Refine.{AllElseSame, push_refines, pop_refines}
use libqtl.EventQueue.Release.{count, event_queue_clear-release}

abbrev ring : Spsc ℕ
ring = record { capacity = 4; records = 5 ∷ 7 ∷ 99 ∷ 5 ∷ []; read_pos = 3; write_pos = 2 }

abbrev ring_records : List ℕ
ring_records = 5 ∷ 5 ∷ 7 ∷ []

ring-Represents : Represents ring ring_records
ring-Represents = record {
  fits = omega arith;
  storage = omega arith;
  read_in = omega arith;
  room = omega arith;
  write_at = refl;
  held = (refl, (refl, (refl, tt)));
}

abbrev calls : List (Call ℕ)
calls = write 8 ∷ read ∷ write 9 ∷ is_full ∷ size ∷ read ∷ read ∷ []

run_refines_example : run ring calls ≡ run_list 4 ring_records calls
run_refines_example = run_refines calls ring ring_records ring-Represents (omega arith)

-- The bus is the number 1.
abbrev queue : EventQueue ℕ
queue = record {
  id = data_queue;
  type = master;
  priority = normal;
  name = none;
  bus = some 1;
  is_synced = false;
  spsc = ring;
}

abbrev event : Event
event = record { timestamp = 63592387199000000; type = trade; ref = 0 }

-- The event at 5 has three holders, two of them in the queue; that at 7 is held by the queue alone.
store : Store
store a = if a == 5 then fate event 3 else if a == 7 then fate event 1 else fate event 0

push_refines_example :
    Represents (event_queue_push queue 8).0.spsc (push 4 ring_records 8).0
    × AllElseSame (event_queue_push queue 8).0 queue
    × ((event_queue_push queue 8).1 ≡ (push 4 ring_records 8).1)
    × ((event_queue_push queue 8).2
        ≡ (if (3 == 0) && (push 4 ring_records 8).1 then some 1 else none))
push_refines_example = push_refines queue ring_records 8 ring-Represents

pop_refines_example :
    Represents (event_queue_pop queue).0.spsc (pop ring_records).0
    × AllElseSame (event_queue_pop queue).0 queue
    × ((event_queue_pop queue).1 ≡ (pop ring_records).1)
    × (event_queue_peek queue ≡ (pop ring_records).1)
    × (event_queue_peek_time store queue ≡ time_of_item store (pop ring_records).1)
pop_refines_example = pop_refines store queue ring_records ring-Represents

event_queue_clear-release_example :
    (q : EventQueue ℕ) × (store' : Store) × (event_queue_clear queue store ≡ some (q, store'))
    × Represents q.spsc []
    × ((a : ℕ) (e : Event) (others : ℕ)
        → store a ≡ fate e (count a ring_records + others)
        → count a ring_records + others < 2 ^ 16
        → store' a ≡ fate e others)
event_queue_clear-release_example =
    event_queue_clear-release queue ring_records store ring-Represents

use_all-Held_example :
    use_all (acquire ∷ release ∷ acquire ∷ release ∷ release ∷ []) (alive (event_init event trade))
    ≡ fate (event_init event trade) 0
use_all-Held_example =
    use_all-Held (acquire ∷ release ∷ acquire ∷ release ∷ release ∷ []) event trade 0 (omega arith)
