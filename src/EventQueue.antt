-- ===== src/EventQueue.antt =====
-- src/qtl_queue.c, src/qtl_queue.h: the queue of events between a producer and a consumer. Events are
-- pointers to a store that the queues share; `Bus` is the type of pointers to a bus.
pub mod Refine
pub mod Release
use libqtl.Base.{
  ℕ, zero, suc, Bool, true, false, ◌&&◌, Option, none, some, List, ◌==◌, ltb, if◌then◌else◌,
}
use mathlib.Core.Option
use libqtl.Event.{Event, event_get_time}
use libqtl.Event.Refs.{Life, alive, freed, used_after_free, use_event, release}
use libqtl.Spsc.{
  Spsc, Item, empty, fault, item, Made, built, no_memory, assertion_failed, spsc_queue_init,
  spsc_queue_write, spsc_queue_read, spsc_queue_peek, spsc_queue_is_empty, spsc_queue_is_full,
  spsc_queue_size, spsc_queue_capacity,
}

pub data EventQueueId : Type 0 where
  all data_queue execution reminder service : EventQueueId

pub data EventQueueType : Type 0 where
  master slave : EventQueueType

pub data EventQueuePriority : Type 0 where
  highest high normal low lowest : EventQueuePriority

-- The events in memory, by their addresses.
abbrev pub Store : Type 0
Store = ℕ → Life

abbrev pub update : Store → ℕ → Life → Store
update store a l b = if a == b then l else store b

-- `event_queue_s`; a null pointer is `none`.
pub record EventQueue (Bus : Type 0) : Type 0 where
  pub id : EventQueueId
  pub type : EventQueueType
  pub priority : EventQueuePriority
  pub name : Option (List ℕ)
  pub bus : Option Bus
  pub is_synced : Bool
  pub spsc : Spsc ℕ

-- The time of the event at the head, `none` where an assertion fails or the pointer is not valid.
abbrev pub time_of_life : Life → Option ℕ
time_of_life (alive e) = some (event_get_time e)
time_of_life freed = none
time_of_life used_after_free = none

abbrev pub time_of_item : Store → Item ℕ → Option ℕ
time_of_item store empty = none
time_of_item store fault = none
time_of_item store (item a) = time_of_life (store a)

module _ {Bus : Type 0} where
  unfoldable pub new_with :
      EventQueueId
      → EventQueueType
      → EventQueuePriority
      → Option Bus
      → EventQueue Bus
      → Made (Spsc ℕ)
      → Made (EventQueue Bus)
  new_with id type priority bus memory no_memory = no_memory
  new_with id type priority bus memory assertion_failed = assertion_failed
  new_with id type priority bus memory (built spsc) =
      built (record memory { id = id; type = type; priority = priority; bus = bus; spsc = spsc })

  -- The code behind the assertion.
  unfoldable pub new_in :
      Bool
      → Option (EventQueue Bus)
      → Option (List ℕ)
      → EventQueueId
      → EventQueueType
      → EventQueuePriority
      → ℕ
      → Option Bus
      → Made (EventQueue Bus)
  new_in checked none records id type priority size bus = no_memory
  new_in checked (some memory) records id type priority size bus =
      new_with id type priority bus memory (spsc_queue_init checked records size)

  -- `checked` says whether assertions are compiled in; `memory` and `records` are what the two calls of
  -- `malloc` return: the fields that the code does not set keep the values they have there.
  unfoldable pub event_queue_new :
      Bool
      → Option (EventQueue Bus)
      → Option (List ℕ)
      → EventQueueId
      → EventQueueType
      → EventQueuePriority
      → ℕ
      → Option Bus
      → Made (EventQueue Bus)
  event_queue_new checked memory records id type priority size bus =
      if checked && ltb size 2
      then assertion_failed
      else new_in checked memory records id type priority size bus

  -- The new queue, what `push` returns, and the bus that is woken up.
  unfoldable pub event_queue_push : EventQueue Bus → ℕ → EventQueue Bus × Bool × Option Bus
  event_queue_push q e =
      let is_empty : Bool = spsc_queue_is_empty q.spsc in
      let (spsc, ret) = spsc_queue_write q.spsc e in
      (record q { spsc = spsc }, ret, if is_empty && ret then q.bus else none)

  unfoldable pub event_queue_pop : EventQueue Bus → EventQueue Bus × Item ℕ
  event_queue_pop q = let (spsc, i) = spsc_queue_read q.spsc in (record q { spsc = spsc }, i)

  unfoldable pub event_queue_peek : EventQueue Bus → Item ℕ
  event_queue_peek q = spsc_queue_peek q.spsc

  unfoldable pub event_queue_is_empty : EventQueue Bus → Bool
  event_queue_is_empty q = spsc_queue_is_empty q.spsc

  unfoldable pub event_queue_is_full : EventQueue Bus → Bool
  event_queue_is_full q = spsc_queue_is_full q.spsc

  unfoldable pub event_queue_size : EventQueue Bus → ℕ
  event_queue_size q = spsc_queue_size q.spsc

  unfoldable pub event_queue_capacity : EventQueue Bus → ℕ
  event_queue_capacity q = spsc_queue_capacity q.spsc

  unfoldable pub event_queue_get_id : EventQueue Bus → EventQueueId
  event_queue_get_id q = q.id

  unfoldable pub event_queue_get_type : EventQueue Bus → EventQueueType
  event_queue_get_type q = q.type

  unfoldable pub event_queue_get_priority : EventQueue Bus → EventQueuePriority
  event_queue_get_priority q = q.priority

  unfoldable pub event_queue_get_name : EventQueue Bus → Option (List ℕ)
  event_queue_get_name q = q.name

  unfoldable pub event_queue_is_synched : EventQueue Bus → Bool
  event_queue_is_synched q = q.is_synced

  unfoldable pub event_queue_set_synched : EventQueue Bus → Bool → EventQueue Bus
  event_queue_set_synched q is_synched = record q { is_synced = is_synched }

  unfoldable pub event_queue_peek_time : Store → EventQueue Bus → Option ℕ
  event_queue_peek_time store q = time_of_item store (event_queue_peek q)

-- The loop of `event_queue_clear`: `none` when the fuel runs out or a read is outside the array.
unfoldable pub clear_loop : ℕ → Spsc ℕ → Store → Option (Spsc ℕ × Store)
clear_loop zero q store = none
clear_loop (suc fuel) q store = elim (spsc_queue_read q).1 [
  | empty ↦ some ((spsc_queue_read q).0, store)
  | fault ↦ none
  | item e ↦ clear_loop fuel (spsc_queue_read q).0 (update store e (use_event release (store e)))
]

module _ {Bus : Type 0} where
  -- The fuel is the capacity: more rounds than the queue has records.
  unfoldable pub event_queue_clear : EventQueue Bus → Store → Option (EventQueue Bus × Store)
  event_queue_clear q store =
      Option.map (λ r. (record q { spsc = r.0 }, r.1)) (clear_loop q.spsc.capacity q.spsc store)

  -- The queue and its array are returned to the system; the store is what is left.
  unfoldable pub event_queue_free : EventQueue Bus → Store → Option Store
  event_queue_free q store = Option.map (λ r. r.1) (event_queue_clear q store)
