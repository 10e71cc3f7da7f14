-- ===== src/EventQueue/Refine.antt =====
-- The operations on an event queue against the bounded list of events that it holds.
use libqtl.Base.{
  ℕ, ◌^◌, ◌≤◌, ◌<◌, ◌≡◌, ◌∙◌, refl, ap, Bool, true, false, ltb, ◌&&◌, Option, none, some, List, [],
  arith, ◌==◌, if◌then◌else◌, length,
}
use libqtl.Spsc.{
  Spsc, built, spsc_queue_init, spsc_queue_write, spsc_queue_read, spsc_queue_is_empty,
}
use libqtl.Spsc.Refine.{
  Represents, push, pop, write-capacity, read-capacity, init-Represents, write_refines,
  read_refines, is_empty_lem,
}
use libqtl.EventQueue.{
  EventQueue, EventQueueId, EventQueueType, EventQueuePriority, event_queue_new, new_in, new_with,
  event_queue_push, event_queue_pop, event_queue_peek, event_queue_peek_time, Store, time_of_item,
}

module _ {Bus : Type 0} where
  -- The queue has the identity, type, priority, name, bus and synchronization flag of the other.
  abbrev pub SameKind : EventQueue Bus → EventQueue Bus → Type 0
  SameKind p q =
      (p.id ≡ q.id)
      × (p.type ≡ q.type)
      × (p.priority ≡ q.priority)
      × (p.name ≡ q.name)
      × (p.bus ≡ q.bus)
      × (p.is_synced ≡ q.is_synced)

  -- The same, and the queues have the same capacity.
  abbrev pub AllElseSame : EventQueue Bus → EventQueue Bus → Type 0
  AllElseSame p q = SameKind p q × (p.spsc.capacity ≡ q.spsc.capacity)

  all_else-spsc :
      (q : EventQueue Bus) (spsc : Spsc ℕ)
      → spsc.capacity ≡ q.spsc.capacity
      → AllElseSame (record q { spsc = spsc }) q
  all_else-spsc q spsc same = ((refl, refl, refl, refl, refl, refl), same)

  -- A new queue, when the memory is there and its array has `size` records, is empty and has the
  -- identity, type, priority and bus it was asked for; no call sets its name and its flag.
  pub new-Represents :
      (checked : Bool) (memory : EventQueue Bus) (records : List ℕ) (id : EventQueueId)
      (type : EventQueueType) (priority : EventQueuePriority) (size : ℕ) (bus : Option Bus)
      → 2 ≤ size
      → size < 2 ^ 32
      → size ≤ length records
      → (q : EventQueue Bus) × (event_queue_new checked
            (some memory)
            (some records)
            id
            type
            priority
            size
            bus
          ≡ built q)
        × Represents q.spsc []
        × SameKind q (record memory { id = id; type = type; priority = priority; bus = bus })
  unfolding event_queue_new new_in new_with
  new-Represents checked memory records id type priority size bus two fits room =
      let (spsc, made, r) = init-Represents checked records size two fits room in
      (
        _,
        passes checked ∙ ap (new_with id type priority bus memory) made,
        r,
        (refl, refl, refl, refl, refl, refl),
      )
    where
      large : ltb size 2 ≡ false
      large = ground (arith, two)

      passes :
          (checked : Bool)
          → event_queue_new checked (some memory) (some records) id type priority size bus
            ≡ new_with id type priority bus memory (spsc_queue_init checked (some records) size)
      passes true = rw large refl
      passes false = refl

  -- A push appends the event unless the queue is full, says which, and wakes the bus up exactly when the
  -- queue was empty and took the event. The identity, type, priority, name, bus, synchronization flag and
  -- capacity of the queue stay as they are.
  pub push_refines :
      (q : EventQueue Bus) (xs : List ℕ) (e : ℕ)
      → Represents q.spsc xs
      → Represents (event_queue_push q e).0.spsc (push q.spsc.capacity xs e).0
        × AllElseSame (event_queue_push q e).0 q
        × ((event_queue_push q e).1 ≡ (push q.spsc.capacity xs e).1)
        × ((event_queue_push q e).2
            ≡ (if (length xs == 0) && (push q.spsc.capacity xs e).1 then q.bus else none))
  unfolding event_queue_push spsc_queue_is_empty
  push_refines q xs e r =
      let (r', b) = write_refines q.spsc xs r e in
      (
        r',
        all_else-spsc q (spsc_queue_write q.spsc e).0 (write-capacity q.spsc e),
        b,
        rw (is_empty_lem q.spsc xs r, b) refl,
      )

  -- A pop takes the oldest event, which a peek also returns and whose time is the time peeked; on an
  -- empty queue there is none. The identity, type, priority, name, bus, synchronization flag and capacity of
  -- the queue stay as they are.
  pub pop_refines :
      (store : Store) (q : EventQueue Bus) (xs : List ℕ)
      → Represents q.spsc xs
      → Represents (event_queue_pop q).0.spsc (pop xs).0
        × AllElseSame (event_queue_pop q).0 q
        × ((event_queue_pop q).1 ≡ (pop xs).1)
        × (event_queue_peek q ≡ (pop xs).1)
        × (event_queue_peek_time store q ≡ time_of_item store (pop xs).1)
  unfolding event_queue_pop event_queue_peek event_queue_peek_time
  pop_refines store q xs r =
      let (r', i, p) = read_refines q.spsc xs r in
      (
        r',
        all_else-spsc q (spsc_queue_read q.spsc).0 (read-capacity q.spsc),
        i,
        p,
        ap (time_of_item store) p,
      )
