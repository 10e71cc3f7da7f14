-- ===== src/EventBus/Dequeue.antt =====
-- src/qtl_bus.c, the two loops of `event_bus_dequeue`, one round at a time.
use libqtl.Base.{ℕ, Bool, true, false, Option, none, some, List, [], ◌∷◌, if◌then◌else◌}
use libqtl.Event.{
  Event, EventType, on_simulator_stop, event_set_time, event_get_type, new_on_simulation_stop_event,
}
use libqtl.EventBus.{
  EventBus, EventBusMode, PipeOps, realtime, simulation, enqueue_attach, event_bus_get_datetime,
}

-- One round of a loop: `return e`, where `e` may be null; another round; a null pointer followed.
pub data Round : Type 0 where
  return : Option Event → Round
  again fault : Round

-- What a call has done after so many rounds: `returned` an event or a null pointer, going on in its loop, or
-- followed a null pointer.
pub data Dequeued (P T : Type 0) : Type 0 where
  returned : EventBus P T → Option Event → Dequeued P T
  waiting : EventBus P T → Dequeued P T
  followed_null : Dequeued P T

abbrev pub is_stop : EventType → Bool
is_stop on_simulator_stop = true
is_stop _ = false

module _ {P T : Type 0} where
  -- The end of a round in real time.
  unfoldable pub poll_saved : EventBus P T → EventBus P T × Round
  poll_saved bus = elim bus.saved_event [
    | some e ↦ (record bus { saved_event = none }, return (some e))
    | none ↦ (bus, again)
  ]

  unfoldable pub save_data : EventBus P T → Option (Option Event) → EventBus P T
  save_data bus none = bus
  save_data bus (some e) = record bus { saved_event = e }

  -- The event that ends a simulation, at `now`, in the `memory` that `malloc` returns.
  unfoldable pub stop_simulation : ℕ → Event → EventBus P T → EventBus P T × Round
  stop_simulation now memory bus =
      let e : Event =
        event_set_time (new_on_simulation_stop_event memory) (event_bus_get_datetime now bus) in
      let (bus', r) =
        enqueue_attach (record bus { saved_event = some e; is_simulation_stop = false }) in
      (bus', return r)

  unfoldable pub poll_simulation : ℕ → Event → EventBus P T → EventBus P T × Round
  poll_simulation now memory bus = elim bus.saved_event [
    | some e ↦ let (bus', r) = enqueue_attach bus in (bus', return r)
    | none ↦ if bus.is_simulation_stop then stop_simulation now memory bus else (bus, again)
  ]

  -- The loop of the two modes. The list has, for each round, what other threads do to the bus before it.
  unfoldable pub dequeue_loop :
      (EventBus P T → EventBus P T × Round)
      → List (EventBus P T → EventBus P T)
      → EventBus P T
      → Dequeued P T
  dequeue_loop round [] bus = waiting bus
  dequeue_loop round (others ∷ more) bus = elim (round (others bus)).1 [
    | return e ↦ returned (round (others bus)).0 e
    | again ↦ dequeue_loop round more (round (others bus)).0
    | fault ↦ followed_null
  ]

module _ {P Q : Type 0} (ops : PipeOps P Q) where
  -- The pipe with what a test and, when it is not empty, a read find in it; `none` when it is empty.
  unfoldable pub poll : P → P × Option (Option Event)
  poll p =
      let (tested, is_empty) = ops.pipe_is_empty p in
      let (rest, e) = ops.pipe_read tested in if is_empty then (tested, none) else (rest, some e)

  -- The same for the data pipe, which is read only when no event is saved.
  unfoldable pub poll_data : P → Option Event → P × Option (Option Event)
  poll_data p (some e) = ((ops.pipe_is_empty p).0, none)
  poll_data p none = poll p

module _ {P Q T : Type 0} (ops : PipeOps P Q) where
  -- The three pipes that are asked before the saved event; `rest` is the code behind.
  unfoldable pub poll_services :
      (EventBus P T → EventBus P T × Round) → EventBus P T → EventBus P T × Round
  poll_services rest bus = elim (poll ops bus.services).1 [
    | some e ↦ (record bus { services = (poll ops bus.services).0 }, return e)
    | none ↦ rest (record bus { services = (poll ops bus.services).0 })
  ]

  unfoldable pub poll_commands :
      (EventBus P T → EventBus P T × Round) → EventBus P T → EventBus P T × Round
  poll_commands rest bus = elim (poll ops bus.commands).1 [
    | some e ↦ (record bus { commands = (poll ops bus.commands).0 }, return e)
    | none ↦ rest (record bus { commands = (poll ops bus.commands).0 })
  ]

  unfoldable pub poll_executions :
      (EventBus P T → EventBus P T × Round) → EventBus P T → EventBus P T × Round
  poll_executions rest bus = elim (poll ops bus.executions).1 [
    | some e ↦ (record bus { executions = (poll ops bus.executions).0 }, return e)
    | none ↦ rest (record bus { executions = (poll ops bus.executions).0 })
  ]

  -- The tests of the two queues of reminders have no effect, and are left out.
  unfoldable pub realtime_round : EventBus P T → EventBus P T × Round
  realtime_round bus =
      let (p, got) = poll_data ops bus.data_events bus.saved_event in
      poll_executions (poll_commands (poll_services poll_saved))
        (save_data (record bus { data_events = p }) got)

  unfoldable pub continue_simulation : ℕ → Event → EventBus P T → EventBus P T × Round
  continue_simulation now memory =
      poll_executions (poll_commands (poll_services (poll_simulation now memory)))

  -- The branches on what the data pipe gave.
  unfoldable pub simulate : ℕ → Event → EventBus P T → Option (Option Event) → EventBus P T × Round
  simulate now memory bus none = continue_simulation now memory bus
  simulate now memory bus (some none) = (bus, fault)
  simulate now memory bus (some (some e)) =
      if is_stop (event_get_type e)
      then (record bus { is_simulation_stop = true }, again)
      else continue_simulation now memory (record bus { saved_event = some e })

  unfoldable pub simulation_round : ℕ → Event → EventBus P T → EventBus P T × Round
  simulation_round now memory bus =
      let (p, got) = poll_data ops bus.data_events bus.saved_event in
      simulate now memory (record bus { data_events = p }) got

  unfoldable pub dequeue_in :
      EventBusMode → ℕ → Event → List (EventBus P T → EventBus P T) → EventBus P T → Dequeued P T
  dequeue_in simulation now memory others bus =
      dequeue_loop (simulation_round now memory) others bus
  dequeue_in realtime now memory others bus = dequeue_loop realtime_round others bus

  unfoldable pub event_bus_dequeue :
      ℕ → Event → List (EventBus P T → EventBus P T) → EventBus P T → Dequeued P T
  event_bus_dequeue now memory others bus = dequeue_in bus.mode now memory others bus
