-- ===== src/EventBus.antt =====
-- src/qtl_bus.c, src/qtl_bus.h: the bus, which takes events from its pipes in order of importance. The
-- pipes are an argument: their type `P`, and the operations `PipeOps` of src/qtl_pipe.h, with `Q` for
-- pointers to queues; so is the type `T` of the reminders' trees. Events are values here. The mutex, the
-- condition and the members that nothing reads are left out.
pub mod Dequeue
pub mod Pipes
pub mod Polls
pub mod Rounds
pub mod Loops
pub mod Order
pub mod Simulation
pub mod Playback
pub mod OverPipes
pub mod Ending
pub mod Backtest
use libqtl.Base.{ℕ, Bool, true, false, Option, none, some, List, [], ◌∷◌, ltb, if◌then◌else◌}
use libqtl.Event.{
  Event, EventType, on_simulator_stop, event_set_time, event_get_type, new_on_simulation_stop_event,
}
use libqtl.Reminder.{Reminder, RbOps, ReminderQueue, reminder_queue_clear}

pub data EventBusMode : Type 0 where
  realtime simulation : EventBusMode

pub data EventBusIdleMode : Type 0 where
  idle_spin idle_sleep idle_wait : EventBusIdleMode

pub data EventBusPipe : Type 0 where
  data_pipe execution_pipe service_pipe historical_pipe : EventBusPipe

-- `event_pipe_is_empty` and `event_pipe_read` may change the pipe; a null pointer that is read is `none`.
pub record PipeOps (P Q : Type 0) : Type 0 where
  pub pipe_add : P → Q → P
  pub pipe_is_empty : P → P × Bool
  pub pipe_read : P → P × Option Event
  pub pipe_clear : P → P
  pub pipe_is_null : P → Bool
  pub pipe_free : P → P

-- `event_bus_s`
pub record EventBus (P T : Type 0) : Type 0 where
  pub commands : P
  pub data_events : P
  pub executions : P
  pub services : P
  pub historical : P
  pub local_clock_queue : ReminderQueue T
  pub exchange_clock_queue : ReminderQueue T
  pub local_clock_datetime : ℕ
  pub exchange_clock_datetime : ℕ
  pub mode : EventBusMode
  pub idle_mode : EventBusIdleMode
  pub queue_count : ℕ
  pub is_simulation_stop : Bool
  pub show_warnings : Bool
  pub clear_reminders : Bool
  pub read_reminders : Bool
  pub saved_event : Option Event

module _ {P T : Type 0} where
  -- The pipes are those that the five calls of `event_pipe_new` return.
  unfoldable pub event_bus_new : Option (EventBus P T) → P → P → P → P → P → Option (EventBus P T)
  event_bus_new none c d e s h = none
  event_bus_new (some memory) c d e s h = some (record memory {
    show_warnings = true;
    read_reminders = true;
    idle_mode = idle_wait;
    mode = simulation;
    commands = c;
    data_events = d;
    executions = e;
    services = s;
    historical = h;
  })

  unfoldable pub event_bus_attach : EventBus P T → EventBus P T
  event_bus_attach bus = bus

  unfoldable pub event_bus_deattach : EventBus P T → EventBus P T
  event_bus_deattach bus = bus

  unfoldable pub enqueue_attach : EventBus P T → EventBus P T × Option Event
  enqueue_attach bus = (record bus { saved_event = none }, bus.saved_event)

  -- The argument `now` is what `utc_now` returns.
  unfoldable pub event_bus_get_datetime : ℕ → EventBus P T → ℕ
  event_bus_get_datetime now bus = elim bus.mode [
    | realtime ↦ bus.local_clock_datetime
    | simulation ↦ now
  ]

  unfoldable pub event_bus_set_datetime : EventBus P T → ℕ → EventBus P T
  event_bus_set_datetime bus time = elim bus.mode [
    | realtime ↦ bus
    | simulation ↦
        if ltb time bus.local_clock_datetime
        then bus
        else record bus { local_clock_datetime = time }
  ]

  unfoldable pub event_bus_get_exchange_datetime : EventBus P T → ℕ
  event_bus_get_exchange_datetime bus = bus.exchange_clock_datetime

  unfoldable pub event_bus_set_exchange_datetime : EventBus P T → ℕ → EventBus P T
  event_bus_set_exchange_datetime bus time =
      if ltb time bus.exchange_clock_datetime
      then bus
      else record bus { exchange_clock_datetime = time }

  unfoldable pub event_bus_get_clear_reminders : EventBus P T → Bool
  event_bus_get_clear_reminders bus = bus.clear_reminders

  unfoldable pub event_bus_set_clear_reminders : EventBus P T → Bool → EventBus P T
  event_bus_set_clear_reminders bus b = record bus { clear_reminders = b }

  unfoldable pub event_bus_get_show_warnings : EventBus P T → Bool
  event_bus_get_show_warnings bus = bus.show_warnings

  unfoldable pub event_bus_set_show_warnings : EventBus P T → Bool → EventBus P T
  event_bus_set_show_warnings bus b = record bus { show_warnings = b }

  unfoldable pub event_bus_get_idle_mode : EventBus P T → EventBusIdleMode
  event_bus_get_idle_mode bus = bus.idle_mode

  unfoldable pub event_bus_set_idle_mode : EventBus P T → EventBusIdleMode → EventBus P T
  event_bus_set_idle_mode bus m = record bus { idle_mode = m }

  unfoldable pub event_bus_get_mode : EventBus P T → EventBusMode
  event_bus_get_mode bus = bus.mode

  unfoldable pub event_bus_set_mode : EventBus P T → EventBusMode → EventBus P T
  event_bus_set_mode bus m = record bus { mode = m }

  unfoldable pub event_bus_get_data_pipe : EventBus P T → P
  event_bus_get_data_pipe bus = bus.data_events

  unfoldable pub event_bus_get_execution_pipe : EventBus P T → P
  event_bus_get_execution_pipe bus = bus.executions

  unfoldable pub event_bus_get_service_pipe : EventBus P T → P
  event_bus_get_service_pipe bus = bus.services

  unfoldable pub event_bus_get_historical_pipe : EventBus P T → P
  event_bus_get_historical_pipe bus = bus.historical

module _ {P Q : Type 0} (ops : PipeOps P Q) where
  unfoldable pub free_pipe : P → P
  free_pipe p = if ops.pipe_is_null p then p else ops.pipe_free p

module _ {P Q T : Type 0} (ops : PipeOps P Q) where
  unfoldable pub event_bus_add_queue : EventBus P T → Q → EventBusPipe → EventBus P T × Bool
  event_bus_add_queue bus q data_pipe =
      (record bus { data_events = ops.pipe_add bus.data_events q }, true)
  event_bus_add_queue bus q execution_pipe =
      (record bus { executions = ops.pipe_add bus.executions q }, true)
  event_bus_add_queue bus q service_pipe =
      (record bus { services = ops.pipe_add bus.services q }, true)
  event_bus_add_queue bus q historical_pipe =
      (record bus { historical = ops.pipe_add bus.historical q }, true)

  -- What is left when the bus is returned to the system.
  unfoldable pub event_bus_free : EventBus P T → EventBus P T
  event_bus_free bus = record bus {
    commands = free_pipe ops bus.commands;
    data_events = free_pipe ops bus.data_events;
    executions = free_pipe ops bus.executions;
    services = free_pipe ops bus.services;
    historical = free_pipe ops bus.historical;
  }

  -- `free(saved_event)` takes an event out of memory, whatever its count.
  unfoldable pub event_bus_clear : RbOps T Reminder → ℕ → EventBus P T → EventBus P T
  event_bus_clear trees fuel bus = record bus {
    saved_event = none;
    local_clock_queue = reminder_queue_clear trees fuel bus.local_clock_queue;
    exchange_clock_queue = reminder_queue_clear trees fuel bus.exchange_clock_queue;
    services = ops.pipe_clear bus.services;
    data_events = ops.pipe_clear bus.data_events;
    executions = ops.pipe_clear bus.executions;
    historical = ops.pipe_clear bus.historical;
    queue_count = 0;
    is_simulation_stop = false;
  }
