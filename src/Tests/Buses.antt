-- ===== src/Tests/Buses.antt =====
-- The theorems on the bus, with lists of events for the pipes.
use libqtl.Base.{ℕ, ◌≡◌, refl, arith, true, false, Option, none, some, List, [], ◌∷◌, ◌++◌, ap}
use libqtl.Event.{event_get_type, Event, EventType, ask, bid, trade, on_simulator_stop}
use libqtl.EventBus.{EventBus, EventBusMode, PipeOps, realtime, simulation, idle_spin}
use libqtl.EventBus.Pipes.{PipeLaws, is_nil}
use libqtl.EventBus.Polls.{Pending}
use libqtl.EventBus.Loops.{still_waits, deliver}
use libqtl.EventBus.Order.{deliver-Pending}
use libqtl.EventBus.Simulation.{stop_event}
use libqtl.EventBus.Playback.{deliver-stop_event}

abbrev read : List Event → List Event × Option Event
read [] = ([], none)
read (e ∷ es) = (es, some e)

abbrev ops : PipeOps (List Event) (List Event)
ops = record {
  pipe_add = λ p q. p ++ q;
  pipe_is_empty = λ p. (p, is_nil p);
  pipe_read = read;
  pipe_clear = λ p. [];
  pipe_is_null = λ p. false;
  pipe_free = λ p. [];
}

laws : PipeLaws ops
laws = record {
  Holds = λ p es. p ≡ es;
  is_empty_lem = λ p es h. (ap is_nil h, h);
  read_lem = λ p e es h. (ap (λ q. (read q).1) h, ap (λ q. (read q).0) h);
}

abbrev event : EventType → ℕ → Event
event type time = record { timestamp = time; type = type; ref = 1 }

-- In this mode, with these data.
abbrev bus_in : EventBusMode → List Event → EventBus (List Event) (Unit {0})
bus_in mode d = record {
  commands = [];
  data_events = d;
  executions = event trade 4 ∷ [];
  services = event trade 5 ∷ [];
  historical = [];
  local_clock_queue = record { tree = tt };
  exchange_clock_queue = record { tree = tt };
  local_clock_datetime = 0;
  exchange_clock_datetime = 0;
  mode = mode;
  idle_mode = idle_spin;
  queue_count = 0;
  is_simulation_stop = false;
  show_warnings = true;
  clear_reminders = false;
  read_reminders = true;
  saved_event = some (event ask 1);
}

abbrev bus : EventBus (List Event) (Unit {0})
bus = bus_in realtime (event ask 2 ∷ event bid 3 ∷ [])

-- The data that ask for the end of the simulation between other events.
abbrev played_data : List Event
played_data = event on_simulator_stop 2 ∷ event bid 3 ∷ event on_simulator_stop 4 ∷ []

abbrev simulated_bus : EventBus (List Event) (Unit {0})
simulated_bus = bus_in simulation played_data

bus_in-Pending :
    (mode : EventBusMode) (d : List Event)
    → Pending ops laws mode false
        (bus_in mode d)
        (event trade 4 ∷ [])
        []
        (event trade 5 ∷ [])
        (some (event ask 1))
        d
unfolding laws
bus_in-Pending mode d = record {
  in_mode = refl;
  stops_as = refl;
  executions_hold = refl;
  commands_hold = refl;
  services_hold = refl;
  saved_is = refl;
  data_hold = refl;
}

deliver-Pending_example :
    deliver ops 0 (event ask 0) 1 6 bus
    ≡ (event trade 4 ∷ event trade 5 ∷ event ask 1 ∷ event ask 2 ∷ event bid 3 ∷ [], still_waits)
deliver-Pending_example =
    deliver-Pending ops laws 0 (event ask 0) 1 6 false bus (event trade 4 ∷ []) []
      (event trade 5 ∷ []) (some (event ask 1)) (event ask 2 ∷ event bid 3 ∷ [])
      (bus_in-Pending realtime (event ask 2 ∷ event bid 3 ∷ [])) (omega arith) (omega arith)

deliver-stop_event_example : deliver ops 9 (event ask 0) 4 6 simulated_bus ≡ (
  event trade 4 ∷ event trade 5 ∷ event ask 1 ∷ event bid 3 ∷ stop_event 9 (event ask 0) ∷ [],
  still_waits,
)
unfolding event_get_type
deliver-stop_event_example =
    deliver-stop_event ops laws 9 (event ask 0) 4 6 false simulated_bus (event trade 4 ∷ []) []
      (event trade 5 ∷ []) (some (event ask 1)) played_data (bus_in-Pending simulation played_data)
      (omega arith) (omega arith)
