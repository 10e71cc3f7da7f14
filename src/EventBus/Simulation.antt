-- ===== src/EventBus/Simulation.antt =====
-- The order in which the bus delivers events in a simulation, and its end.
use libqtl.Base.{
  ℕ, ◌≤◌, ◌≡◌, inl, refl, ap, Bool, true, false, Option, none, some, List, [], ◌∷◌, ◌++◌, arith,
  length, if◌then◌else◌,
}
use libqtl.Event.{Event, event_get_type, event_set_time, new_on_simulation_stop_event}
use libqtl.EventBus.{EventBus, PipeOps, simulation, event_bus_get_datetime, enqueue_attach}
use libqtl.EventBus.Dequeue.{
  Round, again, return, is_stop, continue_simulation, poll_simulation, stop_simulation,
}
use libqtl.EventBus.Pipes.{PipeLaws}
use libqtl.EventBus.Polls.{Pending, Returns, Polled, executions-Polled}
use libqtl.EventBus.Rounds.{taken}
use libqtl.EventBus.Loops.{Stepped}
use libqtl.EventBus.Order.{held}

-- The events that do not ask for the end of the simulation.
abbrev pub not_stops : List Event → List Event
not_stops [] = []
not_stops (e ∷ es) =
    let rest = not_stops es in if is_stop (event_get_type e) then rest else e ∷ rest

-- Whether the simulation ends: it was asked to already, or one of the events asks it to.
abbrev pub stops_with : Bool → List Event → Bool
stops_with flag [] = flag
stops_with flag (e ∷ es) =
    let rest = stops_with flag es in if is_stop (event_get_type e) then true else rest

-- The event that ends a simulation, made at `now` in `memory`.
abbrev pub stop_event : ℕ → Event → Event
stop_event now memory = event_set_time (new_on_simulation_stop_event memory) now

abbrev pub ending : ℕ → Event → Bool → List Event
ending now memory true = stop_event now memory ∷ []
ending now memory false = []

-- What is delivered of the data, and the event at the end.
abbrev pub played : ℕ → Event → Bool → List Event → List Event
played now memory flag d = not_stops d ++ ending now memory (stops_with flag d)

module _ {P Q T : Type 0} (ops : PipeOps P Q) (laws : PipeLaws ops) (now : ℕ) (memory : Event) where
  -- What a round does when the three pipes have nothing.
  abbrev SimulationEnds : Bool → Option Event → List Event → EventBus P T × Round → Type 0
  SimulationEnds flag (some e) d r = Returns ops laws simulation flag r e [] [] [] none d
  SimulationEnds true none d r =
      Returns ops laws simulation false r (stop_event now memory) [] [] [] none d
  SimulationEnds false none d (bus, r) =
      (r ≡ again) × Pending ops laws simulation false bus [] [] [] none d

  stopped :
      (bus : EventBus P T) (saved : Option Event) (x c s d : List Event)
      → Pending ops laws simulation true bus x c s none d
      → Pending ops laws simulation false
          (record bus { saved_event = none; is_simulation_stop = false })
          x
          c
          s
          none
          d
  stopped bus saved x c s d h = record {
    in_mode = h.in_mode;
    stops_as = refl;
    executions_hold = h.executions_hold;
    commands_hold = h.commands_hold;
    services_hold = h.services_hold;
    saved_is = refl;
    data_hold = h.data_hold;
  }

  pub flagged :
      (flag set : Bool) (bus : EventBus P T) (x c s d : List Event)
      → Pending ops laws simulation flag bus x c s none d
      → Pending ops laws simulation set (record bus { is_simulation_stop = set }) x c s none d
  flagged flag set bus x c s d h = record {
    in_mode = h.in_mode;
    stops_as = refl;
    executions_hold = h.executions_hold;
    commands_hold = h.commands_hold;
    services_hold = h.services_hold;
    saved_is = h.saved_is;
    data_hold = h.data_hold;
  }

  simulated_now :
      (bus : EventBus P T) → bus.mode ≡ simulation → event_bus_get_datetime now bus ≡ now
  unfolding event_bus_get_datetime
  simulated_now bus m = rw m refl

  poll_simulation-SimulationEnds :
      (flag : Bool) (saved : Option Event) (d : List Event) (bus : EventBus P T)
      → Pending ops laws simulation flag bus [] [] [] saved d
      → SimulationEnds flag saved d (poll_simulation now memory bus)
  unfolding poll_simulation enqueue_attach stop_simulation event_bus_get_datetime
  poll_simulation-SimulationEnds flag (some e) d bus h =
      rw (h.saved_is, poll_simulation)
        (ap return h.saved_is, taken ops laws simulation flag bus e [] [] [] d h)
  poll_simulation-SimulationEnds true none d bus h =
      rw (h.saved_is, h.stops_as, poll_simulation)
        (
          ap (λ t. return (some (event_set_time (new_on_simulation_stop_event memory) t)))
              (simulated_now bus h.in_mode),
          stopped bus none [] [] [] d h,
        )
  poll_simulation-SimulationEnds false none d bus h =
      rw (h.saved_is, h.stops_as, poll_simulation) (refl, flagged false false bus [] [] [] d h)

  -- What the bus still returns: `m` rounds at most take an event that asks for the end.
  pub record Owed (m : ℕ) (bus : EventBus P T) (out : List Event) : Type 0 where
    pub flag : Bool
    pub x : List Event
    pub c : List Event
    pub s : List Event
    pub saved : Option Event
    pub d : List Event
    pub pending : Pending ops laws simulation flag bus x c s saved d
    pub few : length d ≤ m
    pub in_order : x ++ (c ++ (s ++ (held saved ++ played now memory flag d))) ≡ out

  module _ (m : ℕ) (flag : Bool) (bus : EventBus P T) where
    pub owed :
        (x c s : List Event) (saved : Option Event) (d : List Event)
        → Pending ops laws simulation flag bus x c s saved d
        → length d ≤ m
        → Owed m bus (x ++ (c ++ (s ++ (held saved ++ played now memory flag d))))
    owed x c s saved d h few = record {
      flag = flag;
      x = x;
      c = c;
      s = s;
      saved = saved;
      d = d;
      pending = h;
      few = few;
      in_order = refl;
    }

  abbrev pub continued : EventBus P T → EventBus P T × Round
  continued = continue_simulation ops now memory

  -- The round behind the data pipe.
  continued-Polled :
      (flag : Bool) (saved : Option Event) (d : List Event) (x c s : List Event)
      (bus : EventBus P T)
      → Pending ops laws simulation flag bus x c s saved d
      → Polled ops laws simulation flag saved d (SimulationEnds flag saved d) (continued bus) x c s
  unfolding continue_simulation
  continued-Polled flag saved d =
      executions-Polled ops laws simulation flag saved d (SimulationEnds flag saved d)
        (poll_simulation now memory) (poll_simulation-SimulationEnds flag saved d)

  pub saved-Stepped :
      (m : ℕ) (flag : Bool) (e : Event) (d : List Event)
      → length d ≤ m
      → (x c s : List Event) (bus : EventBus P T)
      → Pending ops laws simulation flag bus x c s (some e) d
      → Stepped Owed m (continued bus) (x ++ (c ++ (s ++ (e ∷ played now memory flag d))))
  saved-Stepped m flag e d few (f ∷ x) c s bus h =
      let (r, p) = continued-Polled flag (some e) d (f ∷ x) c s bus h in
      inl (r, owed m flag (continued bus).0 x c s (some e) d p few)
  saved-Stepped m flag e d few [] (f ∷ c) s bus h =
      let (r, p) = continued-Polled flag (some e) d [] (f ∷ c) s bus h in
      inl (r, owed m flag (continued bus).0 [] c s (some e) d p few)
  saved-Stepped m flag e d few [] [] (f ∷ s) bus h =
      let (r, p) = continued-Polled flag (some e) d [] [] (f ∷ s) bus h in
      inl (r, owed m flag (continued bus).0 [] [] s (some e) d p few)
  saved-Stepped m flag e d few [] [] [] bus h =
      let (r, p) = continued-Polled flag (some e) d [] [] [] bus h in
      inl (r, owed m flag (continued bus).0 [] [] [] none d p few)

  pub empty-Stepped :
      (m : ℕ) (flag : Bool) (x c s : List Event) (bus : EventBus P T)
      → Pending ops laws simulation flag bus x c s none []
      → Stepped Owed m (continued bus) (x ++ (c ++ (s ++ ending now memory flag)))
  empty-Stepped m flag (f ∷ x) c s bus h =
      let (r, p) = continued-Polled flag none [] (f ∷ x) c s bus h in
      inl (r, owed m flag (continued bus).0 x c s none [] p (omega arith))
  empty-Stepped m flag [] (f ∷ c) s bus h =
      let (r, p) = continued-Polled flag none [] [] (f ∷ c) s bus h in
      inl (r, owed m flag (continued bus).0 [] c s none [] p (omega arith))
  empty-Stepped m flag [] [] (f ∷ s) bus h =
      let (r, p) = continued-Polled flag none [] [] [] (f ∷ s) bus h in
      inl (r, owed m flag (continued bus).0 [] [] s none [] p (omega arith))
  empty-Stepped m true [] [] [] bus h =
      let (r, p) = continued-Polled true none [] [] [] [] bus h in
      inl (r, owed m false (continued bus).0 [] [] [] none [] p (omega arith))
  empty-Stepped m false [] [] [] bus h =
      let (r, p) = continued-Polled false none [] [] [] [] bus h in
      inl (r, owed m false (continued bus).0 [] [] [] none [] p (omega arith))
