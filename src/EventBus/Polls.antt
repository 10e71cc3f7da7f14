-- ===== src/EventBus/Polls.antt =====
-- What the bus finds in each pipe in turn, and what it leaves there.
use libqtl.Base.{◌≡◌, refl, Bool, Option, some, List, [], ◌∷◌}
use libqtl.Event.{Event}
use libqtl.EventBus.{EventBus, EventBusMode, PipeOps}
use libqtl.EventBus.Dequeue.{Round, return, poll, poll_executions, poll_commands, poll_services}
use libqtl.EventBus.Pipes.{PipeLaws, poll-nil, poll-cons}

module _ {P Q T : Type 0} (ops : PipeOps P Q) (laws : PipeLaws ops) (mode : EventBusMode)
    (stops : Bool) where
  -- The bus is in this mode, `stops` tells whether its simulation has ended, the four pipes that are read
  -- hold these events, and this one is saved.
  pub record Pending (bus : EventBus P T) (x c s : List Event) (saved : Option Event)
      (d : List Event) : Type 0 where
    pub in_mode : bus.mode ≡ mode
    pub stops_as : bus.is_simulation_stop ≡ stops
    pub executions_hold : laws.Holds bus.executions x
    pub commands_hold : laws.Holds bus.commands c
    pub services_hold : laws.Holds bus.services s
    pub saved_is : bus.saved_event ≡ saved
    pub data_hold : laws.Holds bus.data_events d

  -- The round returns the event, and leaves these.
  abbrev pub Returns :
      EventBus P T × Round
      → Event
      → (x c s : List Event) (saved : Option Event) → List Event
      → Type 0
  Returns (bus, r) e x c s saved d = (r ≡ return (some e)) × Pending bus x c s saved d

  module _ (saved : Option Event) (d : List Event) where
    -- The services of a bus, and what it still holds, are replaced.
    with_services :
        (bus : EventBus P T) (p : P) (x c s s' : List Event)
        → laws.Holds p s'
        → Pending bus x c s saved d
        → Pending (record bus { services = p }) x c s' saved d
    with_services bus p x c s s' k h = record {
      in_mode = h.in_mode;
      stops_as = h.stops_as;
      executions_hold = h.executions_hold;
      commands_hold = h.commands_hold;
      services_hold = k;
      saved_is = h.saved_is;
      data_hold = h.data_hold;
    }

    with_commands :
        (bus : EventBus P T) (p : P) (x c c' s : List Event)
        → laws.Holds p c'
        → Pending bus x c s saved d
        → Pending (record bus { commands = p }) x c' s saved d
    with_commands bus p x c c' s k h = record {
      in_mode = h.in_mode;
      stops_as = h.stops_as;
      executions_hold = h.executions_hold;
      commands_hold = k;
      services_hold = h.services_hold;
      saved_is = h.saved_is;
      data_hold = h.data_hold;
    }

    with_executions :
        (bus : EventBus P T) (p : P) (x x' c s : List Event)
        → laws.Holds p x'
        → Pending bus x c s saved d
        → Pending (record bus { executions = p }) x' c s saved d
    with_executions bus p x x' c s k h = record {
      in_mode = h.in_mode;
      stops_as = h.stops_as;
      executions_hold = k;
      commands_hold = h.commands_hold;
      services_hold = h.services_hold;
      saved_is = h.saved_is;
      data_hold = h.data_hold;
    }

    module _ (Ends : EventBus P T × Round → Type 0) where
      -- The three pipes give their first event, in this order; this holds when they have none.
      abbrev pub Polled : EventBus P T × Round → (x c s : List Event) → Type 0
      Polled r (e ∷ x) c s = Returns r e x c s saved d
      Polled r [] (e ∷ c) s = Returns r e [] c s saved d
      Polled r [] [] (e ∷ s) = Returns r e [] [] s saved d
      Polled r [] [] [] = Ends r

      module _ (last : EventBus P T → EventBus P T × Round)
          (ends : (bus : EventBus P T) → Pending bus [] [] [] saved d → Ends (last bus)) where
        services-Polled :
            (s : List Event) (bus : EventBus P T)
            → Pending bus [] [] s saved d
            → Polled (poll_services ops last bus) [] [] s
        unfolding poll_services
        services-Polled (e ∷ s) bus h =
            let (got, left) = poll-cons ops laws bus.services e s h.services_hold in
            rw (got, poll_services)
              (refl, with_services bus (poll ops bus.services).0 [] [] (e ∷ s) s left h)
        services-Polled [] bus h =
            let (got, left) = poll-nil ops laws bus.services h.services_hold in
            rw (got, poll_services)
              (ends (record bus { services = (poll ops bus.services).0 })
                (with_services bus (poll ops bus.services).0 [] [] [] [] left h))

        commands-Polled :
            (c s : List Event) (bus : EventBus P T)
            → Pending bus [] c s saved d
            → Polled (poll_commands ops (poll_services ops last) bus) [] c s
        unfolding poll_commands
        commands-Polled (e ∷ c) s bus h =
            let (got, left) = poll-cons ops laws bus.commands e c h.commands_hold in
            rw (got, poll_commands)
              (refl, with_commands bus (poll ops bus.commands).0 [] (e ∷ c) c s left h)
        commands-Polled [] s bus h =
            let (got, left) = poll-nil ops laws bus.commands h.commands_hold in
            rw (got, poll_commands)
              (services-Polled s (record bus { commands = (poll ops bus.commands).0 })
                (with_commands bus (poll ops bus.commands).0 [] [] [] s left h))

        pub executions-Polled :
            (x c s : List Event) (bus : EventBus P T)
            → Pending bus x c s saved d
            → Polled (poll_executions ops (poll_commands ops (poll_services ops last)) bus) x c s
        unfolding poll_executions
        executions-Polled (e ∷ x) c s bus h =
            let (got, left) = poll-cons ops laws bus.executions e x h.executions_hold in
            rw (got, poll_executions)
              (refl, with_executions bus (poll ops bus.executions).0 (e ∷ x) x c s left h)
        executions-Polled [] c s bus h =
            let (got, left) = poll-nil ops laws bus.executions h.executions_hold in
            rw (got, poll_executions)
              (commands-Polled c s (record bus { executions = (poll ops bus.executions).0 })
                (with_executions bus (poll ops bus.executions).0 [] [] c s left h))
