-- ===== src/EventBus/Rounds.antt =====
-- One round of the bus in either mode, against the lists of events that its pipes hold.
use libqtl.Base.{◌≡◌, refl, ap, Bool, Option, none, some, List, [], ◌∷◌}
use libqtl.Event.{Event}
use libqtl.EventBus.{EventBus, EventBusMode, PipeOps, realtime}
use libqtl.EventBus.Dequeue.{
  Round, again, poll_data, poll_executions, poll_commands, poll_services, poll_saved, save_data,
  realtime_round,
}
use libqtl.EventBus.Pipes.{PipeLaws, poll_data-saved, poll_data-nil, poll_data-cons}
use libqtl.EventBus.Polls.{Pending, Returns, Polled, executions-Polled}

-- The saved event and the data pipe after the pipe was asked.
abbrev pub fill : Option Event → List Event → Option Event
fill (some e) d = some e
fill none [] = none
fill none (e ∷ d) = some e

abbrev pub fill_rest : Option Event → List Event → List Event
fill_rest (some e) d = d
fill_rest none [] = []
fill_rest none (e ∷ d) = d

module _ {P Q T : Type 0} (ops : PipeOps P Q) (laws : PipeLaws ops) where
  module _ (mode : EventBusMode) (stops : Bool) where
    -- The data pipe and the saved event of a bus are replaced.
    pub with_data :
        (bus : EventBus P T) (p : P) (x c s : List Event) (saved saved' : Option Event)
        (d d' : List Event)
        → laws.Holds p d'
        → Pending ops laws mode stops bus x c s saved d
        → Pending ops laws mode stops
            (record bus { data_events = p; saved_event = saved' })
            x
            c
            s
            saved'
            d'
    with_data bus p x c s saved saved' d d' k h = record {
      in_mode = h.in_mode;
      stops_as = h.stops_as;
      executions_hold = h.executions_hold;
      commands_hold = h.commands_hold;
      services_hold = h.services_hold;
      saved_is = refl;
      data_hold = k;
    }

    pub with_pipe :
        (bus : EventBus P T) (p : P) (x c s : List Event) (saved : Option Event) (d d' : List Event)
        → laws.Holds p d'
        → Pending ops laws mode stops bus x c s saved d
        → Pending ops laws mode stops (record bus { data_events = p }) x c s saved d'
    with_pipe bus p x c s saved d d' k h = record {
      in_mode = h.in_mode;
      stops_as = h.stops_as;
      executions_hold = h.executions_hold;
      commands_hold = h.commands_hold;
      services_hold = h.services_hold;
      saved_is = h.saved_is;
      data_hold = k;
    }

    pub taken :
        (bus : EventBus P T) (e : Event) (x c s : List Event) (d : List Event)
        → Pending ops laws mode stops bus x c s (some e) d
        → Pending ops laws mode stops (record bus { saved_event = none }) x c s none d
    taken bus e x c s d h = record {
      in_mode = h.in_mode;
      stops_as = h.stops_as;
      executions_hold = h.executions_hold;
      commands_hold = h.commands_hold;
      services_hold = h.services_hold;
      saved_is = refl;
      data_hold = h.data_hold;
    }

  -- What a round in real time does when the three pipes have nothing.
  abbrev pub RealtimeEnds : Bool → Option Event → List Event → EventBus P T × Round → Type 0
  RealtimeEnds stops (some e) d r = Returns ops laws realtime stops r e [] [] [] none d
  RealtimeEnds stops none d (bus, r) =
      (r ≡ again) × Pending ops laws realtime stops bus [] [] [] none d

  poll_saved-RealtimeEnds :
      (stops : Bool) (saved : Option Event) (d : List Event) (bus : EventBus P T)
      → Pending ops laws realtime stops bus [] [] [] saved d
      → RealtimeEnds stops saved d (poll_saved bus)
  unfolding poll_saved
  poll_saved-RealtimeEnds stops (some e) d bus h =
      rw (h.saved_is, poll_saved) (refl, taken realtime stops bus e [] [] [] d h)
  poll_saved-RealtimeEnds stops none d bus h = rw (h.saved_is, poll_saved) (refl, h)

  -- After the data pipe was asked.
  saved_data :
      (stops : Bool) (bus : EventBus P T) (x c s : List Event) (saved : Option Event)
      (d : List Event)
      → Pending ops laws realtime stops bus x c s saved d
      → Pending ops laws realtime stops
          (save_data
            (record bus { data_events = (poll_data ops bus.data_events saved).0 })
            (poll_data ops bus.data_events saved).1)
          x
          c
          s
          (fill saved d)
          (fill_rest saved d)
  unfolding save_data
  saved_data stops bus x c s (some e) d h =
      let (got, left) = poll_data-saved ops laws bus.data_events e d h.data_hold in
      rw got (with_pipe realtime stops bus _ x c s (some e) d d left h)
  saved_data stops bus x c s none [] h =
      let (got, left) = poll_data-nil ops laws bus.data_events h.data_hold in
      rw got (with_pipe realtime stops bus _ x c s none [] [] left h)
  saved_data stops bus x c s none (e ∷ d) h =
      let (got, left) = poll_data-cons ops laws bus.data_events e d h.data_hold in
      rw got (with_data realtime stops bus _ x c s none (some e) (e ∷ d) d left h)

  -- The round, with the saved event known.
  realtime_from :
      (bus : EventBus P T) (saved : Option Event)
      → bus.saved_event ≡ saved
      → realtime_round ops bus
        ≡ poll_executions ops (poll_commands ops (poll_services ops poll_saved)) (
            save_data
              (record bus { data_events = (poll_data ops bus.data_events saved).0 })
              (poll_data ops bus.data_events saved).1)
  unfolding realtime_round
  realtime_from bus saved e =
      ap
        (λ o. poll_executions ops (poll_commands ops (poll_services ops poll_saved)) (
          save_data (record bus { data_events = (poll_data ops bus.data_events o).0 })
            (poll_data ops bus.data_events o).1))
        e

  pub realtime_round-Polled :
      (stops : Bool) (bus : EventBus P T) (x c s : List Event) (saved : Option Event)
      (d : List Event)
      → Pending ops laws realtime stops bus x c s saved d
      → Polled ops laws realtime stops
          (fill saved d)
          (fill_rest saved d)
          (RealtimeEnds stops (fill saved d) (fill_rest saved d))
          (realtime_round ops bus)
          x
          c
          s
  realtime_round-Polled stops bus x c s saved d h = rw (realtime_from bus saved h.saved_is) (
      executions-Polled ops laws realtime stops (fill saved d) (fill_rest saved d)
        (RealtimeEnds stops (fill saved d) (fill_rest saved d)) poll_saved
        (poll_saved-RealtimeEnds stops (fill saved d) (fill_rest saved d)) x c s _
        (saved_data stops bus x c s saved d h))
