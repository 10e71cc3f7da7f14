-- ===== src/EventBus/Playback.antt =====
-- The events that the bus delivers in a simulation, from what each round does.
use libqtl.Base.{
  ℕ, ◌≤◌, ◌<◌, zero, suc, ◌≡◌, inl, inr, refl, ap, Bool, true, false, Bool-cases, Option, none,
  some, List, [], ◌∷◌, ◌++◌, arith, length,
}
use mathlib.Core.Path.{subst}
use libqtl.Event.{Event, event_get_type}
use libqtl.EventBus.{EventBus, PipeOps, simulation}
use libqtl.EventBus.Dequeue.{
  Round, again, is_stop, poll_data, simulate, simulation_round, dequeue_loop, event_bus_dequeue,
  dequeue_in,
}
use libqtl.EventBus.Pipes.{PipeLaws, poll_data-saved, poll_data-nil, poll_data-cons}
use libqtl.EventBus.Polls.{Pending}
use libqtl.EventBus.Rounds.{with_data, with_pipe}
use libqtl.EventBus.Loops.{alone, still_waits, deliver, Stepped, again-Stepped, deliver-Owes}
use libqtl.EventBus.Order.{held}
use libqtl.EventBus.Simulation.{
  played, stops_with, flagged, Owed, owed, saved-Stepped, empty-Stepped,
}

stops_with-true : (d : List Event) → stops_with true d ≡ true
stops_with-true [] = refl
stops_with-true (e ∷ d) = elim (Bool-cases (is_stop (event_get_type e))) [
  | inl h ↦ rw h refl
  | inr h ↦ rw h (stops_with-true d)
]

played-event :
    (now : ℕ) (memory : Event) (flag : Bool) (e : Event) (d : List Event)
    → is_stop (event_get_type e) ≡ false
    → played now memory flag (e ∷ d) ≡ e ∷ played now memory flag d
played-event now memory flag e d h = rw h refl

played-stop :
    (now : ℕ) (memory : Event) (flag : Bool) (e : Event) (d : List Event)
    → is_stop (event_get_type e) ≡ true
    → played now memory flag (e ∷ d) ≡ played now memory true d
played-stop now memory flag e d h = rw (h, stops_with-true d) refl

module _ {P Q T : Type 0} (ops : PipeOps P Q) (laws : PipeLaws ops) (now : ℕ) (memory : Event) where
  -- The round, with the saved event known.
  simulated_from :
      (bus : EventBus P T) (saved : Option Event)
      → bus.saved_event ≡ saved
      → simulation_round ops now memory bus
        ≡ simulate ops now memory
            (record bus { data_events = (poll_data ops bus.data_events saved).0 })
            (poll_data ops bus.data_events saved).1
  unfolding simulation_round
  simulated_from bus saved e =
      ap
        (λ o.
          simulate ops now memory (record bus { data_events = (poll_data ops bus.data_events o).0 })
            (poll_data ops bus.data_events o).1)
        e

  abbrev simulated : EventBus P T → Option Event → EventBus P T × Round
  simulated bus saved =
      simulate ops now memory (record bus { data_events = (poll_data ops bus.data_events saved).0 })
        (poll_data ops bus.data_events saved).1

  stop-Stepped :
      (m : ℕ) (flag : Bool) (bus : EventBus P T) (x c s : List Event) (e : Event) (d : List Event)
      → suc (length d) ≤ m
      → is_stop (event_get_type e) ≡ true
      → Pending ops laws simulation flag bus x c s none (e ∷ d)
      → Stepped
          (Owed ops laws now memory)
          m
          (simulated bus none)
          (x ++ (c ++ (s ++ played now memory true d)))
  unfolding simulate
  stop-Stepped zero flag bus x c s e d few b h = absurd (omega (arith, few))
  stop-Stepped (suc m) flag bus x c s e d few b h =
      let (got, left) = poll_data-cons ops laws bus.data_events e d h.data_hold in
      rw (got, b)
        (again-Stepped (Owed ops laws now memory) (suc m) m _ again
          (x ++ (c ++ (s ++ played now memory true d))) refl refl
          (owed ops laws now memory m true _ x c s none d
            (flagged ops laws now memory flag true _ x c s d
              (with_pipe ops laws simulation flag bus _ x c s none (e ∷ d) d left h))
            (omega (arith, few))))

  event-Stepped :
      (m : ℕ) (flag : Bool) (bus : EventBus P T) (x c s : List Event) (e : Event) (d : List Event)
      → suc (length d) ≤ m
      → is_stop (event_get_type e) ≡ false
      → Pending ops laws simulation flag bus x c s none (e ∷ d)
      → Stepped
          (Owed ops laws now memory)
          m
          (simulated bus none)
          (x ++ (c ++ (s ++ (e ∷ played now memory flag d))))
  unfolding simulate
  event-Stepped m flag bus x c s e d few b h =
      let (got, left) = poll_data-cons ops laws bus.data_events e d h.data_hold in
      rw (got, b)
        (saved-Stepped ops laws now memory m flag e d (omega (arith, few)) x c s _
          (with_data ops laws simulation flag bus _ x c s none (some e) (e ∷ d) d left h))

  simulated-Stepped :
      (m : ℕ) (flag : Bool) (bus : EventBus P T) (x c s : List Event) (saved : Option Event)
      (d : List Event)
      → length d ≤ m
      → Pending ops laws simulation flag bus x c s saved d
      → Stepped
          (Owed ops laws now memory)
          m
          (simulated bus saved)
          (x ++ (c ++ (s ++ (held saved ++ played now memory flag d))))
  unfolding simulate
  simulated-Stepped m flag bus x c s (some e) d few h =
      let (got, left) = poll_data-saved ops laws bus.data_events e d h.data_hold in
      rw got (
        saved-Stepped ops laws now memory m flag e d few x c s _
          (with_pipe ops laws simulation flag bus _ x c s (some e) d d left h))
  simulated-Stepped m flag bus x c s none [] few h =
      let (got, left) = poll_data-nil ops laws bus.data_events h.data_hold in
      rw got (
        empty-Stepped ops laws now memory m flag x c s _
          (with_pipe ops laws simulation flag bus _ x c s none [] [] left h))
  simulated-Stepped m flag bus x c s none (e ∷ d) few h =
      elim (Bool-cases (is_stop (event_get_type e))) [
        | inl b ↦ rw (played-stop now memory flag e d b) (stop-Stepped m flag bus x c s e d few b h)
        | inr b ↦
            rw (played-event now memory flag e d b) (event-Stepped m flag bus x c s e d few b h)
      ]

  simulation_round-Stepped :
      (m : ℕ) (bus : EventBus P T) (out : List Event)
      → Owed ops laws now memory m bus out
      → Stepped (Owed ops laws now memory) m (simulation_round ops now memory bus) out
  simulation_round-Stepped m bus out o =
      subst (Stepped (Owed ops laws now memory) m (simulation_round ops now memory bus)) o.in_order
        (rw (simulated_from bus o.saved o.pending.saved_is)
          (simulated-Stepped m o.flag bus o.x o.c o.s o.saved o.d o.few o.pending))

  in_simulation :
      (k : ℕ) (bus : EventBus P T)
      → bus.mode ≡ simulation
      → event_bus_dequeue ops now memory (alone k) bus
        ≡ dequeue_loop (simulation_round ops now memory) (alone k) bus
  unfolding event_bus_dequeue dequeue_in
  in_simulation k bus m = ap (λ mode. dequeue_in ops mode now memory (alone k) bus) m

  -- In a simulation, when nothing arrives meanwhile, the calls of `event_bus_dequeue` return the events
  -- of the execution pipe, then those of the command pipe, then those of the service pipe, then the
  -- saved event and those of the data pipe that do not ask for the end of the simulation, each pipe's in
  -- its order, and then, if one of the data pipe's asks for it or one did before, one event that ends
  -- the simulation, with the time of the call; the call after the last of them still waits after all its
  -- rounds. Each call needs at most one round more than the data pipe has events.
  pub deliver-stop_event :
      (rounds n : ℕ) (flag : Bool) (bus : EventBus P T) (x c s : List Event) (saved : Option Event)
      (d : List Event)
      → Pending ops laws simulation flag bus x c s saved d
      → length d < rounds
      → length (x ++ (c ++ (s ++ (held saved ++ played now memory flag d)))) < n
      → deliver ops now memory rounds n bus
        ≡ (x ++ (c ++ (s ++ (held saved ++ played now memory flag d))), still_waits)
  deliver-stop_event rounds n flag bus x c s saved d h enough calls =
      deliver-Owes (Owed ops laws now memory) (simulation_round ops now memory)
        simulation_round-Stepped ops now memory
        (λ k m bus out o. in_simulation k bus o.pending.in_mode) rounds n (length d) bus
        (x ++ (c ++ (s ++ (held saved ++ played now memory flag d))))
        (owed ops laws now memory (length d) flag bus x c s saved d h (omega arith)) enough calls
