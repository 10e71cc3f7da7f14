-- ===== src/EventBus/Order.antt =====
-- The order in which the bus delivers events in real time.
use libqtl.Base.{ℕ, ◌<◌, ◌≡◌, inl, refl, ap, Bool, Option, none, some, List, [], ◌∷◌, ◌++◌, length}
use mathlib.Core.Path.{subst}
use libqtl.Event.{Event}
use libqtl.EventBus.{EventBus, PipeOps, realtime}
use libqtl.EventBus.Dequeue.{realtime_round, dequeue_loop, event_bus_dequeue, dequeue_in}
use libqtl.EventBus.Pipes.{PipeLaws}
use libqtl.EventBus.Polls.{Pending}
use libqtl.EventBus.Rounds.{fill, fill_rest, realtime_round-Polled}
use libqtl.EventBus.Loops.{alone, still_waits, deliver, Stepped, deliver-Owes}

abbrev pub held : Option Event → List Event
held none = []
held (some e) = e ∷ []

held-fill :
    (saved : Option Event) (d : List Event)
    → held (fill saved d) ++ fill_rest saved d ≡ held saved ++ d
held-fill (some e) d = refl
held-fill none [] = refl
held-fill none (e ∷ d) = refl

module _ {P Q T : Type 0} (ops : PipeOps P Q) (laws : PipeLaws ops) where
  -- What is in the pipes and saved, in the order of its delivery.
  record Owed (m : ℕ) (bus : EventBus P T) (out : List Event) : Type 0 where
    pub stops : Bool
    pub x : List Event
    pub c : List Event
    pub s : List Event
    pub saved : Option Event
    pub d : List Event
    pub pending : Pending ops laws realtime stops bus x c s saved d
    pub in_order : x ++ (c ++ (s ++ (held saved ++ d))) ≡ out

  module _ (m : ℕ) (stops : Bool) (bus : EventBus P T) where
    refilled :
        (x c s : List Event) (saved : Option Event) (d : List Event)
        → Pending ops laws realtime stops bus x c s (fill saved d) (fill_rest saved d)
        → Owed m bus (x ++ (c ++ (s ++ (held saved ++ d))))
    refilled x c s saved d h = record {
      stops = stops;
      x = x;
      c = c;
      s = s;
      saved = fill saved d;
      d = fill_rest saved d;
      pending = h;
      in_order = ap (λ l. x ++ (c ++ (s ++ l))) (held-fill saved d);
    }

    plain : (l : List Event) → Pending ops laws realtime stops bus [] [] [] none l → Owed m bus l
    plain l h = record {
      stops = stops;
      x = [];
      c = [];
      s = [];
      saved = none;
      d = l;
      pending = h;
      in_order = refl;
    }

  realtime_round-Stepped :
      (m : ℕ) (stops : Bool) (bus : EventBus P T) (x c s : List Event) (saved : Option Event)
      (d : List Event)
      → Pending ops laws realtime stops bus x c s saved d
      → Stepped Owed m (realtime_round ops bus) (x ++ (c ++ (s ++ (held saved ++ d))))
  realtime_round-Stepped m stops bus (e ∷ x) c s saved d h =
      let (r, p) = realtime_round-Polled ops laws stops bus (e ∷ x) c s saved d h in
      inl (r, refilled m stops (realtime_round ops bus).0 x c s saved d p)
  realtime_round-Stepped m stops bus [] (e ∷ c) s saved d h =
      let (r, p) = realtime_round-Polled ops laws stops bus [] (e ∷ c) s saved d h in
      inl (r, refilled m stops (realtime_round ops bus).0 [] c s saved d p)
  realtime_round-Stepped m stops bus [] [] (e ∷ s) saved d h =
      let (r, p) = realtime_round-Polled ops laws stops bus [] [] (e ∷ s) saved d h in
      inl (r, refilled m stops (realtime_round ops bus).0 [] [] s saved d p)
  realtime_round-Stepped m stops bus [] [] [] (some e) d h =
      let (r, p) = realtime_round-Polled ops laws stops bus [] [] [] (some e) d h in
      inl (r, plain m stops (realtime_round ops bus).0 d p)
  realtime_round-Stepped m stops bus [] [] [] none (e ∷ d) h =
      let (r, p) = realtime_round-Polled ops laws stops bus [] [] [] none (e ∷ d) h in
      inl (r, plain m stops (realtime_round ops bus).0 d p)
  realtime_round-Stepped m stops bus [] [] [] none [] h =
      let (r, p) = realtime_round-Polled ops laws stops bus [] [] [] none [] h in
      inl (r, plain m stops (realtime_round ops bus).0 [] p)

  in_realtime :
      (now : ℕ) (memory : Event) (k : ℕ) (bus : EventBus P T)
      → bus.mode ≡ realtime
      → event_bus_dequeue ops now memory (alone k) bus
        ≡ dequeue_loop (realtime_round ops) (alone k) bus
  unfolding event_bus_dequeue dequeue_in
  in_realtime now memory k bus m = ap (λ mode. dequeue_in ops mode now memory (alone k) bus) m

  -- In real time, when nothing arrives meanwhile, the calls of `event_bus_dequeue` return the events of
  -- the execution pipe, then those of the command pipe, then those of the service pipe, and then the
  -- saved event and those of the data pipe, each pipe's in its order; the call after the last of them
  -- still waits after all its rounds.
  pub deliver-Pending :
      (now : ℕ) (memory : Event) (rounds n : ℕ) (stops : Bool) (bus : EventBus P T)
      (x c s : List Event) (saved : Option Event) (d : List Event)
      → Pending ops laws realtime stops bus x c s saved d
      → 0 < rounds
      → length (x ++ (c ++ (s ++ (held saved ++ d)))) < n
      → deliver ops now memory rounds n bus ≡ (x ++ (c ++ (s ++ (held saved ++ d))), still_waits)
  deliver-Pending now memory rounds n stops bus x c s saved d h enough calls =
      deliver-Owes Owed (realtime_round ops)
        (λ m bus out o.
          subst (Stepped Owed m (realtime_round ops bus)) o.in_order
            (realtime_round-Stepped m o.stops bus o.x o.c o.s o.saved o.d o.pending))
        ops now memory (λ k m bus out o. in_realtime now memory k bus o.pending.in_mode) rounds n 0
        bus (x ++ (c ++ (s ++ (held saved ++ d))))
        (record {
          stops = stops;
          x = x;
          c = c;
          s = s;
          saved = saved;
          d = d;
          pending = h;
          in_order = refl;
        })
        enough calls
