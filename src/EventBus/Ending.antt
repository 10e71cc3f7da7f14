-- ===== src/EventBus/Ending.antt =====
-- The event for the simulation's end, as the last of the data.
use libqtl.Base.{
  ℕ, ◌≤◌, ◌≡◌, refl, ap, true, false, Bool-cases, inl, inr, List, [], ◌∷◌, ◌++◌, arith, length,
}
use libqtl.Event.{
  Event, event_get_type, new_on_simulation_stop_event, on_simulation_stop_event_init, event_init,
}
use libqtl.EventBus.Dequeue.{is_stop}
use libqtl.EventBus.Simulation.{not_stops, stops_with, stop_event, played}

pub new_on_simulation_stop_event_lem :
    (m : Event) → is_stop (event_get_type (new_on_simulation_stop_event m)) ≡ true
unfolding event_get_type new_on_simulation_stop_event on_simulation_stop_event_init event_init
new_on_simulation_stop_event_lem m = refl

pub not_stops-append :
    (es : List Event) (e : Event)
    → is_stop (event_get_type e) ≡ true
    → not_stops (es ++ e ∷ []) ≡ not_stops es
not_stops-append [] e h = rw h refl
not_stops-append (f ∷ es) e h = elim (Bool-cases (is_stop (event_get_type f))) [
  | inl k ↦ rw k (not_stops-append es e h)
  | inr k ↦ rw k (ap (λ l. f ∷ l) (not_stops-append es e h))
]

pub stops_with-append :
    (es : List Event) (e : Event)
    → is_stop (event_get_type e) ≡ true
    → stops_with false (es ++ e ∷ []) ≡ true
stops_with-append [] e h = rw h refl
stops_with-append (f ∷ es) e h = elim (Bool-cases (is_stop (event_get_type f))) [
  | inl k ↦ rw k refl
  | inr k ↦ rw k (stops_with-append es e h)
]

pub played-append :
    (now : ℕ) (memory : Event) (es : List Event) (e : Event)
    → is_stop (event_get_type e) ≡ true
    → played now memory false (es ++ e ∷ []) ≡ not_stops es ++ stop_event now memory ∷ []
played-append now memory es e h = rw (not_stops-append es e h, stops_with-append es e h) refl

pub length-not_stops : (es : List Event) → length (not_stops es) ≤ length es
length-not_stops [] = omega arith
length-not_stops (e ∷ es) = elim (Bool-cases (is_stop (event_get_type e))) [
  | inl k ↦ rw k (omega (arith, length-not_stops es))
  | inr k ↦ rw k (omega (arith, length-not_stops es))
]
