-- ===== src/EventBus/Loops.antt =====
-- The calls of `event_bus_dequeue` while no other thread acts, from what each round does.
use libqtl.Base.{
  ℕ, ◌≤◌, ◌<◌, zero, suc, ◌≡◌, ◌⊎◌, inl, inr, refl, ap, ◌∙◌, none, some, Option, List, [], ◌∷◌,
  arith, length, replicate,
}
use libqtl.Event.{Event}
use libqtl.EventBus.{EventBus, PipeOps}
use libqtl.EventBus.Dequeue.{
  Round, return, again, returned, waiting, followed_null, dequeue_loop, event_bus_dequeue,
}

module _ {P T : Type 0} where
  -- So many rounds before which no other thread does anything.
  abbrev pub alone : ℕ → List (EventBus P T → EventBus P T)
  alone k = replicate k (λ bus. bus)

-- How so many calls end: all of them returned an event, or one still waits after all its rounds, or one
-- returned a null pointer, or followed one.
pub data Ending : Type 0 where
  calls_done still_waits null_returned null_followed : Ending

module _ {P Q T : Type 0} (ops : PipeOps P Q) where
  -- The events that so many calls of `event_bus_dequeue` return, of so many rounds each, and how they end.
  unfoldable pub deliver : ℕ → Event → ℕ → ℕ → EventBus P T → List Event × Ending
  deliver now memory rounds zero bus = ([], calls_done)
  deliver now memory rounds (suc n) bus =
      elim (event_bus_dequeue ops now memory (alone rounds) bus) [
        | waiting bus' ↦ ([], still_waits)
        | followed_null ↦ ([], null_followed)
        | returned bus' e ↦ elim e [
          | none ↦ ([], null_returned)
          | some a ↦ let (more, ending) = deliver now memory rounds n bus' in (a ∷ more, ending)
        ]
      ]

-- `Owes m bus out`: the bus will return `out`, with at most `m` rounds that only make progress.
module _ {P T : Type 0} (Owes : ℕ → EventBus P T → List Event → Type 0) where
  abbrev pub Stepped : ℕ → EventBus P T × Round → List Event → Type 0
  Stepped m (bus, r) [] =
      ((r ≡ again) × Owes m bus [])
      ⊎ ((r ≡ again) × ((less : ℕ) × (m ≡ suc less) × Owes less bus []))
  Stepped m (bus, r) (e ∷ out) =
      ((r ≡ return (some e)) × Owes m bus out)
      ⊎ ((r ≡ again) × ((less : ℕ) × (m ≡ suc less) × Owes less bus (e ∷ out)))

  pub again-Stepped :
      (m less : ℕ) (bus : EventBus P T) (r : Round) (out : List Event)
      → r ≡ again
      → m ≡ suc less
      → Owes less bus out
      → Stepped m (bus, r) out
  again-Stepped m less bus r [] e smaller o = inr (e, (less, smaller, o))
  again-Stepped m less bus r (x ∷ out) e smaller o = inr (e, (less, smaller, o))

  module _ (round : EventBus P T → EventBus P T × Round)
      (step : (m : ℕ) (bus : EventBus P T) (out : List Event)
        → Owes m bus out
        → Stepped m (round bus) out) where
    loop-again :
        (k : ℕ) (bus : EventBus P T)
        → (round bus).1 ≡ again
        → dequeue_loop round (alone (suc k)) bus ≡ dequeue_loop round (alone k) (round bus).0
    unfolding dequeue_loop
    loop-again k bus e = rw (e, dequeue_loop) refl

    loop-return :
        (k : ℕ) (bus : EventBus P T) (e : Option Event)
        → (round bus).1 ≡ return e
        → dequeue_loop round (alone (suc k)) bus ≡ returned (round bus).0 e
    unfolding dequeue_loop
    loop-return k bus e h = rw (h, dequeue_loop) refl

    pub loop-nil :
        (k m : ℕ) (bus : EventBus P T)
        → Owes m bus []
        → (bus' : EventBus P T) × (dequeue_loop round (alone k) bus ≡ waiting bus')
    unfolding dequeue_loop
    loop-nil zero m bus h = (bus, refl)
    loop-nil (suc k) m bus h = elim (step m bus [] h) [
      | inl (e, o) ↦
          let (bus', same) = loop-nil k m (round bus).0 o in (bus', loop-again k bus e ∙ same)
      | inr (e, (less, _, o)) ↦
          let (bus', same) = loop-nil k less (round bus).0 o in (bus', loop-again k bus e ∙ same)
    ]

    pub loop-cons :
        (k m : ℕ) (bus : EventBus P T) (e : Event) (out : List Event)
        → Owes m bus (e ∷ out)
        → m < k
        → (next : EventBus P T) × (less : ℕ) × (less ≤ m)
          × Owes less next out
          × (dequeue_loop round (alone k) bus ≡ returned next (some e))
    loop-cons zero m bus e out h enough = absurd (omega (arith, enough))
    loop-cons (suc k) m bus e out h enough = elim (step m bus (e ∷ out) h) [
      | inl (r, o) ↦ ((round bus).0, m, omega arith, o, loop-return k bus (some e) r)
      | inr (r, (less, smaller, o)) ↦
          let (next, l, le, owes, same) =
            loop-cons k less (round bus).0 e out o (omega (arith, enough, smaller)) in
          (next, l, omega (arith, le, smaller), owes, loop-again k bus r ∙ same)
    ]

    module _ {Q : Type 0} (ops : PipeOps P Q) (now : ℕ) (memory : Event)
        (dispatch : (k m : ℕ) (bus : EventBus P T) (out : List Event)
          → Owes m bus out
          → event_bus_dequeue ops now memory (alone k) bus ≡ dequeue_loop round (alone k) bus) where
      -- The calls return what is owed, and then one waits.
      pub deliver-Owes :
          (rounds n m : ℕ) (bus : EventBus P T) (out : List Event)
          → Owes m bus out
          → m < rounds
          → length out < n
          → deliver ops now memory rounds n bus ≡ (out, still_waits)
      unfolding deliver
      deliver-Owes rounds zero m bus out h enough calls = absurd (omega (arith, calls))
      deliver-Owes rounds (suc n) m bus [] h enough calls =
          let (bus', waiting_on) = loop-nil rounds m bus h in
          let e : event_bus_dequeue ops now memory (alone rounds) bus ≡ waiting bus' =
            dispatch rounds m bus [] h ∙ waiting_on in
          rw (e, deliver) refl
      deliver-Owes rounds (suc n) m bus (e ∷ out) h enough calls =
          let (next, less, le, owes, same) = loop-cons rounds m bus e out h enough in
          let r : event_bus_dequeue ops now memory (alone rounds) bus ≡ returned next (some e) =
            dispatch rounds m bus (e ∷ out) h ∙ same in
          rw (r, deliver)
            (ap (λ r. (e ∷ r.0, r.1))
              (deliver-Owes rounds n less next out owes (omega (arith, le, enough))
                (omega (arith, calls))))
