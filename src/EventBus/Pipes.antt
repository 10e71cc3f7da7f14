-- ===== src/EventBus/Pipes.antt =====
-- What the bus relies on in its pipes, and what it finds in them.
use libqtl.Base.{◌≡◌, refl, ap, Bool, true, false, none, some, List, [], ◌∷◌}
use libqtl.Event.{Event}
use libqtl.EventBus.{PipeOps}
use libqtl.EventBus.Dequeue.{poll, poll_data}

abbrev pub is_nil : List Event → Bool
is_nil [] = true
is_nil (e ∷ es) = false

-- What the bus relies on in a pipe: it holds a list of events, a test tells whether there is one, and a
-- read after it takes the first.
pub record PipeLaws {P Q : Type 0} (ops : PipeOps P Q) : Type 1 where
  pub Holds : P → List Event → Type 0
  pub is_empty_lem :
      (p : P) (es : List Event)
      → Holds p es
      → ((ops.pipe_is_empty p).1 ≡ is_nil es) × Holds (ops.pipe_is_empty p).0 es
  pub read_lem :
      (p : P) (e : Event) (es : List Event)
      → Holds p (e ∷ es)
      → ((ops.pipe_read (ops.pipe_is_empty p).0).1 ≡ some e)
        × Holds (ops.pipe_read (ops.pipe_is_empty p).0).0 es

module _ {P Q : Type 0} (ops : PipeOps P Q) (laws : PipeLaws ops) where
  pub poll-nil : (p : P) → laws.Holds p [] → ((poll ops p).1 ≡ none) × laws.Holds (poll ops p).0 []
  unfolding poll
  poll-nil p h = let (b, k) = laws.is_empty_lem p [] h in rw b (refl, k)

  pub poll-cons :
      (p : P) (e : Event) (es : List Event)
      → laws.Holds p (e ∷ es)
      → ((poll ops p).1 ≡ some (some e)) × laws.Holds (poll ops p).0 es
  unfolding poll
  poll-cons p e es h =
      let (b, _) = laws.is_empty_lem p (e ∷ es) h in
      let (got, left) = laws.read_lem p e es h in rw b (ap some got, left)

  pub poll_data-saved :
      (p : P) (e : Event) (es : List Event)
      → laws.Holds p es
      → ((poll_data ops p (some e)).1 ≡ none) × laws.Holds (poll_data ops p (some e)).0 es
  unfolding poll_data
  poll_data-saved p e es h = (refl, (laws.is_empty_lem p es h).1)

  pub poll_data-nil :
      (p : P)
      → laws.Holds p []
      → ((poll_data ops p none).1 ≡ none) × laws.Holds (poll_data ops p none).0 []
  unfolding poll_data
  poll_data-nil p h = poll-nil p h

  pub poll_data-cons :
      (p : P) (e : Event) (es : List Event)
      → laws.Holds p (e ∷ es)
      → ((poll_data ops p none).1 ≡ some (some e)) × laws.Holds (poll_data ops p none).0 es
  unfolding poll_data
  poll_data-cons p e es h = poll-cons p e es h
