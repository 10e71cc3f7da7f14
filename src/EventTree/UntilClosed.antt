-- ===== src/EventTree/UntilClosed.antt =====
-- Reads from a tree whose queues all end, up to the event for the simulation's end.
use libqtl.Base.{
  ℕ, zero, suc, ◌+◌, ◌≤◌, ◌<◌, ◌≡◌, refl, ap, ◌∙◌, Option, none, some, List, [], ◌∷◌, length, arith,
}
use libqtl.Event.{Event}
use libqtl.Event.Refs.{alive}
use libqtl.Spsc.Refine.{Represents as Holding}
use libqtl.EventTree.{EventTree}
use libqtl.EventTree.Memory.{World, put}
use libqtl.EventTree.Order.{AllTimes}
use libqtl.EventTree.Entries.{time_at, SortedFrom, Entry, sum}
use libqtl.EventTree.NextEvent.{Ready, Next, taken_more, taken_closed}
use libqtl.EventTree.Played.{
  IsClosing, EndsClosed, EndsClosed-time, open_value, has_events, Played, one_read, last_read,
}

module _ {Bus : Type 0} (queue_of : ℕ → ℕ) (fuel a : ℕ) (more : List (Option ℕ)) where
  module _ (b : ℕ) (tree : EventTree) (w : World Bus) (events : ℕ → List ℕ) (t x : ℕ)
      (xs : List (ℕ × ℕ)) (r : Ready queue_of EndsClosed tree w events ((t, x) ∷ xs))
      (enough : length xs < fuel) (waits_for_none : tree.last ≡ none) (bound : b ≤ t) where
    -- What is left to show after one read.
    abbrev Later : ℕ → Type 0
    Later n =
        (tree' : EventTree) (w' : World Bus) (events' : ℕ → List ℕ) (xs' : List (ℕ × ℕ))
        → Ready queue_of EndsClosed tree' w' events' xs'
        → length xs' ≤ fuel
        → tree'.last ≡ none
        → AllTimes (λ u. t ≤ u) xs'
        → w'.supply ≡ some a ∷ more
        → sum queue_of length events' xs' ≤ n
        → 0 < sum queue_of length events' xs'
        → Played queue_of fuel a t tree' w' events' xs'

    go_on :
        (n e : ℕ) (es : List ℕ) (event : Event)
        → Later n
        → w.events e ≡ alive event
        → events (queue_of x) ≡ e ∷ es
        → time_at w.events e ≡ t
        → w.supply ≡ some a ∷ more
        → length es + sum queue_of length events xs ≤ n
        → 0 < length es + sum queue_of length events xs
        → Next queue_of EndsClosed fuel tree w events t x xs e es tree.last
        → Played queue_of fuel a b tree w events ((t, x) ∷ xs)
    go_on n e es event later live contents time free few some_left k =
        one_read queue_of fuel a b tree w events t x xs r enough waits_for_none bound e es event
          live contents time k
          (later k.tree' (record w { nodes = k.nodes'; queues = k.queues' })
            (put events (queue_of x) es) k.xs' k.ready (omega (arith, k.short, enough))
            (k.last_is ∙ waits_for_none) k.later free (omega (arith, k.sums length refl, few))
            (omega (arith, k.sums length refl, some_left)))

    from_closing :
        (n e : ℕ)
        → Later n
        → IsClosing w.events e
        → events (queue_of x) ≡ e ∷ []
        → Holding (w.queues (queue_of x)).spsc (e ∷ [])
        → time_at w.events e ≡ t
        → w.supply ≡ some a ∷ more
        → sum queue_of length events xs ≤ n
        → Played queue_of fuel a b tree w events ((t, x) ∷ xs)
    from_closing n e later last contents held time free few =
        elim xs as (λ l. xs ≡ l → Played queue_of fuel a b tree w events ((t, x) ∷ xs)) [
          | [] ↦ λ alone.
              last_read queue_of fuel a b tree w events t x xs r enough waits_for_none bound e more
                alone free contents held last time
          | y ∷ ys ↦ λ others.
              go_on n e [] last.event later last.is_there contents time free (omega (arith, few))
                (omega (arith, has_events queue_of w events y xs ys others r.entries.2))
                (taken_closed queue_of EndsClosed fuel tree w events t x xs r.rep r.queues_are
                  r.entries.1 r.entries.2 enough e last.event y ys others last.is_there last.closes
                  held)
        ]
          refl

    from_first :
        (n e : ℕ) (es : List ℕ)
        → Later n
        → EndsClosed w.events (e ∷ es)
        → SortedFrom w.events t es
        → events (queue_of x) ≡ e ∷ es
        → Holding (w.queues (queue_of x)).spsc (e ∷ es)
        → time_at w.events e ≡ t
        → w.supply ≡ some a ∷ more
        → length es + sum queue_of length events xs ≤ n
        → Played queue_of fuel a b tree w events ((t, x) ∷ xs)
    from_first n e [] later last sorted contents held time free few =
        from_closing n e later last contents held time free (omega (arith, few))
    from_first n e (f ∷ fs) later (open_e, fine) sorted contents held time free few =
        let (event, live) = open_value w.events e open_e in
        go_on n e (f ∷ fs) event later live contents time free few (omega arith) (
          taken_more queue_of EndsClosed fuel tree w events t x xs r.rep r.queues_are r.entries.1
            r.entries.2 enough e f fs open_e held (EndsClosed-time w.events f fs fine) fine sorted)

  -- Without assertions: in a tree in order, every queue is another one, has events, the first of them at the
  -- time of its node, the times do not go back, and the last of them closes the queue, and no other one;
  -- the tree waits for no queue, there is memory for an event, and fuel for the number of queues. Then reads
  -- give all events in the order of their times, each once, but for the last one, which closes the last
  -- queue: instead of it comes an event of the type of the simulation's end, and the tree is empty. Before
  -- each of these reads the tree has a node and waits for no queue.
  pub read-Played :
      (n b : ℕ) (tree : EventTree) (w : World Bus) (events : ℕ → List ℕ) (xs : List (ℕ × ℕ))
      → Ready queue_of EndsClosed tree w events xs
      → length xs ≤ fuel
      → tree.last ≡ none
      → AllTimes (λ u. b ≤ u) xs
      → w.supply ≡ some a ∷ more
      → sum queue_of length events xs ≤ n
      → 0 < sum queue_of length events xs
      → Played queue_of fuel a b tree w events xs
  read-Played n b tree w events [] r enough waits bound free few some_left =
      absurd (omega (arith, some_left))
  read-Played zero b tree w events ((t, x) ∷ xs) r enough waits bound free few some_left =
      absurd (omega (arith, few, some_left))
  read-Played (suc n) b tree w events ((t, x) ∷ xs) r enough waits (first_bound, bound) free few
        some_left =
      let entry : Entry queue_of w.events EndsClosed w.queues events t x = r.entries.0 in
      from_first b tree w events t x xs r (omega (arith, enough)) waits first_bound n
        entry.first_event entry.others (read-Played n t) entry.fine entry.later entry.contents
        entry.held entry.time free (omega (arith, few, ap length entry.contents))
