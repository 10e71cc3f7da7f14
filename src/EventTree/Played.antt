-- ===== src/EventTree/Played.antt =====
-- Reads from a tree whose queues all end: what they give, and the first of them.
use libqtl.Base.{
  ℕ, suc, ◌+◌, ◌≤◌, ◌<◌, ◌≡◌, refl, sym, ap, ◌∙◌, true, false, Option, none, some, List, [], ◌∷◌,
  ◌++◌, length, arith,
}
use libqtl.Event.{Event, event_get_type, new_on_simulation_stop_event}
use libqtl.Event.Refs.{alive}
use mathlib.Core.Path.{subst}
use mathlib.Core.List.{nil≢cons}
use libqtl.EventQueue.{Store, event_queue_pop, time_of_life}
use libqtl.EventQueue.Release.{count}
use libqtl.Spsc.Refine.{Represents as Holding}
use libqtl.EventTree.{EventTree}
use libqtl.EventTree.Read.{event_tree_read, is_closed}
use libqtl.EventTree.Memory.{done, World, put}
use libqtl.EventTree.Frame.{put_self}
use libqtl.EventTree.Represents.{Represents}
use libqtl.EventTree.Entries.{is_open, time_at, SortedFrom, opened, Entries, sum}
use libqtl.EventTree.NextEvent.{Ready, Next, popped}
use libqtl.EventTree.Closing.{some-Represents, event_tree_read-new_on_simulation_stop_event}
use libqtl.EventTree.AllEvents.{count_first}

-- The event at this address is there and closes its queue.
pub record IsClosing (store : Store) (e : ℕ) : Type 0 where
  pub event : Event
  pub is_there : store e ≡ alive event
  pub closes : is_closed (event_get_type event) ≡ true

-- The last of the events closes the queue, and no other one.
abbrev pub EndsClosed : Store → List ℕ → Type 0
EndsClosed store [] = Unit
EndsClosed store (e ∷ []) = IsClosing store e
EndsClosed store (e ∷ f ∷ fs) = (is_open (store e) ≡ true) × EndsClosed store (f ∷ fs)

-- These are at the addresses.
abbrev pub Values : Store → List ℕ → List Event → Type 0
Values store [] [] = Unit
Values store (a ∷ l) (e ∷ es) = (store a ≡ alive e) × Values store l es
Values store _ _ = ⊥

pub EndsClosed-time :
    (store : Store) (e : ℕ) (es : List ℕ)
    → EndsClosed store (e ∷ es)
    → time_of_life (store e) ≡ some (time_at store e)
EndsClosed-time store e [] h =
    subst (λ l. time_of_life l ≡ some (elim (time_of_life l) [ none ↦ 0 | some t ↦ t ]))
      (sym h.is_there) refl
EndsClosed-time store e (f ∷ fs) (h, _) = (opened store e h).3

pub open_value :
    (store : Store) (e : ℕ) → is_open (store e) ≡ true → (event : Event) × (store e ≡ alive event)
open_value store e h = let (event, live, _, _) = opened store e h in (event, live)

module _ {Bus : Type 0} (fuel : ℕ) where
  -- Reads without assertions give these events until the tree is empty; before each of them the tree has
  -- a node, and no queue is waited for.
  abbrev pub Yields : EventTree → World Bus → List Event → Type 0
  Yields tree w [] = (tree.last ≡ none) × (tree.root ≡ none)
  Yields tree w (event ∷ es) =
      (tree.last ≡ none)
      × ((r : ℕ) × (tree.root ≡ some r))
      × ((tree' : EventTree) × (w' : World Bus) × (a : ℕ) × (event_tree_read false fuel tree w
            ≡ done (tree', w', some a))
          × (w'.events a ≡ alive event)
          × Yields tree' w' es)

pub has_events :
    {Bus : Type 0} (queue_of : ℕ → ℕ) (w : World Bus) (events : ℕ → List ℕ) (y : ℕ × ℕ)
    (xs ys : List (ℕ × ℕ))
    → xs ≡ y ∷ ys
    → Entries queue_of w.events EndsClosed w.queues events xs
    → 0 < sum queue_of length events xs
has_events queue_of w events y [] ys e h = absurd (nil≢cons e)
has_events queue_of w events y ((t, x) ∷ xs) ys e (entry, _, _) =
    omega (arith, ap length entry.contents)

module _ {Bus : Type 0} (queue_of : ℕ → ℕ) (fuel a : ℕ) where
  -- Reads give the events of the queues, in order, but for the last, which closes the last queue; instead of
  -- it comes the event that ends a simulation, at the next address from `malloc`.
  pub record Played (b : ℕ) (tree : EventTree) (w : World Bus) (events : ℕ → List ℕ)
      (xs : List (ℕ × ℕ)) : Type 0 where
    pub before : List ℕ
    pub closing : ℕ
    pub delivered : List Event
    pub ends : IsClosing w.events closing
    pub values : Values w.events before delivered
    pub yields : Yields fuel tree w (delivered ++ new_on_simulation_stop_event (w.garbage a) ∷ [])
    pub sorted : SortedFrom w.events b (before ++ closing ∷ [])
    pub all_of : (k : ℕ) → count k (before ++ closing ∷ []) ≡ sum queue_of (count k) events xs
    pub total : suc (length delivered) ≡ sum queue_of length events xs

  module _ (b : ℕ) (tree : EventTree) (w : World Bus) (events : ℕ → List ℕ) (t x : ℕ)
      (xs : List (ℕ × ℕ)) (r : Ready queue_of EndsClosed tree w events ((t, x) ∷ xs))
      (enough : length xs < fuel) (waits_for_none : tree.last ≡ none) (bound : b ≤ t) where
    -- After one read.
    pub one_read :
        (e : ℕ) (es : List ℕ) (event : Event)
        → w.events e ≡ alive event
        → events (queue_of x) ≡ e ∷ es
        → time_at w.events e ≡ t
        → (k : Next queue_of EndsClosed fuel tree w events t x xs e es tree.last)
        → Played t k.tree'
            (record w { nodes = k.nodes'; queues = k.queues' })
            (put events (queue_of x) es)
            k.xs'
        → Played b tree w events ((t, x) ∷ xs)
    unfolding count
    one_read e es event live contents time k p = record {
      before = e ∷ p.before;
      closing = p.closing;
      delivered = event ∷ p.delivered;
      ends = p.ends;
      values = (live, p.values);
      yields = (
        waits_for_none,
        some-Represents w.nodes tree.root (t, x) xs r.rep,
        (k.tree', record w { nodes = k.nodes'; queues = k.queues' }, e, k.reads, live, p.yields),
      );
      sorted = (rw time bound, rw time p.sorted);
      all_of = λ c.
          count_first c e es (p.before ++ p.closing ∷ []) _ (p.all_of c ∙ k.sums (count c) refl)
          ∙ ap (λ l. count c l + sum queue_of (count c) events xs) (sym contents);
      total = omega (arith, p.total, k.sums length refl, ap length contents);
    }

    -- The last read.
    pub last_read :
        (e : ℕ) (more : List (Option ℕ))
        → xs ≡ []
        → w.supply ≡ some a ∷ more
        → events (queue_of x) ≡ e ∷ []
        → Holding (w.queues (queue_of x)).spsc (e ∷ [])
        → IsClosing w.events e
        → time_at w.events e ≡ t
        → Played b tree w events ((t, x) ∷ xs)
    unfolding count
    last_read e more alone free contents held last time =
        let (q, pop, left) = popped (w.queues (queue_of x)) e [] held in
        let (nodes', reads) =
          event_tree_read-new_on_simulation_stop_event fuel tree w t x q e last.event a more
            (subst (λ l. Represents w.nodes tree.root ((t, x) ∷ l)) alone r.rep)
            (omega (arith, enough)) (ap (λ o. event_queue_pop (w.queues o)) (r.queues_are x) ∙ pop)
            last.is_there last.closes free in
        record {
          before = [];
          closing = e;
          delivered = [];
          ends = last;
          values = tt;
          yields = (
            waits_for_none,
            some-Represents w.nodes tree.root (t, x) xs r.rep,
            (
              record tree { root = none },
              _,
              a,
              reads,
              put_self w.events a (alive (new_on_simulation_stop_event (w.garbage a))),
              (waits_for_none, refl),
            ),
          );
          sorted = (rw time bound, tt);
          all_of = λ c. rw (alone, contents) (omega arith);
          total = rw (alone, contents) (omega arith);
        }
