-- ===== src/EventTree/Closing.antt =====
-- `event_tree_read` without assertions, where the event that it reads closes its queue.
use libqtl.Base.{
  ℕ, ◌<◌, ◌≡◌, refl, sym, ap, ◌∙◌, true, false, Option, none, some, List, [], ◌∷◌, length, arith,
}
use mathlib.Core.List.{nil≢cons, cons≢nil}
use libqtl.Event.{Event, event_get_type, new_on_simulation_stop_event}
use libqtl.Event.Refs.{alive}
use libqtl.Spsc.{item}
use libqtl.EventTree.{EventTree}
use libqtl.EventTree.Read.{is_closed, put_back, make_stop_event, event_tree_read}
use libqtl.EventTree.Memory.{Nodes, World, done, put}
use libqtl.EventTree.Shape.{leaf, node, top, Holds}
use libqtl.EventTree.Order.{to_list}
use libqtl.EventTree.Take.{to_list-take}
use libqtl.EventTree.Represents.{Represents}
use libqtl.EventTree.Earliest.{Rest}
use libqtl.EventQueue.{EventQueue, event_queue_pop}
use libqtl.EventTree.Merge.{Rest-of, read_event, shrunk, taken_from}

none-Represents : (nodes : Nodes) (p : Option ℕ) → Represents nodes p [] → p ≡ none
unfolding to_list
none-Represents nodes p rep =
    elim rep.shape as (λ s. Holds nodes p s → to_list s ≡ [] → p ≡ none) [
      | leaf ↦ λ h e. h
      | node l t a rest r ↦ λ h e. absurd (cons≢nil (sym (to_list-take l t a rest r) ∙ e))
    ]
      rep.holds rep.listed

pub some-Represents :
    (nodes : Nodes) (p : Option ℕ) (y : ℕ × ℕ) (xs : List (ℕ × ℕ))
    → Represents nodes p (y ∷ xs)
    → (r : ℕ) × (p ≡ some r)
unfolding to_list
some-Represents nodes p y xs rep =
    elim rep.shape as (λ s. Holds nodes p s → to_list s ≡ y ∷ xs → (r : ℕ) × (p ≡ some r)) [
      | leaf ↦ λ h e. absurd (nil≢cons e)
      | node l t a rest r ↦ λ h e. (top a rest, h.0)
    ]
      rep.holds rep.listed

module _ {Bus : Type 0} where
  make_stop_event_lem :
      (w : World Bus) (a : ℕ) (more : List (Option ℕ))
      → w.supply ≡ some a ∷ more
      → make_stop_event w
        ≡ done (
          record w {
            events = put w.events a (alive (new_on_simulation_stop_event (w.garbage a)));
            supply = more;
          },
          a,
        )
  unfolding make_stop_event
  make_stop_event_lem w a more free = rw free refl

  put_back_stop :
      (fuel : ℕ) (tree : EventTree) (w : World Bus) (x e : ℕ) (event : Event) (a : ℕ)
      (more : List (Option ℕ))
      → is_closed (event_get_type event) ≡ true
      → tree.root ≡ none
      → w.supply ≡ some a ∷ more
      → put_back fuel tree w x e event
        ≡ done (
          record tree { root = none },
          record w {
            events = put w.events a (alive (new_on_simulation_stop_event (w.garbage a)));
            supply = more;
          },
          some a,
        )
  unfolding put_back
  put_back_stop fuel tree w x e event a more closed no_root free =
      simp (closed, no_root, make_stop_event_lem w a more free)
        (ap
          (λ p. done (
            record tree { root = p },
            record w {
              events = put w.events a (alive (new_on_simulation_stop_event (w.garbage a)));
              supply = more;
            },
            some a,
          ))
          no_root)

  put_back_closed :
      (fuel : ℕ) (tree : EventTree) (w : World Bus) (x e : ℕ) (event : Event) (r : ℕ)
      → is_closed (event_get_type event) ≡ true
      → tree.root ≡ some r
      → put_back fuel tree w x e event ≡ done (tree, w, some e)
  unfolding put_back
  put_back_closed fuel tree w x e event r closed root = simp (closed, root)

  -- Without assertions, when the event read from a tree of one node closes its queue, and there is memory,
  -- the read returns an event at a new address instead, whose type is made that of the simulation's end,
  -- and the tree's root is null.
  pub event_tree_read-new_on_simulation_stop_event :
      (fuel : ℕ) (tree : EventTree) (w : World Bus) (t x : ℕ) (q : EventQueue Bus) (e : ℕ)
      (event : Event) (a : ℕ) (more : List (Option ℕ))
      → Represents w.nodes tree.root ((t, x) ∷ [])
      → 0 < fuel
      → event_queue_pop (w.queues (w.nodes x).queue) ≡ (q, item e)
      → w.events e ≡ alive event
      → is_closed (event_get_type event) ≡ true
      → w.supply ≡ some a ∷ more
      → (nodes' : Nodes) × (event_tree_read false fuel tree w
          ≡ done (
            record tree { root = none },
            record w {
              nodes = nodes';
              queues = put w.queues (w.nodes x).queue q;
              events = put w.events a (alive (new_on_simulation_stop_event (w.garbage a)));
              supply = more;
            },
            some a,
          ))
  event_tree_read-new_on_simulation_stop_event fuel tree w t x q e event a more rep enough popped
        live closed free =
      let k : Rest fuel tree w t x [] = Rest-of fuel tree w t x [] rep (omega (arith, enough)) in
      (
        k.nodes',
        read_event fuel tree w t x [] k q e event popped live
            ∙ put_back_stop fuel (shrunk fuel tree w t x [] k) (taken_from fuel tree w t x [] k q) x
                e event a more closed (none-Represents k.nodes' k.root' k.rest) free,
      )

  -- When the event closes the queue and other nodes are in the tree, the read returns it, and they stay, each with its queue.
  pub event_tree_read-is_closed :
      (fuel : ℕ) (tree : EventTree) (w : World Bus) (t x : ℕ) (y : ℕ × ℕ) (xs : List (ℕ × ℕ))
      (q : EventQueue Bus) (e : ℕ) (event : Event)
      → Represents w.nodes tree.root ((t, x) ∷ y ∷ xs)
      → length (y ∷ xs) < fuel
      → event_queue_pop (w.queues (w.nodes x).queue) ≡ (q, item e)
      → w.events e ≡ alive event
      → is_closed (event_get_type event) ≡ true
      → (root' : Option ℕ) × (nodes' : Nodes) × (event_tree_read false fuel tree w
          ≡ done (
            record tree { root = root' },
            record w { nodes = nodes'; queues = put w.queues (w.nodes x).queue q },
            some e,
          ))
        × Represents nodes' root' (y ∷ xs)
        × ((z : ℕ) → (nodes' z).queue ≡ (w.nodes z).queue)
  event_tree_read-is_closed fuel tree w t x y xs q e event rep enough popped live closed =
      let k : Rest fuel tree w t x (y ∷ xs) = Rest-of fuel tree w t x (y ∷ xs) rep enough in
      let root = some-Represents k.nodes' k.root' y xs k.rest in
      (
        k.root',
        k.nodes',
        read_event fuel tree w t x (y ∷ xs) k q e event popped live
            ∙ put_back_closed fuel (shrunk fuel tree w t x (y ∷ xs) k)
                (taken_from fuel tree w t x (y ∷ xs) k q) x e event root.0 closed root.1,
        k.rest,
        k.queues_stay,
      )
