-- ===== src/EventTree/Merge.antt =====
-- `event_tree_read` without assertions, and `event_tree_is_empty`: the queues of a tree, as a list of
-- nodes by the times of their first events.
use libqtl.Base.{
  ℕ, ◌≤◌, ◌<◌, ◌≡◌, refl, ap, ◌∙◌, true, false, Option, none, some, List, ◌∷◌, length, arith,
}
use libqtl.Event.{Event, event_get_type}
use libqtl.Event.Refs.{alive}
use libqtl.Spsc.{item}
use libqtl.EventTree.{EventTree, event_tree_is_empty, test_last}
use libqtl.EventTree.Read.{is_closed, pop_event, put_back, event_tree_read}
use libqtl.EventTree.Memory.{Nodes, World, done, put}
use libqtl.EventTree.Shape.{Off}
use libqtl.EventTree.Frame.{put_self}
use libqtl.EventTree.Order.{AllTimes, insert_sorted}
use libqtl.EventTree.Represents.{Represents, addresses, depth_le, event_tree_rebalance_lem}
use libqtl.EventTree.Earliest.{Rest, first_taken}
use libqtl.EventQueue.{EventQueue, event_queue_is_empty, event_queue_pop, event_queue_peek_time}

module _ {Bus : Type 0} where
  pub Rest-of :
      (fuel : ℕ) (tree : EventTree) (w : World Bus) (t x : ℕ) (xs : List (ℕ × ℕ))
      → Represents w.nodes tree.root ((t, x) ∷ xs)
      → length xs < fuel
      → Rest fuel tree w t x xs
  Rest-of fuel tree w t x xs rep enough =
      first_taken fuel tree w rep.shape t x xs rep.holds rep.in_order rep.listed
        (omega (arith, depth_le rep.shape, ap length rep.listed, enough))

  -- A read from a tree in order, with fuel for its length, takes the first node out of the tree and pops
  -- the queue of that node; no node that stays is earlier, they keep their times and order, and every
  -- node keeps its queue.
  pub event_tree_read_lem :
      (fuel : ℕ) (tree : EventTree) (w : World Bus) (t x : ℕ) (xs : List (ℕ × ℕ))
      → Represents w.nodes tree.root ((t, x) ∷ xs)
      → length xs < fuel
      → (root' : Option ℕ) × (nodes' : Nodes) × (event_tree_read false fuel tree w
          ≡ pop_event fuel
              (record tree { root = root' })
              (record w { nodes = nodes' })
              x
              (event_queue_pop (w.queues (w.nodes x).queue)))
        × Represents nodes' root' xs
        × AllTimes (λ u. t ≤ u) xs
        × ((y : ℕ) → (nodes' y).queue ≡ (w.nodes y).queue)
  event_tree_read_lem fuel tree w t x xs rep enough =
      let k : Rest fuel tree w t x xs = Rest-of fuel tree w t x xs rep enough in
      (k.root', k.nodes', k.reads, k.rest, k.least, k.queues_stay)

  module _ (fuel : ℕ) (tree : EventTree) (w : World Bus) (t x : ℕ) (xs : List (ℕ × ℕ)) where
    abbrev pub shrunk : Rest fuel tree w t x xs → EventTree
    shrunk k = record tree { root = k.root' }

    abbrev pub taken_from : Rest fuel tree w t x xs → EventQueue Bus → World Bus
    taken_from k q = record w { nodes = k.nodes'; queues = put w.queues (w.nodes x).queue q }

    pub read_event :
        (k : Rest fuel tree w t x xs) (q : EventQueue Bus) (e : ℕ) (event : Event)
        → event_queue_pop (w.queues (w.nodes x).queue) ≡ (q, item e)
        → w.events e ≡ alive event
        → event_tree_read false fuel tree w ≡ put_back fuel (shrunk k) (taken_from k q) x e event
    unfolding pop_event
    read_event k q e event popped live = k.reads ∙ rw (popped, live, k.queues_stay x) refl

    its_queue :
        (k : Rest fuel tree w t x xs) (q : EventQueue Bus)
        → (taken_from k q).queues ((taken_from k q).nodes x).queue ≡ q
    its_queue k q = rw (k.queues_stay x) (put_self w.queues (w.nodes x).queue q)

  -- Without assertions, on a tree in order with fuel for its length: when the first node's queue has a first
  -- event that does not close the queue and another one behind it, both in memory, a read returns that first
  -- event, and the node is back in the tree at the time of the one behind, behind the nodes of the same
  -- time. Every node keeps its queue.
  pub event_tree_read-insert_sorted :
      (fuel : ℕ) (tree : EventTree) (w : World Bus) (t x : ℕ) (xs : List (ℕ × ℕ))
      (q : EventQueue Bus) (e : ℕ) (event : Event) (u : ℕ)
      → Represents w.nodes tree.root ((t, x) ∷ xs)
      → length xs < fuel
      → event_queue_pop (w.queues (w.nodes x).queue) ≡ (q, item e)
      → w.events e ≡ alive event
      → is_closed (event_get_type event) ≡ false
      → event_queue_is_empty q ≡ false
      → event_queue_peek_time w.events q ≡ some u
      → (root' : Option ℕ) × (nodes' : Nodes) × (event_tree_read false fuel tree w
          ≡ done (
            record tree { root = root' },
            record w { nodes = nodes'; queues = put w.queues (w.nodes x).queue q },
            some e,
          ))
        × Represents nodes' root' (insert_sorted u x xs)
        × ((y : ℕ) → (nodes' y).queue ≡ (w.nodes y).queue)
  unfolding put_back
  event_tree_read-insert_sorted fuel tree w t x xs q e event u rep enough popped live open_still
        more time =
      let k : Rest fuel tree w t x xs = Rest-of fuel tree w t x xs rep enough in
      let again =
        event_tree_rebalance_lem fuel (shrunk fuel tree w t x xs k)
          (taken_from fuel tree w t x xs k q) x u xs
          (ap (event_queue_peek_time w.events) (its_queue fuel tree w t x xs k q) ∙ time) k.rest
          k.absent (omega (arith, enough)) in
      (
        again.0,
        again.1,
        read_event fuel tree w t x xs k q e event popped live
            ∙ rw (open_still, its_queue fuel tree w t x xs k q, more, again.2) refl,
        again.3,
        λ y. again.4 y ∙ k.queues_stay y,
      )

  -- When the queue has no other event, the node is left out of the tree, as its `last`, and the others stay.
  pub event_tree_read-last :
      (fuel : ℕ) (tree : EventTree) (w : World Bus) (t x : ℕ) (xs : List (ℕ × ℕ))
      (q : EventQueue Bus) (e : ℕ) (event : Event)
      → Represents w.nodes tree.root ((t, x) ∷ xs)
      → length xs < fuel
      → event_queue_pop (w.queues (w.nodes x).queue) ≡ (q, item e)
      → w.events e ≡ alive event
      → is_closed (event_get_type event) ≡ false
      → event_queue_is_empty q ≡ true
      → (root' : Option ℕ) × (nodes' : Nodes) × (event_tree_read false fuel tree w
          ≡ done (
            record { root = root'; last = some x },
            record w { nodes = nodes'; queues = put w.queues (w.nodes x).queue q },
            some e,
          ))
        × Represents nodes' root' xs
        × ((y : ℕ) → (nodes' y).queue ≡ (w.nodes y).queue)
  unfolding put_back
  event_tree_read-last fuel tree w t x xs q e event rep enough popped live open_still none_left =
      let k : Rest fuel tree w t x xs = Rest-of fuel tree w t x xs rep enough in
      (
        k.root',
        k.nodes',
        read_event fuel tree w t x xs k q e event popped live
            ∙ rw (open_still, its_queue fuel tree w t x xs k q, none_left) refl,
        k.rest,
        k.queues_stay,
      )

  -- On a tree in order, with fuel for its length, whose `last` is a node outside it with an event in its
  -- queue: the test finds the tree not empty, and puts that node back into it at the time of the event,
  -- behind the nodes of the same time.
  pub event_tree_is_empty-insert_sorted :
      (fuel : ℕ) (tree : EventTree) (w : World Bus) (n u : ℕ) (xs : List (ℕ × ℕ))
      → tree.last ≡ some n
      → event_queue_is_empty (w.queues (w.nodes n).queue) ≡ false
      → event_queue_peek_time w.events (w.queues (w.nodes n).queue) ≡ some u
      → Represents w.nodes tree.root xs
      → Off n (addresses xs)
      → length xs ≤ fuel
      → (root' : Option ℕ) × (nodes' : Nodes) × (event_tree_is_empty fuel tree w
          ≡ done (record { root = root'; last = none }, record w { nodes = nodes' }, false))
        × Represents nodes' root' (insert_sorted u n xs)
  unfolding event_tree_is_empty test_last
  event_tree_is_empty-insert_sorted fuel tree w n u xs last some_left time rep off enough =
      let again = event_tree_rebalance_lem fuel tree w n u xs time rep off enough in
      (again.0, again.1, ap (test_last fuel tree w) last ∙ rw (some_left, again.2) refl, again.3)
