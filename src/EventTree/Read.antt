-- ===== src/EventTree/Read.antt =====
-- `event_tree_read` of src/qtl_etree.c: the first event of the queue whose first event is earliest.
use libqtl.Base.{ℕ, zero, suc, Bool, true, false, Option, none, some, if◌then◌else◌}
use libqtl.Event.{Event, EventType, on_queue_closed, event_get_type, new_on_simulation_stop_event}
use libqtl.Event.Refs.{Life, alive, freed, used_after_free}
use libqtl.Spsc.{Item, item, empty, fault}
use libqtl.EventQueue.{EventQueue, event_queue_is_empty, event_queue_pop}
use libqtl.EventTree.{EventTree, set_right, set_left, event_tree_rebalance}
use libqtl.EventTree.Memory.{
  Run, Nodes, out_of_fuel, done, ◌>>=◌, ◌>>◌, World, assert, deref, is_some, put, modify, malloc,
}

abbrev pub is_closed : EventType → Bool
is_closed on_queue_closed = true
is_closed _ = false

-- What `event_get_type` finds.
abbrev pub load_event : Life → Run Event
load_event (alive e) = done e
load_event freed = Run.fault
load_event used_after_free = Run.fault

-- The first `while` loop: the node and its parent.
unfoldable pub leftmost : ℕ → Nodes → ℕ → Option ℕ → Run (ℕ × Option ℕ)
leftmost zero nodes current parent = out_of_fuel
leftmost (suc fuel) nodes current parent = elim (nodes current).left [
  | none ↦ done (current, parent)
  | some l ↦ leftmost fuel nodes l (some current)
]

-- A node that is alone leaves the tree.
unfoldable pub take_node : EventTree → Nodes → ℕ → Option ℕ → EventTree × Nodes
take_node tree nodes current none =
    (record tree { root = (nodes current).right }, set_right nodes current none)
take_node tree nodes current (some p) =
    (tree, set_right (set_left nodes p (nodes current).right) current none)

-- A chain gives its first node, and its place in the tree stays.
unfoldable pub take_head : Nodes → ℕ → Run (Nodes × ℕ)
take_head nodes current = do
  temp ← deref (nodes current).head
  second ← deref (nodes temp).next
  let n1 = modify nodes second (λ n. record n { prev = none })
  done (modify n1 current (λ n. record n { head = (n1 temp).next }), temp)

-- The node to read from.
unfoldable pub take_first : EventTree → Nodes → ℕ × Option ℕ → Run (EventTree × Nodes × ℕ)
take_first tree nodes (current, parent) =
    if is_some (nodes current).prev
    then (take_head nodes current >>= λ (nodes', temp). done (tree, nodes', temp))
    else let (tree', nodes') = take_node tree nodes current parent in done (tree', nodes', current)

module _ {Bus : Type 0} where
  -- The new event is at the address that `malloc` returns.
  unfoldable pub make_stop_event : World Bus → Run (World Bus × ℕ)
  make_stop_event w =
      let (a, w') = malloc w in
      deref a >>= λ e. done (
        record w' {
          events = put w'.events e (alive (new_on_simulation_stop_event (w'.garbage e)));
        },
        e,
      )

  -- What becomes of the node, after its queue gave the event `e`.
  unfoldable pub put_back :
      ℕ → EventTree → World Bus → ℕ → ℕ → Event → Run (EventTree × World Bus × Option ℕ)
  put_back fuel tree w current e event =
      if is_closed (event_get_type event)
      then elim tree.root [
        | none ↦ make_stop_event w >>= λ (w', stop). done (tree, w', some stop)
        | some r ↦ done (tree, w, some e)
      ]
      else if event_queue_is_empty (w.queues (w.nodes current).queue)
      then done (record tree { last = some current }, w, some e)
      else (event_tree_rebalance fuel tree w current >>= λ (tree', w'). done (tree', w', some e))

  unfoldable pub pop_event :
      ℕ
      → EventTree
      → World Bus
      → ℕ
      → EventQueue Bus × Item ℕ
      → Run (EventTree × World Bus × Option ℕ)
  pop_event fuel tree w current (q, empty) = done (tree, w, none)
  pop_event fuel tree w current (q, fault) = Run.fault
  pop_event fuel tree w current (q, item e) = do
    let w' = record w { queues = put w.queues (w.nodes current).queue q }
    event ← load_event (w.events e)
    put_back fuel tree w' current e event

  -- The tree after the walk to its first node.
  unfoldable pub read_first : ℕ → EventTree → World Bus → Run (EventTree × World Bus × Option ℕ)
  read_first fuel tree w = do
    root ← deref tree.root
    place ← leftmost fuel w.nodes root none
    (tree', nodes, current) ← take_first tree w.nodes place
    let w' = record w { nodes = nodes }
    pop_event fuel tree' w' current (event_queue_pop (w'.queues (w'.nodes current).queue))

  unfoldable pub event_tree_read :
      Bool → ℕ → EventTree → World Bus → Run (EventTree × World Bus × Option ℕ)
  event_tree_read checked fuel tree w = assert checked (is_some tree.last) >> read_first fuel tree w
