-- ===== src/Tests/Trees.antt =====
-- The theorems on trees of queues, at a tree of two nodes.
use libqtl.Base.{
  ℕ, ◌≡◌, refl, arith, true, false, Option, none, some, List, [], ◌∷◌, ◌==◌, if◌then◌else◌,
}
use libqtl.Event.{event_get_type, event_get_time, Event, trade, on_queue_closed}
use libqtl.Event.Refs.{alive}
use libqtl.Spsc.{
  item, spsc_queue_read, spsc_queue_peek, spsc_queue_is_empty, next_record, load_record,
}
use libqtl.EventQueue.{
  EventQueue, event_queue_pop, event_queue_peek, event_queue_peek_time, event_queue_is_empty,
  data_queue, master, normal,
}
use libqtl.EventTree.{
  EventTree, null_tree, event_tree_rebalance, event_tree_is_empty, event_tree_add, add_node,
  node_new, test_last, insert_from, descend, put_in,
}
use libqtl.EventTree.Memory.{Run, aborted, done, TreeNode, Nodes, World, put}
use libqtl.EventTree.Read.{is_closed, event_tree_read}
use libqtl.EventTree.Shape.{Off, leaf, node}
use libqtl.EventTree.Abort.{call_tree, TreeCall, add, is_empty, call_all, event_tree_read-aborted}
use libqtl.EventTree.Order.{to_list, insert_sorted}
use libqtl.EventTree.Represents.{Represents, addresses, event_tree_rebalance_lem}
use libqtl.EventTree.Merge.{event_tree_read-insert_sorted, event_tree_is_empty-insert_sorted}

-- The bus is a number.
abbrev pub queue_of : ℕ → List ℕ → EventQueue ℕ
queue_of n records = record {
  id = data_queue;
  type = master;
  priority = normal;
  name = none;
  bus = none;
  is_synced = false;
  spsc = record { capacity = 4; records = records; read_pos = 0; write_pos = n };
}

-- Queue 1 has events of the times 5 and 6, queue 2 one of 7, queue 3 one of 5, and queue 4 its closing.
abbrev pub queues : ℕ → EventQueue ℕ
queues q =
    if q == 1
    then queue_of 2 (15 ∷ 16 ∷ 0 ∷ 0 ∷ [])
    else if q == 2
    then queue_of 1 (17 ∷ 0 ∷ 0 ∷ 0 ∷ [])
    else if q == 3
    then queue_of 1 (15 ∷ 0 ∷ 0 ∷ 0 ∷ [])
    else queue_of 1 (9 ∷ 0 ∷ 0 ∷ 0 ∷ [])

abbrev pub event_at : ℕ → Event
event_at a =
    if a == 9
    then record { timestamp = 9; type = on_queue_closed; ref = 1 }
    else if a == 16
    then record { timestamp = 6; type = trade; ref = 1 }
    else if a == 17
    then record { timestamp = 7; type = trade; ref = 1 }
    else record { timestamp = 5; type = trade; ref = 1 }

abbrev pub node_at : ℕ → ℕ → Option ℕ → TreeNode
node_at n t right = record {
  queue = n;
  timestamp = t;
  left = none;
  right = right;
  next = none;
  prev = none;
  head = some n;
}

-- Node 1 is the root, and node 2 at its right.
abbrev pub nodes : Nodes
nodes n =
    if n == 1 then node_at 1 5 (some 2) else if n == 2 then node_at 2 7 none else node_at n 9 none

abbrev pub world : World ℕ
world = record {
  nodes = nodes;
  queues = queues;
  events = λ a. alive (event_at a);
  garbage = event_at;
  supply = some 20 ∷ some 21 ∷ [];
}

abbrev pub tree : EventTree
tree = record { root = some 1; last = some 3 }

abbrev pub listed : List (ℕ × ℕ)
listed = (5, 1) ∷ (7, 2) ∷ []

pub tree-Represents : Represents nodes (some 1) listed
unfolding to_list
tree-Represents = record {
  shape = node leaf 5 1 [] (node leaf 7 2 [] leaf);
  holds = (refl, (refl, refl, refl, tt), refl, (refl, (refl, refl, refl, tt), refl, refl));
  in_order = (tt, (tt, omega arith, tt), tt, (tt, tt, tt, tt));
  listed = refl;
}

not_listed : Off 3 (addresses listed)
not_listed = (ground arith, (ground arith, tt))

time_3 : event_queue_peek_time world.events (queues 3) ≡ some 5
unfolding event_queue_peek_time event_queue_peek spsc_queue_peek load_record event_get_time
time_3 = refl

some_3 : event_queue_is_empty (queues 3) ≡ false
unfolding event_queue_is_empty spsc_queue_is_empty
some_3 = refl

event_tree_rebalance_lem_example :
    (root' : Option ℕ) × (nodes' : Nodes) × (event_tree_rebalance 2 tree world 3
      ≡ done (record tree { root = root' }, record world { nodes = nodes' }))
    × Represents nodes' root' (insert_sorted 5 3 listed)
    × ((x : ℕ) → (nodes' x).queue ≡ (nodes x).queue)
event_tree_rebalance_lem_example =
    event_tree_rebalance_lem 2 tree world 3 5 listed time_3 tree-Represents not_listed (omega arith)

abbrev read_once : EventQueue ℕ
read_once = record (queue_of 2 (15 ∷ 16 ∷ 0 ∷ 0 ∷ [])) {
  spsc = record { capacity = 4; records = 15 ∷ 16 ∷ 0 ∷ 0 ∷ []; read_pos = 1; write_pos = 2 };
}

popped_15 : event_queue_pop (queues 1) ≡ (read_once, item 15)
unfolding event_queue_pop spsc_queue_read next_record load_record
popped_15 = refl

open_15 : is_closed (event_get_type (event_at 15)) ≡ false
unfolding event_get_type
open_15 = refl

more_16 : event_queue_is_empty read_once ≡ false
unfolding event_queue_is_empty spsc_queue_is_empty
more_16 = refl

time_16 : event_queue_peek_time world.events read_once ≡ some 6
unfolding event_queue_peek_time event_queue_peek spsc_queue_peek load_record event_get_time
time_16 = refl

event_tree_read-insert_sorted_example :
    (root' : Option ℕ) × (nodes' : Nodes) × (event_tree_read false 2 tree world
      ≡ done (
        record tree { root = root' },
        record world { nodes = nodes'; queues = put queues 1 read_once },
        some 15,
      ))
    × Represents nodes' root' (insert_sorted 6 1 ((7, 2) ∷ []))
    × ((y : ℕ) → (nodes' y).queue ≡ (nodes y).queue)
event_tree_read-insert_sorted_example =
    event_tree_read-insert_sorted 2 tree world 5 1 ((7, 2) ∷ []) read_once 15 (event_at 15) 6
      tree-Represents (omega arith) popped_15 refl open_15 more_16 time_16

event_tree_is_empty-insert_sorted_example :
    (root' : Option ℕ) × (nodes' : Nodes) × (event_tree_is_empty 2 tree world
      ≡ done (record { root = root'; last = none }, record world { nodes = nodes' }, false))
    × Represents nodes' root' (insert_sorted 5 3 listed)
event_tree_is_empty-insert_sorted_example =
    event_tree_is_empty-insert_sorted 2 tree world 3 5 listed refl some_3 time_3 tree-Represents
      not_listed (omega arith)

-- Two queues are added to a new tree, in nodes at the addresses 20 and 21, which is then not empty.
abbrev calls : List TreeCall
calls = add 1 ∷ add 2 ∷ is_empty ∷ []

abbrev tree_of : Run (EventTree × World ℕ) → EventTree
tree_of (done (t, w)) = t
tree_of _ = null_tree

abbrev world_of : Run (EventTree × World ℕ) → World ℕ
world_of (done (t, w)) = w
world_of _ = world

abbrev filled : Run (EventTree × World ℕ)
filled = call_all 2 null_tree world calls

run_calls : filled ≡ done (tree_of filled, world_of filled)
unfolding call_all call_tree event_tree_add add_node node_new event_tree_is_empty test_last
    event_tree_rebalance insert_from descend put_in event_queue_is_empty spsc_queue_is_empty
    event_queue_peek_time event_queue_peek spsc_queue_peek load_record event_get_time
run_calls = refl

event_tree_read-aborted_example :
    event_tree_read true 2 (tree_of filled) (world_of filled) ≡ aborted
event_tree_read-aborted_example =
    event_tree_read-aborted 2 calls world (world_of filled) (tree_of filled) run_calls
