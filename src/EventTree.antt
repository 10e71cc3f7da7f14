-- ===== src/EventTree.antt =====
-- src/qtl_etree.c, src/qtl_etree.h: the queues of a pipe, in a search tree by the times of their first
-- events; queues of one time are in a chain. A function returns the new tree and the new memory beside its
-- result. `checked` says whether assertions are compiled in; `fuel` bounds each walk down the tree.
pub mod Memory
pub mod Read
pub mod Abort
pub mod Shape
pub mod Frame
pub mod Chains
pub mod Insert
pub mod InsertRight
pub mod InsertLeft
pub mod Steps
pub mod Rebalance
pub mod Order
pub mod Represents
pub mod Take
pub mod FirstCases
pub mod TakeFirst
pub mod Earliest
pub mod Merge
pub mod Closing
pub mod Entries
pub mod NextEvent
pub mod AllEvents
pub mod Played
pub mod UntilClosed
pub mod Adding
pub mod FirstNode
pub mod UnsetRoot
use Memory.{
  Run, Nodes, aborted, fault, out_of_fuel, done, ◌>>=◌, ◌>>◌, TreeNode, World, assert, deref,
  is_some, put, modify, malloc,
}
use libqtl.Base.{
  ℕ, zero, suc, Bool, true, false, ◌&&◌, not, Option, none, some, ◌==◌, ltb, if◌then◌else◌,
}
use libqtl.Event.{Event, EventType, on_queue_closed, event_get_type, new_on_simulation_stop_event}
use libqtl.Event.Refs.{Life, alive, freed, used_after_free}
use libqtl.EventQueue.{EventQueue, Store, event_queue_is_empty, event_queue_peek_time}

pub record EventTree : Type 0 where
  pub root : Option ℕ
  pub last : Option ℕ

abbrev pub null_tree : EventTree
null_tree = record { root = none; last = none }

-- Where the walk of `event_tree_rebalance` ends.
pub data Place : Type 0 where
  found : (current : ℕ) (parent : Option ℕ) → Place
  left_of right_of : ℕ → Place

unfoldable pub event_tree_init : EventTree → EventTree
event_tree_init tree = null_tree

unfoldable pub event_tree_clear : EventTree → EventTree
event_tree_clear tree = null_tree

unfoldable pub event_tree_destory : EventTree → EventTree
event_tree_destory tree = event_tree_clear tree

-- The function ignores both.
unfoldable pub event_tree_remove : EventTree → ℕ → EventTree
event_tree_remove tree queue = tree

-- The time of the first event; its failed assertion counts as a fault.
abbrev pub load_time : Option ℕ → Run ℕ
load_time none = fault
load_time (some t) = done t

-- The `while` loop, for an item of time `t`.
unfoldable pub descend : ℕ → Nodes → ℕ → ℕ → Option ℕ → Run Place
descend zero nodes t current parent = out_of_fuel
descend (suc fuel) nodes t current parent =
    if (nodes current).timestamp == t
    then done (found current parent)
    else if ltb (nodes current).timestamp t
    then elim (nodes current).right [
      | none ↦ done (right_of current)
      | some r ↦ descend fuel nodes t r (some current)
    ]
    else elim (nodes current).left [
      | none ↦ done (left_of current)
      | some l ↦ descend fuel nodes t l (some current)
    ]

abbrev pub fresh_node : ℕ → ℕ → TreeNode → TreeNode
fresh_node item t n = record n {
  right = none;
  left = none;
  next = none;
  prev = none;
  head = some item;
  timestamp = t;
}

-- The chain of `current` gets the item at its end, and the item takes its place in the tree.
unfoldable pub chain : Nodes → ℕ → ℕ → Nodes
chain nodes item current =
    let n1 : Nodes = modify nodes item (λ n. record n { prev = some current }) in
    let n2 : Nodes = modify n1 current (λ n. record n { next = some item }) in
    modify n2 item (λ n. record n {
      head = (n2 current).head;
      right = (n2 current).right;
      left = (n2 current).left;
    })

abbrev pub set_right : Nodes → ℕ → Option ℕ → Nodes
set_right nodes a p = modify nodes a (λ n. record n { right = p })

abbrev pub set_left : Nodes → ℕ → Option ℕ → Nodes
set_left nodes a p = modify nodes a (λ n. record n { left = p })

-- The end of `event_tree_rebalance`: the link to the place of `current`.
unfoldable pub link : EventTree → Nodes → ℕ → Option ℕ → EventTree × Nodes
link tree nodes item none = (record tree { root = some item }, nodes)
link tree nodes item (some p) = (
  tree,
  if ltb (nodes p).timestamp (nodes item).timestamp
      then set_right nodes p (some item)
      else set_left nodes p (some item),
)

unfoldable pub put_in : EventTree → Nodes → ℕ → Place → EventTree × Nodes
put_in tree nodes item (right_of p) = (tree, set_right nodes p (some item))
put_in tree nodes item (left_of p) = (tree, set_left nodes p (some item))
put_in tree nodes item (found current parent) = link tree (chain nodes item current) item parent

-- From the root, which is given beside the tree.
unfoldable pub insert_from : ℕ → EventTree → Nodes → ℕ → ℕ → Option ℕ → Run (EventTree × Nodes)
insert_from fuel tree nodes item t none = done (record tree { root = some item }, nodes)
insert_from fuel tree nodes item t (some r) =
    descend fuel nodes t r none >>= λ place. done (put_in tree nodes item place)

module _ {Bus : Type 0} where
  -- The memory at the new address keeps what it holds but for the two members.
  unfoldable pub node_new : World Bus → ℕ → Option ℕ × World Bus
  node_new w q =
      let (node, w') = malloc w in
      elim node [
        | none ↦ (none, w')
        | some a ↦ (
          some a,
          record w' { nodes = modify w'.nodes a (λ n. record n { queue = q; head = some a }) },
        )
      ]

  unfoldable pub event_tree_rebalance : ℕ → EventTree → World Bus → ℕ → Run (EventTree × World Bus)
  event_tree_rebalance fuel tree w item = do
    t ← load_time (event_queue_peek_time w.events (w.queues (w.nodes item).queue))
    (tree', nodes) ←
        insert_from fuel tree (modify w.nodes item (fresh_node item t)) item t tree.root
    done (tree', record w { nodes = nodes })

  unfoldable pub test_last :
      ℕ → EventTree → World Bus → Option ℕ → Run (EventTree × World Bus × Bool)
  test_last fuel tree w none = done (tree, w, not (is_some tree.root))
  test_last fuel tree w (some n) =
      if event_queue_is_empty (w.queues (w.nodes n).queue)
      then done (tree, w, true)
      else (event_tree_rebalance fuel tree w n >>= λ (tree', w').
          done (record tree' { last = none }, w', false))

  unfoldable pub event_tree_is_empty :
      ℕ → EventTree → World Bus → Run (EventTree × World Bus × Bool)
  event_tree_is_empty fuel tree w = test_last fuel tree w tree.last

  unfoldable pub add_node :
      ℕ → EventTree → Option ℕ → Option ℕ × World Bus → Run (EventTree × World Bus × Bool)
  add_node fuel tree root (none, w) = done (tree, w, false)
  add_node fuel tree none (some item, w) = done (record tree { root = some item }, w, true)
  add_node fuel tree (some r) (some item, w) =
      event_tree_rebalance fuel tree w item >>= λ (tree', w'). done (tree', w', true)

  unfoldable pub event_tree_add : ℕ → EventTree → World Bus → ℕ → Run (EventTree × World Bus × Bool)
  event_tree_add fuel tree w queue =
      if event_queue_is_empty (w.queues queue)
      then done (tree, w, false)
      else add_node fuel tree tree.root (node_new w queue)
