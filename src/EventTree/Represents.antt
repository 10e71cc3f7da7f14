-- ===== src/EventTree/Represents.antt =====
-- `event_tree_rebalance` as the insertion into a sorted list of nodes.
use libqtl.Base.{
  ℕ, ◌≤◌, ◌≡◌, refl, ap, ◌∙◌, Option, some, List, [], ◌∷◌, ◌++◌, length, length-append, arith,
}
use libqtl.EventTree.{EventTree, event_tree_rebalance, fresh_node}
use libqtl.EventTree.Memory.{TreeNode, Nodes, World, done, put, modify}
use libqtl.EventTree.Shape.{Shape, leaf, node, Off, Apart, Ordered, Holds, Holds-Agree}
use libqtl.EventTree.Frame.{put_self, Agree-put}
use libqtl.EventTree.Chains.{IsFresh}
use libqtl.EventTree.Insert.{insert, depth}
use libqtl.EventTree.Rebalance.{Inserted, insert_from-Inserted}
use libqtl.EventTree.Order.{chain_list, to_list, insert_sorted, to_list-insert, Ordered-insert}
use libqtl.EventQueue.{event_queue_peek_time}

-- From the pointer on, a tree in order has these times and nodes, from left to right.
pub record Represents (nodes : Nodes) (p : Option ℕ) (xs : List (ℕ × ℕ)) : Type 0 where
  pub shape : Shape
  pub holds : Holds nodes p shape
  pub in_order : Ordered shape
  pub listed : to_list shape ≡ xs

abbrev pub addresses : List (ℕ × ℕ) → List ℕ
addresses [] = []
addresses ((t, x) ∷ xs) = x ∷ addresses xs

Off-left : (x : ℕ) (xs ys : List (ℕ × ℕ)) → Off x (addresses (xs ++ ys)) → Off x (addresses xs)
Off-left x [] ys h = tt
Off-left x (y ∷ xs) ys h = (h.0, Off-left x xs ys h.1)

Off-right : (x : ℕ) (xs ys : List (ℕ × ℕ)) → Off x (addresses (xs ++ ys)) → Off x (addresses ys)
Off-right x [] ys h = h
Off-right x (y ∷ xs) ys h = Off-right x xs ys h.1

Off-chain_list : (x t : ℕ) (xs : List ℕ) → Off x (addresses (chain_list t xs)) → Off x xs
Off-chain_list x t [] h = tt
Off-chain_list x t (y ∷ xs) h = (h.0, Off-chain_list x t xs h.1)

Apart-addresses : (x : ℕ) (s : Shape) → Off x (addresses (to_list s)) → Apart x s
unfolding to_list
Apart-addresses x leaf h = tt
Apart-addresses x (node l t a rest r) h =
    let c : List (ℕ × ℕ) = chain_list t (a ∷ rest) in
    let k : Off x (addresses (c ++ to_list r)) = Off-right x (to_list l) (c ++ to_list r) h in
    (
      Apart-addresses x l (Off-left x (to_list l) (c ++ to_list r) h),
      Off-chain_list x t (a ∷ rest) (Off-left x c (to_list r) k),
      Apart-addresses x r (Off-right x c (to_list r) k),
    )

pub Represents-put :
    (nodes : Nodes) (a : ℕ) (v : TreeNode) (p : Option ℕ) (xs : List (ℕ × ℕ))
    → Off a (addresses xs)
    → Represents nodes p xs
    → Represents (put nodes a v) p xs
Represents-put nodes a v p xs off rep =
    let apart : Apart a rep.shape = Apart-addresses a rep.shape (rw rep.listed off) in
    record {
      shape = rep.shape;
      holds =
          Holds-Agree nodes (put nodes a v) p rep.shape (Agree-put nodes a v rep.shape apart)
            rep.holds;
      in_order = rep.in_order;
      listed = rep.listed;
    }

pub depth_le : (s : Shape) → depth s ≤ length (to_list s)
unfolding to_list
depth_le leaf = omega arith
depth_le (node l t a rest r) = omega (
  arith,
  depth_le l,
  depth_le r,
  length-append (to_list l) (chain_list t (a ∷ rest) ++ to_list r),
  length-append (chain_list t (a ∷ rest)) (to_list r),
)

fresh_node-IsFresh :
    (nodes : Nodes) (item t : ℕ) → IsFresh (modify nodes item (fresh_node item t)) item t
fresh_node-IsFresh nodes item t =
    let e : modify nodes item (fresh_node item t) item ≡ fresh_node item t (nodes item) =
      put_self nodes item (fresh_node item t (nodes item)) in
    record {
      time_set = ap TreeNode.timestamp e;
      no_left = ap TreeNode.left e;
      no_right = ap TreeNode.right e;
      no_prev = ap TreeNode.prev e;
      head_set = ap TreeNode.head e;
    }

fresh_node-queue :
    (nodes : Nodes) (item t x : ℕ)
    → (modify nodes item (fresh_node item t) x).queue ≡ (nodes x).queue
fresh_node-queue nodes item t x = ground arith

module _ {Bus : Type 0} where
  -- On a tree in order, a node outside it whose queue has a first event gets into the tree at the time of
  -- that event, behind the nodes of the same time; the other nodes keep their times and their order, every
  -- node keeps its queue, and nothing else changes. Fuel for the tree's length is enough.
  pub event_tree_rebalance_lem :
      (fuel : ℕ) (tree : EventTree) (w : World Bus) (item t : ℕ) (xs : List (ℕ × ℕ))
      → event_queue_peek_time w.events (w.queues (w.nodes item).queue) ≡ some t
      → Represents w.nodes tree.root xs
      → Off item (addresses xs)
      → length xs ≤ fuel
      → (root' : Option ℕ) × (nodes' : Nodes) × (event_tree_rebalance fuel tree w item
          ≡ done (record tree { root = root' }, record w { nodes = nodes' }))
        × Represents nodes' root' (insert_sorted t item xs)
        × ((x : ℕ) → (nodes' x).queue ≡ (w.nodes x).queue)
  unfolding event_tree_rebalance
  event_tree_rebalance_lem fuel tree w item t xs time rep off enough = (
    i.root',
    i.nodes',
    rw (time, i.runs) refl,
    record {
      shape = insert t item rep.shape;
      holds = i.holds;
      in_order = Ordered-insert t item rep.shape rep.in_order;
      listed = to_list-insert t item rep.shape rep.in_order ∙ ap (insert_sorted t item) rep.listed;
    },
    λ x. i.queues_stay x ∙ fresh_node-queue w.nodes item t x,
  )
    where
      prepared : Nodes
      prepared = modify w.nodes item (fresh_node item t)

      apart : Apart item rep.shape
      apart = Apart-addresses item rep.shape (rw rep.listed off)

      i : Inserted prepared item t (fresh_node-IsFresh w.nodes item t) fuel tree rep.shape
      i =
          insert_from-Inserted prepared item t (fresh_node-IsFresh w.nodes item t) fuel tree
            rep.shape
            (Holds-Agree w.nodes prepared tree.root rep.shape
              (Agree-put w.nodes item (fresh_node item t (w.nodes item)) rep.shape apart) rep.holds)
            apart rep.in_order (omega (arith, depth_le rep.shape, ap length rep.listed, enough))
