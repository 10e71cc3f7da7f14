-- ===== src/EventTree/Insert.antt =====
-- `event_tree_rebalance`: the walk down the tree, and the item in its place.
use libqtl.Base.{
  ℕ, suc, ◌+◌, ◌<◌, ◌≡◌, ◌≢◌, refl, sym, true, false, Option, none, some, List, [], ◌∷◌, ◌++◌,
  arith, ltb, ◌==◌, if◌then◌else◌,
}
use libqtl.EventTree.{
  EventTree, Place, found, left_of, right_of, descend, set_right, set_left, link, put_in,
}
use libqtl.EventTree.Memory.{TreeNode, Nodes, done, put}
use libqtl.EventTree.Frame.{put_other, Off-top, Clear-above, Clear-below, Clear-Apart, top-time}
use libqtl.EventTree.Shape.{Off, Times, Chain, top, Shape, leaf, node, Apart, Holds}
use libqtl.EventTree.Chains.{IsFresh}

-- The tree with the item: a new chain, or the last of the chain of its time.
unfoldable pub insert : ℕ → ℕ → Shape → Shape
insert u item leaf = node leaf u item [] leaf
insert u item (node l t a rest r) =
    if t == u
    then node l t a (rest ++ item ∷ []) r
    else if ltb t u
    then node l t a rest (insert u item r)
    else node (insert u item l) t a rest r

-- More than the longest walk.
abbrev pub depth : Shape → ℕ
depth leaf = 0
depth (node l t a rest r) = suc (depth l + depth r)

module _ (nodes : Nodes) (u c : ℕ) (parent : Option ℕ) (fuel t : ℕ)
    (at : (nodes c).timestamp ≡ t) where
  pub descend_found : (t == u) ≡ true → descend (suc fuel) nodes u c parent ≡ done (found c parent)
  unfolding descend
  descend_found e = rw (at, e, descend) refl

  module _ (e : (t == u) ≡ false) where
    pub descend_right :
        (d : ℕ)
        → ltb t u ≡ true
        → (nodes c).right ≡ some d
        → descend (suc fuel) nodes u c parent ≡ descend fuel nodes u d (some c)
    unfolding descend
    descend_right d f h = rw (at, e, f, h, descend) refl

    pub descend_right_none :
        ltb t u ≡ true
        → (nodes c).right ≡ none
        → descend (suc fuel) nodes u c parent ≡ done (right_of c)
    unfolding descend
    descend_right_none f h = rw (at, e, f, h, descend) refl

    pub descend_left :
        (d : ℕ)
        → ltb t u ≡ false
        → (nodes c).left ≡ some d
        → descend (suc fuel) nodes u c parent ≡ descend fuel nodes u d (some c)
    unfolding descend
    descend_left d f h = rw (at, e, f, h, descend) refl

    pub descend_left_none :
        ltb t u ≡ false
        → (nodes c).left ≡ none
        → descend (suc fuel) nodes u c parent ≡ done (left_of c)
    unfolding descend
    descend_left_none f h = rw (at, e, f, h, descend) refl

pub insert_same :
    (l : Shape) (u a item : ℕ) (rest : List ℕ) (r : Shape)
    → insert u item (node l u a rest r) ≡ node l u a (rest ++ item ∷ []) r
unfolding insert
insert_same l u a item rest r = let e : (u == u) ≡ true = ground arith in rw e refl

pub link_right :
    (tree : EventTree) (nodes : Nodes) (item p : ℕ)
    → (nodes p).timestamp < (nodes item).timestamp
    → link tree nodes item (some p) ≡ (tree, set_right nodes p (some item))
unfolding link
link_right tree nodes item p h =
    let e : ltb (nodes p).timestamp (nodes item).timestamp ≡ true = ground arith in rw e refl

pub link_left :
    (tree : EventTree) (nodes : Nodes) (item p : ℕ)
    → (nodes item).timestamp < (nodes p).timestamp
    → link tree nodes item (some p) ≡ (tree, set_left nodes p (some item))
unfolding link
link_left tree nodes item p h =
    let e : ltb (nodes p).timestamp (nodes item).timestamp ≡ false = ground arith in rw e refl

-- A node's place in the tree among the others, by its time.
module _ (nodes : Nodes) (t a : ℕ) (rest : List ℕ) where
  pub put_outside : (v : TreeNode) (x : ℕ) → Off x (a ∷ rest) → put nodes (top a rest) v x ≡ nodes x
  put_outside v x k = put_other nodes (top a rest) v x (Off-top x a rest k)

  module _ (chained : Chain nodes t a rest) where
    pub top_at : (nodes (top a rest)).timestamp ≡ t
    top_at = top-time nodes t a rest chained.1 chained.3

    pub Apart-above :
        (s : Shape) (p : Option ℕ) → Holds nodes p s → Times (λ v. t < v) s → Apart (top a rest) s
    Apart-above s p h k =
        Clear-Apart nodes s p (top a rest) h (Clear-above t _ s k (omega (arith, top_at)))

    pub Apart-below :
        (s : Shape) (p : Option ℕ) → Holds nodes p s → Times (λ v. v < t) s → Apart (top a rest) s
    Apart-below s p h k =
        Clear-Apart nodes s p (top a rest) h (Clear-below t _ s k (omega (arith, top_at)))

pub top_ne : (item a : ℕ) (rest : List ℕ) → Off item (a ∷ rest) → top a rest ≢ item
top_ne item a rest off e = Off-top item a rest off (sym e)

module _ (nodes : Nodes) (item u : ℕ) (fresh : IsFresh nodes item u) where
  -- The walk from `c` ends at a place below it, and the item is put there, in the tree `s` of `c`.
  pub record Inner (fuel c : ℕ) (s : Shape) : Type 0 where
    pub place : Place
    pub nodes' : Nodes
    pub walk : (parent : Option ℕ) → descend fuel nodes u c parent ≡ done place
    pub writes : (tree : EventTree) → put_in tree nodes item place ≡ (tree, nodes')
    pub holds : Holds nodes' (some c) (insert u item s)
    pub outside : (x : ℕ) → item ≢ x → Apart x s → nodes' x ≡ nodes x
