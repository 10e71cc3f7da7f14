-- ===== src/EventTree/Earliest.antt =====
-- `event_tree_read` without assertions: it reads from the queue whose first event is earliest.
use libqtl.Base.{
  ℕ, zero, suc, ◌≤◌, ◌<◌, ◌≡◌, refl, sym, ap, ◌∙◌, false, Option, none, some, List, [], ◌∷◌, ◌++◌,
  arith,
}
use mathlib.Core.List.{nil≢cons, head-eq_of_cons-eq, tail-eq_of_cons-eq}
use libqtl.EventTree.{EventTree, set_right}
use libqtl.EventTree.Read.{leftmost, take_node, take_first, pop_event, read_first, event_tree_read}
use libqtl.EventTree.Memory.{Nodes, World, Run, done, ◌>>=◌, deref}
use libqtl.EventTree.Shape.{Shape, leaf, node, top, Off, Apart, Times, Ordered, Holds, Holds-Agree}
use libqtl.EventTree.Frame.{Agree-put, Clear-above, Clear-Apart, Chain-Off}
use libqtl.EventTree.Insert.{depth}
use libqtl.EventTree.Order.{AllTimes, AllTimes-to_list, chain_list, to_list}
use libqtl.EventTree.Represents.{Represents, addresses}
use libqtl.EventTree.Take.{first, first_time, first_time_least, take, to_list-take, Ordered-take}
use libqtl.EventTree.FirstCases.{leftmost_end, Inside}
use libqtl.EventTree.TakeFirst.{IsBelow, inside}
use libqtl.EventQueue.{event_queue_pop}

module _ (nodes : Nodes) where
  -- The first node has a time of the tree.
  first-time :
      (P : ℕ → Type 0) (l : Shape) (t a : ℕ) (rest : List ℕ) (r : Shape) (p : Option ℕ)
      → Holds nodes p (node l t a rest r)
      → Times P (node l t a rest r)
      → P (nodes (first (node l t a rest r))).timestamp
  unfolding first
  first-time P leaf t a rest r p h k = rw h.1.1 k.1
  first-time P (node l2 t2 a2 rest2 r2) t a rest r p h k =
      first-time P l2 t2 a2 rest2 r2 (nodes (top a rest)).left h.2 k.0

  -- It is not among the nodes that stay.
  first-Apart :
      (l : Shape) (t a : ℕ) (rest : List ℕ) (r : Shape) (p : Option ℕ)
      → Holds nodes p (node l t a rest r)
      → Ordered (node l t a rest r)
      → Apart (first (node l t a rest r)) (take (node l t a rest r))
  unfolding first take
  first-Apart leaf t a [] r p h in_order =
      Clear-Apart nodes r _ a h.3 (Clear-above t _ r in_order.1 (omega (arith, h.1.1)))
  first-Apart leaf t a (b ∷ rest) r p h in_order = (
    tt,
    h.1.3.3,
    Clear-Apart nodes r _ a h.3 (Clear-above t _ r in_order.1 (omega (arith, h.1.1))),
  )
  first-Apart (node l2 t2 a2 rest2 r2) t a rest r p h in_order =
      let l : Shape = node l2 t2 a2 rest2 r2 in
      let earlier : (nodes (first l)).timestamp < t =
        first-time (λ u. u < t) l2 t2 a2 rest2 r2 (nodes (top a rest)).left h.2 in_order.0 in
      (
        first-Apart l2 t2 a2 rest2 r2 (nodes (top a rest)).left h.2 in_order.2,
        Chain-Off nodes t a rest (first l) h.1 (omega (arith, earlier)),
        Clear-Apart nodes r (nodes (top a rest)).right (first l) h.3
            (Clear-above t _ r in_order.1 (omega (arith, earlier))),
      )

  -- From the root, the tree loses its first node.
  record Taken (fuel : ℕ) (tree : EventTree) (s : Shape) : Type 0 where
    pub root' : Option ℕ
    pub nodes' : Nodes
    pub root_at : ℕ
    pub at : tree.root ≡ some root_at
    pub place : ℕ × Option ℕ
    pub walk : leftmost fuel nodes root_at none ≡ done place
    pub takes : take_first tree nodes place ≡ done (record tree { root = root' }, nodes', first s)
    pub holds : Holds nodes' root' (take s)
    pub queues_stay : (x : ℕ) → (nodes' x).queue ≡ (nodes x).queue

  Taken-below :
      (fuel : ℕ) (tree : EventTree) (l : Shape) (t a : ℕ) (rest : List ℕ) (r : Shape)
      → Holds nodes tree.root (node l t a rest r)
      → Ordered (node l t a rest r)
      → depth (node l t a rest r) ≤ fuel
      → IsBelow (node l t a rest r)
      → Taken fuel tree (node l t a rest r)
  Taken-below fuel tree l t a rest r h in_order enough k =
      let i : Inside nodes fuel (top a rest) (node l t a rest r) =
        inside nodes (node l t a rest r) fuel (top a rest) (refl, h.1, h.2, h.3) in_order enough
          k in
      record {
        root' = tree.root;
        nodes' = i.nodes';
        root_at = top a rest;
        at = h.0;
        place = i.place none;
        walk = i.walk none;
        takes = i.takes tree none;
        holds = rw h.0 i.holds;
        queues_stay = i.queues_stay;
      }

  taken :
      (fuel : ℕ) (tree : EventTree) (l : Shape) (t a : ℕ) (rest : List ℕ) (r : Shape)
      → Holds nodes tree.root (node l t a rest r)
      → Ordered (node l t a rest r)
      → depth (node l t a rest r) ≤ fuel
      → Taken fuel tree (node l t a rest r)
  unfolding first take take_first take_node
  taken zero tree l t a rest r h in_order enough = absurd (omega (arith, enough))
  taken (suc fuel) tree leaf t a [] r h in_order enough = record {
    root' = (nodes a).right;
    nodes' = set_right nodes a none;
    root_at = a;
    at = h.0;
    place = (a, none);
    walk = leftmost_end nodes fuel a none h.2;
    takes = rw h.1.0 refl;
    holds =
        Holds-Agree nodes (set_right nodes a none) (nodes a).right r
          (Agree-put nodes a (record (nodes a) { right = none }) r
            (Clear-Apart nodes r (nodes a).right a h.3
              (Clear-above t _ r in_order.1 (omega (arith, h.1.1)))))
          h.3;
    queues_stay = λ x. ground arith;
  }
  taken (suc fuel) tree leaf t a (b ∷ rest) r h in_order enough =
      Taken-below (suc fuel) tree leaf t a (b ∷ rest) r h in_order enough tt
  taken (suc fuel) tree (node l2 t2 a2 rest2 r2) t a rest r h in_order enough =
      Taken-below (suc fuel) tree (node l2 t2 a2 rest2 r2) t a rest r h in_order enough tt

Off-append :
    (x : ℕ) (xs ys : List (ℕ × ℕ))
    → Off x (addresses xs)
    → Off x (addresses ys)
    → Off x (addresses (xs ++ ys))
Off-append x [] ys h k = k
Off-append x (y ∷ xs) ys h k = (h.0, Off-append x xs ys h.1 k)

Off-chain : (x t : ℕ) (xs : List ℕ) → Off x xs → Off x (addresses (chain_list t xs))
Off-chain x t [] h = tt
Off-chain x t (y ∷ xs) h = (h.0, Off-chain x t xs h.1)

Off-to_list : (x : ℕ) (s : Shape) → Apart x s → Off x (addresses (to_list s))
unfolding to_list
Off-to_list x leaf h = tt
Off-to_list x (node l t a rest r) h =
    Off-append x (to_list l) (chain_list t (a ∷ rest) ++ to_list r) (Off-to_list x l h.0) (
      Off-append x (chain_list t (a ∷ rest)) (to_list r) (Off-chain x t (a ∷ rest) h.1)
        (Off-to_list x r h.2))

module _ {Bus : Type 0} where
  -- What a tree is once its first node `x` of time `t` is taken.
  pub record Rest (fuel : ℕ) (tree : EventTree) (w : World Bus) (t x : ℕ) (xs : List (ℕ × ℕ))
      : Type 0 where
    pub root' : Option ℕ
    pub nodes' : Nodes
    pub reads :
        event_tree_read false fuel tree w
        ≡ pop_event fuel
            (record tree { root = root' })
            (record w { nodes = nodes' })
            x
            (event_queue_pop (w.queues (w.nodes x).queue))
    pub rest : Represents nodes' root' xs
    pub absent : Off x (addresses xs)
    pub least : AllTimes (λ u. t ≤ u) xs
    pub queues_stay : (y : ℕ) → (nodes' y).queue ≡ (w.nodes y).queue

  pub first_taken :
      (fuel : ℕ) (tree : EventTree) (w : World Bus) (s : Shape) (t x : ℕ) (xs : List (ℕ × ℕ))
      → Holds w.nodes tree.root s
      → Ordered s
      → to_list s ≡ (t, x) ∷ xs
      → depth s ≤ fuel
      → Rest fuel tree w t x xs
  unfolding to_list event_tree_read read_first
  first_taken fuel tree w leaf t x xs h in_order listed enough = absurd (nil≢cons listed)
  first_taken fuel tree w (node l u a rest r) t x xs h in_order listed enough = record {
    root' = k.root';
    nodes' = k.nodes';
    reads =
        ap (λ p. deref p >>= λ root. leftmost fuel w.nodes root none >>= at_place) k.at
        ∙ ap (λ r. r >>= at_place) k.walk
        ∙ ap (λ r. r >>= at_taken) k.takes
        ∙ ap (popped (first s)) (k.queues_stay (first s))
        ∙ ap (λ y. popped y (w.nodes y).queue) same_node;
    rest = record {
      shape = take s;
      holds = k.holds;
      in_order = Ordered-take s in_order;
      listed = same_rest;
    };
    absent =
        rw⁻¹ (same_node, same_rest)
          (Off-to_list (first s) (take s) (first-Apart w.nodes l u a rest r tree.root h in_order));
    least =
        rw⁻¹ (same_time, same_rest)
          (AllTimes-to_list (λ v. first_time s ≤ v) (take s)
            (first_time_least l u a rest r in_order));
    queues_stay = k.queues_stay;
  }
    where
      s : Shape
      s = node l u a rest r

      k : Taken w.nodes fuel tree s
      k = taken w.nodes fuel tree l u a rest r h in_order enough

      at_taken : EventTree × Nodes × ℕ → Run (EventTree × World Bus × Option ℕ)
      at_taken (tree', nodes, y) =
          pop_event fuel tree' (record w { nodes = nodes }) y
            (event_queue_pop (w.queues (nodes y).queue))

      at_place : ℕ × Option ℕ → Run (EventTree × World Bus × Option ℕ)
      at_place place = take_first tree w.nodes place >>= at_taken

      popped : ℕ → ℕ → Run (EventTree × World Bus × Option ℕ)
      popped y queue =
          pop_event fuel (record tree { root = k.root' }) (record w { nodes = k.nodes' }) y
            (event_queue_pop (w.queues queue))

      same : (first_time s, first s) ∷ to_list (take s) ≡ (t, x) ∷ xs
      same = sym (to_list-take l u a rest r) ∙ listed

      same_node : first s ≡ x
      same_node = ap (λ p. p.1) (head-eq_of_cons-eq same)

      same_time : first_time s ≡ t
      same_time = ap (λ p. p.0) (head-eq_of_cons-eq same)

      same_rest : to_list (take s) ≡ xs
      same_rest = tail-eq_of_cons-eq same
