-- ===== src/EventTree/Rebalance.antt =====
-- `event_tree_rebalance` on a tree in order: the item gets into it at its time, last of its chain.
use libqtl.Base.{
  ℕ, zero, suc, ◌≤◌, ◌≡◌, refl, sym, ap, ◌∙◌, false, Option, none, some, List, arith, ltb, ◌==◌,
  Bool-cases, inl, inr,
}
use mathlib.Core.Option.{some-injective, none-ne-some}
use mathlib.Core.Path.{subst}
use libqtl.EventTree.{EventTree, Place, found, left_of, right_of, chain, link, put_in, insert_from}
use libqtl.EventTree.Memory.{Nodes, done}
use libqtl.EventTree.Shape.{Shape, leaf, node, top, Apart, Ordered, Holds}
use libqtl.EventTree.Frame.{Clear-above, Clear-below, top-time}
use libqtl.EventTree.Chains.{IsFresh, Holds-fresh, Holds-chain}
use libqtl.EventTree.Insert.{insert, insert_same, descend_found, depth, Inner}
use libqtl.EventTree.Steps.{at_root, eq_of, before, after, left_step, right_step}

module _ (nodes : Nodes) (item u : ℕ) (fresh : IsFresh nodes item u) where
  -- The walk from a node of another time.
  inner :
      (s : Shape) (fuel c : ℕ)
      → Holds nodes (some c) s
      → Apart item s
      → Ordered s
      → depth s ≤ fuel
      → at_root u s ≡ false
      → Inner nodes item u fresh fuel c s
  inner leaf fuel c h off in_order enough e = absurd (none-ne-some c (sym h))
  inner (node l t a rest r) zero c h off in_order enough e = absurd (omega (arith, enough))
  inner (node l t a rest r) (suc fuel) c (at, chained, hl, hr) (off_l, off, off_r)
        (below, above, in_l, in_r) enough e =
      rw (some-injective c (top a rest) at) (elim (Bool-cases (ltb t u)) [
        | inl k ↦
            right_step nodes item u fresh t a rest chained off l r fuel (before t u k)
              (omega (arith, enough)) hl off_l below hr off_r above in_r
              (λ d held. inner r fuel d held off_r in_r (omega (arith, enough)))
        | inr k ↦
            left_step nodes item u fresh t a rest chained off l r fuel (after t u e k)
              (omega (arith, enough)) hl off_l below in_l hr off_r above
              (λ d held. inner l fuel d held off_l in_l (omega (arith, enough)))
      ])

  -- The queues of the nodes stay.
  put_in-queue :
      (tree : EventTree) (place : Place) (x : ℕ)
      → ((put_in tree nodes item place).1 x).queue ≡ (nodes x).queue
  unfolding put_in chain link
  put_in-queue tree (right_of c) x = ground arith
  put_in-queue tree (left_of c) x = ground arith
  put_in-queue tree (found c none) x = ground arith
  put_in-queue tree (found c (some p)) x = ground arith

  -- From the root.
  pub record Inserted (fuel : ℕ) (tree : EventTree) (s : Shape) : Type 0 where
    pub root' : Option ℕ
    pub nodes' : Nodes
    pub runs :
        insert_from fuel tree nodes item u tree.root ≡ done (record tree { root = root' }, nodes')
    pub holds : Holds nodes' root' (insert u item s)
    pub queues_stay : (x : ℕ) → (nodes' x).queue ≡ (nodes x).queue

  insert_same_time :
      (fuel : ℕ) (tree : EventTree) (l : Shape) (a : ℕ) (rest : List ℕ) (r : Shape)
      → Holds nodes tree.root (node l u a rest r)
      → Apart item (node l u a rest r)
      → Ordered (node l u a rest r)
      → Inserted (suc fuel) tree (node l u a rest r)
  unfolding insert_from put_in link
  insert_same_time fuel tree l a rest r h off (low, high, _, _) = record {
    root' = some item;
    nodes' = chain nodes item (top a rest);
    runs =
        rw
          (
            h.0,
            descend_found nodes u (top a rest) none fuel u (top-time nodes u a rest h.1.1 h.1.3)
                (ground arith),
          )
          refl;
    holds = rw (insert_same l u a item rest r) (
        Holds-chain nodes item u fresh l a rest r tree.root h off
          (Clear-below u u l low (omega arith)) (Clear-above u u r high (omega arith)));
    queues_stay = put_in-queue tree (found (top a rest) none);
  }

  insert_other_time :
      (fuel : ℕ) (tree : EventTree) (s : Shape) (c : ℕ)
      → tree.root ≡ some c
      → Inner nodes item u fresh fuel c s
      → Inserted fuel tree s
  unfolding insert_from
  insert_other_time fuel tree s c at i = record {
    root' = tree.root;
    nodes' = i.nodes';
    runs = ap (insert_from fuel tree nodes item u) at ∙ from_there;
    holds = rw at i.holds;
    queues_stay = λ x. ap (λ r. (r.1 x).queue) (sym (i.writes tree)) ∙ put_in-queue tree i.place x;
  }
    where
      from_there : insert_from fuel tree nodes item u (some c) ≡ done (tree, i.nodes')
      from_there = rw (i.walk none, i.writes tree) refl

  pub insert_from-Inserted :
      (fuel : ℕ) (tree : EventTree) (s : Shape)
      → Holds nodes tree.root s
      → Apart item s
      → Ordered s
      → depth s ≤ fuel
      → Inserted fuel tree s
  unfolding insert insert_from
  insert_from-Inserted fuel tree leaf no_root off in_order enough = record {
    root' = some item;
    nodes' = nodes;
    runs = rw no_root refl;
    holds = Holds-fresh nodes item u fresh;
    queues_stay = λ x. refl;
  }
  insert_from-Inserted zero tree (node l t a rest r) h off in_order enough =
      absurd (omega (arith, enough))
  insert_from-Inserted (suc fuel) tree (node l t a rest r) h off in_order enough =
      elim (Bool-cases (t == u)) [
        | inl e ↦
            subst
              (λ v.
                Holds nodes tree.root (node l v a rest r)
                → Ordered (node l v a rest r)
                → Inserted (suc fuel) tree (node l v a rest r))
              (sym (eq_of t u e))
              (λ h in_order. insert_same_time fuel tree l a rest r h off in_order) h in_order
        | inr e ↦ insert_other_time (suc fuel) tree (node l t a rest r) (top a rest) h.0 (
            inner (node l t a rest r) (suc fuel) (top a rest) (refl, h.1, h.2, h.3) off in_order
              enough e)
      ]
