-- ===== src/EventTree/TakeFirst.antt =====
-- `event_tree_read`: the walk to the first node, which leaves the tree.
use libqtl.Base.{ℕ, zero, suc, ◌≤◌, refl, some, [], ◌∷◌, arith}
use mathlib.Core.Option.{some-injective}
use libqtl.EventTree.Memory.{Nodes}
use libqtl.EventTree.Shape.{Shape, leaf, node, top, Ordered, Holds}
use libqtl.EventTree.Insert.{depth}
use libqtl.EventTree.Take.{take}
use libqtl.EventTree.FirstCases.{Inside, first_of_chain, first_alone, first_deeper}

-- The first node is not the node of the root.
abbrev pub IsBelow : Shape → Type 0
IsBelow leaf = ⊥
IsBelow (node leaf t a [] r) = ⊥
IsBelow (node leaf t a (b ∷ rest) r) = Unit
IsBelow (node (node l2 t2 a2 rest2 r2) t a rest r) = Unit

module _ (nodes : Nodes) where
  pub inside :
      (s : Shape) (fuel c : ℕ)
      → Holds nodes (some c) s
      → Ordered s
      → depth s ≤ fuel
      → IsBelow s
      → Inside nodes fuel c s
  unfolding take
  inside leaf fuel c h in_order enough k = absurd k
  inside (node leaf t a [] r) fuel c h in_order enough k = absurd k
  inside (node l t a rest r) zero c h in_order enough k = absurd (omega (arith, enough))
  inside (node leaf t a (b ∷ rest) r) (suc fuel) c h in_order enough k =
      rw (some-injective c (top b rest) h.0)
        (first_of_chain nodes fuel t a b rest r (refl, h.1, h.2, h.3) in_order.1)
  inside (node (node leaf t2 a2 [] r2) t a rest r) (suc zero) c h in_order enough k =
      absurd (omega (arith, enough))
  inside (node (node leaf t2 a2 [] r2) t a rest r) (suc (suc fuel)) c h in_order enough k =
      rw (some-injective c (top a rest) h.0)
        (first_alone nodes fuel t a rest r t2 a2 r2 (refl, h.1, h.2, h.3) in_order)
  inside (node (node leaf t2 a2 (b ∷ rest2) r2) t a rest r) (suc fuel) c h in_order enough k =
      let hl : Holds nodes (some (top b rest2)) (node leaf t2 a2 (b ∷ rest2) r2) =
        (refl, h.2.1, h.2.2, h.2.3) in
      rw (some-injective c (top a rest) h.0) (
        first_deeper nodes fuel t a rest r (top b rest2) t2 a2 leaf (b ∷ rest2) r2
          (refl, h.1, h.2, h.3) in_order h.2.0 hl refl
          (inside (node leaf t2 a2 (b ∷ rest2) r2) fuel (top b rest2) hl in_order.2
            (omega (arith, enough)) tt))
  inside (node (node (node l3 t3 a3 rest3 r3) t2 a2 rest2 r2) t a rest r) (suc fuel) c h in_order
        enough k =
      let hl : Holds nodes (some (top a2 rest2)) (node (node l3 t3 a3 rest3 r3) t2 a2 rest2 r2) =
        (refl, h.2.1, h.2.2, h.2.3) in
      rw (some-injective c (top a rest) h.0) (
        first_deeper nodes fuel t a rest r (top a2 rest2) t2 a2 (node l3 t3 a3 rest3 r3) rest2 r2
          (refl, h.1, h.2, h.3) in_order h.2.0 hl refl
          (inside (node (node l3 t3 a3 rest3 r3) t2 a2 rest2 r2) fuel (top a2 rest2) hl in_order.2
            (omega (arith, enough)) tt))
