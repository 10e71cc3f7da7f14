-- ===== src/EventTree/Steps.antt =====
-- One step of the walk of `event_tree_rebalance`, in either direction.
use libqtl.Base.{
  ℕ, zero, suc, ◌≤◌, ◌<◌, ◌≡◌, refl, sym, Bool, true, false, some, List, ◌∷◌, arith, ltb, ◌==◌,
  Bool-cases, inl, inr,
}
use mathlib.Core.Path.{subst}
use libqtl.EventTree.Memory.{Nodes}
use libqtl.EventTree.Shape.{Shape, leaf, node, top, Off, Apart, Times, Ordered, Chain, Holds}
use libqtl.EventTree.Chains.{IsFresh}
use libqtl.EventTree.Insert.{depth, Inner}
use libqtl.EventTree.InsertRight.{right_leaf, right_deeper, right_found}
use libqtl.EventTree.InsertLeft.{left_leaf, left_deeper, left_found}

abbrev pub at_root : ℕ → Shape → Bool
at_root u leaf = false
at_root u (node l t a rest r) = t == u

pub eq_of : (m n : ℕ) → (m == n) ≡ true → m ≡ n
eq_of m n e = ground arith

pub before : (m n : ℕ) → ltb m n ≡ true → m < n
before m n e = ground arith

pub after : (m n : ℕ) → (m == n) ≡ false → ltb m n ≡ false → n < m
after m n e k = ground arith

module _ (nodes : Nodes) (item u : ℕ) (fresh : IsFresh nodes item u) where
  module _ (t a : ℕ) (rest : List ℕ) (chained : Chain nodes t a rest)
      (off : Off item (a ∷ rest)) where
    pub left_step :
        (l r : Shape) (fuel : ℕ)
        → u < t
        → depth l ≤ fuel
        → Holds nodes (nodes (top a rest)).left l
        → Apart item l
        → Times (λ v. v < t) l
        → Ordered l
        → Holds nodes (nodes (top a rest)).right r
        → Apart item r
        → Times (λ v. t < v) r
        → ((c : ℕ)
            → Holds nodes (some c) l
            → at_root u l ≡ false
            → Inner nodes item u fresh fuel c l)
        → Inner nodes item u fresh (suc fuel) (top a rest) (node l t a rest r)
    left_step leaf r fuel before enough no_left _ _ _ hr off_r above deeper =
        left_leaf nodes item u fresh r t a rest chained off before fuel hr above no_left
    left_step (node l2 t2 a2 rest2 r2) r zero before enough hl off_l below in_order hr off_r above
          deeper =
        absurd (omega (arith, enough))
    left_step (node l2 t2 a2 rest2 r2) r (suc fuel) before enough hl off_l below in_order hr off_r
          above deeper =
        elim (Bool-cases (t2 == u)) [
          | inl e ↦
              subst
                (λ v.
                  Holds nodes (nodes (top a rest)).left (node l2 v a2 rest2 r2)
                  → Ordered (node l2 v a2 rest2 r2)
                  → Times (λ v. v < t) (node l2 v a2 rest2 r2)
                  → Inner nodes item u fresh (suc (suc fuel)) (top a rest)
                      (node (node l2 v a2 rest2 r2) t a rest r))
                (sym (eq_of t2 u e))
                (λ h in_order below.
                  left_found nodes item u fresh r t a rest chained off before fuel a2 l2 rest2 r2 hr
                    off_r above (refl, h.1, h.2, h.3) off_l in_order below h.0)
                hl in_order below
          | inr e ↦
              left_deeper nodes item u fresh r t a rest chained off before (suc fuel) (top a2 rest2)
                (node l2 t2 a2 rest2 r2) hr off_r above (refl, hl.1, hl.2, hl.3) below hl.0
                (deeper (top a2 rest2) (refl, hl.1, hl.2, hl.3) e)
        ]

    pub right_step :
        (l r : Shape) (fuel : ℕ)
        → t < u
        → depth r ≤ fuel
        → Holds nodes (nodes (top a rest)).left l
        → Apart item l
        → Times (λ v. v < t) l
        → Holds nodes (nodes (top a rest)).right r
        → Apart item r
        → Times (λ v. t < v) r
        → Ordered r
        → ((c : ℕ)
            → Holds nodes (some c) r
            → at_root u r ≡ false
            → Inner nodes item u fresh fuel c r)
        → Inner nodes item u fresh (suc fuel) (top a rest) (node l t a rest r)
    right_step l leaf fuel before enough hl off_l below no_right _ _ _ deeper =
        right_leaf nodes item u fresh l t a rest chained off before fuel hl below no_right
    right_step l (node l2 t2 a2 rest2 r2) zero before enough hl off_l below hr off_r above in_order
          deeper =
        absurd (omega (arith, enough))
    right_step l (node l2 t2 a2 rest2 r2) (suc fuel) before enough hl off_l below hr off_r above
          in_order deeper =
        elim (Bool-cases (t2 == u)) [
          | inl e ↦
              subst
                (λ v.
                  Holds nodes (nodes (top a rest)).right (node l2 v a2 rest2 r2)
                  → Ordered (node l2 v a2 rest2 r2)
                  → Times (λ v. t < v) (node l2 v a2 rest2 r2)
                  → Inner nodes item u fresh (suc (suc fuel)) (top a rest)
                      (node l t a rest (node l2 v a2 rest2 r2)))
                (sym (eq_of t2 u e))
                (λ h in_order above.
                  right_found nodes item u fresh l t a rest chained off before fuel a2 l2 rest2 r2
                    hl off_l below (refl, h.1, h.2, h.3) off_r in_order above h.0)
                hr in_order above
          | inr e ↦
              right_deeper nodes item u fresh l t a rest chained off before (suc fuel)
                (top a2 rest2) (node l2 t2 a2 rest2 r2) hl off_l below (refl, hr.1, hr.2, hr.3)
                above hr.0 (deeper (top a2 rest2) (refl, hr.1, hr.2, hr.3) e)
        ]
