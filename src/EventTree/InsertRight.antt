-- ===== src/EventTree/InsertRight.antt =====
-- The walk to the right of a node, for an item of a later time.
use libqtl.Base.{
  ℕ, suc, ◌<◌, ◌≡◌, ◌≢◌, refl, sym, ap, ◌∙◌, true, false, none, some, List, [], ◌∷◌, ◌++◌, arith,
  ltb, ◌==◌,
}
use libqtl.EventTree.{EventTree, found, right_of, chain, set_right, link, put_in}
use libqtl.EventTree.Memory.{TreeNode, Nodes}
use libqtl.EventTree.Shape.{
  Shape, leaf, node, top, Off, Apart, Times, Ordered, Chain, Holds, Holds-Agree, Chain-Same, Same,
}
use libqtl.EventTree.Frame.{
  put_other, Off-top, Off-append, Agree-put, Times-imp, Clear, Clear-above, Clear-below,
  Clear-Apart, top-time, Chain-outside, Agree-outside, Chain-Off,
}
use libqtl.EventTree.Chains.{
  IsFresh, IsFresh-put, Holds-fresh, Holds-set_right, Holds-chain, chain_other, chain_item,
  Agree-chain, Same-chain,
}
use libqtl.EventTree.Insert.{
  top_at, top_ne, Apart-above, Apart-below, put_outside, insert, insert_same, link_right,
  descend_found, descend_right, descend_right_none, Inner,
}

module _ (nodes : Nodes) (item u : ℕ) (fresh : IsFresh nodes item u) where
  module _ (l : Shape) (t a : ℕ) (rest : List ℕ) (chained : Chain nodes t a rest)
      (off : Off item (a ∷ rest)) where
    module _ (before : t < u) where
      differs : (t == u) ≡ false
      differs = ground arith

      goes_right : ltb t u ≡ true
      goes_right = ground arith

      insert_right :
          (r : Shape) → insert u item (node l t a rest r) ≡ node l t a rest (insert u item r)
      unfolding insert
      insert_right r = rw (differs, goes_right) refl

      pub right_leaf :
          (fuel : ℕ)
          → Holds nodes (nodes (top a rest)).left l
          → Times (λ v. v < t) l
          → (nodes (top a rest)).right ≡ none
          → Inner nodes item u fresh (suc fuel) (top a rest) (node l t a rest leaf)
      unfolding put_in insert
      right_leaf fuel hl below no_right = record {
        place = right_of (top a rest);
        nodes' = set_right nodes (top a rest) (some item);
        walk = λ parent.
            descend_right_none nodes u (top a rest) parent fuel t (top_at nodes t a rest chained)
              differs goes_right no_right;
        writes = λ tree. refl;
        holds = rw (insert_right leaf) (
            Holds-set_right nodes t a rest (some item) chained l (node leaf u item [] leaf) hl
              (Apart-below nodes t a rest chained l _ hl below)
              (Holds-fresh (set_right nodes (top a rest) (some item)) item u (
                IsFresh-put nodes item u (top a rest)
                  (record (nodes (top a rest)) { right = some item }) (top_ne item a rest off)
                  fresh)));
        outside = λ x ne apart.
            put_outside nodes t a rest (record (nodes (top a rest)) { right = some item }) x
              apart.1;
      }

      pub right_deeper :
          (fuel c : ℕ) (r : Shape)
          → Holds nodes (nodes (top a rest)).left l
          → Apart item l
          → Times (λ v. v < t) l
          → Holds nodes (some c) r
          → Times (λ v. t < v) r
          → (nodes (top a rest)).right ≡ some c
          → Inner nodes item u fresh fuel c r
          → Inner nodes item u fresh (suc fuel) (top a rest) (node l t a rest r)
      right_deeper fuel c r hl off_l below hr above at inner =
          let same_top : inner.nodes' (top a rest) ≡ nodes (top a rest) =
            inner.outside (top a rest) (Off-top item a rest off)
              (Apart-above nodes t a rest chained r (some c) hr above) in
          record {
            place = inner.place;
            nodes' = inner.nodes';
            walk = λ parent.
                descend_right nodes u (top a rest) parent fuel t (top_at nodes t a rest chained)
                  differs c goes_right at
                ∙ inner.walk (some (top a rest));
            writes = inner.writes;
            holds = rw (insert_right r) (
              refl,
              Chain-Same nodes inner.nodes' t a rest
                  (Chain-outside nodes inner.nodes' (λ x. item ≢ x) r (some c) hr inner.outside t a
                    rest chained off (Clear-above t t r above (omega arith)))
                  chained,
              rw (ap TreeNode.left same_top) (
                  Holds-Agree nodes inner.nodes' (nodes (top a rest)).left l
                    (Agree-outside nodes inner.nodes' (λ x. item ≢ x) r (some c) hr inner.outside l
                      (nodes (top a rest)).left hl off_l
                      (Times-imp (λ v. v < t) (λ v. Clear v r) l
                        (λ v k. Clear-above t v r above (omega (arith, k))) below))
                    hl),
              rw (ap TreeNode.right same_top ∙ at) inner.holds,
            );
            outside = λ x ne apart. inner.outside x ne apart.2;
          }

      pub right_found :
          (fuel a2 : ℕ) (l2 : Shape) (rest2 : List ℕ) (r2 : Shape)
          → Holds nodes (nodes (top a rest)).left l
          → Apart item l
          → Times (λ v. v < t) l
          → Holds nodes (some (top a2 rest2)) (node l2 u a2 rest2 r2)
          → Apart item (node l2 u a2 rest2 r2)
          → Ordered (node l2 u a2 rest2 r2)
          → Times (λ v. t < v) (node l2 u a2 rest2 r2)
          → (nodes (top a rest)).right ≡ some (top a2 rest2)
          → Inner nodes item u fresh
              (suc (suc fuel))
              (top a rest)
              (node l t a rest (node l2 u a2 rest2 r2))
      unfolding put_in
      right_found fuel a2 l2 rest2 r2 hl off_l below hr off_r (low, high, _, _) above at = record {
        place = found c2 (some (top a rest));
        nodes' = set_right joined (top a rest) (some item);
        walk = λ parent.
            descend_right nodes u (top a rest) parent (suc fuel) t (top_at nodes t a rest chained)
              differs c2 goes_right at
            ∙ descend_found nodes u c2 (some (top a rest)) fuel u
                (top-time nodes u a2 rest2 hr.1.1 hr.1.3) (ground arith);
        writes = λ tree.
            put_in_found tree ∙ link_right tree joined item (top a rest) (omega (arith, ordered));
        holds =
            rw (insert_right (node l2 u a2 rest2 r2), insert_same l2 u a2 item rest2 r2)
              (Holds-set_right joined t a rest (some item)
                (Chain-Same nodes joined t a rest same_chain chained) l
                (node l2 u a2 (rest2 ++ item ∷ []) r2)
                (rw (ap TreeNode.left same_top) (
                  Holds-Agree nodes joined (nodes (top a rest)).left l
                    (Agree-chain nodes item c2 ne2 l off_l apart2) hl))
                (Apart-below nodes t a rest chained l (nodes (top a rest)).left hl below)
                (Holds-Agree joined (set_right joined (top a rest) (some item)) (some item)
                  (node l2 u a2 (rest2 ++ item ∷ []) r2)
                  (Agree-put joined (top a rest)
                    (record (joined (top a rest)) { right = some item })
                    (node l2 u a2 (rest2 ++ item ∷ []) r2)
                    (
                      apart.0,
                      Off-append (top a rest) (a2 ∷ rest2) item apart.1 (top_ne item a rest off),
                      apart.2,
                    ))
                  (Holds-chain nodes item u fresh l2 a2 rest2 r2 (some c2) hr off_r
                    (Clear-below u u l2 low (omega arith))
                    (Clear-above u u r2 high (omega arith)))));
        outside = λ x ne off_x.
            put_other joined (top a rest) (record (joined (top a rest)) { right = some item }) x
              (Off-top x a rest off_x.1)
            ∙ chain_other nodes item c2 ne2 x (λ e. ne (sym e)) (Off-top x a2 rest2 off_x.2.1);
      }
        where
          c2 : ℕ
          c2 = top a2 rest2

          joined : Nodes
          joined = chain nodes item c2

          ne2 : c2 ≢ item
          ne2 e = Off-top item a2 rest2 off_r.1 (sym e)

          apart : Apart (top a rest) (node l2 u a2 rest2 r2)
          apart = Apart-above nodes t a rest chained (node l2 u a2 rest2 r2) (some c2) hr above

          same_top : joined (top a rest) ≡ nodes (top a rest)
          same_top =
              chain_other nodes item c2 ne2 (top a rest) (top_ne item a rest off)
                (Off-top (top a rest) a2 rest2 apart.1)

          time2 : (nodes c2).timestamp ≡ u
          time2 = top-time nodes u a2 rest2 hr.1.1 hr.1.3

          apart2 : Apart c2 l
          apart2 =
              Clear-Apart nodes l (nodes (top a rest)).left c2 hl
                (rw time2 (Clear-below t u l below (omega (arith, before))))

          same_chain : Same nodes joined (a ∷ rest)
          same_chain =
              Same-chain nodes item c2 ne2 (a ∷ rest) off
                (Chain-Off nodes t a rest c2 chained (omega (arith, time2, before)))

          ordered : ((joined (top a rest)).timestamp ≡ t) × ((joined item).timestamp ≡ u) × (t < u)
          ordered = (
            ap TreeNode.timestamp same_top ∙ (top_at nodes t a rest chained),
            ap TreeNode.timestamp (chain_item nodes item c2 ne2) ∙ fresh.time_set,
            before,
          )

          put_in_found :
              (tree : EventTree)
              → put_in tree nodes item (found c2 (some (top a rest)))
                ≡ link tree joined item (some (top a rest))
          put_in_found tree = refl
