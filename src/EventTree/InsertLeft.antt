-- ===== src/EventTree/InsertLeft.antt =====
-- The walk to the left of a node, for an item of an earlier time.
use libqtl.Base.{
  ℕ, suc, ◌<◌, ◌≡◌, ◌≢◌, refl, sym, ap, ◌∙◌, false, none, some, List, [], ◌∷◌, ◌++◌, arith, ltb,
  ◌==◌,
}
use libqtl.EventTree.{EventTree, found, left_of, chain, set_left, link, put_in}
use libqtl.EventTree.Memory.{TreeNode, Nodes}
use libqtl.EventTree.Shape.{
  Shape, leaf, node, top, Off, Apart, Times, Ordered, Chain, Holds, Holds-Agree, Chain-Same, Same,
}
use libqtl.EventTree.Frame.{
  put_other, Off-top, Off-append, Agree-put, Times-imp, Clear, Clear-above, Clear-below,
  Clear-Apart, top-time, Chain-outside, Agree-outside, Chain-Off,
}
use libqtl.EventTree.Chains.{
  IsFresh, IsFresh-put, Holds-fresh, Holds-set_left, Holds-chain, chain_other, chain_item,
  Agree-chain, Same-chain,
}
use libqtl.EventTree.Insert.{
  top_at, top_ne, Apart-above, Apart-below, put_outside, insert, insert_same, link_left,
  descend_found, descend_left, descend_left_none, Inner,
}

module _ (nodes : Nodes) (item u : ℕ) (fresh : IsFresh nodes item u) where
  module _ (r : Shape) (t a : ℕ) (rest : List ℕ) (chained : Chain nodes t a rest)
      (off : Off item (a ∷ rest)) where
    module _ (before : u < t) where
      differs : (t == u) ≡ false
      differs = ground arith

      goes_left : ltb t u ≡ false
      goes_left = ground arith

      insert_left :
          (l : Shape) → insert u item (node l t a rest r) ≡ node (insert u item l) t a rest r
      unfolding insert
      insert_left l = rw (differs, goes_left) refl

      pub left_leaf :
          (fuel : ℕ)
          → Holds nodes (nodes (top a rest)).right r
          → Times (λ v. t < v) r
          → (nodes (top a rest)).left ≡ none
          → Inner nodes item u fresh (suc fuel) (top a rest) (node leaf t a rest r)
      unfolding put_in insert
      left_leaf fuel hr above no_left = record {
        place = left_of (top a rest);
        nodes' = set_left nodes (top a rest) (some item);
        walk = λ parent.
            descend_left_none nodes u (top a rest) parent fuel t (top_at nodes t a rest chained)
              differs goes_left no_left;
        writes = λ tree. refl;
        holds = rw (insert_left leaf) (
            Holds-set_left nodes t a rest (some item) chained (node leaf u item [] leaf) r hr
              (Apart-above nodes t a rest chained r _ hr above)
              (Holds-fresh (set_left nodes (top a rest) (some item)) item u (
                IsFresh-put nodes item u (top a rest)
                  (record (nodes (top a rest)) { left = some item }) (top_ne item a rest off)
                  fresh)));
        outside = λ x ne apart.
            put_outside nodes t a rest (record (nodes (top a rest)) { left = some item }) x apart.1;
      }

      pub left_deeper :
          (fuel c : ℕ) (l : Shape)
          → Holds nodes (nodes (top a rest)).right r
          → Apart item r
          → Times (λ v. t < v) r
          → Holds nodes (some c) l
          → Times (λ v. v < t) l
          → (nodes (top a rest)).left ≡ some c
          → Inner nodes item u fresh fuel c l
          → Inner nodes item u fresh (suc fuel) (top a rest) (node l t a rest r)
      left_deeper fuel c l hr off_r above hl below at inner =
          let same_top : inner.nodes' (top a rest) ≡ nodes (top a rest) =
            inner.outside (top a rest) (Off-top item a rest off)
              (Apart-below nodes t a rest chained l (some c) hl below) in
          record {
            place = inner.place;
            nodes' = inner.nodes';
            walk = λ parent.
                descend_left nodes u (top a rest) parent fuel t (top_at nodes t a rest chained)
                  differs c goes_left at
                ∙ inner.walk (some (top a rest));
            writes = inner.writes;
            holds = rw (insert_left l) (
              refl,
              Chain-Same nodes inner.nodes' t a rest
                  (Chain-outside nodes inner.nodes' (λ x. item ≢ x) l (some c) hl inner.outside t a
                    rest chained off (Clear-below t t l below (omega arith)))
                  chained,
              rw (ap TreeNode.left same_top ∙ at) inner.holds,
              rw (ap TreeNode.right same_top) (
                  Holds-Agree nodes inner.nodes' (nodes (top a rest)).right r
                    (Agree-outside nodes inner.nodes' (λ x. item ≢ x) l (some c) hl inner.outside r
                      (nodes (top a rest)).right hr off_r
                      (Times-imp (λ v. t < v) (λ v. Clear v l) r
                        (λ v k. Clear-below t v l below (omega (arith, k))) above))
                    hr),
            );
            outside = λ x ne apart. inner.outside x ne apart.0;
          }

      pub left_found :
          (fuel a2 : ℕ) (l2 : Shape) (rest2 : List ℕ) (r2 : Shape)
          → Holds nodes (nodes (top a rest)).right r
          → Apart item r
          → Times (λ v. t < v) r
          → Holds nodes (some (top a2 rest2)) (node l2 u a2 rest2 r2)
          → Apart item (node l2 u a2 rest2 r2)
          → Ordered (node l2 u a2 rest2 r2)
          → Times (λ v. v < t) (node l2 u a2 rest2 r2)
          → (nodes (top a rest)).left ≡ some (top a2 rest2)
          → Inner nodes item u fresh
              (suc (suc fuel))
              (top a rest)
              (node (node l2 u a2 rest2 r2) t a rest r)
      unfolding put_in
      left_found fuel a2 l2 rest2 r2 hr off_r above hl off_l (low, high, _, _) below at = record {
        place = found c2 (some (top a rest));
        nodes' = set_left joined (top a rest) (some item);
        walk = λ parent.
            descend_left nodes u (top a rest) parent (suc fuel) t (top_at nodes t a rest chained)
              differs c2 goes_left at
            ∙ descend_found nodes u c2 (some (top a rest)) fuel u
                (top-time nodes u a2 rest2 hl.1.1 hl.1.3) (ground arith);
        writes = λ tree.
            put_in_found tree ∙ link_left tree joined item (top a rest) (omega (arith, ordered));
        holds =
            rw (insert_left (node l2 u a2 rest2 r2), insert_same l2 u a2 item rest2 r2)
              (Holds-set_left joined t a rest (some item)
                (Chain-Same nodes joined t a rest same_chain chained)
                (node l2 u a2 (rest2 ++ item ∷ []) r2) r
                (rw (ap TreeNode.right same_top) (
                  Holds-Agree nodes joined (nodes (top a rest)).right r
                    (Agree-chain nodes item c2 ne2 r off_r apart2) hr))
                (Apart-above nodes t a rest chained r (nodes (top a rest)).right hr above)
                (Holds-Agree joined (set_left joined (top a rest) (some item)) (some item)
                  (node l2 u a2 (rest2 ++ item ∷ []) r2)
                  (Agree-put joined (top a rest) (record (joined (top a rest)) { left = some item })
                    (node l2 u a2 (rest2 ++ item ∷ []) r2)
                    (
                      apart.0,
                      Off-append (top a rest) (a2 ∷ rest2) item apart.1 (top_ne item a rest off),
                      apart.2,
                    ))
                  (Holds-chain nodes item u fresh l2 a2 rest2 r2 (some c2) hl off_l
                    (Clear-below u u l2 low (omega arith))
                    (Clear-above u u r2 high (omega arith)))));
        outside = λ x ne off_x.
            put_other joined (top a rest) (record (joined (top a rest)) { left = some item }) x
              (Off-top x a rest off_x.1)
            ∙ chain_other nodes item c2 ne2 x (λ e. ne (sym e)) (Off-top x a2 rest2 off_x.0.1);
      }
        where
          c2 : ℕ
          c2 = top a2 rest2

          joined : Nodes
          joined = chain nodes item c2

          ne2 : c2 ≢ item
          ne2 e = Off-top item a2 rest2 off_l.1 (sym e)

          apart : Apart (top a rest) (node l2 u a2 rest2 r2)
          apart = Apart-below nodes t a rest chained (node l2 u a2 rest2 r2) (some c2) hl below

          same_top : joined (top a rest) ≡ nodes (top a rest)
          same_top =
              chain_other nodes item c2 ne2 (top a rest) (top_ne item a rest off)
                (Off-top (top a rest) a2 rest2 apart.1)

          time2 : (nodes c2).timestamp ≡ u
          time2 = top-time nodes u a2 rest2 hl.1.1 hl.1.3

          apart2 : Apart c2 r
          apart2 =
              Clear-Apart nodes r (nodes (top a rest)).right c2 hr
                (rw time2 (Clear-above t u r above (omega (arith, before))))

          same_chain : Same nodes joined (a ∷ rest)
          same_chain =
              Same-chain nodes item c2 ne2 (a ∷ rest) off
                (Chain-Off nodes t a rest c2 chained (omega (arith, time2, before)))

          ordered : ((joined (top a rest)).timestamp ≡ t) × ((joined item).timestamp ≡ u) × (u < t)
          ordered = (
            ap TreeNode.timestamp same_top ∙ (top_at nodes t a rest chained),
            ap TreeNode.timestamp (chain_item nodes item c2 ne2) ∙ fresh.time_set,
            before,
          )

          put_in_found :
              (tree : EventTree)
              → put_in tree nodes item (found c2 (some (top a rest)))
                ≡ link tree joined item (some (top a rest))
          put_in_found tree = refl
