-- ===== src/EventTree/Chains.antt =====
-- The end of `event_tree_rebalance` on a node of the item's time: the item joins the chain and stands for
-- it in the tree.
use libqtl.Base.{ℕ, ◌≡◌, ◌≢◌, refl, sym, ap, ◌∙◌, Option, none, some, List, [], ◌∷◌, ◌++◌, arith}
use libqtl.EventTree.{chain, set_right, set_left}
use libqtl.EventTree.Memory.{TreeNode, Nodes, put}
use libqtl.EventTree.Shape.{
  Shape, leaf, node, top, Off, Apart, Links, Chain, Holds, Holds-Agree, Agree, Same,
}
use libqtl.EventTree.Frame.{
  put_self, put_other, Off-top, Off-append, top-append, Agree-put, Clear, Clear-Apart, top-time,
}

-- An item as `event_tree_rebalance` prepares it.
pub record IsFresh (nodes : Nodes) (item t : ℕ) : Type 0 where
  pub time_set : (nodes item).timestamp ≡ t
  pub no_left : (nodes item).left ≡ none
  pub no_right : (nodes item).right ≡ none
  pub no_prev : (nodes item).prev ≡ none
  pub head_set : (nodes item).head ≡ some item

pub IsFresh-put :
    (nodes : Nodes) (item t x : ℕ) (v : TreeNode)
    → x ≢ item
    → IsFresh nodes item t
    → IsFresh (put nodes x v) item t
IsFresh-put nodes item t x v ne h =
    let e : put nodes x v item ≡ nodes item = put_other nodes x v item (λ k. ne (sym k)) in
    record {
      time_set = ap TreeNode.timestamp e ∙ h.time_set;
      no_left = ap TreeNode.left e ∙ h.no_left;
      no_right = ap TreeNode.right e ∙ h.no_right;
      no_prev = ap TreeNode.prev e ∙ h.no_prev;
      head_set = ap TreeNode.head e ∙ h.head_set;
    }

-- A tree of the item alone.
pub Holds-fresh :
    (nodes : Nodes) (item t : ℕ)
    → IsFresh nodes item t
    → Holds nodes (some item) (node leaf t item [] leaf)
Holds-fresh nodes item t h = (refl, (h.no_prev, h.time_set, h.head_set, tt), h.no_left, h.no_right)

-- The links of a node to its subtrees do not belong to its chain.
module _ (nodes : Nodes) (c : ℕ) (q : Option ℕ) where
  Links-set_right :
      (t a : ℕ) (rest : List ℕ) → Links nodes t a rest → Links (set_right nodes c q) t a rest
  Links-set_right t a [] h = tt
  Links-set_right t a (b ∷ rest) (n, p, u, off, more) =
      (ground (arith, n), ground (arith, p), ground (arith, u), off, Links-set_right t b rest more)

  Links-set_left :
      (t a : ℕ) (rest : List ℕ) → Links nodes t a rest → Links (set_left nodes c q) t a rest
  Links-set_left t a [] h = tt
  Links-set_left t a (b ∷ rest) (n, p, u, off, more) =
      (ground (arith, n), ground (arith, p), ground (arith, u), off, Links-set_left t b rest more)

  Chain-set_right :
      (t a : ℕ) (rest : List ℕ) → Chain nodes t a rest → Chain (set_right nodes c q) t a rest
  Chain-set_right t a rest (p, u, h, links) =
      (ground (arith, p), ground (arith, u), ground (arith, h), Links-set_right t a rest links)

  Chain-set_left :
      (t a : ℕ) (rest : List ℕ) → Chain nodes t a rest → Chain (set_left nodes c q) t a rest
  Chain-set_left t a rest (p, u, h, links) =
      (ground (arith, p), ground (arith, u), ground (arith, h), Links-set_left t a rest links)

-- A node with a new right subtree, or a new left one.
module _ (nodes : Nodes) (t a : ℕ) (rest : List ℕ) (q : Option ℕ) (h : Chain nodes t a rest) where
  pub Holds-set_right :
      (l r : Shape)
      → Holds nodes (nodes (top a rest)).left l
      → Apart (top a rest) l
      → Holds (set_right nodes (top a rest) q) q r
      → Holds (set_right nodes (top a rest) q) (some (top a rest)) (node l t a rest r)
  Holds-set_right l r hl off hr = (
    refl,
    Chain-set_right nodes (top a rest) q t a rest h,
    rw (put_self nodes (top a rest) (record (nodes (top a rest)) { right = q })) (
        Holds-Agree nodes (set_right nodes (top a rest) q) (nodes (top a rest)).left l
          (Agree-put nodes (top a rest) (record (nodes (top a rest)) { right = q }) l off) hl),
    rw (put_self nodes (top a rest) (record (nodes (top a rest)) { right = q })) hr,
  )

  pub Holds-set_left :
      (l r : Shape)
      → Holds nodes (nodes (top a rest)).right r
      → Apart (top a rest) r
      → Holds (set_left nodes (top a rest) q) q l
      → Holds (set_left nodes (top a rest) q) (some (top a rest)) (node l t a rest r)
  Holds-set_left l r hr off hl = (
    refl,
    Chain-set_left nodes (top a rest) q t a rest h,
    rw (put_self nodes (top a rest) (record (nodes (top a rest)) { left = q })) hl,
    rw (put_self nodes (top a rest) (record (nodes (top a rest)) { left = q })) (
        Holds-Agree nodes (set_left nodes (top a rest) q) (nodes (top a rest)).right r
          (Agree-put nodes (top a rest) (record (nodes (top a rest)) { left = q }) r off) hr),
  )

module _ (nodes : Nodes) (item c : ℕ) (ne : c ≢ item) where
  pub chain_other : (x : ℕ) → x ≢ item → x ≢ c → chain nodes item c x ≡ nodes x
  unfolding chain
  chain_other x h k = ground arith

  chain_current : chain nodes item c c ≡ record (nodes c) { next = some item }
  unfolding chain
  chain_current = ground arith

  pub chain_item : chain nodes item c item ≡ record (nodes item) {
    prev = some c;
    head = (nodes c).head;
    right = (nodes c).right;
    left = (nodes c).left;
  }
  unfolding chain
  chain_item = ground arith

  pub Same-chain : (xs : List ℕ) → Off item xs → Off c xs → Same nodes (chain nodes item c) xs
  Same-chain [] h k = tt
  Same-chain (x ∷ xs) h k =
      (chain_other x (λ e. h.0 (sym e)) (λ e. k.0 (sym e)), Same-chain xs h.1 k.1)

  pub Agree-chain : (s : Shape) → Apart item s → Apart c s → Agree nodes (chain nodes item c) s
  Agree-chain leaf h k = tt
  Agree-chain (node l t a rest r) h k =
      (Agree-chain l h.0 k.0, Same-chain (a ∷ rest) h.1 k.1, Agree-chain r h.2 k.2)

module _ (nodes : Nodes) (item t : ℕ) (fresh : IsFresh nodes item t) where
  -- All but `next` stays in the chain, and `next` but at its end.
  kept :
      (c x : ℕ)
      → c ≢ item
      → x ≢ item
      → ((chain nodes item c x).prev ≡ (nodes x).prev)
        × ((chain nodes item c x).timestamp ≡ (nodes x).timestamp)
  unfolding chain
  kept c x ne k = (ground arith, ground arith)

  Links-chain :
      (a : ℕ) (rest : List ℕ)
      → Links nodes t a rest
      → Off item (a ∷ rest)
      → Links (chain nodes item (top a rest)) t a (rest ++ item ∷ [])
  Links-chain a [] h (off, _) =
      let ne : a ≢ item = λ e. off (sym e) in
      (
        ap TreeNode.next (chain_current nodes item a ne),
        ap TreeNode.prev (chain_item nodes item a ne),
        ap TreeNode.timestamp (chain_item nodes item a ne) ∙ fresh.time_set,
        (ne, tt),
        tt,
      )
  Links-chain a (b ∷ rest) (n, p, u, off_a, more) (off, off_rest) =
      let ne : top b rest ≢ item = λ e. Off-top item b rest off_rest (sym e) in
      let ne_a : a ≢ item = λ e. off (sym e) in
      let k = kept (top b rest) b ne (λ e. off_rest.0 (sym e)) in
      (
        ap TreeNode.next (chain_other nodes item (top b rest) ne a ne_a (Off-top a b rest off_a))
            ∙ n,
        k.0 ∙ p,
        k.1 ∙ u,
        Off-append a (b ∷ rest) item off_a ne_a,
        Links-chain b rest more off_rest,
      )

  -- The node of the item's time, with the item at the end of its chain.
  pub Holds-chain :
      (l : Shape) (a : ℕ) (rest : List ℕ) (r : Shape) (p : Option ℕ)
      → Holds nodes p (node l t a rest r)
      → Apart item (node l t a rest r)
      → Clear t l
      → Clear t r
      → Holds (chain nodes item (top a rest)) (some item) (node l t a (rest ++ item ∷ []) r)
  Holds-chain l a rest r p (_, (pr, u, hd, links), hl, hr) (off_l, off, off_r) kl kr = (
    ap some (sym (top-append a rest item)),
    (k.0 ∙ pr, k.1 ∙ u, rw (top-append a rest item) head, Links-chain a rest links off),
    rw (top-append a rest item, ap TreeNode.left in_place) (stays l (nodes c).left hl off_l kl),
    rw (top-append a rest item, ap TreeNode.right in_place) (stays r (nodes c).right hr off_r kr),
  )
    where
      c : ℕ
      c = top a rest

      ne : c ≢ item
      ne e = Off-top item a rest off (sym e)

      k :
          ((chain nodes item c a).prev ≡ (nodes a).prev)
          × ((chain nodes item c a).timestamp ≡ (nodes a).timestamp)
      k = kept c a ne (λ e. off.0 (sym e))

      in_place : chain nodes item c item ≡ record (nodes item) {
        prev = some c;
        head = (nodes c).head;
        right = (nodes c).right;
        left = (nodes c).left;
      }
      in_place = chain_item nodes item c ne

      head : (chain nodes item c item).head ≡ some a
      head = ap TreeNode.head in_place ∙ hd

      at_time : (nodes c).timestamp ≡ t
      at_time = top-time nodes t a rest u links

      apart : (s : Shape) (q : Option ℕ) → Holds nodes q s → Clear t s → Apart c s
      apart s q h clear = Clear-Apart nodes s q c h (rw at_time clear)

      stays :
          (s : Shape) (q : Option ℕ)
          → Holds nodes q s
          → Apart item s
          → Clear t s
          → Holds (chain nodes item c) q s
      stays s q h off_s clear =
          Holds-Agree nodes (chain nodes item c) q s
            (Agree-chain nodes item c ne s off_s (apart s q h clear)) h
