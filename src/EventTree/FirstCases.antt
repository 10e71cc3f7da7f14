-- ===== src/EventTree/FirstCases.antt =====
-- `event_tree_read`: the cases in which a tree loses its first node below its root.
use libqtl.Base.{ℕ, suc, ◌<◌, ◌≡◌, refl, ap, ◌∙◌, true, Option, none, some, List, [], ◌∷◌, arith}
use libqtl.EventTree.{EventTree, set_right, set_left}
use libqtl.EventTree.Read.{leftmost, take_node, take_first}
use libqtl.EventTree.Memory.{TreeNode, Nodes, done, is_some, modify}
use libqtl.EventTree.Shape.{
  Shape, leaf, node, top, EachOf, Each, Off, Apart, Times, Ordered, Links, Chain-Same, Holds,
  Holds-Agree,
}
use libqtl.EventTree.Frame.{
  put_other, Off-top, Agree-put, Times-imp, Clear, Clear-above, Clear-below, Clear-Apart, top-time,
  Chain-outside, Agree-outside, Chain-Off,
}
use libqtl.EventTree.Chains.{Holds-set_left}
use libqtl.EventTree.Take.{
  first, take, without_head, without_head_other, without_head_left, without_head_right,
  Chain-without_head, take_head_lem,
}

EachOf-all : (xs : List ℕ) → EachOf (λ x. Unit {0}) xs
EachOf-all [] = tt
EachOf-all (x ∷ xs) = (tt, EachOf-all xs)

Each-all : (s : Shape) → Each (λ x. Unit {0}) s
Each-all leaf = tt
Each-all (node l t a rest r) = (Each-all l, EachOf-all (a ∷ rest), Each-all r)

module _ (nodes : Nodes) where
  -- The walk from `c` ends below it, and the tree `s` of `c` loses its first node there.
  pub record Inside (fuel c : ℕ) (s : Shape) : Type 0 where
    pub place : Option ℕ → ℕ × Option ℕ
    pub nodes' : Nodes
    pub walk : (parent : Option ℕ) → leftmost fuel nodes c parent ≡ done (place parent)
    pub takes :
        (tree : EventTree) (parent : Option ℕ)
        → take_first tree nodes (place parent) ≡ done (tree, nodes', first s)
    pub holds : Holds nodes' (some c) (take s)
    pub outside : (x : ℕ) → Unit {0} → Apart x s → nodes' x ≡ nodes x
    pub queues_stay : (x : ℕ) → (nodes' x).queue ≡ (nodes x).queue

  pub leftmost_end :
      (fuel c : ℕ) (parent : Option ℕ)
      → (nodes c).left ≡ none
      → leftmost (suc fuel) nodes c parent ≡ done (c, parent)
  unfolding leftmost
  leftmost_end fuel c parent e = rw (e, leftmost) refl

  leftmost_on :
      (fuel c d : ℕ) (parent : Option ℕ)
      → (nodes c).left ≡ some d
      → leftmost (suc fuel) nodes c parent ≡ leftmost fuel nodes d (some c)
  unfolding leftmost
  leftmost_on fuel c d parent e = rw (e, leftmost) refl

  Clear-chain :
      (t a : ℕ) (rest : List ℕ) (s : Shape) (p : Option ℕ)
      → Links nodes t a rest
      → (nodes a).timestamp ≡ t
      → Holds nodes p s
      → Clear t s
      → Apart (top a rest) s
  Clear-chain t a rest s p links u h k =
      Clear-Apart nodes s p (top a rest) h (rw (top-time nodes t a rest u links) k)

  Links-Off : (t a : ℕ) (rest : List ℕ) → Links nodes t a rest → Off a rest
  Links-Off t a [] h = tt
  Links-Off t a (b ∷ rest) (_, _, _, off, _) = off

  -- The last node of a longer chain has a predecessor.
  prev_of_top :
      (t a b : ℕ) (rest : List ℕ)
      → Links nodes t a (b ∷ rest)
      → is_some (nodes (top b rest)).prev ≡ true
  prev_of_top t a b [] (_, p, _, _, _) = ap is_some p
  prev_of_top t a b (d ∷ rest) (_, _, _, _, more) = prev_of_top t b d rest more

  Holds-without_head :
      (b c : ℕ) (s : Shape) (p : Option ℕ)
      → Apart b s
      → Apart c s
      → Holds nodes p s
      → Holds (without_head nodes b c) p s
  Holds-without_head b c s p off_b off_c h =
      let n1 : Nodes = modify nodes b (λ n. record n { prev = none }) in
      Holds-Agree n1 (without_head nodes b c) p s
        (Agree-put n1 c (record (n1 c) { head = some b }) s off_c)
        (Holds-Agree nodes n1 p s (Agree-put nodes b (record (nodes b) { prev = none }) s off_b) h)

  pub first_of_chain :
      (fuel t a b : ℕ) (rest : List ℕ) (r : Shape)
      → Holds nodes (some (top b rest)) (node leaf t a (b ∷ rest) r)
      → Times (λ v. t < v) r
      → Inside (suc fuel) (top b rest) (node leaf t a (b ∷ rest) r)
  unfolding take first take_first
  first_of_chain fuel t a b rest r (at, (pr, u, hd, links), no_left, hr) above = record {
    place = λ parent. (top b rest, parent);
    nodes' = without_head nodes b (top b rest);
    walk = λ parent. leftmost_end fuel (top b rest) parent no_left;
    takes = λ tree parent.
        rw (prev_of_top t a b rest links, take_head_lem nodes a b (top b rest) hd links.0 links.3.0)
          refl;
    holds = (
      refl,
      Chain-without_head nodes b (top b rest) t rest refl links.2 (Links-Off t b rest links.4)
          links.4,
      without_head_left nodes b (top b rest) ∙ no_left,
      rw (without_head_right nodes b (top b rest)) (
          Holds-without_head b (top b rest) r _
            (Clear-Apart nodes r _ b hr (Clear-above t _ r above (omega (arith, links.2))))
            (Clear-chain t b rest r _ links.4 links.2 hr (Clear-above t t r above (omega arith)))
            hr),
    );
    outside = λ x _ apart.
        without_head_other nodes b (top b rest) x apart.1.1.0 (Off-top x b rest apart.1.1);
    queues_stay = λ x. ground arith;
  }

  -- A node that is alone in its chain, at the left of `a`.
  pub first_alone :
      (fuel t a : ℕ) (rest : List ℕ) (r : Shape) (t2 a2 : ℕ) (r2 : Shape)
      → Holds nodes (some (top a rest)) (node (node leaf t2 a2 [] r2) t a rest r)
      → Ordered (node (node leaf t2 a2 [] r2) t a rest r)
      → Inside (suc (suc fuel)) (top a rest) (node (node leaf t2 a2 [] r2) t a rest r)
  unfolding take first take_first take_node
  first_alone fuel t a rest r t2 a2 r2 (_, chained, (at, (pr, u, hd, links), no_left, hr2), hr)
        (below, above, in_l, _) =
      record {
        place = λ parent. (a2, some p);
        nodes' = cut;
        walk =
            λ parent. leftmost_on (suc fuel) p a2 parent at ∙ leftmost_end fuel a2 (some p) no_left;
        takes = λ tree parent. rw pr refl;
        holds =
            Holds-Agree linked cut (some p) (node r2 t a rest r)
              (Agree-put linked a2 (record (linked a2) { right = none }) (node r2 t a rest r)
                (
                  Clear-Apart nodes r2 (nodes a2).right a2 hr2
                      (Clear-above t2 _ r2 in_l.1 (omega (arith, u))),
                  Chain-Off nodes t a rest a2 chained (omega (arith, u, below.1)),
                  Clear-Apart nodes r (nodes p).right a2 hr
                      (Clear-above t _ r above (omega (arith, u, below.1))),
                ))
              (Holds-set_left nodes t a rest (nodes a2).right chained r2 r hr
                (Clear-chain t a rest r (nodes p).right chained.3 chained.1 hr
                  (Clear-above t t r above (omega arith)))
                (Holds-Agree nodes linked (nodes a2).right r2
                  (Agree-put nodes p (record (nodes p) { left = (nodes a2).right }) r2
                    (Clear-chain t a rest r2 (nodes a2).right chained.3 chained.1 hr2
                      (Clear-below t t r2 below.2 (omega arith))))
                  hr2));
        outside = λ x _ apart.
            put_other linked a2 (record (linked a2) { right = none }) x apart.0.1.0
            ∙ put_other nodes p (record (nodes p) { left = (nodes a2).right }) x
                (Off-top x a rest apart.1);
        queues_stay = λ x. ground arith;
      }
    where
      p : ℕ
      p = top a rest

      linked : Nodes
      linked = set_left nodes p (nodes a2).right

      cut : Nodes
      cut = set_right linked a2 none

  pub first_deeper :
      (fuel t a : ℕ) (rest : List ℕ) (r : Shape) (c t2 a2 : ℕ) (l2 : Shape) (rest2 : List ℕ)
      (r2 : Shape)
      → Holds nodes (some (top a rest)) (node (node l2 t2 a2 rest2 r2) t a rest r)
      → Ordered (node (node l2 t2 a2 rest2 r2) t a rest r)
      → (nodes (top a rest)).left ≡ some c
      → Holds nodes (some c) (node l2 t2 a2 rest2 r2)
      → take (node (node l2 t2 a2 rest2 r2) t a rest r)
        ≡ node (take (node l2 t2 a2 rest2 r2)) t a rest r
      → Inside fuel c (node l2 t2 a2 rest2 r2)
      → Inside (suc fuel) (top a rest) (node (node l2 t2 a2 rest2 r2) t a rest r)
  unfolding first
  first_deeper fuel t a rest r c t2 a2 l2 rest2 r2 (_, chained, _, hr) (below, above, _, _) at hl
        unfolded i =
      record {
        place = λ parent. i.place (some p);
        nodes' = i.nodes';
        walk = λ parent. leftmost_on fuel p c parent at ∙ i.walk (some p);
        takes = λ tree parent. i.takes tree (some p);
        holds = rw unfolded (
          refl,
          Chain-Same nodes i.nodes' t a rest
              (Chain-outside nodes i.nodes' (λ x. Unit {0}) l (some c) hl i.outside t a rest chained
                (EachOf-all (a ∷ rest)) (Clear-below t t l below (omega arith)))
              chained,
          rw (ap TreeNode.left same ∙ at) i.holds,
          rw (ap TreeNode.right same) (
              Holds-Agree nodes i.nodes' (nodes p).right r
                (Agree-outside nodes i.nodes' (λ x. Unit {0}) l (some c) hl i.outside r
                  (nodes p).right hr (Each-all r)
                  (Times-imp (λ v. t < v) (λ v. Clear v l) r
                    (λ v k. Clear-below t v l below (omega (arith, k))) above))
                hr),
        );
        outside = λ x k apart. i.outside x k apart.0;
        queues_stay = i.queues_stay;
      }
    where
      p : ℕ
      p = top a rest

      l : Shape
      l = node l2 t2 a2 rest2 r2

      same : i.nodes' p ≡ nodes p
      same = i.outside p tt (
          Clear-chain t a rest l (some c) chained.3 chained.1 hl
            (Clear-below t t l below (omega arith)))
