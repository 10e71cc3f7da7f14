-- ===== src/EventTree/Shape.antt =====
-- What the memory of a tree looks like: the nodes from a pointer on form a search tree of chains.
use libqtl.Base.{ℕ, ◌<◌, ◌≡◌, ◌≢◌, ap, ◌∙◌, Option, none, some, List, [], ◌∷◌}
use libqtl.EventTree.Memory.{TreeNode, Nodes}

-- A tree of chains. A chain has a time, its first address, and the others in order.
pub data Shape : Type 0 where
  leaf : Shape
  node : (l : Shape) (t a : ℕ) (rest : List ℕ) (r : Shape) → Shape

-- The last of the chain, which stands in the tree for all of it.
abbrev pub top : ℕ → List ℕ → ℕ
top a [] = a
top a (b ∷ rest) = top b rest

abbrev pub EachOf : (ℕ → Type 0) → List ℕ → Type 0
EachOf K [] = Unit
EachOf K (a ∷ more) = K a × EachOf K more

-- All addresses of the tree are as the test says.
abbrev pub Each : (ℕ → Type 0) → Shape → Type 0
Each K leaf = Unit
Each K (node l t a rest r) = Each K l × EachOf K (a ∷ rest) × Each K r

-- The address is none of these.
abbrev pub Off : ℕ → List ℕ → Type 0
Off x xs = EachOf (λ a. x ≢ a) xs

abbrev pub Apart : ℕ → Shape → Type 0
Apart x s = Each (λ a. x ≢ a) s

-- Every chain of the tree has a time as the test says.
abbrev pub Times : (ℕ → Type 0) → Shape → Type 0
Times P leaf = Unit
Times P (node l t a rest r) = Times P l × P t × Times P r

abbrev pub Ordered : Shape → Type 0
Ordered leaf = Unit
Ordered (node l t a rest r) = Times (λ u. u < t) l × Times (λ u. t < u) r × Ordered l × Ordered r

-- The links of a chain behind its node `a`.
abbrev pub Links : Nodes → ℕ → ℕ → List ℕ → Type 0
Links nodes t a [] = Unit
Links nodes t a (b ∷ rest) =
    ((nodes a).next ≡ some b)
    × ((nodes b).prev ≡ some a)
    × ((nodes b).timestamp ≡ t)
    × Off a (b ∷ rest)
    × Links nodes t b rest

abbrev pub Chain : Nodes → ℕ → ℕ → List ℕ → Type 0
Chain nodes t a rest =
    ((nodes a).prev ≡ none)
    × ((nodes a).timestamp ≡ t)
    × ((nodes (top a rest)).head ≡ some a)
    × Links nodes t a rest

abbrev pub Holds : Nodes → Option ℕ → Shape → Type 0
Holds nodes p leaf = p ≡ none
Holds nodes p (node l t a rest r) =
    (p ≡ some (top a rest))
    × Chain nodes t a rest
    × Holds nodes (nodes (top a rest)).left l
    × Holds nodes (nodes (top a rest)).right r

-- Two memories are the same at these addresses.
abbrev pub Same : Nodes → Nodes → List ℕ → Type 0
Same nodes nodes' [] = Unit
Same nodes nodes' (a ∷ more) = (nodes' a ≡ nodes a) × Same nodes nodes' more

abbrev pub Agree : Nodes → Nodes → Shape → Type 0
Agree nodes nodes' leaf = Unit
Agree nodes nodes' (node l t a rest r) =
    Agree nodes nodes' l × Same nodes nodes' (a ∷ rest) × Agree nodes nodes' r

top-Same :
    (nodes nodes' : Nodes) (a : ℕ) (rest : List ℕ)
    → Same nodes nodes' (a ∷ rest)
    → nodes' (top a rest) ≡ nodes (top a rest)
top-Same nodes nodes' a [] h = h.0
top-Same nodes nodes' a (b ∷ rest) h = top-Same nodes nodes' b rest h.1

Links-Same :
    (nodes nodes' : Nodes) (t a : ℕ) (rest : List ℕ)
    → Same nodes nodes' (a ∷ rest)
    → Links nodes t a rest
    → Links nodes' t a rest
Links-Same nodes nodes' t a [] s h = tt
Links-Same nodes nodes' t a (b ∷ rest) s (n, p, u, off, h) = (
  ap TreeNode.next s.0 ∙ n,
  ap TreeNode.prev s.1.0 ∙ p,
  ap TreeNode.timestamp s.1.0 ∙ u,
  off,
  Links-Same nodes nodes' t b rest s.1 h,
)

pub Chain-Same :
    (nodes nodes' : Nodes) (t a : ℕ) (rest : List ℕ)
    → Same nodes nodes' (a ∷ rest)
    → Chain nodes t a rest
    → Chain nodes' t a rest
Chain-Same nodes nodes' t a rest s (p, u, h, l) = (
  ap TreeNode.prev s.0 ∙ p,
  ap TreeNode.timestamp s.0 ∙ u,
  ap TreeNode.head (top-Same nodes nodes' a rest s) ∙ h,
  Links-Same nodes nodes' t a rest s l,
)

-- What the memory holds depends on the nodes of the tree alone.
pub Holds-Agree :
    (nodes nodes' : Nodes) (p : Option ℕ) (s : Shape)
    → Agree nodes nodes' s
    → Holds nodes p s
    → Holds nodes' p s
Holds-Agree nodes nodes' p leaf g h = h
Holds-Agree nodes nodes' p (node l t a rest r) (gl, gc, gr) (at, c, hl, hr) =
    let e : nodes' (top a rest) ≡ nodes (top a rest) = top-Same nodes nodes' a rest gc in
    (
      at,
      Chain-Same nodes nodes' t a rest gc c,
      rw (ap TreeNode.left e) (Holds-Agree nodes nodes' (nodes (top a rest)).left l gl hl),
      rw (ap TreeNode.right e) (Holds-Agree nodes nodes' (nodes (top a rest)).right r gr hr),
    )
