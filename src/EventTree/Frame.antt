-- ===== src/EventTree/Frame.antt =====
-- A change of the memory elsewhere leaves a tree as it is; the times tell which addresses are elsewhere.
use libqtl.Base.{ℕ, ◌≤◌, ◌<◌, ◌≡◌, ◌≢◌, refl, sym, ap, ◌∙◌, Option, List, [], ◌∷◌, ◌++◌, arith}
use libqtl.EventTree.Memory.{TreeNode, Nodes, put}
use libqtl.EventTree.Shape.{
  Shape, leaf, node, top, EachOf, Each, Off, Apart, Times, Links, Chain, Holds, Same, Agree,
}

pub put_self {ℓ} : {A : Type ℓ} (f : ℕ → A) (x : ℕ) (v : A) → put f x v x ≡ v
put_self f x v = ground arith

pub put_other {ℓ} : {A : Type ℓ} (f : ℕ → A) (x : ℕ) (v : A) (y : ℕ) → y ≢ x → put f x v y ≡ f y
put_other f x v y h = ground arith

pub Off-top : (x a : ℕ) (rest : List ℕ) → Off x (a ∷ rest) → x ≢ top a rest
Off-top x a [] h = h.0
Off-top x a (b ∷ rest) h = Off-top x b rest h.1

pub Off-append : (x : ℕ) (xs : List ℕ) (y : ℕ) → Off x xs → x ≢ y → Off x (xs ++ y ∷ [])
Off-append x [] y h k = (k, tt)
Off-append x (z ∷ xs) y h k = (h.0, Off-append x xs y h.1 k)

pub top-append : (a : ℕ) (rest : List ℕ) (y : ℕ) → top a (rest ++ y ∷ []) ≡ y
top-append a [] y = refl
top-append a (b ∷ rest) y = top-append b rest y

Same-put :
    (nodes : Nodes) (x : ℕ) (v : TreeNode) (xs : List ℕ) → Off x xs → Same nodes (put nodes x v) xs
Same-put nodes x v [] h = tt
Same-put nodes x v (y ∷ xs) h =
    (put_other nodes x v y (λ e. h.0 (sym e)), Same-put nodes x v xs h.1)

pub Agree-put :
    (nodes : Nodes) (x : ℕ) (v : TreeNode) (s : Shape) → Apart x s → Agree nodes (put nodes x v) s
Agree-put nodes x v leaf h = tt
Agree-put nodes x v (node l t a rest r) h =
    (Agree-put nodes x v l h.0, Same-put nodes x v (a ∷ rest) h.1, Agree-put nodes x v r h.2)

pub Times-imp : (P Q : ℕ → Type 0) (s : Shape) → ((u : ℕ) → P u → Q u) → Times P s → Times Q s
Times-imp P Q leaf f h = tt
Times-imp P Q (node l t a rest r) f h = (Times-imp P Q l f h.0, f t h.1, Times-imp P Q r f h.2)

-- No chain of the tree has this time.
abbrev pub Clear : ℕ → Shape → Type 0
Clear u s = Times (λ v. v ≢ u) s

pub Clear-above : (t u : ℕ) (s : Shape) → Times (λ v. t < v) s → u ≤ t → Clear u s
Clear-above t u s h k = Times-imp (λ v. t < v) (λ v. v ≢ u) s (λ v lt e. omega (arith, lt, e, k)) h

pub Clear-below : (t u : ℕ) (s : Shape) → Times (λ v. v < t) s → t ≤ u → Clear u s
Clear-below t u s h k = Times-imp (λ v. v < t) (λ v. v ≢ u) s (λ v lt e. omega (arith, lt, e, k)) h

module _ (nodes : Nodes) where
  Off-Links :
      (x t a : ℕ) (rest : List ℕ) → t ≢ (nodes x).timestamp → Links nodes t a rest → Off x rest
  Off-Links x t a [] ne h = tt
  Off-Links x t a (b ∷ rest) ne (_, _, u, _, more) =
      (λ e. ne (sym u ∙ ap (λ y. (nodes y).timestamp) (sym e)), Off-Links x t b rest ne more)

  -- An address whose node has another time than every chain is not in the tree.
  pub Clear-Apart :
      (s : Shape) (p : Option ℕ) (x : ℕ) → Holds nodes p s → Clear (nodes x).timestamp s → Apart x s
  Clear-Apart leaf p x h k = tt
  Clear-Apart (node l t a rest r) p x (_, (_, u, _, links), hl, hr) (kl, ne, kr) = (
    Clear-Apart l (nodes (top a rest)).left x hl kl,
    (λ e. ne (sym u ∙ ap (λ y. (nodes y).timestamp) (sym e)), Off-Links x t a rest ne links),
    Clear-Apart r (nodes (top a rest)).right x hr kr,
  )

  pub Chain-Off :
      (t a : ℕ) (rest : List ℕ) (x : ℕ)
      → Chain nodes t a rest
      → t ≢ (nodes x).timestamp
      → Off x (a ∷ rest)
  Chain-Off t a rest x (_, u, _, links) ne =
      (λ e. ne (sym u ∙ ap (λ y. (nodes y).timestamp) (sym e)), Off-Links x t a rest ne links)

  pub top-time :
      (t a : ℕ) (rest : List ℕ)
      → (nodes a).timestamp ≡ t
      → Links nodes t a rest
      → (nodes (top a rest)).timestamp ≡ t
  top-time t a [] u h = u
  top-time t a (b ∷ rest) u (_, _, v, _, more) = top-time t b rest v more

  -- A change of `q` and of what `K` excludes leaves a tree of other times.
  module _ (nodes' : Nodes) (K : ℕ → Type 0) (q : Shape) (at : Option ℕ) (held : Holds nodes at q)
      (outside : (x : ℕ) → K x → Apart x q → nodes' x ≡ nodes x) where
    same_here : (x t : ℕ) → (nodes x).timestamp ≡ t → K x → Clear t q → nodes' x ≡ nodes x
    same_here x t u kept k = outside x kept (Clear-Apart q at x held (rw u k))

    Same-outside :
        (t a : ℕ) (rest : List ℕ)
        → Links nodes t a rest
        → EachOf K rest
        → Clear t q
        → Same nodes nodes' rest
    Same-outside t a [] h kept k = tt
    Same-outside t a (b ∷ rest) (_, _, u, _, more) kept k =
        (same_here b t u kept.0 k, Same-outside t b rest more kept.1 k)

    pub Chain-outside :
        (t a : ℕ) (rest : List ℕ)
        → Chain nodes t a rest
        → EachOf K (a ∷ rest)
        → Clear t q
        → Same nodes nodes' (a ∷ rest)
    Chain-outside t a rest (_, u, _, links) kept k =
        (same_here a t u kept.0 k, Same-outside t a rest links kept.1 k)

    pub Agree-outside :
        (s : Shape) (p : Option ℕ)
        → Holds nodes p s
        → Each K s
        → Times (λ u. Clear u q) s
        → Agree nodes nodes' s
    Agree-outside leaf p h kept k = tt
    Agree-outside (node l t a rest r) p (_, c, hl, hr) (kept_l, kept, kept_r) (kl, kc, kr) = (
      Agree-outside l (nodes (top a rest)).left hl kept_l kl,
      Chain-outside t a rest c kept kc,
      Agree-outside r (nodes (top a rest)).right hr kept_r kr,
    )
