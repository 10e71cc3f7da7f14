-- ===== src/EventTree/Take.antt =====
-- The first node of a tree, and the chain that gives its first node.
use libqtl.Base.{
  ℕ, zero, ◌≤◌, ◌<◌, ◌≡◌, ◌≢◌, refl, sym, ap, ◌∙◌, none, some, List, [], ◌∷◌, ◌++◌, arith,
}
use libqtl.EventTree.Read.{take_head}
use libqtl.EventTree.Memory.{Nodes, Run, done, ◌>>=◌, deref, modify}
use libqtl.EventTree.Shape.{Shape, leaf, node, top, Off, Times, Ordered, Links, Chain}
use libqtl.EventTree.Frame.{Times-imp}
use libqtl.EventTree.Order.{to_list, chain_list}

-- The node that is leftmost and first of its chain.
unfoldable pub first : Shape → ℕ
first leaf = zero
first (node leaf t a rest r) = a
first (node (node l2 t2 a2 rest2 r2) t a rest r) = first (node l2 t2 a2 rest2 r2)

-- The tree without it.
unfoldable pub take : Shape → Shape
take leaf = leaf
take (node leaf t a [] r) = r
take (node leaf t a (b ∷ rest) r) = node leaf t b rest r
take (node (node l2 t2 a2 rest2 r2) t a rest r) = node (take (node l2 t2 a2 rest2 r2)) t a rest r

abbrev pub first_time : Shape → ℕ
first_time leaf = zero
first_time (node leaf t a rest r) = t
first_time (node (node l2 t2 a2 rest2 r2) t a rest r) = first_time (node l2 t2 a2 rest2 r2)

pub to_list-take :
    (l : Shape) (t a : ℕ) (rest : List ℕ) (r : Shape)
    → to_list (node l t a rest r)
      ≡ (first_time (node l t a rest r), first (node l t a rest r))
        ∷ to_list (take (node l t a rest r))
unfolding to_list take first
to_list-take leaf t a [] r = refl
to_list-take leaf t a (b ∷ rest) r = refl
to_list-take (node l2 t2 a2 rest2 r2) t a rest r =
    ap (λ zs. zs ++ (chain_list t (a ∷ rest) ++ to_list r)) (to_list-take l2 t2 a2 rest2 r2)

pub Times-take : (P : ℕ → Type 0) (s : Shape) → Times P s → Times P (take s)
unfolding take
Times-take P leaf h = tt
Times-take P (node leaf t a [] r) (hl, h, hr) = hr
Times-take P (node leaf t a (b ∷ rest) r) h = h
Times-take P (node (node l2 t2 a2 rest2 r2) t a rest r) (hl, h, hr) =
    (Times-take P (node l2 t2 a2 rest2 r2) hl, h, hr)

Times-first_time :
    (P : ℕ → Type 0) (l : Shape) (t a : ℕ) (rest : List ℕ) (r : Shape)
    → Times P (node l t a rest r)
    → P (first_time (node l t a rest r))
Times-first_time P leaf t a rest r h = h.1
Times-first_time P (node l2 t2 a2 rest2 r2) t a rest r h = Times-first_time P l2 t2 a2 rest2 r2 h.0

-- No node that stays is earlier.
pub first_time_least :
    (l : Shape) (t a : ℕ) (rest : List ℕ) (r : Shape)
    → Ordered (node l t a rest r)
    → Times (λ v. first_time (node l t a rest r) ≤ v) (take (node l t a rest r))
unfolding take
first_time_least leaf t a [] r h =
    Times-imp (λ v. t < v) (λ v. t ≤ v) r (λ v k. omega (arith, k)) h.1
first_time_least leaf t a (b ∷ rest) r h =
    (tt, omega arith, Times-imp (λ v. t < v) (λ v. t ≤ v) r (λ v k. omega (arith, k)) h.1)
first_time_least (node l2 t2 a2 rest2 r2) t a rest r h =
    let l : Shape = node l2 t2 a2 rest2 r2 in
    let k : first_time l < t = Times-first_time (λ v. v < t) l2 t2 a2 rest2 r2 h.0 in
    (
      first_time_least l2 t2 a2 rest2 r2 h.2,
      omega (arith, k),
      Times-imp (λ v. t < v) (λ v. first_time l ≤ v) r (λ v m. omega (arith, m, k)) h.1,
    )

pub Ordered-take : (s : Shape) → Ordered s → Ordered (take s)
unfolding take
Ordered-take leaf h = tt
Ordered-take (node leaf t a [] r) (below, above, in_l, in_r) = in_r
Ordered-take (node leaf t a (b ∷ rest) r) h = h
Ordered-take (node (node l2 t2 a2 rest2 r2) t a rest r) (below, above, in_l, in_r) = (
  Times-take (λ v. v < t) (node l2 t2 a2 rest2 r2) below,
  above,
  Ordered-take (node l2 t2 a2 rest2 r2) in_l,
  in_r,
)

-- The new head of a chain whose first two nodes are `a` and `b`, in the memory after `take_head`.
abbrev pub without_head : Nodes → ℕ → ℕ → Nodes
without_head nodes b c =
    let n1 : Nodes = modify nodes b (λ n. record n { prev = none }) in
    modify n1 c (λ n. record n { head = some b })

module _ (nodes : Nodes) (b c : ℕ) where
  pub without_head_other : (x : ℕ) → x ≢ b → x ≢ c → without_head nodes b c x ≡ nodes x
  without_head_other x h k = ground arith

  pub without_head_left : (without_head nodes b c c).left ≡ (nodes c).left
  without_head_left = ground arith

  pub without_head_right : (without_head nodes b c c).right ≡ (nodes c).right
  without_head_right = ground arith

  Links-without_head :
      (t a : ℕ) (rest : List ℕ)
      → Off b rest
      → Links nodes t a rest
      → Links (without_head nodes b c) t a rest
  Links-without_head t a [] off h = tt
  Links-without_head t a (d ∷ rest) off (n, p, u, off_a, more) = (
    ground (arith, n),
    ground (arith, p, off.0),
    ground (arith, u),
    off_a,
    Links-without_head t d rest off.1 more,
  )

  pub Chain-without_head :
      (t : ℕ) (rest : List ℕ)
      → c ≡ top b rest
      → (nodes b).timestamp ≡ t
      → Off b rest
      → Links nodes t b rest
      → Chain (without_head nodes b c) t b rest
  Chain-without_head t rest e u off h = (
    ground arith,
    ground (arith, u),
    rw (sym e) (ground arith),
    Links-without_head t b rest off h,
  )

pub take_head_lem :
    (nodes : Nodes) (a b c : ℕ)
    → (nodes c).head ≡ some a
    → (nodes a).next ≡ some b
    → a ≢ b
    → take_head nodes c ≡ done (without_head nodes b c, a)
unfolding take_head
take_head_lem nodes a b c h n ne =
    ap (λ p. deref p >>= λ temp. deref (nodes temp).next >>= λ second. finish temp second) h
    ∙ ap (λ p. deref p >>= λ second. finish a second) n
    ∙ ap (λ p. done (modify (unlinked b) c (λ node. record node { head = p }), a)) second_next
  where
    unlinked : ℕ → Nodes
    unlinked second = modify nodes second (λ node. record node { prev = none })

    finish : ℕ → ℕ → Run (Nodes × ℕ)
    finish temp second = done (
      modify (unlinked second) c (λ node. record node { head = (unlinked second temp).next }),
      temp,
    )

    second_next : (unlinked b a).next ≡ some b
    second_next = ground (arith, n, ne)
