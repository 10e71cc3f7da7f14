-- ===== src/EventTree/Order.antt =====
-- The nodes of a tree in order, and the insertion into a tree as one into a sorted list.
use libqtl.Base.{
  ℕ, ◌≤◌, ◌<◌, ◌≡◌, refl, sym, ap, ◌∙◌, true, false, List, [], ◌∷◌, ◌++◌, arith, ltb, ◌==◌,
  if◌then◌else◌, Bool-cases, inl, inr,
}
use mathlib.Core.List.{map}
use mathlib.Core.Path.{subst}
use libqtl.EventTree.Shape.{Shape, leaf, node, Times, Ordered}
use libqtl.EventTree.Frame.{Times-imp}
use libqtl.EventTree.Insert.{insert, insert_same}
use libqtl.EventTree.Steps.{eq_of, before, after}

abbrev pub chain_list : ℕ → List ℕ → List (ℕ × ℕ)
chain_list t xs = map (λ x. (t, x)) xs

-- Every node with its time.
unfoldable pub to_list : Shape → List (ℕ × ℕ)
to_list leaf = []
to_list (node l t a rest r) = to_list l ++ (chain_list t (a ∷ rest) ++ to_list r)

-- Behind those of its time.
unfoldable pub insert_sorted : ℕ → ℕ → List (ℕ × ℕ) → List (ℕ × ℕ)
insert_sorted u item [] = (u, item) ∷ []
insert_sorted u item ((t, x) ∷ more) =
    if ltb u t then (u, item) ∷ (t, x) ∷ more else (t, x) ∷ insert_sorted u item more

-- Every pair has a time as the test says.
abbrev pub AllTimes : (ℕ → Type 0) → List (ℕ × ℕ) → Type 0
AllTimes P [] = Unit
AllTimes P ((t, x) ∷ more) = P t × AllTimes P more

pub AllTimes-append :
    (P : ℕ → Type 0) (xs ys : List (ℕ × ℕ)) → AllTimes P xs → AllTimes P ys → AllTimes P (xs ++ ys)
AllTimes-append P [] ys h k = k
AllTimes-append P (x ∷ xs) ys h k = (h.0, AllTimes-append P xs ys h.1 k)

pub AllTimes-map : (P : ℕ → Type 0) (t : ℕ) (xs : List ℕ) → P t → AllTimes P (chain_list t xs)
AllTimes-map P t [] h = tt
AllTimes-map P t (x ∷ xs) h = (h, AllTimes-map P t xs h)

pub AllTimes-to_list : (P : ℕ → Type 0) (s : Shape) → Times P s → AllTimes P (to_list s)
unfolding to_list
AllTimes-to_list P leaf h = tt
AllTimes-to_list P (node l t a rest r) (hl, h, hr) =
    AllTimes-append P (to_list l) (chain_list t (a ∷ rest) ++ to_list r) (AllTimes-to_list P l hl) (
      AllTimes-append P (chain_list t (a ∷ rest)) (to_list r) (AllTimes-map P t (a ∷ rest) h)
        (AllTimes-to_list P r hr))

module _ (u item : ℕ) where
  insert_sorted-behind :
      (xs ys : List (ℕ × ℕ))
      → AllTimes (λ t. t ≤ u) xs
      → insert_sorted u item (xs ++ ys) ≡ xs ++ insert_sorted u item ys
  unfolding insert_sorted
  insert_sorted-behind [] ys h = refl
  insert_sorted-behind ((t, x) ∷ xs) ys (k, h) =
      let e : ltb u t ≡ false = ground (arith, k) in rw (e, insert_sorted-behind xs ys h) refl

  insert_sorted-before :
      (xs ys : List (ℕ × ℕ))
      → AllTimes (λ t. u < t) ys
      → insert_sorted u item (xs ++ ys) ≡ insert_sorted u item xs ++ ys
  unfolding insert_sorted
  insert_sorted-before [] [] h = refl
  insert_sorted-before [] ((t, y) ∷ ys) (k, h) =
      let e : ltb u t ≡ true = ground (arith, k) in rw e refl
  insert_sorted-before ((t, x) ∷ xs) ys h = elim (Bool-cases (ltb u t)) [
    | inl e ↦ rw e refl
    | inr e ↦ rw (e, insert_sorted-before xs ys h) refl
  ]

  chain_list-append :
      (xs : List ℕ) (ys : List (ℕ × ℕ))
      → chain_list u (xs ++ item ∷ []) ++ ys ≡ chain_list u xs ++ (u, item) ∷ ys
  chain_list-append [] ys = refl
  chain_list-append (x ∷ xs) ys = ap (λ zs. (u, x) ∷ zs) (chain_list-append xs ys)

  -- Past the left subtree and the chain, into the right one.
  insert_sorted-right :
      (l : Shape) (t a : ℕ) (rest : List ℕ) (r : Shape)
      → Times (λ v. v < t) l
      → t ≤ u
      → insert_sorted u item (to_list (node l t a rest r))
        ≡ to_list l ++ (chain_list t (a ∷ rest) ++ insert_sorted u item (to_list r))
  unfolding to_list
  insert_sorted-right l t a rest r below k =
      insert_sorted-behind (to_list l) (chain_list t (a ∷ rest) ++ to_list r) (
        AllTimes-to_list (λ v. v ≤ u) l
          (Times-imp (λ v. v < t) (λ v. v ≤ u) l (λ v lt. omega (arith, lt, k)) below))
      ∙ ap (λ zs. to_list l ++ zs)
          (insert_sorted-behind (chain_list t (a ∷ rest)) (to_list r)
            (AllTimes-map (λ v. v ≤ u) t (a ∷ rest) k))

  insert_sorted-left :
      (l : Shape) (t a : ℕ) (rest : List ℕ) (r : Shape)
      → Times (λ v. t < v) r
      → u < t
      → insert_sorted u item (to_list (node l t a rest r))
        ≡ insert_sorted u item (to_list l) ++ (chain_list t (a ∷ rest) ++ to_list r)
  unfolding to_list
  insert_sorted-left l t a rest r above k =
      insert_sorted-before (to_list l) (chain_list t (a ∷ rest) ++ to_list r) (
        AllTimes-append (λ v. u < v) (chain_list t (a ∷ rest)) (to_list r)
          (AllTimes-map (λ v. u < v) t (a ∷ rest) k)
          (AllTimes-to_list (λ v. u < v) r
            (Times-imp (λ v. t < v) (λ v. u < v) r (λ v lt. omega (arith, lt, k)) above)))

  to_list_same :
      (l : Shape) (a : ℕ) (rest : List ℕ) (r : Shape)
      → Ordered (node l u a rest r)
      → to_list (node l u a (rest ++ item ∷ []) r)
        ≡ insert_sorted u item (to_list (node l u a rest r))
  unfolding to_list insert_sorted
  to_list_same l a rest r (below, above, _, _) =
      ap (λ zs. to_list l ++ zs)
        (chain_list-append (a ∷ rest) (to_list r)
          ∙ ap (λ zs. chain_list u (a ∷ rest) ++ zs)
              (sym (insert_sorted-before [] (to_list r) (AllTimes-to_list (λ v. u < v) r above))))
      ∙ sym (insert_sorted-right l u a rest r below (omega arith))

  pub to_list-insert :
      (s : Shape) → Ordered s → to_list (insert u item s) ≡ insert_sorted u item (to_list s)
  unfolding to_list insert insert_sorted
  to_list-insert leaf h = refl
  to_list-insert (node l t a rest r) (below, above, in_l, in_r) = elim (Bool-cases (t == u)) [
    | inl e ↦
        subst
          (λ v.
            Ordered (node l v a rest r)
            → to_list (insert u item (node l v a rest r))
              ≡ insert_sorted u item (to_list (node l v a rest r)))
          (sym (eq_of t u e))
          (λ h. ap to_list (insert_same l u a item rest r) ∙ to_list_same l a rest r h)
          (below, above, in_l, in_r)
    | inr e ↦ elim (Bool-cases (ltb t u)) [
      | inl f ↦
          rw (e, f)
            (ap (λ zs. to_list l ++ (chain_list t (a ∷ rest) ++ zs)) (to_list-insert r in_r)
              ∙ sym (insert_sorted-right l t a rest r below (omega (arith, before t u f))))
      | inr f ↦
          rw (e, f)
            (ap (λ zs. zs ++ (chain_list t (a ∷ rest) ++ to_list r)) (to_list-insert l in_l)
              ∙ sym (insert_sorted-left l t a rest r above (after t u e f)))
    ]
  ]

  Times-insert : (P : ℕ → Type 0) (s : Shape) → P u → Times P s → Times P (insert u item s)
  unfolding insert
  Times-insert P leaf h k = (tt, h, tt)
  Times-insert P (node l t a rest r) h (kl, k, kr) = elim (Bool-cases (t == u)) [
    | inl e ↦ rw e (kl, k, kr)
    | inr e ↦ elim (Bool-cases (ltb t u)) [
      | inl f ↦ rw (e, f) (kl, k, Times-insert P r h kr)
      | inr f ↦ rw (e, f) (Times-insert P l h kl, k, kr)
    ]
  ]

  pub Ordered-insert : (s : Shape) → Ordered s → Ordered (insert u item s)
  unfolding insert
  Ordered-insert leaf h = (tt, tt, tt, tt)
  Ordered-insert (node l t a rest r) (below, above, in_l, in_r) = elim (Bool-cases (t == u)) [
    | inl e ↦ rw e (below, above, in_l, in_r)
    | inr e ↦ elim (Bool-cases (ltb t u)) [
      | inl f ↦
          rw (e, f)
            (below, Times-insert (λ v. t < v) r (ground arith) above, in_l, Ordered-insert r in_r)
      | inr f ↦
          rw (e, f)
            (Times-insert (λ v. v < t) l (ground arith) below, above, Ordered-insert l in_l, in_r)
    ]
  ]
