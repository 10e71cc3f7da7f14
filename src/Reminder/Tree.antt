-- ===== src/Reminder/Tree.antt =====
-- What the reminder queue relies on in the red-black tree of src/adt_tree.h: its operations act on the
-- nodes in their order as those of a sorted list do.
use libqtl.Base.{
  zero, suc, ◌≡◌, Bool, true, false, Option, none, some, List, [], ◌∷◌, ◌++◌, ℤ, pos, negsuc,
}
use libqtl.Reminder.{RbOps}

abbrev pub first {ℓ} : {A : Type ℓ} → List A → Option A
first [] = none
first (x ∷ xs) = some x

abbrev pub is_nil {ℓ} : {A : Type ℓ} → List A → Bool
is_nil [] = true
is_nil (x ∷ xs) = false

-- The sign of a comparison.
abbrev pub on_sign {ℓ} : {A : Type ℓ} → ℤ → A → A → A → A
on_sign (negsuc n) less same more = less
on_sign (pos zero) less same more = same
on_sign (pos (suc n)) less same more = more

-- The comparison finds the left one less.
abbrev pub IsNeg : ℤ → Type 0
IsNeg (negsuc n) = Unit
IsNeg (pos n) = ⊥

module _ {A : Type 0} (comp : A → A → ℤ) where
  unfoldable pub insert_in : List A → A → List A
  insert_in [] n = n ∷ []
  insert_in (x ∷ xs) n = on_sign (comp n x) (n ∷ x ∷ xs) (x ∷ xs) (x ∷ insert_in xs n)

  unfoldable pub find_in : List A → A → Option A
  find_in [] n = none
  find_in (x ∷ xs) n = on_sign (comp n x) none (some x) (find_in xs n)

  -- Each node is less than the next.
  abbrev pub Above : A → List A → Type 0
  Above a [] = Unit
  Above a (x ∷ xs) = IsNeg (comp a x)

  abbrev pub Sorted : List A → Type 0
  Sorted [] = Unit
  Sorted (x ∷ xs) = Above x xs × Sorted xs

  -- The nodes of a tree in their order, and the macros on them: an insertion does nothing when the tree
  -- has an equal node.
  pub record RbLaws {T : Type 0} (ops : RbOps T A) : Type 0 where
    pub nodes : T → List A
    pub nodes-init : nodes ops.rb_init ≡ []
    pub nodes-insert :
        (t : T) (n : A) → Sorted (nodes t) → nodes (ops.rb_insert t n) ≡ insert_in (nodes t) n
    pub min_lem : (t : T) → ops.rb_min t ≡ first (nodes t)
    pub empty_lem : (t : T) → ops.rb_empty t ≡ is_nil (nodes t)
    pub next_lem :
        (t : T) (xs : List A) (n : A) (ys : List A)
        → Sorted (nodes t)
        → nodes t ≡ xs ++ n ∷ ys
        → ops.rb_next t n ≡ first ys
    pub nodes-remove :
        (t : T) (xs : List A) (n : A) (ys : List A)
        → Sorted (nodes t)
        → nodes t ≡ xs ++ n ∷ ys
        → nodes (ops.rb_remove t n) ≡ xs ++ ys
    pub find_lem : (t : T) (n : A) → Sorted (nodes t) → ops.rb_find t n ≡ find_in (nodes t) n
