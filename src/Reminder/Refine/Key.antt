-- ===== src/Reminder/Refine/Key.antt =====
-- The order of reminders that `rb_node_comp` decides, and lists sorted by it.
use libqtl.Base.{
  suc, ◌≤◌, ◌<◌, ◌∙◌, ◌≡◌, refl, List, [], ◌∷◌, arith, length, ℤ, pos, negsuc, ◌⊎◌, inl, inr,
}
use libqtl.Event.{event_get_time}
use libqtl.Reminder.{Reminder, rb_node_comp}
use libqtl.Reminder.Tree.{on_sign, IsNeg, Above, Sorted, insert_in}

-- The three results of the comparison.
pub data Signs : ℤ → Type 0 where
  less : Signs (negsuc 0)
  same : Signs (pos 0)
  more : Signs (pos 1)

pub comp-Signs : (a b : Reminder) → Signs (rb_node_comp a b)
unfolding rb_node_comp
comp-Signs a b = ground (arith, less, same, more)

pub IsNeg-swap : (a b : Reminder) → rb_node_comp a b ≡ pos 1 → IsNeg (rb_node_comp b a)
unfolding rb_node_comp
IsNeg-swap a b h = ground arith

pub IsNeg-trans :
    (a b c : Reminder)
    → IsNeg (rb_node_comp a b)
    → IsNeg (rb_node_comp b c)
    → IsNeg (rb_node_comp a c)
unfolding rb_node_comp
IsNeg-trans a b c h k = ground arith

Above-insert_in :
    (a : Reminder) (xs : List Reminder) (n : Reminder)
    → Above rb_node_comp a xs
    → IsNeg (rb_node_comp a n)
    → Above rb_node_comp a (insert_in rb_node_comp xs n)
unfolding insert_in
Above-insert_in a [] n h k = k
Above-insert_in a (x ∷ xs) n h k = by_sign (rb_node_comp n x) (comp-Signs n x)
  where
    by_sign :
        (z : ℤ)
        → Signs z
        → Above rb_node_comp a (on_sign z (n ∷ x ∷ xs) (x ∷ xs) (x ∷ insert_in rb_node_comp xs n))
    by_sign _ less = k
    by_sign _ same = h
    by_sign _ more = h

-- An insertion keeps a list sorted.
pub insert_in-Sorted :
    (xs : List Reminder) (n : Reminder)
    → Sorted rb_node_comp xs
    → Sorted rb_node_comp (insert_in rb_node_comp xs n)
unfolding insert_in
insert_in-Sorted [] n s = (tt, tt)
insert_in-Sorted (x ∷ xs) n (above, s) =
    by_sign (insert_in-Sorted xs n s) (rb_node_comp n x) refl (comp-Signs n x)
  where
    by_sign :
        Sorted rb_node_comp (insert_in rb_node_comp xs n)
        → (z : ℤ) → rb_node_comp n x ≡ z
        → Signs z
        → Sorted rb_node_comp (on_sign z (n ∷ x ∷ xs) (x ∷ xs) (x ∷ insert_in rb_node_comp xs n))
    by_sign rest _ e less = (rw e tt, (above, s))
    by_sign rest _ e same = (above, s)
    by_sign rest _ e more = (Above-insert_in x xs n above (IsNeg-swap n x e), rest)

abbrev pub SameKey : Reminder → Reminder → Type 0
SameKey a b = (event_get_time a.head ≡ event_get_time b.head) × (a.callback ≡ b.callback)

-- By time, then by callback.
abbrev pub Earlier : Reminder → Reminder → Type 0
Earlier a b =
    (event_get_time a.head < event_get_time b.head)
    ⊎ ((event_get_time a.head ≡ event_get_time b.head) × (a.callback < b.callback))

-- Each is earlier than the next.
abbrev pub InOrder : List Reminder → Type 0
InOrder [] = Unit
InOrder (x ∷ []) = Unit
InOrder (x ∷ y ∷ xs) = Earlier x y × InOrder (y ∷ xs)

pub comp-SameKey : (a b : Reminder) → rb_node_comp a b ≡ pos 0 → SameKey a b
unfolding rb_node_comp
comp-SameKey a b h = ground arith

comp-Earlier : (a b : Reminder) → IsNeg (rb_node_comp a b) → Earlier a b
unfolding rb_node_comp
comp-Earlier a b h = ground arith

pub Sorted-InOrder : (xs : List Reminder) → Sorted rb_node_comp xs → InOrder xs
Sorted-InOrder [] s = tt
Sorted-InOrder (x ∷ []) s = tt
Sorted-InOrder (x ∷ y ∷ xs) s = (comp-Earlier x y s.0, Sorted-InOrder (y ∷ xs) s.1)

-- The list has a reminder with this time and this callback.
abbrev pub Has : Reminder → List Reminder → Type 0
Has m [] = ⊥
Has m (x ∷ xs) = SameKey m x ⊎ Has m xs

pub Has-insert_in :
    (xs : List Reminder) (n m : Reminder) → Has m xs → Has m (insert_in rb_node_comp xs n)
unfolding insert_in
Has-insert_in [] n m h = elim h [ ]
Has-insert_in (x ∷ xs) n m h = by_sign (Has-insert_in xs n m) (rb_node_comp n x) (comp-Signs n x) h
  where
    by_sign :
        (Has m xs → Has m (insert_in rb_node_comp xs n))
        → (z : ℤ) → Signs z
        → Has m (x ∷ xs)
        → Has m (on_sign z (n ∷ x ∷ xs) (x ∷ xs) (x ∷ insert_in rb_node_comp xs n))
    by_sign rest _ less h = inr h
    by_sign rest _ same h = h
    by_sign rest _ more (inl e) = inl e
    by_sign rest _ more (inr h) = inr (rest h)

pub Has-insert_in_self : (xs : List Reminder) (n : Reminder) → Has n (insert_in rb_node_comp xs n)
unfolding insert_in
Has-insert_in_self [] n = inl (refl, refl)
Has-insert_in_self (x ∷ xs) n =
    by_sign (Has-insert_in_self xs n) (rb_node_comp n x) refl (comp-Signs n x)
  where
    by_sign :
        Has n (insert_in rb_node_comp xs n)
        → (z : ℤ) → rb_node_comp n x ≡ z
        → Signs z
        → Has n (on_sign z (n ∷ x ∷ xs) (x ∷ xs) (x ∷ insert_in rb_node_comp xs n))
    by_sign rest _ e less = inl (refl, refl)
    by_sign rest _ e same = inl (comp-SameKey n x e)
    by_sign rest _ e more = inr rest

pub Has-insert_in_inv :
    (xs : List Reminder) (n m : Reminder)
    → Has m (insert_in rb_node_comp xs n)
    → SameKey m n ⊎ Has m xs
unfolding insert_in
Has-insert_in_inv [] n m h = h
Has-insert_in_inv (x ∷ xs) n m h =
    by_sign (Has-insert_in_inv xs n m) (rb_node_comp n x) (comp-Signs n x) h
  where
    by_sign :
        (Has m (insert_in rb_node_comp xs n) → SameKey m n ⊎ Has m xs)
        → (z : ℤ) → Signs z
        → Has m (on_sign z (n ∷ x ∷ xs) (x ∷ xs) (x ∷ insert_in rb_node_comp xs n))
        → SameKey m n ⊎ Has m (x ∷ xs)
    by_sign rest _ less h = h
    by_sign rest _ same h = inr h
    by_sign rest _ more (inl e) = inr (inl e)
    by_sign rest _ more (inr h) = elim (rest h) [ inl e ↦ inl e | inr k ↦ inr (inr k) ]

pub Has-equal : (xs : List Reminder) (m n : Reminder) → SameKey m n → Has n xs → Has m xs
Has-equal [] m n e h = h
Has-equal (x ∷ xs) m n e (inl k) = inl (e.0 ∙ k.0, e.1 ∙ k.1)
Has-equal (x ∷ xs) m n e (inr k) = inr (Has-equal xs m n e k)

pub length-insert_in :
    (xs : List Reminder) (n : Reminder) → length (insert_in rb_node_comp xs n) ≤ suc (length xs)
unfolding insert_in
length-insert_in [] n = omega arith
length-insert_in (x ∷ xs) n = by_sign (length-insert_in xs n) (rb_node_comp n x) (comp-Signs n x)
  where
    by_sign :
        length (insert_in rb_node_comp xs n) ≤ suc (length xs)
        → (z : ℤ) → Signs z
        → length (on_sign z (n ∷ x ∷ xs) (x ∷ xs) (x ∷ insert_in rb_node_comp xs n))
          ≤ suc (suc (length xs))
    by_sign rest _ less = omega arith
    by_sign rest _ same = omega arith
    by_sign rest _ more = omega arith
