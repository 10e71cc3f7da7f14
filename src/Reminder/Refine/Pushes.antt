-- ===== src/Reminder/Refine/Pushes.antt =====
-- Of the reminders pushed with one time and one callback, the queue holds the first.
use libqtl.Base.{◌≡◌, ◌⊎◌, inl, inr, refl, arith, List, [], ◌∷◌, ℤ, pos}
use libqtl.Reminder.{Reminder, rb_node_comp}
use libqtl.Reminder.Tree.{on_sign, IsNeg, Above, Sorted, insert_in}
use libqtl.Reminder.Refine.Key.{
  Signs, less, same, more, comp-Signs, IsNeg-trans, SameKey, Has, Has-insert_in, Has-insert_in_self,
  Has-equal,
}

not_same : (a b : Reminder) → IsNeg (rb_node_comp a b) → SameKey a b → ⊥
unfolding rb_node_comp
not_same a b h k = ground arith

pub not_less : (a b : Reminder) → rb_node_comp a b ≡ pos 1 → SameKey a b → ⊥
unfolding rb_node_comp
not_less a b h k = ground arith

-- A reminder before the first is none of them.
pub before_all :
    (e x : Reminder) (xs : List Reminder)
    → Above rb_node_comp x xs
    → Sorted rb_node_comp xs
    → IsNeg (rb_node_comp e x)
    → Has e (x ∷ xs)
    → ⊥
before_all e x xs above s h (inl k) = not_same e x h k
before_all e x (y ∷ xs) above s h (inr k) = before_all e y xs s.0 s.1 (IsNeg-trans e x y h above) k
before_all e x [] above s h (inr k) = k

-- The reminder is in the list, with all its members.
abbrev pub Member : Reminder → List Reminder → Type 0
Member m [] = ⊥
Member m (x ∷ xs) = (m ≡ x) ⊎ Member m xs

-- The reminder is the first of the list with its time and callback.
abbrev pub FirstPush : Reminder → List Reminder → Type 0
FirstPush m [] = ⊥
FirstPush m (x ∷ xs) = (m ≡ x) ⊎ ((SameKey m x → ⊥) × FirstPush m xs)

-- What an insertion adds is new.
Member-insert_in :
    (xs : List Reminder) (n m : Reminder)
    → Sorted rb_node_comp xs
    → Member m (insert_in rb_node_comp xs n)
    → Member m xs ⊎ ((m ≡ n) × (Has n xs → ⊥))
unfolding insert_in
Member-insert_in [] n m s (inl e) = inr (e, λ k. k)
Member-insert_in [] n m s (inr k) = elim k [ ]
Member-insert_in (x ∷ xs) n m (above, s) k =
    by_sign (Member-insert_in xs n m s) (rb_node_comp n x) refl (comp-Signs n x) k
  where
    absent : (Has n xs → ⊥) → rb_node_comp n x ≡ pos 1 → Has n (x ∷ xs) → ⊥
    absent missing h (inl k) = not_less n x h k
    absent missing h (inr k) = missing k

    by_sign :
        (Member m (insert_in rb_node_comp xs n) → Member m xs ⊎ ((m ≡ n) × (Has n xs → ⊥)))
        → (z : ℤ) → rb_node_comp n x ≡ z
        → Signs z
        → Member m (on_sign z (n ∷ x ∷ xs) (x ∷ xs) (x ∷ insert_in rb_node_comp xs n))
        → Member m (x ∷ xs) ⊎ ((m ≡ n) × (Has n (x ∷ xs) → ⊥))
    by_sign rest _ h less (inl e) = inr (e, before_all n x xs above s (rw h tt))
    by_sign rest _ h less (inr k) = inl k
    by_sign rest _ h same k = inl k
    by_sign rest _ h more (inl e) = inl (inl e)
    by_sign rest _ h more (inr k) = elim (rest k) [
      | inl held ↦ inl (inr held)
      | inr (e, missing) ↦ inr (e, absent missing h)
    ]

-- A reminder that comes from one held or pushed, before one more push.
pub FirstPush-push :
    (held rs : List Reminder) (r m : Reminder)
    → Sorted rb_node_comp held
    → Member m (insert_in rb_node_comp held r)
      ⊎ ((Has m (insert_in rb_node_comp held r) → ⊥) × FirstPush m rs)
    → Member m held ⊎ ((Has m held → ⊥) × FirstPush m (r ∷ rs))
FirstPush-push held rs r m s (inl k) = elim (Member-insert_in held r m s k) [
  | inl there ↦ inl there
  | inr (e, missing) ↦ inr (rw e missing, inl e)
]
FirstPush-push held rs r m s (inr (missing, first)) = inr (
  λ k. missing (Has-insert_in held r m k),
  inr (
    λ e. missing (Has-equal (insert_in rb_node_comp held r) m r e (Has-insert_in_self held r)),
    first,
  ),
)
