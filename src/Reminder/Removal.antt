-- ===== src/Reminder/Removal.antt =====
-- Taking a reminder out of the queue by its time and callback.
use libqtl.Base.{
  ◌≡◌, refl, ap, ◌∙◌, true, false, some, none, List, [], ◌∷◌, ◌++◌, ℤ, pos, ◌⊎◌, inl, inr,
}
use libqtl.Reminder.{Reminder, ReminderQueue, RbOps, rb_node_comp, reminder_queue_remove}
use libqtl.Reminder.Tree.{RbLaws, Above, Sorted, find_in}
use libqtl.Reminder.Refine.{Queued}
use libqtl.Reminder.Refine.Key.{
  Signs, less, same, more, comp-Signs, IsNeg-trans, SameKey, comp-SameKey, Has,
}
use libqtl.Reminder.Refine.Pushes.{before_all, not_less}

-- What a search finds in a sorted list.
Found : Reminder → List Reminder → Type 0
Found e rs =
    ((xs : List Reminder) × (x : Reminder) × (ys : List Reminder) × (rs ≡ xs ++ x ∷ ys)
      × SameKey e x
      × (find_in rb_node_comp rs e ≡ some x))
    ⊎ ((Has e rs → ⊥) × (find_in rb_node_comp rs e ≡ none))

search_lem : (e : Reminder) (rs : List Reminder) → Sorted rb_node_comp rs → Found e rs
unfolding find_in Found
search_lem e [] s = inr (λ k. k, refl)
search_lem e (x ∷ rs) (above, s) =
    by_sign (search_lem e rs s) (rb_node_comp e x) refl (comp-Signs e x)
  where
    by_sign : Found e rs → (z : ℤ) → rb_node_comp e x ≡ z → Signs z → Found e (x ∷ rs)
    by_sign rest _ h less = inr (before_all e x rs above s (rw h tt), rw h refl)
    by_sign rest _ h same = inl ([], x, rs, refl, comp-SameKey e x h, rw h refl)
    by_sign (inl (xs, y, ys, split, k, f)) _ h more =
        inl (x ∷ xs, y, ys, ap (λ l. x ∷ l) split, k, rw h f)
    by_sign (inr (n, f)) _ h more = inr (absent n h, rw h f)
      where
        absent : (Has e rs → ⊥) → rb_node_comp e x ≡ pos 1 → Has e (x ∷ rs) → ⊥
        absent n h (inl k) = not_less e x h k
        absent n h (inr k) = n k

Above-drop :
    (w : Reminder) (xs : List Reminder) (x : Reminder) (ys : List Reminder)
    → Above rb_node_comp w (xs ++ x ∷ ys)
    → Sorted rb_node_comp (xs ++ x ∷ ys)
    → Above rb_node_comp w (xs ++ ys)
Above-drop w [] x [] h s = tt
Above-drop w [] x (y ∷ ys) h s = IsNeg-trans w x y h s.0
Above-drop w (z ∷ xs) x ys h s = h

Sorted-drop :
    (xs : List Reminder) (x : Reminder) (ys : List Reminder)
    → Sorted rb_node_comp (xs ++ x ∷ ys)
    → Sorted rb_node_comp (xs ++ ys)
Sorted-drop [] x ys s = s.1
Sorted-drop (w ∷ xs) x ys s = (Above-drop w xs x ys s.0 s.1, Sorted-drop xs x ys s.1)

module _ {T : Type 0} (ops : RbOps T Reminder) (laws : RbLaws rb_node_comp ops) where
  taken :
      (q : ReminderQueue T) (xs : List Reminder) (x : Reminder) (ys : List Reminder) (e : Reminder)
      → Queued ops laws q (xs ++ x ∷ ys)
      → ops.rb_find q.tree e ≡ some x
      → Queued ops laws (reminder_queue_remove ops q e).0 (xs ++ ys)
        × ((reminder_queue_remove ops q e).1 ≡ true)
  unfolding reminder_queue_remove
  taken q xs x ys e (held, sorted) f =
      rw (f, reminder_queue_remove)
        ((laws.nodes-remove q.tree xs x ys (rw held sorted) held, Sorted-drop xs x ys sorted), refl)

  -- A removal takes out the one queued reminder with this time and callback and returns true, or returns
  -- false and changes nothing when none is queued; the others stay in their order.
  pub reminder_queue_remove-Queued :
      (q : ReminderQueue T) (rs : List Reminder) (e : Reminder)
      → Queued ops laws q rs
      → ((xs : List Reminder) × (x : Reminder) × (ys : List Reminder) × (rs ≡ xs ++ x ∷ ys)
          × SameKey e x
          × Queued ops laws (reminder_queue_remove ops q e).0 (xs ++ ys)
          × ((reminder_queue_remove ops q e).1 ≡ true))
        ⊎ ((Has e rs → ⊥) × (reminder_queue_remove ops q e ≡ (q, false)))
  unfolding reminder_queue_remove Found
  reminder_queue_remove-Queued q rs e (held, sorted) =
      let there : Sorted rb_node_comp (laws.nodes q.tree) = rw held sorted in
      let find = laws.find_lem q.tree e there ∙ ap (λ l. find_in rb_node_comp l e) held in
      elim (search_lem e rs sorted) [
        | inl (xs, x, ys, split, k, f) ↦
            let (queued, returned) =
              taken q xs x ys e (held ∙ split, (rw split at sorted)) (find ∙ f) in
            inl (xs, x, ys, split, k, queued, returned)
        | inr (n, f) ↦ inr (n, rw (find ∙ f, reminder_queue_remove) refl)
      ]
