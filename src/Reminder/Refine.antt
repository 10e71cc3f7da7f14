-- ===== src/Reminder/Refine.antt =====
-- The reminder queue is a list of reminders sorted by time, then by callback.
pub mod Key
pub mod Pushes
use mathlib.Core.Option.{some-injective}
use libqtl.Base.{
  ◌↔◌, ℕ, zero, suc, ◌+◌, ◌≤◌, ◌<◌, ◌≡◌, refl, sym, ap, ◌∙◌, Bool, true, false, Option, none, some,
  List, [], ◌∷◌, ◌++◌, arith, length, ℤ, pos, negsuc, ◌⊎◌, inl, inr,
}
use libqtl.Reminder.{
  Reminder, ReminderQueue, RbOps, Returned, returned, no_value, rb_node_comp, reminder_queue_new,
  reminder_queue_push, reminder_queue_pop, reminder_queue_peek, reminder_queue_is_empty,
  reminder_queue_clear, clear_queue, clear_nodes, reminder_queue_remove,
}
use libqtl.Reminder.Tree.{first, RbLaws, Sorted, insert_in, find_in}
use libqtl.Reminder.Refine.Key.{
  insert_in-Sorted, Has, Has-insert_in, Has-insert_in_self, Has-insert_in_inv, Has-equal, InOrder,
  Sorted-InOrder, length-insert_in,
}
use libqtl.Reminder.Refine.Pushes.{Member, FirstPush, FirstPush-push}

module _ {T : Type 0} (ops : RbOps T Reminder) where
  -- Reminders pushed one after the other, and popped until there is none, for so many pops.
  unfoldable pub push_all : ReminderQueue T → List Reminder → ReminderQueue T
  push_all q [] = q
  push_all q (r ∷ rs) = push_all (reminder_queue_push ops true q r).0 rs

  unfoldable pub pop_all : ℕ → ReminderQueue T → List Reminder
  pop_all zero q = []
  pop_all (suc n) q = elim (reminder_queue_pop ops q).1 [
    | none ↦ []
    | some r ↦ r ∷ pop_all n (reminder_queue_pop ops q).0
  ]

module _ {T : Type 0} (ops : RbOps T Reminder) (laws : RbLaws rb_node_comp ops) where
  -- The queue holds these reminders, in this order.
  abbrev pub Queued : ReminderQueue T → List Reminder → Type 0
  Queued q rs = (laws.nodes q.tree ≡ rs) × Sorted rb_node_comp rs

  pub push_lem :
      (q : ReminderQueue T) (rs : List Reminder) (r : Reminder)
      → Queued q rs
      → Queued (reminder_queue_push ops true q r).0 (insert_in rb_node_comp rs r)
  unfolding reminder_queue_push
  push_lem q rs r (same, sorted) = (
    laws.nodes-insert q.tree r (rw same sorted) ∙ ap (λ l. insert_in rb_node_comp l r) same,
    insert_in-Sorted rs r sorted,
  )

  -- A pop takes the first reminder of the order, which a peek also returns; on an empty queue there is
  -- none, and the queue stays as it is.
  pub pop_lem :
      (q : ReminderQueue T) (r : Reminder) (rs : List Reminder)
      → Queued q (r ∷ rs)
      → Queued (reminder_queue_pop ops q).0 rs
        × ((reminder_queue_pop ops q).1 ≡ some r)
        × (reminder_queue_peek ops q ≡ some r)
        × (reminder_queue_is_empty ops q ≡ false)
  unfolding reminder_queue_pop reminder_queue_peek reminder_queue_is_empty
  pop_lem q r rs (same, sorted) =
      let least : ops.rb_min q.tree ≡ some r = laws.min_lem q.tree ∙ ap first same in
      rw (least, laws.empty_lem q.tree, same, reminder_queue_pop)
        ((laws.nodes-remove q.tree [] r rs (rw same sorted) same, sorted.1), refl, refl, refl)

  pub empty_lem : (q : ReminderQueue T) → Queued q [] → reminder_queue_pop ops q ≡ (q, none)
  unfolding reminder_queue_pop
  empty_lem q (same, sorted) = rw (laws.min_lem q.tree ∙ ap first same, reminder_queue_pop) refl

  moved :
      (held rs : List Reminder) (r m : Reminder)
      → (Has m held ⊎ Has m (r ∷ rs)) ↔ (Has m (insert_in rb_node_comp held r) ⊎ Has m rs)
  moved held rs r m = (there, back)
    where
      there : Has m held ⊎ Has m (r ∷ rs) → Has m (insert_in rb_node_comp held r) ⊎ Has m rs
      there (inl k) = inl (Has-insert_in held r m k)
      there (inr (inl e)) =
          inl (Has-equal (insert_in rb_node_comp held r) m r e (Has-insert_in_self held r))
      there (inr (inr k)) = inr k

      back : Has m (insert_in rb_node_comp held r) ⊎ Has m rs → Has m held ⊎ Has m (r ∷ rs)
      back (inl k) = elim (Has-insert_in_inv held r m k) [ inl e ↦ inr (inl e) | inr h ↦ inl h ]
      back (inr k) = inr (inr k)

  push_all_lem :
      (rs : List Reminder) (q : ReminderQueue T) (held : List Reminder)
      → Queued q held
      → (all : List Reminder) × Queued (push_all ops q rs) all
        × (length all ≤ length held + length rs)
        × ((m : Reminder) → (Has m held ⊎ Has m rs) ↔ Has m all)
        × ((m : Reminder) → Member m all → Member m held ⊎ ((Has m held → ⊥) × FirstPush m rs))
  unfolding push_all
  push_all_lem [] q held h = (held, h, omega arith, λ m. (only m, inl), λ m k. inl k)
    where
      only : (m : Reminder) → Has m held ⊎ ⊥ → Has m held
      only m (inl k) = k
      only m (inr k) = elim k [ ]
  push_all_lem (r ∷ rs) q held h =
      let (all, queued, short, keeps, firsts) =
        push_all_lem rs (reminder_queue_push ops true q r).0 (insert_in rb_node_comp held r)
          (push_lem q held r h) in
      (
        all,
        queued,
        omega (arith, short, length-insert_in held r),
        λ m. (
          λ k. (keeps m).0 ((moved held rs r m).0 k),
          λ k. (moved held rs r m).1 ((keeps m).1 k),
        ),
        λ m k. FirstPush-push held rs r m h.1 (firsts m k),
      )

  pop_all_lem :
      (all : List Reminder) (n : ℕ) (q : ReminderQueue T)
      → Queued q all
      → length all ≤ n
      → pop_all ops n q ≡ all
  unfolding pop_all
  pop_all_lem [] zero q h enough = refl
  pop_all_lem [] (suc n) q h enough = rw (empty_lem q h, pop_all) refl
  pop_all_lem (r ∷ rs) zero q h enough = absurd (omega arith)
  pop_all_lem (r ∷ rs) (suc n) q h enough =
      let (h', least, _, _) = pop_lem q r rs h in
      rw (least, pop_all)
        (ap (λ l. r ∷ l) (pop_all_lem rs n (reminder_queue_pop ops q).0 h' (omega arith)))

  -- Reminders that are pushed into a new queue and popped again come out in increasing order of time and
  -- callback; of those pushed with one time and one callback, the first comes out, with all its
  -- members, and no other one.
  pub pop_all-push_all :
      (rs : List Reminder) (q : ReminderQueue T)
      → reminder_queue_new ops true ≡ some q
      → InOrder (pop_all ops (length rs) (push_all ops q rs))
        × ((m : Reminder) → Has m rs ↔ Has m (pop_all ops (length rs) (push_all ops q rs)))
        × ((m : Reminder) → Member m (pop_all ops (length rs) (push_all ops q rs)) → FirstPush m rs)
  unfolding reminder_queue_new
  pop_all-push_all rs q made =
      let (all, queued, short, keeps, firsts) = push_all_lem rs q [] (fresh, tt) in
      rw (pop_all_lem all (length rs) (push_all ops q rs) queued (omega (arith, short))) (
        Sorted-InOrder all queued.1,
        λ m. (λ k. (keeps m).0 (inr k), λ k. of_list m ((keeps m).1 k)),
        λ m k. pushed m (firsts m k),
      )
    where
      fresh : laws.nodes q.tree ≡ []
      fresh = ap (λ p. laws.nodes p.tree) (sym (some-injective _ _ made)) ∙ laws.nodes-init

      of_list : (m : Reminder) → ⊥ ⊎ Has m rs → Has m rs
      of_list m (inl k) = elim k [ ]
      of_list m (inr k) = k

      pushed : (m : Reminder) → ⊥ ⊎ ((⊥ → ⊥) × FirstPush m rs) → FirstPush m rs
      pushed m (inl k) = elim k [ ]
      pushed m (inr (_, k)) = k

  clear_nodes_lem :
      (rs : List Reminder) (fuel : ℕ) (t : T)
      → laws.nodes t ≡ rs
      → Sorted rb_node_comp rs
      → length rs ≤ fuel
      → (t' : T) × (clear_nodes ops fuel t (first rs) ≡ some t') × (laws.nodes t' ≡ [])
  unfolding clear_nodes
  clear_nodes_lem [] fuel t same sorted enough = (t, refl, same)
  clear_nodes_lem (r ∷ rs) zero t same sorted enough = absurd (omega arith)
  clear_nodes_lem (r ∷ rs) (suc fuel) t same sorted enough =
      let (t', ends, none_left) =
        clear_nodes_lem rs fuel (ops.rb_remove t r)
          (laws.nodes-remove t [] r rs (rw same sorted) same) sorted.1 (omega arith) in
      (t', rw (laws.next_lem t [] r rs (rw same sorted) same) ends, none_left)

  -- The loop of the clearing ends after as many rounds as there are reminders, and leaves the queue empty.
  pub reminder_queue_clear-Queued :
      (q : ReminderQueue T) (rs : List Reminder) (fuel : ℕ)
      → Queued q rs
      → length rs ≤ fuel
      → (t : T) × (clear_queue ops fuel q ≡ some t)
        × (reminder_queue_clear ops fuel q ≡ record { tree = t })
        × Queued (reminder_queue_clear ops fuel q) []
  unfolding clear_queue
  reminder_queue_clear-Queued q rs fuel (same, sorted) enough =
      let (t, ends, none_left) = clear_nodes_lem rs fuel q.tree same sorted enough in
      let start : ops.rb_min q.tree ≡ first rs = laws.min_lem q.tree ∙ ap first same in
      let cleared : clear_queue ops fuel q ≡ some t = rw start ends in
      let after : reminder_queue_clear ops fuel q ≡ record { tree = t } =
        unfold reminder_queue_clear in rw (cleared, reminder_queue_clear) refl in
      (t, cleared, after, rw after (none_left, tt))
