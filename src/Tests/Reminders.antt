-- ===== src/Tests/Reminders.antt =====
-- The theorems on reminders and clocks, with a sorted list for the tree.
use libqtl.Base.{
  ◌≤◌, ◌≡◌, ◌↔◌, refl, ap, ◌∙◌, arith, true, false, Option, none, some, List, [], ◌∷◌, ◌++◌, pos,
}
use libqtl.Event.{trade, event_get_time}
use libqtl.Reminder.{
  Reminder, RbOps, ReminderQueue, rb_node_comp, reminder_queue_new, reminder_queue_clear,
  clear_queue,
}
use libqtl.Reminder.Tree.{first, is_nil, on_sign, IsNeg, Sorted, insert_in, find_in, RbLaws}
use libqtl.Reminder.Refine.{
  Queued, push_all, pop_all, pop_all-push_all, reminder_queue_clear-Queued,
}
use libqtl.Reminder.Removal.{reminder_queue_remove-Queued}
use libqtl.Base.{◌⊎◌}
use libqtl.Reminder.{reminder_queue_remove}
use libqtl.Reminder.Refine.Key.{SameKey, Has, InOrder, IsNeg-trans}
use libqtl.Reminder.Refine.Pushes.{Member, FirstPush}
use libqtl.Clock.{Clock, local, simulation, realtime, clock_get_datetime, clock_get_queue}
use libqtl.Clock.Times.{
  set_all, shown, do_all, set, mode, is_reset, NoReset, clock_get_datetime-set_all, do_all-NoReset,
}

remove_in : List Reminder → Reminder → List Reminder
remove_in [] n = []
remove_in (x ∷ xs) n = on_sign (rb_node_comp n x) (x ∷ xs) xs (x ∷ remove_in xs n)

next_in : List Reminder → Reminder → Option Reminder
next_in [] n = none
next_in (x ∷ xs) n = on_sign (rb_node_comp n x) none (first xs) (next_in xs n)

comp_self : (a : Reminder) → rb_node_comp a a ≡ pos 0
unfolding rb_node_comp
comp_self a = ground arith

comp_more : (a b : Reminder) → IsNeg (rb_node_comp a b) → rb_node_comp b a ≡ pos 1
unfolding rb_node_comp
comp_more a b h = ground arith

-- A reminder is less than all that stand behind it.
less_than :
    (x : Reminder) (xs : List Reminder) (n : Reminder) (ys : List Reminder)
    → Sorted rb_node_comp (x ∷ (xs ++ n ∷ ys))
    → IsNeg (rb_node_comp x n)
less_than x [] n ys s = s.0
less_than x (z ∷ xs) n ys s = IsNeg-trans x z n s.0 (less_than z xs n ys s.1)

remove_in_lem :
    (xs : List Reminder) (n : Reminder) (ys : List Reminder)
    → Sorted rb_node_comp (xs ++ n ∷ ys)
    → remove_in (xs ++ n ∷ ys) n ≡ xs ++ ys
unfolding remove_in
remove_in_lem [] n ys s = rw (comp_self n) refl
remove_in_lem (x ∷ xs) n ys s =
    rw (comp_more x n (less_than x xs n ys s)) (ap (λ l. x ∷ l) (remove_in_lem xs n ys s.1))

next_in_lem :
    (xs : List Reminder) (n : Reminder) (ys : List Reminder)
    → Sorted rb_node_comp (xs ++ n ∷ ys)
    → next_in (xs ++ n ∷ ys) n ≡ first ys
unfolding next_in
next_in_lem [] n ys s = rw (comp_self n) refl
next_in_lem (x ∷ xs) n ys s = rw (comp_more x n (less_than x xs n ys s)) (next_in_lem xs n ys s.1)

abbrev ops : RbOps (List Reminder) Reminder
ops = record {
  rb_init = [];
  rb_insert = insert_in rb_node_comp;
  rb_empty = is_nil;
  rb_min = first;
  rb_next = next_in;
  rb_remove = remove_in;
  rb_find = find_in rb_node_comp;
}

laws : RbLaws rb_node_comp ops
laws = record {
  nodes = λ t. t;
  nodes-init = refl;
  nodes-insert = λ t n s. refl;
  min_lem = λ t. refl;
  empty_lem = λ t. refl;
  next_lem = λ t xs n ys s e. ap (λ l. next_in l n) e ∙ next_in_lem xs n ys (rw e at s);
  nodes-remove = λ t xs n ys s e. ap (λ l. remove_in l n) e ∙ remove_in_lem xs n ys (rw e at s);
  find_lem = λ t n s. refl;
}

abbrev early : Reminder
early = record {
  head = record { timestamp = 10; type = trade; ref = 1 };
  callback = 4;
  user_data = 0;
}

abbrev late : Reminder
late = record {
  head = record { timestamp = 20; type = trade; ref = 1 };
  callback = 3;
  user_data = 0;
}

abbrev queue : ReminderQueue (List Reminder)
queue = record { tree = early ∷ late ∷ [] }

queue-Queued : Queued ops laws queue (early ∷ late ∷ [])
unfolding rb_node_comp laws event_get_time
queue-Queued = (refl, (tt, (tt, tt)))

reminder_queue_remove-Queued_example :
    ((xs : List Reminder) × (x : Reminder) × (ys : List Reminder) × (early ∷ late ∷ []
        ≡ xs ++ x ∷ ys)
      × SameKey late x
      × Queued ops laws (reminder_queue_remove ops queue late).0 (xs ++ ys)
      × ((reminder_queue_remove ops queue late).1 ≡ true))
    ⊎ ((Has late (early ∷ late ∷ []) → ⊥) × (reminder_queue_remove ops queue late ≡ (queue, false)))
reminder_queue_remove-Queued_example =
    reminder_queue_remove-Queued ops laws queue (early ∷ late ∷ []) late queue-Queued

new_queue : reminder_queue_new ops true ≡ some (record { tree = [] })
unfolding reminder_queue_new
new_queue = refl

-- The time and the callback of `late`.
abbrev late_again : Reminder
late_again = record late { user_data = 5 }

-- Pushed out of order, the last with the time and the callback of the first.
pop_all-push_all_example :
    InOrder (pop_all ops 3 (push_all ops (record { tree = [] }) (late ∷ early ∷ late_again ∷ [])))
    × ((m : Reminder)
        → Has m (late ∷ early ∷ late_again ∷ [])
          ↔ Has m (
              pop_all ops 3 (push_all ops (record { tree = [] }) (late ∷ early ∷ late_again ∷ []))))
    × ((m : Reminder)
        → Member m
            (pop_all ops 3 (push_all ops (record { tree = [] }) (late ∷ early ∷ late_again ∷ [])))
        → FirstPush m (late ∷ early ∷ late_again ∷ []))
pop_all-push_all_example =
    pop_all-push_all ops laws (late ∷ early ∷ late_again ∷ []) (record { tree = [] }) new_queue

reminder_queue_clear-Queued_example :
    (t : List Reminder) × (clear_queue ops 2 queue ≡ some t)
    × (reminder_queue_clear ops 2 queue ≡ record { tree = t })
    × Queued ops laws (reminder_queue_clear ops 2 queue) []
reminder_queue_clear-Queued_example =
    reminder_queue_clear-Queued ops laws queue (early ∷ late ∷ []) 2 queue-Queued (omega arith)

abbrev clock : Clock (List Reminder)
clock = record { type = local; mode = simulation; time = 10; queue = queue }

clock-Queued : Queued ops laws (clock_get_queue clock) (early ∷ late ∷ [])
unfolding clock_get_queue
clock-Queued = queue-Queued

clock_get_datetime-set_all_example :
    clock_get_datetime 99 (set_all clock (12 ∷ 11 ∷ 15 ∷ []))
    ≡ shown local simulation 99 10 (12 ∷ 11 ∷ 15 ∷ [])
clock_get_datetime-set_all_example = clock_get_datetime-set_all (12 ∷ 11 ∷ 15 ∷ []) 99 clock

no_reset : NoReset ops 2 (set 12 ∷ mode realtime ∷ set 11 ∷ [])
unfolding is_reset
no_reset = (refl, (refl, (refl, tt)))

do_all-NoReset_example : 10 ≤ (do_all ops 2 clock (set 12 ∷ mode realtime ∷ set 11 ∷ [])).time
do_all-NoReset_example = do_all-NoReset ops 2 (set 12 ∷ mode realtime ∷ set 11 ∷ []) clock no_reset
