-- ===== src/Reminder.antt =====
-- src/qtl_rqueue.c, src/qtl_rqueue.h: reminders in the order of their times. The red-black tree of
-- src/adt_tree.h is an argument: its type, and its operations `RbOps`.
pub mod Tree
pub mod Refine
pub mod Removal
use libqtl.Base.{
  ℕ, zero, suc, Bool, true, false, Option, none, some, ltb, if◌then◌else◌, ℤ, pos, negsuc,
}
use libqtl.Event.{Event, event_get_time}

-- `reminder_t`; pointers to functions and to data are numbers.
pub record Reminder : Type 0 where
  pub head : Event
  pub callback : ℕ
  pub user_data : ℕ

-- `rb_node_comp`, on the reminders of the two nodes.
unfoldable pub rb_node_comp : Reminder → Reminder → ℤ
rb_node_comp lhs rhs =
    let lhs_time : ℕ = event_get_time lhs.head in
    let rhs_time : ℕ = event_get_time rhs.head in
    if ltb lhs_time rhs_time
    then negsuc 0
    else if ltb rhs_time lhs_time
    then pos 1
    else if ltb lhs.callback rhs.callback
    then negsuc 0
    else if ltb rhs.callback lhs.callback
    then pos 1
    else pos 0

-- RB_INIT, RB_INSERT, RB_EMPTY, RB_MIN, RB_NEXT, RB_REMOVE and RB_FIND, for trees `T` of nodes `A`.
pub record RbOps (T A : Type 0) : Type 0 where
  pub rb_init : T
  pub rb_insert : T → A → T
  pub rb_empty : T → Bool
  pub rb_min : T → Option A
  pub rb_next : T → A → Option A
  pub rb_remove : T → A → T
  pub rb_find : T → A → Option A

-- `reminder_queue_s`
pub record ReminderQueue (T : Type 0) : Type 0 where
  pub tree : T

-- What a function with a missing `return` returns.
pub data Returned : Type 0 where
  returned : Bool → Returned
  no_value : Returned

module _ {T : Type 0} (ops : RbOps T Reminder) where
  -- The first argument says whether `malloc` finds memory. The node of `add_reminder` has the reminder
  -- that happens to stand in that memory.
  unfoldable pub add_reminder :
      Option Reminder → ReminderQueue T → Reminder → ReminderQueue T × Returned
  add_reminder none q r = (q, returned false)
  add_reminder (some memory) q r = (record { tree = ops.rb_insert q.tree memory }, no_value)

  unfoldable pub reminder_queue_new : Bool → Option (ReminderQueue T)
  reminder_queue_new false = none
  reminder_queue_new true = some (record { tree = ops.rb_init })

  unfoldable pub reminder_queue_push :
      Bool → ReminderQueue T → Reminder → ReminderQueue T × Returned
  reminder_queue_push false q e = (q, returned false)
  reminder_queue_push true q e = (record { tree = ops.rb_insert q.tree e }, no_value)

  -- `some r` is the return value true with `r` in `*ritem`.
  unfoldable pub reminder_queue_pop : ReminderQueue T → ReminderQueue T × Option Reminder
  reminder_queue_pop q = elim (ops.rb_min q.tree) [
    | some node ↦ (record { tree = ops.rb_remove q.tree node }, some node)
    | none ↦ (q, none)
  ]

  unfoldable pub reminder_queue_peek : ReminderQueue T → Option Reminder
  reminder_queue_peek q = ops.rb_min q.tree

  unfoldable pub reminder_queue_is_empty : ReminderQueue T → Bool
  reminder_queue_is_empty q = ops.rb_empty q.tree

  -- The rounds of RB_FOREACH_SAFE from the node `np`; `none` when the fuel runs out.
  unfoldable pub clear_nodes : ℕ → T → Option Reminder → Option T
  clear_nodes fuel t none = some t
  clear_nodes zero t (some np) = none
  clear_nodes (suc fuel) t (some np) =
      let nn : Option Reminder = ops.rb_next t np in clear_nodes fuel (ops.rb_remove t np) nn

  unfoldable pub clear_queue : ℕ → ReminderQueue T → Option T
  clear_queue fuel q = clear_nodes fuel q.tree (ops.rb_min q.tree)

  -- The same, left as it is when the fuel does not suffice.
  unfoldable pub reminder_queue_clear : ℕ → ReminderQueue T → ReminderQueue T
  reminder_queue_clear fuel q = elim (clear_queue fuel q) [
    | none ↦ q
    | some t ↦ record { tree = t }
  ]

  unfoldable pub reminder_queue_remove : ReminderQueue T → Reminder → ReminderQueue T × Bool
  reminder_queue_remove q e = elim (ops.rb_find q.tree e) [
    | some fnode ↦ (record { tree = ops.rb_remove q.tree fnode }, true)
    | none ↦ (q, false)
  ]

  -- The tree that is left when the queue is returned to the system.
  unfoldable pub reminder_queue_free : ℕ → ReminderQueue T → T
  reminder_queue_free fuel q = (reminder_queue_clear fuel q).tree
