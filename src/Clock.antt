-- ===== src/Clock.antt =====
-- src/qtl_clock.c, src/qtl_clock.h: a clock that shows the system's time or a time it is given, with its
-- queue of reminders. The queue's tree is an argument, as in `Reminder`.
pub mod Times
use libqtl.Base.{ℕ, Bool, true, false, Option, none, some, ltb, if◌then◌else◌}
use libqtl.Datetime.{min_date_time}
use libqtl.Reminder.{
  Reminder, RbOps, ReminderQueue, reminder_queue_new, reminder_queue_clear, reminder_queue_free,
}

pub data ClockType : Type 0 where
  local exchange : ClockType

pub data ClockMode : Type 0 where
  realtime simulation : ClockMode

-- `clock_s`, with what its queue points to; `T` is the type of the trees.
pub record Clock (T : Type 0) : Type 0 where
  pub type : ClockType
  pub mode : ClockMode
  pub time : ℕ
  pub queue : ReminderQueue T

module _ {T : Type 0} where
  -- The argument `now` is what `utc_now` returns.
  unfoldable pub clock_get_datetime : ℕ → Clock T → ℕ
  clock_get_datetime now c = elim c.type [
    | local ↦ c.time
    | exchange ↦ elim c.mode [ simulation ↦ c.time | realtime ↦ now ]
  ]

  unfoldable pub clock_set_datetime : Clock T → ℕ → Clock T
  clock_set_datetime c time = elim c.type [
    | exchange ↦ if ltb time c.time then c else record c { time = time }
    | local ↦ elim c.mode [
      | realtime ↦ c
      | simulation ↦ if ltb time c.time then c else record c { time = time }
    ]
  ]

  unfoldable pub clock_get_type : Clock T → ClockType
  clock_get_type c = c.type

  unfoldable pub clock_get_mode : Clock T → ClockMode
  clock_get_mode c = c.mode

  unfoldable pub clock_set_mode : Clock T → ClockMode → Clock T
  clock_set_mode c realtime = record c { mode = realtime }
  clock_set_mode c simulation = record c { mode = simulation; time = min_date_time }

  unfoldable pub clock_get_queue : Clock T → ReminderQueue T
  clock_get_queue c = c.queue

  -- A null pointer, whatever the reminder is: its time, callback and data.
  unfoldable pub clock_add_reminder : Clock T → ℕ → ℕ → ℕ → Clock T × Option Reminder
  clock_add_reminder c time callback data_pointer = (c, none)

  unfoldable pub clock_remove_reminder : Clock T → ℕ → ℕ → Clock T
  clock_remove_reminder c time callback = c

  unfoldable pub with_queue : Clock T → ClockType → Option (ReminderQueue T) → Option (Clock T)
  with_queue memory type none = none
  with_queue memory type (some queue) =
      some (record memory { type = type; mode = simulation; queue = queue })

  module _ (ops : RbOps T Reminder) where
    -- The memory that the first `malloc` returns keeps its time; the second is the queue's.
    unfoldable pub clock_new : Option (Clock T) → Bool → ClockType → Option (Clock T)
    clock_new none allocated type = none
    clock_new (some memory) allocated type =
        with_queue memory type (reminder_queue_new ops allocated)

    -- The first argument is the fuel of the loop over the reminders.
    unfoldable pub clock_clear : ℕ → Clock T → Clock T
    clock_clear fuel c = record c {
      queue = reminder_queue_clear ops fuel c.queue;
      time = min_date_time;
    }

    unfoldable pub clock_free : ℕ → Clock T → T
    clock_free fuel c = reminder_queue_free ops fuel c.queue
