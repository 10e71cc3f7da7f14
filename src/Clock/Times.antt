-- ===== src/Clock/Times.antt =====
-- What a clock shows after the times it was given.
use libqtl.Base.{
  ℕ, ◌≤◌, ◌≡◌, refl, Bool, true, false, List, [], ◌∷◌, arith, length, ltb, if◌then◌else◌,
}
use libqtl.Datetime.{min_date_time}
use libqtl.Reminder.{Reminder, RbOps, ReminderQueue}
use libqtl.Reminder.Tree.{RbLaws}
use libqtl.Reminder.{rb_node_comp}
use libqtl.Reminder.Refine.{Queued, reminder_queue_clear-Queued}
use libqtl.Clock.{
  Clock, ClockType, local, exchange, ClockMode, realtime, simulation, clock_get_datetime,
  clock_set_datetime, clock_set_mode, clock_clear, clock_get_queue,
}

-- The greatest of a time and a list of times.
abbrev pub latest : ℕ → List ℕ → ℕ
latest t [] = t
latest t (u ∷ us) = latest (if ltb u t then t else u) us

-- What a clock of this type in this mode shows at `now`, when it showed `t` in its simulation and was then
-- given these times.
abbrev pub shown : ClockType → ClockMode → ℕ → ℕ → List ℕ → ℕ
shown local realtime now t us = t
shown exchange realtime now t us = now
shown type simulation now t us = latest t us

module _ {T : Type 0} where
  unfoldable pub set_all : Clock T → List ℕ → Clock T
  set_all c [] = c
  set_all c (t ∷ ts) = set_all (clock_set_datetime c t) ts

  exchange_set :
      (mode : ClockMode) (t u : ℕ) (q : ReminderQueue T)
      → clock_set_datetime (record { type = exchange; mode = mode; time = t; queue = q }) u
        ≡ record { type = exchange; mode = mode; time = if ltb u t then t else u; queue = q }
  unfolding clock_set_datetime
  exchange_set mode t u q = ground arith

  local_set :
      (t u : ℕ) (q : ReminderQueue T)
      → clock_set_datetime (record { type = local; mode = simulation; time = t; queue = q }) u
        ≡ record { type = local; mode = simulation; time = if ltb u t then t else u; queue = q }
  unfolding clock_set_datetime
  local_set t u q = ground arith

  local_ignores :
      (t u : ℕ) (q : ReminderQueue T)
      → clock_set_datetime (record { type = local; mode = realtime; time = t; queue = q }) u
        ≡ record { type = local; mode = realtime; time = t; queue = q }
  unfolding clock_set_datetime
  local_ignores t u q = refl

  shown_lem :
      (ts : List ℕ) (now : ℕ) (type : ClockType) (mode : ClockMode) (t : ℕ) (q : ReminderQueue T)
      → clock_get_datetime now
          (set_all (record { type = type; mode = mode; time = t; queue = q }) ts)
        ≡ shown type mode now t ts
  unfolding set_all clock_get_datetime
  shown_lem [] now local realtime t q = refl
  shown_lem [] now exchange realtime t q = refl
  shown_lem [] now local simulation t q = refl
  shown_lem [] now exchange simulation t q = refl
  shown_lem (u ∷ ts) now local realtime t q =
      rw (local_ignores t u q) (shown_lem ts now local realtime t q)
  shown_lem (u ∷ ts) now exchange realtime t q =
      rw (exchange_set realtime t u q)
        (shown_lem ts now exchange realtime (if ltb u t then t else u) q)
  shown_lem (u ∷ ts) now local simulation t q =
      rw (local_set t u q) (shown_lem ts now local simulation (if ltb u t then t else u) q)
  shown_lem (u ∷ ts) now exchange simulation t q =
      rw (exchange_set simulation t u q)
        (shown_lem ts now exchange simulation (if ltb u t then t else u) q)

  -- Given some times, in its simulation a clock shows the latest of the times it showed and was given. An exchange clock
  -- in real time shows the system's time, and a local one in real time ignores what it is given.
  pub clock_get_datetime-set_all :
      (ts : List ℕ) (now : ℕ) (c : Clock T)
      → clock_get_datetime now (set_all c ts) ≡ shown c.type c.mode now c.time ts
  clock_get_datetime-set_all ts now c = shown_lem ts now c.type c.mode c.time c.queue

-- What is done to a clock.
pub data ClockOp : Type 0 where
  set : ℕ → ClockOp
  mode : ClockMode → ClockOp
  clear : ClockOp

module _ {T : Type 0} (ops : RbOps T Reminder) (fuel : ℕ) where
  unfoldable pub do_op : Clock T → ClockOp → Clock T
  do_op c (set t) = clock_set_datetime c t
  do_op c (mode m) = clock_set_mode c m
  do_op c clear = clock_clear ops fuel c

  unfoldable pub do_all : Clock T → List ClockOp → Clock T
  do_all c [] = c
  do_all c (o ∷ os) = do_all (do_op c o) os

  -- The operations that set the time back to the least one.
  unfoldable pub is_reset : ClockOp → Bool
  is_reset (set t) = false
  is_reset (mode realtime) = false
  is_reset (mode simulation) = true
  is_reset clear = true

  abbrev pub NoReset : List ClockOp → Type 0
  NoReset [] = Unit
  NoReset (o ∷ os) = (is_reset o ≡ false) × NoReset os

  step_forward : (c : Clock T) (o : ClockOp) → is_reset o ≡ false → c.time ≤ (do_op c o).time
  unfolding do_op is_reset clock_set_datetime clock_set_mode
  step_forward c (set t) h = ground arith
  step_forward c (mode realtime) h = omega arith
  step_forward c (mode simulation) h = ground arith
  step_forward c clear h = ground arith

  -- A clock's time never goes back, until the clock is cleared or set to simulation.
  pub do_all-NoReset : (os : List ClockOp) (c : Clock T) → NoReset os → c.time ≤ (do_all c os).time
  unfolding do_all
  do_all-NoReset [] c h = omega arith
  do_all-NoReset (o ∷ os) c h =
      omega (arith, step_forward c o h.0, do_all-NoReset os (do_op c o) h.1)

module _ {T : Type 0} (ops : RbOps T Reminder) (laws : RbLaws rb_node_comp ops) where
  -- A cleared clock has no reminders left and its time is the least one.
  pub clock_clear_lem :
      (c : Clock T) (rs : List Reminder) (fuel : ℕ)
      → Queued ops laws (clock_get_queue c) rs
      → length rs ≤ fuel
      → Queued ops laws (clock_get_queue (clock_clear ops fuel c)) []
        × ((clock_clear ops fuel c).time ≡ min_date_time)
        × ((clock_clear ops fuel c).mode ≡ c.mode)
  unfolding clock_clear clock_get_queue
  clock_clear_lem c rs fuel h enough =
      let (t, _, _, none_left) = reminder_queue_clear-Queued ops laws c.queue rs fuel h enough in
      (none_left, refl, refl)
