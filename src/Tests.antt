-- ===== src/Tests.antt =====
-- Runs of the code at fixed inputs, and the theorems at inputs that meet their hypotheses.
mod Dates
mod Text
mod Queues
mod Threads
mod Reminders
mod Buses
mod Trees
mod Pipes
mod Backtests
