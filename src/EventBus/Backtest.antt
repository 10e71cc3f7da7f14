-- ===== src/EventBus/Backtest.antt =====
-- A whole simulation: the queues of the data pipe, the pipe, its tree and the bus together.
use libqtl.Base.{ℕ, ◌<◌, ◌≡◌, false, none, List, length}
use libqtl.Event.{Event}
use libqtl.Spsc.Refine.{Represents as Holding}
use libqtl.EventTree.{EventTree}
use libqtl.EventTree.Memory.{done, World}
use libqtl.EventTree.Played.{Played}
use libqtl.EventPipe.{EventPipe}
use libqtl.EventBus.{EventBus, simulation}
use libqtl.EventBus.Polls.{Pending}
use libqtl.EventBus.OverPipes.{PipeInMemory, Held}

module _ {Bus T : Type 0} (fuel : ℕ) where
  -- The bus is in a simulation that goes on, its three pipes hold these events, and its data pipe is this
  -- one, for which these queues wait.
  pub record Simulating (rounds : ℕ) (bus : EventBus (PipeInMemory Bus) T) (x c s : List Event)
      (p : EventPipe) (w : World Bus) (waiting : List ℕ) : Type 0 where
    pub in_mode : bus.mode ≡ simulation
    pub goes_on : bus.is_simulation_stop ≡ false
    pub executions_hold : Held Bus fuel rounds bus.executions x
    pub commands_hold : Held Bus fuel rounds bus.commands c
    pub services_hold : Held Bus fuel rounds bus.services s
    pub nothing_saved : bus.saved_event ≡ none
    pub data_is : bus.data_events ≡ done (p, w)
    pub pending : Holding p.pending_add waiting
    pub few : length waiting < rounds
