-- ===== src/Tests/Backtests.antt =====
-- The theorems on whole simulations, at two queues that both end with a closing event.
use libqtl.Base.{ℕ, ◌≡◌, refl, arith, true, false, none, some, List, [], ◌∷◌, ◌==◌, if◌then◌else◌}
use libqtl.Event.{Event, event_get_type, event_get_time, trade, ask, on_queue_closed}
use libqtl.Event.Refs.{alive}
use libqtl.Spsc.Refine.{Represents as Holding}
use libqtl.EventTree.{EventTree, null_tree, event_tree_add}
use libqtl.EventTree.Read.{event_tree_read}
use libqtl.EventTree.UnsetRoot.{event_tree_read-event_tree_add}
use libqtl.EventTree.Memory.{World, done, ◌>>=◌}
use libqtl.EventTree.NextEvent.{Ready}
use libqtl.EventTree.Played.{EndsClosed, Played}
use libqtl.EventTree.Adding.{Filled, at_node}
use libqtl.EventPipe.Filling.{New}
use libqtl.EventTree.UntilClosed.{read-Played}
use libqtl.EventPipe.{EventPipe}
use libqtl.EventBus.{EventBus, simulation, idle_spin}
use libqtl.EventBus.OverPipes.{PipeInMemory}
use libqtl.Tests.Trees.{nodes, node_at, world, listed, tree-Represents, queue_of as queue_with}

abbrev event_at : ℕ → Event
event_at a =
    if a == 9
    then record { timestamp = 9; type = on_queue_closed; ref = 1 }
    else if a == 19
    then record { timestamp = 8; type = on_queue_closed; ref = 1 }
    else if a == 16
    then record { timestamp = 6; type = trade; ref = 1 }
    else if a == 17
    then record { timestamp = 7; type = trade; ref = 1 }
    else record { timestamp = 5; type = trade; ref = 1 }

-- Queue 1 has events of the times 5 and 6 and closes at 8, queue 2 has one of 7 and closes at 9.
abbrev closing_world : World ℕ
closing_world = record world {
  queues = λ q.
      if q == 1 then queue_with 3 (15 ∷ 16 ∷ 19 ∷ 0 ∷ []) else queue_with 2 (17 ∷ 9 ∷ 0 ∷ 0 ∷ []);
  events = λ a. alive (event_at a);
}

abbrev events : ℕ → List ℕ
events q = if q == 1 then 15 ∷ 16 ∷ 19 ∷ [] else if q == 2 then 17 ∷ 9 ∷ [] else []

abbrev queue_of : ℕ → ℕ
queue_of x = (nodes x).queue

abbrev tree : EventTree
tree = record { root = some 1; last = none }

first_queue : Filled closing_world events 5 1
unfolding event_get_type event_get_time
first_queue = record {
  first_event = 15;
  others = 16 ∷ 19 ∷ [];
  contents = refl;
  held = record {
    fits = omega arith;
    storage = omega arith;
    read_in = omega arith;
    room = omega arith;
    write_at = refl;
    held = (refl, (refl, (refl, tt)));
  };
  fine = (refl, (refl, record { event = event_at 19; is_there = refl; closes = refl }));
  time = refl;
  later = (omega arith, (omega arith, tt));
}

second_queue : Filled closing_world events 7 2
unfolding event_get_type event_get_time
second_queue = record {
  first_event = 17;
  others = 9 ∷ [];
  contents = refl;
  held = record {
    fits = omega arith;
    storage = omega arith;
    read_in = omega arith;
    room = omega arith;
    write_at = refl;
    held = (refl, (refl, tt));
  };
  fine = (refl, record { event = event_at 9; is_there = refl; closes = refl });
  time = refl;
  later = (omega arith, tt);
}

tree-Ready : Ready queue_of EndsClosed tree closing_world events listed
tree-Ready = record {
  rep = tree-Represents;
  queues_are = λ x. refl;
  entries = (
    at_node closing_world events queue_of 5 1 1 refl first_queue,
    (ground arith, tt),
    (at_node closing_world events queue_of 7 2 2 refl second_queue, tt, tt),
  );
}

read-Played_example : Played queue_of 2 20 5 tree closing_world events listed
read-Played_example =
    read-Played queue_of 2 20 (some 21 ∷ []) 5 5 tree closing_world events listed tree-Ready
      (omega arith) refl (omega arith, (omega arith, tt)) refl (omega arith) (omega arith)

-- A pipe with this tree, for which these queues wait.
abbrev pipe_with : EventTree → ℕ → EventPipe
pipe_with tree waiting = record {
  pending_add = record {
    capacity = 4;
    records = 1 ∷ 2 ∷ 0 ∷ 0 ∷ [];
    read_pos = 0;
    write_pos = waiting;
  };
  pending_remove = record { capacity = 0; records = []; read_pos = 0; write_pos = 0 };
  this_thread = 1;
  tree = tree;
}

abbrev empty_pipe : PipeInMemory ℕ
empty_pipe = done (pipe_with null_tree 0, world)

-- With this data pipe.
abbrev bus_with : PipeInMemory ℕ → EventBus (PipeInMemory ℕ) (Unit {0})
bus_with p = record {
  commands = empty_pipe;
  data_events = p;
  executions = empty_pipe;
  services = empty_pipe;
  historical = empty_pipe;
  local_clock_queue = record { tree = tt };
  exchange_clock_queue = record { tree = tt };
  local_clock_datetime = 0;
  exchange_clock_datetime = 0;
  mode = simulation;
  idle_mode = idle_spin;
  queue_count = 0;
  is_simulation_stop = false;
  show_warnings = true;
  clear_reminders = false;
  read_reminders = true;
  saved_event = none;
}

abbrev memory : Event
memory = record { timestamp = 0; type = ask; ref = 0 }

abbrev bus : EventBus (PipeInMemory ℕ) (Unit {0})
bus = bus_with (done (pipe_with tree 0, closing_world))

-- The same queues before they are added, and memory in which every node has the time 5.
abbrev new_world : World ℕ
new_world = record closing_world {
  nodes = λ n. node_at n 5 none;
  supply = some 30 ∷ some 31 ∷ some 20 ∷ [];
}

abbrev handed_over : List New
handed_over = (5, 30, 1) ∷ (7, 31, 2) ∷ []

abbrev new_bus : EventBus (PipeInMemory ℕ) (Unit {0})
new_bus = bus_with (done (pipe_with null_tree 2, new_world))

-- Memory of zeros: queue 2 is added first, and its event of the time 7 is read before that of the time 5.
abbrev zero_world : World ℕ
zero_world = record new_world { nodes = λ n. node_at n 0 none }

event_tree_read-event_tree_add_example :
    (tree' : EventTree) × (w' : World ℕ) × (((event_tree_add 2 null_tree zero_world 2
          >>= λ (tree1, w1, _). event_tree_add 2 tree1 w1 1)
        >>= λ (tree2, w2, _). event_tree_read false 2 tree2 w2)
      ≡ done (tree', w', some 17))
unfolding event_get_type event_get_time second_queue first_queue
event_tree_read-event_tree_add_example =
    event_tree_read-event_tree_add zero_world events 2 null_tree 30 31 2 1 0 5 9 17 9 []
      (16 ∷ 19 ∷ []) 15 (some 20 ∷ []) refl refl (ground arith)
      (record { no_left = refl; no_right = refl; no_prev = refl; time = refl }) (omega arith)
      second_queue.held refl refl first_queue.held refl (omega arith)
