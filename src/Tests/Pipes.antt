-- ===== src/Tests/Pipes.antt =====
-- The theorems on the events of all queues of a tree, at two queues with three events.
use libqtl.Base.{ℕ, ◌≡◌, refl, arith, false, List, [], ◌∷◌, ◌==◌, if◌then◌else◌}
use libqtl.Event.{event_get_type, event_get_time}
use libqtl.Spsc.{Spsc}
use libqtl.Spsc.Refine.{Represents}
use libqtl.EventQueue.Release.{count}
use libqtl.EventTree.{null_tree, event_tree_is_empty}
use libqtl.EventTree.Memory.{done, ◌>>=◌}
use libqtl.EventTree.Read.{event_tree_read}
use libqtl.EventTree.Entries.{SortedFrom, AllOpen, sum}
use libqtl.EventTree.NextEvent.{Ready}
use libqtl.EventTree.AllEvents.{read_events, read_events-SortedFrom}
use libqtl.EventPipe.{EventPipe, event_pipe_read, event_pipe_is_empty}
use libqtl.EventPipe.Pending.{add_all}
use libqtl.EventPipe.HandOver.{hand_over, hand_over-add_all}
use libqtl.Tests.Trees.{nodes, world, tree, listed, tree-Represents}

abbrev queue_of : ℕ → ℕ
queue_of x = (nodes x).queue

abbrev events : ℕ → List ℕ
events q = if q == 1 then 15 ∷ 16 ∷ [] else if q == 2 then 17 ∷ [] else []

tree-Ready : Ready queue_of AllOpen tree world events listed
unfolding event_get_type event_get_time
tree-Ready = record {
  rep = tree-Represents;
  queues_are = λ x. refl;
  entries = (
    record {
      first_event = 15;
      others = 16 ∷ [];
      contents = refl;
      held = record {
        fits = omega arith;
        storage = omega arith;
        read_in = omega arith;
        room = omega arith;
        write_at = refl;
        held = (refl, (refl, tt));
      };
      fine = (refl, (refl, tt));
      time = refl;
      later = (omega arith, tt);
    },
    (ground arith, tt),
    (
      record {
        first_event = 17;
        others = [];
        contents = refl;
        held = record {
          fits = omega arith;
          storage = omega arith;
          read_in = omega arith;
          room = omega arith;
          write_at = refl;
          held = (refl, tt);
        };
        fine = (refl, tt);
        time = refl;
        later = tt;
      },
      tt,
      tt,
    ),
  );
}

read_events-SortedFrom_example :
    (es : List ℕ) × (read_events 2 3 tree world ≡ done es)
    × SortedFrom world.events 5 es
    × ((a : ℕ) → count a es ≡ sum queue_of (count a) events listed)
read_events-SortedFrom_example =
    read_events-SortedFrom queue_of 2 3 5 tree world events listed tree-Ready (omega arith)
      (omega arith, (omega arith, tt)) refl

-- Threads 2 and 3 hand over queues 1 and 2 to a new pipe of thread 1.
abbrev pipe : EventPipe
pipe = record {
  pending_add = record { capacity = 4; records = 0 ∷ 0 ∷ 0 ∷ 0 ∷ []; read_pos = 3; write_pos = 3 };
  pending_remove = record { capacity = 0; records = []; read_pos = 0; write_pos = 0 };
  this_thread = 1;
  tree = null_tree;
}

pending-Represents : Represents pipe.pending_add []
pending-Represents = record {
  fits = omega arith;
  storage = omega arith;
  read_in = omega arith;
  room = omega arith;
  write_at = refl;
  held = tt;
}

abbrev calls : List (ℕ × ℕ)
calls = (2, 1) ∷ (3, 2) ∷ []

hand_over-add_all_example :
    (p' : EventPipe) × (pending : Spsc ℕ) × (hand_over 2 pipe world calls ≡ done (p', world))
    × Represents pending []
    × (event_pipe_read 2 false 3 p' world ≡ (
        add_all 2 null_tree world (1 ∷ 2 ∷ []) >>= λ (tree, w').
        event_tree_read false 2 tree w' >>= λ (tree', w'', e).
        done (record pipe { pending_add = pending; tree = tree' }, w'', e)))
    × (event_pipe_is_empty 2 3 p' world ≡ (
        add_all 2 null_tree world (1 ∷ 2 ∷ []) >>= λ (tree, w').
        event_tree_is_empty 2 tree w' >>= λ (tree', w'', b).
        done (record pipe { pending_add = pending; tree = tree' }, w'', b)))
hand_over-add_all_example =
    hand_over-add_all 2 false 3 pipe world calls pending-Represents
      (ground arith, (ground arith, tt)) (omega arith) (omega arith)
