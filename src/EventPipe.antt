-- ===== src/EventPipe.antt =====
-- src/qtl_pipe.c, src/qtl_pipe.h: a pipe, which reads the events of its queues in the order of the tree.
-- Other threads hand queues over in `pending_add`; threads are numbers.
pub mod Pending
pub mod HandOver
pub mod Filling
pub mod Loading
use libqtl.Base.{ℕ, zero, suc, Bool, Option, none, some, List, [], ◌==◌, if◌then◌else◌}
use libqtl.Spsc.{
  Spsc, Made, built, no_memory, assertion_failed, empty, fault, item, spsc_queue_init,
  spsc_queue_read, spsc_queue_write, spsc_queue_destroy,
}
use libqtl.EventTree.{
  EventTree, event_tree_add, event_tree_remove, event_tree_is_empty, event_tree_clear,
}
use libqtl.EventTree.Memory.{Run, out_of_fuel, done, ◌>>=◌, World}
use libqtl.EventTree.Read.{event_tree_read}

-- `event_pipe_s`
pub record EventPipe : Type 0 where
  pub pending_add : Spsc ℕ
  pub pending_remove : Spsc ℕ
  pub this_thread : ℕ
  pub tree : EventTree

-- A queue whose array was not to be had keeps its other members.
unfoldable pub init_pending : EventPipe → ℕ → Made (Spsc ℕ) → Made EventPipe
init_pending memory thread no_memory = built (record memory {
  pending_add = record memory.pending_add { records = [] };
  this_thread = thread;
})
init_pending memory thread (built q) =
    built (record memory { pending_add = q; this_thread = thread })
init_pending memory thread assertion_failed = assertion_failed

-- The new pipe in the `memory` of `malloc`, which the function then does not return.
unfoldable pub event_pipe_new : Bool → Option EventPipe → Option (List ℕ) → ℕ → Made EventPipe
event_pipe_new checked none records thread = no_memory
event_pipe_new checked (some memory) records thread =
    init_pending memory thread (spsc_queue_init checked records 1024)

unfoldable pub event_pipe_clear : EventPipe → EventPipe
event_pipe_clear p = record p {
  pending_add = spsc_queue_destroy p.pending_add;
  tree = event_tree_clear p.tree;
}

-- What is left when the pipe is returned to the system.
unfoldable pub event_pipe_free : Option EventPipe → Option EventPipe
event_pipe_free none = none
event_pipe_free (some p) = some (event_pipe_clear p)

-- The function returns no value.
unfoldable pub event_pipe_remove : EventPipe → ℕ → EventPipe
event_pipe_remove p q = record p { tree = event_tree_remove p.tree q }

module _ {Bus : Type 0} (fuel : ℕ) where
  -- The first argument bounds the rounds of the loop, `fuel` each walk in the tree.
  unfoldable pub process_pending_add : ℕ → EventPipe → World Bus → Run (EventPipe × World Bus)
  process_pending_add zero p w = out_of_fuel
  process_pending_add (suc rounds) p w = elim (spsc_queue_read p.pending_add).1 [
    | empty ↦ done (p, w)
    | fault ↦ Run.fault
    | item q ↦
        (event_tree_add fuel p.tree w q >>= λ (tree, w', added).
        process_pending_add rounds
          (record p { pending_add = (spsc_queue_read p.pending_add).0; tree = tree }) w')
  ]

  -- Called by the thread `caller`. The address of the function `event_queue_is_synched`, which is tested,
  -- is never null.
  unfoldable pub event_pipe_add : ℕ → EventPipe → World Bus → ℕ → Run (EventPipe × World Bus)
  event_pipe_add caller p w q =
      if caller == p.this_thread
      then (event_tree_add fuel p.tree w q >>= λ (tree, w', added).
          done (record p { tree = tree }, w'))
      else done (record p { pending_add = (spsc_queue_write p.pending_add q).0 }, w)

  unfoldable pub event_pipe_is_empty :
      ℕ → EventPipe → World Bus → Run (EventPipe × World Bus × Bool)
  event_pipe_is_empty rounds p w = process_pending_add rounds p w >>= λ (p', w').
      event_tree_is_empty fuel p'.tree w' >>= λ (tree, w'', b).
      done (record p' { tree = tree }, w'', b)

  unfoldable pub event_pipe_read :
      Bool → ℕ → EventPipe → World Bus → Run (EventPipe × World Bus × Option ℕ)
  event_pipe_read checked rounds p w = process_pending_add rounds p w >>= λ (p', w').
      event_tree_read checked fuel p'.tree w' >>= λ (tree, w'', e).
      done (record p' { tree = tree }, w'', e)
