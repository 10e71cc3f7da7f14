-- ===== src/EventPipe/HandOver.antt =====
-- Queues that other threads hand over to a pipe, and its next read.
use libqtl.Base.{
  ℕ, suc, ◌+◌, ◌<◌, ◌≡◌, ◌≢◌, refl, ap, Bool, true, false, List, [], ◌∷◌, ◌++◌, length,
  length-append, append_assoc, append-nil, arith, ◌==◌,
}
use mathlib.Core.Path.{subst}
use libqtl.Spsc.{Spsc, spsc_queue_write}
use libqtl.Spsc.Refine.{Represents, push, write-capacity, write_refines}
use libqtl.EventTree.{event_tree_is_empty}
use libqtl.EventTree.Memory.{Run, done, ◌>>=◌, World}
use libqtl.EventTree.Read.{event_tree_read}
use libqtl.EventPipe.{EventPipe, event_pipe_add, event_pipe_is_empty, event_pipe_read}
use libqtl.EventPipe.Pending.{add_all, event_pipe_read-add_all}

append-Represents :
    (q : Spsc ℕ) (xs : List ℕ) (e : ℕ)
    → Represents q xs
    → suc (length xs) < q.capacity
    → Represents (spsc_queue_write q e).0 (xs ++ e ∷ [])
append-Represents q xs e r room =
    let not_full : (suc (length xs) == q.capacity) ≡ false = ground (arith, room) in
    let appended : push q.capacity xs e ≡ (xs ++ e ∷ [], true) = rw not_full refl in
    subst (λ p. Represents (spsc_queue_write q e).0 p.0) appended (write_refines q xs r e).0

-- None of these calls is from the thread `t`.
abbrev pub AllOthers : ℕ → List (ℕ × ℕ) → Type 0
AllOthers t [] = Unit
AllOthers t ((caller, q) ∷ calls) = (caller ≢ t) × AllOthers t calls

-- The queues of the calls.
abbrev pub queues_in : List (ℕ × ℕ) → List ℕ
queues_in [] = []
queues_in ((caller, q) ∷ calls) = q ∷ queues_in calls

length-queues_in : (calls : List (ℕ × ℕ)) → length (queues_in calls) ≡ length calls
length-queues_in [] = refl
length-queues_in ((caller, q) ∷ calls) = ap suc (length-queues_in calls)

-- The pending queues after these calls.
unfoldable write_all : Spsc ℕ → List (ℕ × ℕ) → Spsc ℕ
write_all pending [] = pending
write_all pending ((caller, q) ∷ calls) = write_all (spsc_queue_write pending q).0 calls

write_all-Represents :
    (calls : List (ℕ × ℕ)) (pending : Spsc ℕ) (qs : List ℕ)
    → Represents pending qs
    → length qs + length calls < pending.capacity
    → Represents (write_all pending calls) (qs ++ queues_in calls)
unfolding write_all
write_all-Represents [] pending qs r room = rw (append-nil qs) r
write_all-Represents ((caller, q) ∷ calls) pending qs r room =
    rw⁻¹ (append_assoc qs (q ∷ []) (queues_in calls)) (
      write_all-Represents calls (spsc_queue_write pending q).0 (qs ++ q ∷ [])
        (append-Represents pending qs q r (omega (arith, room)))
        (omega (arith, room, write-capacity pending q, length-append qs (q ∷ []))))

module _ {Bus : Type 0} (fuel : ℕ) where
  -- The calls of `event_pipe_add`, each by a thread for a queue.
  unfoldable pub hand_over : EventPipe → World Bus → List (ℕ × ℕ) → Run (EventPipe × World Bus)
  hand_over p w [] = done (p, w)
  hand_over p w ((caller, q) ∷ calls) =
      event_pipe_add fuel caller p w q >>= λ (p', w'). hand_over p' w' calls

  hand_over-write_all :
      (calls : List (ℕ × ℕ)) (p : EventPipe) (w : World Bus)
      → AllOthers p.this_thread calls
      → hand_over p w calls ≡ done (record p { pending_add = write_all p.pending_add calls }, w)
  unfolding hand_over write_all event_pipe_add
  hand_over-write_all [] p w h = refl
  hand_over-write_all ((caller, q) ∷ calls) p w (ne, h) =
      let other : (caller == p.this_thread) ≡ false = ground (arith, ne) in
      rw other (
        hand_over-write_all calls (record p { pending_add = (spsc_queue_write p.pending_add q).0 })
          w h)

  -- Queues that other threads hand over to a pipe with nothing pending, fewer than the capacity of its
  -- pending queue, change nothing in memory; the next read or test, with a round more than there are such
  -- queues, adds them to the tree in this order before it reads from the tree or tests it, and leaves
  -- nothing pending.
  pub hand_over-add_all :
      (checked : Bool) (rounds : ℕ) (p : EventPipe) (w : World Bus) (calls : List (ℕ × ℕ))
      → Represents p.pending_add []
      → AllOthers p.this_thread calls
      → length calls < p.pending_add.capacity
      → length calls < rounds
      → (p' : EventPipe) × (pending : Spsc ℕ) × (hand_over p w calls ≡ done (p', w))
        × Represents pending []
        × (event_pipe_read fuel checked rounds p' w ≡ (
            add_all fuel p.tree w (queues_in calls) >>= λ (tree, w').
            event_tree_read checked fuel tree w' >>= λ (tree', w'', e).
            done (record p { pending_add = pending; tree = tree' }, w'', e)))
        × (event_pipe_is_empty fuel rounds p' w ≡ (
            add_all fuel p.tree w (queues_in calls) >>= λ (tree, w').
            event_tree_is_empty fuel tree w' >>= λ (tree', w'', b).
            done (record p { pending_add = pending; tree = tree' }, w'', b)))
  hand_over-add_all checked rounds p w calls r others room enough =
      let p' : EventPipe = record p { pending_add = write_all p.pending_add calls } in
      let (pending, left, reads, tests) =
        event_pipe_read-add_all fuel checked rounds p' w (queues_in calls)
          (write_all-Represents calls p.pending_add [] r (omega (arith, room)))
          (omega (arith, enough, length-queues_in calls)) in
      (p', pending, hand_over-write_all calls p w others, left, reads, tests)
