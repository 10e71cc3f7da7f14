-- ===== src/EventPipe/Pending.antt =====
-- The queues that other threads handed over to a pipe, in the order of the handing over.
use libqtl.Base.{ℕ, zero, suc, ◌<◌, ◌≡◌, refl, sym, ◌∙◌, Bool, List, [], ◌∷◌, length, arith}
use libqtl.Spsc.{Spsc, spsc_queue_read}
use libqtl.Spsc.Refine.{Represents, read_refines}
use libqtl.EventTree.{EventTree, event_tree_add, event_tree_is_empty}
use libqtl.EventTree.Memory.{Run, aborted, out_of_fuel, done, ◌>>=◌, World}
use libqtl.EventTree.Read.{event_tree_read}
use libqtl.EventPipe.{EventPipe, process_pending_add, event_pipe_is_empty, event_pipe_read}

bind_assoc :
    {A B C : Type 0} (f : A → Run B) (g : B → Run C) (r : Run A)
    → (r >>= f >>= g) ≡ (r >>= λ a. f a >>= g)
bind_assoc f g aborted = refl
bind_assoc f g Run.fault = refl
bind_assoc f g out_of_fuel = refl
bind_assoc f g (done a) = refl

bind_both :
    {A B : Type 0} (f g : A → Run B) (r : Run A) → ((a : A) → f a ≡ g a) → (r >>= f) ≡ (r >>= g)
bind_both f g aborted h = refl
bind_both f g Run.fault h = refl
bind_both f g out_of_fuel h = refl
bind_both f g (done a) h = h a

-- The queue after so many reads.
unfoldable read_all : Spsc ℕ → List ℕ → Spsc ℕ
read_all pending [] = pending
read_all pending (q ∷ qs) = read_all (spsc_queue_read pending).0 qs

read_all-Represents :
    (pending : Spsc ℕ) (qs : List ℕ) → Represents pending qs → Represents (read_all pending qs) []
unfolding read_all
read_all-Represents pending [] r = r
read_all-Represents pending (q ∷ qs) r =
    read_all-Represents (spsc_queue_read pending).0 qs (read_refines pending (q ∷ qs) r).0

module _ {Bus : Type 0} (fuel : ℕ) where
  -- The queues added to a tree one after the other.
  unfoldable pub add_all : EventTree → World Bus → List ℕ → Run (EventTree × World Bus)
  add_all tree w [] = done (tree, w)
  add_all tree w (q ∷ qs) =
      event_tree_add fuel tree w q >>= λ (tree', w', added). add_all tree' w' qs

  -- The pipe with nothing pending.
  abbrev drained : EventPipe → Spsc ℕ → Run (EventTree × World Bus) → Run (EventPipe × World Bus)
  drained p pending r = r >>= λ (tree, w). done (record p { pending_add = pending; tree = tree }, w)

  process_pending_add-add_all :
      (rounds : ℕ) (p : EventPipe) (w : World Bus) (qs : List ℕ)
      → Represents p.pending_add qs
      → length qs < rounds
      → process_pending_add fuel rounds p w
        ≡ drained p (read_all p.pending_add qs) (add_all p.tree w qs)
  unfolding process_pending_add add_all read_all
  process_pending_add-add_all zero p w qs r enough = absurd (omega (arith, enough))
  process_pending_add-add_all (suc rounds) p w [] r enough =
      let (_, none_left, _) = read_refines p.pending_add [] r in
      rw (none_left, process_pending_add) refl
  process_pending_add-add_all (suc rounds) p w (q ∷ qs) r enough =
      let (r', next, _) = read_refines p.pending_add (q ∷ qs) r in
      rw (next, process_pending_add)
        (bind_both _ _ (event_tree_add fuel p.tree w q) (λ (tree, w', added).
            process_pending_add-add_all rounds
              (record p { pending_add = (spsc_queue_read p.pending_add).0; tree = tree }) w' qs r'
              (omega (arith, enough)))
          ∙ sym (bind_assoc _ _ (event_tree_add fuel p.tree w q)))

  -- A read or a test, in any number of rounds above that of the pending queues, adds those to the tree in
  -- the order in which they were handed over, then reads from the tree or tests it, and leaves nothing
  -- pending.
  pub event_pipe_read-add_all :
      (checked : Bool) (rounds : ℕ) (p : EventPipe) (w : World Bus) (qs : List ℕ)
      → Represents p.pending_add qs
      → length qs < rounds
      → (pending : Spsc ℕ) × Represents pending []
        × (event_pipe_read fuel checked rounds p w ≡ (
            add_all p.tree w qs >>= λ (tree, w').
            event_tree_read checked fuel tree w' >>= λ (tree', w'', e).
            done (record p { pending_add = pending; tree = tree' }, w'', e)))
        × (event_pipe_is_empty fuel rounds p w ≡ (
            add_all p.tree w qs >>= λ (tree, w').
            event_tree_is_empty fuel tree w' >>= λ (tree', w'', b).
            done (record p { pending_add = pending; tree = tree' }, w'', b)))
  unfolding event_pipe_read event_pipe_is_empty
  event_pipe_read-add_all checked rounds p w qs r enough = (
    read_all p.pending_add qs,
    read_all-Represents p.pending_add qs r,
    rw (process_pending_add-add_all rounds p w qs r enough) (bind_assoc _ _ (add_all p.tree w qs)),
    rw (process_pending_add-add_all rounds p w qs r enough) (bind_assoc _ _ (add_all p.tree w qs)),
  )
