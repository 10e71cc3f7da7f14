-- ===== src/EventTree/Adding.antt =====
-- `event_tree_add`: a queue with events gets a node, which takes its place among the others.
use libqtl.Base.{
  ℕ, ◌≤◌, ◌≡◌, refl, sym, ap, ◌∙◌, true, false, Bool-cases, inl, inr, Option, some, List, [], ◌∷◌,
  length, arith, ◌==◌,
}
use libqtl.EventQueue.{event_queue_is_empty, event_queue_peek_time}
use libqtl.EventQueue.Refine.{pop_refines}
use libqtl.EventTree.{EventTree, event_tree_add, event_tree_rebalance, add_node, node_new}
use libqtl.EventTree.Memory.{done, ◌>>=◌, World, Nodes, TreeNode, put, modify}
use libqtl.EventTree.Shape.{Off}
use libqtl.EventTree.Frame.{put_self, put_other}
use libqtl.EventTree.Order.{insert_sorted}
use libqtl.EventTree.Represents.{Represents-put, addresses, event_tree_rebalance_lem}
use libqtl.EventTree.Entries.{queues_of, Entry, Entries, Entries-insert_sorted, sum}
use libqtl.EventTree.NextEvent.{Ready, emptied}
use libqtl.EventTree.Played.{EndsClosed, EndsClosed-time}

pub queues_of-put :
    (queue_of : ℕ → ℕ) (a q : ℕ) (xs : List (ℕ × ℕ))
    → Off a (addresses xs)
    → queues_of (put queue_of a q) xs ≡ queues_of queue_of xs
queues_of-put queue_of a q [] h = refl
queues_of-put queue_of a q ((t, x) ∷ xs) h =
    rw (put_other queue_of a q x (λ e. h.0 (sym e)), queues_of-put queue_of a q xs h.1) refl

-- A node outside the tree may have any queue.
pub sum-put_queue :
    (queue_of : ℕ → ℕ) (m : List ℕ → ℕ) (events : ℕ → List ℕ) (a q : ℕ) (xs : List (ℕ × ℕ))
    → Off a (addresses xs)
    → sum (put queue_of a q) m events xs ≡ sum queue_of m events xs
sum-put_queue queue_of m events a q [] h = refl
sum-put_queue queue_of m events a q ((t, x) ∷ xs) h =
    rw (put_other queue_of a q x (λ e. h.0 (sym e)), sum-put_queue queue_of m events a q xs h.1)
      refl

module _ {Bus : Type 0} (w : World Bus) (events : ℕ → List ℕ) where
  -- The queue holds these events, from the time `t` on, and ends with its closing.
  abbrev pub Filled : ℕ → ℕ → Type 0
  Filled t q = Entry (λ x. q) w.events EndsClosed w.queues events t q

  pub at_node :
      (queue_of : ℕ → ℕ) (t a q : ℕ)
      → queue_of a ≡ q
      → Filled t q
      → Entry queue_of w.events EndsClosed w.queues events t a
  at_node queue_of t a q e entry = record {
    first_event = entry.first_event;
    others = entry.others;
    contents = ap events e ∙ entry.contents;
    held = rw e entry.held;
    fine = entry.fine;
    time = entry.time;
    later = entry.later;
  }

  Entries-put_queue :
      (queue_of : ℕ → ℕ) (a q : ℕ) (xs : List (ℕ × ℕ))
      → Off a (addresses xs)
      → Entries queue_of w.events EndsClosed w.queues events xs
      → Entries (put queue_of a q) w.events EndsClosed w.queues events xs
  Entries-put_queue queue_of a q [] off h = tt
  Entries-put_queue queue_of a q ((t, x) ∷ xs) off (entry, distinct, h) =
      let e : put queue_of a q x ≡ queue_of x = put_other queue_of a q x (λ k. off.0 (sym k)) in
      (
        record {
          first_event = entry.first_event;
          others = entry.others;
          contents = ap events e ∙ entry.contents;
          held = rw e entry.held;
          fine = entry.fine;
          time = entry.time;
          later = entry.later;
        },
        rw (e, queues_of-put queue_of a q xs off.1) distinct,
        Entries-put_queue queue_of a q xs off.1 h,
      )

  -- The memory after a call of `node_new`.
  abbrev pub with_node : ℕ → ℕ → List (Option ℕ) → World Bus
  with_node a q more = record w {
    nodes = modify w.nodes a (λ n. record n { queue = q; head = some a });
    supply = more;
  }

  pub node_new_lem :
      (a q : ℕ) (more : List (Option ℕ))
      → w.supply ≡ some a ∷ more
      → node_new w q ≡ (some a, with_node a q more)
  unfolding node_new
  node_new_lem a q more free = rw free refl

  pub new_queue :
      (queue_of : ℕ → ℕ) (a q : ℕ) (more : List (Option ℕ)) (x : ℕ)
      → ((y : ℕ) → (w.nodes y).queue ≡ queue_of y)
      → ((with_node a q more).nodes x).queue ≡ put queue_of a q x
  new_queue queue_of a q more x h = elim (Bool-cases (a == x)) [
    | inl e ↦ rw e refl
    | inr e ↦ rw e (h x)
  ]

  pub not_empty : (t q : ℕ) → Filled t q → event_queue_is_empty (w.queues q) ≡ false
  not_empty t q entry =
      emptied (w.queues q) (entry.first_event ∷ entry.others) entry.held ∙ ground arith

  first_time : (t q : ℕ) → Filled t q → event_queue_peek_time w.events (w.queues q) ≡ some t
  first_time t q entry =
      (pop_refines w.events (w.queues q) (entry.first_event ∷ entry.others) entry.held).4
      ∙ EndsClosed-time w.events entry.first_event entry.others entry.fine
      ∙ ap some entry.time

  pub add_run :
      (fuel : ℕ) (tree tree' : EventTree) (r a q : ℕ) (w' w'' : World Bus)
      → event_queue_is_empty (w.queues q) ≡ false
      → node_new w q ≡ (some a, w')
      → tree.root ≡ some r
      → event_tree_rebalance fuel tree w' a ≡ done (tree', w'')
      → event_tree_add fuel tree w q ≡ done (tree', w'', true)
  unfolding event_tree_add add_node
  add_run fuel tree tree' r a q w' w'' some_left new root run =
      rw (some_left, new)
        (ap (λ p. add_node fuel tree p (some a, w')) root
          ∙ ap (λ made. made >>= λ (t, w). done (t, w, true)) run)

  -- A queue that no node of the tree has gets a node behind those of the same time; the fuel is at least the
  -- number of nodes.
  pub event_tree_add-Ready :
      (fuel : ℕ) (queue_of : ℕ → ℕ) (tree : EventTree) (r t a q : ℕ) (more : List (Option ℕ))
      (xs : List (ℕ × ℕ))
      → Ready queue_of EndsClosed tree w events xs
      → tree.root ≡ some r
      → w.supply ≡ some a ∷ more
      → Off a (addresses xs)
      → Off q (queues_of queue_of xs)
      → Filled t q
      → length xs ≤ fuel
      → (root' : Option ℕ) × (nodes' : Nodes) × (event_tree_add fuel tree w q
          ≡ done (record tree { root = root' }, record w { nodes = nodes'; supply = more }, true))
        × Ready
            (put queue_of a q)
            EndsClosed
            (record tree { root = root' })
            (record w { nodes = nodes'; supply = more })
            events
            (insert_sorted t a xs)
  event_tree_add-Ready fuel queue_of tree r t a q more xs ready root free off distinct entry
        enough =
      let w' : World Bus = with_node a q more in
      let its_queue : (w'.nodes a).queue ≡ q =
        ap TreeNode.queue (put_self w.nodes a (record (w.nodes a) { queue = q; head = some a })) in
      let again =
        event_tree_rebalance_lem fuel tree w' a t xs
          (ap (λ b. event_queue_peek_time w.events (w.queues b)) its_queue ∙ first_time t q entry)
          (Represents-put w.nodes a _ tree.root xs off ready.rep) off enough in
      (
        again.0,
        again.1,
        add_run fuel tree _ r a q w' _ (not_empty t q entry) (node_new_lem a q more free) root
            again.2,
        record {
          rep = again.3;
          queues_are = λ x. again.4 x ∙ new_queue queue_of a q more x ready.queues_are;
          entries =
              Entries-insert_sorted (put queue_of a q) w.events EndsClosed w.queues events t a xs
                (at_node (put queue_of a q) t a q (put_self queue_of a q) entry)
                (rw (put_self queue_of a q, queues_of-put queue_of a q xs off) distinct)
                (Entries-put_queue queue_of a q xs off ready.entries);
        },
      )
