-- ===== src/EventPipe/Filling.antt =====
-- Queues added to a pipe's tree, one after the other.
use libqtl.Base.{
  ℕ, ◌+◌, ◌≤◌, ◌≡◌, ◌≢◌, refl, ap, ◌∙◌, Bool-cases, inl, inr, Option, some, List, [], ◌∷◌, length,
  arith, ltb,
}
use mathlib.Core.Path.{subst}
use libqtl.EventQueue.{EventQueue, Store}
use libqtl.EventTree.{EventTree}
use libqtl.EventTree.Memory.{done, ◌>>=◌, World, Nodes, put}
use libqtl.EventTree.Shape.{Off}
use libqtl.EventTree.Frame.{put_self}
use libqtl.EventTree.Order.{insert_sorted}
use libqtl.EventTree.Represents.{Represents, addresses}
use libqtl.EventTree.Entries.{
  Entry, length-insert_sorted, queues_of, Off-insert_sorted, sum, sum-insert_sorted,
}
use libqtl.EventTree.NextEvent.{Ready}
use libqtl.EventTree.Closing.{some-Represents}
use libqtl.EventTree.Played.{EndsClosed}
use libqtl.EventTree.Adding.{sum-put_queue, queues_of-put, event_tree_add-Ready}
use libqtl.EventPipe.Pending.{add_all}

-- Queues to add: the time of the first event, the address of the node, and the queue.
abbrev pub New : Type 0
New = ℕ × ℕ × ℕ

abbrev pub new_queues : List New → List ℕ
new_queues [] = []
new_queues ((t, a, q) ∷ news) = q ∷ new_queues news

-- What `malloc` returns for them, and then.
abbrev pub supply_for : List New → List (Option ℕ) → List (Option ℕ)
supply_for [] more = more
supply_for ((t, a, q) ∷ news) more = some a ∷ supply_for news more

-- A number of the events of each.
abbrev pub total : (List ℕ → ℕ) → (ℕ → List ℕ) → List New → ℕ
total m events [] = 0
total m events ((t, a, q) ∷ news) = m (events q) + total m events news

abbrev pub fill_in : List New → List (ℕ × ℕ) → List (ℕ × ℕ)
fill_in [] xs = xs
fill_in ((t, a, q) ∷ news) xs = fill_in news (insert_sorted t a xs)

Off-addresses :
    (y t a : ℕ) (xs : List (ℕ × ℕ))
    → y ≢ a
    → Off y (addresses xs)
    → Off y (addresses (insert_sorted t a xs))
unfolding insert_sorted
Off-addresses y t a [] ne h = (ne, tt)
Off-addresses y t a ((u, x) ∷ xs) ne h = elim (Bool-cases (ltb t u)) [
  | inl e ↦ rw e (ne, h)
  | inr e ↦ rw e (h.0, Off-addresses y t a xs ne h.1)
]

insert_sorted-cons :
    (t a : ℕ) (xs : List (ℕ × ℕ))
    → (y : ℕ × ℕ) × (ys : List (ℕ × ℕ)) × (insert_sorted t a xs ≡ y ∷ ys)
unfolding insert_sorted
insert_sorted-cons t a [] = ((t, a), [], refl)
insert_sorted-cons t a ((u, x) ∷ xs) = elim (Bool-cases (ltb t u)) [
  | inl e ↦ rw e ((t, a), ((u, x) ∷ xs), refl)
  | inr e ↦ rw e ((u, x), insert_sorted t a xs, refl)
]

pub length-fill_in :
    (news : List New) (xs : List (ℕ × ℕ)) → length (fill_in news xs) ≡ length news + length xs
length-fill_in [] xs = omega arith
length-fill_in ((t, a, q) ∷ news) xs =
    omega (arith, length-fill_in news (insert_sorted t a xs), length-insert_sorted t a xs)

module _ {Bus : Type 0} (events : ℕ → List ℕ) where
  -- Every node has an address that no other one has, nor these, and every queue is another one, and not one
  -- of these; its times do not go back, and its last event closes it, and no other one.
  abbrev pub Fresh : Store → (ℕ → EventQueue Bus) → List ℕ → List ℕ → List New → Type 0
  Fresh store queues nodes_had queues_had [] = Unit
  Fresh store queues nodes_had queues_had ((t, a, q) ∷ news) =
      Off a nodes_had
      × Off q queues_had
      × Entry (λ x. q) store EndsClosed queues events t q
      × Fresh store queues (a ∷ nodes_had) (q ∷ queues_had) news

  module _ (fuel : ℕ) (more : List (Option ℕ)) where
    -- The tree and the memory after the queues were added.
    pub record Added (tree : EventTree) (w : World Bus) (news : List New) (xs : List (ℕ × ℕ))
        (before : (List ℕ → ℕ) → ℕ) : Type 0 where
      pub queue_of : ℕ → ℕ
      pub root' : Option ℕ
      pub nodes' : Nodes
      pub runs :
          add_all fuel tree w (new_queues news)
          ≡ done (record tree { root = root' }, record w { nodes = nodes'; supply = more })
      pub ready :
          Ready queue_of EndsClosed
            (record tree { root = root' })
            (record w { nodes = nodes'; supply = more })
            events
            (fill_in news xs)
      pub sums :
          (m : List ℕ → ℕ)
          → sum queue_of m events (fill_in news xs) ≡ total m events news + before m

    pub add_all-Ready :
        (news : List New) (queue_of : ℕ → ℕ) (tree : EventTree) (w : World Bus) (r : ℕ)
        (nodes_had queues_had : List ℕ) (xs : List (ℕ × ℕ))
        → Ready queue_of EndsClosed tree w events xs
        → tree.root ≡ some r
        → w.supply ≡ supply_for news more
        → Fresh w.events w.queues nodes_had queues_had news
        → ((y : ℕ) → Off y nodes_had → Off y (addresses xs))
        → ((y : ℕ) → Off y queues_had → Off y (queues_of queue_of xs))
        → length xs + length news ≤ fuel
        → Added tree w news xs (λ m. sum queue_of m events xs)
    unfolding add_all
    add_all-Ready [] queue_of tree w r nodes_had queues_had xs ready root free fresh an aq enough =
        record {
          queue_of = queue_of;
          root' = tree.root;
          nodes' = w.nodes;
          runs = ap (λ l. done (tree, record w { supply = l })) free;
          ready = record {
            rep = ready.rep;
            queues_are = ready.queues_are;
            entries = ready.entries;
          };
          sums = λ m. omega arith;
        }
    add_all-Ready ((t, a, q) ∷ news) queue_of tree w r nodes_had queues_had xs ready root free
          (off, distinct, entry, fresh) an aq enough =
        let (root1, nodes1, run, ready1) =
          event_tree_add-Ready w events fuel queue_of tree r t a q (supply_for news more) xs ready
            root free (an a off) (aq q distinct) entry (omega (arith, enough)) in
        let (y, ys, cons) = insert_sorted-cons t a xs in
        let (r1, root_is) =
          some-Represents nodes1 root1 y ys (subst (Represents nodes1 root1) cons ready1.rep) in
        let all : Added (record tree { root = root1 })
            (record w { nodes = nodes1; supply = supply_for news more }) news (insert_sorted t a xs)
            (λ m. sum (put queue_of a q) m events (insert_sorted t a xs)) =
          add_all-Ready news (put queue_of a q) (record tree { root = root1 })
            (record w { nodes = nodes1; supply = supply_for news more }) r1 (a ∷ nodes_had)
            (q ∷ queues_had) (insert_sorted t a xs) ready1 root_is refl fresh
            (λ y (ne, h). Off-addresses y t a xs ne (an y h))
            (λ y (ne, h).
              Off-insert_sorted (put queue_of a q) y t a xs (rw (put_self queue_of a q) ne)
                (rw (queues_of-put queue_of a q xs (an a off)) (aq y h)))
            (omega (arith, length-insert_sorted t a xs, enough)) in
        record {
          queue_of = all.queue_of;
          root' = all.root';
          nodes' = all.nodes';
          runs =
              ap (λ made. made >>= λ (tree', w', added). add_all fuel tree' w' (new_queues news))
                run
              ∙ all.runs;
          ready = all.ready;
          sums = λ m. omega (
            arith,
            all.sums m,
            sum-insert_sorted (put queue_of a q) m events t a xs,
            ap (λ b. m (events b)) (put_self queue_of a q),
            sum-put_queue queue_of m events a q xs (an a off),
          );
        }
