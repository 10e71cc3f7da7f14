-- ===== src/EventTree/NextEvent.antt =====
-- One read from a tree of queues that have events.
use libqtl.Base.{
  ℕ, suc, ◌+◌, ◌≤◌, ◌<◌, ◌≡◌, refl, sym, ap, ◌∙◌, true, false, Option, some, List, [], ◌∷◌, length,
  arith, ◌==◌,
}
use mathlib.Core.Path.{subst}
use libqtl.Event.{Event, event_get_type}
use libqtl.Event.Refs.{Life, alive}
use libqtl.Spsc.{item, spsc_queue_is_empty}
use libqtl.Spsc.Refine.{is_empty_lem, Represents as Holding}
use libqtl.EventQueue.{EventQueue, Store, time_of_life, event_queue_pop, event_queue_is_empty}
use libqtl.EventQueue.Refine.{pop_refines}
use libqtl.EventTree.{EventTree}
use libqtl.EventTree.Read.{event_tree_read, is_closed}
use libqtl.EventTree.Memory.{done, World, Nodes, put}
use libqtl.EventTree.Shape.{Off}
use libqtl.EventTree.Frame.{put_self}
use libqtl.EventTree.Order.{AllTimes, insert_sorted}
use libqtl.EventTree.Represents.{Represents}
use libqtl.EventTree.Closing.{event_tree_read-is_closed}
use libqtl.EventTree.Merge.{
  event_tree_read_lem, event_tree_read-insert_sorted, event_tree_read-last,
}
use libqtl.EventTree.Entries.{
  is_open, time_at, SortedFrom, opened, queues_of, Entries, Entries-put, Entries-insert_sorted,
  AllTimes-insert_sorted, length-insert_sorted, sum, sum-put, sum-insert_sorted,
}

module _ {Bus : Type 0} where
  -- The tree has these nodes, whose queues hold these events.
  pub record Ready (queue_of : ℕ → ℕ) (Fine : Store → List ℕ → Type 0) (tree : EventTree)
      (w : World Bus) (events : ℕ → List ℕ) (xs : List (ℕ × ℕ)) : Type 0 where
    pub rep : Represents w.nodes tree.root xs
    pub queues_are : (x : ℕ) → (w.nodes x).queue ≡ queue_of x
    pub entries : Entries queue_of w.events Fine w.queues events xs

  pub popped :
      (q : EventQueue Bus) (e : ℕ) (es : List ℕ)
      → Holding q.spsc (e ∷ es)
      → (q' : EventQueue Bus) × (event_queue_pop q ≡ (q', item e)) × Holding q'.spsc es
  popped q e es h =
      let k = pop_refines (λ a. Life.freed) q (e ∷ es) h in
      ((event_queue_pop q).0, ap (λ i. ((event_queue_pop q).0, i)) k.2, k.0)

  pub emptied :
      (q : EventQueue Bus) (es : List ℕ)
      → Holding q.spsc es
      → event_queue_is_empty q ≡ (length es == 0)
  unfolding event_queue_is_empty spsc_queue_is_empty
  emptied q es h = is_empty_lem q.spsc es h

  module _ (queue_of : ℕ → ℕ) (Fine : Store → List ℕ → Type 0) (fuel : ℕ) (tree : EventTree)
      (w : World Bus) (events : ℕ → List ℕ) (t x : ℕ) (xs : List (ℕ × ℕ)) where
    -- One read took the event `e`, and the queue has the events `es` left, the tree this `last`.
    pub record Next (e : ℕ) (es : List ℕ) (last' : Option ℕ) : Type 0 where
      pub tree' : EventTree
      pub nodes' : Nodes
      pub queues' : ℕ → EventQueue Bus
      pub xs' : List (ℕ × ℕ)
      pub reads :
          event_tree_read false fuel tree w
          ≡ done (tree', record w { nodes = nodes'; queues = queues' }, some e)
      pub ready :
          Ready queue_of Fine tree'
            (record w { nodes = nodes'; queues = queues' })
            (put events (queue_of x) es)
            xs'
      pub last_is : tree'.last ≡ last'
      pub later : AllTimes (λ u. t ≤ u) xs'
      pub short : length xs' ≤ suc (length xs)
      pub sums :
          (m : List ℕ → ℕ)
          → m [] ≡ 0
          → sum queue_of m (put events (queue_of x) es) xs' ≡ m es + sum queue_of m events xs

    module _ (rep : Represents w.nodes tree.root ((t, x) ∷ xs))
        (queues_are : (y : ℕ) → (w.nodes y).queue ≡ queue_of y)
        (distinct : Off (queue_of x) (queues_of queue_of xs))
        (rest : Entries queue_of w.events Fine w.queues events xs) (enough : length xs < fuel)
        (e : ℕ) where
      pub pop_here :
          (q : EventQueue Bus)
          → event_queue_pop (w.queues (queue_of x)) ≡ (q, item e)
          → event_queue_pop (w.queues (w.nodes x).queue) ≡ (q, item e)
      pop_here q h = ap (λ a. event_queue_pop (w.queues a)) (queues_are x) ∙ h

      put_here :
          (tree' : EventTree) (nodes' : Nodes) (q : EventQueue Bus)
          → event_tree_read false fuel tree w
            ≡ done (
              tree',
              record w { nodes = nodes'; queues = put w.queues (w.nodes x).queue q },
              some e,
            )
          → event_tree_read false fuel tree w
            ≡ done
                (tree', record w { nodes = nodes'; queues = put w.queues (queue_of x) q }, some e)
      put_here tree' nodes' q h =
          h
          ∙ ap (λ a. done (tree', record w { nodes = nodes'; queues = put w.queues a q }, some e))
              (queues_are x)

      least : AllTimes (λ u. t ≤ u) xs
      least = (event_tree_read_lem fuel tree w t x xs rep enough).4

      -- The queue has no other event.
      pub taken_last :
          is_open (w.events e) ≡ true
          → Holding (w.queues (queue_of x)).spsc (e ∷ [])
          → Next e [] (some x)
      taken_last open_e held =
          let (q, pop, left) = popped (w.queues (queue_of x)) e [] held in
          let (event, live, not_closed, _) = opened w.events e open_e in
          let (root', nodes', reads, rep', stay) =
            event_tree_read-last fuel tree w t x xs q e event rep enough (pop_here q pop) live
              not_closed (emptied q [] left) in
          record {
            tree' = record { root = root'; last = some x };
            nodes' = nodes';
            queues' = put w.queues (queue_of x) q;
            xs' = xs;
            reads = put_here _ nodes' q reads;
            ready = record {
              rep = rep';
              queues_are = λ y. stay y ∙ queues_are y;
              entries =
                  Entries-put queue_of w.events Fine w.queues events (queue_of x) q [] xs distinct
                    rest;
            };
            last_is = refl;
            later = least;
            short = omega arith;
            sums = λ m z. omega (arith, z, sum-put queue_of m events (queue_of x) [] xs distinct);
          }

      -- The queue has another one.
      pub taken_more :
          (f : ℕ) (fs : List ℕ)
          → is_open (w.events e) ≡ true
          → Holding (w.queues (queue_of x)).spsc (e ∷ f ∷ fs)
          → time_of_life (w.events f) ≡ some (time_at w.events f)
          → Fine w.events (f ∷ fs)
          → SortedFrom w.events t (f ∷ fs)
          → Next e (f ∷ fs) tree.last
      taken_more f fs open_e held time_f fine (not_before, later) =
          let (q, pop, left) = popped (w.queues (queue_of x)) e (f ∷ fs) held in
          let (event, live, not_closed, _) = opened w.events e open_e in
          let u : ℕ = time_at w.events f in
          let (root', nodes', reads, rep', stay) =
            event_tree_read-insert_sorted fuel tree w t x xs q e event u rep enough (pop_here q pop)
              live not_closed (emptied q (f ∷ fs) left ∙ ground arith)
              ((pop_refines w.events q (f ∷ fs) left).4 ∙ time_f) in
          let es : List ℕ = f ∷ fs in
          record {
            tree' = record tree { root = root' };
            nodes' = nodes';
            queues' = put w.queues (queue_of x) q;
            xs' = insert_sorted u x xs;
            reads = put_here _ nodes' q reads;
            ready = record {
              rep = rep';
              queues_are = λ y. stay y ∙ queues_are y;
              entries =
                  Entries-insert_sorted queue_of w.events Fine (put w.queues (queue_of x) q)
                    (put events (queue_of x) es) u x xs
                    (record {
                      first_event = f;
                      others = fs;
                      contents = put_self events (queue_of x) es;
                      held = rw (put_self w.queues (queue_of x) q) left;
                      fine = fine;
                      time = refl;
                      later = later;
                    })
                    distinct
                    (Entries-put queue_of w.events Fine w.queues events (queue_of x) q es xs
                      distinct rest);
            };
            last_is = refl;
            later = AllTimes-insert_sorted (λ v. t ≤ v) u x xs not_before least;
            short = omega (arith, length-insert_sorted u x xs);
            sums = λ m z. omega (
              arith,
              sum-insert_sorted queue_of m (put events (queue_of x) es) u x xs,
              ap m (put_self events (queue_of x) es),
              sum-put queue_of m events (queue_of x) es xs distinct,
            );
          }

      -- The event closes its queue, which has no other one, and the tree has other nodes.
      pub taken_closed :
          (event : Event) (y : ℕ × ℕ) (ys : List (ℕ × ℕ))
          → xs ≡ y ∷ ys
          → w.events e ≡ alive event
          → is_closed (event_get_type event) ≡ true
          → Holding (w.queues (queue_of x)).spsc (e ∷ [])
          → Next e [] tree.last
      taken_closed event y ys more live closed held =
          let (q, pop, left) = popped (w.queues (queue_of x)) e [] held in
          let (root', nodes', reads, rep', stay) =
            event_tree_read-is_closed fuel tree w t x y ys q e event
              (subst (λ l. Represents w.nodes tree.root ((t, x) ∷ l)) more rep)
              (omega (arith, enough, ap length more)) (pop_here q pop) live closed in
          record {
            tree' = record tree { root = root' };
            nodes' = nodes';
            queues' = put w.queues (queue_of x) q;
            xs' = xs;
            reads = put_here _ nodes' q reads;
            ready = record {
              rep = subst (Represents nodes' root') (sym more) rep';
              queues_are = λ z. stay z ∙ queues_are z;
              entries =
                  Entries-put queue_of w.events Fine w.queues events (queue_of x) q [] xs distinct
                    rest;
            };
            last_is = refl;
            later = least;
            short = omega arith;
            sums = λ m z. omega (arith, z, sum-put queue_of m events (queue_of x) [] xs distinct);
          }
