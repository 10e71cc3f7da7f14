-- ===== src/EventPipe/Loading.antt =====
-- Queues added to an empty tree, and then read to their ends.
use libqtl.Base.{ℕ, suc, ◌≤◌, ◌≡◌, refl, ap, ◌∙◌, Option, none, some, List, [], ◌∷◌, length, arith}
use libqtl.EventTree.{EventTree}
use libqtl.EventTree.Memory.{done, ◌>>=◌, World, put}
use libqtl.EventTree.Frame.{put_self}
use libqtl.EventTree.Order.{AllTimes}
use libqtl.EventTree.Entries.{sum}
use libqtl.EventTree.Played.{Played}
use libqtl.EventTree.UntilClosed.{read-Played}
use libqtl.EventTree.FirstNode.{IsUnlinked, first_add-Ready}
use libqtl.EventPipe.Pending.{add_all}
use libqtl.EventPipe.Filling.{
  New, new_queues, supply_for, total, fill_in, length-fill_in, Fresh, Added, add_all-Ready,
}

any_time : (xs : List (ℕ × ℕ)) → AllTimes (λ u. 0 ≤ u) xs
any_time [] = tt
any_time ((t, x) ∷ xs) = (omega arith, any_time xs)

module _ {Bus : Type 0} (events : ℕ → List ℕ) (fuel stop : ℕ) (after : List (Option ℕ)) where
  -- The queues are in the tree, and reads give all their events.
  pub record Loaded (tree : EventTree) (w : World Bus) (news : List New) : Type 0 where
    pub queue_of : ℕ → ℕ
    pub tree' : EventTree
    pub world' : World Bus
    pub nodes_in : List (ℕ × ℕ)
    pub runs : add_all fuel tree w (new_queues news) ≡ done (tree', world')
    pub events_stay : world'.events ≡ w.events
    pub plays : Played queue_of fuel stop 0 tree' world' events nodes_in
    pub sums : (m : List ℕ → ℕ) → sum queue_of m events nodes_in ≡ total m events news

  -- Queues added to an empty tree that waits for none, each another one with events whose times do not go
  -- back, the last of which closes it, and no other one; `malloc` gives a new address for the node of each,
  -- and one for an event. The first of these addresses holds by chance a node without links at the time of
  -- the first queue's first event, since no call sets these members. Then reads give all events of the queues
  -- in the order of their times, but for the last, instead of which comes that of the simulation's end.
  pub add_all-Played :
      (tree : EventTree) (w : World Bus) (t a q : ℕ) (news : List New)
      → tree.root ≡ none
      → tree.last ≡ none
      → w.supply ≡ supply_for ((t, a, q) ∷ news) (some stop ∷ after)
      → IsUnlinked w events (w.nodes a) t
      → Fresh events w.events w.queues [] [] ((t, a, q) ∷ news)
      → suc (length news) ≤ fuel
      → Loaded tree w ((t, a, q) ∷ news)
  unfolding add_all
  add_all-Played tree w t a q news root waits free unlinked (_, _, entry, fresh) enough =
      let (nodes1, run, ready1) =
        first_add-Ready w events fuel (λ x. (w.nodes x).queue) tree t a q
          (supply_for news (some stop ∷ after)) (λ x. refl) root free unlinked entry in
      let queue1 : ℕ → ℕ = put (λ x. (w.nodes x).queue) a q in
      let w1 : World Bus = record w {
        nodes = nodes1;
        supply = supply_for news (some stop ∷ after);
      } in
      let all : Added events fuel (some stop ∷ after) (record tree { root = some a }) w1 news
          ((t, a) ∷ []) (λ m. sum queue1 m events ((t, a) ∷ [])) =
        add_all-Ready events fuel (some stop ∷ after) news queue1 (record tree { root = some a }) w1
          a (a ∷ []) (q ∷ []) ((t, a) ∷ []) ready1 refl refl fresh (λ y h. h)
          (λ y h. rw (put_self (λ x. (w.nodes x).queue) a q) h) (omega (arith, enough)) in
      let tree2 : EventTree = record tree { root = all.root' } in
      let w2 : World Bus = record w1 { nodes = all.nodes'; supply = some stop ∷ after } in
      let sums : ((m : List ℕ → ℕ)
          → sum all.queue_of m events (fill_in news ((t, a) ∷ []))
            ≡ total m events ((t, a, q) ∷ news)) =
        λ m.
          omega
            (arith, all.sums m, ap (λ b. m (events b)) (put_self (λ x. (w.nodes x).queue) a q)) in
      record {
        queue_of = all.queue_of;
        tree' = tree2;
        world' = w2;
        nodes_in = fill_in news ((t, a) ∷ []);
        runs =
            ap (λ made. made >>= λ (tree', w', added). add_all fuel tree' w' (new_queues news)) run
            ∙ all.runs;
        events_stay = refl;
        plays =
            read-Played all.queue_of fuel stop after (total length events ((t, a, q) ∷ news)) 0
              tree2 w2 events (fill_in news ((t, a) ∷ [])) all.ready
              (omega (arith, length-fill_in news ((t, a) ∷ []), enough)) waits
              (any_time (fill_in news ((t, a) ∷ []))) refl (omega (arith, sums length))
              (omega (arith, sums length, ap length entry.contents));
        sums = sums;
      }
