-- ===== src/EventTree/UnsetRoot.antt =====
-- The first node of a tree keeps whatever time its memory held.
use libqtl.Base.{
  ℕ, ◌≤◌, ◌<◌, ◌≡◌, ◌≢◌, refl, sym, ap, ◌∙◌, true, false, Option, none, some, List, [], ◌∷◌, arith,
  ltb,
}
use mathlib.Core.Path.{subst}
use libqtl.Spsc.Refine.{Represents as Holding}
use libqtl.EventQueue.{event_queue_pop, event_queue_peek_time, time_of_life}
use libqtl.EventQueue.Refine.{pop_refines}
use libqtl.EventTree.{EventTree, event_tree_add}
use libqtl.EventTree.Memory.{done, Nodes, ◌>>=◌, World, TreeNode, put}
use libqtl.EventTree.Read.{event_tree_read}
use libqtl.EventTree.Frame.{put_self, put_other}
use libqtl.EventTree.Order.{insert_sorted}
use libqtl.EventTree.Represents.{Represents, Represents-put, event_tree_rebalance_lem}
use libqtl.EventTree.Merge.{event_tree_read-insert_sorted}
use libqtl.EventTree.Entries.{is_open, opened}
use libqtl.EventTree.NextEvent.{popped, emptied}
use libqtl.EventTree.Adding.{with_node, node_new_lem, add_run}
use libqtl.EventTree.FirstNode.{IsUnlinked, first_run, first-Represents}

module _ {Bus : Type 0} (w : World Bus) (events : ℕ → List ℕ) where
  -- The two queues are added, the first one's node stays the first.
  added :
      (fuel : ℕ) (tree : EventTree) (a b p q u t e g : ℕ) (es fs : List ℕ) (more : List (Option ℕ))
      → tree.root ≡ none
      → w.supply ≡ some a ∷ some b ∷ more
      → b ≢ a
      → IsUnlinked w events (w.nodes a) u
      → u ≤ t
      → Holding (w.queues p).spsc (e ∷ es)
      → Holding (w.queues q).spsc (g ∷ fs)
      → time_of_life (w.events g) ≡ some t
      → 1 < fuel
      → (root' : Option ℕ) × (nodes' : Nodes) × ((event_tree_add fuel tree w p >>= λ (tree1, w1, _).
            event_tree_add fuel tree1 w1 q)
          ≡ done (record tree { root = root' }, record w { nodes = nodes'; supply = more }, true))
        × Represents nodes' root' ((u, a) ∷ (t, b) ∷ [])
        × ((nodes' a).queue ≡ p)
  unfolding insert_sorted
  added fuel tree a b p q u t e g es fs more root free apart unlinked early hold_p hold_q time_g
        enough =
      let w1 : World Bus = with_node w events a p (some b ∷ more) in
      let tree1 : EventTree = record tree { root = some a } in
      let add1 =
        first_run w events fuel tree a p w1 (emptied (w.queues p) (e ∷ es) hold_p ∙ ground arith)
          (node_new_lem w events a p (some b ∷ more) free) root in
      let w1b : World Bus = with_node w1 events b q more in
      let its_queue : (w1b.nodes b).queue ≡ q =
        ap TreeNode.queue
          (put_self w1.nodes b (record (w1.nodes b) { queue = q; head = some b })) in
      let again =
        event_tree_rebalance_lem fuel tree1 w1b b t ((u, a) ∷ [])
          (ap (λ x. event_queue_peek_time w.events (w.queues x)) its_queue
            ∙ (pop_refines w.events (w.queues q) (g ∷ fs) hold_q).4
            ∙ time_g)
          (Represents-put w1.nodes b _ (some a) ((u, a) ∷ []) (apart, tt)
            (first-Represents w events u a p (some b ∷ more) unlinked))
          (apart, tt) (omega (arith, enough)) in
      let tree2 : EventTree = record tree1 { root = again.0 } in
      let w2 : World Bus = record w1b { nodes = again.1 } in
      let add2 =
        add_run w1 events fuel tree1 tree2 a b q w1b w2
          (emptied (w.queues q) (g ∷ fs) hold_q ∙ ground arith)
          (node_new_lem w1 events b q more refl) refl again.2 in
      let order : insert_sorted t b ((u, a) ∷ []) ≡ (u, a) ∷ (t, b) ∷ [] =
        let e : ltb t u ≡ false = ground (arith, early) in rw e refl in
      let queue_a : (w2.nodes a).queue ≡ p =
        again.4 a
        ∙ ap TreeNode.queue (
            put_other w1.nodes b (record (w1.nodes b) { queue = q; head = some b }) a
              (λ k. apart (sym k)))
        ∙ ap TreeNode.queue
            (put_self w.nodes a (record (w.nodes a) { queue = p; head = some a })) in
      (
        again.0,
        again.1,
        ap (λ made. made >>= λ (tree1, w1, _). event_tree_add fuel tree1 w1 q) add1 ∙ add2,
        subst (Represents again.1 again.0) order again.3,
        queue_a,
      )

  -- Two queues with events are added to an empty tree. The first one's first event is there and does not close
  -- it, and it has another one; the memory of its node, which `event_tree_add` does not set, holds no links,
  -- and a time that is not after that of the second queue's first event. Then a read, without assertions and
  -- with fuel of 2, gives the first event of the queue that was added first, at whatever time: a second queue
  -- with an earlier event does not come before it.
  pub event_tree_read-event_tree_add :
      (fuel : ℕ) (tree : EventTree) (a b p q u t v e f : ℕ) (es fs : List ℕ) (g : ℕ)
      (more : List (Option ℕ))
      → tree.root ≡ none
      → w.supply ≡ some a ∷ some b ∷ more
      → b ≢ a
      → IsUnlinked w events (w.nodes a) u
      → u ≤ t
      → Holding (w.queues p).spsc (e ∷ f ∷ es)
      → is_open (w.events e) ≡ true
      → time_of_life (w.events f) ≡ some v
      → Holding (w.queues q).spsc (g ∷ fs)
      → time_of_life (w.events g) ≡ some t
      → 1 < fuel
      → (tree' : EventTree) × (w' : World Bus) × (((event_tree_add fuel tree w p
              >>= λ (tree1, w1, _). event_tree_add fuel tree1 w1 q)
            >>= λ (tree2, w2, _). event_tree_read false fuel tree2 w2)
          ≡ done (tree', w', some e))
  event_tree_read-event_tree_add fuel tree a b p q u t v e f es fs g more root free apart unlinked
        early hold_p open_e time_f hold_q time_g enough =
      let (root2, nodes2, adds, rep, queue_a) =
        added fuel tree a b p q u t e g (f ∷ es) fs more root free apart unlinked early hold_p
          hold_q time_g enough in
      let tree2 : EventTree = record tree { root = root2 } in
      let w2 : World Bus = record w { nodes = nodes2; supply = more } in
      let (rest, pop, left) = popped (w.queues p) e (f ∷ es) hold_p in
      let (event, live, not_closed, _) = opened w.events e open_e in
      let (root', nodes', reads, _, _) =
        event_tree_read-insert_sorted fuel tree2 w2 u a ((t, b) ∷ []) rest e event v rep enough
          (ap (λ x. event_queue_pop (w.queues x)) queue_a ∙ pop) live not_closed
          (emptied rest (f ∷ es) left ∙ ground arith)
          ((pop_refines w.events rest (f ∷ es) left).4 ∙ time_f) in
      (
        record tree2 { root = root' },
        record w2 { nodes = nodes'; queues = put w2.queues (w2.nodes a).queue rest },
        ap (λ made. made >>= λ (tree2, w2, _). event_tree_read false fuel tree2 w2) adds ∙ reads,
      )
