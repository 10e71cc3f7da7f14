-- ===== src/EventTree/FirstNode.antt =====
-- `event_tree_add` on an empty tree: the first node, of which some members are not set.
use libqtl.Base.{ℕ, ◌≡◌, refl, ap, ◌∙◌, true, false, Option, none, some, List, [], ◌∷◌}
use libqtl.EventQueue.{event_queue_is_empty}
use libqtl.EventTree.{EventTree, event_tree_add, add_node, node_new}
use libqtl.EventTree.Memory.{done, World, Nodes, TreeNode, put}
use libqtl.EventTree.Shape.{leaf, node}
use libqtl.EventTree.Frame.{put_self}
use libqtl.EventTree.Order.{to_list}
use libqtl.EventTree.Represents.{Represents}
use libqtl.EventTree.NextEvent.{Ready}
use libqtl.EventTree.Played.{EndsClosed}
use libqtl.EventTree.Adding.{Filled, at_node, with_node, node_new_lem, new_queue, not_empty}

module _ {Bus : Type 0} (w : World Bus) (events : ℕ → List ℕ) where
  -- What the first node must find in its memory: `event_tree_add` does not set these members.
  pub record IsUnlinked (n : TreeNode) (t : ℕ) : Type 0 where
    pub no_left : n.left ≡ none
    pub no_right : n.right ≡ none
    pub no_prev : n.prev ≡ none
    pub time : n.timestamp ≡ t

  pub first_run :
      (fuel : ℕ) (tree : EventTree) (a q : ℕ) (w' : World Bus)
      → event_queue_is_empty (w.queues q) ≡ false
      → node_new w q ≡ (some a, w')
      → tree.root ≡ none
      → event_tree_add fuel tree w q ≡ done (record tree { root = some a }, w', true)
  unfolding event_tree_add add_node
  first_run fuel tree a q w' some_left new root =
      rw (some_left, new) (ap (λ p. add_node fuel tree p (some a, w')) root)

  pub first-Represents :
      (t a q : ℕ) (more : List (Option ℕ))
      → IsUnlinked (w.nodes a) t
      → Represents (with_node w events a q more).nodes (some a) ((t, a) ∷ [])
  unfolding to_list
  first-Represents t a q more unlinked =
      let its : TreeNode = record (w.nodes a) { queue = q; head = some a } in
      let e : put w.nodes a its a ≡ its = put_self w.nodes a its in
      record {
        shape = node leaf t a [] leaf;
        holds = (
          refl,
          (
            ap TreeNode.prev e ∙ unlinked.no_prev,
            ap TreeNode.timestamp e ∙ unlinked.time,
            ap TreeNode.head e,
            tt,
          ),
          ap TreeNode.left e ∙ unlinked.no_left,
          ap TreeNode.right e ∙ unlinked.no_right,
        );
        in_order = (tt, tt, tt, tt);
        listed = refl;
      }

  pub first_add-Ready :
      (fuel : ℕ) (queue_of : ℕ → ℕ) (tree : EventTree) (t a q : ℕ) (more : List (Option ℕ))
      → ((x : ℕ) → (w.nodes x).queue ≡ queue_of x)
      → tree.root ≡ none
      → w.supply ≡ some a ∷ more
      → IsUnlinked (w.nodes a) t
      → Filled w events t q
      → (nodes' : Nodes) × (event_tree_add fuel tree w q
          ≡ done (record tree { root = some a }, record w { nodes = nodes'; supply = more }, true))
        × Ready
            (put queue_of a q)
            EndsClosed
            (record tree { root = some a })
            (record w { nodes = nodes'; supply = more })
            events
            ((t, a) ∷ [])
  first_add-Ready fuel queue_of tree t a q more queues_are root free unlinked entry =
      let its : TreeNode = record (w.nodes a) { queue = q; head = some a } in
      (
        put w.nodes a its,
        first_run fuel tree a q (with_node w events a q more) (not_empty w events t q entry)
            (node_new_lem w events a q more free) root,
        record {
          rep = first-Represents t a q more unlinked;
          queues_are = λ x. new_queue w events queue_of a q more x queues_are;
          entries =
              (at_node w events (put queue_of a q) t a q (put_self queue_of a q) entry, tt, tt);
        },
      )
