-- ===== src/EventTree/Abort.antt =====
-- With assertions compiled in, no event is ever read from a tree.
use mathlib.Core.Path.{subst}
use mathlib.Core.Option.{none-ne-some}
use libqtl.Base.{
  ℕ, ◌≡◌, refl, sym, ap, true, Option, none, some, List, [], ◌∷◌, Bool-cases, inl, inr,
}
use libqtl.EventQueue.{event_queue_is_empty, event_queue_peek_time}
use libqtl.EventTree.{
  EventTree, null_tree, Place, left_of, right_of, found, link, put_in, insert_from, test_last,
  descend, fresh_node, load_time, event_tree_rebalance, event_tree_is_empty, add_node,
  event_tree_add, event_tree_remove, event_tree_clear, node_new,
}
use libqtl.EventTree.Memory.{Run, Nodes, aborted, done, World, ◌>>=◌, ◌>>◌, modify, assert, is_some}
use libqtl.EventTree.Read.{event_tree_read, read_first}

-- The functions of src/qtl_etree.h, on a queue where they take one.
pub data TreeCall : Type 0 where
  add remove : ℕ → TreeCall
  is_empty read clear : TreeCall

-- The `last` of the resulting tree, where there is one; a call may also return a value.
abbrev LastIs : {A : Type 0} → Option ℕ → Run (EventTree × A) → Type 0
LastIs last (done (tree, _)) = tree.last ≡ last
LastIs last _ = Unit

abbrev ValueLastIs : {Bus A : Type 0} → Option ℕ → Run (EventTree × World Bus × A) → Type 0
ValueLastIs last (done (tree, _, _)) = tree.last ≡ last
ValueLastIs last _ = Unit

put_in-LastIs :
    (tree : EventTree) (nodes : Nodes) (n : ℕ) (r : Run Place)
    → LastIs tree.last (r >>= λ place. done (put_in tree nodes n place))
unfolding put_in link
put_in-LastIs tree nodes n aborted = tt
put_in-LastIs tree nodes n Run.fault = tt
put_in-LastIs tree nodes n Run.out_of_fuel = tt
put_in-LastIs tree nodes n (done (left_of p)) = refl
put_in-LastIs tree nodes n (done (right_of p)) = refl
put_in-LastIs tree nodes n (done (found c none)) = refl
put_in-LastIs tree nodes n (done (found c (some p))) = refl

insert_from-LastIs :
    (fuel : ℕ) (tree : EventTree) (nodes : Nodes) (n t : ℕ) (root : Option ℕ)
    → LastIs tree.last (insert_from fuel tree nodes n t root)
unfolding insert_from
insert_from-LastIs fuel tree nodes n t none = refl
insert_from-LastIs fuel tree nodes n t (some r) =
    put_in-LastIs tree nodes n (descend fuel nodes t r none)

module _ {Bus : Type 0} (fuel : ℕ) where
  -- One call after the other, in a program with assertions.
  unfoldable pub call_tree : EventTree → World Bus → TreeCall → Run (EventTree × World Bus)
  call_tree tree w (add q) = event_tree_add fuel tree w q >>= λ (tree', w', b). done (tree', w')
  call_tree tree w (remove q) = done (event_tree_remove tree q, w)
  call_tree tree w is_empty = event_tree_is_empty fuel tree w >>= λ (tree', w', b). done (tree', w')
  call_tree tree w read = event_tree_read true fuel tree w >>= λ (tree', w', e). done (tree', w')
  call_tree tree w clear = done (event_tree_clear tree, w)

  unfoldable pub call_all : EventTree → World Bus → List TreeCall → Run (EventTree × World Bus)
  call_all tree w [] = done (tree, w)
  call_all tree w (c ∷ cs) = call_tree tree w c >>= λ (tree', w'). call_all tree' w' cs

  rebalance-LastIs :
      (tree : EventTree) (w : World Bus) (n : ℕ)
      → LastIs tree.last (event_tree_rebalance fuel tree w n)
  unfolding event_tree_rebalance
  rebalance-LastIs tree w n = timed (event_queue_peek_time w.events (w.queues (w.nodes n).queue))
    where
      stored :
          (r : Run (EventTree × Nodes))
          → LastIs tree.last r
          → LastIs tree.last (r >>= λ (tree', nodes). done (tree', record w { nodes = nodes }))
      stored aborted h = tt
      stored Run.fault h = tt
      stored Run.out_of_fuel h = tt
      stored (done (tree', nodes)) h = h

      timed :
          (o : Option ℕ)
          → LastIs tree.last (
              load_time o >>= λ t.
              insert_from fuel tree (modify w.nodes n (fresh_node n t)) n t tree.root
              >>= λ (tree', nodes). done (tree', record w { nodes = nodes }))
      timed none = tt
      timed (some t) =
          stored (insert_from fuel tree (modify w.nodes n (fresh_node n t)) n t tree.root)
            (insert_from-LastIs fuel tree (modify w.nodes n (fresh_node n t)) n t tree.root)

  -- The same of a call that also returns a value.
  forget :
      {A : Type 0} (last : Option ℕ) (r : Run (EventTree × World Bus × A))
      → ValueLastIs last r
      → LastIs last (r >>= λ (tree, w, a). done (tree, w))
  forget last aborted h = tt
  forget last Run.fault h = tt
  forget last Run.out_of_fuel h = tt
  forget last (done (tree, w, a)) h = h

  remember :
      {A : Type 0} (last : Option ℕ) (r : Run (EventTree × World Bus)) (a : A)
      → LastIs last r
      → ValueLastIs last (r >>= λ (tree, w). done (tree, w, a))
  remember last aborted a h = tt
  remember last Run.fault a h = tt
  remember last Run.out_of_fuel a h = tt
  remember last (done (tree, w)) a h = h

  test_last-LastIs :
      (tree : EventTree) (w : World Bus) (last : Option ℕ)
      → last ≡ none
      → tree.last ≡ none
      → ValueLastIs none (test_last fuel tree w last)
  unfolding test_last
  test_last-LastIs tree w none h k = k
  test_last-LastIs tree w (some n) h k = absurd (none-ne-some _ (sym h))

  add_node-LastIs :
      (tree : EventTree) (root : Option ℕ) (m : Option ℕ × World Bus)
      → ValueLastIs tree.last (add_node fuel tree root m)
  unfolding add_node
  add_node-LastIs tree root (none, w) = refl
  add_node-LastIs tree none (some n, w) = refl
  add_node-LastIs tree (some r) (some n, w) =
      remember tree.last (event_tree_rebalance fuel tree w n) true (rebalance-LastIs tree w n)

  add-LastIs :
      (tree : EventTree) (w : World Bus) (q : ℕ)
      → ValueLastIs tree.last (event_tree_add fuel tree w q)
  unfolding event_tree_add
  add-LastIs tree w q = elim (Bool-cases (event_queue_is_empty (w.queues q))) [
    | inl e ↦ rw e refl
    | inr e ↦ rw e (add_node-LastIs tree tree.root (node_new w q))
  ]

  aborts :
      (tree : EventTree) (w : World Bus)
      → tree.last ≡ none
      → event_tree_read true fuel tree w ≡ aborted
  unfolding event_tree_read
  aborts tree w h = ap (λ o. assert true (is_some o) >> read_first fuel tree w) h

  call-LastIs :
      (tree : EventTree) (w : World Bus) (c : TreeCall)
      → tree.last ≡ none
      → LastIs none (call_tree tree w c)
  unfolding call_tree event_tree_read event_tree_is_empty event_tree_remove event_tree_clear
  call-LastIs tree w (add q) h =
      forget none (event_tree_add fuel tree w q)
        (subst (λ o. ValueLastIs o (event_tree_add fuel tree w q)) h (add-LastIs tree w q))
  call-LastIs tree w (remove q) h = h
  call-LastIs tree w is_empty h =
      forget none (test_last fuel tree w tree.last) (test_last-LastIs tree w tree.last h h)
  call-LastIs tree w read h =
      forget none (event_tree_read true fuel tree w) (rw (aborts tree w h) tt)
  call-LastIs tree w clear h = refl

  calls-LastIs :
      (calls : List TreeCall) (tree : EventTree) (w : World Bus)
      → tree.last ≡ none
      → LastIs none (call_all tree w calls)
  unfolding call_all
  calls-LastIs [] tree w h = h
  calls-LastIs (c ∷ calls) tree w h =
      after (λ t v. calls-LastIs calls t v) (call_tree tree w c) (call-LastIs tree w c h)
    where
      after :
          ((t : EventTree) (v : World Bus) → t.last ≡ none → LastIs none (call_all t v calls))
          → (r : Run (EventTree × World Bus)) → LastIs none r
          → LastIs none (r >>= λ (t, v). call_all t v calls)
      after rest aborted k = tt
      after rest Run.fault k = tt
      after rest Run.out_of_fuel k = tt
      after rest (done (t, v)) k = rest t v k

  -- With assertions, after any calls on a new tree that come to an end, a read from it fails its
  -- assertion.
  pub event_tree_read-aborted :
      (calls : List TreeCall) (w w' : World Bus) (tree : EventTree)
      → call_all null_tree w calls ≡ done (tree, w')
      → event_tree_read true fuel tree w' ≡ aborted
  event_tree_read-aborted calls w w' tree h =
      aborts tree w' (rw h at (calls-LastIs calls null_tree w refl))
