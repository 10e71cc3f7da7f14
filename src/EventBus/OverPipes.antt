-- ===== src/EventBus/OverPipes.antt =====
-- The pipes of src/qtl_pipe.c as the pipes of a bus, each in a memory of its own.
use libqtl.Base.{
  ℕ, ◌<◌, ◌≡◌, refl, ap, true, false, Option, none, some, List, [], ◌∷◌, arith, length, ◌∙◌,
}
use libqtl.Event.{Event}
use libqtl.Event.Refs.{alive, freed, used_after_free}
use libqtl.Spsc.{Spsc}
use libqtl.Spsc.Refine.{Represents as Holding}
use libqtl.EventTree.{EventTree, event_tree_is_empty, test_last}
use libqtl.EventTree.Read.{event_tree_read}
use libqtl.EventTree.Memory.{Run, aborted, fault, out_of_fuel, done, ◌>>=◌, World}
use libqtl.EventTree.Played.{Yields}
use libqtl.EventPipe.{
  EventPipe, event_pipe_add, event_pipe_clear, event_pipe_free, event_pipe_is_empty,
  event_pipe_read,
}
use libqtl.EventPipe.Pending.{add_all, event_pipe_read-add_all}
use libqtl.EventBus.{PipeOps}
use libqtl.EventBus.Pipes.{PipeLaws, is_nil}

module _ (Bus : Type 0) where
  -- A pipe in memory; one that has failed stays as it is.
  abbrev pub PipeInMemory : Type 0
  PipeInMemory = Run (EventPipe × World Bus)

  -- What a call leaves, with its result; `fallback` stands for the result of one that failed.
  abbrev left_with :
      {A B : Type 0} → B → (World Bus → A → B) → Run (EventPipe × World Bus × A) → PipeInMemory × B
  left_with fallback value aborted = (aborted, fallback)
  left_with fallback value fault = (fault, fallback)
  left_with fallback value out_of_fuel = (out_of_fuel, fallback)
  left_with fallback value (done (p, w, a)) = (done (p, w), value w a)

  -- The event that a read gave the address of.
  abbrev event_read : World Bus → Option ℕ → Option Event
  event_read w none = none
  event_read w (some a) = elim (w.events a) [
    | alive e ↦ some e
    | freed ↦ none
    | used_after_free ↦ none
  ]

  value_of :
      (w : World Bus) (a : ℕ) (e : Event) → w.events a ≡ alive e → event_read w (some a) ≡ some e
  value_of w a e h = ap (λ l. elim l [ alive e ↦ some e | freed ↦ none | used_after_free ↦ none ]) h

  abbrev freed_pipe : World Bus → Option EventPipe → PipeInMemory
  freed_pipe w none = fault
  freed_pipe w (some p) = done (p, w)

  -- The operations, in a program without assertions; `caller` is the thread of the bus.
  unfoldable pub pipe_ops : (fuel rounds caller : ℕ) → PipeOps PipeInMemory ℕ
  pipe_ops fuel rounds caller = record {
    pipe_add = λ r q. r >>= λ (p, w). event_pipe_add fuel caller p w q;
    pipe_is_empty =
        λ r. left_with true (λ w b. b) (r >>= λ (p, w). event_pipe_is_empty fuel rounds p w);
    pipe_read =
        λ r. left_with none event_read (r >>= λ (p, w). event_pipe_read fuel false rounds p w);
    pipe_clear = λ r. r >>= λ (p, w). done (event_pipe_clear p, w);
    pipe_is_null = λ r. false;
    pipe_free = λ r. r >>= λ (p, w). freed_pipe w (event_pipe_free (some p));
  }

  -- The pipe adds the queues that wait to its tree, and then reads from the tree give these events.
  pub record Held (fuel rounds : ℕ) (r : PipeInMemory) (es : List Event) : Type 0 where
    pub pipe : EventPipe
    pub world : World Bus
    pub is_there : r ≡ done (pipe, world)
    pub waiting : List ℕ
    pub pending : Holding pipe.pending_add waiting
    pub few : length waiting < rounds
    pub tree' : EventTree
    pub world' : World Bus
    pub adds : add_all fuel pipe.tree world waiting ≡ done (tree', world')
    pub yields : Yields fuel tree' world' es

  module _ (fuel rounds caller : ℕ) where
    -- A pipe for which no queue waits.
    pub nothing_waits :
        (r : PipeInMemory) (es : List Event) (p : EventPipe) (w : World Bus)
        → 0 < rounds
        → r ≡ done (p, w)
        → Holding p.pending_add []
        → Yields fuel p.tree w es
        → Held fuel rounds r es
    unfolding add_all
    nothing_waits r es p w once is_there nothing yields = record {
      pipe = p;
      world = w;
      is_there = is_there;
      waiting = [];
      pending = nothing;
      few = once;
      tree' = p.tree;
      world' = w;
      adds = refl;
      yields = yields;
    }

    -- The test finds whether the tree has a node.
    tree_test :
        (tree : EventTree) (w : World Bus) (es : List Event)
        → Yields fuel tree w es
        → event_tree_is_empty fuel tree w ≡ done (tree, w, is_nil es)
    unfolding event_tree_is_empty test_last
    tree_test tree w [] (waits, root) = rw (waits, root) refl
    tree_test tree w (e ∷ es) (waits, (r, root), _) = rw (waits, root) refl

    module _ (r : PipeInMemory) (es : List Event) (h : Held fuel rounds r es) where
      -- The calls of a pipe that holds these events.
      calls :
          (pending : Spsc ℕ) × Holding pending []
          × (event_pipe_read fuel false rounds h.pipe h.world ≡ (
              event_tree_read false fuel h.tree' h.world' >>= λ (tree', w'', e).
              done (record h.pipe { pending_add = pending; tree = tree' }, w'', e)))
          × (event_pipe_is_empty fuel rounds h.pipe h.world ≡ (
              event_tree_is_empty fuel h.tree' h.world' >>= λ (tree', w'', b).
              done (record h.pipe { pending_add = pending; tree = tree' }, w'', b)))
      calls =
          let (pending, nothing, reads, tests) =
            event_pipe_read-add_all fuel false rounds h.pipe h.world h.waiting h.pending h.few in
          (
            pending,
            nothing,
            reads
                ∙ ap
                    (λ made. made >>= λ (tree, w').
                      event_tree_read false fuel tree w' >>= λ (tree', w'', e).
                      done (record h.pipe { pending_add = pending; tree = tree' }, w'', e))
                    h.adds,
            tests
                ∙ ap
                    (λ made. made >>= λ (tree, w').
                      event_tree_is_empty fuel tree w' >>= λ (tree', w'', b).
                      done (record h.pipe { pending_add = pending; tree = tree' }, w'', b))
                    h.adds,
          )

      tested :
          (pending : Spsc ℕ) × Holding pending []
          × ((pipe_ops fuel rounds caller).pipe_is_empty r ≡ (
            done (record h.pipe { pending_add = pending; tree = h.tree' }, h.world'),
            is_nil es,
          ))
      unfolding pipe_ops
      tested =
          let (pending, nothing, _, tests) = calls in
          (pending, nothing, rw (h.is_there, tests, tree_test h.tree' h.world' es h.yields) refl)

      is_empty_held : ((pipe_ops fuel rounds caller).pipe_is_empty r).1 ≡ is_nil es
      is_empty_held = ap (λ q. q.1) tested.2

      some_round : 0 < rounds
      some_round = omega (arith, h.few)

      is_empty-Held : Held fuel rounds ((pipe_ops fuel rounds caller).pipe_is_empty r).0 es
      is_empty-Held =
          nothing_waits _ es (record h.pipe { pending_add = tested.0; tree = h.tree' }) h.world'
            some_round (ap (λ q. q.0) tested.2) tested.1 h.yields

    taken :
        (r : PipeInMemory) (e : Event) (es : List Event) (h : Held fuel rounds r (e ∷ es))
        → (pending : Spsc ℕ) × (tree' : EventTree) × (w' : World Bus) × Holding pending []
          × Yields fuel tree' w' es
          × ((pipe_ops fuel rounds caller).pipe_read r
              ≡ (done (record h.pipe { pending_add = pending; tree = tree' }, w'), some e))
    unfolding pipe_ops
    taken r e es h =
        let (_, _, (tree', w', a, reads, live, more)) = h.yields in
        let (pending, nothing, pipe_reads, _) = calls r (e ∷ es) h in
        (
          pending,
          tree',
          w',
          nothing,
          more,
          rw (h.is_there, pipe_reads, reads)
              (ap (λ o. (done (record h.pipe { pending_add = pending; tree = tree' }, w'), o))
                (value_of w' a e live)),
        )

    read-Held :
        (r : PipeInMemory) (e : Event) (es : List Event)
        → Held fuel rounds r (e ∷ es)
        → (((pipe_ops fuel rounds caller).pipe_read r).1 ≡ some e)
          × Held fuel rounds ((pipe_ops fuel rounds caller).pipe_read r).0 es
    read-Held r e es h =
        let (pending, tree', w', nothing, more, same) = taken r e es h in
        (
          ap (λ q. q.1) same,
          nothing_waits _ es (record h.pipe { pending_add = pending; tree = tree' }) w'
              (some_round r (e ∷ es) h) (ap (λ q. q.0) same) nothing more,
        )

    -- These pipes are what the bus relies on.
    pub pipe_laws : PipeLaws (pipe_ops fuel rounds caller)
    pipe_laws = record {
      Holds = Held fuel rounds;
      is_empty_lem = λ r es h. (is_empty_held r es h, is_empty-Held r es h);
      read_lem = λ r e es h.
          read-Held ((pipe_ops fuel rounds caller).pipe_is_empty r).0 e es
            (is_empty-Held r (e ∷ es) h);
    }

    pub pipe_laws-Held :
        (r : PipeInMemory) (es : List Event) → Held fuel rounds r es → pipe_laws.Holds r es
    unfolding pipe_laws
    pipe_laws-Held r es h = h
