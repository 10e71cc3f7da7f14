-- ===== src/EventTree/AllEvents.antt =====
-- Reads from a tree of queues, one after the other.
use libqtl.Base.{
  ℕ, zero, suc, ◌+◌, ◌≤◌, ◌<◌, Option, ◌≡◌, refl, sym, ap, ◌∙◌, false, none, some, List, [], ◌∷◌,
  length, arith,
}
use libqtl.EventQueue.Release.{count}
use libqtl.EventTree.{EventTree}
use libqtl.EventTree.Read.{event_tree_read}
use libqtl.EventTree.Memory.{Run, done, ◌>>=◌, World, put}
use libqtl.EventTree.Order.{AllTimes}
use libqtl.EventTree.Shape.{Off}
use libqtl.EventTree.Represents.{Represents}
use libqtl.Spsc.Refine.{Represents as Holding}
use libqtl.EventTree.Entries.{SortedFrom, AllOpen, opened, queues_of, Entry, Entries, sum}
use libqtl.EventTree.NextEvent.{Ready, Next, taken_last, taken_more}

pub count_first :
    (a e : ℕ) (others es : List ℕ) (m : ℕ)
    → count a es ≡ count a others + m
    → count a (e ∷ es) ≡ count a (e ∷ others) + m
unfolding count
count_first a e others es m h = ground (arith, h)

module _ {Bus : Type 0} where
  -- So many reads, in a program without assertions; a null pointer among the events is a fault.
  unfoldable pub read_events : ℕ → ℕ → EventTree → World Bus → Run (List ℕ)
  read_events fuel zero tree w = done []
  read_events fuel (suc n) tree w = event_tree_read false fuel tree w >>= λ (tree', w', e). elim e [
    | none ↦ Run.fault
    | some a ↦ read_events fuel n tree' w' >>= λ more. done (a ∷ more)
  ]

  module _ (queue_of : ℕ → ℕ) (fuel : ℕ) where
    -- A read of an event that does not close its queue, nor do those behind it.
    taken_open :
        (t x : ℕ) (xs : List (ℕ × ℕ)) (tree : EventTree) (w : World Bus) (events : ℕ → List ℕ)
        (e : ℕ) (es : List ℕ)
        → Represents w.nodes tree.root ((t, x) ∷ xs)
        → ((y : ℕ) → (w.nodes y).queue ≡ queue_of y)
        → Off (queue_of x) (queues_of queue_of xs)
        → Entries queue_of w.events AllOpen w.queues events xs
        → length xs < fuel
        → Holding (w.queues (queue_of x)).spsc (e ∷ es)
        → AllOpen w.events (e ∷ es)
        → SortedFrom w.events t es
        → (last' : Option ℕ) × Next queue_of AllOpen fuel tree w events t x xs e es last'
    taken_open t x xs tree w events e [] rep queues_are distinct rest enough held (open_e, _)
          later =
        (
          some x,
          taken_last queue_of AllOpen fuel tree w events t x xs rep queues_are distinct rest enough
              e open_e held,
        )
    taken_open t x xs tree w events e (f ∷ fs) rep queues_are distinct rest enough held
          (open_e, (open_f, fine)) later =
        (
          tree.last,
          taken_more queue_of AllOpen fuel tree w events t x xs rep queues_are distinct rest enough
              e f fs open_e held (opened w.events f open_f).3 (open_f, fine) later,
        )

    -- Without assertions, as many reads from a tree in order as its queues have events give each of these
    -- events once, in the order of their times. Every queue of the tree is another one and has events, the
    -- first of them at the time of its node; all are there, none closes the queue, and their times do not
    -- go back. Fuel for the number of queues is enough.
    pub read_events-SortedFrom :
        (n b : ℕ) (tree : EventTree) (w : World Bus) (events : ℕ → List ℕ) (xs : List (ℕ × ℕ))
        → Ready queue_of AllOpen tree w events xs
        → length xs ≤ fuel
        → AllTimes (λ u. b ≤ u) xs
        → sum queue_of length events xs ≡ n
        → (es : List ℕ) × (read_events fuel n tree w ≡ done es)
          × SortedFrom w.events b es
          × ((a : ℕ) → count a es ≡ sum queue_of (count a) events xs)
    unfolding read_events count
    read_events-SortedFrom zero b tree w events [] r enough bound total = ([], refl, tt, λ a. refl)
    read_events-SortedFrom (suc n) b tree w events [] r enough bound total =
        absurd (omega (arith, total))
    read_events-SortedFrom zero b tree w events ((t, x) ∷ xs) r enough bound total =
        absurd (omega (arith, total, ap length r.entries.0.contents))
    read_events-SortedFrom (suc n) b tree w events ((t, x) ∷ xs) r enough (first_bound, bound)
          total =
        let entry : Entry queue_of w.events AllOpen w.queues events t x = r.entries.0 in
        let (last', k) =
          taken_open t x xs tree w events entry.first_event entry.others r.rep r.queues_are
            r.entries.1 r.entries.2 (omega (arith, enough)) entry.held entry.fine entry.later in
        let (es, reads, sorted, counts) =
          read_events-SortedFrom n t k.tree' (record w { nodes = k.nodes'; queues = k.queues' })
            (put events (queue_of x) entry.others) k.xs' k.ready (omega (arith, k.short, enough))
            k.later (omega (arith, k.sums length refl, total, ap length entry.contents)) in
        (
          entry.first_event ∷ es,
          rw (k.reads, reads) refl,
          (rw entry.time first_bound, rw entry.time sorted),
          λ a.
              count_first a entry.first_event entry.others es _ (counts a ∙ k.sums (count a) refl)
              ∙ ap (λ l. count a l + sum queue_of (count a) events xs) (sym entry.contents),
        )
