-- ===== src/EventTree/Entries.antt =====
-- The nodes of a tree with the events that their queues hold.
use libqtl.Base.{
  ℕ, zero, suc, ◌+◌, ◌≤◌, ◌≡◌, ◌≢◌, refl, sym, ap, ◌∙◌, Bool, true, false, not, none, some, List,
  [], ◌∷◌, length, arith, ltb, Bool-cases, inl, inr,
}
use mathlib.Core.Bool.{false≢true}
use libqtl.Event.{Event, event_get_type}
use libqtl.Event.Refs.{Life, alive, freed, used_after_free}
use libqtl.Spsc.Refine.{Represents}
use libqtl.EventQueue.{EventQueue, Store, time_of_life}
use libqtl.EventTree.Read.{is_closed}
use libqtl.EventTree.Memory.{put}
use libqtl.EventTree.Shape.{Off}
use libqtl.EventTree.Frame.{put_other}
use libqtl.EventTree.Order.{AllTimes, insert_sorted}

-- An event that is there and does not close its queue.
abbrev pub is_open : Life → Bool
is_open (alive event) = not (is_closed (event_get_type event))
is_open freed = false
is_open used_after_free = false

abbrev pub time_at : Store → ℕ → ℕ
time_at store e = elim (time_of_life (store e)) [ none ↦ 0 | some t ↦ t ]

-- The times of the events do not go back, and none is before `t`.
abbrev pub SortedFrom : Store → ℕ → List ℕ → Type 0
SortedFrom store t [] = Unit
SortedFrom store t (e ∷ es) = (t ≤ time_at store e) × SortedFrom store (time_at store e) es

abbrev pub AllOpen : Store → List ℕ → Type 0
AllOpen store [] = Unit
AllOpen store (e ∷ es) = (is_open (store e) ≡ true) × AllOpen store es

not-true : (b : Bool) → not b ≡ true → b ≡ false
not-true true k = absurd (false≢true k)
not-true false k = refl

pub opened :
    (store : Store) (e : ℕ)
    → is_open (store e) ≡ true
    → (event : Event) × (store e ≡ alive event)
      × (is_closed (event_get_type event) ≡ false)
      × (time_of_life (store e) ≡ some (time_at store e))
opened store e h =
    elim (store e)
        as (λ l.
          is_open l ≡ true
          → (event : Event) × (l ≡ alive event)
            × (is_closed (event_get_type event) ≡ false)
            × (time_of_life l ≡ some (elim (time_of_life l) [ none ↦ 0 | some t ↦ t ]))) [
              | alive event ↦
                  λ k. (event, refl, not-true (is_closed (event_get_type event)) k, refl)
              | freed ↦ λ k. absurd (false≢true k)
              | used_after_free ↦ λ k. absurd (false≢true k)
            ]
      h

-- The queues of these nodes.
abbrev pub queues_of : (ℕ → ℕ) → List (ℕ × ℕ) → List ℕ
queues_of queue_of [] = []
queues_of queue_of ((t, x) ∷ xs) = queue_of x ∷ queues_of queue_of xs

pub Off-insert_sorted :
    (queue_of : ℕ → ℕ) (a u x : ℕ) (xs : List (ℕ × ℕ))
    → a ≢ queue_of x
    → Off a (queues_of queue_of xs)
    → Off a (queues_of queue_of (insert_sorted u x xs))
unfolding insert_sorted
Off-insert_sorted queue_of a u x [] ne h = (ne, tt)
Off-insert_sorted queue_of a u x ((t, y) ∷ xs) ne h = elim (Bool-cases (ltb u t)) [
  | inl e ↦ rw e (ne, h)
  | inr e ↦ rw e (h.0, Off-insert_sorted queue_of a u x xs ne h.1)
]

module _ {Bus : Type 0} (queue_of : ℕ → ℕ) (store : Store) (Fine : Store → List ℕ → Type 0) where
  -- The queue holds these events, the first of them at the time of the node, and none goes back in time;
  -- they are fine.
  pub record Entry (queues : ℕ → EventQueue Bus) (events : ℕ → List ℕ) (t x : ℕ) : Type 0 where
    pub first_event : ℕ
    pub others : List ℕ
    pub contents : events (queue_of x) ≡ first_event ∷ others
    pub held : Represents (queues (queue_of x)).spsc (first_event ∷ others)
    pub fine : Fine store (first_event ∷ others)
    pub time : time_at store first_event ≡ t
    pub later : SortedFrom store t others

  -- Every node has such a queue, and no two the same.
  abbrev pub Entries : (ℕ → EventQueue Bus) → (ℕ → List ℕ) → List (ℕ × ℕ) → Type 0
  Entries queues events [] = Unit
  Entries queues events ((t, x) ∷ xs) =
      Entry queues events t x × Off (queue_of x) (queues_of queue_of xs) × Entries queues events xs

  -- Another queue does not matter.
  pub Entries-put :
      (queues : ℕ → EventQueue Bus) (events : ℕ → List ℕ) (a : ℕ) (q : EventQueue Bus) (es : List ℕ)
      (xs : List (ℕ × ℕ))
      → Off a (queues_of queue_of xs)
      → Entries queues events xs
      → Entries (put queues a q) (put events a es) xs
  Entries-put queues events a q es [] off h = tt
  Entries-put queues events a q es ((t, x) ∷ xs) off (entry, distinct, h) = (
    record {
      first_event = entry.first_event;
      others = entry.others;
      contents = put_other events a es (queue_of x) (λ k. off.0 (sym k)) ∙ entry.contents;
      held = rw (put_other queues a q (queue_of x) (λ k. off.0 (sym k))) entry.held;
      fine = entry.fine;
      time = entry.time;
      later = entry.later;
    },
    distinct,
    Entries-put queues events a q es xs off.1 h,
  )

  pub Entries-insert_sorted :
      (queues : ℕ → EventQueue Bus) (events : ℕ → List ℕ) (u x : ℕ) (xs : List (ℕ × ℕ))
      → Entry queues events u x
      → Off (queue_of x) (queues_of queue_of xs)
      → Entries queues events xs
      → Entries queues events (insert_sorted u x xs)
  unfolding insert_sorted
  Entries-insert_sorted queues events u x [] entry off h = (entry, off, h)
  Entries-insert_sorted queues events u x ((t, y) ∷ xs) entry off h = elim (Bool-cases (ltb u t)) [
    | inl e ↦ rw e (entry, off, h)
    | inr e ↦ rw e (
      h.0,
      Off-insert_sorted queue_of (queue_of y) u x xs (λ k. off.0 (sym k)) h.1,
      Entries-insert_sorted queues events u x xs entry off.1 h.2,
    )
  ]

pub AllTimes-insert_sorted :
    (P : ℕ → Type 0) (u x : ℕ) (xs : List (ℕ × ℕ))
    → P u
    → AllTimes P xs
    → AllTimes P (insert_sorted u x xs)
unfolding insert_sorted
AllTimes-insert_sorted P u x [] k h = (k, tt)
AllTimes-insert_sorted P u x ((t, y) ∷ xs) k h = elim (Bool-cases (ltb u t)) [
  | inl e ↦ rw e (k, h)
  | inr e ↦ rw e (h.0, AllTimes-insert_sorted P u x xs k h.1)
]

pub length-insert_sorted :
    (u x : ℕ) (xs : List (ℕ × ℕ)) → length (insert_sorted u x xs) ≡ suc (length xs)
unfolding insert_sorted
length-insert_sorted u x [] = refl
length-insert_sorted u x ((t, y) ∷ xs) = elim (Bool-cases (ltb u t)) [
  | inl e ↦ rw e refl
  | inr e ↦ rw e (ap suc (length-insert_sorted u x xs))
]

-- A number of each list of events, added up over the nodes.
module _ (queue_of : ℕ → ℕ) (m : List ℕ → ℕ) where
  abbrev pub sum : (ℕ → List ℕ) → List (ℕ × ℕ) → ℕ
  sum events [] = zero
  sum events ((t, x) ∷ xs) = m (events (queue_of x)) + sum events xs

  pub sum-put :
      (events : ℕ → List ℕ) (a : ℕ) (es : List ℕ) (xs : List (ℕ × ℕ))
      → Off a (queues_of queue_of xs)
      → sum (put events a es) xs ≡ sum events xs
  sum-put events a es [] h = refl
  sum-put events a es ((t, x) ∷ xs) h =
      let e : put events a es (queue_of x) ≡ events (queue_of x) =
        put_other events a es (queue_of x) (λ k. h.0 (sym k)) in
      rw (e, sum-put events a es xs h.1) refl

  pub sum-insert_sorted :
      (events : ℕ → List ℕ) (u x : ℕ) (xs : List (ℕ × ℕ))
      → sum events (insert_sorted u x xs) ≡ m (events (queue_of x)) + sum events xs
  unfolding insert_sorted
  sum-insert_sorted events u x [] = refl
  sum-insert_sorted events u x ((t, y) ∷ xs) = elim (Bool-cases (ltb u t)) [
    | inl e ↦ rw e refl
    | inr e ↦ rw e (omega (arith, sum-insert_sorted events u x xs))
  ]
