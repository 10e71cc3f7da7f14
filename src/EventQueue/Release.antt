-- ===== src/EventQueue/Release.antt =====
-- Clearing a queue releases each event that it holds, once for each time it holds it.
use libqtl.Base.{
  ℕ, zero, suc, ◌+◌, ◌^◌, ◌<◌, ◌≡◌, refl, ap, ◌∙◌, some, List, [], ◌∷◌, arith, ◌==◌, if◌then◌else◌,
  length, Bool-cases, inl, inr, ==_iff,
}
use libqtl.Event.{Event}
use libqtl.Event.Refs.{fate, use_event, release, release_fate}
use libqtl.Spsc.{Spsc, spsc_queue_read}
use libqtl.Spsc.Refine.{Represents, read_refines}
use libqtl.EventQueue.{EventQueue, Store, update, clear_loop, event_queue_clear}

-- How often the list has the address.
unfoldable pub count : ℕ → List ℕ → ℕ
count a [] = 0
count a (x ∷ xs) = if x == a then suc (count a xs) else count a xs

-- The store after the release of each of the list.
unfoldable pub release_all : List ℕ → Store → Store
release_all [] store = store
release_all (x ∷ xs) store = release_all xs (update store x (use_event release (store x)))

module _ (a : ℕ) (e : Event) where
  released :
      (x : ℕ) (store : Store) (n : ℕ)
      → x ≡ a
      → store a ≡ fate e (suc n)
      → suc n < 2 ^ 16
      → use_event release (store x) ≡ fate e n
  released x store n same here few =
      ap (λ b. use_event release (store b)) same
      ∙ ap (use_event release) here
      ∙ release_fate n e few

  release_all-fate :
      (xs : List ℕ) (store : Store) (m : ℕ)
      → store a ≡ fate e (count a xs + m)
      → count a xs + m < 2 ^ 16
      → release_all xs store a ≡ fate e m
  unfolding release_all count
  release_all-fate [] store m here few = here ∙ ap (fate e) (omega arith)
  release_all-fate (x ∷ xs) store m here few = elim (Bool-cases (x == a)) [
    | inl same ↦
        release_all-fate xs (update store x (use_event release (store x))) m
          (rw same (
            released x store (count a xs + m) ((==_iff x a).0 same)
              (here ∙ ap (fate e) {y = suc (count a xs + m)} (rw same (omega arith)))
              (ground (arith, few))))
          (ground (arith, few))
    | inr other ↦
        release_all-fate xs (update store x (use_event release (store x))) m
          (rw other (here ∙ ap (fate e) {y = count a xs + m} (rw other refl))) (ground (arith, few))
  ]

-- The loop with more fuel than the queue has records.
clear_loop_lem :
    (xs : List ℕ) (fuel : ℕ) (q : Spsc ℕ) (store : Store)
    → Represents q xs
    → length xs < fuel
    → (q' : Spsc ℕ) × Represents q' [] × (clear_loop fuel q store ≡ some (q', release_all xs store))
unfolding clear_loop release_all
clear_loop_lem xs zero q store r enough = absurd (omega arith)
clear_loop_lem [] (suc fuel) q store r enough =
    let (r', i, _) = read_refines q [] r in (_, r', rw (i, clear_loop) refl)
clear_loop_lem (x ∷ xs) (suc fuel) q store r enough =
    let (r', i, _) = read_refines q (x ∷ xs) r in
    let (q', held, same) =
      clear_loop_lem xs fuel (spsc_queue_read q).0 (update store x (use_event release (store x))) r'
        (omega arith) in
    (q', held, rw (i, clear_loop) same)

-- Clearing a queue ends, leaves it empty, and takes from each event's holders as many as the queue had
-- of it: it is freed where the queue had them all, and lives on with the others where it had not.
pub event_queue_clear-release :
    {Bus : Type 0} (q : EventQueue Bus) (xs : List ℕ) (store : Store)
    → Represents q.spsc xs
    → (q' : EventQueue Bus) × (store' : Store) × (event_queue_clear q store ≡ some (q', store'))
      × Represents q'.spsc []
      × ((a : ℕ) (e : Event) (others : ℕ)
          → store a ≡ fate e (count a xs + others)
          → count a xs + others < 2 ^ 16
          → store' a ≡ fate e others)
unfolding event_queue_clear
event_queue_clear-release q xs store r =
    let (spsc, held, same) = clear_loop_lem xs q.spsc.capacity q.spsc store r r.room in
    (
      record q { spsc = spsc },
      release_all xs store,
      rw same refl,
      held,
      λ a e others. release_all-fate a e xs store others,
    )
