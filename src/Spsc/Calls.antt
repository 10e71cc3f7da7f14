-- ===== src/Spsc/Calls.antt =====
-- Any sequence of calls from one thread, and the queries.
use mathlib.Core.Path.{ap₂}
use libqtl.Base.{
  ℕ, suc, ◌+◌, ◌^◌, ◌≤◌, ◌<◌, ◌≡◌, refl, ap, ◌∙◌, Bool, true, false, List, [], ◌∷◌, arith, leb,
  ◌==◌, if◌then◌else◌, length, u32, sub32,
}
use libqtl.Spsc.{
  Spsc, Item, spsc_queue_write, spsc_queue_read, spsc_queue_peek, spsc_queue_is_empty,
  spsc_queue_is_full, spsc_queue_size,
}
use libqtl.Spsc.Slots.{ahead}
use libqtl.Spsc.Refine.{
  Represents, push, pop, write_refines, read_refines, is_full_lem, is_empty_lem,
}

-- The functions of the interface, with the record that a write is given.
pub data Call {ℓ} (A : Type ℓ) : Type ℓ where
  write : A → Call A
  read peek size is_empty is_full : Call A

pub data Reply {ℓ} (A : Type ℓ) : Type ℓ where
  done : Bool → Reply A
  got : Item A → Reply A
  count : ℕ → Reply A

size_of :
    (capacity h n w : ℕ)
    → capacity ≤ 2 ^ 31
    → h < capacity
    → n < capacity
    → w ≡ ahead capacity h n
    → (if leb (2 ^ 31) (sub32 w h) then u32 (sub32 w h + capacity) else sub32 w h) ≡ n
size_of capacity h n w fits lt k e = ground arith

module _ {ℓ} {A : Type ℓ} where
  -- The calls on the array, with what each returns.
  unfoldable pub run : Spsc A → List (Call A) → List (Reply A)
  run q [] = []
  run q (write e ∷ calls) = let (q', b) = spsc_queue_write q e in done b ∷ run q' calls
  run q (read ∷ calls) = let (q', i) = spsc_queue_read q in got i ∷ run q' calls
  run q (peek ∷ calls) = got (spsc_queue_peek q) ∷ run q calls
  run q (size ∷ calls) = count (spsc_queue_size q) ∷ run q calls
  run q (is_empty ∷ calls) = done (spsc_queue_is_empty q) ∷ run q calls
  run q (is_full ∷ calls) = done (spsc_queue_is_full q) ∷ run q calls

  -- The same on a list of at most `cap - 1` records.
  unfoldable pub run_list : ℕ → List A → List (Call A) → List (Reply A)
  run_list cap xs [] = []
  run_list cap xs (write e ∷ calls) =
      let (xs', b) = push cap xs e in done b ∷ run_list cap xs' calls
  run_list cap xs (read ∷ calls) = let (xs', i) = pop xs in got i ∷ run_list cap xs' calls
  run_list cap xs (peek ∷ calls) = got (pop xs).1 ∷ run_list cap xs calls
  run_list cap xs (size ∷ calls) = count (length xs) ∷ run_list cap xs calls
  run_list cap xs (is_empty ∷ calls) = done (length xs == 0) ∷ run_list cap xs calls
  run_list cap xs (is_full ∷ calls) = done (suc (length xs) == cap) ∷ run_list cap xs calls

  -- In a queue of a capacity up to 2 ^ 31, the size is the number of records held, and the two tests
  -- compare it with 0 and with the capacity less 1.
  pub queries_lem :
      (q : Spsc A) (xs : List A)
      → Represents q xs
      → q.capacity ≤ 2 ^ 31
      → (spsc_queue_size q ≡ length xs)
        × (spsc_queue_is_empty q ≡ (length xs == 0))
        × (spsc_queue_is_full q ≡ (suc (length xs) == q.capacity))
  unfolding spsc_queue_size spsc_queue_is_empty spsc_queue_is_full
  queries_lem q xs r fits = (
    size_of q.capacity q.read_pos (length xs) q.write_pos fits r.read_in r.room r.write_at,
    is_empty_lem q xs r,
    rw (is_full_lem q xs r) (same_bool _),
  )
    where
      same_bool : (b : Bool) → (if b then true else false) ≡ b
      same_bool true = refl
      same_bool false = refl

  write_capacity : (q : Spsc A) (e : A) → (spsc_queue_write q e).0.capacity ≡ q.capacity
  unfolding spsc_queue_write
  write_capacity q e = ground arith

  read_capacity : (q : Spsc A) → (spsc_queue_read q).0.capacity ≡ q.capacity
  unfolding spsc_queue_read
  read_capacity q = ground arith

  -- No sequence of calls tells the array, of a capacity up to 2 ^ 31, from the bounded list that it
  -- represents.
  pub run_refines :
      (calls : List (Call A)) (q : Spsc A) (xs : List A)
      → Represents q xs
      → q.capacity ≤ 2 ^ 31
      → run q calls ≡ run_list q.capacity xs calls
  unfolding run run_list
  run_refines [] q xs r fits = refl
  run_refines (write e ∷ calls) q xs r fits =
      let (r', b) = write_refines q xs r e in
      ap₂ (λ c l. done c ∷ l) b
        (run_refines calls (spsc_queue_write q e).0 (push q.capacity xs e).0 r'
            (rw (write_capacity q e) fits)
          ∙ ap (λ n. run_list n (push q.capacity xs e).0 calls) (write_capacity q e))
  run_refines (read ∷ calls) q xs r fits =
      let (r', i, _) = read_refines q xs r in
      ap₂ (λ c l. got c ∷ l) i
        (run_refines calls (spsc_queue_read q).0 (pop xs).0 r' (rw (read_capacity q) fits)
          ∙ ap (λ n. run_list n (pop xs).0 calls) (read_capacity q))
  run_refines (peek ∷ calls) q xs r fits =
      rw ((read_refines q xs r).2, run_refines calls q xs r fits)
  run_refines (size ∷ calls) q xs r fits =
      rw ((queries_lem q xs r fits).0, run_refines calls q xs r fits)
  run_refines (is_empty ∷ calls) q xs r fits =
      rw ((queries_lem q xs r fits).1, run_refines calls q xs r fits)
  run_refines (is_full ∷ calls) q xs r fits =
      rw ((queries_lem q xs r fits).2, run_refines calls q xs r fits)
