-- ===== src/Spsc.antt =====
-- src/spsc_queue.c: a bounded queue over an array, for one producer and one consumer. A function that
-- changes `*q` returns the new queue beside its result; the records are pointers in C, and any values
-- here. The atomic accesses are taken one call at a time; `Threads` interleaves them.
pub mod Slots
pub mod Refine
pub mod Calls
pub mod Threads
use libqtl.Base.{
  ℕ, ◌+◌, ◌^◌, Bool, true, false, Option, none, some, List, [], leb, ltb, ◌&&◌, ◌==◌, if◌then◌else◌,
  get_elem?, set, u32, sub32,
}

pub record Spsc {ℓ} (A : Type ℓ) : Type ℓ where
  pub capacity : ℕ
  pub records : List A
  pub read_pos : ℕ
  pub write_pos : ℕ

-- What a read leaves in `*item`: nothing when the queue is empty; `fault` is a read outside the array.
pub data Item {ℓ} (A : Type ℓ) : Type ℓ where
  empty fault : Item A
  item : A → Item A

-- What making an object gives: the object; -1 or a null pointer, without memory; a failed assertion.
pub data Made {ℓ} (A : Type ℓ) : Type ℓ where
  built : A → Made A
  no_memory assertion_failed : Made A

-- `nextRecord`
unfoldable pub next_record : ℕ → ℕ → ℕ
next_record capacity pos = let next : ℕ = u32 (pos + 1) in if next == capacity then 0 else next

module _ {ℓ} {A : Type ℓ} where
  -- The code behind the assertion.
  unfoldable pub init_with : Option (List A) → ℕ → Made (Spsc A)
  init_with none size = no_memory
  init_with (some records) size =
      built (record { capacity = size; records = records; read_pos = 0; write_pos = 0 })

  -- `checked` says whether assertions are compiled in; `records` is what `malloc` returns: nothing, or an
  -- array of `size` arbitrary pointers.
  unfoldable pub spsc_queue_init : Bool → Option (List A) → ℕ → Made (Spsc A)
  spsc_queue_init checked records size =
      if checked && ltb size 2 then assertion_failed else init_with records size

  unfoldable pub spsc_queue_write : Spsc A → A → Spsc A × Bool
  spsc_queue_write q e =
      let next : ℕ = next_record q.capacity q.write_pos in
      if next == q.read_pos
      then (q, false)
      else (record q { records = set q.records q.write_pos e; write_pos = next }, true)

  -- `records[pos]`
  unfoldable pub load_record : Spsc A → ℕ → Item A
  load_record q pos = elim (get_elem? q.records pos) [ none ↦ fault | some e ↦ item e ]

  unfoldable pub spsc_queue_read : Spsc A → Spsc A × Item A
  spsc_queue_read q =
      if q.read_pos == q.write_pos
      then (q, empty)
      else (record q { read_pos = next_record q.capacity q.read_pos }, load_record q q.read_pos)

  unfoldable pub spsc_queue_peek : Spsc A → Item A
  spsc_queue_peek q = if q.read_pos == q.write_pos then empty else load_record q q.read_pos

  unfoldable pub spsc_queue_is_empty : Spsc A → Bool
  spsc_queue_is_empty q = q.read_pos == q.write_pos

  unfoldable pub spsc_queue_is_full : Spsc A → Bool
  spsc_queue_is_full q = if next_record q.capacity q.write_pos == q.read_pos then true else false

  -- The difference is converted to `int`, where 2 ^ 31 and above are negative.
  unfoldable pub spsc_queue_size : Spsc A → ℕ
  spsc_queue_size q =
      let ret : ℕ = sub32 q.write_pos q.read_pos in
      if leb (2 ^ 31) ret then u32 (ret + q.capacity) else ret

  unfoldable pub spsc_queue_capacity : Spsc A → ℕ
  spsc_queue_capacity q = q.capacity

  -- The array is returned to the system: every later access to it is outside.
  unfoldable pub spsc_queue_destroy : Spsc A → Spsc A
  spsc_queue_destroy q = record q { records = [] }
