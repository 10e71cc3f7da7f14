-- ===== src/Event/Refs.antt =====
-- The life of an event: it is freed by the last of its holders, and not before.
use libqtl.Base.{
  ℕ, zero, suc, ◌+◌, ◌^◌, ◌<◌, ◌≡◌, refl, Option, none, some, List, [], ◌∷◌, arith, u16, sub16,
  false, ap, ◌∙◌, ◌==◌,
}
use libqtl.Event.{Event, EventType, event_init, event_ref, event_unref}

-- What the holders of one event do, in the order of the atomic operations.
pub data Use : Type 0 where
  acquire release : Use

-- The event after their operations; `none` once it has been freed, and an operation on a freed event
-- is what must not happen, `used_after_free`.
pub data Life : Type 0 where
  alive : Event → Life
  freed used_after_free : Life

unfoldable pub live_on : Option Event → Life
live_on none = freed
live_on (some e) = alive e

unfoldable pub use_event : Use → Life → Life
use_event acquire (alive e) = alive (event_ref e).0
use_event release (alive e) = live_on (event_unref e).0
use_event u freed = used_after_free
use_event u used_after_free = used_after_free

unfoldable pub use_all : List Use → Life → Life
use_all [] l = l
use_all (u ∷ us) l = use_all us (use_event u l)

-- The number of holders after each operation, from `n` of them: every holder that releases the event
-- holds it, and there are fewer than 2 ^ 16 at a time.
abbrev pub Held : ℕ → List Use → ℕ → Type 0
Held n [] m = (n ≡ m) × (n < 2 ^ 16)
Held n (acquire ∷ us) m = (0 < n) × (suc n < 2 ^ 16) × Held (suc n) us m
Held zero (release ∷ us) m = ⊥
Held (suc n) (release ∷ us) m = (suc n < 2 ^ 16) × Held n us m

-- The fate of an event that `n` hold.
abbrev pub fate : Event → ℕ → Life
fate e zero = freed
fate e (suc n) = alive (record e { ref = suc n })

acquired : (n : ℕ) → suc (suc n) < 2 ^ 16 → u16 (suc n + 1) ≡ suc (suc n)
acquired n h = ground arith

kept : (n : ℕ) → suc (suc n) < 2 ^ 16 → sub16 (suc (suc n)) 1 ≡ suc n
kept n h = omega arith

several : (n : ℕ) → (suc (suc n) == 1) ≡ false
several n = ground arith

acquire_fate :
    (n : ℕ) (e : Event)
    → suc (suc n) < 2 ^ 16
    → use_event acquire (fate e (suc n)) ≡ fate e (suc (suc n))
unfolding use_event event_ref
acquire_fate n e h = rw (acquired n h) refl

pub release_fate :
    (n : ℕ) (e : Event) → suc n < 2 ^ 16 → use_event release (fate e (suc n)) ≡ fate e n
unfolding use_event event_unref live_on
release_fate zero e h = refl
release_fate (suc n) e h = rw (several n, kept n h) refl

use_all-fate :
    (us : List Use) (e : Event) (n m : ℕ) → Held n us m → use_all us (fate e n) ≡ fate e m
unfolding use_all
use_all-fate [] e n m h = ap (fate e) h.0
use_all-fate (acquire ∷ us) e (suc n) m h =
    ap (use_all us) (acquire_fate n e h.1) ∙ use_all-fate us e (suc (suc n)) m h.2
use_all-fate (acquire ∷ us) e zero m h =
    let none_held : ⊥ = omega (arith, h.0) in elim none_held [ ]
use_all-fate (release ∷ us) e zero m h = elim h [ ]
use_all-fate (release ∷ us) e (suc n) m h =
    ap (use_all us) (release_fate n e h.0) ∙ use_all-fate us e n m h.1

-- When only its holders acquire and release an event that was just initialised, and there are always fewer
-- than 2 ^ 16 of them, it is freed exactly when none is left, keeps their number as its count until then,
-- and is never used after it was freed.
pub use_all-Held :
    (us : List Use) (e : Event) (type : EventType) (m : ℕ)
    → Held 1 us m
    → use_all us (alive (event_init e type)) ≡ fate (event_init e type) m
unfolding event_init
use_all-Held us e type m h = use_all-fate us (event_init e type) 1 m h
