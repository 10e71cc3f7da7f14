-- ===== src/EventTree/Memory.antt =====
-- The memory that src/qtl_etree.c works on: tree nodes, queues and events by their addresses. A null
-- pointer is `none`. An address always has contents, arbitrary ones before they are set, and no node is
-- freed by that file.
use libqtl.Base.{ℕ, Bool, true, false, Option, none, some, List, [], ◌∷◌, ◌==◌, if◌then◌else◌}
use libqtl.Event.{Event}
use libqtl.EventQueue.{EventQueue, Store}

-- How a call ends: with a result, by a failed assertion, by following a null pointer (or one to a freed
-- event), or not within the fuel of its loops.
pub data Run (A : Type 0) : Type 0 where
  aborted fault out_of_fuel : Run A
  done : A → Run A

infixl 5 ◌>>=◌ ◌>>◌
abbrev pub ◌>>=◌ : {A B : Type 0} → Run A → (A → Run B) → Run B
aborted >>= _ = aborted
fault >>= _ = fault
out_of_fuel >>= _ = out_of_fuel
done a >>= go_on = go_on a

abbrev pub ◌>>◌ : {B : Type 0} → Run (Unit {0}) → Run B → Run B
r >> go_on = r >>= λ _. go_on

-- `tree_node_s`
pub record TreeNode : Type 0 where
  pub queue : ℕ
  pub timestamp : ℕ
  pub left : Option ℕ
  pub right : Option ℕ
  pub next : Option ℕ
  pub prev : Option ℕ
  pub head : Option ℕ

abbrev pub Nodes : Type 0
Nodes = ℕ → TreeNode

-- `garbage` is what unset memory holds, read as an event; `supply` is what the next calls of `malloc`
-- return, null pointers after its end.
pub record World (Bus : Type 0) : Type 0 where
  pub nodes : Nodes
  pub queues : ℕ → EventQueue Bus
  pub events : Store
  pub garbage : ℕ → Event
  pub supply : List (Option ℕ)

-- `assert(b)`, in a program that was compiled with assertions or without.
abbrev pub assert : Bool → Bool → Run (Unit {0})
assert true false = aborted
assert true true = done tt
assert false b = done tt

-- `p->…`
abbrev pub deref : Option ℕ → Run ℕ
deref none = fault
deref (some a) = done a

abbrev pub is_some : Option ℕ → Bool
is_some none = false
is_some (some a) = true

abbrev pub put {ℓ} : {A : Type ℓ} → (ℕ → A) → ℕ → A → ℕ → A
put f a x b = if a == b then x else f b

abbrev pub modify : Nodes → ℕ → (TreeNode → TreeNode) → Nodes
modify nodes a f = put nodes a (f (nodes a))

module _ {Bus : Type 0} where
  abbrev pub malloc : World Bus → Option ℕ × World Bus
  malloc w = elim w.supply [ [] ↦ (none, w) | a ∷ more ↦ (a, record w { supply = more }) ]
