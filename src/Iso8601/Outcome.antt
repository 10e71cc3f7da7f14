-- ===== src/Iso8601/Outcome.antt =====
-- The outcomes of the parser: `refused` is the return value 1, `fault` a read outside the memory.
use libqtl.Base.{Bool, true, false}

pub data Result {ℓ} (V : Type ℓ) : Type ℓ where
  refused fault : Result V
  ok : V → Result V

-- The code goes on after a success only.
infixl 5 ◌>>=◌
abbrev pub ◌>>=◌ {ℓ} : {V W : Type ℓ} → Result V → (V → Result W) → Result W
refused >>= _ = refused
fault >>= _ = fault
ok v >>= next = next v

infixl 5 ◌>>◌
abbrev pub ◌>>◌ : {W : Type 0} → Result (Unit {0}) → Result W → Result W
refused >> _ = refused
fault >> _ = fault
ok tt >> next = next

-- `if (!b) return 1;`
abbrev pub guard : Bool → Result (Unit {0})
guard true = ok tt
guard false = refused
