-- ===== src/Common/Results.antt =====
-- What a C function called from Lua can do: return, raise a Lua error (`luaL_error`), or read or
-- write outside a block of memory, which C leaves undefined.
use Prim.Native.String.{String}
use mathlib.Core.Bool.{Bool, true, false}
use mathlib.Core.Option.{Option, none, some}

pub data Result {ℓ} (A : Type ℓ) : Type ℓ where
  fault : Result A
  err : String → Result A
  ok : A → Result A

-- The next step runs if this one returned.
infixl 5 ◌>>=◌ ◌>>◌
abbrev pub ◌>>=◌ {ℓ κ} : {A : Type ℓ} {B : Type κ} → Result A → (A → Result B) → Result B
fault >>= next = fault
err message >>= next = err message
ok a >>= next = next a

abbrev pub ◌>>◌ {ℓ} : {B : Type ℓ} → Result (Unit {0}) → Result B → Result B
fault >> next = fault
err message >> next = err message
ok done >> next = next

-- `if(test) return luaL_error(message)`.
abbrev pub raise_if : Bool → String → Result (Unit {0})
raise_if true e = err e
raise_if false e = ok tt

-- Memory accesses of a helper.
abbrev pub access {ℓ} : {A : Type ℓ} → Option A → Result A
access none = fault
access (some a) = ok a

-- A value that must be there, or the error is raised.
abbrev pub expect {ℓ} : {A : Type ℓ} → Option A → String → Result A
expect none e = err e
expect (some a) e = ok a
