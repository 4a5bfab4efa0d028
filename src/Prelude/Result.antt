-- ===== src/Prelude/Result.antt =====
-- How a Go function of the program ends: it returns, it raises a Lua error (`L.RaiseError`, which
-- unwinds to the protected call around it), it panics, or it stops the process (`logger.Fatal`).
use drlee.Prelude.Tests.{if◌then◌else◌}
use Prim.Native.String.{String}
use mathlib.Core.Bool.{Bool}

pub data Result {ℓ} (A : Type ℓ) : Type ℓ where
  ok : A → Result A
  raise : String → Result A
  panic fatal : Result A

-- What comes next runs only after a normal return.
infixl 5 ◌>>=◌
abbrev pub ◌>>=◌ {ℓ κ} : {A : Type ℓ} {C : Type κ} → Result A → (A → Result C) → Result C
ok value >>= next = next value
raise message >>= next = raise message
panic >>= next = panic
fatal >>= next = fatal

infixl 5 ◌>>◌
abbrev pub ◌>>◌ {ℓ} : {C : Type ℓ} → Result (Unit {0}) → Result C → Result C
first >> second = first >>= λ _. second

-- `if b { L.RaiseError(m) }`
abbrev pub raise_if : Bool → String → Result (Unit {0})
raise_if b m = if b then raise m else ok tt
