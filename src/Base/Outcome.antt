-- ===== src/Base/Outcome.antt =====
-- The outcome of a run of kernel code: a value, a halt by PANIC or ASSERT, or a loop cut short.
use Prim.Native.Nat.{ℕ, ◌+◌, ◌-◌, ◌%◌, ◌^◌}
use mathlib.Core.Option.{Option, none, some}
use mathlib.Core.Bool.{Bool, true, false}

pub data Run {ℓ} (A : Type ℓ) : Type ℓ where
  ok : A → Run A
  panic : Run A
  out_of_fuel : Run A

infixl 5 ◌>>=◌ ◌>>◌
abbrev pub ◌>>=◌ {ℓ κ} : {A : Type ℓ} {B : Type κ} → (m : Run A) (next : A → Run B) → Run B
out_of_fuel >>= next = out_of_fuel
panic >>= next = panic
ok value >>= next = next value

abbrev pub ◌>>◌ {ℓ} : {B : Type ℓ} → Run (Unit {0}) → Run B → Run B
m >> k = m >>= λ _. k

-- ASSERT of include/kprint.h.
abbrev pub assert : Bool → Run (Unit {0})
assert true = ok tt
assert false = panic

-- A `uint32_t` keeps its value modulo 2 ^ 32.
abbrev pub u32 : ℕ → ℕ
u32 n = n % 2 ^ 32

-- `a - b` on `uint32_t`.
abbrev pub sub32 : ℕ → ℕ → ℕ
sub32 a b = u32 (a + 2 ^ 32 - b)

-- The result of a loop on fuel, where `none` is fuel that ran out.
abbrev pub in_fuel {ℓ} : {A : Type ℓ} → Option A → Run A
in_fuel none = out_of_fuel
in_fuel (some a) = ok a

-- The run ends with a value, and `P` holds of it.
abbrev pub Returns {ℓ} : {A : Type ℓ} → Run A → (A → Type 0) → Type 0
Returns (ok a) P = P a
Returns panic P = ⊥
Returns out_of_fuel P = ⊥

-- What a first part returns goes on to the second.
pub Returns-then :
    {A B : Type 0} {Q : A → Type 0} (m : Run A) (f : A → Run B) (R : B → Type 0)
    → Returns m Q
    → ((a : A) → Q a → Returns (f a) R)
    → Returns (m >>= f) R
Returns-then (ok a) f R h k = k a h
Returns-then panic f R h k = h
Returns-then out_of_fuel f R h k = h

pub Returns-weaken :
    {A : Type 0} (m : Run A) (Q R : A → Type 0) → Returns m Q → ((a : A) → Q a → R a) → Returns m R
Returns-weaken (ok a) Q R h k = k a h
Returns-weaken panic Q R h k = h
Returns-weaken out_of_fuel Q R h k = h
