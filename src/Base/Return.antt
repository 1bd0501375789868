-- ===== src/Base/Return.antt =====
-- Return codes. A function that returns 0 with a value written through its output argument
-- gives `ok value`; one that returns `-n` and writes nothing gives `err n`.
use Prim.Native.Nat.{ℕ, zero, suc}
use mathlib.Core.Path.{◌≡◌, refl}
use mathlib.Core.Bool.{Bool, true, false}
use mathlib.Core.Logic.{◌⊎◌, inl, inr}
use mathlib.Core.Option.{Option, none, some}

pub data Result {ℓ} (A : Type ℓ) : Type ℓ where
  ok : A → Result A
  err : ℕ → Result A

infixl 5 ◌>>=◌
abbrev pub ◌>>=◌ {ℓ κ} : {A : Type ℓ} {B : Type κ} → Result A → (A → Result B) → Result B
ok a >>= f = f a
err n >>= f = err n

-- An `int`: `negsuc n` is -(n + 1).
pub data ℤ : Type 0 where
  pos : ℕ → ℤ
  negsuc : ℕ → ℤ

-- The `int` that is returned for an error.
abbrev pub minus : ℕ → ℤ
minus zero = pos 0
minus (suc n) = negsuc n

pub Result-cases {ℓ} :
    {A : Type ℓ} (r : Result A) → ((a : A) × (r ≡ ok a)) ⊎ ((n : ℕ) × (r ≡ err n))
Result-cases (ok a) = inl (a, refl)
Result-cases (err n) = inr (n, refl)

-- The test `code != 0`.
abbrev pub failed : ℤ → Bool
failed (pos zero) = false
failed (pos (suc n)) = true
failed (negsuc n) = true

-- The test `code < 0`.
abbrev pub negative : ℤ → Bool
negative (pos n) = false
negative (negsuc n) = true

pub Option-cases {ℓ} : {A : Type ℓ} (o : Option A) → ((a : A) × (o ≡ some a)) ⊎ (o ≡ none)
Option-cases none = inr refl
Option-cases (some a) = inl (a, refl)
