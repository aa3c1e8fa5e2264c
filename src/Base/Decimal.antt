-- ===== src/Base/Decimal.antt =====
-- `strconv.Itoa` on a number that is not negative, and reading decimal digits back.
use Prim.Native.Nat.{ℕ, zero, suc, ◌+◌, ◌-◌, ◌*◌, ◌/◌, ◌%◌, ◌≤◌, ◌<◌}
use mathlib.Core.Logic.{inl, inr}
use mathlib.Core.Path.{◌≡◌, refl}
use mathlib.Core.List.{List, [], ◌∷◌, ◌++◌}
use native.Mathlib.Omega.{arith}
use chipfs.Base.Tests.{ltb, if◌then◌else◌, ltb→lt, Bool-cases}
use chipfs.Base.Lists.{length, All, All-append, length-append}

-- Each round takes a digit off, so `n + 1` rounds are enough.
unfoldable pub itoa_loop : ℕ → ℕ → List ℕ
itoa_loop zero n = []
itoa_loop (suc fuel) n =
    let rest : List ℕ = itoa_loop fuel (n / 10) ++ (48 + n % 10) ∷ [] in
    if ltb n 10 then (48 + n) ∷ [] else rest

unfoldable pub itoa : ℕ → List ℕ
unfolding itoa_loop
itoa n = itoa_loop (suc n) n

-- The number that a run of digits stands for, behind `acc`.
unfoldable pub digits_value : ℕ → List ℕ → ℕ
digits_value acc [] = acc
digits_value acc (d ∷ ds) = digits_value (acc * 10 + (d - 48)) ds

digits_value-append :
    (acc : ℕ) (xs ys : List ℕ) → digits_value acc (xs ++ ys) ≡ digits_value (digits_value acc xs) ys
unfolding digits_value
digits_value-append acc [] ys = refl
digits_value-append acc (x ∷ xs) ys = digits_value-append (acc * 10 + (x - 48)) xs ys

digits_value-itoa_loop : (fuel n : ℕ) → n < fuel → digits_value 0 (itoa_loop fuel n) ≡ n
unfolding digits_value itoa_loop
digits_value-itoa_loop zero n h = absurd (omega arith)
digits_value-itoa_loop (suc fuel) n h = ground (
  arith,
  digits_value-append 0 (itoa_loop fuel (n / 10)) ((48 + n % 10) ∷ []),
  digits_value-itoa_loop fuel (n / 10),
)

-- The digits that `Itoa` writes are read back as the number.
pub digits_value-itoa : (n : ℕ) → digits_value 0 (itoa n) ≡ n
unfolding itoa
digits_value-itoa n = digits_value-itoa_loop (suc n) n (omega arith)

itoa_loop-IsDigit : (fuel n : ℕ) → All (λ d. (48 ≤ d) × (d < 58)) (itoa_loop fuel n)
unfolding itoa_loop
itoa_loop-IsDigit zero n = tt
itoa_loop-IsDigit (suc fuel) n = elim (Bool-cases (ltb n 10)) [
  | inl small ↦ rw small (omega (arith, ltb→lt n 10 small))
  | inr large ↦ rw large (
      All-append (λ d. (48 ≤ d) × (d < 58)) (itoa_loop fuel (n / 10)) _
        (itoa_loop-IsDigit fuel (n / 10)) (omega arith))
]

pub itoa-IsDigit : (n : ℕ) → All (λ d. (48 ≤ d) × (d < 58)) (itoa n)
unfolding itoa
itoa-IsDigit n = itoa_loop-IsDigit (suc n) n

pub itoa-ne-nil : (n : ℕ) → 0 < length (itoa n)
unfolding itoa itoa_loop
itoa-ne-nil n = ground (arith, length-append (itoa_loop n (n / 10)) ((48 + n % 10) ∷ []))

itoa_loop-ne-nil : (fuel n : ℕ) → 0 < fuel → 0 < length (itoa_loop fuel n)
unfolding itoa_loop
itoa_loop-ne-nil zero n h = absurd (omega arith)
itoa_loop-ne-nil (suc fuel) n h =
    ground (arith, length-append (itoa_loop fuel (n / 10)) ((48 + n % 10) ∷ []))

-- A number from 10 on has two digits at least.
pub itoa_wide : (n : ℕ) → 10 ≤ n → 2 ≤ length (itoa n)
unfolding itoa itoa_loop
itoa_wide n h = ground (
  arith,
  itoa_loop-ne-nil n (n / 10) (omega arith),
  length-append (itoa_loop n (n / 10)) ((48 + n % 10) ∷ []),
)
