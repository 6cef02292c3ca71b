-- ===== src/Prelude/Decimal.antt =====
-- `str(n)` of a number.
use Prim.Native.Nat.{ℕ, zero, suc, ◌/◌, ◌%◌, ◌≤◌, ◌<◌}
use Prim.Native.String
use Prim.Native.String.{String}
use mathlib.Core.Logic.{inl, inr}
use native.Mathlib.Omega.{arith}
use comfy_shell_v.Prelude.Tests.{ltb, if◌then◌else◌, Bool-cases}

unfoldable pub digit : ℕ → String
digit zero = "0"
digit (suc zero) = "1"
digit (suc (suc zero)) = "2"
digit (suc (suc (suc zero))) = "3"
digit (suc (suc (suc (suc zero)))) = "4"
digit (suc (suc (suc (suc (suc zero))))) = "5"
digit (suc (suc (suc (suc (suc (suc zero)))))) = "6"
digit (suc (suc (suc (suc (suc (suc (suc zero))))))) = "7"
digit (suc (suc (suc (suc (suc (suc (suc (suc zero)))))))) = "8"
digit _ = "9"

-- A number has at most as many digits as one more than itself, so that fuel is enough.
digits : ℕ → ℕ → String
digits zero n = ""
digits (suc fuel) n =
    let high = digits fuel (n / 10) in
    if ltb n 10 then digit n else String.◌++◌ high (digit (n % 10))

unfoldable pub show_ℕ : ℕ → String
unfolding digits digit
show_ℕ n = digits (suc n) n

-- A text of a number is one digit, or the text of a tenth of it and one digit.
module _ (P : ℕ → String → Type 0) (one_digit : (n : ℕ) → n < 10 → P n (digit n))
    (more_digits : (n : ℕ) (high : String)
      → 10 ≤ n
      → P (n / 10) high
      → P n (String.◌++◌ high (digit (n % 10)))) where
  digits_lem : (fuel n : ℕ) → n < fuel → P n (digits fuel n)
  unfolding digits
  digits_lem zero n h = absurd (omega arith)
  digits_lem (suc fuel) n h = elim (Bool-cases (ltb n 10)) [
    | inl small ↦ rw small (one_digit n (ground arith))
    | inr large ↦ rw large (
        more_digits n (digits fuel (n / 10)) (ground arith)
          (digits_lem fuel (n / 10) (ground arith)))
  ]

  pub show_ℕ_lem : (n : ℕ) → P n (show_ℕ n)
  unfolding show_ℕ
  show_ℕ_lem n = digits_lem (suc n) n (omega arith)
