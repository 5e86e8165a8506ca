-- ===== src/Prelude/Bits.antt =====
-- Binary digits of words: `|`, `&` and `~` digit by digit.
use Prim.Native.Nat.{
  ℕ, zero, suc, ◌+◌, ◌-◌, ◌*◌, ◌/◌, ◌%◌, ◌^◌, ◌<◌, min, max, bit_and, bit_or, bit_and-bitwise,
  bit_or-bitwise,
}
use mathlib.Core.Path.{◌≡◌, ap, ◌∙◌}
use lina_cpx.Prelude.Digitwise.{digits_step}
use native.Mathlib.Nat.{pow-suc}
use native.Mathlib.Omega.{arith}

-- digit `k`, lowest first
abbrev pub digit : ℕ → ℕ → ℕ
digit zero x = x % 2
digit (suc k) x = digit k (x / 2)

bit_and_step : (a b : ℕ) → bit_and a b ≡ bit_and (a / 2) (b / 2) * 2 + min (a % 2) (b % 2)
bit_and_step a b = omega (
  arith,
  bit_and-bitwise a b,
  bit_and-bitwise (a / 2) (b / 2),
  digits_step (λ b. zero) min (λ b. omega arith) a b,
)

bit_or_step : (a b : ℕ) → bit_or a b ≡ bit_or (a / 2) (b / 2) * 2 + max (a % 2) (b % 2)
bit_or_step a b = omega (
  arith,
  bit_or-bitwise a b,
  bit_or-bitwise (a / 2) (b / 2),
  digits_step (λ b. b) max (λ b. omega arith) a b,
)

pub digit-bit_and : (k a b : ℕ) → digit k (bit_and a b) ≡ min (digit k a) (digit k b)
digit-bit_and zero a b = omega (arith, bit_and_step a b)
digit-bit_and (suc k) a b =
    ap (digit k) (omega (arith, bit_and_step a b)) ∙ digit-bit_and k (a / 2) (b / 2)

pub digit-bit_or : (k a b : ℕ) → digit k (bit_or a b) ≡ max (digit k a) (digit k b)
digit-bit_or zero a b = omega (arith, bit_or_step a b)
digit-bit_or (suc k) a b =
    ap (digit k) (omega (arith, bit_or_step a b)) ∙ digit-bit_or k (a / 2) (b / 2)

-- `~x` on a word of `w` digits
abbrev pub complement : ℕ → ℕ → ℕ
complement w x = 2 ^ w - 1 - x

pub digit-complement : (w k x : ℕ) → x < 2 ^ w → k < w → digit k (complement w x) ≡ 1 - digit k x
digit-complement zero k x h l = elim l [ ]
digit-complement (suc w) zero x h l = omega (arith, pow-suc 2 w)
digit-complement (suc w) (suc k) x h l =
    ap (digit k) (omega (arith, pow-suc 2 w))
    ∙ digit-complement w k (x / 2) (omega (arith, pow-suc 2 w)) (omega arith)
