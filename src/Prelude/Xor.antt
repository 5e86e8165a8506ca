-- ===== src/Prelude/Xor.antt =====
-- `^` on words, and that a mask applied twice is gone.
use Prim.Native.Nat.{ℕ, zero, suc, ◌+◌, ◌*◌, ◌/◌, ◌%◌, ◌≤◌, ◌<◌, bit_xor, differ, bit_xor-bitwise}
use mathlib.Core.Path.{◌≡◌, refl, ap, ◌∙◌}
use lina_cpx.Prelude.Digitwise.{digits_step}
use native.Mathlib.Omega.{arith}

-- a digit and a digit of the mask
differ_twice : (d e : ℕ) → d < 2 → e < 2 → (differ (differ d e) e ≡ d) × (differ d e < 2)
differ_twice zero zero h k = (refl, h)
differ_twice zero (suc zero) h k = (refl, k)
differ_twice (suc zero) zero h k = (refl, h)
differ_twice (suc zero) (suc zero) h k = (refl, omega arith)
differ_twice (suc (suc d)) e h k = absurd (omega arith)
differ_twice zero (suc (suc e)) h k = absurd (omega arith)
differ_twice (suc zero) (suc (suc e)) h k = absurd (omega arith)

bit_xor_step : (a b : ℕ) → bit_xor a b ≡ bit_xor (a / 2) (b / 2) * 2 + differ (a % 2) (b % 2)
bit_xor_step a b = omega (
  arith,
  bit_xor-bitwise a b,
  bit_xor-bitwise (a / 2) (b / 2),
  digits_step (λ b. b) differ (λ b. omega arith) a b,
)

halves : (a m : ℕ) → bit_xor (bit_xor (a / 2) (m / 2)) (m / 2) ≡ a / 2 → bit_xor (bit_xor a m) m ≡ a
halves a m ih =
    let x = bit_xor a m in
    let xe = bit_xor_step a m in
    let d = differ_twice (a % 2) (m % 2) (omega arith) (omega arith) in
    let half : x / 2 ≡ bit_xor (a / 2) (m / 2) = omega arith in
    let last : x % 2 ≡ differ (a % 2) (m % 2) = omega arith in
    bit_xor_step x m
    ∙ omega (arith, ap (λ h. bit_xor h (m / 2)) half ∙ ih, ap (λ l. differ l (m % 2)) last ∙ d.0)

twice_fuel : (n a m : ℕ) → a + m ≤ n → bit_xor (bit_xor a m) m ≡ a
twice_fuel zero zero zero h = refl
twice_fuel zero zero (suc m) h = absurd (omega arith)
twice_fuel zero (suc a) m h = absurd (omega arith)
twice_fuel (suc n) zero zero h = refl
twice_fuel (suc n) zero (suc m) h = halves 0 (suc m) (twice_fuel n 0 (suc m / 2) (omega arith))
twice_fuel (suc n) (suc a) m h = halves (suc a) m (twice_fuel n (suc a / 2) (m / 2) (omega arith))

pub bit_xor_twice : (a m : ℕ) → bit_xor (bit_xor a m) m ≡ a
bit_xor_twice a m = twice_fuel (a + m) a m (omega arith)
