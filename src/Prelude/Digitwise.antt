-- ===== src/Prelude/Digitwise.antt =====
-- The recursion on binary digits behind `&`, `|` and `^`: one digit at a time, for any operation on digits.
use Prim.Native.Nat.{ℕ, zero, suc, ◌+◌, ◌-◌, ◌*◌, ◌/◌, ◌%◌, ◌≤◌, digits}
use mathlib.Core.Path.{◌≡◌, refl, sym, ap, ◌∙◌}
use native.Mathlib.Omega.{arith}

abbrev plus : ℕ → ℕ → ℕ
plus zero d = d
plus (suc n) d = suc (plus n d)

plus_lem : (n d : ℕ) → plus n d ≡ n + d
plus_lem zero d = omega arith
plus_lem (suc n) d = omega (arith, plus_lem n d)

-- `z` gives what is left when the first number has run out, which digit by digit is `f` of 0 and the second.
module _ (z : ℕ → ℕ) (f : ℕ → ℕ → ℕ) (run_out : (b : ℕ) → z b ≡ z (b / 2) * 2 + f 0 (b % 2)) where
  spare : (n d a b : ℕ) → a ≤ n → digits z f (plus n d) a b ≡ digits z f n a b
  spare zero zero a b h = refl
  spare zero (suc d) zero b h = refl
  spare zero (suc d) (suc a) b h = absurd (omega arith)
  spare (suc n) d zero b h = refl
  spare (suc n) d (suc a) b h =
      ap (λ r. r * 2 + f (suc a % 2) (b % 2)) (spare n d (suc a / 2) (b / 2) (omega arith))

  pub digits_step :
      (a b : ℕ) → digits z f a a b ≡ digits z f (a / 2) (a / 2) (b / 2) * 2 + f (a % 2) (b % 2)
  digits_step zero b = run_out b
  digits_step (suc a) b =
      let half = suc a / 2 in
      let enough : plus half (a - half) ≡ a = omega (arith, plus_lem half (a - half)) in
      ap (λ r. r * 2 + f (suc a % 2) (b % 2))
        (ap (λ n. digits z f n half (b / 2)) (sym enough)
          ∙ spare half (a - half) half (b / 2) (omega arith))
