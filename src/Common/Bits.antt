-- ===== src/Common/Bits.antt =====
-- `|` and `&` at variables, by the digit recursion that the native operations stand for.
use Prim.Native.Nat.{
  ℕ, zero, suc, ◌+◌, ◌-◌, ◌*◌, ◌/◌, ◌%◌, ◌≤◌, min, max, bit_and, bit_or, digits, bit_and-bitwise,
  bit_or-bitwise,
}
use mathlib.Core.Path.{◌≡◌, refl, sym, ap, ◌∙◌}
use native.Mathlib.Omega.{arith}

-- More fuel than the number has digits changes nothing.
digits-fuel :
    (g : ℕ → ℕ) (c : ℕ → ℕ → ℕ) (n m a b : ℕ) → a ≤ n → a ≤ m → digits g c n a b ≡ digits g c m a b
digits-fuel g c zero zero zero b p q = refl
digits-fuel g c zero (suc m) zero b p q = refl
digits-fuel g c (suc n) zero zero b p q = refl
digits-fuel g c (suc n) (suc m) zero b p q = refl
digits-fuel g c (suc n) (suc m) (suc a) b p q =
    ap (λ x. x * 2 + c (suc a % 2) (b % 2))
      (digits-fuel g c n m (suc a / 2) (b / 2) (omega arith) (omega arith))
digits-fuel g c _ _ (suc a) b p q = absurd (omega arith)

bit_or-step :
    (a b : ℕ) → bit_or (suc a) b ≡ bit_or (suc a / 2) (b / 2) * 2 + max (suc a % 2) (b % 2)
bit_or-step a b =
    bit_or-bitwise (suc a) b
    ∙ ap (λ x. x * 2 + max (suc a % 2) (b % 2))
        (digits-fuel (λ b. b) max a (suc a / 2) (suc a / 2) (b / 2) (omega arith) (omega arith)
          ∙ sym (bit_or-bitwise (suc a / 2) (b / 2)))

bit_and-step :
    (a b : ℕ) → bit_and (suc a) b ≡ bit_and (suc a / 2) (b / 2) * 2 + min (suc a % 2) (b % 2)
bit_and-step a b =
    bit_and-bitwise (suc a) b
    ∙ ap (λ x. x * 2 + min (suc a % 2) (b % 2))
        (digits-fuel (λ b. zero) min a (suc a / 2) (suc a / 2) (b / 2) (omega arith) (omega arith)
          ∙ sym (bit_and-bitwise (suc a / 2) (b / 2)))

-- The fuel bounds the number: an induction that halves it.
or-zero_below : (n a : ℕ) → a ≤ n → bit_or a 0 ≡ a
or-zero_below n zero h = bit_or-bitwise 0 0
or-zero_below zero (suc a) h = absurd (omega arith)
or-zero_below (suc n) (suc a) h =
    omega (arith, bit_or-step a 0, or-zero_below n (suc a / 2) (omega arith))

and-zero_below : (n a : ℕ) → a ≤ n → bit_and a 0 ≡ 0
and-zero_below n zero h = bit_and-bitwise 0 0
and-zero_below zero (suc a) h = absurd (omega arith)
and-zero_below (suc n) (suc a) h =
    omega (arith, bit_and-step a 0, and-zero_below n (suc a / 2) (omega arith))

-- `x | 1` sets the lowest bit.
pub bit_or-one : (a : ℕ) → bit_or a 1 ≡ a + 1 - a % 2
bit_or-one zero = omega (arith, bit_or-bitwise 0 1)
bit_or-one (suc a) =
    omega (arith, bit_or-step a 1, or-zero_below (suc a / 2) (suc a / 2) (omega arith))

-- `x & 1` reads it.
pub bit_and-one : (a : ℕ) → bit_and a 1 ≡ a % 2
bit_and-one zero = omega (arith, bit_and-bitwise 0 1)
bit_and-one (suc a) =
    omega (arith, bit_and-step a 1, and-zero_below (suc a / 2) (suc a / 2) (omega arith))

-- A mask of one more bit: `halves` says how a remainder by `n` is made from one by `m`.
and-mask_step :
    (k m n : ℕ)
    → (halves : (a : ℕ) → a % n ≡ (a / 2) % m * 2 + a % 2) → ((a : ℕ) → bit_and a k ≡ a % m)
    → (a : ℕ) → bit_and a (k * 2 + 1) ≡ a % n
and-mask_step k m n halves h zero =
    bit_and-bitwise 0 (k * 2 + 1) ∙ omega (arith, halves 0, h 0, bit_and-bitwise 0 k)
and-mask_step k m n halves h (suc a) =
    bit_and-step a (k * 2 + 1)
    ∙ omega (arith, halves (suc a), h (suc a / 2), ap (λ x. bit_and (suc a / 2) x) (half k))
  where
    half : (k : ℕ) → (k * 2 + 1) / 2 ≡ k
    half k = omega arith

-- `x & 255` is the lowest byte.
pub bit_and-byte : (a : ℕ) → bit_and a 255 ≡ a % 256
bit_and-byte =
    and-mask_step 127 128 256 (λ a. omega arith)
      (and-mask_step 63 64 128 (λ a. omega arith)
        (and-mask_step 31 32 64 (λ a. omega arith)
          (and-mask_step 15 16 32 (λ a. omega arith)
            (and-mask_step 7 8 16 (λ a. omega arith)
              (and-mask_step 3 4 8 (λ a. omega arith)
                (and-mask_step 1 2 4 (λ a. omega arith) bit_and-one))))))
