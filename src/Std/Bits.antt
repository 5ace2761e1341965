-- ===== src/Std/Bits.antt =====
-- `^` and `|` on unsigned integers, and when their results are zero; `& 0xff`.
use Prim.Native.Nat.{
  bit_and, bit_and-bitwise, min, ◌+◌, ◌*◌, bit_or, bit_xor, bit_or-bitwise, bit_xor-bitwise, digits,
  differ, ◌/◌, ◌%◌, max,
}
use twitter_rust_formal_veri.Prelude.{ℕ, zero, suc, ◌≤◌, ◌≡◌, ◌↔◌, refl, sym, ◌∙◌, arith}

differ_zero : (x y : ℕ) → differ x y ≡ 0 → x ≡ y
differ_zero zero y h = sym h
differ_zero (suc x) zero h = absurd (omega arith)
differ_zero (suc x) (suc y) h = omega (arith, differ_zero x y h)

differ_self : (x : ℕ) → differ x x ≡ 0
differ_self zero = refl
differ_self (suc x) = differ_self x

xor_digits_zero : (n a b : ℕ) → a ≤ n → digits (λ b. b) differ n a b ≡ 0 → a ≡ b
xor_digits_zero zero zero b h e = sym e
xor_digits_zero zero (suc a) b h e = absurd (omega arith)
xor_digits_zero (suc n) zero b h e = sym e
xor_digits_zero (suc n) (suc a) b h e = omega (
  arith,
  differ_zero (suc a % 2) (b % 2) (omega arith),
  xor_digits_zero n (suc a / 2) (b / 2) (omega arith) (omega arith),
)

xor_digits_self : (n a : ℕ) → a ≤ n → digits (λ b. b) differ n a a ≡ 0
xor_digits_self zero a h = omega arith
xor_digits_self (suc n) zero h = refl
xor_digits_self (suc n) (suc a) h =
    omega (arith, differ_self (suc a % 2), xor_digits_self n (suc a / 2) (omega arith))

or_digits_zero : (n a b : ℕ) → a ≤ n → digits (λ b. b) max n a b ≡ 0 → (a ≡ 0) × (b ≡ 0)
or_digits_zero zero zero b h e = (refl, e)
or_digits_zero zero (suc a) b h e = absurd (omega arith)
or_digits_zero (suc n) zero b h e = (refl, e)
or_digits_zero (suc n) (suc a) b h e =
    omega (arith, or_digits_zero n (suc a / 2) (b / 2) (omega arith) (omega arith))

pub bit_xor-eq-zero : (a b : ℕ) → (bit_xor a b ≡ 0) ↔ (a ≡ b)
bit_xor-eq-zero a b = (
  λ h. xor_digits_zero a a b (omega arith) (sym (bit_xor-bitwise a b) ∙ h),
  λ e. rw (← e) (bit_xor-bitwise a a ∙ xor_digits_self a a (omega arith)),
)

pub bit_or-eq-zero : (a b : ℕ) → (bit_or a b ≡ 0) ↔ ((a ≡ 0) × (b ≡ 0))
bit_or-eq-zero a b = (
  λ h. or_digits_zero a a b (omega arith) (sym (bit_or-bitwise a b) ∙ h),
  λ e. rw (e.0, e.1) refl,
)

-- `k` ones, and the last `k` digits of a number
mask : ℕ → ℕ
mask zero = 0
mask (suc k) = mask k * 2 + 1

low : ℕ → ℕ → ℕ
low zero a = 0
low (suc k) a = low k (a / 2) * 2 + a % 2

low_zero : (k : ℕ) → low k 0 ≡ 0
unfolding low
low_zero zero = refl
low_zero (suc k) = omega (arith, low_zero k)

and_digits-mask : (n a k : ℕ) → a ≤ n → digits (λ b. zero) min n a (mask k) ≡ low k a
unfolding mask low
and_digits-mask zero zero k h = sym (low_zero k)
and_digits-mask zero (suc a) k h = absurd (omega arith)
and_digits-mask (suc n) zero k h = sym (low_zero k)
and_digits-mask (suc n) (suc a) zero h =
    omega (arith, and_digits-mask n (suc a / 2) zero (omega arith))
and_digits-mask (suc n) (suc a) (suc k) h =
    let half : (mask k * 2 + 1) / 2 ≡ mask k = omega arith in
    let odd : (mask k * 2 + 1) % 2 ≡ 1 = omega arith in
    rw (half, odd) (omega (arith, and_digits-mask n (suc a / 2) k (omega arith)))

pub bit_and-byte : (a : ℕ) → bit_and a 0xff ≡ a % 256
unfolding mask low
bit_and-byte a = bit_and-bitwise a 0xff ∙ and_digits-mask a a 8 (omega arith) ∙ omega arith
