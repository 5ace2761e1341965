-- ===== src/Prelude/Int.antt =====
-- `i64`: integers over the native numbers, with the wrap-around of the release build written out.
use Prim.Native.Nat.{ℕ, zero, suc, ◌+◌, ◌-◌, ◌^◌, ◌≤◌, ◌<◌, Ordering, compare}
use mathlib.Core.Path.{◌≡◌, refl}
use mathlib.Core.Bool.{Bool}
use native.Mathlib.Omega.{arith}
use native.Mathlib.Decide.{ℕ_discrete}
use twitter_rust_formal_veri.Prelude.Tests.{ltb, ◌==◌, if◌then◌else◌}

-- `negsuc n` is -(n + 1).
pub data ℤ : Type 0 where
  pos : ℕ → ℤ
  negsuc : ℕ → ℤ

abbrev pub pos_part : ℤ → ℕ
pos_part (pos n) = n
pos_part (negsuc n) = 0

abbrev pub neg_part : ℤ → ℕ
neg_part (pos n) = 0
neg_part (negsuc n) = suc n

infix 50 ◌≤ℤ◌ ◌<ℤ◌
abbrev pub ◌≤ℤ◌ : ℤ → ℤ → Type 0
a ≤ℤ b = pos_part a + neg_part b ≤ pos_part b + neg_part a

abbrev pub ◌<ℤ◌ : ℤ → ℤ → Type 0
a <ℤ b = pos_part a + neg_part b < pos_part b + neg_part a

abbrev pub ltb_ℤ : ℤ → ℤ → Bool
ltb_ℤ a b = ltb (pos_part a + neg_part b) (pos_part b + neg_part a)

abbrev pub max_ℤ : ℤ → ℤ → ℤ
max_ℤ a b = if ltb_ℤ a b then b else a

-- `Ord::cmp` on `i64`
abbrev pub compare_ℤ : ℤ → ℤ → Ordering
compare_ℤ a b = compare (pos_part a + neg_part b) (pos_part b + neg_part a)

-- `i64::MAX` is `pos i64_max`, and `i64::MIN` is `negsuc i64_max`.
abbrev pub i64_max : ℕ
i64_max = 2 ^ 63 - 1

-- `x += 1` on an `i64`
unfoldable pub incr : ℤ → ℤ
incr (pos n) = if n == i64_max then negsuc i64_max else pos (n + 1)
incr (negsuc zero) = pos 0
incr (negsuc (suc n)) = negsuc n

-- Below the maximum, `+= 1` adds one: nothing lies between the old value and the new.
pub incr_parts :
    (a : ℤ) → a <ℤ pos i64_max → pos_part (incr a) + neg_part a ≡ neg_part (incr a) + pos_part a + 1
unfolding incr
incr_parts (pos n) h = ground arith
incr_parts (negsuc zero) h = ground arith
incr_parts (negsuc (suc n)) h = ground arith

pub incr-lt : (a : ℤ) → a <ℤ pos i64_max → a <ℤ incr a
incr-lt a h = omega (arith, incr_parts a h)

pub incr-le : (a : ℤ) → a <ℤ pos i64_max → incr a ≤ℤ pos i64_max
incr-le a h = omega (arith, incr_parts a h)

pub eq_of_parts : (a b : ℤ) → pos_part a + neg_part b ≡ pos_part b + neg_part a → a ≡ b
eq_of_parts a b h = ground arith

pub ℤ-discrete : Discrete ℤ
ℤ-discrete = hlevel ℕ_discrete

-- Only below the maximum does `+= 1` move forward.
pub lt-max_of_incr : (a : ℤ) → a ≤ℤ pos i64_max → a <ℤ incr a → a <ℤ pos i64_max
unfolding incr
lt-max_of_incr (pos n) h m = ground arith
lt-max_of_incr (negsuc n) h m = omega arith

-- At the maximum `+= 1` wraps.
pub incr-max : incr (pos i64_max) ≡ negsuc i64_max
unfolding incr
incr-max = refl
