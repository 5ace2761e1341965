-- ===== src/Clock/VerusProof.antt =====
-- The module `verus_proof` in crates/clock/src/lib.rs: the ghost views, the shims around the lock, and
-- the copies of `now` and `tick` over them.
use twitter_rust_formal_veri.Prelude.{
  ◌+◌, ℤ, pos, negsuc, pos_part, neg_part, ◌≤ℤ◌, ◌<ℤ◌, i64_max, incr, incr_parts, lt-max_of_incr,
  ◌≡◌, ◌↔◌, refl, ap, ◌∙◌, arith,
}
use twitter_rust_formal_veri.Prelude.Int.{incr-max}
use twitter_rust_formal_veri.Clock
use twitter_rust_formal_veri.Clock.{LockState, Logical, lock_value, lock_increment}

unfoldable pub lock_state_value : LockState → ℤ
lock_state_value s = s.inner

unfoldable pub ts : Logical → ℤ
unfolding lock_state_value
ts c = lock_state_value c.inner

unfoldable pub proof_lock_value : LockState → ℤ
proof_lock_value s = lock_value s

unfoldable pub proof_lock_increment : LockState → LockState
proof_lock_increment s = lock_increment s

unfoldable pub now_ensures : Logical → ℤ
unfolding proof_lock_value
now_ensures c = proof_lock_value c.inner

unfoldable pub tick_ensures : Logical → Logical
unfolding proof_lock_increment
tick_ensures c = record { inner = proof_lock_increment c.inner }

-- The copies are the methods, and read and move the ghost view, which wraps where the counter does.
clock_copies :
    (c : Logical)
    → (now_ensures c ≡ Clock.now c)
      × (tick_ensures c ≡ Clock.tick c)
      × (now_ensures c ≡ ts c)
      × (ts (tick_ensures c) ≡ incr (ts c))
unfolding now_ensures tick_ensures ts Clock.now Clock.tick lock_value lock_increment
clock_copies c = (refl, refl, refl, refl)

-- The `ensures` of `proof_lock_increment` and of `tick_ensures`; the sum is that of unbounded integers.
pub record TickEnsures (old c : Logical) : Type 0 where
  pub counted : pos_part (ts c) + neg_part (ts old) ≡ neg_part (ts c) + pos_part (ts old) + 1

-- For a clock that reads an `i64`, `tick` meets the trusted contract, one more than before, exactly
-- when the clock does not stand at the maximum; and from a clock at the maximum it goes to the minimum.
pub TickEnsures-iff :
    (c full : Logical)
    → Clock.now c ≤ℤ pos i64_max
    → Clock.now full ≡ pos i64_max
    → (TickEnsures c (Clock.tick c) ↔ (Clock.now c <ℤ pos i64_max))
      × (Clock.now (Clock.tick full) ≡ negsuc i64_max)
unfolding ts Clock.now Clock.tick lock_value lock_increment
TickEnsures-iff c full h at_max = (
  (
    λ e. lt-max_of_incr c.inner.inner h (omega (arith, e.counted)),
    λ below. record { counted = incr_parts c.inner.inner below },
  ),
  ap incr at_max ∙ incr-max,
)
