-- ===== src/Clock.antt =====
-- crates/clock/src/lib.rs: the logical clock. A method that takes the mutex is one step from a
-- state to the next; `+= 1` wraps as in the release build.
pub mod Monotone
pub mod Default
pub mod VerusProof
use twitter_rust_formal_veri.Prelude.{ℤ, pos, ◌≤ℤ◌, i64_max, incr, ◌≡◌, refl}

-- `Mutex<i64>`
pub record LockState : Type 0 where
  pub inner : ℤ

-- `LockState::new`
pub lock_new : ℤ → LockState
lock_new v = record { inner = v }

unfoldable pub lock_value : LockState → ℤ
lock_value s = s.inner

unfoldable pub lock_increment : LockState → LockState
lock_increment s = record { inner = incr s.inner }

unfoldable pub lock_set : LockState → ℤ → LockState
lock_set s value = record { inner = value }

-- The trait `Clock`, with what its documentation promises of the clocks that implement it.
pub record Clock (C : Type 0) : Type 0 where
  pub now : C → ℤ
  pub tick : C → C
  pub set_now : C → ℤ → C
  pub now_tick : (c : C) → now (tick c) ≡ incr (now c)
  pub now_set_now :
      (c : C) (value : ℤ) → now c ≤ℤ value → value ≤ℤ pos i64_max → now (set_now c value) ≡ value

pub record Logical : Type 0 where
  pub inner : LockState

-- `Logical::new_at`, `Logical::new`
unfoldable pub new_at : ℤ → Logical
unfolding lock_new
new_at start = record { inner = lock_new start }

unfoldable pub new : Logical
unfolding new_at
new = new_at (pos 0)

-- `impl Clock for Logical`
unfoldable pub now : Logical → ℤ
unfolding lock_value
now c = lock_value c.inner

unfoldable pub tick : Logical → Logical
unfolding lock_increment
tick c = record { inner = lock_increment c.inner }

unfoldable pub set_now : Logical → ℤ → Logical
unfolding lock_set
set_now c value = record { inner = lock_set c.inner value }

pub now-new : now new ≡ pos 0
unfolding now new
now-new = refl

pub now-tick : (c : Logical) → now (tick c) ≡ incr (now c)
unfolding now tick
now-tick c = refl

-- The override jumps in one step, backwards too.
pub now-set_now : (c : Logical) (value : ℤ) → now (set_now c value) ≡ value
unfolding now set_now
now-set_now c value = refl

abbrev pub logical_clock : Clock Logical
logical_clock = record {
  now = now;
  tick = tick;
  set_now = set_now;
  now_tick = now-tick;
  now_set_now = λ c value _ _. now-set_now c value;
}
