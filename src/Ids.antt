-- ===== src/Ids.antt =====
-- crates/ids/src/lib.rs: the generator of identifiers. Each method is one critical section of the
-- mutex; `+= 1` wraps as in the release build.
pub mod Fresh
pub mod VerusProof
use twitter_rust_formal_veri.Prelude.{ℤ, pos, incr, ◌≡◌, refl}

-- `Mutex<i64>`
pub record LockState : Type 0 where
  pub inner : ℤ

-- `LockState::new`
pub lock_new : ℤ → LockState
lock_new v = record { inner = v }

unfoldable pub lock_value : LockState → ℤ
lock_value s = s.inner

-- The counter after the increment is the next identifier.
pub lock_increment : LockState → ℤ × LockState
lock_increment s = (incr s.inner, record { inner = incr s.inner })

unfoldable pub lock_set : LockState → ℤ → LockState
lock_set s v = record { inner = v }

pub record Generator : Type 0 where
  pub inner : LockState

-- `Generator::new`
unfoldable pub new : Generator
unfolding lock_new
new = record { inner = lock_new (pos 0) }

unfoldable pub next_id : Generator → ℤ × Generator
unfolding lock_increment
next_id g = let (id, inner) = lock_increment g.inner in (id, record { inner = inner })

unfoldable pub current : Generator → ℤ
unfolding lock_value
current g = lock_value g.inner

unfoldable pub set_current : Generator → ℤ → Generator
unfolding lock_set
set_current g value = record { inner = lock_set g.inner value }

-- `next_id` returns the counter's new value, one step past the old.
pub next_id_lem :
    (g : Generator) → ((next_id g).0 ≡ incr (current g)) × (current (next_id g).1 ≡ (next_id g).0)
unfolding next_id current
next_id_lem g = (refl, refl)

pub current-set_current : (g : Generator) (v : ℤ) → current (set_current g v) ≡ v
unfolding current set_current
current-set_current g v = refl

-- A generator is its counter.
pub set_current-current : (g h : Generator) → set_current g (current h) ≡ h
unfolding current set_current
set_current-current g h = refl

pub current-new : current new ≡ pos 0
unfolding current new
current-new = refl
