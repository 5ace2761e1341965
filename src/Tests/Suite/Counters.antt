-- ===== src/Tests/Suite/Counters.antt =====
-- The unit tests of crates/ids/src/lib.rs and crates/clock/src/lib.rs, but for those that start threads
-- and those on traits of Rust.
use twitter_rust_formal_veri.Prelude.{
  ℕ, zero, suc, ◌==◌, ℤ, pos, Bool, true, ◌&&◌, [], ◌∷◌, map, ◌≡◌, refl,
}
use twitter_rust_formal_veri.Prelude.Int.{incr, ltb_ℤ}
use twitter_rust_formal_veri.Clock
use twitter_rust_formal_veri.Clock.{Logical}
use twitter_rust_formal_veri.Clock.Default.{default_set_now}
use twitter_rust_formal_veri.Ids
use twitter_rust_formal_veri.Ids.{Generator, next_id, current, set_current}
use twitter_rust_formal_veri.Tests.Suite.{
  Program, ◌>>=◌, ◌>>◌, modify, call, assert, passes, all_pass, same_int,
}

abbrev increasing : ℕ → ℤ → Program Generator (Unit {0})
increasing zero prev = assert (λ s. true)
increasing (suc n) prev =
    call next_id >>= λ id. assert (λ s. ltb_ℤ prev id) >>= λ _. increasing n id

-- `CountingTickClock`: the time, and how often it ticked
pub record CountingTickClock : Type 0 where
  pub time : ℤ
  pub ticks : ℕ

abbrev counting_tick : CountingTickClock → CountingTickClock
counting_tick c = record { time = incr c.time; ticks = suc c.ticks }

abbrev set_counting : ℤ → CountingTickClock → CountingTickClock
set_counting value c = default_set_now (λ (d : CountingTickClock). d.time) counting_tick c value

abbrev two_next : (Generator × Generator) → Bool
two_next (a, b) =
    let (a1, a') = next_id a in
    let (b1, b') = next_id b in
    let (a2, _) = next_id a' in
    let (b2, _) = next_id b' in
    same_int a1 (pos 1) && same_int b1 (pos 1) && same_int a2 (pos 2) && same_int b2 (pos 2)

abbrev first_id_is_one : Program Generator (Unit {0})
first_id_is_one = do id ← call next_id; assert (λ s. same_int id (pos 1))

abbrev ids_are_strictly_monotonic : Program Generator (Unit {0})
ids_are_strictly_monotonic = do increasing 100 (pos 0)

abbrev separate_generators_are_independent : Program Generator (Unit {0})
separate_generators_are_independent = do assert (λ s. two_next (s, s))

abbrev current_starts_at_zero : Program Generator (Unit {0})
current_starts_at_zero = do assert (λ s. same_int (current s) (pos 0))

abbrev current_tracks_next_id : Program Generator (Unit {0})
current_tracks_next_id = do
  call next_id
  call next_id
  call next_id
  assert (λ s. same_int (current s) (pos 3))

abbrev set_current_overrides_counter : Program Generator (Unit {0})
set_current_overrides_counter = do
  modify (λ s. set_current s (pos 42))
  assert (λ s. same_int (current s) (pos 42))
  id ← call next_id
  assert (λ s. same_int id (pos 43))

abbrev lock_state_value_matches_current : Program Generator (Unit {0})
lock_state_value_matches_current = do
  assert (λ s. same_int (Ids.lock_value s.inner) (current s))
  call next_id
  assert (λ s. same_int (Ids.lock_value s.inner) (current s))
  assert (λ s. same_int (Ids.lock_value s.inner) (pos 1))

ids_tests_pass :
    all_pass (
      map (passes Ids.new) (
        first_id_is_one ∷ ids_are_strictly_monotonic ∷ separate_generators_are_independent
        ∷ current_starts_at_zero ∷ current_tracks_next_id ∷ set_current_overrides_counter
        ∷ lock_state_value_matches_current ∷ []))
    ≡ true
unfolding Ids.new next_id current set_current Ids.lock_value incr
ids_tests_pass = refl

abbrev starts_at_zero : Program Logical (Unit {0})
starts_at_zero = do assert (λ c. same_int (Clock.now c) (pos 0))

abbrev new_at_starts_where_asked : Program Logical (Unit {0})
new_at_starts_where_asked = do
  modify (λ c. Clock.new_at (pos 42))
  assert (λ c. same_int (Clock.now c) (pos 42))

abbrev now_does_not_advance : Program Logical (Unit {0})
now_does_not_advance = do
  assert (λ c. same_int (Clock.now c) (pos 0))
  assert (λ c. same_int (Clock.now c) (pos 0))
  assert (λ c. same_int (Clock.now c) (pos 0))

abbrev tick_advances_by_one : Program Logical (Unit {0})
tick_advances_by_one = do
  modify Clock.tick
  assert (λ c. same_int (Clock.now c) (pos 1))
  modify Clock.tick
  assert (λ c. same_int (Clock.now c) (pos 2))

abbrev lock_state_value_matches_now : Program Logical (Unit {0})
lock_state_value_matches_now = do
  modify (λ c. Clock.new_at (pos 7))
  assert (λ c. same_int (Clock.lock_value c.inner) (Clock.now c))
  modify Clock.tick
  assert (λ c. same_int (Clock.lock_value c.inner) (Clock.now c))
  assert (λ c. same_int (Clock.lock_value c.inner) (pos 8))

abbrev logical_set_now_one_op : Program Logical (Unit {0})
logical_set_now_one_op = do
  modify (λ c. Clock.set_now c (pos 1000))
  assert (λ c. same_int (Clock.now c) (pos 1000))
  modify (λ c. Clock.set_now c (pos 50))
  assert (λ c. same_int (Clock.now c) (pos 50))

clock_tests_pass :
    all_pass (
      map (passes Clock.new) (
        starts_at_zero ∷ new_at_starts_where_asked ∷ now_does_not_advance ∷ tick_advances_by_one
        ∷ lock_state_value_matches_now ∷ logical_set_now_one_op ∷ []))
    ≡ true
unfolding Clock.new Clock.new_at Clock.now Clock.tick Clock.set_now Clock.lock_value
    Clock.lock_increment Clock.lock_set incr
clock_tests_pass = refl

abbrev default_set_now_uses_tick_repeatedly : Program CountingTickClock (Unit {0})
default_set_now_uses_tick_repeatedly = do
  modify (set_counting (pos 5))
  assert (λ c. same_int c.time (pos 5))
  assert (λ c. c.ticks == 5)

abbrev default_set_now_is_no_op_when_value_lte_now : Program CountingTickClock (Unit {0})
default_set_now_is_no_op_when_value_lte_now = do
  modify counting_tick
  modify counting_tick
  pre_ticks ← call (λ c. (c.ticks, c))
  modify (set_counting (pos 1))
  assert (λ c. same_int c.time (pos 2))
  assert (λ c. c.ticks == pre_ticks)
  modify (set_counting (pos 2))
  assert (λ c. same_int c.time (pos 2))
  assert (λ c. c.ticks == pre_ticks)

default_clock_tests_pass :
    all_pass (
      map
        (passes (record { time = pos 0; ticks = 0 }))
        (default_set_now_uses_tick_repeatedly ∷ default_set_now_is_no_op_when_value_lte_now ∷ []))
    ≡ true
unfolding default_set_now incr
default_clock_tests_pass = refl
