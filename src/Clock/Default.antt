-- ===== src/Clock/Default.antt =====
-- The default method `Clock::set_now` of crates/clock/src/lib.rs: tick until the value is reached.
use twitter_rust_formal_veri.Prelude.{
  ℕ, zero, suc, ◌+◌, ◌-◌, ◌≤◌, ℤ, pos, pos_part, neg_part, ◌≤ℤ◌, ◌<ℤ◌, ltb_ℤ, max_ℤ, i64_max, incr,
  incr_parts, eq_of_parts, ◌≡◌, refl, arith, if◌then◌else◌, inl, inr, Bool-cases, sym, ◌∙◌,
}
use twitter_rust_formal_veri.Clock.{Clock}

-- `while cur < value { self.tick(); cur += 1; }`, with fuel for the rounds.
unfoldable pub tick_until : {C : Type 0} → (C → C) → ℕ → ℤ → ℤ → C → C
tick_until tick zero cur value c = c
tick_until tick (suc fuel) cur value c =
    let rest = tick_until tick fuel (incr cur) value (tick c) in if ltb_ℤ cur value then rest else c

-- The rounds that the loop makes.
abbrev pub gap : ℤ → ℤ → ℕ
gap cur value = pos_part value + neg_part cur - (pos_part cur + neg_part value)

unfoldable pub default_set_now : {C : Type 0} → (C → ℤ) → (C → C) → C → ℤ → C
unfolding tick_until
default_set_now now tick c value = tick_until tick (gap (now c) value) (now c) value c

abbrev pub tick_times : {C : Type 0} → (C → C) → ℕ → C → C
tick_times tick zero c = c
tick_times tick (suc n) c = tick_times tick n (tick c)

module _ {C : Type 0} (now : C → ℤ) (tick : C → C)
    (now_tick : (c : C) → now (tick c) ≡ incr (now c)) where
  gap-incr :
      (cur value : ℤ)
      → cur <ℤ value
      → value ≤ℤ pos i64_max
      → gap cur value ≡ suc (gap (incr cur) value)
  gap-incr cur value m h = omega (arith, incr_parts cur (omega arith))

  tick_until-eq-tick_times :
      (fuel n : ℕ) (cur value : ℤ) (c : C)
      → n ≡ gap cur value
      → n ≤ fuel
      → value ≤ℤ pos i64_max
      → tick_until tick fuel cur value c ≡ tick_times tick n c
  unfolding tick_until
  tick_until-eq-tick_times zero zero cur value c e f h = refl
  tick_until-eq-tick_times zero (suc n) cur value c e f h = absurd (omega arith)
  tick_until-eq-tick_times (suc fuel) zero cur value c e f h = elim (Bool-cases (ltb_ℤ cur value)) [
    | inl t ↦ absurd (ground arith)
    | inr t ↦ rw t
  ]
  tick_until-eq-tick_times (suc fuel) (suc n) cur value c e f h =
      let m : cur <ℤ value = omega arith in
      let rest =
        tick_until-eq-tick_times fuel n (incr cur) value (tick c)
          (omega (arith, gap-incr cur value m h)) (omega arith) h in
      elim (Bool-cases (ltb_ℤ cur value)) [ inl t ↦ rw t rest | inr t ↦ absurd (ground arith) ]

  -- `set_now` ticks exactly once for each step from the reading to `value`, and not at all where
  -- `value` lies behind; no larger fuel changes the result, so the loop has ended by its test.
  pub default_set_now-ticks :
      (c : C) (value : ℤ) (fuel : ℕ)
      → value ≤ℤ pos i64_max
      → gap (now c) value ≤ fuel
      → (default_set_now now tick c value ≡ tick_times tick (gap (now c) value) c)
        × (tick_until tick fuel (now c) value c ≡ default_set_now now tick c value)
  unfolding default_set_now
  default_set_now-ticks c value fuel h f =
      let n = gap (now c) value in
      let exact = tick_until-eq-tick_times n n (now c) value c refl (omega arith) h in
      (exact, tick_until-eq-tick_times fuel n (now c) value c refl f h ∙ sym exact)

  now-tick_times :
      (n : ℕ) (c : C) (value : ℤ)
      → n ≡ gap (now c) value
      → value ≤ℤ pos i64_max
      → now c ≤ℤ value
      → now (tick_times tick n c) ≡ value
  now-tick_times zero c value e h m = eq_of_parts (now c) value (omega arith)
  now-tick_times (suc n) c value e h m =
      let ahead : now c <ℤ value = omega arith in
      now-tick_times n (tick c) value
        (rw (now_tick c) (omega (arith, gap-incr (now c) value ahead h))) h
        (rw (now_tick c) (omega (arith, incr_parts (now c) (omega arith))))

  -- After `set_now` the clock reads the later of its reading and `value`: the default never moves
  -- backwards, and goes as far forward as asked.
  pub now-default_set_now :
      (c : C) (value : ℤ)
      → value ≤ℤ pos i64_max
      → now (default_set_now now tick c value) ≡ max_ℤ (now c) value
  now-default_set_now c value h =
      rw ((default_set_now-ticks c value (gap (now c) value) h (omega arith)).0)
        (elim (Bool-cases (ltb_ℤ (now c) value)) [
          | inl t ↦ rw t (now-tick_times (gap (now c) value) c value refl h (ground arith))
          | inr t ↦ let none_left : gap (now c) value ≡ 0 = ground arith in rw (t, none_left)
        ])

  -- `set_now` ticks exactly once for each step from the reading to `value`, and not at all where
  -- `value` lies behind; no larger fuel changes the result, so the loop has ended by its test; and
  -- after it the clock reads the later of its reading and `value`.
  pub default_set_now_lem :
      (c : C) (value : ℤ) (fuel : ℕ)
      → value ≤ℤ pos i64_max
      → gap (now c) value ≤ fuel
      → (default_set_now now tick c value ≡ tick_times tick (gap (now c) value) c)
        × (tick_until tick fuel (now c) value c ≡ default_set_now now tick c value)
        × (now (default_set_now now tick c value) ≡ max_ℤ (now c) value)
  default_set_now_lem c value fuel h f =
      let (ticks, ended) = default_set_now-ticks c value fuel h f in
      (ticks, ended, now-default_set_now c value h)

  pub now-set_now_forward :
      (c : C) (value : ℤ)
      → now c ≤ℤ value
      → value ≤ℤ pos i64_max
      → now (default_set_now now tick c value) ≡ value
  now-set_now_forward c value m h = now-default_set_now c value h ∙ later
    where
      later : max_ℤ (now c) value ≡ value
      later = elim (Bool-cases (ltb_ℤ (now c) value)) [
        | inl t ↦ rw t
        | inr t ↦ rw t (eq_of_parts (now c) value (ground arith))
      ]

-- A clock that keeps the default `set_now`, such as `CountingTickClock` of the tests.
abbrev pub ticking_clock :
    (C : Type 0) (now : C → ℤ) (tick : C → C) → ((c : C) → now (tick c) ≡ incr (now c)) → Clock C
ticking_clock C now tick now_tick = record {
  now = now;
  tick = tick;
  set_now = default_set_now now tick;
  now_tick = now_tick;
  now_set_now = λ c value m h. now-set_now_forward now tick now_tick c value m h;
}
