-- ===== src/Clock/Monotone.antt =====
-- The property called F7 of crates/clock/src/lib.rs: readings never fall.
use mathlib.Core.List.{not-mem-nil, mem-cons}
use mathlib.Core.Logic.Or
use native.Mathlib.Bridge.{le_prop}
use twitter_rust_formal_veri.Prelude.{
  ℕ, suc, ◌+◌, ◌≤◌, ℤ, pos_part, neg_part, ◌≤ℤ◌, i64_max, incr_parts, ◌≡◌, List, [], ◌∷◌, Mem,
  Pairwise, arith,
}
use twitter_rust_formal_veri.Clock.{Clock}

-- One call on a clock that threads share; the mutex makes each call a step of its own.
pub data Call : Type 0 where
  now tick : Call

module _ {C : Type 0} (k : Clock C) where
  -- What the calls read, in the order of the lock.
  unfoldable pub readings : List Call → C → List ℤ
  readings [] c = []
  readings (Call.now ∷ calls) c = k.now c ∷ readings calls c
  readings (Call.tick ∷ calls) c = readings calls (k.tick c)

  -- The clock that the calls leave behind.
  unfoldable pub after : List Call → C → C
  after [] c = c
  after (Call.now ∷ calls) c = after calls c
  after (Call.tick ∷ calls) c = after calls (k.tick c)

abbrev pub ticks : List Call → ℕ
ticks [] = 0
ticks (Call.now ∷ calls) = ticks calls
ticks (Call.tick ∷ calls) = suc (ticks calls)

-- `n` ticks from `t` stay below the maximum of `i64`.
abbrev pub Fits : ℤ → ℕ → Type 0
Fits t n = pos_part t + n ≤ i64_max + neg_part t

module _ {C : Type 0} (k : Clock C) where
  Fits-tick : (c : C) (n : ℕ) → Fits (k.now c) (suc n) → Fits (k.now (k.tick c)) n
  Fits-tick c n h = rw (k.now_tick c) (omega (arith, incr_parts (k.now c) (omega arith)))

  readings_ge :
      (calls : List Call) (c : C)
      → Fits (k.now c) (ticks calls)
      → (t : ℤ) → Mem t (readings k calls c)
      → k.now c ≤ℤ t
  unfolding readings
  readings_ge [] c h t m = absurd (not-mem-nil m)
  readings_ge (Call.now ∷ calls) c h t m =
      Or.elim le_prop (mem-cons.0 m) (λ e. rw e (omega arith)) (readings_ge calls c h t)
  readings_ge (Call.tick ∷ calls) c h t m = omega (
    arith,
    rw (k.now_tick c) at (readings_ge calls (k.tick c) (Fits-tick c (ticks calls) h) t m),
    incr_parts (k.now c) (omega arith),
  )

  -- Of any calls of `now` and `tick` in any interleaving, an earlier reading is at most a later one,
  -- as long as the ticks do not pass the maximum of `i64`.
  pub readings_monotone :
      (calls : List Call) (c : C)
      → Fits (k.now c) (ticks calls)
      → Pairwise ◌≤ℤ◌ (readings k calls c)
  unfolding readings
  readings_monotone [] c h = Pairwise.nil
  readings_monotone (Call.now ∷ calls) c h =
      Pairwise.cons (readings_ge calls c h) (readings_monotone calls c h)
  readings_monotone (Call.tick ∷ calls) c h =
      readings_monotone calls (k.tick c) (Fits-tick c (ticks calls) h)

  -- The clock ends exactly as many steps later as there were ticks: none is lost, and `now` adds none.
  pub now-after :
      (calls : List Call) (c : C)
      → Fits (k.now c) (ticks calls)
      → pos_part (k.now (after k calls c)) + neg_part (k.now c)
        ≡ neg_part (k.now (after k calls c)) + pos_part (k.now c) + ticks calls
  unfolding after
  now-after [] c h = omega arith
  now-after (Call.now ∷ calls) c h = now-after calls c h
  now-after (Call.tick ∷ calls) c h = omega (
    arith,
    rw (k.now_tick c) at (now-after calls (k.tick c) (Fits-tick c (ticks calls) h)),
    incr_parts (k.now c) (omega arith),
  )

  -- Of any calls of `now` and `tick` in any interleaving, as long as the ticks do not pass the maximum
  -- of `i64`: an earlier reading is at most a later one, and the clock ends exactly as many steps
  -- later as there were ticks, none lost and none added by `now`.
  pub calls_monotone :
      (calls : List Call) (c : C)
      → Fits (k.now c) (ticks calls)
      → Pairwise ◌≤ℤ◌ (readings k calls c)
        × (pos_part (k.now (after k calls c)) + neg_part (k.now c)
            ≡ neg_part (k.now (after k calls c)) + pos_part (k.now c) + ticks calls)
  calls_monotone calls c h = (readings_monotone calls c h, now-after calls c h)
