-- ===== src/Tests/Primitives.antt =====
-- The theorems of crates/clock, crates/ids and crates/domain at small inputs.
use twitter_rust_formal_veri.Prelude.{
  negsuc, ◌+◌, pos, pos_part, neg_part, ◌≤ℤ◌, ◌<ℤ◌, max_ℤ, i64_max, ◌≡◌, ◌↔◌, List, [], ◌∷◌,
  Pairwise, arith,
}
use twitter_rust_formal_veri.Clock
use twitter_rust_formal_veri.Clock.{logical_clock, Logical}
use twitter_rust_formal_veri.Clock.Monotone.{Call, readings, after, calls_monotone}
use twitter_rust_formal_veri.Clock.Default.{
  tick_until, gap, default_set_now, tick_times, default_set_now_lem,
}
use twitter_rust_formal_veri.Clock.VerusProof.{TickEnsures, TickEnsures-iff}
use twitter_rust_formal_veri.Ids
use twitter_rust_formal_veri.Ids.Fresh.{issued, issued_grow}

abbrev looks : List Call
looks = Call.now ∷ Call.tick ∷ Call.tick ∷ Call.now ∷ []

calls_monotone_example :
    Pairwise ◌≤ℤ◌ (readings logical_clock looks Clock.new)
    × (pos_part (Clock.now (after logical_clock looks Clock.new)) + neg_part (Clock.now Clock.new)
        ≡ neg_part (Clock.now (after logical_clock looks Clock.new))
          + pos_part (Clock.now Clock.new)
          + 2)
calls_monotone_example =
    calls_monotone logical_clock looks Clock.new (rw Clock.now-new (omega arith))

abbrev at_end : Logical
at_end = Clock.set_now Clock.new (pos i64_max)

TickEnsures-iff_example :
    (TickEnsures at_end (Clock.tick at_end) ↔ (Clock.now at_end <ℤ pos i64_max))
    × (Clock.now (Clock.tick at_end) ≡ negsuc i64_max)
TickEnsures-iff_example =
    let reads = Clock.now-set_now Clock.new (pos i64_max) in
    TickEnsures-iff at_end at_end (rw reads (omega arith)) reads

default_set_now_lem_example :
    (default_set_now Clock.now Clock.tick Clock.new (pos 3)
      ≡ tick_times Clock.tick (gap (Clock.now Clock.new) (pos 3)) Clock.new)
    × (tick_until Clock.tick 5 (Clock.now Clock.new) (pos 3) Clock.new
        ≡ default_set_now Clock.now Clock.tick Clock.new (pos 3))
    × (Clock.now (default_set_now Clock.now Clock.tick Clock.new (pos 3))
        ≡ max_ℤ (Clock.now Clock.new) (pos 3))
default_set_now_lem_example =
    default_set_now_lem Clock.now Clock.tick Clock.now-tick Clock.new (pos 3) 5 (omega arith)
      (rw Clock.now-new (omega arith))

issued_grow_example : Pairwise ◌<ℤ◌ (Ids.current Ids.new ∷ issued 4 Ids.new)
issued_grow_example = issued_grow 4 Ids.new (rw Ids.current-new (omega arith))
