-- ===== src/Tests/Seeded.antt =====
-- The demonstration state of crates/server/src/main.rs.
use twitter_rust_formal_veri.Prelude.{[], ◌∷◌, arith}
use twitter_rust_formal_veri.Clock
use twitter_rust_formal_veri.Clock.{Logical, logical_clock}
use twitter_rust_formal_veri.Service.{Service, new_with_clock}
use twitter_rust_formal_veri.Service.Calls.{Call, run}
use twitter_rust_formal_veri.Service.Sound.{IsSound, HasRoom, IsSound-new}
use twitter_rust_formal_veri.Service.Sound.Runs.{run-IsSound, run-HasRoom, HasRoom-new}
use twitter_rust_formal_veri.Server.Seed.{seed_demo, seed_handles, seed_tweets}
use twitter_rust_formal_veri.Tests.Data.{alice, bob}

abbrev seeded : Service Logical
seeded = seed_demo logical_clock (new_with_clock Clock.new)

abbrev with_handles : Service Logical
with_handles = run logical_clock seed_handles (new_with_clock Clock.new)

start-HasRoom : HasRoom logical_clock (new_with_clock Clock.new) 8
start-HasRoom = HasRoom-new logical_clock Clock.new 8 (omega arith) (rw Clock.now-new (omega arith))

seeded-IsSound : IsSound logical_clock seeded
unfolding seed_demo
seeded-IsSound =
    let k = logical_clock in
    let start = new_with_clock Clock.new in
    let three = HasRoom-new k Clock.new 3 (omega arith) (rw Clock.now-new (omega arith)) in
    let seven = HasRoom-new k Clock.new 7 (omega arith) (rw Clock.now-new (omega arith)) in
    let last =
      run-HasRoom k seed_tweets with_handles 1 (run-HasRoom k seed_handles start 5 start-HasRoom) in
    run-IsSound k (Call.follow alice bob ∷ []) (run k seed_tweets with_handles) last (
      run-IsSound k seed_tweets with_handles (run-HasRoom k seed_handles start 4 seven)
        (run-IsSound k seed_handles start three (IsSound-new k Clock.new)))
