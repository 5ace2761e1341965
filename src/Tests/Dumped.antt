-- ===== src/Tests/Dumped.antt =====
-- The town dumped while bob posts, and requests, a dump and a load at once.
use twitter_rust_formal_veri.Prelude.{
  ok, ◌<ℤ◌, Mem, str_eq, lit, List, [], ◌∷◌, ◌≡◌, ◌≢◌, refl, true, arith,
}
use twitter_rust_formal_veri.Prelude.Int.{incr}
use twitter_rust_formal_veri.Std.HashMap
use twitter_rust_formal_veri.Clock
use twitter_rust_formal_veri.Clock.{Logical, logical_clock}
use twitter_rust_formal_veri.Clock.Monotone.{Fits}
use twitter_rust_formal_veri.Domain
use twitter_rust_formal_veri.Ids
use twitter_rust_formal_veri.Domain.{Tweet}
use twitter_rust_formal_veri.Store
use twitter_rust_formal_veri.Store.Unique.{HasUniqueIds}
use twitter_rust_formal_veri.Store.Views.{users_keys}
use twitter_rust_formal_veri.Store.Snapshot.Closed.{snapshot-IsClosed}
use twitter_rust_formal_veri.Service
use twitter_rust_formal_veri.Service.{new_with_clock, post_tweet}
use twitter_rust_formal_veri.Service.Calls.{Call, run, apply}
use twitter_rust_formal_veri.Service.Sound.Runs.{HasRoom-new, run-HasRoom}
use twitter_rust_formal_veri.Service.Snapshot.{ServiceState, snapshot_state, load_state}
use twitter_rust_formal_veri.Service.Threads.{Event, start, is_ready}
use twitter_rust_formal_veri.Service.Threads.Dumps.{
  AdminPc, AdminCall, Shared, Action, act_all, is_free,
}
use twitter_rust_formal_veri.Service.Threads.Dumps.Orderly.{
  IsOrderly, LoadsClosed, quiet, act_all-IsOrderly, quiet-IsOrderly,
}
use twitter_rust_formal_veri.Service.Threads.Dumps.Torn.{dump_around, dump_around-torn}
use twitter_rust_formal_veri.Tests.Data.{forwards, backwards, alice, bob, calls, town, town-IsSound}

abbrev town_dump : ServiceState
town_dump = snapshot_state logical_clock forwards backwards forwards backwards town

-- Alice registers while one administrator dumps and another loads the town.
abbrev busy : List Action
busy =
    Action.request (Event.call 1 (Call.create_user alice))
    ∷ Action.admin_call 0 AdminCall.snapshot_state
    ∷ Action.request (Event.move 1)
    ∷ Action.admin_call 1 (AdminCall.load_state town_dump)
    ∷ Action.admin_move 0
    ∷ Action.admin_move 1
    ∷ Action.request (Event.move 1)
    ∷ Action.admin_move 0
    ∷ Action.admin_move 1
    ∷ Action.request (Event.call 2 (Call.follow alice bob))
    ∷ Action.admin_move 0
    ∷ Action.request (Event.move 2)
    ∷ Action.admin_move 0
    ∷ []

busy_closed : LoadsClosed busy
unfolding snapshot_state
busy_closed =
    (snapshot-IsClosed forwards backwards forwards backwards town.st town-IsSound.valid, tt)

act_all-IsOrderly_example :
    IsOrderly (act_all logical_clock forwards forwards backwards backwards busy (quiet Clock.new))
act_all-IsOrderly_example =
    act_all-IsOrderly logical_clock forwards forwards backwards backwards busy (quiet Clock.new)
      busy_closed (quiet-IsOrderly Clock.new)

-- The town with no call begun and no administrator at work.
abbrev resting : Shared Logical
resting = record { threads = record (start Clock.new) { mem = town }; admins = λ a. AdminPc.idle }

town_room : Fits (Ids.current town.tweet_ids) 1
town_room =
    (run-HasRoom logical_clock calls (new_with_clock Clock.new) 1 (
      HasRoom-new logical_clock Clock.new 14 (omega arith) (rw Clock.now-new (omega arith)))).tweets

bob_known : users_keys town.st bob ≡ true
unfolding users_keys run apply Service.tick Clock.tick incr Service.unfollow Store.has_user
    HashMap.contains_key Service.post_tweet Service.follow Domain.new str_eq Store.put_follow
    Service.create_user Store.put_user new_with_clock Store.new HashMap.empty Ids.new Ids.next_id
    Service.from_domain Service.from_store HashMap.insert Store.delete_follow Store.put_tweet
    Clock.new HashMap.get
bob_known = refl

other : lit "one" ≢ lit "two"
other e = ground arith

dump_around-torn_example :
    let sys =
      act_all logical_clock forwards forwards backwards backwards
        (dump_around 0 ((1, Call.post_tweet bob (lit "one")) ∷ []))
        resting in
    (state : ServiceState) × (t u : Tweet) × (sys.admins 0 ≡ AdminPc.dumped state)
    × ((post_tweet logical_clock bob (lit "one") town).0 ≡ ok t)
    × Mem t state.store.tweets
    × (state.id_counter_tweets <ℤ t.id)
    × ((post_tweet logical_clock bob (lit "two") (load_state logical_clock state town)).0 ≡ ok u)
    × (u.id ≡ t.id)
    × ¬ HasUniqueIds
        (post_tweet logical_clock bob (lit "two") (load_state logical_clock state town)).1.st
unfolding is_free start is_ready
dump_around-torn_example =
    dump_around-torn logical_clock forwards forwards backwards backwards logical_clock 0 1 bob
      (lit "one") (lit "two") resting town town-IsSound town_room bob_known refl refl other refl
      (λ n. refl)
