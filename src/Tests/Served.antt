-- ===== src/Tests/Served.antt =====
-- The theorems of crates/service/src/lib.rs in the town.
use twitter_rust_formal_veri.Prelude.{
  ◌+◌, ◌≡◌, ◌↔◌, ◌&&◌, true, Str, lit, [], ◌∷◌, length, Mem, Pairwise, is_ok, if◌then◌else◌, err,
  is_empty, arith,
}
use twitter_rust_formal_veri.Clock
use twitter_rust_formal_veri.Clock.{logical_clock}
use twitter_rust_formal_veri.Store.Views.{posts}
use twitter_rust_formal_veri.Store.Timeline.Contents.{sees}
use twitter_rust_formal_veri.Store.Timeline.Newest.{IsNewer}
use twitter_rust_formal_veri.Service.{
  new_with_clock, create_user, follow, unfollow, post_tweet, home_timeline, duplicate_user,
  empty_handle,
}
use twitter_rust_formal_veri.Service.Calls.{run, tweet_made}
use twitter_rust_formal_veri.Service.Sound.{IsSound, HasRoom, IsSound-new}
use twitter_rust_formal_veri.Service.Sound.Runs.{
  run-IsSound, run-HasRoom, HasRoom-new, run-home_timeline,
}
use twitter_rust_formal_veri.Service.Contracts.{
  CreateUserEnsures, FollowEnsures, UnfollowEnsures, PostTweetEnsures, requests_ensure,
}
use twitter_rust_formal_veri.Service.Contracts.Repeated.{requests_again}
use twitter_rust_formal_veri.Service.Contracts.Delivery.{home_timeline-post_tweet}
use twitter_rust_formal_veri.Service.Spec.{promises}
use twitter_rust_formal_veri.Service.Spec.Refines.{world, run-refines}
use twitter_rust_formal_veri.Service.Threads.Alone.{answers}
use twitter_rust_formal_veri.Tests.Data.{
  forwards, backwards, alice, bob, carol, calls, town, town-IsSound, first_tweet,
}

abbrev dave : Str
dave = lit "dave"

start-HasRoom : HasRoom logical_clock (new_with_clock Clock.new) (length calls)
start-HasRoom =
    HasRoom-new logical_clock Clock.new (length calls) (omega arith)
      (rw Clock.now-new (omega arith))

town-HasRoom : HasRoom logical_clock town 1
town-HasRoom = run-HasRoom logical_clock calls (new_with_clock Clock.new) 1 (
    HasRoom-new logical_clock Clock.new (length calls + 1) (omega arith)
      (rw Clock.now-new (omega arith)))

run-IsSound_example : IsSound logical_clock (run logical_clock calls (new_with_clock Clock.new))
run-IsSound_example =
    run-IsSound logical_clock calls (new_with_clock Clock.new) start-HasRoom
      (IsSound-new logical_clock Clock.new)

run-home_timeline_example :
    (Mem first_tweet (home_timeline forwards backwards town alice 0)
      ↔ ((sees town.st alice bob ≡ true) × Mem first_tweet (posts town.st bob)))
    × Pairwise IsNewer (home_timeline forwards backwards town alice 1)
    × (home_timeline forwards backwards town alice 1
        ≡ home_timeline backwards forwards town alice 1)
run-home_timeline_example =
    run-home_timeline logical_clock calls Clock.new (omega arith) (rw Clock.now-new (omega arith))
      forwards backwards backwards forwards alice 1 first_tweet

requests_ensure_example :
    CreateUserEnsures town (create_user dave town).1 dave (create_user dave town).0
    × FollowEnsures town (follow bob carol town).1 bob carol (follow bob carol town).0
    × UnfollowEnsures town (unfollow bob carol town).1 bob carol (unfollow bob carol town).0
    × PostTweetEnsures town
        (post_tweet logical_clock bob dave town).1
        logical_clock
        bob
        dave
        (post_tweet logical_clock bob dave town).0
requests_ensure_example = requests_ensure town logical_clock dave bob carol bob dave

requests_again_example :
    (follow bob carol (follow bob carol town).1 ≡ follow bob carol town)
    × (unfollow bob carol (unfollow bob carol town).1 ≡ unfollow bob carol town)
    × ((create_user dave (create_user dave town).1).0
        ≡ (if is_empty dave then err empty_handle else err duplicate_user))
    × ((create_user dave (create_user dave town).1).1.st ≡ (create_user dave town).1.st)
requests_again_example = requests_again town bob carol dave

run-refines_example :
    promises calls ([], world logical_clock (new_with_clock Clock.new))
    ≡ (answers logical_clock calls (new_with_clock Clock.new) [], world logical_clock town)
run-refines_example = run-refines logical_clock calls (new_with_clock Clock.new) []

home_timeline-post_tweet_example :
    home_timeline forwards backwards (post_tweet logical_clock bob dave town).1 alice 0 ≡ (
      if is_ok (post_tweet logical_clock bob dave town).0 && sees town.st alice bob
      then tweet_made logical_clock bob dave town ∷ home_timeline forwards backwards town alice 0
      else home_timeline forwards backwards town alice 0)
home_timeline-post_tweet_example =
    home_timeline-post_tweet logical_clock town bob dave town-IsSound town-HasRoom.tweets forwards
      backwards alice
