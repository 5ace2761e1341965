-- ===== src/Tests/Stored.antt =====
-- The theorems of crates/store/src/lib.rs at the town's store.
use twitter_rust_formal_veri.Prelude.{◌≡◌, ◌↔◌, true, Mem, Pairwise}
use twitter_rust_formal_veri.Store.{Inner, home_timeline}
use twitter_rust_formal_veri.Store.Views.{posts}
use twitter_rust_formal_veri.Store.Timeline.Contents.{sees, mem-home_timeline, home_timeline-Newest}
use twitter_rust_formal_veri.Store.Timeline.Newest.{IsNewer}
use twitter_rust_formal_veri.Tests.Data.{
  forwards, backwards, alice, bob, town, town-IsSound, first_tweet,
}

abbrev stored : Inner
stored = town.st

mem-home_timeline_example :
    Mem first_tweet (home_timeline forwards backwards stored alice 0)
    ↔ ((sees stored alice bob ≡ true) × Mem first_tweet (posts stored bob))
mem-home_timeline_example =
    mem-home_timeline forwards backwards stored alice town-IsSound.valid.author first_tweet

home_timeline-Newest_example : Pairwise IsNewer (home_timeline forwards backwards stored alice 1)
home_timeline-Newest_example =
    home_timeline-Newest forwards backwards stored alice town-IsSound.valid.author 1
      town-IsSound.unique
