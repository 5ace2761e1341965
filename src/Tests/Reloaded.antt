-- ===== src/Tests/Reloaded.antt =====
-- The town dumped and loaded into a fresh service, and compared with itself.
use twitter_rust_formal_veri.Prelude.{
  lit, [], ◌∷◌, Mem, true, pos, ◌≤ℤ◌, i64_max, str_eq, ◌≡◌, refl, arith,
}
use twitter_rust_formal_veri.Prelude.Int.{incr}
use twitter_rust_formal_veri.Std.HashMap
use twitter_rust_formal_veri.Domain
use twitter_rust_formal_veri.Ids
use twitter_rust_formal_veri.Store
use twitter_rust_formal_veri.Clock
use twitter_rust_formal_veri.Clock.{Logical, logical_clock}
use twitter_rust_formal_veri.Service
use twitter_rust_formal_veri.Service.{Service, new_with_clock, home_timeline}
use twitter_rust_formal_veri.Service.Calls.{run, apply}
use twitter_rust_formal_veri.Service.Sound.{IsSound}
use twitter_rust_formal_veri.Service.Snapshot.{ServiceState, snapshot_state, load_state, load_store}
use twitter_rust_formal_veri.Service.Snapshot.Torn.{post_tweet-load_store}
use twitter_rust_formal_veri.Store.Unique.{HasUniqueIds}
use twitter_rust_formal_veri.Store.Views.{posts, users_keys}
use twitter_rust_formal_veri.Store.Snapshot.Replaced.{tweets_by, replace_lem}
use mathlib.Core.List.{mem-cons_self}
use twitter_rust_formal_veri.Service.Snapshot.Reload.{load_state-snapshot_state}
use twitter_rust_formal_veri.Service.Spec.Reads.{home_timeline-world}
use twitter_rust_formal_veri.Store.Snapshot
use twitter_rust_formal_veri.Store.Snapshot.{snapshot, by_tweet_id}
use twitter_rust_formal_veri.Std.Sort.{sort_by}
use twitter_rust_formal_veri.Store.Snapshot.Same.{IsSane}
use twitter_rust_formal_veri.Store.Logical
use twitter_rust_formal_veri.Store.Logical.{alike, dump_of, dump_of-IsEquiv}
use mathlib.Core.Equiv.{IsEquiv}
use mathlib.Core.Quot.Quotient
use twitter_rust_formal_veri.Tests.Data.{
  forwards, backwards, alice, bob, town, town-IsSound, first_tweet,
}

town_now : logical_clock.now town.clk ≡ pos 2
unfolding run apply Clock.now Service.tick Clock.tick incr Service.unfollow Store.has_user
    HashMap.contains_key Service.post_tweet Service.follow Domain.new str_eq Store.put_follow
    Service.create_user Store.put_user new_with_clock Store.new HashMap.empty Ids.new Ids.next_id
    Service.from_domain Service.from_store HashMap.insert Store.delete_follow Store.put_tweet
    Clock.new HashMap.get
town_now = refl

abbrev fresh : Service Logical
fresh = new_with_clock Clock.new

abbrev reloaded : Service Logical
reloaded =
    load_state logical_clock (snapshot_state logical_clock forwards forwards forwards forwards town)
      fresh

behind : logical_clock.now fresh.clk ≤ℤ logical_clock.now town.clk
unfolding new_with_clock
behind = rw (town_now, Clock.now-new) (omega arith)

in_range : logical_clock.now town.clk ≤ℤ pos i64_max
in_range = rw town_now (omega arith)

load_state-snapshot_state_example :
    IsSound logical_clock reloaded
    × (home_timeline forwards backwards reloaded alice 0
        ≡ home_timeline backwards forwards town alice 0)
    × (snapshot_state logical_clock backwards backwards backwards backwards reloaded
        ≡ snapshot_state logical_clock forwards forwards forwards forwards town)
load_state-snapshot_state_example =
    load_state-snapshot_state logical_clock logical_clock forwards forwards forwards forwards town
      fresh town-IsSound behind in_range forwards backwards backwards forwards backwards backwards
      backwards backwards alice 0

town-IsSane : IsSane town.st
town-IsSane = record {
  valid = town-IsSound.valid;
  tweets = town-IsSound.unique;
  users = town-IsSound.user_unique;
}

dump_of-IsEquiv_example :
    IsEquiv (dump_of forwards backwards forwards backwards)
    × (Logical.dump forwards backwards forwards backwards (Quotient.mk alike (town.st, town-IsSane))
        ≡ Logical.dump backwards forwards backwards forwards
            (Quotient.mk alike (town.st, town-IsSane)))
dump_of-IsEquiv_example =
    dump_of-IsEquiv forwards backwards forwards backwards backwards forwards backwards forwards
      (Quotient.mk alike (town.st, town-IsSane))

home_timeline-world_example :
    home_timeline forwards backwards town alice 2 ≡ home_timeline backwards forwards town alice 2
home_timeline-world_example =
    home_timeline-world logical_clock logical_clock forwards backwards backwards forwards town town
      alice 2 town-IsSound town-IsSound refl

-- A loaded state with the tweet 1 of bob.
abbrev dump : ServiceState
dump = record {
  clock_now = pos 5;
  id_counter_users = pos 1;
  id_counter_tweets = pos 1;
  store = record {
    users = record { id = pos 1; handle = alice } ∷ [];
    follows = [];
    tweets = first_tweet ∷ [];
  };
}

alice_known : users_keys (load_store logical_clock dump fresh).st alice ≡ true
unfolding load_store users_keys Store.Snapshot.replace Store.Snapshot.insert_users
    HashMap.contains_key HashMap.insert HashMap.empty HashMap.has HashMap.replace str_eq
alice_known = refl

tweets : sort_by by_tweet_id (tweets_by bob dump.store.tweets) ≡ first_tweet ∷ []
unfolding sort_by tweets_by str_eq
tweets = refl

fresh_counter : first_tweet.id ≡ incr (Ids.current fresh.tweet_ids)
unfolding new_with_clock Ids.current Ids.new incr
fresh_counter = refl

bob_posted : Mem first_tweet (posts (load_store logical_clock dump fresh).st bob)
unfolding load_store
bob_posted = rw ((replace_lem dump.store fresh.st bob bob).2, tweets) mem-cons_self

post_tweet-load_store_example :
    ¬ HasUniqueIds
      (Service.post_tweet logical_clock alice (lit "yo") (load_store logical_clock dump fresh)).1.st
post_tweet-load_store_example =
    post_tweet-load_store logical_clock dump fresh alice (lit "yo") first_tweet refl alice_known
      bob_posted fresh_counter (ground arith)
