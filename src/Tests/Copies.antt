-- ===== src/Tests/Copies.antt =====
-- The theorems on the modules `verus_proof` of crates/store and crates/service, at the town.
use twitter_rust_formal_veri.Prelude.{pos, lit, ◌≡◌}
use twitter_rust_formal_veri.Clock.{Logical}
use twitter_rust_formal_veri.Domain.{User, Follow}
use twitter_rust_formal_veri.Store
use twitter_rust_formal_veri.Store.{Inner}
use twitter_rust_formal_veri.Store.VerusProof
use twitter_rust_formal_veri.Store.VerusProof.Bodies.{store_shims}
use twitter_rust_formal_veri.Store.VerusProof.Verified.{
  PutUserContract, PutFollowContract, DeleteFollowContract, PutTweetContract, copies_verified,
}
use twitter_rust_formal_veri.Store.VerusProof.Copies.{copies_lem}
use twitter_rust_formal_veri.Service
use twitter_rust_formal_veri.Service.{Service}
use twitter_rust_formal_veri.Service.VerusProof as Requests
use twitter_rust_formal_veri.Service.VerusProof.Bodies.{service_shims}
use twitter_rust_formal_veri.Service.VerusProof.Verified.{
  CreateUserContract, FollowContract, UnfollowContract, requests_verified,
}
use twitter_rust_formal_veri.Service.VerusProof.Copies.{requests_lem}
use twitter_rust_formal_veri.Tests.Data.{forwards, backwards, alice, bob, carol, town, first_tweet}

abbrev dave : User
dave = record { id = pos 9; handle = lit "dave" }

abbrev edge : Follow
edge = record { from = bob; to = carol }

abbrev shims : VerusProof.Shims Inner
shims = store_shims forwards backwards

copies_verified_example :
    PutUserContract shims town.st
      (VerusProof.put_user_ensures shims dave town.st).1
      dave
      (VerusProof.put_user_ensures shims dave town.st).0
    × PutFollowContract shims town.st
        (VerusProof.put_follow_ensures shims edge town.st).1
        edge
        (VerusProof.put_follow_ensures shims edge town.st).0
    × DeleteFollowContract shims town.st
        (VerusProof.delete_follow_ensures shims alice bob town.st)
        alice
        bob
    × PutTweetContract shims town.st
        (VerusProof.put_tweet_ensures shims first_tweet town.st).1
        first_tweet
        (VerusProof.put_tweet_ensures shims first_tweet town.st).0
copies_verified_example = copies_verified shims town.st dave edge alice bob first_tweet

copies_lem_example :
    (VerusProof.put_user_ensures shims dave town.st ≡ Store.put_user dave town.st)
    × (VerusProof.has_user_ensures shims town.st alice ≡ Store.has_user town.st alice)
    × (VerusProof.put_follow_ensures shims edge town.st ≡ Store.put_follow edge town.st)
    × (VerusProof.delete_follow_ensures shims alice bob town.st
        ≡ Store.delete_follow alice bob town.st)
    × (VerusProof.put_tweet_ensures shims first_tweet town.st ≡ Store.put_tweet first_tweet town.st)
    × (VerusProof.follow_set_ensures shims town.st alice ≡ Store.follow_set town.st alice)
    × (VerusProof.home_timeline_ensures shims town.st alice 2
        ≡ Store.home_timeline forwards backwards town.st alice 2)
copies_lem_example = copies_lem dave edge alice bob first_tweet town.st forwards backwards 2

abbrev service : Requests.Shims (Service Logical)
service = service_shims forwards backwards

requests_verified_example :
    CreateUserContract service town
      (Requests.create_user_ensures service dave.handle town).1
      dave.handle
      (Requests.create_user_ensures service dave.handle town).0
    × FollowContract service town
        (Requests.follow_ensures service bob carol town).1
        bob
        carol
        (Requests.follow_ensures service bob carol town).0
    × UnfollowContract service town
        (Requests.unfollow_ensures service bob carol town).1
        bob
        carol
        (Requests.unfollow_ensures service bob carol town).0
requests_verified_example = requests_verified service town dave.handle bob carol

requests_lem_example :
    (Requests.has_user_ensures service town alice ≡ Service.has_user town alice)
    × (Requests.create_user_ensures service alice town ≡ Service.create_user alice town)
    × (Requests.follow_ensures service bob bob town ≡ Service.follow bob bob town)
    × (Requests.unfollow_ensures service bob bob town ≡ Service.unfollow bob bob town)
    × (Requests.home_timeline_ensures service town alice 2
        ≡ Service.home_timeline forwards backwards town alice 2)
requests_lem_example = requests_lem forwards backwards town alice bob bob 2
