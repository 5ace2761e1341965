-- ===== src/Service/Calls.antt =====
-- The calls of crates/service/src/lib.rs that change the state, and what each leaves behind.
use twitter_rust_formal_veri.Prelude.{Str, str_eq, ◌≡◌, ◌⊎◌, false, List, [], ◌∷◌, arith}
use twitter_rust_formal_veri.Clock.{Clock}
use twitter_rust_formal_veri.Ids
use twitter_rust_formal_veri.Domain
use twitter_rust_formal_veri.Domain.{User, Tweet, Follow}
use twitter_rust_formal_veri.Store
use twitter_rust_formal_veri.Service
use twitter_rust_formal_veri.Service.{Service}

-- The requests that a client or a driver makes of the service. Loading a snapshot is not one: it
-- overwrites the state, and the source trusts it.
pub data Call : Type 0 where
  create_user : Str → Call
  follow unfollow : Str → Str → Call
  post_tweet : Str → Str → Call
  tick : Call

module _ {C : Type 0} (k : Clock C) where
  unfoldable pub apply : Call → Service C → Service C
  apply (Call.create_user handle) s = (Service.create_user handle s).1
  apply (Call.follow from to) s = (Service.follow from to s).1
  apply (Call.unfollow from to) s = (Service.unfollow from to s).1
  apply (Call.post_tweet author text) s = (Service.post_tweet k author text s).1
  apply Call.tick s = Service.tick k s

  unfoldable pub run : List Call → Service C → Service C
  unfolding apply
  run [] s = s
  run (c ∷ calls) s = run calls (apply c s)

-- The user and the tweet that the calls build.
abbrev pub user_made : {C : Type 0} → Str → Service C → User
user_made handle s = record { id = (Ids.next_id s.user_ids).0; handle = handle }

abbrev pub tweet_made : {C : Type 0} → Clock C → Str → Str → Service C → Tweet
tweet_made k author text s = record {
  id = (Ids.next_id s.tweet_ids).0;
  author = author;
  text = text;
  created_at = k.now s.clk;
}

module _ {C : Type 0} (s : Service C) where
  pub create_user_cases :
      (handle : Str)
      → ((Service.create_user handle s).1 ≡ s)
        ⊎ ((Service.create_user handle s).1 ≡ record s {
          user_ids = (Ids.next_id s.user_ids).1;
          st = (Store.put_user (user_made handle s) s.st).1;
        })
  unfolding Service.create_user
  create_user_cases [] = ground arith
  create_user_cases (c ∷ handle) = ground arith

  pub follow_cases :
      (from to : Str)
      → ((Service.follow from to s).1 ≡ s)
        ⊎ ((str_eq from to ≡ false)
            × ((Service.follow from to s).1
                ≡ record s { st = (Store.put_follow (record { from = from; to = to }) s.st).1 }))
  unfolding Service.follow Domain.new
  follow_cases from to = ground arith

  pub unfollow_cases :
      (from to : Str)
      → ((Service.unfollow from to s).1 ≡ s)
        ⊎ ((Service.unfollow from to s).1 ≡ record s { st = Store.delete_follow from to s.st })
  unfolding Service.unfollow
  unfollow_cases from to = ground arith

  pub post_tweet_cases :
      (k : Clock C) (author text : Str)
      → ((Service.post_tweet k author text s).1 ≡ s)
        ⊎ ((Service.post_tweet k author text s).1 ≡ record s {
          tweet_ids = (Ids.next_id s.tweet_ids).1;
          st = (Store.put_tweet (tweet_made k author text s) s.st).1;
        })
  unfolding Service.post_tweet
  post_tweet_cases k author [] = ground arith
  post_tweet_cases k author (c ∷ text) = ground arith
