-- ===== src/Service/Sound/Requests.antt =====
-- Every method of crates/service/src/lib.rs, run alone, keeps the invariant: it is a sequence of
-- critical sections that do.
use twitter_rust_formal_veri.Prelude.{Str, inl, inr, arith}
use twitter_rust_formal_veri.Clock.{Clock}
use twitter_rust_formal_veri.Clock.Monotone.{Fits}
use twitter_rust_formal_veri.Ids
use twitter_rust_formal_veri.Domain.{Follow}
use twitter_rust_formal_veri.Service
use twitter_rust_formal_veri.Service.{Service}
use twitter_rust_formal_veri.Service.Calls.{
  user_made, tweet_made, create_user_cases, follow_cases, unfollow_cases, post_tweet_cases,
}
use twitter_rust_formal_veri.Service.Sound.{IsSound, next_id-above}
use twitter_rust_formal_veri.Service.Sound.Locks.{
  numbered_user-IsSound, numbered_tweet-IsSound, stored_user-IsSound, stored_tweet-IsSound,
  stored_follow-IsSound, removed_follow-IsSound,
}

module _ {C : Type 0} (k : Clock C) (s : Service C) (p : IsSound k s) where
  pub create_user-IsSound :
      (handle : Str) → Fits (Ids.current s.user_ids) 1 → IsSound k (Service.create_user handle s).1
  create_user-IsSound handle room = elim (create_user_cases s handle) [
    | inl same ↦ rw same p
    | inr made ↦
        let (grows, is_current, _) = next_id-above s.user_ids 0 room in
        rw made (
          stored_user-IsSound k (record s { user_ids = (Ids.next_id s.user_ids).1 })
            (numbered_user-IsSound k s p room) (user_made handle s) (rw is_current (omega arith))
            λ h u e i. omega (arith, rw i at (p.user_below h u e)))
  ]

  pub follow-IsSound : (from to : Str) → IsSound k (Service.follow from to s).1
  follow-IsSound from to = elim (follow_cases s from to) [
    | inl same ↦ rw same p
    | inr (apart, added) ↦
        let f : Follow = record { from = from; to = to } in
        rw added (stored_follow-IsSound k s p f apart)
  ]

  pub unfollow-IsSound : (from to : Str) → IsSound k (Service.unfollow from to s).1
  unfollow-IsSound from to = elim (unfollow_cases s from to) [
    | inl same ↦ rw same p
    | inr removed ↦ rw removed (removed_follow-IsSound k s p from to)
  ]

  pub post_tweet-IsSound :
      (author text : Str)
      → Fits (Ids.current s.tweet_ids) 1
      → IsSound k (Service.post_tweet k author text s).1
  post_tweet-IsSound author text room = elim (post_tweet_cases s k author text) [
    | inl same ↦ rw same p
    | inr posted ↦
        let (grows, is_current, _) = next_id-above s.tweet_ids 0 room in
        rw posted (
          stored_tweet-IsSound k (record s { tweet_ids = (Ids.next_id s.tweet_ids).1 })
            (numbered_tweet-IsSound k s p room) (tweet_made k author text s)
            (rw is_current (omega arith)) (omega arith)
            λ a u m i. omega (arith, rw i at (p.tweet_below a u m)))
  ]
