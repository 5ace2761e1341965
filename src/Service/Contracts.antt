-- ===== src/Service/Contracts.antt =====
-- What each method of crates/service/src/lib.rs answers and changes, on every branch. The contracts
-- of its module `verus_proof` follow: they say when a method fails, and these also with which error.
pub mod Repeated
pub mod Delivery
use twitter_rust_formal_veri.Prelude.{
  ℤ, incr, Str, str_eq, is_empty, ◌≡◌, Bool, true, false, not, ◌&&◌, ◌||◌, Option, some, List, [],
  ◌∷◌, ◌++◌, Result, ok, err, is_ok, arith, if◌then◌else◌,
}
use twitter_rust_formal_veri.Clock.{Clock}
use twitter_rust_formal_veri.Ids
use twitter_rust_formal_veri.Ids.{next_id_lem}
use twitter_rust_formal_veri.Domain
use twitter_rust_formal_veri.Domain.{User, Tweet, Follow}
use twitter_rust_formal_veri.Store
use twitter_rust_formal_veri.Store.Views.{
  users_keys, follow_edges, posts, user_at, user_at-put_user, follow_edges-put_user, posts-put_user,
  follow_edges-put_follow, posts-put_tweet, follow_edges-delete_follow,
}
use twitter_rust_formal_veri.Service
use twitter_rust_formal_veri.Service.{
  Service, ServiceError, create_user, follow, unfollow, post_tweet, from_store, from_domain,
}
use twitter_rust_formal_veri.Service.Calls.{user_made, tweet_made}

-- What a call that only touches the store leaves alone.
abbrev pub SameOutside : {C : Type 0} → Service C → Service C → Type 0
SameOutside old s = s ≡ record old { st = s.st }

module _ {C : Type 0} (old s : Service C) where
  pub record CreateUserEnsures (handle : Str) (result : Result ServiceError User) : Type 0 where
    pub outcome : result ≡ (
        if is_empty handle
        then err Service.empty_handle
        else if users_keys old.st handle
        then err Service.duplicate_user
        else ok (user_made handle old))
    pub users :
        (h : Str)
        → user_at s.st h ≡ (
            if is_ok result && str_eq handle h
            then some (user_made handle old)
            else user_at old.st h)
    pub edges : (a b : Str) → follow_edges s.st a b ≡ follow_edges old.st a b
    pub tweets : (a : Str) → posts s.st a ≡ posts old.st a
    -- an identifier is spent on a duplicate handle too
    pub spent :
        Ids.current s.user_ids
        ≡ (if is_empty handle then Ids.current old.user_ids else incr (Ids.current old.user_ids))
    pub rest : s ≡ record old { st = s.st; user_ids = s.user_ids }

  pub record FollowEnsures (from to : Str) (result : Result ServiceError (Unit {0})) : Type 0 where
    pub outcome : result ≡ (
        if str_eq from to
        then err Service.self_follow
        else if users_keys old.st from && users_keys old.st to
        then ok tt
        else err Service.unknown_user)
    pub edges :
        (a b : Str)
        → follow_edges s.st a b
          ≡ ((is_ok result && str_eq from a && str_eq to b) || follow_edges old.st a b)
    pub users : (h : Str) → user_at s.st h ≡ user_at old.st h
    pub tweets : (a : Str) → posts s.st a ≡ posts old.st a
    pub rest : SameOutside old s

  pub record UnfollowEnsures (from to : Str) (result : Result ServiceError (Unit {0}))
      : Type 0 where
    pub outcome : result ≡ (
        if users_keys old.st from && users_keys old.st to then ok tt else err Service.unknown_user)
    pub edges :
        (a b : Str)
        → follow_edges s.st a b
          ≡ (not (is_ok result && str_eq from a && str_eq to b) && follow_edges old.st a b)
    pub users : (h : Str) → user_at s.st h ≡ user_at old.st h
    pub tweets : (a : Str) → posts s.st a ≡ posts old.st a
    pub rest : SameOutside old s

  pub record PostTweetEnsures (k : Clock C) (author text : Str) (result : Result ServiceError Tweet)
      : Type 0 where
    pub outcome : result ≡ (
        if is_empty text
        then err Service.empty_text
        else if users_keys old.st author
        then ok (tweet_made k author text old)
        else err Service.unknown_user)
    pub tweets :
        (a : Str)
        → posts s.st a ≡ (
            if is_ok result && str_eq author a
            then posts old.st a ++ tweet_made k author text old ∷ []
            else posts old.st a)
    pub edges : (a b : Str) → follow_edges s.st a b ≡ follow_edges old.st a b
    pub users : (h : Str) → user_at s.st h ≡ user_at old.st h
    -- an identifier is spent only on a tweet that is stored
    pub spent :
        Ids.current s.tweet_ids
        ≡ (if is_ok result then incr (Ids.current old.tweet_ids) else Ids.current old.tweet_ids)
    pub rest : s ≡ record old { st = s.st; tweet_ids = s.tweet_ids }

module _ {C : Type 0} (s : Service C) where
  -- `create_user` answers by the first of these that holds: the error for an empty handle, that for a
  -- registered one, the new user. Only the last registers it; an identifier is spent unless the
  -- handle is empty; nothing else changes.
  pub create_user_ensures :
      (handle : Str) → CreateUserEnsures s (create_user handle s).1 handle (create_user handle s).0
  unfolding create_user from_store Store.put_user users_keys user_at follow_edges posts
      Store.follow_set
  create_user_ensures [] = record {
    outcome = ground arith;
    users = λ h. ground arith;
    edges = λ a b. ground arith;
    tweets = λ a. ground arith;
    spent = ground arith;
    rest = ground arith;
  }
  create_user_ensures (c ∷ handle) = record {
    outcome = ground arith;
    users = λ h. ground (arith, user_at-put_user (user_made (c ∷ handle) s) s.st h);
    edges = λ a b. ground (arith, follow_edges-put_user s.st a b (user_made (c ∷ handle) s));
    tweets = λ a. ground (arith, posts-put_user s.st a (user_made (c ∷ handle) s));
    spent = ground (arith, next_id_lem s.user_ids);
    rest = ground arith;
  }

  -- `follow` answers by the first of these that holds: the error for equal handles, success for two
  -- registered handles, the error for an unknown one. Only a success adds the edge; nothing else
  -- changes.
  pub follow_ensures :
      (from to : Str) → FollowEnsures s (follow from to s).1 from to (follow from to s).0
  unfolding follow from_domain from_store Domain.new Store.put_follow users_keys user_at posts
  follow_ensures from to =
      let f : Follow = record { from = from; to = to } in
      record {
        outcome = ground arith;
        edges = λ a b. ground (arith, follow_edges-put_follow f s.st a b);
        users = λ h. ground arith;
        tweets = λ a. ground arith;
        rest = ground arith;
      }

  -- `unfollow` succeeds exactly on two registered handles, and else answers that one is unknown. Only
  -- a success removes the edge, if it is there; nothing else changes.
  pub unfollow_ensures :
      (from to : Str) → UnfollowEnsures s (unfollow from to s).1 from to (unfollow from to s).0
  unfolding unfollow Store.delete_follow Store.has_user users_keys user_at posts
  unfollow_ensures from to = record {
    outcome = ground arith;
    edges = λ a b. ground (arith, follow_edges-delete_follow from to s.st a b);
    users = λ h. ground arith;
    tweets = λ a. ground arith;
    rest = ground arith;
  }

  -- `post_tweet` answers by the first of these that holds: the error for an empty text, that for an
  -- unknown author, the new tweet with the next identifier and the time of the clock. Only the last
  -- spends an identifier and appends the tweet to its author's list; nothing else changes.
  pub post_tweet_ensures :
      (k : Clock C) (author text : Str)
      → PostTweetEnsures s
          (post_tweet k author text s).1
          k
          author
          text
          (post_tweet k author text s).0
  unfolding post_tweet from_store Store.put_tweet Store.has_user users_keys user_at follow_edges
      posts Store.follow_set
  post_tweet_ensures k author [] = record {
    outcome = ground arith;
    tweets = λ a. ground arith;
    edges = λ a b. ground arith;
    users = λ h. ground arith;
    spent = ground arith;
    rest = ground arith;
  }
  post_tweet_ensures k author (c ∷ text) =
      let t = tweet_made k author (c ∷ text) s in
      record {
        outcome = ground arith;
        tweets = λ a. ground (arith, posts-put_tweet t s.st a);
        edges = λ a b. ground arith;
        users = λ h. ground arith;
        spent = ground (arith, next_id_lem s.tweet_ids);
        rest = ground arith;
      }

  -- What each request answers and changes, on every branch. `create_user` answers by the first of these
  -- that holds: the error for an empty handle, that for a registered one, the new user; only the last
  -- registers it, and an identifier is spent unless the handle is empty. `follow`: the error for equal
  -- handles, success for two registered ones, the error for an unknown one; only a success adds the
  -- edge. `unfollow` succeeds exactly on two registered handles, and removes the edge then, if it is
  -- there. `post_tweet`: the error for an empty text, that for an unknown author, the new tweet with the
  -- next identifier and the time of the clock; only the last spends an identifier and appends the
  -- tweet to its author's list. Nothing else changes.
  pub requests_ensure :
      (k : Clock C) (handle from to author text : Str)
      → CreateUserEnsures s (create_user handle s).1 handle (create_user handle s).0
        × FollowEnsures s (follow from to s).1 from to (follow from to s).0
        × UnfollowEnsures s (unfollow from to s).1 from to (unfollow from to s).0
        × PostTweetEnsures s
            (post_tweet k author text s).1
            k
            author
            text
            (post_tweet k author text s).0
  requests_ensure k handle from to author text = (
    create_user_ensures handle,
    follow_ensures from to,
    unfollow_ensures from to,
    post_tweet_ensures k author text,
  )
