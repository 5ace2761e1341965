-- ===== src/Store/VerusProof/Verified.antt =====
-- What the module `verus_proof` of crates/store/src/lib.rs checks of its copies, over any shims that
-- meet the contracts that it trusts.
use twitter_rust_formal_veri.Prelude.{
  ◌+◌, Str, str_eq, str_eq_refl, ◌≡◌, false, not, ◌&&◌, ◌||◌, Result, is_ok, arith, if◌then◌else◌,
}
use twitter_rust_formal_veri.Domain.{User, Tweet, Follow}
use twitter_rust_formal_veri.Store.{StoreError}
use twitter_rust_formal_veri.Store.VerusProof.{
  Shims, put_user_ensures, put_follow_ensures, delete_follow_ensures, put_tweet_ensures,
}

-- The `ensures` of the copies. `old` is the state before the call and `s` the state after it; a clause
-- on one outcome is an equation with the outcome as a test.
module _ {S : Type 0} (x : Shims S) (old s : S) where
  pub record PutUserContract (u : User) (result : Result StoreError (Unit {0})) : Type 0 where
    pub outcome : is_ok result ≡ not (x.users_keys old u.handle)
    pub keys :
        (h : Str) → x.users_keys s h ≡ ((is_ok result && str_eq u.handle h) || x.users_keys old h)

  pub record PutFollowContract (f : Follow) (result : Result StoreError (Unit {0})) : Type 0 where
    pub outcome : is_ok result ≡ (x.users_keys old f.from && x.users_keys old f.to)
    pub edges :
        (a b : Str)
        → x.follow_edges s a b
          ≡ ((is_ok result && str_eq f.from a && str_eq f.to b) || x.follow_edges old a b)

  pub record DeleteFollowContract (from to : Str) : Type 0 where
    pub edges :
        (a b : Str)
        → x.follow_edges s a b ≡ (not (str_eq from a && str_eq to b) && x.follow_edges old a b)
    pub absent : x.follow_edges s from to ≡ false

  pub record PutTweetContract (t : Tweet) (result : Result StoreError (Unit {0})) : Type 0 where
    pub outcome : is_ok result ≡ x.users_keys old t.author
    pub count : x.author_tweet_count s t.author ≡ (
        if is_ok result
        then x.author_tweet_count old t.author + 1
        else x.author_tweet_count old t.author)
    pub users : (h : Str) → x.users_keys s h ≡ x.users_keys old h
    pub edges : (a b : Str) → x.follow_edges s a b ≡ x.follow_edges old a b

module _ {S : Type 0} (x : Shims S) (s : S) where
  put_user_met :
      (u : User) → PutUserContract x s (put_user_ensures x u s).1 u (put_user_ensures x u s).0
  unfolding put_user_ensures
  put_user_met u = record {
    outcome = ground (arith, x.users.users_contains_ensures s u.handle);
    keys = λ h.
        ground
          (arith, x.users.users_contains_ensures s u.handle, x.users.users_insert_ensures u s h);
  }

  put_follow_met :
      (f : Follow)
      → PutFollowContract x s (put_follow_ensures x f s).1 f (put_follow_ensures x f s).0
  unfolding put_follow_ensures
  put_follow_met f = record {
    outcome =
        ground
          (arith, x.users.users_contains_ensures s f.from, x.users.users_contains_ensures s f.to);
    edges = λ a b. ground (arith, x.follows.follow_insert_edges f.from f.to s a b);
  }

  delete_follow_met :
      (from to : Str) → DeleteFollowContract x s (delete_follow_ensures x from to s) from to
  unfolding delete_follow_ensures
  delete_follow_met from to = record {
    edges = λ a b. x.follows.follow_remove_edges from to s a b;
    absent =
        ground (
          arith,
          x.follows.follow_remove_edges from to s from to,
          str_eq_refl from,
          str_eq_refl to,
        );
  }

  put_tweet_met :
      (t : Tweet) → PutTweetContract x s (put_tweet_ensures x t s).1 t (put_tweet_ensures x t s).0
  unfolding put_tweet_ensures
  put_tweet_met t = record {
    outcome = ground (arith, x.tweets.can_post_tweet_ensures s t.author);
    count =
        ground (arith, x.tweets.can_post_tweet_ensures s t.author, x.tweets.append_tweet_count t s);
    users = λ h. ground (arith, x.tweets.append_tweet_users t s h);
    edges = λ a b. ground (arith, x.tweets.append_tweet_edges t s a b);
  }

  -- Over any shims that meet the trusted contracts, the copies meet theirs: `put_user` succeeds exactly
  -- on a free handle, and the registered handles gain that one then and nothing on an error;
  -- `put_follow` succeeds exactly if both handles are registered, and the edges gain this one then and
  -- nothing on an error; `delete_follow` takes exactly the edge named; `put_tweet` succeeds exactly if
  -- the author is registered, who has one tweet more then and no more on an error, with handles and
  -- edges unchanged.
  pub copies_verified :
      (u : User) (f : Follow) (from to : Str) (t : Tweet)
      → PutUserContract x s (put_user_ensures x u s).1 u (put_user_ensures x u s).0
        × PutFollowContract x s (put_follow_ensures x f s).1 f (put_follow_ensures x f s).0
        × DeleteFollowContract x s (delete_follow_ensures x from to s) from to
        × PutTweetContract x s (put_tweet_ensures x t s).1 t (put_tweet_ensures x t s).0
  copies_verified u f from to t =
      (put_user_met u, put_follow_met f, delete_follow_met from to, put_tweet_met t)
