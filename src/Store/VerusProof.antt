-- ===== src/Store/VerusProof.antt =====
-- The module `verus_proof` in crates/store/src/lib.rs: shims of which only the contract is known, and
-- copies of the methods of `MemStore` over them. `&mut` is a step from a state to the next; a ghost
-- view that is a set is a Boolean function.
pub mod Bodies
pub mod Verified
pub mod Copies
use twitter_rust_formal_veri.Prelude.{
  ℕ, ◌+◌, Str, str_eq, ◌≡◌, Bool, false, not, ◌&&◌, ◌||◌, List, Result, ok, err, if◌then◌else◌,
}
use twitter_rust_formal_veri.Std.HashSet.{HashSet}
use twitter_rust_formal_veri.Domain.{User, Tweet, Follow}
use twitter_rust_formal_veri.Store
use twitter_rust_formal_veri.Store.{StoreError}

-- The shims of the users, with what is trusted of them.
pub record UserShims (S : Type 0) (users_keys : S → Str → Bool) : Type 0 where
  pub proof_users_contains : S → Str → Bool
  pub users_contains_ensures :
      (s : S) (handle : Str) → proof_users_contains s handle ≡ users_keys s handle
  pub proof_users_insert : User → S → S
  pub users_insert_ensures :
      (u : User) (s : S) (h : Str)
      → users_keys (proof_users_insert u s) h ≡ (str_eq u.handle h || users_keys s h)

-- The shims of the edges, with what is trusted of them.
pub record FollowShims (S : Type 0) (users_keys : S → Str → Bool)
    (follow_edges : S → Str → Str → Bool) : Type 0 where
  pub proof_follow_contains : S → Str → Str → Bool
  pub follow_contains_ensures :
      (s : S) (from to : Str) → proof_follow_contains s from to ≡ follow_edges s from to
  pub proof_follow_insert : Str → Str → S → S
  pub follow_insert_edges :
      (from to : Str) (s : S) (a b : Str)
      → follow_edges (proof_follow_insert from to s) a b
        ≡ ((str_eq from a && str_eq to b) || follow_edges s a b)
  pub follow_insert_users :
      (from to : Str) (s : S) (h : Str)
      → users_keys (proof_follow_insert from to s) h ≡ users_keys s h
  pub proof_follow_remove : Str → Str → S → S
  pub follow_remove_edges :
      (from to : Str) (s : S) (a b : Str)
      → follow_edges (proof_follow_remove from to s) a b
        ≡ (not (str_eq from a && str_eq to b) && follow_edges s a b)
  pub follow_remove_users :
      (from to : Str) (s : S) (h : Str)
      → users_keys (proof_follow_remove from to s) h ≡ users_keys s h

-- The shims of a post, with what is trusted of them.
pub record TweetShims (S : Type 0) (users_keys : S → Str → Bool)
    (follow_edges : S → Str → Str → Bool) (author_tweet_count : S → Str → ℕ) : Type 0 where
  pub proof_can_post_tweet : S → Str → Bool
  pub can_post_tweet_ensures :
      (s : S) (author : Str) → proof_can_post_tweet s author ≡ users_keys s author
  pub proof_append_tweet : Tweet → S → S
  pub append_tweet_count :
      (t : Tweet) (s : S)
      → author_tweet_count (proof_append_tweet t s) t.author ≡ author_tweet_count s t.author + 1
  pub append_tweet_others :
      (t : Tweet) (s : S) (other : Str)
      → str_eq t.author other ≡ false
      → author_tweet_count (proof_append_tweet t s) other ≡ author_tweet_count s other
  pub append_tweet_users :
      (t : Tweet) (s : S) (h : Str) → users_keys (proof_append_tweet t s) h ≡ users_keys s h
  pub append_tweet_edges :
      (t : Tweet) (s : S) (a b : Str)
      → follow_edges (proof_append_tweet t s) a b ≡ follow_edges s a b

-- The shim of `follow_set`, of which nothing is trusted here.
pub record FollowSetShim (S : Type 0) : Type 0 where
  pub proof_follow_set : S → Str → HashSet

-- The shim of `home_timeline`, of which nothing is trusted here.
pub record TimelineShim (S : Type 0) : Type 0 where
  pub proof_home_timeline : S → Str → ℕ → List Tweet

-- The opaque state as the type `S`, its ghost views, and the shims over them.
pub record Shims (S : Type 0) : Type 0 where
  pub users_keys : S → Str → Bool
  pub follow_edges : S → Str → Str → Bool
  pub author_tweet_count : S → Str → ℕ
  pub users : UserShims S users_keys
  pub follows : FollowShims S users_keys follow_edges
  pub tweets : TweetShims S users_keys follow_edges author_tweet_count
  pub follow_sets : FollowSetShim S
  pub timelines : TimelineShim S

module _ {S : Type 0} (x : Shims S) where
  unfoldable pub put_user_ensures : User → S → Result StoreError (Unit {0}) × S
  put_user_ensures u s =
      if x.users.proof_users_contains s u.handle
      then (err Store.duplicate_user, s)
      else (ok tt, x.users.proof_users_insert u s)

  unfoldable pub has_user_ensures : S → Str → Bool
  has_user_ensures s handle = x.users.proof_users_contains s handle

  unfoldable pub put_follow_ensures : Follow → S → Result StoreError (Unit {0}) × S
  put_follow_ensures f s =
      if not (x.users.proof_users_contains s f.from)
      then (err Store.unknown_user, s)
      else if not (x.users.proof_users_contains s f.to)
      then (err Store.unknown_user, s)
      else (ok tt, x.follows.proof_follow_insert f.from f.to s)

  unfoldable pub delete_follow_ensures : Str → Str → S → S
  delete_follow_ensures from to s = x.follows.proof_follow_remove from to s

  unfoldable pub put_tweet_ensures : Tweet → S → Result StoreError (Unit {0}) × S
  put_tweet_ensures t s =
      if not (x.tweets.proof_can_post_tweet s t.author)
      then (err Store.unknown_user, s)
      else (ok tt, x.tweets.proof_append_tweet t s)

  unfoldable pub follow_set_ensures : S → Str → HashSet
  follow_set_ensures s from = x.follow_sets.proof_follow_set s from

  unfoldable pub home_timeline_ensures : S → Str → ℕ → List Tweet
  home_timeline_ensures s user limit = x.timelines.proof_home_timeline s user limit
