-- ===== src/Store/Views.antt =====
-- The ghost views of the module `verus_proof` in crates/store/src/lib.rs, here as functions of the
-- state: the registered handles, the follow edges and the tweets of each author, and what every
-- operation does to each of them.
use twitter_rust_formal_veri.Prelude.{
  ℕ, Str, str_eq, str_eq_iff, ◌≡◌, Bool, true, false, none, some, not, ◌&&◌, ◌||◌, Option, List, [],
  ◌∷◌, ◌++◌, length, unwrap_or, arith, if◌then◌else◌, Option-cases, inl, inr,
}
use twitter_rust_formal_veri.Std.HashMap
use twitter_rust_formal_veri.Std.HashMap.{
  get-insert, get-empty, contains_key-insert, contains_key-empty,
}
use twitter_rust_formal_veri.Std.HashSet
use twitter_rust_formal_veri.Std.HashSet.{contains-empty, contains-insert, contains-remove}
use twitter_rust_formal_veri.Domain.{User, Tweet, Follow}
use twitter_rust_formal_veri.Store.{
  Inner, new, put_user, put_follow, delete_follow, put_tweet, follow_set,
}

unfoldable pub users_keys : Inner → Str → Bool
users_keys g handle = HashMap.contains_key g.users handle

unfoldable pub follow_edges : Inner → Str → Str → Bool
unfolding follow_set
follow_edges g from to = HashSet.contains (follow_set g from) to

-- The tweets of an author, oldest first.
unfoldable pub posts : Inner → Str → List Tweet
posts g author = unwrap_or [] (HashMap.get g.by_author author)

unfoldable pub author_tweet_count : Inner → Str → ℕ
unfolding posts
author_tweet_count g author = length (posts g author)

pub users_keys-put_user :
    (u : User) (g : Inner) (h : Str)
    → users_keys (put_user u g).1 h ≡ (str_eq u.handle h || users_keys g h)
unfolding users_keys put_user
users_keys-put_user u g h =
    ground (arith, contains_key-insert g.users u.handle h u, str_eq_iff u.handle h)

contains-unwrap_insert :
    (o : Option HashSet.HashSet) (to b : Str)
    → HashSet.contains (HashSet.insert (unwrap_or HashSet.empty o) to) b
      ≡ (str_eq to b || HashSet.contains (unwrap_or HashSet.empty o) b)
contains-unwrap_insert o to b = contains-insert (unwrap_or HashSet.empty o) to b

pub follow_edges-put_follow :
    (f : Follow) (g : Inner) (a b : Str)
    → follow_edges (put_follow f g).1 a b ≡ (
        (users_keys g f.from && users_keys g f.to && str_eq f.from a && str_eq f.to b)
        || follow_edges g a b)
unfolding users_keys follow_edges put_follow
follow_edges-put_follow f g a b = ground (
  arith,
  get-insert g.follows f.from a
      (HashSet.insert (unwrap_or HashSet.empty (HashMap.get g.follows f.from)) f.to),
  contains-unwrap_insert (HashMap.get g.follows f.from) f.to b,
  str_eq_iff f.from a,
  str_eq_iff f.to b,
)

pub follow_edges-delete_follow :
    (from to : Str) (g : Inner) (a b : Str)
    → follow_edges (delete_follow from to g) a b
      ≡ (not (str_eq from a && str_eq to b) && follow_edges g a b)
unfolding follow_edges delete_follow
follow_edges-delete_follow from to g a b = elim (Option-cases (HashMap.get g.follows from)) [
  | inl e ↦ ground (arith, str_eq_iff from a, contains-empty b)
  | inr (set, e) ↦ ground (
    arith,
    get-insert g.follows from a (HashSet.remove set to),
    contains-remove set to b,
    str_eq_iff from a,
    str_eq_iff to b,
  )
]

pub posts-put_tweet :
    (t : Tweet) (g : Inner) (a : Str)
    → posts (put_tweet t g).1 a
      ≡ (if users_keys g t.author && str_eq t.author a then posts g a ++ t ∷ [] else posts g a)
unfolding users_keys posts put_tweet
posts-put_tweet t g a = ground (
  arith,
  get-insert g.by_author t.author a (unwrap_or [] (HashMap.get g.by_author t.author) ++ t ∷ []),
  str_eq_iff t.author a,
)

-- The user that stands under a handle.
unfoldable pub user_at : Inner → Str → Option User
user_at g h = HashMap.get g.users h

pub user_at-put_user :
    (u : User) (g : Inner) (h : Str)
    → user_at (put_user u g).1 h
      ≡ (if not (users_keys g u.handle) && str_eq u.handle h then some u else user_at g h)
unfolding user_at put_user users_keys
user_at-put_user u g h = ground (arith, get-insert g.users u.handle h u, str_eq_iff u.handle h)

pub user_at-eq-none : (g : Inner) (h : Str) → users_keys g h ≡ false → user_at g h ≡ none
unfolding user_at users_keys
user_at-eq-none g h e = HashMap.get-eq-none g.users h e

pub user_at_of_users_keys :
    (g : Inner) (h : Str) → users_keys g h ≡ true → (u : User) × (user_at g h ≡ some u)
unfolding user_at users_keys
user_at_of_users_keys g h e = HashMap.get_of_contains_key g.users h e

-- What an operation does not touch.
module _ (g : Inner) (a b : Str) where
  pub follow_edges-put_user : (u : User) → follow_edges (put_user u g).1 a b ≡ follow_edges g a b
  unfolding follow_edges put_user
  follow_edges-put_user u = ground arith

  pub follow_edges-put_tweet : (t : Tweet) → follow_edges (put_tweet t g).1 a b ≡ follow_edges g a b
  unfolding follow_edges put_tweet
  follow_edges-put_tweet t = ground arith

module _ (g : Inner) (a : Str) where
  pub users_keys-put_follow : (f : Follow) → users_keys (put_follow f g).1 a ≡ users_keys g a
  unfolding users_keys put_follow
  users_keys-put_follow f = ground arith

  pub users_keys-delete_follow :
      (from to : Str) → users_keys (delete_follow from to g) a ≡ users_keys g a
  unfolding users_keys delete_follow
  users_keys-delete_follow from to = ground arith

  pub users_keys-put_tweet : (t : Tweet) → users_keys (put_tweet t g).1 a ≡ users_keys g a
  unfolding users_keys put_tweet
  users_keys-put_tweet t = ground arith

  pub user_at-put_follow : (f : Follow) → user_at (put_follow f g).1 a ≡ user_at g a
  unfolding user_at put_follow
  user_at-put_follow f = ground arith

  pub user_at-delete_follow : (from to : Str) → user_at (delete_follow from to g) a ≡ user_at g a
  unfolding user_at delete_follow
  user_at-delete_follow from to = ground arith

  pub user_at-put_tweet : (t : Tweet) → user_at (put_tweet t g).1 a ≡ user_at g a
  unfolding user_at put_tweet
  user_at-put_tweet t = ground arith

  pub posts-put_user : (u : User) → posts (put_user u g).1 a ≡ posts g a
  unfolding posts put_user
  posts-put_user u = ground arith

  pub posts-put_follow : (f : Follow) → posts (put_follow f g).1 a ≡ posts g a
  unfolding posts put_follow
  posts-put_follow f = ground arith

  pub posts-delete_follow : (from to : Str) → posts (delete_follow from to g) a ≡ posts g a
  unfolding posts delete_follow
  posts-delete_follow from to = ground arith

pub users_keys-new : (a : Str) → users_keys new a ≡ false
unfolding users_keys new
users_keys-new a = contains_key-empty User a

pub follow_edges-new : (a b : Str) → follow_edges new a b ≡ false
unfolding follow_edges new
follow_edges-new a b = rw (get-empty) (contains-empty b)

pub user_at-new : (a : Str) → user_at new a ≡ none
unfolding user_at new
user_at-new a = rw get-empty

pub posts-new : (a : Str) → posts new a ≡ []
unfolding posts new
posts-new a = rw get-empty
