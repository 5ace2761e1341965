-- ===== src/Store/Contracts.antt =====
-- The contracts that the module `verus_proof` of crates/store/src/lib.rs states over trusted shims,
-- met here by the code itself.
use twitter_rust_formal_veri.Prelude.{
  ◌+◌, Str, str_eq, str_eq_refl, ◌≡◌, refl, Bool, false, not, ◌&&◌, ◌||◌, Result, is_ok, [], ◌∷◌,
  length-append, arith, if◌then◌else◌, Bool-cases, inl, inr,
}
use twitter_rust_formal_veri.Domain.{User, Tweet, Follow}
use twitter_rust_formal_veri.Store.{
  Inner, StoreError, put_user, has_user, put_follow, delete_follow, put_tweet,
}
use twitter_rust_formal_veri.Store.Views.{
  users_keys, follow_edges, author_tweet_count, posts, posts-put_tweet, users_keys-put_user,
  users_keys-put_tweet, follow_edges-put_follow, follow_edges-delete_follow, follow_edges-put_tweet,
}

-- `put_user_ensures`: `old` is the state before the call and `s` the state after it. A clause of
-- the source that holds on one outcome is an equation with the outcome as a test.
pub record PutUserEnsures (old s : Inner) (u : User) (result : Result StoreError Unit)
    : Type 0 where
  pub outcome : is_ok result ≡ not (users_keys old u.handle)
  pub keys : (h : Str) → users_keys s h ≡ ((is_ok result && str_eq u.handle h) || users_keys old h)

-- `has_user_ensures`
abbrev pub HasUserEnsures : Inner → Str → Bool → Type 0
HasUserEnsures s handle result = result ≡ users_keys s handle

-- `put_follow_ensures`
pub record PutFollowEnsures (old s : Inner) (f : Follow) (result : Result StoreError Unit)
    : Type 0 where
  pub outcome : is_ok result ≡ (users_keys old f.from && users_keys old f.to)
  pub edges :
      (a b : Str)
      → follow_edges s a b
        ≡ ((is_ok result && str_eq f.from a && str_eq f.to b) || follow_edges old a b)

-- `delete_follow_ensures`
pub record DeleteFollowEnsures (old s : Inner) (from to : Str) : Type 0 where
  pub removed :
      (a b : Str)
      → follow_edges s a b ≡ (not (str_eq from a && str_eq to b) && follow_edges old a b)
  pub absent : follow_edges s from to ≡ false

-- `put_tweet_ensures`, with what its shim `proof_append_tweet` says of the other authors
pub record PutTweetEnsures (old s : Inner) (t : Tweet) (result : Result StoreError Unit)
    : Type 0 where
  pub outcome : is_ok result ≡ users_keys old t.author
  pub counts :
      (a : Str)
      → author_tweet_count s a ≡ (
          if is_ok result && str_eq t.author a
          then author_tweet_count old a + 1
          else author_tweet_count old a)
  pub users : (h : Str) → users_keys s h ≡ users_keys old h
  pub edges : (a b : Str) → follow_edges s a b ≡ follow_edges old a b

-- `put_user` meets the contract that the source states of it: it succeeds exactly on a handle that
-- is free, and the registered handles gain that one on success and are unchanged on an error.
put_user_ensures : (u : User) (g : Inner) → PutUserEnsures g (put_user u g).1 u (put_user u g).0
unfolding users_keys put_user
put_user_ensures u g = record {
  outcome = ground arith;
  keys = λ h. ground (arith, users_keys-put_user u g h);
}

pub has_user_ensures : (g : Inner) (handle : Str) → HasUserEnsures g handle (has_user g handle)
unfolding has_user users_keys
has_user_ensures g handle = refl

-- `put_follow` meets its contract: it succeeds exactly if both handles are registered, and the edges
-- gain the new one on success and are unchanged on an error.
put_follow_ensures :
    (f : Follow) (g : Inner) → PutFollowEnsures g (put_follow f g).1 f (put_follow f g).0
unfolding put_follow users_keys
put_follow_ensures f g = record {
  outcome = ground arith;
  edges = λ a b. ground (arith, follow_edges-put_follow f g a b);
}

-- `delete_follow` meets its contract: exactly the edge named is gone.
delete_follow_ensures :
    (from to : Str) (g : Inner) → DeleteFollowEnsures g (delete_follow from to g) from to
delete_follow_ensures from to g = record {
  removed = λ a b. follow_edges-delete_follow from to g a b;
  absent =
      ground
        (arith, follow_edges-delete_follow from to g from to, str_eq_refl from, str_eq_refl to);
}

count-put_tweet :
    (t : Tweet) (g : Inner) (a : Str)
    → author_tweet_count (put_tweet t g).1 a ≡ (
        if users_keys g t.author && str_eq t.author a
        then author_tweet_count g a + 1
        else author_tweet_count g a)
unfolding author_tweet_count
count-put_tweet t g a =
    rw (posts-put_tweet t g a) (elim (Bool-cases (users_keys g t.author && str_eq t.author a)) [
      | inl e ↦ rw e (omega (arith, length-append (posts g a) (t ∷ [])))
      | inr e ↦ rw e
    ])

-- `put_tweet` meets its contract: it succeeds exactly if the author is registered, and on success
-- the author, and nobody else, has one tweet more; handles and edges are unchanged.
put_tweet_ensures :
    (t : Tweet) (g : Inner) → PutTweetEnsures g (put_tweet t g).1 t (put_tweet t g).0
unfolding put_tweet users_keys
put_tweet_ensures t g = record {
  outcome = ground arith;
  counts = λ a. ground (arith, count-put_tweet t g a);
  users = λ h. users_keys-put_tweet g h t;
  edges = λ a b. follow_edges-put_tweet g a b t;
}

-- The operations of the store meet the contracts that the source states over trusted shims. `put_user`
-- succeeds exactly on a free handle, and that one is then registered beside the others; `put_follow`
-- succeeds exactly if both handles are registered, and the edge is then there beside the others;
-- `delete_follow` takes exactly the edge named; `put_tweet` succeeds exactly if the author is
-- registered, who alone then has one tweet more; an error changes none of this.
pub store_ensures :
    (u : User) (f : Follow) (from to : Str) (t : Tweet) (g : Inner)
    → PutUserEnsures g (put_user u g).1 u (put_user u g).0
      × PutFollowEnsures g (put_follow f g).1 f (put_follow f g).0
      × DeleteFollowEnsures g (delete_follow from to g) from to
      × PutTweetEnsures g (put_tweet t g).1 t (put_tweet t g).0
store_ensures u f from to t g = (
  put_user_ensures u g,
  put_follow_ensures f g,
  delete_follow_ensures from to g,
  put_tweet_ensures t g,
)
