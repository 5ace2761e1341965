-- ===== src/Store/Snapshot/Replaced.antt =====
-- What `MemStore::replace` of crates/store/src/lib.rs leaves: a state that is what the snapshot says,
-- and nothing of the state before.

use mathlib.Core.List.{append-nil, append_assoc}
use twitter_rust_formal_veri.Prelude.{
  Str, str_eq, str_eq_iff, ◌≡◌, refl, Bool, false, ◌&&◌, ◌||◌, Option, none, some, List, [], ◌∷◌,
  ◌++◌, unwrap_or, arith, if◌then◌else◌, Option-cases, inl, inr, sym, Bool-cases,
}
use twitter_rust_formal_veri.Std.HashMap
use twitter_rust_formal_veri.Std.HashMap.{HashMap, get-insert, get-empty, get-map_values}
use twitter_rust_formal_veri.Std.HashSet
use twitter_rust_formal_veri.Std.HashSet.{HashSet, contains-insert, contains-empty}
use twitter_rust_formal_veri.Std.Sort.{sort_by}
use twitter_rust_formal_veri.Domain.{User, Tweet, Follow}
use twitter_rust_formal_veri.Store.{Inner, add_edge, push_tweet, follow_set}
use twitter_rust_formal_veri.Store.Snapshot.{
  StoreSnapshot, replace, insert_users, insert_follows, insert_tweets, by_tweet_id,
}
use twitter_rust_formal_veri.Store.Views.{user_at, follow_edges, posts}

-- The last user of a list with a handle, or `old` if there is none.
unfoldable pub last_user : Str → List User → Option User → Option User
last_user h [] old = old
last_user h (u ∷ users) old = last_user h users (if str_eq u.handle h then some u else old)

unfoldable pub has_follow : Str → Str → List Follow → Bool
has_follow a b [] = false
has_follow a b (f ∷ follows) = (str_eq f.from a && str_eq f.to b) || has_follow a b follows

-- The tweets of an author, in the order of the list.
unfoldable pub tweets_by : Str → List Tweet → List Tweet
tweets_by a [] = []
tweets_by a (t ∷ tweets) =
    let rest = tweets_by a tweets in if str_eq t.author a then t ∷ rest else rest

get-insert_users :
    (users : HashMap User) (us : List User) (h : Str)
    → HashMap.get (insert_users users us) h ≡ last_user h us (HashMap.get users h)
unfolding insert_users last_user
get-insert_users users [] h = refl
get-insert_users users (u ∷ us) h =
    rw (get-insert_users (HashMap.insert users u.handle u) us h, get-insert users u.handle h u)

edge_in : HashMap HashSet → Str → Str → Bool
edge_in follows a b = HashSet.contains (unwrap_or HashSet.empty (HashMap.get follows a)) b

edge_in-add_edge :
    (follows : HashMap HashSet) (from to a b : Str)
    → edge_in (add_edge follows from to) a b
      ≡ ((str_eq from a && str_eq to b) || edge_in follows a b)
unfolding edge_in add_edge
edge_in-add_edge follows from to a b = ground (
  arith,
  get-insert follows from a
      (HashSet.insert (unwrap_or HashSet.empty (HashMap.get follows from)) to),
  contains-insert (unwrap_or HashSet.empty (HashMap.get follows from)) to b,
  str_eq_iff from a,
)

edge_in-insert_follows :
    (follows : HashMap HashSet) (fs : List Follow) (a b : Str)
    → edge_in (insert_follows follows fs) a b ≡ (has_follow a b fs || edge_in follows a b)
unfolding insert_follows has_follow
edge_in-insert_follows follows [] a b = refl
edge_in-insert_follows follows (f ∷ fs) a b = ground (
  arith,
  edge_in-insert_follows (add_edge follows f.from f.to) fs a b,
  edge_in-add_edge follows f.from f.to a b,
)

list_of : HashMap (List Tweet) → Str → List Tweet
list_of by_author a = unwrap_or [] (HashMap.get by_author a)

list_of-push_tweet :
    (m : HashMap (List Tweet)) (t : Tweet) (a : Str)
    → list_of (push_tweet m t) a
      ≡ (if str_eq t.author a then list_of m a ++ t ∷ [] else list_of m a)
unfolding list_of push_tweet
list_of-push_tweet m t a = ground (
  arith,
  get-insert m t.author a (unwrap_or [] (HashMap.get m t.author) ++ t ∷ []),
  str_eq_iff t.author a,
)

list_of-insert_tweets :
    (m : HashMap (List Tweet)) (ts : List Tweet) (a : Str)
    → list_of (insert_tweets m ts) a ≡ list_of m a ++ tweets_by a ts
unfolding insert_tweets tweets_by
list_of-insert_tweets m [] a = sym (append-nil (list_of m a))
list_of-insert_tweets m (t ∷ ts) a = elim (Bool-cases (str_eq t.author a)) [
  | inl e ↦
      rw (list_of-insert_tweets (push_tweet m t) ts a, list_of-push_tweet m t a, e)
        (append_assoc (list_of m a) (t ∷ []) (tweets_by a ts))
  | inr e ↦ rw (list_of-insert_tweets (push_tweet m t) ts a, list_of-push_tweet m t a, e)
]

sorted_lists :
    (m : HashMap (List Tweet)) (a : Str)
    → list_of (HashMap.map_values (sort_by by_tweet_id) m) a ≡ sort_by by_tweet_id (list_of m a)
unfolding list_of sort_by
sorted_lists m a = elim (Option-cases (HashMap.get m a)) [
  | inl e ↦ rw (get-map_values (sort_by by_tweet_id) m a, e)
  | inr (l, e) ↦ rw (get-map_values (sort_by by_tweet_id) m a, e)
]

-- After `replace` a handle has the last user of the snapshot that bears it, there is an edge exactly
-- if the snapshot lists it, and an author's list is the author's tweets of the snapshot, sorted by
-- identifier; the state before has no part in it, and no admission check is made.
pub replace_lem :
    (s : StoreSnapshot) (g : Inner) (a b : Str)
    → (user_at (replace s g) a ≡ last_user a s.users none)
      × (follow_edges (replace s g) a b ≡ has_follow a b s.follows)
      × (posts (replace s g) a ≡ sort_by by_tweet_id (tweets_by a s.tweets))
unfolding replace user_at follow_edges posts follow_set list_of edge_in
replace_lem s g a b = (
  rw (get-insert_users HashMap.empty s.users a, get-empty {V = User} a),
  ground (
    arith,
    edge_in-insert_follows HashMap.empty s.follows a b,
    get-empty {V = HashSet} a,
    contains-empty b,
  ),
  rw (
    sorted_lists (insert_tweets HashMap.empty s.tweets) a,
    list_of-insert_tweets HashMap.empty s.tweets a,
    get-empty {V = List Tweet} a,
  ),
)
