-- ===== src/Store/Snapshot.antt =====
-- The snapshot of crates/store/src/lib.rs: the state as three lists, and its replacement by them.
pub mod Orders
pub mod Listed
pub mod Edges
pub mod Same
pub mod Replaced
pub mod Rebuilt
pub mod Clean
pub mod Restored
pub mod Closed
use twitter_rust_formal_veri.Prelude.{
  ℕ, compare, Ordering, compare_ℤ, Str, List, [], ◌∷◌, ◌++◌, some, none,
}
use twitter_rust_formal_veri.Std.HashMap
use twitter_rust_formal_veri.Std.HashMap.{HashMap, Iteration}
use twitter_rust_formal_veri.Std.HashSet.{HashSet}
use twitter_rust_formal_veri.Std.Sort.{sort_by, then_with}
use twitter_rust_formal_veri.Domain.{User, Tweet, Follow}
use twitter_rust_formal_veri.Store.{Inner, add_edge, push_tweet}

pub record StoreSnapshot : Type 0 where
  pub users : List User
  pub follows : List Follow
  pub tweets : List Tweet

-- `String::cmp`, which goes by the bytes of UTF-8 and so by the code points
unfoldable pub compare_str : Str → Str → Ordering
compare_str [] [] = Ordering.eq
compare_str [] (b ∷ t) = Ordering.lt
compare_str (a ∷ s) [] = Ordering.gt
compare_str (a ∷ s) (b ∷ t) = then_with (compare a b) (compare_str s t)

abbrev pub by_user_id : User → User → Ordering
by_user_id a b = compare_ℤ a.id b.id

abbrev pub by_tweet_id : Tweet → Tweet → Ordering
by_tweet_id a b = compare_ℤ a.id b.id

unfoldable pub by_edge : Follow → Follow → Ordering
unfolding compare_str
by_edge a b = then_with (compare_str a.from b.from) (compare_str a.to b.to)

-- `for to in set { follows.push(Follow { from, to }) }`
unfoldable pub edges_from : Str → List Str → List Follow
edges_from from [] = []
edges_from from (to ∷ set) = record { from = from; to = to } ∷ edges_from from set

-- `for (from, set) in g.follows.iter()`
unfoldable pub edges : Iteration → HashMap HashSet → List Str → List Follow
unfolding edges_from
edges to_order follows [] = []
edges to_order follows (from ∷ rest) =
    let others = edges to_order follows rest in
    elim (HashMap.get follows from) [
      | some set ↦ edges_from from (to_order.order set.elems) ++ others
      | none ↦ others
    ]

-- `for list in g.by_author.values() { tweets.extend(list) }`
unfoldable pub extend_all : List (List Tweet) → List Tweet
extend_all [] = []
extend_all (list ∷ lists) = list ++ extend_all lists

-- Each of the four passes over a map or a set has an order of its own.
unfoldable pub snapshot : Iteration → Iteration → Iteration → Iteration → Inner → StoreSnapshot
unfolding edges by_edge extend_all
snapshot user_order from_order to_order list_order g = record {
  users = sort_by by_user_id (HashMap.values user_order g.users);
  follows = sort_by by_edge (edges to_order g.follows (from_order.order (HashMap.keys g.follows)));
  tweets = sort_by by_tweet_id (extend_all (HashMap.values list_order g.by_author));
}

unfoldable pub insert_users : HashMap User → List User → HashMap User
insert_users users [] = users
insert_users users (u ∷ rest) = insert_users (HashMap.insert users u.handle u) rest

unfoldable pub insert_follows : HashMap HashSet → List Follow → HashMap HashSet
insert_follows follows [] = follows
insert_follows follows (f ∷ rest) = insert_follows (add_edge follows f.from f.to) rest

unfoldable pub insert_tweets : HashMap (List Tweet) → List Tweet → HashMap (List Tweet)
insert_tweets by_author [] = by_author
insert_tweets by_author (t ∷ rest) = insert_tweets (push_tweet by_author t) rest

-- The maps are cleared first, so nothing of the old state is left.
unfoldable pub replace : StoreSnapshot → Inner → Inner
unfolding insert_users insert_follows insert_tweets
replace s g = record {
  users = insert_users HashMap.empty s.users;
  follows = insert_follows HashMap.empty s.follows;
  by_author = HashMap.map_values (sort_by by_tweet_id) (insert_tweets HashMap.empty s.tweets);
}
