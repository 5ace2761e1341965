-- ===== src/Store/VerusProof/Bodies.antt =====
-- The bodies of the shims of the module `verus_proof` in crates/store/src/lib.rs, and that they meet
-- the contracts that it trusts.
use twitter_rust_formal_veri.Prelude.{
  ℕ, ◌+◌, Str, str_eq, str_eq_iff, ◌≡◌, refl, Bool, false, ◌&&◌, ◌||◌, none, some, List, [], ◌∷◌,
  ◌++◌, ltb, length, take, length-append, unwrap_or, arith, if◌then◌else◌,
}
use twitter_rust_formal_veri.Std.HashMap
use twitter_rust_formal_veri.Std.HashMap.{Iteration, get-insert, contains_key-insert}
use twitter_rust_formal_veri.Std.HashSet
use twitter_rust_formal_veri.Std.HashSet.{HashSet, contains-empty, contains-insert}
use twitter_rust_formal_veri.Std.Sort.{sort_by}
use twitter_rust_formal_veri.Domain.{User, Tweet}
use twitter_rust_formal_veri.Store.{
  Inner, add_edge, push_tweet, delete_follow, follow_set, insert_all, collect, newest_first,
}
use twitter_rust_formal_veri.Store.Views.{
  users_keys, follow_edges, author_tweet_count, posts, follow_edges-delete_follow,
}
use twitter_rust_formal_veri.Store.VerusProof.{Shims}

unfoldable pub proof_users_contains : Inner → Str → Bool
proof_users_contains s handle = HashMap.contains_key s.users handle

unfoldable pub proof_users_insert : User → Inner → Inner
proof_users_insert u s = record s { users = HashMap.insert s.users u.handle u }

unfoldable pub proof_follow_contains : Inner → Str → Str → Bool
proof_follow_contains s from to = elim (HashMap.get s.follows from) [
  | some set ↦ HashSet.contains set to
  | none ↦ false
]

unfoldable pub proof_follow_insert : Str → Str → Inner → Inner
unfolding add_edge
proof_follow_insert from to s = record s { follows = add_edge s.follows from to }

unfoldable pub proof_follow_remove : Str → Str → Inner → Inner
proof_follow_remove from to s = elim (HashMap.get s.follows from) [
  | some set ↦ record s { follows = HashMap.insert s.follows from (HashSet.remove set to) }
  | none ↦ s
]

unfoldable pub proof_can_post_tweet : Inner → Str → Bool
proof_can_post_tweet s author = HashMap.contains_key s.users author

unfoldable pub proof_append_tweet : Tweet → Inner → Inner
unfolding push_tweet
proof_append_tweet t s = record s { by_author = push_tweet s.by_author t }

unfoldable pub proof_follow_set : Inner → Str → HashSet
proof_follow_set s from = unwrap_or HashSet.empty (HashMap.get s.follows from)

-- The two loops, over the orders in which they meet their sets.
unfoldable pub gathered : Iteration → Iteration → Inner → Str → List Tweet
unfolding insert_all collect
gathered followed authors s user =
    let reader = HashSet.insert HashSet.empty user in
    let seen : HashSet = elim (HashMap.get s.follows user) [
      | some set ↦ insert_all reader (followed.order set.elems)
      | none ↦ reader
    ] in
    collect s.by_author [] (authors.order seen.elems)

unfoldable pub proof_home_timeline : Iteration → Iteration → Inner → Str → ℕ → List Tweet
unfolding gathered newest_first
proof_home_timeline followed authors s user limit =
    let collected = sort_by newest_first (gathered followed authors s user) in
    if ltb 0 limit && ltb limit (length collected) then take limit collected else collected

pub follow_contains_lem :
    (s : Inner) (from to : Str) → proof_follow_contains s from to ≡ follow_edges s from to
unfolding proof_follow_contains follow_edges follow_set
follow_contains_lem s from to = ground (arith, contains-empty to)

pub follow_insert_lem :
    (from to : Str) (s : Inner) (a b : Str)
    → follow_edges (proof_follow_insert from to s) a b
      ≡ ((str_eq from a && str_eq to b) || follow_edges s a b)
unfolding proof_follow_insert add_edge follow_edges follow_set
follow_insert_lem from to s a b = ground (
  arith,
  get-insert s.follows from a
      (HashSet.insert (unwrap_or HashSet.empty (HashMap.get s.follows from)) to),
  contains-insert (unwrap_or HashSet.empty (HashMap.get s.follows from)) to b,
  str_eq_iff from a,
)

pub follow_remove_users :
    (from to : Str) (s : Inner) (h : Str)
    → users_keys (proof_follow_remove from to s) h ≡ users_keys s h
unfolding proof_follow_remove users_keys
follow_remove_users from to s h = ground arith

pub append_tweet_count :
    (t : Tweet) (s : Inner)
    → author_tweet_count (proof_append_tweet t s) t.author ≡ author_tweet_count s t.author + 1
unfolding proof_append_tweet push_tweet author_tweet_count posts
append_tweet_count t s = ground (
  arith,
  get-insert s.by_author t.author t.author (posts s t.author ++ t ∷ []),
  length-append (posts s t.author) (t ∷ []),
  str_eq_iff t.author t.author,
)

pub append_tweet_others :
    (t : Tweet) (s : Inner) (other : Str)
    → str_eq t.author other ≡ false
    → author_tweet_count (proof_append_tweet t s) other ≡ author_tweet_count s other
unfolding proof_append_tweet push_tweet author_tweet_count posts
append_tweet_others t s other apart =
    ground (arith, get-insert s.by_author t.author other (posts s t.author ++ t ∷ []))

-- The store behind the lock, with the orders in which a timeline meets its sets.
unfoldable pub store_shims : Iteration → Iteration → Shims Inner
unfolding users_keys follow_edges follow_set author_tweet_count posts proof_users_contains
    proof_users_insert proof_follow_insert proof_follow_remove proof_can_post_tweet
    proof_append_tweet delete_follow
store_shims followed authors = record {
  users_keys = users_keys;
  follow_edges = follow_edges;
  author_tweet_count = author_tweet_count;
  users = record {
    proof_users_contains = proof_users_contains;
    users_contains_ensures = λ s handle. refl;
    proof_users_insert = proof_users_insert;
    users_insert_ensures = λ u s h. contains_key-insert s.users u.handle h u;
  };
  follows = record {
    proof_follow_contains = proof_follow_contains;
    follow_contains_ensures = follow_contains_lem;
    proof_follow_insert = proof_follow_insert;
    follow_insert_edges = follow_insert_lem;
    follow_insert_users = λ from to s h. refl;
    proof_follow_remove = proof_follow_remove;
    follow_remove_edges = follow_edges-delete_follow;
    follow_remove_users = follow_remove_users;
  };
  tweets = record {
    proof_can_post_tweet = proof_can_post_tweet;
    can_post_tweet_ensures = λ s author. refl;
    proof_append_tweet = proof_append_tweet;
    append_tweet_count = append_tweet_count;
    append_tweet_others = append_tweet_others;
    append_tweet_users = λ t s h. refl;
    append_tweet_edges = λ t s a b. refl;
  };
  follow_sets = record { proof_follow_set = proof_follow_set };
  timelines = record { proof_home_timeline = proof_home_timeline followed authors };
}
