-- ===== src/Store.antt =====
-- crates/store/src/lib.rs: the in-memory state. A method that takes the `RwLock` for writing is one
-- step from a state to the next, and one that takes it for reading a function of the state.
pub mod Views
pub mod Tidy
pub mod Valid
pub mod Unique
pub mod Contracts
pub mod Timeline
pub mod Snapshot
pub mod VerusProof
pub mod Logical
use twitter_rust_formal_veri.Prelude.{
  ℕ, compare_ℤ, Str, lit, Ordering, Bool, not, ◌&&◌, Option, none, some, List, [], ◌∷◌, ◌++◌,
  Result, ok, err, length, take, unwrap_or, ltb, if◌then◌else◌,
}
use twitter_rust_formal_veri.Std.HashMap
use twitter_rust_formal_veri.Std.HashMap.{HashMap, Iteration}
use twitter_rust_formal_veri.Std.HashSet
use twitter_rust_formal_veri.Std.HashSet.{HashSet}
use twitter_rust_formal_veri.Std.Sort.{sort_by, then_with}
use twitter_rust_formal_veri.Domain.{User, Tweet, Follow}

pub data StoreError : Type 0 where
  unknown_user duplicate_user : StoreError

-- `impl Display for StoreError`
unfoldable pub fmt : StoreError → Str
fmt unknown_user = lit "unknown_user"
fmt duplicate_user = lit "duplicate_user"

-- What the lock of `MemStore` protects.
pub record Inner : Type 0 where
  pub users : HashMap User
  pub follows : HashMap HashSet
  pub by_author : HashMap (List Tweet)

-- `MemStore::new`
unfoldable pub new : Inner
new = record { users = HashMap.empty; follows = HashMap.empty; by_author = HashMap.empty }

unfoldable pub put_user : User → Inner → Result StoreError (Unit {0}) × Inner
put_user u g =
    if HashMap.contains_key g.users u.handle
    then (err duplicate_user, g)
    else (ok tt, record g { users = HashMap.insert g.users u.handle u })

unfoldable pub has_user : Inner → Str → Bool
has_user g handle = HashMap.contains_key g.users handle

-- `follows.entry(from).or_default().insert(to)`
unfoldable pub add_edge : HashMap HashSet → Str → Str → HashMap HashSet
add_edge follows from to =
    HashMap.insert follows from
      (HashSet.insert (unwrap_or HashSet.empty (HashMap.get follows from)) to)

unfoldable pub put_follow : Follow → Inner → Result StoreError (Unit {0}) × Inner
unfolding add_edge
put_follow f g =
    if not (HashMap.contains_key g.users f.from)
    then (err unknown_user, g)
    else if not (HashMap.contains_key g.users f.to)
    then (err unknown_user, g)
    else (ok tt, record g { follows = add_edge g.follows f.from f.to })

unfoldable pub delete_follow : Str → Str → Inner → Inner
delete_follow from to g = elim (HashMap.get g.follows from) [
  | some set ↦ record g { follows = HashMap.insert g.follows from (HashSet.remove set to) }
  | none ↦ g
]

-- `by_author.entry(t.author.clone()).or_default().push(t)`
unfoldable pub push_tweet : HashMap (List Tweet) → Tweet → HashMap (List Tweet)
push_tweet by_author t =
    HashMap.insert by_author t.author (unwrap_or [] (HashMap.get by_author t.author) ++ t ∷ [])

unfoldable pub put_tweet : Tweet → Inner → Result StoreError (Unit {0}) × Inner
unfolding push_tweet
put_tweet t g =
    if not (HashMap.contains_key g.users t.author)
    then (err unknown_user, g)
    else (ok tt, record g { by_author = push_tweet g.by_author t })

unfoldable pub follow_set : Inner → Str → HashSet
follow_set g from = unwrap_or HashSet.empty (HashMap.get g.follows from)

-- The comparator of the timeline: newest first, then the larger identifier first.
unfoldable pub newest_first : Tweet → Tweet → Ordering
newest_first a b = then_with (compare_ℤ b.created_at a.created_at) (compare_ℤ b.id a.id)

-- `for to in set { authors.insert(to) }`
unfoldable pub insert_all : HashSet → List Str → HashSet
insert_all authors [] = authors
insert_all authors (to ∷ rest) = insert_all (HashSet.insert authors to) rest

-- `for a in &authors { if let Some(list) = by_author.get(a) { collected.extend(list) } }`
unfoldable pub collect : HashMap (List Tweet) → List Tweet → List Str → List Tweet
collect by_author collected [] = collected
collect by_author collected (a ∷ rest) =
    collect by_author
      (elim (HashMap.get by_author a) [ some list ↦ collected ++ list | none ↦ collected ]) rest

-- The authors whose tweets `user` sees.
unfoldable pub authors_of : Iteration → Inner → Str → HashSet
unfolding insert_all
authors_of followed g user = elim (HashMap.get g.follows user) [
  | some set ↦ insert_all (HashSet.insert HashSet.empty user) (followed.order set.elems)
  | none ↦ HashSet.insert HashSet.empty user
]

-- `if limit > 0 && collected.len() > limit { collected.truncate(limit) }`
unfoldable pub limit_to : ℕ → List Tweet → List Tweet
limit_to limit collected =
    if ltb 0 limit && ltb limit (length collected) then take limit collected else collected

-- `followed` and `authors` are the orders in which the two loops meet the elements of their sets.
unfoldable pub home_timeline : Iteration → Iteration → Inner → Str → ℕ → List Tweet
unfolding authors_of collect newest_first limit_to
home_timeline followed authors g user limit = limit_to limit (
    sort_by newest_first
      (collect g.by_author [] (authors.order (authors_of followed g user).elems)))
