-- ===== src/Store/Snapshot/Clean.antt =====
-- Whatever the snapshot is, `replace` of crates/store/src/lib.rs leaves maps with a key once, sets with an
-- element once, and each user under the handle that it bears.
use twitter_rust_formal_veri.Prelude.{
  Str, str_eq, str_eq_iff, ◌≡◌, some, List, [], ◌∷◌, unwrap_or, arith, Bool-cases, inl, inr,
}
use twitter_rust_formal_veri.Std.HashMap
use twitter_rust_formal_veri.Std.HashMap.{
  HashMap, get-insert, get-empty, IsMap-insert, IsMap-empty, IsMap-map_values,
}
use twitter_rust_formal_veri.Std.HashSet
use twitter_rust_formal_veri.Std.HashSet.{HashSet, IsSetOf-insert, IsSetOf-empty}
use twitter_rust_formal_veri.Std.Sort.{sort_by}
use twitter_rust_formal_veri.Domain.{User, Tweet, Follow}
use twitter_rust_formal_veri.Store.{Inner, add_edge, push_tweet, follow_set}
use twitter_rust_formal_veri.Store.Tidy.{IsTidy}
use twitter_rust_formal_veri.Store.Snapshot.{
  StoreSnapshot, replace, insert_users, insert_follows, insert_tweets, by_tweet_id,
}

IsNamed : HashMap User → Type 0
IsNamed users = (h : Str) (u : User) → HashMap.get users h ≡ some u → u.handle ≡ h

insert_users-IsMap :
    (users : HashMap User) (us : List User)
    → HashMap.IsMap users
    → HashMap.IsMap (insert_users users us)
unfolding insert_users
insert_users-IsMap users [] d = d
insert_users-IsMap users (u ∷ us) d =
    insert_users-IsMap (HashMap.insert users u.handle u) us (IsMap-insert users u.handle u d)

insert_users-IsNamed :
    (users : HashMap User) (us : List User) → IsNamed users → IsNamed (insert_users users us)
unfolding insert_users IsNamed
insert_users-IsNamed users [] named = named
insert_users-IsNamed users (u ∷ us) named =
    insert_users-IsNamed (HashMap.insert users u.handle u) us
      λ h v e. ground (arith, get-insert users u.handle h u, str_eq_iff u.handle h, named h v)

AreSets : HashMap HashSet → Type 0
AreSets follows = (h : Str) → HashSet.IsSetOf (unwrap_or HashSet.empty (HashMap.get follows h))

add_edge-AreSets :
    (follows : HashMap HashSet) (from to : Str)
    → AreSets follows
    → AreSets (add_edge follows from to)
unfolding add_edge AreSets
add_edge-AreSets follows from to sets h =
    rw
      (get-insert follows from h
        (HashSet.insert (unwrap_or HashSet.empty (HashMap.get follows from)) to))
      (elim (Bool-cases (str_eq from h)) [
        | inl e ↦
            rw e
              (IsSetOf-insert (unwrap_or HashSet.empty (HashMap.get follows from)) to (sets from))
        | inr e ↦ rw e (sets h)
      ])

insert_follows-IsMap :
    (follows : HashMap HashSet) (fs : List Follow)
    → HashMap.IsMap follows
    → HashMap.IsMap (insert_follows follows fs)
unfolding insert_follows add_edge
insert_follows-IsMap follows [] d = d
insert_follows-IsMap follows (f ∷ fs) d =
    insert_follows-IsMap (add_edge follows f.from f.to) fs (IsMap-insert follows f.from _ d)

insert_follows-AreSets :
    (follows : HashMap HashSet) (fs : List Follow)
    → AreSets follows
    → AreSets (insert_follows follows fs)
unfolding insert_follows
insert_follows-AreSets follows [] sets = sets
insert_follows-AreSets follows (f ∷ fs) sets =
    insert_follows-AreSets (add_edge follows f.from f.to) fs
      (add_edge-AreSets follows f.from f.to sets)

insert_tweets-IsMap :
    (m : HashMap (List Tweet)) (ts : List Tweet)
    → HashMap.IsMap m
    → HashMap.IsMap (insert_tweets m ts)
unfolding insert_tweets push_tweet
insert_tweets-IsMap m [] d = d
insert_tweets-IsMap m (t ∷ ts) d =
    insert_tweets-IsMap (push_tweet m t) ts (IsMap-insert m t.author _ d)

pub replace-IsTidy : (s : StoreSnapshot) (g : Inner) → IsTidy (replace s g)
unfolding replace follow_set AreSets IsNamed
replace-IsTidy s g = record {
  users_map = insert_users-IsMap HashMap.empty s.users (IsMap-empty User);
  follows_map = insert_follows-IsMap HashMap.empty s.follows (IsMap-empty HashSet);
  posts_map =
      IsMap-map_values (sort_by by_tweet_id) (insert_tweets HashMap.empty s.tweets)
        (insert_tweets-IsMap HashMap.empty s.tweets (IsMap-empty (List Tweet)));
  sets =
      insert_follows-AreSets HashMap.empty s.follows
        (λ h. rw (get-empty {V = HashSet} h) IsSetOf-empty);
  handles =
      insert_users-IsNamed HashMap.empty s.users (λ h u e. ground (arith, get-empty {V = User} h));
}
