-- ===== src/Store/Tidy.antt =====
-- The representation in crates/store/src/lib.rs: each map has a key once, each set an element once,
-- and a user stands under the handle that it bears. Every operation keeps this.
use twitter_rust_formal_veri.Prelude.{
  Str, str_eq, str_eq_iff, ◌≡◌, ◌&&◌, some, List, unwrap_or, arith, if◌then◌else◌, Bool-cases,
  Option-cases, inl, inr, ◌⊎◌,
}
use twitter_rust_formal_veri.Std.HashMap
use twitter_rust_formal_veri.Std.HashMap.{
  get-insert, get-empty, IsMap-insert, IsMap-empty, contains_key-empty,
}
use twitter_rust_formal_veri.Std.HashSet
use twitter_rust_formal_veri.Std.HashSet.{HashSet, IsSetOf-insert, IsSetOf-remove, IsSetOf-empty}
use twitter_rust_formal_veri.Domain.{User, Tweet, Follow}
use twitter_rust_formal_veri.Store.{
  Inner, new, put_user, put_follow, delete_follow, put_tweet, follow_set, add_edge,
}
use twitter_rust_formal_veri.Store.Views.{users_keys}

pub record IsTidy (g : Inner) : Type 0 where
  pub users_map : HashMap.IsMap g.users
  pub follows_map : HashMap.IsMap g.follows
  pub posts_map : HashMap.IsMap g.by_author
  pub sets : (h : Str) → HashSet.IsSetOf (follow_set g h)
  pub handles : (h : Str) (u : User) → HashMap.get g.users h ≡ some u → u.handle ≡ h

pub IsTidy-new : IsTidy new
unfolding new follow_set
IsTidy-new = record {
  users_map = IsMap-empty User;
  follows_map = IsMap-empty HashSet;
  posts_map = IsMap-empty (List Tweet);
  sets = λ h. rw get-empty IsSetOf-empty;
  handles = λ h u e. ground (arith, get-empty {V = User} h);
}

pub put_user-IsTidy : (u : User) (g : Inner) → IsTidy g → IsTidy (put_user u g).1
unfolding put_user follow_set
put_user-IsTidy u g t = elim (Bool-cases (HashMap.contains_key g.users u.handle)) [
  | inl old ↦ rw old t
  | inr new ↦ rw new (record {
    users_map = IsMap-insert g.users u.handle u t.users_map;
    follows_map = t.follows_map;
    posts_map = t.posts_map;
    sets = t.sets;
    handles = λ h v e.
        ground (arith, get-insert g.users u.handle h u, str_eq_iff u.handle h, t.handles h v);
  })
]

-- What `follow_set` returns after each operation on the edges.
pub follow_set-put_follow :
    (f : Follow) (g : Inner) (h : Str)
    → follow_set (put_follow f g).1 h ≡ (
        if users_keys g f.from && users_keys g f.to && str_eq f.from h
        then HashSet.insert (follow_set g h) f.to
        else follow_set g h)
unfolding follow_set put_follow users_keys
follow_set-put_follow f g h = ground (
  arith,
  get-insert g.follows f.from h
      (HashSet.insert (unwrap_or HashSet.empty (HashMap.get g.follows f.from)) f.to),
  str_eq_iff f.from h,
)

pub follow_set-delete_follow :
    (from to : Str) (g : Inner) (h : Str)
    → follow_set (delete_follow from to g) h
      ≡ (if str_eq from h then HashSet.remove (follow_set g h) to else follow_set g h)
unfolding follow_set delete_follow
follow_set-delete_follow from to g h = elim (Option-cases (HashMap.get g.follows from)) [
  | inl e ↦
      ground (
        arith,
        str_eq_iff from h,
        HashSet.remove_absent HashSet.empty to (HashSet.contains-empty to),
      )
  | inr (set, e) ↦
      ground (arith, get-insert g.follows from h (HashSet.remove set to), str_eq_iff from h)
]

put_follow-sets :
    (f : Follow) (g : Inner) (h : Str)
    → HashSet.IsSetOf (follow_set g h)
    → HashSet.IsSetOf (follow_set (put_follow f g).1 h)
put_follow-sets f g h s =
    rw (follow_set-put_follow f g h)
      (elim (Bool-cases (users_keys g f.from && users_keys g f.to && str_eq f.from h)) [
        | inl e ↦ rw e (IsSetOf-insert (follow_set g h) f.to s)
        | inr e ↦ rw e s
      ])

put_follow_cases :
    (f : Follow) (g : Inner)
    → ((put_follow f g).1 ≡ g)
      ⊎ ((put_follow f g).1 ≡ record g { follows = add_edge g.follows f.from f.to })
unfolding put_follow
put_follow_cases f g = ground arith

pub put_follow-IsTidy : (f : Follow) (g : Inner) → IsTidy g → IsTidy (put_follow f g).1
unfolding add_edge
put_follow-IsTidy f g t = elim (put_follow_cases f g) [
  | inl same ↦ rw same t
  | inr added ↦
      let sets = λ (h : Str). put_follow-sets f g h (t.sets h) in
      rw added (record {
        users_map = t.users_map;
        follows_map = IsMap-insert g.follows f.from _ t.follows_map;
        posts_map = t.posts_map;
        sets = rw added at sets;
        handles = t.handles;
      })
]

delete_follow-sets :
    (from to : Str) (g : Inner) (h : Str)
    → HashSet.IsSetOf (follow_set g h)
    → HashSet.IsSetOf (follow_set (delete_follow from to g) h)
delete_follow-sets from to g h s =
    rw (follow_set-delete_follow from to g h) (elim (Bool-cases (str_eq from h)) [
      | inl e ↦ rw e (IsSetOf-remove (follow_set g h) to s)
      | inr e ↦ rw e s
    ])

delete_follow_cases :
    (from to : Str) (g : Inner)
    → (delete_follow from to g ≡ g)
      ⊎ (delete_follow from to g ≡ record g {
        follows = HashMap.insert g.follows from (HashSet.remove (follow_set g from) to);
      })
unfolding delete_follow follow_set
delete_follow_cases from to g = ground arith

pub delete_follow-IsTidy : (from to : Str) (g : Inner) → IsTidy g → IsTidy (delete_follow from to g)
delete_follow-IsTidy from to g t = elim (delete_follow_cases from to g) [
  | inl same ↦ rw same t
  | inr removed ↦
      let sets = λ (h : Str). delete_follow-sets from to g h (t.sets h) in
      rw removed (record {
        users_map = t.users_map;
        follows_map = IsMap-insert g.follows from _ t.follows_map;
        posts_map = t.posts_map;
        sets = rw removed at sets;
        handles = t.handles;
      })
]

pub put_tweet-IsTidy : (t : Tweet) (g : Inner) → IsTidy g → IsTidy (put_tweet t g).1
unfolding put_tweet follow_set
put_tweet-IsTidy t g v = elim (Bool-cases (HashMap.contains_key g.users t.author)) [
  | inl known ↦ rw known (record {
    users_map = v.users_map;
    follows_map = v.follows_map;
    posts_map = IsMap-insert g.by_author t.author _ v.posts_map;
    sets = v.sets;
    handles = v.handles;
  })
  | inr unknown ↦ rw unknown v
]
