-- ===== src/Store/Snapshot/Closed.antt =====
-- Snapshots of crates/store/src/lib.rs that a store can be loaded from: `replace` checks nothing itself.
use mathlib.Core.HLevel.{¬_prop}
use mathlib.Core.List.{mem-cons, not-mem-nil}
use mathlib.Core.Logic.Or
use mathlib.Core.List.Perm
use twitter_rust_formal_veri.Prelude.{
  Str, str_eq, str_eq_iff, str_eq_refl, ◌≡◌, ◌≢◌, sym, ◌∙◌, subst, true, false, Bool-cases, inl,
  inr, Option, none, some, List, [], ◌∷◌, Mem, arith, ap,
}
use twitter_rust_formal_veri.Std.HashMap.{Iteration}
use twitter_rust_formal_veri.Std.Sort.{sort_by-perm}
use twitter_rust_formal_veri.Domain.{User, Tweet, Follow}
use twitter_rust_formal_veri.Store.{Inner}
use twitter_rust_formal_veri.Store.Views.{
  user_at, users_keys, follow_edges, posts, user_at_of_users_keys, user_at-eq-none,
}
use twitter_rust_formal_veri.Store.Valid.{IsFiled, IsValid}
use twitter_rust_formal_veri.Store.Snapshot.{
  StoreSnapshot, snapshot, replace, by_user_id, by_edge, by_tweet_id,
}
use twitter_rust_formal_veri.Store.Snapshot.Replaced.{last_user, tweets_by, replace_lem}
use twitter_rust_formal_veri.Store.Snapshot.Rebuilt.{mem-has_follow, mem-tweets_by}
use twitter_rust_formal_veri.Store.Snapshot.Listed.{mem-users, mem-tweets}
use twitter_rust_formal_veri.Store.Snapshot.Edges.{mem-edges}
use twitter_rust_formal_veri.Store.Snapshot.Clean.{replace-IsTidy}

abbrev pub Lists : StoreSnapshot → Str → Type 0
Lists s h = (u : User) × Mem u s.users × (u.handle ≡ h)

-- Follows join listed handles, two different ones each, and tweets are of listed authors.
pub record IsClosed (s : StoreSnapshot) : Type 0 where
  pub from : (f : Follow) → Mem f s.follows → Lists s f.from
  pub to : (f : Follow) → Mem f s.follows → Lists s f.to
  pub apart : (f : Follow) → Mem f s.follows → str_eq f.from f.to ≡ false
  pub author : (t : Tweet) → Mem t s.tweets → Lists s t.author

last_user_kept_some : (h : Str) (us : List User) (v : User) → last_user h us (some v) ≢ none
unfolding last_user
last_user_kept_some h [] v = λ e. ground arith
last_user_kept_some h (x ∷ us) v = elim (Bool-cases (str_eq x.handle h)) [
  | inl e ↦ rw e (last_user_kept_some h us x)
  | inr e ↦ rw e (last_user_kept_some h us v)
]

last_user_listed :
    (h : Str) (us : List User) (old : Option User) (u : User)
    → Mem u us
    → u.handle ≡ h
    → last_user h us old ≢ none
unfolding last_user
last_user_listed h [] old u m own = absurd (not-mem-nil m)
last_user_listed h (x ∷ us) old u m own = elim (Bool-cases (str_eq x.handle h)) [
  | inl e ↦ rw e (last_user_kept_some h us x)
  | inr e ↦ rw e (
      Or.elim ¬_prop (mem-cons.0 m)
        (λ same. absurd (ground (arith, str_eq_iff x.handle h, ap (λ (v : User). v.handle) same)))
        λ later. last_user_listed h us old u later own)
]

module _ (s : StoreSnapshot) (old : Inner) where
  listed_known : (h : Str) → Lists s h → users_keys (replace s old) h ≡ true
  listed_known h (u, m, own) = elim (Bool-cases (users_keys (replace s old) h)) [
    | inl e ↦ e
    | inr e ↦ absurd (
        last_user_listed h s.users none u m own
          (sym (replace_lem s old h h).0 ∙ user_at-eq-none (replace s old) h e))
  ]

  loaded_follow :
      (a b : Str)
      → follow_edges (replace s old) a b ≡ true
      → Mem (record { from = a; to = b }) s.follows
  loaded_follow a b e = (mem-has_follow a b s.follows).1 (sym (replace_lem s old a b).1 ∙ e)

  loaded_tweet :
      (a : Str) (t : Tweet) → Mem t (posts (replace s old) a) → (t.author ≡ a) × Mem t s.tweets
  loaded_tweet a t m = (mem-tweets_by a s.tweets t).0 (
      (Perm.mem_iff (sort_by-perm by_tweet_id (tweets_by a s.tweets))).0
        (rw ((replace_lem s old a a).2) at m))

  -- Whatever is loaded, the lists hold tweets of their author alone.
  replace-IsFiled : IsFiled (replace s old)
  replace-IsFiled a t m = (loaded_tweet a t m).0

  -- A closed snapshot is loaded into a valid store, whatever the store was.
  pub replace-IsValid : IsClosed s → IsValid (replace s old)
  replace-IsValid c = record {
    tidy = replace-IsTidy s old;
    edge_from = λ a b e. listed_known a (c.from _ (loaded_follow a b e));
    edge_to = λ a b e. listed_known b (c.to _ (loaded_follow a b e));
    no_self = λ a. elim (Bool-cases (follow_edges (replace s old) a a)) [
      | inl e ↦ absurd (ground (arith, c.apart _ (loaded_follow a a e), str_eq_refl a))
      | inr e ↦ e
    ];
    author = replace-IsFiled;
    known = λ a t m.
        let (own, listed) = loaded_tweet a t m in
        listed_known a (subst (Lists s) own (c.author t listed));
  }

module _ (i j m l : Iteration) (g : Inner) (p : IsValid g) where
  known_listed : (h : Str) → users_keys g h ≡ true → Lists (snapshot i j m l g) h
  unfolding snapshot user_at
  known_listed h e =
      let (u, found) = user_at_of_users_keys g h e in
      let own = p.tidy.handles h u found in
      (
        u,
        (Perm.mem_iff (sort_by-perm by_user_id _)).1
            ((mem-users i g p.tidy u).1 (subst (λ x. user_at g x ≡ some u) (sym own) found)),
        own,
      )

  dumped_follow :
      (f : Follow) → Mem f (snapshot i j m l g).follows → follow_edges g f.from f.to ≡ true
  unfolding snapshot
  dumped_follow f n = (mem-edges j m g p.tidy f).0 ((Perm.mem_iff (sort_by-perm by_edge _)).0 n)

  -- The dump of a valid store is closed.
  pub snapshot-IsClosed : IsClosed (snapshot i j m l g)
  unfolding snapshot
  snapshot-IsClosed = record {
    from = λ f n. known_listed f.from (p.edge_from f.from f.to (dumped_follow f n));
    to = λ f n. known_listed f.to (p.edge_to f.from f.to (dumped_follow f n));
    apart = λ f n. elim (Bool-cases (str_eq f.from f.to)) [
      | inl e ↦ absurd (
          ground (
            arith,
            p.no_self f.from,
            subst (λ x. follow_edges g f.from x ≡ true) (sym ((str_eq_iff f.from f.to).0 e))
                (dumped_follow f n),
          ))
      | inr e ↦ e
    ];
    author = λ t n. known_listed t.author (
        p.known t.author t
          ((mem-tweets l g p t).0 ((Perm.mem_iff (sort_by-perm by_tweet_id _)).0 n)));
  }
