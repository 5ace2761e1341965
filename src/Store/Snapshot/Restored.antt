-- ===== src/Store/Snapshot/Restored.antt =====
-- `replace` by the snapshot of a state of crates/store/src/lib.rs gives the state back, whatever state it
-- replaces.
use mathlib.Core.Logic.Iff
use mathlib.Core.List.Perm
use twitter_rust_formal_veri.Prelude.{
  Str, ◌≡◌, refl, sym, ◌∙◌, subst, ◌↔◌, Bool, true, false, none, some, List, Mem, Nodup, arith,
  Bool-cases, Option-cases, inl, inr,
}
use twitter_rust_formal_veri.Std.HashMap
use twitter_rust_formal_veri.Std.HashMap.{Iteration}
use twitter_rust_formal_veri.Std.Sort.{sort_by, sort_by-perm}
use twitter_rust_formal_veri.Domain.{User, Tweet, Follow}
use twitter_rust_formal_veri.Store.{Inner}
use twitter_rust_formal_veri.Store.Views.{
  user_at, follow_edges, posts, users_keys, user_at-eq-none, user_at_of_users_keys,
}
use twitter_rust_formal_veri.Store.Snapshot.{
  StoreSnapshot, snapshot, replace, by_user_id, by_tweet_id, by_edge,
}
use twitter_rust_formal_veri.Store.Snapshot.Replaced.{last_user, has_follow, tweets_by, replace_lem}
use twitter_rust_formal_veri.Store.Snapshot.Listed.{mem-users, mem-tweets, tweets-Nodup}
use twitter_rust_formal_veri.Store.Snapshot.Edges.{mem-edges}
use twitter_rust_formal_veri.Store.Snapshot.Rebuilt.{
  last_user_kept, last_user_found, mem-has_follow, mem-tweets_by, tweets_by-Nodup,
}
use twitter_rust_formal_veri.Store.Snapshot.Clean.{replace-IsTidy}
use twitter_rust_formal_veri.Store.Snapshot.Same.{IsSane, SameState}

eq_of_iff : (x y : Bool) → ((x ≡ true) ↔ (y ≡ true)) → x ≡ y
eq_of_iff true y (to, from) = sym (to refl)
eq_of_iff false true (to, from) = from refl
eq_of_iff false false same = refl

mem-sorted_users : (us : List User) (u : User) → Mem u (sort_by by_user_id us) ↔ Mem u us
mem-sorted_users us u = Perm.mem_iff (sort_by-perm by_user_id us)

module _ (i j k l : Iteration) (g : Inner) (p : IsSane g) where
  abbrev taken : StoreSnapshot
  taken = snapshot i j k l g

  mem-taken_users : (u : User) → Mem u taken.users ↔ (user_at g u.handle ≡ some u)
  unfolding snapshot
  mem-taken_users u =
      Iff.trans (mem-sorted_users (HashMap.values i g.users) u) (mem-users i g p.valid.tidy u)

  mem-taken_follows : (f : Follow) → Mem f taken.follows ↔ (follow_edges g f.from f.to ≡ true)
  unfolding snapshot
  mem-taken_follows f =
      Iff.trans (Perm.mem_iff (sort_by-perm by_edge _)) (mem-edges j k g p.valid.tidy f)

  mem-taken_tweets : (t : Tweet) → Mem t taken.tweets ↔ Mem t (posts g t.author)
  unfolding snapshot
  mem-taken_tweets t =
      Iff.trans (Perm.mem_iff (sort_by-perm by_tweet_id _)) (mem-tweets l g p.valid t)

  taken_tweets-Nodup : Nodup taken.tweets
  unfolding snapshot
  taken_tweets-Nodup =
      Perm.nodup (Perm.symm (sort_by-perm by_tweet_id _)) (tweets-Nodup l g p.valid p.tweets)

  handle_of : (h : Str) (u : User) → user_at g h ≡ some u → u.handle ≡ h
  unfolding user_at
  handle_of h u e = p.valid.tidy.handles h u e

  restored_user : (h : Str) → last_user h taken.users none ≡ user_at g h
  restored_user h = elim (Option-cases (user_at g h)) [
    | inl e ↦ rw e (
        last_user_kept h taken.users none
          λ u m own. sym e ∙ subst (λ x. user_at g x ≡ some u) own ((mem-taken_users u).0 m))
    | inr (u, e) ↦
        let own = handle_of h u e in
        rw e (
          last_user_found h taken.users none u
            (λ v m same. sym e ∙ subst (λ x. user_at g x ≡ some v) same ((mem-taken_users v).0 m))
            ((mem-taken_users u).1 (subst (λ x. user_at g x ≡ some u) (sym own) e)) own)
  ]

  module _ (old : Inner) where
    abbrev restored : Inner
    restored = replace taken old

    pub restored-SameState : SameState restored g
    restored-SameState = record {
      users = λ h. (replace_lem taken old h h).0 ∙ restored_user h;
      edges = λ a b.
          (replace_lem taken old a b).1
          ∙ eq_of_iff (has_follow a b taken.follows) (follow_edges g a b) (
              Iff.trans (Iff.symm (mem-has_follow a b taken.follows))
                (mem-taken_follows (record { from = a; to = b })));
      tweets = λ a t. rw ((replace_lem taken old a a).2) (
          Iff.trans (Perm.mem_iff (sort_by-perm by_tweet_id (tweets_by a taken.tweets)))
            (Iff.trans (mem-tweets_by a taken.tweets t) (of_author a t)));
    }
      where
        of_author :
            (a : Str) (t : Tweet) → ((t.author ≡ a) × Mem t taken.tweets) ↔ Mem t (posts g a)
        of_author a t =
            let (to, from) = mem-taken_tweets t in
            (
              λ q. subst (λ x. Mem t (posts g x)) (q.0) (to (q.1)),
              λ m.
                  let own = p.valid.author a t m in
                  (own, from (subst (λ x. Mem t (posts g x)) (sym own) m)),
            )

    registered_too : (h : Str) → users_keys restored h ≡ users_keys g h
    registered_too h = elim (Bool-cases (users_keys g h)) [
      | inl e ↦
          let (u, found) = user_at_of_users_keys g h e in
          ground (arith, found, restored-SameState.users h, user_at-eq-none restored h)
      | inr e ↦ elim (Bool-cases (users_keys restored h)) [
        | inl e' ↦
            let (u, found) = user_at_of_users_keys restored h e' in
            absurd (ground (arith, found, restored-SameState.users h, user_at-eq-none g h e))
        | inr e' ↦ e' ∙ sym e
      ]
    ]

    pub restored-IsSane : IsSane restored
    restored-IsSane =
        let same = restored-SameState in
        record {
          valid = record {
            tidy = replace-IsTidy taken old;
            edge_from =
                λ a b e. rw (registered_too a) (p.valid.edge_from a b (sym (same.edges a b) ∙ e));
            edge_to =
                λ a b e. rw (registered_too b) (p.valid.edge_to a b (sym (same.edges a b) ∙ e));
            no_self = λ a. same.edges a a ∙ p.valid.no_self a;
            author = λ a t m. p.valid.author a t ((same.tweets a t).0 m);
            known = λ a t m. rw (registered_too a) (p.valid.known a t ((same.tweets a t).0 m));
          };
          tweets = record {
            once = λ a. rw ((replace_lem taken old a a).2) (
                Perm.nodup (Perm.symm (sort_by-perm by_tweet_id (tweets_by a taken.tweets)))
                  (tweets_by-Nodup a taken.tweets taken_tweets-Nodup));
            injective = λ a b t u m n.
                p.tweets.injective a b t u ((same.tweets a t).0 m) ((same.tweets b u).0 n);
          };
          users =
              λ h h' u v e e'. p.users h h' u v (sym (same.users h) ∙ e) (sym (same.users h') ∙ e');
        }
