-- ===== src/Store/Snapshot/Listed.antt =====
-- What `snapshot` of crates/store/src/lib.rs lists: each user, each edge and each tweet of the state
-- once, in an order that the state alone determines.
use mathlib.Core.HLevel.{hedberg}
use mathlib.Core.Logic.Iff
use mathlib.Core.Logic.Or
use mathlib.Core.List.{mem-cons, mem-cons_self, not-mem-nil, Nodup-nil, Nodup-cons}
use mathlib.Core.List.Perm
use twitter_rust_formal_veri.Prelude.{
  Str, ◌≡◌, refl, sym, ap, ◌∙◌, subst, ◌↔◌, true, some, List, [], ◌∷◌, ◌++◌, Mem, Nodup, arith,
  unwrap_or, Bool-cases, Option-cases, inl, inr,
}
use twitter_rust_formal_veri.Prelude.Gather.{gather, mem-gather, gather-Nodup}
use twitter_rust_formal_veri.Std.HashMap
use twitter_rust_formal_veri.Std.HashMap.{HashMap, Iteration, entry_at}
use twitter_rust_formal_veri.Domain.{User, Tweet, User-discrete}
use twitter_rust_formal_veri.Store.{Inner}
use twitter_rust_formal_veri.Store.Views.{user_at, posts}
use twitter_rust_formal_veri.Store.Tidy.{IsTidy}
use twitter_rust_formal_veri.Store.Valid.{IsValid}
use twitter_rust_formal_veri.Store.Unique.{HasUniqueIds}
use twitter_rust_formal_veri.Store.Snapshot.{extend_all}

module _ {V : Type 0} (V_set : IsSet V) (m : HashMap V) where
  mem-entry_at : (k : Str) (v : V) → Mem v (entry_at m k) ↔ (HashMap.get m k ≡ some v)
  mem-entry_at k v = elim (Option-cases (HashMap.get m k)) [
    | inl e ↦ rw (e, entry_at) (λ h. absurd (not-mem-nil h), λ h. cc)
    | inr (w, e) ↦
        rw (e, entry_at)
          (
            λ h. ap some (
                sym (
                  Or.elim (V_set v w) (mem-cons.0 h) (λ same. same)
                    λ left. absurd (not-mem-nil left))),
            λ h. let same : w ≡ v = cc in subst (λ x. Mem x (w ∷ [])) same mem-cons_self,
          )
  ]

  entry_at-Nodup : (k : Str) → Nodup (entry_at m k)
  entry_at-Nodup k = elim (Option-cases (HashMap.get m k)) [
    | inl e ↦ rw (e, entry_at) Nodup-nil
    | inr (w, e) ↦ rw (e, entry_at) (Nodup-cons.1 (not-mem-nil, Nodup-nil))
  ]

User_set : IsSet User
User_set = hedberg User-discrete

pub contains_key_of_get :
    {V : Type 0} (m : HashMap V) (k : Str) (v : V)
    → HashMap.get m k ≡ some v
    → HashMap.contains_key m k ≡ true
contains_key_of_get m k v e = ground (arith, HashMap.get-eq-none m k)

module _ (i : Iteration) {V : Type 0} (m : HashMap V) where
  pub mem-walked : (k : Str) → Mem k (i.order (HashMap.keys m)) ↔ (HashMap.contains_key m k ≡ true)
  mem-walked k = Iff.trans (Perm.mem_iff (i.perm (HashMap.keys m))) (HashMap.mem-keys m k)

  pub walked-Nodup : HashMap.IsMap m → Nodup (i.order (HashMap.keys m))
  walked-Nodup d = Perm.nodup (Perm.symm (i.perm (HashMap.keys m))) d

-- The users, in the order in which the map is walked.
module _ (i : Iteration) (g : Inner) (t : IsTidy g) where
  user_own : (h : Str) (u : User) → Mem u (entry_at g.users h) → u.handle ≡ h
  user_own h u m = t.handles h u ((mem-entry_at User_set g.users h u).0 m)

  pub mem-users : (u : User) → Mem u (HashMap.values i g.users) ↔ (user_at g u.handle ≡ some u)
  unfolding user_at
  mem-users u = rw (HashMap.values-gather i g.users) (
      let (to, from) =
        mem-gather (λ (v : User). v.handle) (entry_at g.users) user_own
          (i.order (HashMap.keys g.users)) u in
      let (found, listed) = mem-entry_at User_set g.users u.handle u in
      (
        λ m. found (to m).1,
        λ e. from (
          (mem-walked i g.users u.handle).1 (contains_key_of_get g.users u.handle u e),
          listed e,
        ),
      ))

  pub users-Nodup : Nodup (HashMap.values i g.users)
  users-Nodup = rw (HashMap.values-gather i g.users) (
      gather-Nodup (λ (v : User). v.handle) (entry_at g.users) user_own _
        (entry_at-Nodup User_set g.users) (walked-Nodup i g.users t.users_map))

extend_all-gather :
    (m : HashMap (List Tweet)) (ks : List Str)
    → extend_all (gather (entry_at m) ks) ≡ gather (λ a. unwrap_or [] (HashMap.get m a)) ks
unfolding extend_all gather
extend_all-gather m [] = refl
extend_all-gather m (a ∷ ks) = elim (Option-cases (HashMap.get m a)) [
  | inl e ↦ rw (e, entry_at) (extend_all-gather m ks)
  | inr (l, e) ↦ rw (e, entry_at) (ap (λ r. l ++ r) (extend_all-gather m ks))
]

-- The tweets, in the order in which the map is walked.
module _ (i : Iteration) (g : Inner) (v : IsValid g) where
  listed_tweets :
      extend_all (HashMap.values i g.by_author)
      ≡ gather (posts g) (i.order (HashMap.keys g.by_author))
  unfolding posts
  listed_tweets =
      ap extend_all (HashMap.values-gather i g.by_author) ∙ extend_all-gather g.by_author _

  has_list : (a : Str) (t : Tweet) → Mem t (posts g a) → HashMap.contains_key g.by_author a ≡ true
  unfolding posts
  has_list a t m = elim (Bool-cases (HashMap.contains_key g.by_author a)) [
    | inl e ↦ e
    | inr e ↦ absurd (not-mem-nil (rw (HashMap.get-eq-none g.by_author a e) at m))
  ]

  pub mem-tweets :
      (t : Tweet) → Mem t (extend_all (HashMap.values i g.by_author)) ↔ Mem t (posts g t.author)
  mem-tweets t = rw listed_tweets (
      let (to, from) =
        mem-gather (λ (x : Tweet). x.author) (posts g) v.author (i.order (HashMap.keys g.by_author))
          t in
      (λ m. (to m).1, λ m. from ((mem-walked i g.by_author t.author).1 (has_list t.author t m), m)))

  pub tweets-Nodup : HasUniqueIds g → Nodup (extend_all (HashMap.values i g.by_author))
  tweets-Nodup u = rw listed_tweets (
      gather-Nodup (λ (x : Tweet). x.author) (posts g) v.author _ u.once
        (walked-Nodup i g.by_author v.tidy.posts_map))
