-- ===== src/Store/Timeline/Gather.antt =====
-- The two loops of `home_timeline` in crates/store/src/lib.rs: the set of authors, and the tweets
-- collected from their lists.

use mathlib.Core.List.Perm
use twitter_rust_formal_veri.Prelude.{
  Str, str_eq, ◌≡◌, sym, true, ◌||◌, List, [], ◌∷◌, ◌++◌, Perm, append-nil, append_assoc, unwrap_or,
  arith, Option-cases, inl, inr,
}
use twitter_rust_formal_veri.Std.HashMap
use twitter_rust_formal_veri.Std.HashMap.{Iteration}
use twitter_rust_formal_veri.Std.HashSet
use twitter_rust_formal_veri.Std.HashSet.{
  HashSet, contains-insert, contains-empty, IsSetOf-insert, IsSetOf-empty, mem-elems,
}
use twitter_rust_formal_veri.Domain.{Tweet}
use twitter_rust_formal_veri.Store.{Inner, insert_all, collect, authors_of}
use twitter_rust_formal_veri.Store.Views.{follow_edges}
use twitter_rust_formal_veri.Prelude.Gather.{gather}

pub collect-gather :
    (by_author : HashMap.HashMap (List Tweet)) (acc : List Tweet) (authors : List Str)
    → collect by_author acc authors
      ≡ acc ++ gather (λ a. unwrap_or [] (HashMap.get by_author a)) authors
unfolding collect gather
collect-gather m acc [] = sym (append-nil acc)
collect-gather m acc (a ∷ rest) = elim (Option-cases (HashMap.get m a)) [
  | inl missing ↦ rw (missing, collect) (collect-gather m acc rest)
  | inr (l, found) ↦
      rw (found, collect) (rw (collect-gather m (acc ++ l) rest) (append_assoc acc l _))
]

contains-insert_all :
    (s : HashSet) (ks : List Str) (a : Str)
    → HashSet.contains (insert_all s ks) a ≡ (HashSet.contains s a || HashSet.holds a ks)
unfolding insert_all HashSet.holds
contains-insert_all s [] a = ground arith
contains-insert_all s (k ∷ ks) a =
    ground (arith, contains-insert_all (HashSet.insert s k) ks a, contains-insert s k a)

holds_of_perm :
    (a : Str) {ks ls : List Str}
    → Perm ks ls
    → HashSet.holds a ks ≡ true
    → HashSet.holds a ls ≡ true
holds_of_perm a {ks} {ls} p h =
    HashSet.holds_of_mem a ls ((Perm.mem_iff p).0 (HashSet.mem_of_holds a ks h))

holds-perm : (a : Str) {ks ls : List Str} → Perm ks ls → HashSet.holds a ks ≡ HashSet.holds a ls
holds-perm a {ks} {ls} p = ground (arith, holds_of_perm a p, holds_of_perm a (Perm.symm p))

-- `authors` holds the reader and everyone the reader follows, whatever the order of the loop.
pub contains-authors_of :
    (i : Iteration) (g : Inner) (user a : Str)
    → HashSet.contains (authors_of i g user) a ≡ (str_eq user a || follow_edges g user a)
unfolding authors_of follow_edges HashSet.contains
contains-authors_of i g user a = elim (Option-cases (HashMap.get g.follows user)) [
  | inl missing ↦ ground (arith, contains-insert HashSet.empty user a, contains-empty a)
  | inr (set, found) ↦ ground (
    arith,
    contains-insert_all (HashSet.insert HashSet.empty user) (i.order set.elems) a,
    contains-insert HashSet.empty user a,
    contains-empty a,
    holds-perm a (i.perm set.elems),
  )
]

insert_all-IsSetOf :
    (s : HashSet) (ks : List Str) → HashSet.IsSetOf s → HashSet.IsSetOf (insert_all s ks)
unfolding insert_all
insert_all-IsSetOf s [] d = d
insert_all-IsSetOf s (k ∷ ks) d = insert_all-IsSetOf (HashSet.insert s k) ks (IsSetOf-insert s k d)

pub authors_of-IsSetOf :
    (i : Iteration) (g : Inner) (user : Str) → HashSet.IsSetOf (authors_of i g user)
unfolding authors_of
authors_of-IsSetOf i g user =
    let start = IsSetOf-insert HashSet.empty user IsSetOf-empty in
    elim (Option-cases (HashMap.get g.follows user)) [
      | inl missing ↦ rw (missing, authors_of) start
      | inr (set, found) ↦ rw (found, authors_of) (insert_all-IsSetOf _ (i.order set.elems) start)
    ]
