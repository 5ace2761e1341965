-- ===== src/Store/Timeline/Contents.antt =====
-- The properties called F1 and F2 of crates/store/src/lib.rs: which tweets a timeline holds, and in
-- which order.
use mathlib.Core.Logic.Iff
use mathlib.Core.List.Pairwise
use mathlib.Core.List.Perm
use twitter_rust_formal_veri.Prelude.{
  ℕ, Str, str_eq, ◌≡◌, refl, ap, ◌↔◌, Bool, true, ◌||◌, List, [], Mem, Nodup, Pairwise, take,
  Pairwise-take, take_of_length-le, ◌==◌, arith, Bool-cases, if◌then◌else◌, inl, inr,
}
use twitter_rust_formal_veri.Std.HashMap.{Iteration}
use twitter_rust_formal_veri.Std.HashSet
use twitter_rust_formal_veri.Std.Sort.{
  sort_by, sort_by-perm, sort_by-IsSorted, sort_by-eq_of_members, IsStrictOn,
}
use twitter_rust_formal_veri.Domain.{Tweet}
use twitter_rust_formal_veri.Store.{
  Inner, collect, authors_of, newest_first, limit_to, home_timeline,
}
use twitter_rust_formal_veri.Store.Views.{posts, follow_edges}
use twitter_rust_formal_veri.Store.Valid.{IsFiled}
use twitter_rust_formal_veri.Store.Unique.{HasUniqueIds}
use twitter_rust_formal_veri.Prelude.Gather.{gather, mem-gather, gather-Nodup}
use twitter_rust_formal_veri.Store.Timeline.Newest.{
  IsNewer, newest_first-IsOrder, same_id, IsNewer-of_Before,
}
use twitter_rust_formal_veri.Store.Timeline.Gather.{
  collect-gather, contains-authors_of, authors_of-IsSetOf,
}

-- A reader sees its own tweets and those of the handles that it follows.
abbrev pub sees : Inner → Str → Str → Bool
sees g user author = str_eq user author || follow_edges g user author

module _ (i j : Iteration) (g : Inner) (user : Str) where
  -- The tweets before the sort.
  abbrev collected : List Tweet
  collected = collect g.by_author [] (j.order (authors_of i g user).elems)

  collected-gather : collected ≡ gather (posts g) (j.order (authors_of i g user).elems)
  unfolding posts
  collected-gather = collect-gather g.by_author [] (j.order (authors_of i g user).elems)

  mem-authors : (a : Str) → Mem a (j.order (authors_of i g user).elems) ↔ (sees g user a ≡ true)
  mem-authors a = rw (← contains-authors_of i g user a) (
      Iff.trans (Perm.mem_iff (j.perm (authors_of i g user).elems))
        (HashSet.mem-elems (authors_of i g user) a))

  module _ (v : IsFiled g) where
    mem-collected :
        (t : Tweet) → Mem t collected ↔ ((sees g user t.author ≡ true) × Mem t (posts g t.author))
    mem-collected t = rw collected-gather (
        let (to, from) =
          mem-gather (λ (t : Tweet). t.author) (posts g) v (j.order (authors_of i g user).elems)
            t in
        let (see, seen) = mem-authors t.author in
        (λ m. let (k, p) = to m in (see k, p), λ p. from (seen (p.0), p.1)))

    collected-Nodup : HasUniqueIds g → Nodup collected
    collected-Nodup u = rw collected-gather (
        gather-Nodup (λ (t : Tweet). t.author) (posts g) v _ u.once
          (Perm.nodup (Perm.symm (j.perm _)) (authors_of-IsSetOf i g user)))

    collected-IsStrict : HasUniqueIds g → IsStrictOn newest_first collected
    collected-IsStrict u a b ma mb h k =
        u.injective a.author b.author a b ((mem-collected a).0 ma).1 ((mem-collected b).0 mb).1
          (same_id a b h k)

limit_to-take :
    (limit : ℕ) (l : List Tweet) → limit_to limit l ≡ (if limit == 0 then l else take limit l)
unfolding limit_to
limit_to-take limit l = ground (arith, take_of_length-le limit l)

module _ (i j : Iteration) (g : Inner) (user : Str) (v : IsFiled g) where
  -- In a store whose lists hold tweets of their author alone, a timeline without a limit holds a tweet
  -- exactly if the store has it and the reader is its author or follows its author.
  pub mem-home_timeline :
      (t : Tweet)
      → Mem t (home_timeline i j g user 0)
        ↔ ((sees g user t.author ≡ true) × Mem t (posts g t.author))
  unfolding home_timeline
  mem-home_timeline t = rw (limit_to-take 0 (sort_by newest_first (collected i j g user))) (
      Iff.trans (Perm.mem_iff (sort_by-perm newest_first (collected i j g user)))
        (mem-collected i j g user v t))

  sorted-Newest : HasUniqueIds g → Pairwise IsNewer (sort_by newest_first (collected i j g user))
  sorted-Newest u =
      let l = collected i j g user in
      let p = sort_by-perm newest_first l in
      Pairwise.imp_of_mem
        (λ a b ma mb h. IsNewer-of_Before a b (h.0) (λ e. h.1 (
          u.injective a.author b.author a b
            ((mem-collected i j g user v a).0 ((Perm.mem_iff p).0 ma)).1
            ((mem-collected i j g user v b).0 ((Perm.mem_iff p).0 mb)).1 e)))
        (Pairwise.and (sort_by-IsSorted newest_first newest_first-IsOrder l)
          (Perm.nodup (Perm.symm p) (collected-Nodup i j g user v u)))

  -- In a store whose lists hold tweets of their author alone and whose tweets have identifiers of their
  -- own, the tweets of a timeline under any limit stand strictly newest first: by time, and by
  -- identifier at one time.
  pub home_timeline-Newest :
      (limit : ℕ) → HasUniqueIds g → Pairwise IsNewer (home_timeline i j g user limit)
  unfolding home_timeline
  home_timeline-Newest limit u =
      rw (limit_to-take limit (sort_by newest_first (collected i j g user))) (cut limit)
    where
      cut :
          (n : ℕ)
          → Pairwise IsNewer (
              if n == 0
              then sort_by newest_first (collected i j g user)
              else take n (sort_by newest_first (collected i j g user)))
      cut n = elim (Bool-cases (n == 0)) [
        | inl all ↦ rw all (sorted-Newest u)
        | inr cut_off ↦ rw cut_off (Pairwise-take n _ (sorted-Newest u))
      ]

-- Zero is no limit, and any other keeps the newest tweets of the timeline without one.
pub home_timeline-limit :
    (i j : Iteration) (g : Inner) (user : Str) (limit : ℕ)
    → home_timeline i j g user limit
      ≡ (if limit == 0 then home_timeline i j g user 0 else take limit (home_timeline i j g user 0))
unfolding home_timeline
home_timeline-limit i j g user limit =
    let l = sort_by newest_first (collected i j g user) in
    rw (limit_to-take limit l, limit_to-take 0 l)

-- Two stores with the same tweets and the same view of a reader give it one timeline.
pub home_timeline-same :
    (i j i' j' : Iteration) (g g' : Inner) (user : Str) (limit : ℕ)
    → IsFiled g
    → HasUniqueIds g
    → IsFiled g'
    → HasUniqueIds g'
    → ((a : Str) → sees g user a ≡ sees g' user a)
    → ((a : Str) (t : Tweet) → Mem t (posts g a) ↔ Mem t (posts g' a))
    → home_timeline i j g user limit ≡ home_timeline i' j' g' user limit
unfolding home_timeline
home_timeline-same i j i' j' g g' user limit v u v' u' view tweets = ap (limit_to limit) (
    sort_by-eq_of_members newest_first newest_first-IsOrder (collected i j g user)
      (collected i' j' g' user) (collected-IsStrict i j g user v u) (collected-Nodup i j g user v u)
      (collected-Nodup i' j' g' user v' u')
      λ t.
        Iff.trans (mem-collected i j g user v t)
          (Iff.trans (both t) (Iff.symm (mem-collected i' j' g' user v' t))))
  where
    both :
        (t : Tweet)
        → ((sees g user t.author ≡ true) × Mem t (posts g t.author))
          ↔ ((sees g' user t.author ≡ true) × Mem t (posts g' t.author))
    both t =
        let (to, from) = tweets t.author t in
        (λ p. (rw (← view t.author) (p.0), to (p.1)), λ p. (rw (view t.author) (p.0), from (p.1)))

-- The timeline does not depend on the order in which the hash sets are walked.
pub home_timeline-order_free :
    (i j i' j' : Iteration) (g : Inner) (user : Str) (limit : ℕ)
    → IsFiled g
    → HasUniqueIds g
    → home_timeline i j g user limit ≡ home_timeline i' j' g user limit
home_timeline-order_free i j i' j' g user limit v u =
    home_timeline-same i j i' j' g g user limit v u v u (λ a. refl) λ a t. (λ m. m, λ m. m)
