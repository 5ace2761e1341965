-- ===== src/Service/Contracts/Delivery.antt =====
-- From `post_tweet` to `home_timeline` in crates/service/src/lib.rs: who sees a new tweet, and where.
use mathlib.Core.Logic.Or
use mathlib.Core.Logic.{∨₁_prop}
use mathlib.Core.List.{
  Mem-prop, mem-append, mem-cons, mem-cons_self, mem-cons_of_mem, not-mem-nil, Pairwise-cons,
}
use mathlib.Core.HLevel.{hedberg}
use twitter_rust_formal_veri.Prelude.{
  Str, str_eq, ◌≡◌, refl, sym, ap, ap₂, ◌↔◌, true, ◌&&◌, List, [], ◌∷◌, Mem, Pairwise, arith,
  Bool-cases, inl, inr, if◌then◌else◌, ◌∙◌, Result, is_ok, ◌∨₁◌, str_eq_iff, eq_of_parts,
}
use twitter_rust_formal_veri.Std.HashMap.{Iteration}
use twitter_rust_formal_veri.Clock.{Clock}
use twitter_rust_formal_veri.Clock.Monotone.{Fits}
use twitter_rust_formal_veri.Ids
use twitter_rust_formal_veri.Domain.{Tweet, Tweet-discrete}
use twitter_rust_formal_veri.Store.Views.{posts}
use twitter_rust_formal_veri.Store.Timeline.Newest.{IsNewer}
use twitter_rust_formal_veri.Store.Timeline.Contents.{sees, mem-home_timeline, home_timeline-Newest}
use twitter_rust_formal_veri.Service.{Service, ServiceError, post_tweet, home_timeline}
use twitter_rust_formal_veri.Service.Calls.{tweet_made}
use twitter_rust_formal_veri.Service.Sound.{IsSound, next_id-above}
use twitter_rust_formal_veri.Service.Sound.Requests.{post_tweet-IsSound}
use twitter_rust_formal_veri.Service.Contracts.{post_tweet_ensures}

Tweet_set : IsSet Tweet
Tweet_set = hedberg Tweet-discrete

head_newest :
    (a b : Tweet) (l r : List Tweet)
    → Pairwise IsNewer (a ∷ l)
    → Pairwise IsNewer (b ∷ r)
    → Mem a (b ∷ r)
    → Mem b (a ∷ l)
    → a ≡ b
head_newest a b l r pl pr ma mb =
    Or.elim (Tweet_set a b) (mem-cons.0 ma) (λ e. e)
      λ in_r.
        Or.elim (Tweet_set a b) (mem-cons.0 mb) (λ e. sym e)
          λ in_l. absurd (older ((Pairwise-cons.0 pl).0 b in_l) ((Pairwise-cons.0 pr).0 a in_r))
  where
    older : IsNewer a b → IsNewer b a → ⊥
    older h k = ground arith

tail_mem :
    (a b : Tweet) (l r : List Tweet)
    → a ≡ b
    → Pairwise IsNewer (a ∷ l)
    → ((t : Tweet) → Mem t (a ∷ l) → Mem t (b ∷ r))
    → (t : Tweet) → Mem t l
    → Mem t r
tail_mem a b l r e pl into t m =
    Or.elim Mem-prop (mem-cons.0 (into t (mem-cons_of_mem a m)))
      (λ is_head. absurd (self ((Pairwise-cons.0 pl).0 t m) (is_head ∙ sym e))) λ in_tail. in_tail
  where
    self : IsNewer a t → t ≡ a → ⊥
    self h same = ground arith

-- Two lists that are strictly newest first and hold the same tweets are one list.
newest_unique :
    (l r : List Tweet)
    → Pairwise IsNewer l
    → Pairwise IsNewer r
    → ((t : Tweet) → Mem t l ↔ Mem t r)
    → l ≡ r
newest_unique [] [] pl pr same = refl
newest_unique [] (b ∷ r) pl pr same = absurd (not-mem-nil ((same b).1 mem-cons_self))
newest_unique (a ∷ l) [] pl pr same = absurd (not-mem-nil ((same a).0 mem-cons_self))
newest_unique (a ∷ l) (b ∷ r) pl pr same =
    let heads = head_newest a b l r pl pr ((same a).0 mem-cons_self) ((same b).1 mem-cons_self) in
    ap₂ ◌∷◌ heads (
      newest_unique l r (Pairwise-cons.0 pl).1 (Pairwise-cons.0 pr).1 λ t. (
        tail_mem a b l r heads pl (λ u. (same u).0) t,
        tail_mem b a r l (sym heads) pr (λ u. (same u).1) t,
      ))

module _ {C : Type 0} (k : Clock C) (s : Service C) (author text : Str) where
  abbrev answer : Result ServiceError Tweet
  answer = (post_tweet k author text s).0

  abbrev posted : Service C
  posted = (post_tweet k author text s).1

  abbrev new_tweet : Tweet
  new_tweet = tweet_made k author text s

  sees-posted : (user a : Str) → sees posted.st user a ≡ sees s.st user a
  sees-posted user a = rw ((post_tweet_ensures s k author text).edges user a)

  mem-posts-posted :
      (a : Str) (t : Tweet)
      → Mem t (posts posted.st a)
        ↔ (Mem t (posts s.st a) ∨₁ ((is_ok answer ≡ true) × (author ≡ a) × (t ≡ new_tweet)))
  mem-posts-posted a t =
      rw ((post_tweet_ensures s k author text).tweets a)
        (elim (Bool-cases (is_ok answer && str_eq author a)) [
          | inl e ↦ rw e (
            λ m. Or.elim ∨₁_prop (mem-append.0 m) Or.inl λ n.
                Or.elim ∨₁_prop (mem-cons.0 n)
                  (λ is_new. Or.inr (ground arith, ground (arith, str_eq_iff author a), is_new))
                  λ none_left. absurd (not-mem-nil none_left),
            λ m. mem-append.1 (Or.elim ∨₁_prop m Or.inl λ new. Or.inr (rw (new.2) mem-cons_self)),
          )
          | inr e ↦ rw e (
            Or.inl,
            λ m.
                Or.elim Mem-prop m (λ old. old) λ new. absurd (ground (arith, str_eq_iff author a)),
          )
        ])

  module _ (p : IsSound k s) (room : Fits (Ids.current s.tweet_ids) 1) (i j : Iteration)
      (user : Str) where
    mem-timeline-posted :
        (t : Tweet)
        → Mem t (home_timeline i j posted user 0) ↔ (
            Mem t (home_timeline i j s user 0)
            ∨₁ (((is_ok answer && sees s.st user author) ≡ true) × (t ≡ new_tweet)))
    unfolding home_timeline
    mem-timeline-posted t =
        let after = (post_tweet-IsSound k s p author text room).valid.author in
        let (to, from) = mem-home_timeline i j posted.st user after t in
        let (to_old, from_old) = mem-home_timeline i j s.st user p.valid.author t in
        let (to_posts, from_posts) = mem-posts-posted t.author t in
        (
          λ m.
              let see = rw (sees-posted user t.author) at ((to m).0) in
              Or.elim ∨₁_prop (to_posts (to m).1) (λ old. Or.inl (from_old (see, old)))
                λ new. Or.inr (ground (arith, rw (← new.1) at see), new.2),
          λ m.
              Or.elim Mem-prop m
                (λ old.
                  let (see, stored) = to_old old in
                  from (rw (sees-posted user t.author) see, from_posts (Or.inl stored)))
                λ new. from (
                  rw (sees-posted user t.author, new.1) (ground arith),
                  from_posts
                      (Or.inr (ground arith, ap (λ (w : Tweet). w.author) (sym new.1), new.1)),
                ),
        )

    later_than_stored : (t : Tweet) → Mem t (posts s.st t.author) → IsNewer new_tweet t
    later_than_stored t m = ground (
      arith,
      p.tweet_below t.author t m,
      p.tweet_past t.author t m,
      (next_id-above s.tweet_ids 0 room).0,
      eq_of_parts t.created_at (k.now s.clk),
    )

    after_IsSound : IsSound k posted
    after_IsSound = post_tweet-IsSound k s p author text room

    sorted : Pairwise IsNewer (home_timeline i j posted user 0)
    unfolding home_timeline
    sorted =
        home_timeline-Newest i j posted.st user after_IsSound.valid.author 0 after_IsSound.unique

    sorted_old : Pairwise IsNewer (home_timeline i j s user 0)
    unfolding home_timeline
    sorted_old = home_timeline-Newest i j s.st user p.valid.author 0 p.unique

    later_than_timeline : (t : Tweet) → Mem t (home_timeline i j s user 0) → IsNewer new_tweet t
    unfolding home_timeline
    later_than_timeline t m =
        later_than_stored t ((mem-home_timeline i j s.st user p.valid.author t).0 m).1

    -- In a service that keeps its invariant (valid store, unique and issued identifiers, no stored
    -- time to come) and has an identifier left: after `post_tweet` the timeline without a limit of the
    -- author, and of each follower of the author, is the new tweet and then the timeline as it was;
    -- that of any other reader, and any reader's if the call failed, is the timeline as it was.
    pub home_timeline-post_tweet : home_timeline i j posted user 0 ≡ (
        if is_ok answer && sees s.st user author
        then new_tweet ∷ home_timeline i j s user 0
        else home_timeline i j s user 0)
    home_timeline-post_tweet = elim (Bool-cases (is_ok answer && sees s.st user author)) [
      | inl e ↦ rw e (
          newest_unique _ _ sorted (Pairwise.cons later_than_timeline sorted_old) λ t. (
            λ m.
                Or.elim Mem-prop ((mem-timeline-posted t).0 m) (mem-cons_of_mem new_tweet)
                  λ new. rw (new.1) mem-cons_self,
            λ m.
                (mem-timeline-posted t).1
                  (Or.elim ∨₁_prop (mem-cons.0 m) (λ is_new. Or.inr (e, is_new)) Or.inl),
          ))
      | inr e ↦ rw e (
          newest_unique _ _ sorted sorted_old λ t. (
            λ m.
                Or.elim Mem-prop ((mem-timeline-posted t).0 m) (λ old. old)
                  λ new. absurd (ground arith),
            λ m. (mem-timeline-posted t).1 (Or.inl m),
          ))
    ]
