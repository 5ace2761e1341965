-- ===== src/Service/Sound/Locks.antt =====
-- The invariant of crates/service/src/lib.rs at the grain of its locks: each critical section of a
-- method keeps it, given what the method knows by then.
use mathlib.Core.Logic.Or
use native.Mathlib.Bridge.{le_prop}
use twitter_rust_formal_veri.Prelude.{
  ℤ, ◌≤ℤ◌, incr_parts, Str, str_eq, ◌≡◌, ◌≢◌, ◌⊎◌, false, some, Mem, arith, inl, inr, sym, ap, ◌∙◌,
}
use twitter_rust_formal_veri.Clock.{Clock}
use twitter_rust_formal_veri.Clock.Monotone.{Fits}
use twitter_rust_formal_veri.Ids
use twitter_rust_formal_veri.Domain.{User, Tweet, Follow}
use twitter_rust_formal_veri.Store.{Inner, put_user, put_follow, delete_follow, put_tweet}
use twitter_rust_formal_veri.Store.Views.{
  posts, user_at, posts-put_user, posts-put_follow, posts-delete_follow, user_at-put_user,
  user_at-put_follow, user_at-delete_follow, user_at-put_tweet,
}
use twitter_rust_formal_veri.Store.Valid.{
  put_user-IsValid, put_follow-IsValid, delete_follow-IsValid, put_tweet-IsValid,
  mem-posts-put_tweet,
}
use twitter_rust_formal_veri.Store.Unique.{HasUniqueIds-of_posts, put_tweet-HasUniqueIds}
use twitter_rust_formal_veri.Service
use twitter_rust_formal_veri.Service.{Service}
use twitter_rust_formal_veri.Service.Sound.{IsSound, next_id-above}

-- No stored tweet, or no stored user, has the identifier.
abbrev pub NewTweetId : {C : Type 0} → Service C → ℤ → Type 0
NewTweetId s id = (a : Str) (t : Tweet) → Mem t (posts s.st a) → t.id ≢ id

abbrev pub NewUserId : {C : Type 0} → Service C → ℤ → Type 0
NewUserId s id = (h : Str) (u : User) → user_at s.st h ≡ some u → u.id ≢ id

-- A user under a handle after `put_user` stood there before, or is the new one.
pub user_at-put_user_cases :
    (u : User) (g : Inner) (h : Str) (v : User)
    → user_at (put_user u g).1 h ≡ some v
    → (user_at g h ≡ some v) ⊎ (v ≡ u)
user_at-put_user_cases u g h v e = ground (arith, user_at-put_user u g h)

module _ {C : Type 0} (k : Clock C) (s : Service C) (p : IsSound k s) where
  pub numbered_user-IsSound :
      Fits (Ids.current s.user_ids) 1
      → IsSound k (record s { user_ids = (Ids.next_id s.user_ids).1 })
  numbered_user-IsSound room =
      let (grows, is_current, _) = next_id-above s.user_ids 0 room in
      record {
        valid = p.valid;
        unique = p.unique;
        tweet_below = p.tweet_below;
        tweet_past = p.tweet_past;
        user_below = λ h u e. rw is_current (omega (arith, p.user_below h u e));
        user_unique = p.user_unique;
      }

  pub numbered_tweet-IsSound :
      Fits (Ids.current s.tweet_ids) 1
      → IsSound k (record s { tweet_ids = (Ids.next_id s.tweet_ids).1 })
  numbered_tweet-IsSound room =
      let (grows, is_current, _) = next_id-above s.tweet_ids 0 room in
      record {
        valid = p.valid;
        unique = p.unique;
        tweet_below = λ a t m. rw is_current (omega (arith, p.tweet_below a t m));
        tweet_past = p.tweet_past;
        user_below = p.user_below;
        user_unique = p.user_unique;
      }

  pub stored_user-IsSound :
      (u : User)
      → u.id ≤ℤ Ids.current s.user_ids
      → NewUserId s u.id
      → IsSound k (record s { st = (put_user u s.st).1 })
  stored_user-IsSound u issued new = record {
    valid = put_user-IsValid u s.st p.valid;
    unique = HasUniqueIds-of_posts s.st _ (λ a. posts-put_user s.st a u) p.unique;
    tweet_below = λ a t m. p.tweet_below a t (rw (posts-put_user s.st a u) at m);
    tweet_past = λ a t m. p.tweet_past a t (rw (posts-put_user s.st a u) at m);
    user_below = λ h v e. elim (user_at-put_user_cases u s.st h v e) [
      | inl old ↦ p.user_below h v old
      | inr is_u ↦ rw is_u issued
    ];
    user_unique = λ h h' v w e e' i. elim (user_at-put_user_cases u s.st h v e) [
      | inl old ↦ elim (user_at-put_user_cases u s.st h' w e') [
        | inl old' ↦ p.user_unique h h' v w old old' i
        | inr is_u ↦ absurd (new h v old (i ∙ ap (λ (x : User). x.id) is_u))
      ]
      | inr is_u ↦ elim (user_at-put_user_cases u s.st h' w e') [
        | inl old' ↦ absurd (new h' w old' (sym i ∙ ap (λ (x : User). x.id) is_u))
        | inr is_u' ↦ is_u ∙ sym is_u'
      ]
    ];
  }

  pub stored_tweet-IsSound :
      (t : Tweet)
      → t.id ≤ℤ Ids.current s.tweet_ids
      → t.created_at ≤ℤ k.now s.clk
      → NewTweetId s t.id
      → IsSound k (record s { st = (put_tweet t s.st).1 })
  stored_tweet-IsSound t issued past new = record {
    valid = put_tweet-IsValid t s.st p.valid;
    unique = put_tweet-HasUniqueIds t s.st new p.unique;
    tweet_below = λ a u m.
        Or.elim le_prop (mem-posts-put_tweet t s.st a u m) (p.tweet_below a u)
          λ is_t. rw (is_t.0) issued;
    tweet_past = λ a u m.
        Or.elim le_prop (mem-posts-put_tweet t s.st a u m) (p.tweet_past a u)
          λ is_t. rw (is_t.0) past;
    user_below = λ h u e. p.user_below h u (rw (user_at-put_tweet s.st h t) at e);
    user_unique = λ h h' u v e e'.
        p.user_unique h h' u v (rw (user_at-put_tweet s.st h t) at e)
          (rw (user_at-put_tweet s.st h' t) at e');
  }

  pub stored_follow-IsSound :
      (f : Follow)
      → str_eq f.from f.to ≡ false
      → IsSound k (record s { st = (put_follow f s.st).1 })
  stored_follow-IsSound f apart = record {
    valid = put_follow-IsValid f s.st apart p.valid;
    unique = HasUniqueIds-of_posts s.st _ (λ a. posts-put_follow s.st a f) p.unique;
    tweet_below = λ a t m. p.tweet_below a t (rw (posts-put_follow s.st a f) at m);
    tweet_past = λ a t m. p.tweet_past a t (rw (posts-put_follow s.st a f) at m);
    user_below = λ h u e. p.user_below h u (rw (user_at-put_follow s.st h f) at e);
    user_unique = λ h h' u v e e'.
        p.user_unique h h' u v (rw (user_at-put_follow s.st h f) at e)
          (rw (user_at-put_follow s.st h' f) at e');
  }

  pub removed_follow-IsSound :
      (from to : Str) → IsSound k (record s { st = delete_follow from to s.st })
  removed_follow-IsSound from to = record {
    valid = delete_follow-IsValid from to s.st p.valid;
    unique = HasUniqueIds-of_posts s.st _ (λ a. posts-delete_follow s.st a from to) p.unique;
    tweet_below = λ a t m. p.tweet_below a t (rw (posts-delete_follow s.st a from to) at m);
    tweet_past = λ a t m. p.tweet_past a t (rw (posts-delete_follow s.st a from to) at m);
    user_below = λ h u e. p.user_below h u (rw (user_at-delete_follow s.st h from to) at e);
    user_unique = λ h h' u v e e'.
        p.user_unique h h' u v (rw (user_at-delete_follow s.st h from to) at e)
          (rw (user_at-delete_follow s.st h' from to) at e');
  }

  pub tick-IsSound : Fits (k.now s.clk) 1 → IsSound k (Service.tick k s)
  unfolding Service.tick
  tick-IsSound room = record {
    valid = p.valid;
    unique = p.unique;
    tweet_below = p.tweet_below;
    tweet_past = λ a t m.
        rw (k.now_tick s.clk)
          (omega (arith, p.tweet_past a t m, incr_parts (k.now s.clk) (omega arith)));
    user_below = p.user_below;
    user_unique = p.user_unique;
  }
