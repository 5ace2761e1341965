-- ===== src/Service/Sound.antt =====
-- The invariant of crates/service/src/lib.rs: what its documentation and crates/store/src/lib.rs
-- promise of every state, F4 and F6 to F9, as one record that every call keeps.
pub mod Locks
pub mod Requests
pub mod Runs
use twitter_rust_formal_veri.Prelude.{
  ℕ, suc, ◌+◌, ◌≤◌, ℤ, pos_part, neg_part, ◌≤ℤ◌, ◌<ℤ◌, incr, incr_parts, i64_max, Str, str_eq, ◌≡◌,
  ◌≢◌, false, some, Mem, arith, ◌⊎◌, inl, inr, ap, not, ◌&&◌, sym, ◌∙◌, Bool-cases, if◌then◌else◌,
}
use mathlib.Core.List.{not-mem-nil}
use mathlib.Core.Logic.Or
use native.Mathlib.Bridge.{le_prop}
use twitter_rust_formal_veri.Clock.{Clock}
use twitter_rust_formal_veri.Clock.Monotone.{Fits}
use twitter_rust_formal_veri.Ids
use twitter_rust_formal_veri.Ids.{Generator, next_id_lem}
use twitter_rust_formal_veri.Domain.{User, Tweet, Follow}
use twitter_rust_formal_veri.Store
use twitter_rust_formal_veri.Store.{Inner, put_user, put_tweet}
use twitter_rust_formal_veri.Store.Views.{
  posts, user_at, users_keys, posts-new, user_at-new, posts-put_user, posts-put_follow,
  posts-delete_follow, user_at-put_user, user_at-put_follow, user_at-delete_follow,
  user_at-put_tweet,
}
use twitter_rust_formal_veri.Store.Valid.{
  IsValid, IsValid-new, put_user-IsValid, put_follow-IsValid, delete_follow-IsValid,
  put_tweet-IsValid, mem-posts-put_tweet,
}
use twitter_rust_formal_veri.Store.Unique.{
  HasUniqueIds, HasUniqueIds-new, HasUniqueIds-of_posts, put_tweet-HasUniqueIds,
}
use twitter_rust_formal_veri.Service
use twitter_rust_formal_veri.Service.{Service, new_with_clock}
use twitter_rust_formal_veri.Service.Calls.{
  user_made, tweet_made, create_user_cases, follow_cases, unfollow_cases, post_tweet_cases,
}

module _ {C : Type 0} (k : Clock C) where
  pub record IsSound (s : Service C) : Type 0 where
    pub valid : IsValid s.st
    pub unique : HasUniqueIds s.st
    -- a stored identifier was issued, and a stored time has passed
    pub tweet_below : (a : Str) (t : Tweet) → Mem t (posts s.st a) → t.id ≤ℤ Ids.current s.tweet_ids
    pub tweet_past : (a : Str) (t : Tweet) → Mem t (posts s.st a) → t.created_at ≤ℤ k.now s.clk
    pub user_below : (h : Str) (u : User) → user_at s.st h ≡ some u → u.id ≤ℤ Ids.current s.user_ids
    -- two registered users with one identifier are one user
    pub user_unique :
        (h h' : Str) (u v : User)
        → user_at s.st h ≡ some u
        → user_at s.st h' ≡ some v
        → u.id ≡ v.id
        → u ≡ v

  -- `n` more calls leave the counters and the clock below the maximum of `i64`.
  pub record HasRoom (s : Service C) (n : ℕ) : Type 0 where
    pub tweets : Fits (Ids.current s.tweet_ids) n
    pub users : Fits (Ids.current s.user_ids) n
    pub time : Fits (k.now s.clk) n

  pub IsSound-new : (c : C) → IsSound (new_with_clock c)
  unfolding new_with_clock
  IsSound-new c = record {
    valid = IsValid-new;
    unique = HasUniqueIds-new;
    tweet_below = λ a t m. absurd (not-mem-nil (rw (posts-new a) at m));
    tweet_past = λ a t m. absurd (not-mem-nil (rw (posts-new a) at m));
    user_below = λ h u e. ground (arith, user_at-new h);
    user_unique = λ h h' u v e e' i. ground (arith, user_at-new h);
  }

-- The counter after `next_id` is above the counter before, at the issued identifier.
pub next_id-above :
    (g : Generator) (n : ℕ)
    → Fits (Ids.current g) (suc n)
    → (Ids.current g <ℤ (Ids.next_id g).0)
      × (Ids.current (Ids.next_id g).1 ≡ (Ids.next_id g).0)
      × Fits (Ids.current (Ids.next_id g).1) n
next_id-above g n h =
    let (is_incr, is_current) = next_id_lem g in
    (
      rw is_incr (omega (arith, incr_parts (Ids.current g) (omega arith))),
      is_current,
      rw (is_current, is_incr) (omega (arith, incr_parts (Ids.current g) (omega arith))),
    )
