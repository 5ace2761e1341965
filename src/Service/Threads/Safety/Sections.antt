-- ===== src/Service/Threads/Safety/Sections.antt =====
-- Each critical section of crates/service/src/lib.rs keeps what the threads know.
use mathlib.Core.Logic.Or
use twitter_rust_formal_veri.Prelude.{
  ℤ, ◌≤ℤ◌, ◌<ℤ◌, incr_parts, Str, str_eq, ◌≡◌, refl, true, false, arith, inl, inr,
}
use twitter_rust_formal_veri.Clock.{Clock}
use twitter_rust_formal_veri.Clock.Monotone.{Fits}
use twitter_rust_formal_veri.Ids
use twitter_rust_formal_veri.Domain.{User, Tweet, Follow}
use twitter_rust_formal_veri.Store.{put_user, put_follow, delete_follow, put_tweet}
use twitter_rust_formal_veri.Store.Views.{
  users_keys, posts-put_user, posts-put_follow, posts-delete_follow, user_at-put_follow,
  user_at-delete_follow, user_at-put_tweet, users_keys-put_user, users_keys-put_follow,
  users_keys-delete_follow, users_keys-put_tweet,
}
use twitter_rust_formal_veri.Store.Valid.{mem-posts-put_tweet}
use twitter_rust_formal_veri.Service
use twitter_rust_formal_veri.Service.{Service}
use twitter_rust_formal_veri.Service.Sound.{IsSound, next_id-above}
use twitter_rust_formal_veri.Service.Sound.Locks.{
  NewTweetId, NewUserId, user_at-put_user_cases, numbered_user-IsSound, numbered_tweet-IsSound,
  stored_user-IsSound, stored_tweet-IsSound, stored_follow-IsSound, removed_follow-IsSound,
  tick-IsSound,
}
use twitter_rust_formal_veri.Service.Threads.{Pc, Answer}
use twitter_rust_formal_veri.Service.Threads.Pending.{quiet-Moves, drawing-Moves, storing-Moves}
use twitter_rust_formal_veri.Service.Threads.Safety.{pending_tweet, pending_user, Knows, Kept}

module _ {C : Type 0} (k : Clock C) (s : Service C) (p : IsSound k s) where
  NewTweetId-above : (id : ℤ) → Ids.current s.tweet_ids <ℤ id → NewTweetId s id
  NewTweetId-above id above a t m same = omega (arith, rw same at (p.tweet_below a t m))

  NewUserId-above : (id : ℤ) → Ids.current s.user_ids <ℤ id → NewUserId s id
  NewUserId-above id above h u e same = omega (arith, rw same at (p.user_below h u e))

  -- A move that leaves the service as it is.
  pub same-Kept :
      (pc pc' : Pc)
      → pending_tweet pc' ≡ pending_tweet pc
      → pending_user pc' ≡ pending_user pc
      → Knows k s pc'
      → Kept k s s pc pc'
  same-Kept pc pc' tweet user knows = record {
    sound = p;
    tweets = quiet-Moves pending_tweet _ _ _ pc pc' tweet NewTweetId-above (λ id new. new);
    users = quiet-Moves pending_user _ _ _ pc pc' user NewUserId-above (λ id new. new);
    knows = knows;
    time = omega arith;
    registered = λ h e. e;
  }

  pub numbered_user-Kept :
      (handle : Str)
      → Fits (Ids.current s.user_ids) 1
      → let (id, user_ids) = Ids.next_id s.user_ids in
        Kept k s
          (record s { user_ids = user_ids })
          (Pc.numbering_user handle)
          (Pc.storing_user (record { id = id; handle = handle }))
  numbered_user-Kept handle room =
      let (grows, is_current, _) = next_id-above s.user_ids 0 room in
      record {
        sound = numbered_user-IsSound k s p room;
        tweets = quiet-Moves pending_tweet _ _ _ _ _ refl NewTweetId-above (λ id new. new);
        users =
            drawing-Moves pending_user _ _ _ _ _ (rw is_current grows) refl (rw is_current refl)
              NewUserId-above;
        knows = tt;
        time = omega arith;
        registered = λ h e. e;
      }

  pub numbered_tweet-Kept :
      (author text : Str)
      → Fits (Ids.current s.tweet_ids) 1
      → users_keys s.st author ≡ true
      → let (id, tweet_ids) = Ids.next_id s.tweet_ids in
        Kept k s
          (record s { tweet_ids = tweet_ids })
          (Pc.numbering_tweet author text)
          (Pc.timing_tweet id author text)
  numbered_tweet-Kept author text room known =
      let (grows, is_current, _) = next_id-above s.tweet_ids 0 room in
      record {
        sound = numbered_tweet-IsSound k s p room;
        tweets =
            drawing-Moves pending_tweet _ _ _ _ _ (rw is_current grows) refl (rw is_current refl)
              NewTweetId-above;
        users = quiet-Moves pending_user _ _ _ _ _ refl NewUserId-above (λ id new. new);
        knows = known;
        time = omega arith;
        registered = λ h e. e;
      }

  pub stored_user-Kept :
      (u : User) (answer : Answer)
      → u.id ≤ℤ Ids.current s.user_ids
      → NewUserId s u.id
      → Kept k s (record s { st = (put_user u s.st).1 }) (Pc.storing_user u) (Pc.done answer)
  stored_user-Kept u answer issued new = record {
    sound = stored_user-IsSound k s p u issued new;
    tweets =
        quiet-Moves pending_tweet _ _ _ _ _ refl NewTweetId-above
          (λ id new a t m. new a t (rw (posts-put_user s.st a u) at m));
    users =
        storing-Moves pending_user _ u.id _ _ _ _ refl refl NewUserId-above
          (λ id new other h v e same. elim (user_at-put_user_cases u s.st h v e) [
            | inl old ↦ new h v old same
            | inr is_u ↦ other (ground arith)
          ]);
    knows = tt;
    time = omega arith;
    registered = λ h e. rw (users_keys-put_user u s.st h) (ground arith);
  }

  pub stored_follow-Kept :
      (f : Follow) (answer : Answer)
      → str_eq f.from f.to ≡ false
      → Kept k s (record s { st = (put_follow f s.st).1 }) (Pc.storing_follow f) (Pc.done answer)
  stored_follow-Kept f answer apart = record {
    sound = stored_follow-IsSound k s p f apart;
    tweets =
        quiet-Moves pending_tweet _ _ _ _ _ refl NewTweetId-above
          (λ id new a t m. new a t (rw (posts-put_follow s.st a f) at m));
    users =
        quiet-Moves pending_user _ _ _ _ _ refl NewUserId-above
          (λ id new h u e. new h u (rw (user_at-put_follow s.st h f) at e));
    knows = tt;
    time = omega arith;
    registered = λ h e. rw (users_keys-put_follow s.st h f) e;
  }

  pub removed_follow-Kept :
      (from to : Str) (answer : Answer)
      → Kept k s
          (record s { st = delete_follow from to s.st })
          (Pc.deleting from to)
          (Pc.done answer)
  removed_follow-Kept from to answer = record {
    sound = removed_follow-IsSound k s p from to;
    tweets =
        quiet-Moves pending_tweet _ _ _ _ _ refl NewTweetId-above
          (λ id new a t m. new a t (rw (posts-delete_follow s.st a from to) at m));
    users =
        quiet-Moves pending_user _ _ _ _ _ refl NewUserId-above
          (λ id new h u e. new h u (rw (user_at-delete_follow s.st h from to) at e));
    knows = tt;
    time = omega arith;
    registered = λ h e. rw (users_keys-delete_follow s.st h from to) e;
  }

  pub stored_tweet-Kept :
      (t : Tweet) (answer : Answer)
      → t.id ≤ℤ Ids.current s.tweet_ids
      → t.created_at ≤ℤ k.now s.clk
      → NewTweetId s t.id
      → Kept k s (record s { st = (put_tweet t s.st).1 }) (Pc.storing_tweet t) (Pc.done answer)
  stored_tweet-Kept t answer issued past new = record {
    sound = stored_tweet-IsSound k s p t issued past new;
    tweets =
        storing-Moves pending_tweet _ t.id _ _ _ _ refl refl NewTweetId-above
          (λ id new other a u m same.
            Or.elim (λ (x y : ⊥). elim x [ ]) (mem-posts-put_tweet t s.st a u m)
              (λ old. new a u old same) (λ is_t. other (ground (arith, is_t.0))));
    users =
        quiet-Moves pending_user _ _ _ _ _ refl NewUserId-above
          (λ id new h u e. new h u (rw (user_at-put_tweet s.st h t) at e));
    knows = tt;
    time = omega arith;
    registered = λ h e. rw (users_keys-put_tweet s.st h t) e;
  }

  pub ticked-Kept :
      Fits (k.now s.clk) 1 → Kept k s (Service.tick k s) Pc.ticking (Pc.done Answer.ticked)
  unfolding Service.tick
  ticked-Kept room = record {
    sound = tick-IsSound k s p room;
    tweets = quiet-Moves pending_tweet _ _ _ _ _ refl NewTweetId-above (λ id new. new);
    users = quiet-Moves pending_user _ _ _ _ _ refl NewUserId-above (λ id new. new);
    knows = tt;
    time = rw (k.now_tick s.clk) (omega (arith, incr_parts (k.now s.clk) (omega arith)));
    registered = λ h e. e;
  }
