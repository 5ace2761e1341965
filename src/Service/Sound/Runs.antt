-- ===== src/Service/Sound/Runs.antt =====
-- Runs of the service of crates/service/src/lib.rs: what holds after any calls one after another.
use twitter_rust_formal_veri.Prelude.{
  ℕ, suc, ◌+◌, ◌≤◌, incr_parts, i64_max, Str, ◌≡◌, ◌↔◌, true, List, [], ◌∷◌, length, Mem, Pairwise,
  arith, inl, inr,
}
use twitter_rust_formal_veri.Std.HashMap.{Iteration}
use twitter_rust_formal_veri.Clock.{Clock}
use twitter_rust_formal_veri.Clock.Monotone.{Fits}
use twitter_rust_formal_veri.Ids.{current-new}
use twitter_rust_formal_veri.Domain.{Tweet}
use twitter_rust_formal_veri.Store.{Inner}
use twitter_rust_formal_veri.Store.Views.{posts}
use twitter_rust_formal_veri.Store.Timeline.Contents.{
  sees, mem-home_timeline, home_timeline-Newest, home_timeline-order_free,
}
use twitter_rust_formal_veri.Store.Timeline.Newest.{IsNewer}
use twitter_rust_formal_veri.Service
use twitter_rust_formal_veri.Service.{Service, new_with_clock, home_timeline}
use twitter_rust_formal_veri.Service.Calls.{
  Call, apply, run, create_user_cases, follow_cases, unfollow_cases, post_tweet_cases,
}
use twitter_rust_formal_veri.Service.Sound.{IsSound, HasRoom, IsSound-new, next_id-above}
use twitter_rust_formal_veri.Service.Sound.Locks.{tick-IsSound}
use twitter_rust_formal_veri.Service.Sound.Requests.{
  create_user-IsSound, follow-IsSound, unfollow-IsSound, post_tweet-IsSound,
}

module _ {C : Type 0} (k : Clock C) where
  -- One call, whichever it is and whatever it answers, keeps the invariant.
  apply-IsSound : (c : Call) (s : Service C) → HasRoom k s 1 → IsSound k s → IsSound k (apply k c s)
  unfolding apply
  apply-IsSound (Call.create_user handle) s r p = create_user-IsSound k s p handle r.users
  apply-IsSound (Call.follow from to) s r p = follow-IsSound k s p from to
  apply-IsSound (Call.unfollow from to) s r p = unfollow-IsSound k s p from to
  apply-IsSound (Call.post_tweet author text) s r p = post_tweet-IsSound k s p author text r.tweets
  apply-IsSound Call.tick s r p = tick-IsSound k s p r.time

  pub HasRoom-fewer : (s : Service C) (m n : ℕ) → m ≤ n → HasRoom k s n → HasRoom k s m
  HasRoom-fewer s m n h r = record {
    tweets = omega (arith, r.tweets);
    users = omega (arith, r.users);
    time = omega (arith, r.time);
  }

  HasRoom-store :
      (s : Service C) (st : Inner) (n : ℕ)
      → HasRoom k s (suc n)
      → HasRoom k (record s { st = st }) n
  HasRoom-store s st n r = record {
    tweets = omega (arith, r.tweets);
    users = omega (arith, r.users);
    time = omega (arith, r.time);
  }

  -- A call takes one step of the room at most.
  apply-HasRoom :
      (c : Call) (s : Service C) (n : ℕ) → HasRoom k s (suc n) → HasRoom k (apply k c s) n
  unfolding apply Service.tick
  apply-HasRoom (Call.create_user handle) s n r = elim (create_user_cases s handle) [
    | inl same ↦ rw same (HasRoom-fewer s n (suc n) (omega arith) r)
    | inr made ↦ rw made (record {
      tweets = omega (arith, r.tweets);
      users = (next_id-above s.user_ids n r.users).2;
      time = omega (arith, r.time);
    })
  ]
  apply-HasRoom (Call.follow from to) s n r = elim (follow_cases s from to) [
    | inl same ↦ rw same (HasRoom-fewer s n (suc n) (omega arith) r)
    | inr (_, added) ↦ rw added (HasRoom-store s _ n r)
  ]
  apply-HasRoom (Call.unfollow from to) s n r = elim (unfollow_cases s from to) [
    | inl same ↦ rw same (HasRoom-fewer s n (suc n) (omega arith) r)
    | inr removed ↦ rw removed (HasRoom-store s _ n r)
  ]
  apply-HasRoom (Call.post_tweet author text) s n r = elim (post_tweet_cases s k author text) [
    | inl same ↦ rw same (HasRoom-fewer s n (suc n) (omega arith) r)
    | inr posted ↦ rw posted (record {
      tweets = (next_id-above s.tweet_ids n r.tweets).2;
      users = omega (arith, r.users);
      time = omega (arith, r.time);
    })
  ]
  apply-HasRoom Call.tick s n r = record {
    tweets = omega (arith, r.tweets);
    users = omega (arith, r.users);
    time =
        rw (k.now_tick s.clk)
          (omega (arith, r.time, incr_parts (k.now s.clk) (omega (arith, r.time))));
  }

  -- Any calls one after another, whatever they answer, keep the invariant, as long as the counters and
  -- the clock have room for them: edges join registered handles and no handle follows itself, tweets
  -- are of registered authors and in their lists, identifiers are unique among users and among tweets
  -- and were issued by the generators, and no tweet has a time that the clock has not reached.
  pub run-IsSound :
      (calls : List Call) (s : Service C)
      → HasRoom k s (length calls)
      → IsSound k s
      → IsSound k (run k calls s)
  unfolding run
  run-IsSound [] s r p = p
  run-IsSound (c ∷ calls) s r p =
      run-IsSound calls (apply k c s) (apply-HasRoom c s (length calls) r)
        (apply-IsSound c s (HasRoom-fewer s 1 (suc (length calls)) (omega arith) r) p)

  -- The calls leave the room that they do not take.
  pub run-HasRoom :
      (calls : List Call) (s : Service C) (n : ℕ)
      → HasRoom k s (length calls + n)
      → HasRoom k (run k calls s) n
  unfolding run
  run-HasRoom [] s n r = HasRoom-fewer s n (length {A = Call} [] + n) (omega arith) r
  run-HasRoom (c ∷ calls) s n r = run-HasRoom calls (apply k c s) n (
      apply-HasRoom c s (length calls + n)
        (HasRoom-fewer s (suc (length calls + n)) (length (c ∷ calls) + n) (omega arith) r))

  pub HasRoom-new :
      (c : C) (n : ℕ) → n ≤ i64_max → Fits (k.now c) n → HasRoom k (new_with_clock c) n
  unfolding new_with_clock
  HasRoom-new c n h fits = record {
    tweets = rw current-new (omega arith);
    users = rw current-new (omega arith);
    time = fits;
  }

  -- So a service that starts empty is sound after any calls, fewer than 2 ^ 63 and than the clock
  -- has room for.
  pub run_new-IsSound :
      (calls : List Call) (c : C)
      → length calls ≤ i64_max
      → Fits (k.now c) (length calls)
      → IsSound k (run k calls (new_with_clock c))
  run_new-IsSound calls c h fits =
      run-IsSound calls (new_with_clock c) (HasRoom-new c (length calls) h fits) (IsSound-new k c)

  module _ (calls : List Call) (c : C) (h : length calls ≤ i64_max)
      (fits : Fits (k.now c) (length calls)) where
    -- After any calls one after another from an empty service, as long as the counters and the clock
    -- have room for them, and however the hash sets are walked, a reader's timeline without a limit
    -- holds exactly the stored tweets of the reader and of those that it follows, and under any limit
    -- the tweets stand strictly newest first, the same ones whichever way the sets are walked.
    pub run-home_timeline :
        (i j i' j' : Iteration) (user : Str) (limit : ℕ) (t : Tweet)
        → let s = run k calls (new_with_clock c) in
          (Mem t (home_timeline i j s user 0)
            ↔ ((sees s.st user t.author ≡ true) × Mem t (posts s.st t.author)))
          × Pairwise IsNewer (home_timeline i j s user limit)
          × (home_timeline i j s user limit ≡ home_timeline i' j' s user limit)
    unfolding home_timeline
    run-home_timeline i j i' j' user limit t =
        let s = run k calls (new_with_clock c) in
        let p = run_new-IsSound calls c h fits in
        (
          mem-home_timeline i j s.st user p.valid.author t,
          home_timeline-Newest i j s.st user p.valid.author limit p.unique,
          home_timeline-order_free i j i' j' s.st user limit p.valid.author p.unique,
        )
