-- ===== src/Service/Spec/Refines.antt =====
-- The code of crates/service/src/lib.rs refines its specification.
use twitter_rust_formal_veri.Prelude.{
  incr, Str, ◌≡◌, refl, sym, ap, ◌∙◌, List, [], ◌∷◌, Result, ok, err, arith, Bool-cases, inl, inr,
}
use twitter_rust_formal_veri.Clock.{Clock}
use twitter_rust_formal_veri.Ids
use twitter_rust_formal_veri.Ids.{next_id_lem}
use twitter_rust_formal_veri.Domain.{User, Tweet}
use twitter_rust_formal_veri.Store.Views.{
  users_keys, user_at, follow_edges, posts, user_at-eq-none, user_at_of_users_keys,
}
use twitter_rust_formal_veri.Service
use twitter_rust_formal_veri.Service.{Service, ServiceError}
use twitter_rust_formal_veri.Service.Calls.{Call, apply, run}
use twitter_rust_formal_veri.Service.Contracts.{
  CreateUserEnsures, FollowEnsures, UnfollowEnsures, PostTweetEnsures, SameOutside,
  create_user_ensures, follow_ensures, unfollow_ensures, post_tweet_ensures,
}
use twitter_rust_formal_veri.Service.Threads.{Answer}
use twitter_rust_formal_veri.Service.Threads.Alone.{answer, answers}
use twitter_rust_formal_veri.Service.Spec.{
  World, World-eq, is_registered, answer_of, after, turn, promises,
}

module _ {C : Type 0} (k : Clock C) where
  -- What the code's state stands for.
  unfoldable pub world : Service C → World
  world s = record {
    users = user_at s.st;
    follows = follow_edges s.st;
    tweets = posts s.st;
    last_user = Ids.current s.user_ids;
    last_tweet = Ids.current s.tweet_ids;
    time = k.now s.clk;
  }

  is_registered-world : (s : Service C) (h : Str) → is_registered (world s) h ≡ users_keys s.st h
  unfolding world
  is_registered-world s h = elim (Bool-cases (users_keys s.st h)) [
    | inl e ↦ let (u, found) = user_at_of_users_keys s.st h e in ground (arith, found)
    | inr e ↦ ground (arith, user_at-eq-none s.st h e)
  ]

  next_user-world : (s : Service C) → incr (world s).last_user ≡ (Ids.next_id s.user_ids).0
  unfolding world
  next_user-world s = sym (next_id_lem s.user_ids).0

  next_tweet-world : (s : Service C) → incr (world s).last_tweet ≡ (Ids.next_id s.tweet_ids).0
  unfolding world
  next_tweet-world s = sym (next_id_lem s.tweet_ids).0

  time-world : (s : Service C) → (world s).time ≡ k.now s.clk
  unfolding world
  time-world s = refl

  -- The code answers what the specification does.
  answer-world : (c : Call) (s : Service C) → answer k c s ≡ answer_of c (world s)
  unfolding answer answer_of
  answer-world (Call.create_user handle) s =
      ap Answer.user (
        rw (is_registered-world s handle, next_user-world s) (create_user_ensures s handle).outcome)
  answer-world (Call.follow from to) s =
      ap Answer.unit (
        rw (is_registered-world s from, is_registered-world s to)
          (follow_ensures s from to).outcome)
  answer-world (Call.unfollow from to) s = ap Answer.unit (
      rw (is_registered-world s from, is_registered-world s to)
        (unfollow_ensures s from to).outcome)
  answer-world (Call.post_tweet author text) s = ap Answer.tweet (
      rw (is_registered-world s author, next_tweet-world s, time-world s)
        (post_tweet_ensures s k author text).outcome)
  answer-world Call.tick s = refl

  -- The counters and the time, where only the store has changed.
  record SameCounters (s s' : Service C) : Type 0 where
    last_user : Ids.current s.user_ids ≡ Ids.current s'.user_ids
    last_tweet : Ids.current s.tweet_ids ≡ Ids.current s'.tweet_ids
    time : k.now s.clk ≡ k.now s'.clk

  SameCounters-of_outside : (s s' : Service C) → SameOutside s s' → SameCounters s s'
  SameCounters-of_outside s s' rest = record {
    last_user = sym (ap (λ (x : Service C). Ids.current x.user_ids) rest);
    last_tweet = sym (ap (λ (x : Service C). Ids.current x.tweet_ids) rest);
    time = sym (ap (λ (x : Service C). k.now x.clk) rest);
  }

  follow-world :
      (s s' : Service C) (from to : Str) (r : Result ServiceError (Unit {0}))
      → FollowEnsures s s' from to r
      → after (Call.follow from to) (Answer.unit r) (world s) ≡ world s'
  unfolding after world
  follow-world s s' from to (ok _) e =
      let same = SameCounters-of_outside s s' e.rest in
      World-eq _ _ (λ h. sym (e.users h)) (λ a b. sym (e.edges a b)) (λ a. sym (e.tweets a))
        same.last_user same.last_tweet same.time
  follow-world s s' from to (err _) e =
      let same = SameCounters-of_outside s s' e.rest in
      World-eq _ _ (λ h. sym (e.users h)) (λ a b. sym (e.edges a b)) (λ a. sym (e.tweets a))
        same.last_user same.last_tweet same.time

  unfollow-world :
      (s s' : Service C) (from to : Str) (r : Result ServiceError (Unit {0}))
      → UnfollowEnsures s s' from to r
      → after (Call.unfollow from to) (Answer.unit r) (world s) ≡ world s'
  unfolding after world
  unfollow-world s s' from to (ok _) e =
      let same = SameCounters-of_outside s s' e.rest in
      World-eq _ _ (λ h. sym (e.users h)) (λ a b. sym (e.edges a b)) (λ a. sym (e.tweets a))
        same.last_user same.last_tweet same.time
  unfollow-world s s' from to (err _) e =
      let same = SameCounters-of_outside s s' e.rest in
      World-eq _ _ (λ h. sym (e.users h)) (λ a b. sym (e.edges a b)) (λ a. sym (e.tweets a))
        same.last_user same.last_tweet same.time

  create_user-world :
      (s s' : Service C) (handle : Str) (r : Result ServiceError User)
      → CreateUserEnsures s s' handle r
      → after (Call.create_user handle) (Answer.user r) (world s) ≡ world s'
  unfolding after world
  create_user-world s s' handle (ok u) e =
      World-eq _ _ (λ h. ground (arith, e.users h, e.outcome)) (λ a b. sym (e.edges a b))
        (λ a. sym (e.tweets a)) (ground (arith, e.outcome, e.spent, next_id_lem s.user_ids))
        (sym (ap (λ (x : Service C). Ids.current x.tweet_ids) e.rest))
        (sym (ap (λ (x : Service C). k.now x.clk) e.rest))
  create_user-world s s' handle (err Service.duplicate_user) e =
      World-eq _ _ (λ h. sym (e.users h)) (λ a b. sym (e.edges a b)) (λ a. sym (e.tweets a))
        (ground (arith, e.outcome, e.spent))
        (sym (ap (λ (x : Service C). Ids.current x.tweet_ids) e.rest))
        (sym (ap (λ (x : Service C). k.now x.clk) e.rest))
  create_user-world s s' handle (err _) e =
      World-eq _ _ (λ h. sym (e.users h)) (λ a b. sym (e.edges a b)) (λ a. sym (e.tweets a))
        (ground (arith, e.outcome, e.spent))
        (sym (ap (λ (x : Service C). Ids.current x.tweet_ids) e.rest))
        (sym (ap (λ (x : Service C). k.now x.clk) e.rest))

  post_tweet-world :
      (s s' : Service C) (author text : Str) (r : Result ServiceError Tweet)
      → PostTweetEnsures s s' k author text r
      → after (Call.post_tweet author text) (Answer.tweet r) (world s) ≡ world s'
  unfolding after world
  post_tweet-world s s' author text (ok t) e =
      World-eq _ _ (λ h. sym (e.users h)) (λ a b. sym (e.edges a b))
        (λ a. ground (arith, e.tweets a, e.outcome))
        (sym (ap (λ (x : Service C). Ids.current x.user_ids) e.rest))
        (ground (arith, e.outcome, e.spent, next_id_lem s.tweet_ids))
        (sym (ap (λ (x : Service C). k.now x.clk) e.rest))
  post_tweet-world s s' author text (err _) e =
      World-eq _ _ (λ h. sym (e.users h)) (λ a b. sym (e.edges a b)) (λ a. sym (e.tweets a))
        (sym (ap (λ (x : Service C). Ids.current x.user_ids) e.rest)) (sym e.spent)
        (sym (ap (λ (x : Service C). k.now x.clk) e.rest))

  tick-world : (s : Service C) → after Call.tick Answer.ticked (world s) ≡ world (Service.tick k s)
  unfolding after world Service.tick
  tick-world s =
      World-eq _ _ (λ h. refl) (λ a b. refl) (λ a. refl) refl refl (sym (k.now_tick s.clk))

  -- A call of the code leaves the world that the specification does.
  apply-world : (c : Call) (s : Service C) → after c (answer k c s) (world s) ≡ world (apply k c s)
  unfolding answer apply
  apply-world (Call.create_user handle) s =
      create_user-world s _ handle _ (create_user_ensures s handle)
  apply-world (Call.follow from to) s = follow-world s _ from to _ (follow_ensures s from to)
  apply-world (Call.unfollow from to) s = unfollow-world s _ from to _ (unfollow_ensures s from to)
  apply-world (Call.post_tweet author text) s =
      post_tweet-world s _ author text _ (post_tweet_ensures s k author text)
  apply-world Call.tick s = tick-world s

  -- One call of the code is one turn of the specification.
  turn-world : (c : Call) (s : Service C) → turn c (world s) ≡ (answer k c s, world (apply k c s))
  unfolding turn
  turn-world c s = rw (← answer-world c s) (ap (λ w. (answer k c s, w)) (apply-world c s))

  -- The code refines its specification: requests one after another are answered as the specification
  -- says, and leave a state that stands for the world that it says.
  pub run-refines :
      (calls : List Call) (s : Service C) (earlier : List Answer)
      → promises calls (earlier, world s) ≡ (answers k calls s earlier, world (run k calls s))
  unfolding promises answers run
  run-refines [] s earlier = refl
  run-refines (c ∷ calls) s earlier =
      ap (λ (r : Answer × World). promises calls (r.0 ∷ earlier, r.1)) (turn-world c s)
      ∙ run-refines calls (apply k c s) (answer k c s ∷ earlier)
