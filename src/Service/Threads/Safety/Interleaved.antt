-- ===== src/Service/Threads/Safety/Interleaved.antt =====
-- The invariant of crates/service/src/lib.rs in every interleaving of the critical sections of its
-- methods.
use twitter_rust_formal_veri.Prelude.{
  ℕ, suc, ◌==◌, ℤ, ◌≤ℤ◌, incr_parts, ◌≡◌, refl, sym, ◌∙◌, true, none, some, str_eq, List, [], ◌∷◌,
  length, ok, arith, Bool-cases, inl, inr,
}
use twitter_rust_formal_veri.Clock.{Clock}
use twitter_rust_formal_veri.Ids
use twitter_rust_formal_veri.Domain
use twitter_rust_formal_veri.Domain.{Tweet}
use twitter_rust_formal_veri.Store
use twitter_rust_formal_veri.Store.Views.{users_keys}
use twitter_rust_formal_veri.Store.Contracts.{has_user_ensures}
use twitter_rust_formal_veri.Service
use twitter_rust_formal_veri.Service.{Service, new_with_clock}
use twitter_rust_formal_veri.Service.Calls.{Call}
use twitter_rust_formal_veri.Service.Sound.{IsSound, HasRoom, IsSound-new, next_id-above}
use twitter_rust_formal_veri.Service.Sound.Locks.{NewTweetId, NewUserId}
use twitter_rust_formal_veri.Service.Sound.Runs.{HasRoom-fewer}
use twitter_rust_formal_veri.Service.Threads.{
  Pc, Answer, System, Event, begin, advance, stored, is_ready, step, run, put, start,
}
use twitter_rust_formal_veri.Service.Threads.Pending.{update-AreApart}
use twitter_rust_formal_veri.Service.Threads.Safety.{
  pending_tweet, pending_user, Knows, Kept, IsSafe,
}
use twitter_rust_formal_veri.Service.Threads.Safety.Sections.{
  same-Kept, numbered_user-Kept, numbered_tweet-Kept, stored_user-Kept, stored_follow-Kept,
  removed_follow-Kept, stored_tweet-Kept, ticked-Kept,
}

-- A thread between two calls, or at the start of one, holds no identifier.
ready_none : (p : Pc) → is_ready p ≡ true → (pending_tweet p ≡ none) × (pending_user p ≡ none)
unfolding is_ready
ready_none p e = ground arith

begin-none : (c : Call) → (pending_tweet (begin c) ≡ none) × (pending_user (begin c) ≡ none)
unfolding begin Domain.new
begin-none (Call.create_user handle) = ground arith
begin-none (Call.follow from to) = ground arith
begin-none (Call.unfollow from to) = ground arith
begin-none (Call.post_tweet author text) = ground arith
begin-none Call.tick = ground arith

module _ {C : Type 0} (k : Clock C) where
  -- A critical section takes one step of the room at most.
  advance-HasRoom :
      (s : Service C) (p : Pc) (n : ℕ) → HasRoom k s (suc n) → HasRoom k (advance k s p).0 n
  unfolding advance
  advance-HasRoom s (Pc.numbering_user handle) n r = record {
    tweets = omega (arith, r.tweets);
    users = (next_id-above s.user_ids n r.users).2;
    time = omega (arith, r.time);
  }
  advance-HasRoom s (Pc.numbering_tweet author text) n r = record {
    tweets = (next_id-above s.tweet_ids n r.tweets).2;
    users = omega (arith, r.users);
    time = omega (arith, r.time);
  }
  advance-HasRoom s Pc.ticking n r = record {
    tweets = omega (arith, r.tweets);
    users = omega (arith, r.users);
    time =
        rw (k.now_tick s.clk)
          (omega (arith, r.time, incr_parts (k.now s.clk) (omega (arith, r.time))));
  }
  advance-HasRoom s _ n r = record {
    tweets = omega (arith, r.tweets);
    users = omega (arith, r.users);
    time = omega (arith, r.time);
  }

  module _ (s : Service C) (p : IsSound k s) (room : HasRoom k s 1) where
    Issued : Pc → Type 0
    Issued pc =
        ((id : ℤ) → pending_tweet pc ≡ some id → (id ≤ℤ Ids.current s.tweet_ids) × NewTweetId s id)
        × ((id : ℤ) → pending_user pc ≡ some id → (id ≤ℤ Ids.current s.user_ids) × NewUserId s id)

    advance-Kept :
        (pc : Pc) → Issued pc → Knows k s pc → Kept k s (advance k s pc).0 pc (advance k s pc).1
    unfolding advance Issued Service.tick
    advance-Kept Pc.idle held knows = same-Kept k s p _ _ refl refl tt
    advance-Kept (Pc.done answer) held knows = same-Kept k s p _ _ refl refl tt
    advance-Kept (Pc.numbering_user handle) held knows = numbered_user-Kept k s p handle room.users
    advance-Kept (Pc.storing_user u) (_, users) knows =
        let (issued, new) = users u.id refl in stored_user-Kept k s p u _ issued new
    advance-Kept (Pc.storing_follow f) held knows = stored_follow-Kept k s p f _ knows
    advance-Kept (Pc.checking_from from to) held knows =
        elim (Bool-cases (Store.has_user s.st from)) [
          | inl e ↦ rw e (same-Kept k s p _ _ refl refl tt)
          | inr e ↦ rw e (same-Kept k s p _ _ refl refl tt)
        ]
    advance-Kept (Pc.checking_to from to) held knows = elim (Bool-cases (Store.has_user s.st to)) [
      | inl e ↦ rw e (same-Kept k s p _ _ refl refl tt)
      | inr e ↦ rw e (same-Kept k s p _ _ refl refl tt)
    ]
    advance-Kept (Pc.deleting from to) held knows = removed_follow-Kept k s p from to _
    advance-Kept (Pc.checking_author author text) held knows =
        elim (Bool-cases (Store.has_user s.st author)) [
          | inl e ↦ rw e (same-Kept k s p _ _ refl refl (sym (has_user_ensures s.st author) ∙ e))
          | inr e ↦ rw e (same-Kept k s p _ _ refl refl tt)
        ]
    advance-Kept (Pc.numbering_tweet author text) held knows =
        numbered_tweet-Kept k s p author text room.tweets knows
    advance-Kept (Pc.timing_tweet id author text) held knows =
        same-Kept k s p _ _ refl refl (knows, omega arith)
    advance-Kept (Pc.storing_tweet t) (tweets, _) (_, past) =
        let (issued, new) = tweets t.id refl in stored_tweet-Kept k s p t _ issued past new
    advance-Kept Pc.ticking held knows = ticked-Kept k s p room.time

  Knows-Kept : (s s' : Service C) (p p' pc : Pc) → Kept k s s' p p' → Knows k s pc → Knows k s' pc
  Knows-Kept s s' p p' (Pc.storing_follow f) kept knows = knows
  Knows-Kept s s' p p' (Pc.numbering_tweet author text) kept knows = kept.registered author knows
  Knows-Kept s s' p p' (Pc.timing_tweet id author text) kept knows = kept.registered author knows
  Knows-Kept s s' p p' (Pc.storing_tweet t) kept (known, past) =
      (kept.registered t.author known, omega (arith, kept.time))
  Knows-Kept s s' p p' _ kept knows = knows

  put-IsSafe :
      (i : ℕ) (s : Service C) (p : Pc) (sys : System C)
      → IsSafe k sys
      → Kept k sys.mem s (sys.pc i) p
      → IsSafe k (put i (s, p) sys)
  put-IsSafe i s p sys safe kept = record {
    sound = kept.sound;
    tweets = update-AreApart pending_tweet i p sys.pc _ _ _ _ safe.tweets kept.tweets;
    users = update-AreApart pending_user i p sys.pc _ _ _ _ safe.users kept.users;
    knows = λ j. elim (Bool-cases (i == j)) [
      | inl e ↦ rw (e, Knows) kept.knows
      | inr e ↦ rw (e, Knows) (Knows-Kept sys.mem s (sys.pc i) p (sys.pc j) kept (safe.knows j))
    ];
  }

  begin-Knows : (c : Call) (s : Service C) → Knows k s (begin c)
  unfolding begin Domain.new
  begin-Knows (Call.create_user []) s = tt
  begin-Knows (Call.create_user (c ∷ handle)) s = tt
  begin-Knows (Call.follow from to) s = elim (Bool-cases (str_eq from to)) [
    | inl e ↦ rw (e, Knows) tt
    | inr e ↦ rw (e, Knows) e
  ]
  begin-Knows (Call.unfollow from to) s = tt
  begin-Knows (Call.post_tweet author []) s = tt
  begin-Knows (Call.post_tweet author (c ∷ text)) s = tt
  begin-Knows Call.tick s = tt

  step-IsSafe :
      (e : Event) (sys : System C) → HasRoom k sys.mem 1 → IsSafe k sys → IsSafe k (step k e sys)
  unfolding step Issued
  step-IsSafe (Event.call i c) sys room safe = elim (Bool-cases (is_ready (sys.pc i))) [
    | inl e ↦
        let (no_tweet, no_user) = ready_none (sys.pc i) e in
        let (no_tweet', no_user') = begin-none c in
        rw e (
          put-IsSafe i sys.mem (begin c) sys safe (
            same-Kept k sys.mem safe.sound (sys.pc i) (begin c) (no_tweet' ∙ sym no_tweet)
              (no_user' ∙ sym no_user) (begin-Knows c sys.mem)))
    | inr e ↦ rw e safe
  ]
  step-IsSafe (Event.move i) sys room safe = elim (Bool-cases (is_ready (sys.pc i))) [
    | inl e ↦ rw e safe
    | inr e ↦ rw e (
        put-IsSafe i _ _ sys safe (
          advance-Kept sys.mem safe.sound room (sys.pc i)
            (
              λ id own. (safe.tweets.issued i id own, safe.tweets.new i id own),
              λ id own. (safe.users.issued i id own, safe.users.new i id own),
            )
            (safe.knows i)))
  ]

  step-HasRoom :
      (e : Event) (sys : System C) (n : ℕ)
      → HasRoom k sys.mem (suc n)
      → HasRoom k (step k e sys).mem n
  unfolding step
  step-HasRoom (Event.call i c) sys n r = elim (Bool-cases (is_ready (sys.pc i))) [
    | inl e ↦ rw e (HasRoom-fewer k sys.mem n (suc n) (omega arith) r)
    | inr e ↦ rw e (HasRoom-fewer k sys.mem n (suc n) (omega arith) r)
  ]
  step-HasRoom (Event.move i) sys n r = elim (Bool-cases (is_ready (sys.pc i))) [
    | inl e ↦ rw e (HasRoom-fewer k sys.mem n (suc n) (omega arith) r)
    | inr e ↦ rw e (advance-HasRoom sys.mem (sys.pc i) n r)
  ]

  -- Whatever threads do in whatever order, as long as the counters and the clock have room for it, the
  -- service keeps its invariant at every moment, also while calls are half done: edges join
  -- registered handles and no handle follows itself, tweets are of registered authors, identifiers are
  -- unique and issued, no stored time is to come. And no two threads hold one drawn identifier, a drawn
  -- one is not stored, and what a thread has checked of an author or an edge still holds.
  pub run-IsSafe :
      (events : List Event) (sys : System C)
      → HasRoom k sys.mem (length events)
      → IsSafe k sys
      → IsSafe k (run k events sys)
  unfolding run
  run-IsSafe [] sys r safe = safe
  run-IsSafe (e ∷ events) sys r safe =
      run-IsSafe events (step k e sys) (step-HasRoom e sys (length events) r)
        (step-IsSafe e sys (HasRoom-fewer k sys.mem 1 (suc (length events)) (omega arith) r) safe)

  -- After any interleaving from a safe state, a thread that has checked the author and is about to store
  -- its tweet is not refused by the store: `post_tweet` answers with the tweet.
  pub run-storing_tweet :
      (events : List Event) (sys : System C)
      → HasRoom k sys.mem (length events)
      → IsSafe k sys
      → (i : ℕ) (t : Tweet) → (run k events sys).pc i ≡ Pc.storing_tweet t
      → (advance k (run k events sys).mem (Pc.storing_tweet t)).1 ≡ Pc.done (Answer.tweet (ok t))
  unfolding advance stored Store.put_tweet users_keys
  run-storing_tweet events sys r safe i t e =
      let knows = rw e at ((run-IsSafe events sys r safe).knows i) in rw (knows.0)

  -- Before any thread has begun, over an empty store.
  pub idle-IsSafe : (c : C) → IsSafe k (start c)
  unfolding start
  idle-IsSafe c = record {
    sound = IsSound-new k c;
    tweets = record {
      issued = λ i id e. absurd (ground arith);
      new = λ i id e. absurd (ground arith);
      apart = λ i j id e e'. absurd (ground arith);
    };
    users = record {
      issued = λ i id e. absurd (ground arith);
      new = λ i id e. absurd (ground arith);
      apart = λ i j id e e'. absurd (ground arith);
    };
    knows = λ i. tt;
  }
