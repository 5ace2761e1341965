-- ===== src/Service/Threads/Safety.antt =====
-- The invariant of crates/service/src/lib.rs under threads: what each knows between two locks, and that
-- a critical section of one leaves it true for the others.
pub mod Sections
pub mod Interleaved
use twitter_rust_formal_veri.Prelude.{ℕ, ℤ, ◌≤ℤ◌, Str, str_eq, ◌≡◌, true, false, Option, none, some}
use twitter_rust_formal_veri.Clock.{Clock}
use twitter_rust_formal_veri.Ids
use twitter_rust_formal_veri.Store.Views.{users_keys}
use twitter_rust_formal_veri.Service.{Service}
use twitter_rust_formal_veri.Service.Sound.{IsSound}
use twitter_rust_formal_veri.Service.Sound.Locks.{NewTweetId, NewUserId}
use twitter_rust_formal_veri.Service.Threads.{Pc, System}
use twitter_rust_formal_veri.Service.Threads.Pending.{AreApart, Moves}

-- The identifier that a thread has drawn for a tweet, or for a user, and not stored.
abbrev pub pending_tweet : Pc → Option ℤ
pending_tweet (Pc.timing_tweet id author text) = some id
pending_tweet (Pc.storing_tweet t) = some t.id
pending_tweet _ = none

abbrev pub pending_user : Pc → Option ℤ
pending_user (Pc.storing_user u) = some u.id
pending_user _ = none

module _ {C : Type 0} (k : Clock C) where
  -- What a thread has checked, and still holds.
  abbrev pub Knows : Service C → Pc → Type 0
  Knows s (Pc.storing_follow f) = str_eq f.from f.to ≡ false
  Knows s (Pc.numbering_tweet author text) = users_keys s.st author ≡ true
  Knows s (Pc.timing_tweet id author text) = users_keys s.st author ≡ true
  Knows s (Pc.storing_tweet t) = (users_keys s.st t.author ≡ true) × (t.created_at ≤ℤ k.now s.clk)
  Knows s _ = Unit {0}

  pub record IsSafe (sys : System C) : Type 0 where
    pub sound : IsSound k sys.mem
    pub tweets : AreApart pending_tweet (Ids.current sys.mem.tweet_ids) (NewTweetId sys.mem) sys.pc
    pub users : AreApart pending_user (Ids.current sys.mem.user_ids) (NewUserId sys.mem) sys.pc
    pub knows : (i : ℕ) → Knows sys.mem (sys.pc i)

  -- What a move keeps, for the thread that makes it and for the others.
  pub record Kept (s s' : Service C) (p p' : Pc) : Type 0 where
    pub sound : IsSound k s'
    pub tweets :
        Moves pending_tweet
          (Ids.current s.tweet_ids)
          (Ids.current s'.tweet_ids)
          (NewTweetId s)
          (NewTweetId s')
          p
          p'
    pub users :
        Moves pending_user
          (Ids.current s.user_ids)
          (Ids.current s'.user_ids)
          (NewUserId s)
          (NewUserId s')
          p
          p'
    pub knows : Knows s' p'
    pub time : k.now s.clk ≤ℤ k.now s'.clk
    pub registered : (h : Str) → users_keys s.st h ≡ true → users_keys s'.st h ≡ true
