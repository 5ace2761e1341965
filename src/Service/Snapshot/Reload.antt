-- ===== src/Service/Snapshot/Reload.antt =====
-- A dump of a service of crates/service/src/lib.rs, loaded into another: the new service is the old one.
use twitter_rust_formal_veri.Prelude.{ℕ, pos, ◌≤ℤ◌, i64_max, Str, str_eq, ◌≡◌, sym, ap, ◌∙◌, ◌||◌}
use twitter_rust_formal_veri.Std.HashMap.{Iteration}
use twitter_rust_formal_veri.Clock.{Clock}
use twitter_rust_formal_veri.Ids
use twitter_rust_formal_veri.Store.Snapshot.Same.{IsSane, SameState, snapshot-same}
use twitter_rust_formal_veri.Store.Snapshot.Restored.{restored-SameState, restored-IsSane}
use twitter_rust_formal_veri.Store.Timeline.Contents.{home_timeline-same}
use twitter_rust_formal_veri.Service.{Service, home_timeline}
use twitter_rust_formal_veri.Service.Sound.{IsSound}
use twitter_rust_formal_veri.Service.Snapshot.{snapshot_state, load_state}

module _ {C : Type 0} (k : Clock C) where
  IsSane-of_IsSound : (s : Service C) → IsSound k s → IsSane s.st
  IsSane-of_IsSound s p = record { valid = p.valid; tweets = p.unique; users = p.user_unique }

module _ {C D : Type 0} (k : Clock C) (k' : Clock D) (q r m l : Iteration) (s : Service C)
    (old : Service D) (p : IsSound k s) (ahead : k'.now old.clk ≤ℤ k.now s.clk)
    (fits : k.now s.clk ≤ℤ pos i64_max) where
  abbrev loaded : Service D
  loaded = load_state k' (snapshot_state k q r m l s) old

  loaded-SameState : SameState loaded.st s.st
  unfolding load_state snapshot_state
  loaded-SameState = restored-SameState q r m l s.st (IsSane-of_IsSound k s p) old.st

  loaded-IsSane : IsSane loaded.st
  unfolding load_state snapshot_state
  loaded-IsSane = restored-IsSane q r m l s.st (IsSane-of_IsSound k s p) old.st

  same_time : k'.now loaded.clk ≡ k.now s.clk
  unfolding load_state snapshot_state
  same_time = k'.now_set_now old.clk (k.now s.clk) ahead fits

  same_tweet_ids : Ids.current loaded.tweet_ids ≡ Ids.current s.tweet_ids
  unfolding load_state snapshot_state
  same_tweet_ids = Ids.current-set_current old.tweet_ids (Ids.current s.tweet_ids)

  same_user_ids : Ids.current loaded.user_ids ≡ Ids.current s.user_ids
  unfolding load_state snapshot_state
  same_user_ids = Ids.current-set_current old.user_ids (Ids.current s.user_ids)

  loaded-IsSound : IsSound k' loaded
  loaded-IsSound = record {
    valid = loaded-IsSane.valid;
    unique = loaded-IsSane.tweets;
    tweet_below =
        λ a t n. rw same_tweet_ids (p.tweet_below a t ((loaded-SameState.tweets a t).0 n));
    tweet_past = λ a t n. rw same_time (p.tweet_past a t ((loaded-SameState.tweets a t).0 n));
    user_below = λ h u e. rw same_user_ids (p.user_below h u (sym (loaded-SameState.users h) ∙ e));
    user_unique = loaded-IsSane.users;
  }

  -- A dump of a sound service, loaded into any service whose clock is not ahead: the loaded service is
  -- sound, every timeline under every limit is the same, and a dump of it is the dump again, whatever
  -- the orders in which the maps and the sets are walked.
  pub load_state-snapshot_state :
      (i j i' j' q' r' m' l' : Iteration) (user : Str) (limit : ℕ)
      → IsSound k' loaded
        × (home_timeline i j loaded user limit ≡ home_timeline i' j' s user limit)
        × (snapshot_state k' q' r' m' l' loaded ≡ snapshot_state k q r m l s)
  unfolding home_timeline snapshot_state
  load_state-snapshot_state i j i' j' q' r' m' l' user limit = (
    loaded-IsSound,
    home_timeline-same i j i' j' loaded.st s.st user limit loaded-IsSane.valid.author
        loaded-IsSane.tweets p.valid.author p.unique
        (λ a. ap (λ e. str_eq user a || e) (loaded-SameState.edges user a)) loaded-SameState.tweets,
    λ x. record {
      clock_now = same_time x;
      id_counter_users = same_user_ids x;
      id_counter_tweets = same_tweet_ids x;
      store =
          snapshot-same q' r' m' l' q r m l loaded.st s.st loaded-IsSane (IsSane-of_IsSound k s p)
            loaded-SameState x;
    },
  )
