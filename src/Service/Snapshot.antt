-- ===== src/Service/Snapshot.antt =====
-- `snapshot_state` and `load_state` of crates/service/src/lib.rs: the whole state out of the service,
-- and into it.
pub mod Reload
pub mod Torn
use twitter_rust_formal_veri.Prelude.{ℤ, pos, ◌≤ℤ◌, i64_max, ◌≡◌, refl}
use twitter_rust_formal_veri.Std.HashMap.{Iteration}
use twitter_rust_formal_veri.Clock.{Clock}
use twitter_rust_formal_veri.Ids
use twitter_rust_formal_veri.Store.Snapshot
use twitter_rust_formal_veri.Store.Snapshot.{StoreSnapshot}
use twitter_rust_formal_veri.Service.{Service}

pub record ServiceState : Type 0 where
  pub clock_now : ℤ
  pub id_counter_users : ℤ
  pub id_counter_tweets : ℤ
  pub store : StoreSnapshot

module _ {C : Type 0} (k : Clock C) where
  unfoldable pub snapshot_state :
      Iteration → Iteration → Iteration → Iteration → Service C → ServiceState
  snapshot_state user_order from_order to_order list_order s = record {
    clock_now = k.now s.clk;
    id_counter_users = Ids.current s.user_ids;
    id_counter_tweets = Ids.current s.tweet_ids;
    store = Snapshot.snapshot user_order from_order to_order list_order s.st;
  }

  -- The four calls are four critical sections, one after another.
  unfoldable pub load_store : ServiceState → Service C → Service C
  load_store state s = record s { st = Snapshot.replace state.store s.st }

  unfoldable pub load_user_ids : ServiceState → Service C → Service C
  load_user_ids state s = record s { user_ids = Ids.set_current s.user_ids state.id_counter_users }

  unfoldable pub load_tweet_ids : ServiceState → Service C → Service C
  load_tweet_ids state s = record s {
    tweet_ids = Ids.set_current s.tweet_ids state.id_counter_tweets;
  }

  unfoldable pub load_clock : ServiceState → Service C → Service C
  load_clock state s = record s { clk = k.set_now s.clk state.clock_now }

  unfoldable pub load_state : ServiceState → Service C → Service C
  unfolding load_store load_user_ids load_tweet_ids load_clock
  load_state state s =
      load_clock state (load_tweet_ids state (load_user_ids state (load_store state s)))

  -- A state that is not behind the clock is loaded whole: a snapshot taken after `load_state` has the
  -- clock and both counters of the loaded state, and the store is the one that `replace` leaves.
  pub snapshot_state-load_state :
      (i j i' j' : Iteration) (state : ServiceState) (s : Service C)
      → k.now s.clk ≤ℤ state.clock_now
      → state.clock_now ≤ℤ pos i64_max
      → let after = snapshot_state i j i' j' (load_state state s) in
        (after.clock_now ≡ state.clock_now)
        × (after.id_counter_users ≡ state.id_counter_users)
        × (after.id_counter_tweets ≡ state.id_counter_tweets)
        × (after.store ≡ Snapshot.snapshot i j i' j' (Snapshot.replace state.store s.st))
  unfolding snapshot_state load_state
  snapshot_state-load_state i j i' j' state s ahead fits = (
    k.now_set_now s.clk state.clock_now ahead fits,
    Ids.current-set_current s.user_ids state.id_counter_users,
    Ids.current-set_current s.tweet_ids state.id_counter_tweets,
    refl,
  )
