-- ===== src/Service/Threads/Dumps.antt =====
-- `snapshot_state` and `load_state` of crates/service/src/lib.rs beside the requests: each takes four
-- locks in turn, and the critical sections of requests, of dumps and of loads may come between.
pub mod Alone
pub mod Orderly
pub mod Torn
use twitter_rust_formal_veri.Prelude.{ℕ, ◌==◌, ℤ, Bool, true, false, List, [], ◌∷◌, if◌then◌else◌}
use twitter_rust_formal_veri.Std.HashMap.{Iteration}
use twitter_rust_formal_veri.Clock.{Clock}
use twitter_rust_formal_veri.Ids
use twitter_rust_formal_veri.Store.Snapshot
use twitter_rust_formal_veri.Service.{Service}
use twitter_rust_formal_veri.Service.Snapshot.{
  ServiceState, load_store, load_user_ids, load_tweet_ids, load_clock,
}
use twitter_rust_formal_veri.Service.Threads
use twitter_rust_formal_veri.Service.Threads.{System, Event}

pub data AdminCall : Type 0 where
  snapshot_state : AdminCall
  load_state : ServiceState → AdminCall

-- Where an administrator stands: before the critical section that is named, with what has been read, or
-- at the end of a call.
pub data AdminPc : Type 0 where
  idle loaded : AdminPc
  dumped : ServiceState → AdminPc
  reading_clock : AdminPc
  reading_user_ids : ℤ → AdminPc
  reading_tweet_ids : ℤ → ℤ → AdminPc
  reading_store : ℤ → ℤ → ℤ → AdminPc
  loading_store loading_user_ids loading_tweet_ids loading_clock : ServiceState → AdminPc

unfoldable pub begin_admin : AdminCall → AdminPc
begin_admin AdminCall.snapshot_state = AdminPc.reading_clock
begin_admin (AdminCall.load_state state) = AdminPc.loading_store state

-- One that stands between two calls
unfoldable pub is_free : AdminPc → Bool
is_free AdminPc.idle = true
is_free AdminPc.loaded = true
is_free (AdminPc.dumped state) = true
is_free _ = false

-- The service, the threads of the requests, and the administrators.
pub record Shared (C : Type 0) : Type 0 where
  pub threads : System C
  pub admins : ℕ → AdminPc

-- What a request's thread does, or what an administrator does: one that is free begins a call, or one in
-- a call makes its next move.
pub data Action : Type 0 where
  request : Event → Action
  admin_call : ℕ → AdminCall → Action
  admin_move : ℕ → Action

abbrev pub seat : ℕ → AdminPc → (ℕ → AdminPc) → ℕ → AdminPc
seat a p admins b = if a == b then p else admins b

module _ {C : Type 0} (k : Clock C) (i j m l : Iteration) where
  -- One critical section of `snapshot_state` or of `load_state`.
  unfoldable pub advance_admin : Service C → AdminPc → Service C × AdminPc
  advance_admin s AdminPc.idle = (s, AdminPc.idle)
  advance_admin s AdminPc.loaded = (s, AdminPc.loaded)
  advance_admin s (AdminPc.dumped state) = (s, AdminPc.dumped state)
  advance_admin s AdminPc.reading_clock = (s, AdminPc.reading_user_ids (k.now s.clk))
  advance_admin s (AdminPc.reading_user_ids now) =
      (s, AdminPc.reading_tweet_ids now (Ids.current s.user_ids))
  advance_admin s (AdminPc.reading_tweet_ids now users) =
      (s, AdminPc.reading_store now users (Ids.current s.tweet_ids))
  advance_admin s (AdminPc.reading_store now users tweets) = (
    s,
    AdminPc.dumped (record {
      clock_now = now;
      id_counter_users = users;
      id_counter_tweets = tweets;
      store = Snapshot.snapshot i j m l s.st;
    }),
  )
  advance_admin s (AdminPc.loading_store state) =
      (load_store k state s, AdminPc.loading_user_ids state)
  advance_admin s (AdminPc.loading_user_ids state) =
      (load_user_ids k state s, AdminPc.loading_tweet_ids state)
  advance_admin s (AdminPc.loading_tweet_ids state) =
      (load_tweet_ids k state s, AdminPc.loading_clock state)
  advance_admin s (AdminPc.loading_clock state) = (load_clock k state s, AdminPc.loaded)

  -- The administrator `a` goes to `p`, and the service to `s`.
  abbrev pub put_admin : ℕ → Service C × AdminPc → Shared C → Shared C
  put_admin a (s, p) sys = record {
    threads = record sys.threads { mem = s };
    admins = seat a p sys.admins;
  }

  unfoldable pub act : Action → Shared C → Shared C
  unfolding is_free advance_admin begin_admin
  act (Action.request e) sys = record sys { threads = Threads.step k e sys.threads }
  act (Action.admin_call a c) sys =
      if is_free (sys.admins a) then put_admin a (sys.threads.mem, begin_admin c) sys else sys
  act (Action.admin_move a) sys =
      if is_free (sys.admins a)
      then sys
      else put_admin a (advance_admin sys.threads.mem (sys.admins a)) sys

  unfoldable pub act_all : List Action → Shared C → Shared C
  act_all [] sys = sys
  act_all (a ∷ actions) sys = act_all actions (act a sys)
