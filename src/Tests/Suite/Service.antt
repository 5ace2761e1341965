-- ===== src/Tests/Suite/Service.antt =====
-- The unit tests of crates/service/src/lib.rs, but for those on handles and traits of Rust.
use twitter_rust_formal_veri.Prelude.{
  ◌==◌, ℤ, pos, lit, Str, str_eq, Bool, true, not, ◌&&◌, List, [], ◌∷◌, map, length, ◌≡◌, refl,
  Result,
}
use twitter_rust_formal_veri.Prelude.Int.{incr}
use twitter_rust_formal_veri.Clock
use twitter_rust_formal_veri.Clock.{Logical, logical_clock}
use twitter_rust_formal_veri.Ids
use twitter_rust_formal_veri.Domain
use twitter_rust_formal_veri.Domain.{User, Tweet}
use twitter_rust_formal_veri.Std.HashMap
use twitter_rust_formal_veri.Std.HashSet
use twitter_rust_formal_veri.Std.Sort.{sort_by}
use twitter_rust_formal_veri.Store
use twitter_rust_formal_veri.Store.Snapshot
use twitter_rust_formal_veri.Service
use twitter_rust_formal_veri.Service.{Service, ServiceError, from_domain, from_store}
use twitter_rust_formal_veri.Service.Snapshot.{ServiceState, snapshot_state, load_state}
use twitter_rust_formal_veri.Tests.Data.{forwards, backwards, alice, bob, carol}
use twitter_rust_formal_veri.Tests.Suite.{
  Program, ◌>>=◌, ◌>>◌, unwrap, unwrap_err, modify, call, assert, passes, all_pass, same_int,
  same_ints,
}
use twitter_rust_formal_veri.Tests.Suite.Store.{same_snapshot}

abbrev ghost : Str
ghost = lit "ghost"

abbrev same_error : ServiceError → ServiceError → Bool
same_error e f = str_eq (Service.fmt e) (Service.fmt f)

abbrev pub post : Str → Str → Service Logical → Result ServiceError Tweet × Service Logical
post author text s = Service.post_tweet logical_clock author text s

abbrev tick : Service Logical → Service Logical
tick s = Service.tick logical_clock s

abbrev now : Service Logical → ℤ
now s = Clock.now s.clk

abbrev timeline_ids : Str → Service Logical → List ℤ
timeline_ids user s = map (λ (t : Tweet). t.id) (Service.home_timeline forwards backwards s user 0)

abbrev pub dump : Service Logical → ServiceState
dump s = snapshot_state logical_clock forwards backwards backwards forwards s

abbrev pub same_state : ServiceState → ServiceState → Bool
same_state s t =
    same_int s.clock_now t.clock_now
    && same_int s.id_counter_users t.id_counter_users
    && same_int s.id_counter_tweets t.id_counter_tweets
    && same_snapshot s.store t.store

abbrev new_state : ServiceState
new_state = record {
  clock_now = pos 7;
  id_counter_users = pos 3;
  id_counter_tweets = pos 0;
  store = record {
    users =
        record { id = pos 1; handle = alice }
        ∷ record { id = pos 2; handle = bob }
        ∷ record { id = pos 3; handle = carol }
        ∷ [];
    follows = [];
    tweets = [];
  };
}

abbrev create_user_rejects_empty : Program (Service Logical) (Unit {0})
create_user_rejects_empty = do
  error ← unwrap_err (Service.create_user [])
  assert (λ s. same_error error Service.empty_handle)

abbrev create_user_assigns_monotonic_ids : Program (Service Logical) (Unit {0})
create_user_assigns_monotonic_ids = do
  a ← unwrap (Service.create_user alice)
  b ← unwrap (Service.create_user bob)
  c ← unwrap (Service.create_user carol)
  assert (λ s. same_ints (a.id ∷ b.id ∷ c.id ∷ []) (pos 1 ∷ pos 2 ∷ pos 3 ∷ []))

abbrev create_user_duplicate : Program (Service Logical) (Unit {0})
create_user_duplicate = do
  unwrap (Service.create_user alice)
  error ← unwrap_err (Service.create_user alice)
  assert (λ s. same_error error Service.duplicate_user)

abbrev has_user : Program (Service Logical) (Unit {0})
has_user = do
  assert (λ s. not (Service.has_user s alice))
  unwrap (Service.create_user alice)
  assert (λ s. Service.has_user s alice)

abbrev follow_rejects_self_f4 : Program (Service Logical) (Unit {0})
follow_rejects_self_f4 = do
  unwrap (Service.create_user alice)
  error ← unwrap_err (Service.follow alice alice)
  assert (λ s. same_error error Service.self_follow)

abbrev follow_rejects_unknown : Program (Service Logical) (Unit {0})
follow_rejects_unknown = do
  unwrap (Service.create_user alice)
  error ← unwrap_err (Service.follow alice ghost)
  assert (λ s. same_error error Service.unknown_user)
  other ← unwrap_err (Service.follow ghost alice)
  assert (λ s. same_error other Service.unknown_user)

abbrev follow_idempotent_f3 : Program (Service Logical) (Unit {0})
follow_idempotent_f3 = do
  unwrap (Service.create_user alice)
  unwrap (Service.create_user bob)
  unwrap (Service.follow alice bob)
  unwrap (Service.follow alice bob)
  assert (λ s. true)

abbrev unfollow_idempotent_on_missing : Program (Service Logical) (Unit {0})
unfollow_idempotent_on_missing = do
  unwrap (Service.create_user alice)
  unwrap (Service.create_user bob)
  unwrap (Service.unfollow alice bob)
  unwrap (Service.follow alice bob)
  unwrap (Service.unfollow alice bob)
  unwrap (Service.unfollow alice bob)
  assert (λ s. true)

abbrev unfollow_rejects_unknown : Program (Service Logical) (Unit {0})
unfollow_rejects_unknown = do
  unwrap (Service.create_user alice)
  error ← unwrap_err (Service.unfollow alice ghost)
  assert (λ s. same_error error Service.unknown_user)
  other ← unwrap_err (Service.unfollow ghost alice)
  assert (λ s. same_error other Service.unknown_user)

abbrev post_tweet_rejects_empty_text : Program (Service Logical) (Unit {0})
post_tweet_rejects_empty_text = do
  unwrap (Service.create_user alice)
  error ← unwrap_err (post alice [])
  assert (λ s. same_error error Service.empty_text)

abbrev post_tweet_rejects_unknown_author_f6 : Program (Service Logical) (Unit {0})
post_tweet_rejects_unknown_author_f6 = do
  error ← unwrap_err (post ghost (lit "hi"))
  assert (λ s. same_error error Service.unknown_user)

abbrev post_tweet_uses_clock_and_ids : Program (Service Logical) (Unit {0})
post_tweet_uses_clock_and_ids = do
  unwrap (Service.create_user alice)
  modify tick
  t1 ← unwrap (post alice (lit "first"))
  t2 ← unwrap (post alice (lit "second"))
  assert (λ s. same_ints (t1.id ∷ t2.id ∷ []) (pos 1 ∷ pos 2 ∷ []))
  assert (λ s. same_ints (t1.created_at ∷ t2.created_at ∷ []) (pos 1 ∷ pos 1 ∷ []))

abbrev home_timeline_visibility_f1_and_order_f2 : Program (Service Logical) (Unit {0})
home_timeline_visibility_f1_and_order_f2 = do
  unwrap (Service.create_user alice)
  unwrap (Service.create_user bob)
  unwrap (Service.create_user carol)
  unwrap (Service.follow alice bob)
  modify tick
  unwrap (post bob (lit "first"))
  unwrap (post bob (lit "second"))
  unwrap (post carol (lit "invisible"))
  assert (λ s. same_ints (timeline_ids alice s) (pos 2 ∷ pos 1 ∷ []))

abbrev service_tick_advances_inner_clock : Program (Service Logical) (Unit {0})
service_tick_advances_inner_clock = do
  assert (λ s. same_int (now s) (pos 0))
  modify tick
  assert (λ s. same_int (now s) (pos 1))
  modify tick
  modify tick
  assert (λ s. same_int (now s) (pos 3))

abbrev service_error_display : Program (Service Logical) (Unit {0})
service_error_display = do
  assert (λ s. str_eq (Service.fmt Service.empty_handle) (lit "empty_handle"))
  assert (λ s. str_eq (Service.fmt Service.empty_text) (lit "empty_text"))
  assert (λ s. str_eq (Service.fmt Service.self_follow) (lit "self_follow_forbidden"))
  assert (λ s. str_eq (Service.fmt Service.unknown_user) (lit "unknown_user"))
  assert (λ s. str_eq (Service.fmt Service.duplicate_user) (lit "duplicate_user"))

abbrev from_domain_error : Program (Service Logical) (Unit {0})
from_domain_error = do assert (λ s. same_error (from_domain Domain.self_follow) Service.self_follow)

abbrev from_store_error : Program (Service Logical) (Unit {0})
from_store_error = do
  assert (λ s. same_error (from_store Store.unknown_user) Service.unknown_user)
  assert (λ s. same_error (from_store Store.duplicate_user) Service.duplicate_user)

abbrev home_timeline_unknown_user_returns_empty : Program (Service Logical) (Unit {0})
home_timeline_unknown_user_returns_empty = do assert (λ s. same_ints (timeline_ids ghost s) [])

abbrev snapshot_state_captures_full_state : Program (Service Logical) (Unit {0})
snapshot_state_captures_full_state = do
  unwrap (Service.create_user alice)
  unwrap (Service.create_user bob)
  unwrap (Service.follow alice bob)
  modify tick
  modify tick
  unwrap (post alice (lit "hi"))
  assert (λ s. same_int (dump s).clock_now (pos 2))
  assert (λ s. same_int (dump s).id_counter_users (pos 2))
  assert (λ s. same_int (dump s).id_counter_tweets (pos 1))
  assert (λ s. length (dump s).store.users == 2)
  assert (λ s. length (dump s).store.follows == 1)
  assert (λ s. length (dump s).store.tweets == 1)

abbrev load_state_round_trips_through_a_fresh_service : Program (Service Logical) (Unit {0})
load_state_round_trips_through_a_fresh_service = do
  unwrap (Service.create_user alice)
  unwrap (Service.create_user bob)
  unwrap (Service.follow alice bob)
  modify tick
  unwrap (post alice (lit "hi"))
  unwrap (post bob (lit "yo"))
  snap ← call (λ s. (dump s, s))
  modify (λ s. load_state logical_clock snap (Service.new_with_clock Clock.new))
  assert (λ s. same_state (dump s) snap)
  new_user ← unwrap (Service.create_user carol)
  assert (λ s. same_int new_user.id (pos 3))

abbrev load_state_replaces_existing_state : Program (Service Logical) (Unit {0})
load_state_replaces_existing_state = do
  unwrap (Service.create_user ghost)
  modify (load_state logical_clock new_state)
  assert (λ s. not (Service.has_user s ghost))
  assert (λ s. Service.has_user s alice)
  assert (λ s. Service.has_user s bob)
  assert (λ s. Service.has_user s carol)

service_tests_pass :
    all_pass (
      map (passes (Service.new_with_clock Clock.new)) (
        create_user_rejects_empty ∷ create_user_assigns_monotonic_ids ∷ create_user_duplicate
        ∷ has_user ∷ follow_rejects_self_f4 ∷ follow_rejects_unknown ∷ follow_idempotent_f3
        ∷ unfollow_idempotent_on_missing ∷ unfollow_rejects_unknown ∷ post_tweet_rejects_empty_text
        ∷ post_tweet_rejects_unknown_author_f6 ∷ post_tweet_uses_clock_and_ids
        ∷ home_timeline_visibility_f1_and_order_f2 ∷ service_tick_advances_inner_clock
        ∷ service_error_display ∷ from_domain_error ∷ from_store_error
        ∷ home_timeline_unknown_user_returns_empty ∷ snapshot_state_captures_full_state
        ∷ load_state_round_trips_through_a_fresh_service ∷ load_state_replaces_existing_state ∷ []))
    ≡ true
unfolding Service.new_with_clock Service.create_user Service.has_user Service.follow
    Service.unfollow Service.home_timeline Service.tick Service.post_tweet Service.fmt from_domain
    from_store snapshot_state load_state Clock.new Clock.now Clock.tick Clock.set_now Ids.new
    Ids.next_id Ids.current Ids.set_current incr Store.new Store.put_user Store.has_user
    Store.put_follow Store.delete_follow Store.put_tweet Store.home_timeline Domain.new
    HashMap.insert HashMap.get HashMap.empty HashMap.contains_key Snapshot.snapshot Snapshot.replace
    str_eq HashSet.insert HashSet.empty HashSet.contains HashSet.remove sort_by HashMap.values
    HashMap.keys HashMap.map_values
service_tests_pass = refl
