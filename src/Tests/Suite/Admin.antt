-- ===== src/Tests/Suite/Admin.antt =====
-- The unit tests of crates/server/src/admin.rs, over JSON values as a tree.
use twitter_rust_formal_veri.Prelude.{
  ◌+◌, pos, lit, Str, str_eq, Bool, true, false, not, List, [], ◌∷◌, ◌++◌, map, ◌≡◌, refl, ok, err,
  is_ok,
}
use twitter_rust_formal_veri.Prelude.Int.{incr}
use twitter_rust_formal_veri.Clock
use twitter_rust_formal_veri.Clock.{Logical}
use twitter_rust_formal_veri.Ids
use twitter_rust_formal_veri.Domain
use twitter_rust_formal_veri.Std.HashMap
use twitter_rust_formal_veri.Std.HashSet
use twitter_rust_formal_veri.Std.Sort.{sort_by}
use twitter_rust_formal_veri.Store
use twitter_rust_formal_veri.Store.Snapshot
use twitter_rust_formal_veri.Service
use twitter_rust_formal_veri.Service.{Service}
use twitter_rust_formal_veri.Service.Snapshot.{snapshot_state}
use twitter_rust_formal_veri.Server.Admin.Token.{constant_time_eq}
use twitter_rust_formal_veri.Server.Admin.Wire.{ParseError, state_to_json, parse_state}
use twitter_rust_formal_veri.Server.Admin.Load.{
  supported_versions, has_version, current_snapshot_version,
}
use twitter_rust_formal_veri.Tests.Data.{alice, bob}
use twitter_rust_formal_veri.Tests.Values.{
  Value, json, number, string, array, object, boolean, values_of, fields_of,
}
use twitter_rust_formal_veri.Tests.Suite.{
  Program, ◌>>=◌, ◌>>◌, unwrap, unwrap_err, assert, passes, all_pass,
}
use twitter_rust_formal_veri.Tests.Suite.Service.{same_state, post, dump}

abbrev without_clock : List (Str × Value)
without_clock =
    (lit "id_counter_users", number (pos 0))
    ∷ (lit "id_counter_tweets", number (pos 0))
    ∷ (lit "users", array (values_of []))
    ∷ (lit "follows", array (values_of []))
    ∷ (lit "tweets", array (values_of []))
    ∷ []

abbrev misnumbered : Value
misnumbered =
    object (
      fields_of ((lit "id", string (lit "not-an-int")) ∷ (lit "handle", string (lit "alice")) ∷ []))

abbrev is_missing_clock : ParseError → Bool
is_missing_clock (ParseError.missing_field name) = str_eq name (lit "state.clock_now")
is_missing_clock (ParseError.invalid_type name) = false

abbrev constant_time_eq_basic : Program (Unit {0}) (Unit {0})
constant_time_eq_basic = do
  assert (λ s. constant_time_eq (lit "abc") (lit "abc"))
  assert (λ s. not (constant_time_eq (lit "abc") (lit "abd")))
  assert (λ s. not (constant_time_eq (lit "abc") (lit "ab")))
  assert (λ s. not (constant_time_eq (lit "ab") (lit "abc")))
  assert (λ s. constant_time_eq [] [])

abbrev supported_versions_includes_current_and_next : Program (Unit {0}) (Unit {0})
supported_versions_includes_current_and_next = do
  assert (λ s. has_version supported_versions current_snapshot_version)
  assert (λ s. has_version supported_versions (current_snapshot_version + 1))

abbrev parse_state_rejects_missing_clock_now : Program (Unit {0}) (Unit {0})
parse_state_rejects_missing_clock_now = do
  error ← unwrap_err (λ s. (parse_state json (object (fields_of without_clock)), s))
  assert (λ s. is_missing_clock error)

abbrev parse_state_rejects_invalid_user_type : Program (Unit {0}) (Unit {0})
parse_state_rejects_invalid_user_type = do
  assert (λ s. not (
      is_ok (
        parse_state json (
          object (
            fields_of (
              (lit "clock_now", number (pos 0))
              ∷ (lit "id_counter_users", number (pos 0))
              ∷ (lit "id_counter_tweets", number (pos 0))
              ∷ (lit "users", array (values_of (misnumbered ∷ [])))
              ∷ (lit "follows", array (values_of []))
              ∷ (lit "tweets", array (values_of []))
              ∷ []))))))

abbrev parse_state_ignores_unknown_fields : Program (Unit {0}) (Unit {0})
parse_state_ignores_unknown_fields = do
  assert (λ s. is_ok (
      parse_state json (
        object (
          fields_of (
            (lit "clock_now", number (pos 0)) ∷ without_clock
            ++ (lit "future_field", string (lit "ignored"))
              ∷ (lit "another", object (fields_of ((lit "nested", boolean true) ∷ [])))
              ∷ [])))))

admin_tests_pass :
    all_pass (
      map (passes tt) (
        constant_time_eq_basic ∷ supported_versions_includes_current_and_next
        ∷ parse_state_rejects_missing_clock_now ∷ parse_state_rejects_invalid_user_type
        ∷ parse_state_ignores_unknown_fields ∷ []))
    ≡ true
unfolding constant_time_eq parse_state str_eq
admin_tests_pass = refl

abbrev parse_state_round_trip : Program (Service Logical) (Unit {0})
parse_state_round_trip = do
  unwrap (Service.create_user alice)
  unwrap (Service.create_user bob)
  unwrap (Service.follow alice bob)
  unwrap (post alice (lit "hi"))
  assert (λ s. elim (parse_state json (state_to_json json (dump s))) [
    | ok parsed ↦ same_state parsed (dump s)
    | err e ↦ false
  ])

round_trip_test_passes :
    all_pass (map (passes (Service.new_with_clock Clock.new)) (parse_state_round_trip ∷ [])) ≡ true
unfolding state_to_json parse_state Service.new_with_clock Service.create_user Service.follow
    Service.post_tweet snapshot_state Clock.new Clock.now Ids.new Ids.next_id Ids.current incr
    Store.new Store.put_user Store.has_user Store.put_follow Store.put_tweet Domain.new
    HashMap.insert HashMap.get HashMap.empty HashMap.contains_key Snapshot.snapshot str_eq
    HashSet.insert HashSet.empty HashSet.contains sort_by HashMap.values HashMap.keys
    HashMap.map_values
round_trip_test_passes = refl
