-- ===== src/Tests/Suite/Store.antt =====
-- The unit tests of crates/store/src/lib.rs, but for the one that starts threads.
use twitter_rust_formal_veri.Prelude.{
  ℕ, ◌==◌, ℤ, pos, lit, Str, str_eq, Bool, true, false, not, ◌&&◌, List, [], ◌∷◌, map, length, ◌≡◌,
  refl,
}
use twitter_rust_formal_veri.Domain
use twitter_rust_formal_veri.Domain.{User, Tweet, Follow}
use twitter_rust_formal_veri.Std.HashMap
use twitter_rust_formal_veri.Std.HashSet
use twitter_rust_formal_veri.Std.Sort.{sort_by}
use twitter_rust_formal_veri.Store
use twitter_rust_formal_veri.Store.{
  StoreError, Inner, put_user, has_user, put_follow, delete_follow, put_tweet, follow_set,
  home_timeline,
}
use twitter_rust_formal_veri.Store.Snapshot
use twitter_rust_formal_veri.Store.Snapshot.{StoreSnapshot, snapshot}
use twitter_rust_formal_veri.Tests.Data.{forwards, backwards}
use twitter_rust_formal_veri.Tests.Suite.{
  Program, ◌>>=◌, ◌>>◌, unwrap, unwrap_err, modify, assert, passes, all_pass, same_ints, same_int,
}

abbrev alice : User
alice = record { id = pos 1; handle = lit "alice" }

abbrev bob : User
bob = record { id = pos 2; handle = lit "bob" }

abbrev carol : User
carol = record { id = pos 3; handle = lit "carol" }

abbrev same_error : StoreError → StoreError → Bool
same_error e f = str_eq (Store.fmt e) (Store.fmt f)

-- `Follow::new("alice", "bob").unwrap()`
abbrev alice_follows_bob : Program Inner Follow
alice_follows_bob = unwrap (λ s. (Domain.new alice.handle bob.handle, s))

abbrev sample : ℕ → Str → Str → ℕ → Tweet
sample id author text time = record {
  id = pos id;
  author = author;
  text = text;
  created_at = pos time;
}

abbrev timeline_ids : Str → Inner → List ℤ
timeline_ids user s = map (λ (t : Tweet). t.id) (home_timeline forwards backwards s user 0)

abbrev dump : Inner → StoreSnapshot
dump s = snapshot forwards backwards backwards forwards s

abbrev pub same_edges : List Follow → List Follow → Bool
same_edges [] [] = true
same_edges (f ∷ fs) (g ∷ gs) = str_eq f.from g.from && str_eq f.to g.to && same_edges fs gs
same_edges _ _ = false

abbrev pub same_users : List User → List User → Bool
same_users [] [] = true
same_users (u ∷ us) (v ∷ vs) = same_int u.id v.id && str_eq u.handle v.handle && same_users us vs
same_users _ _ = false

abbrev pub same_tweets : List Tweet → List Tweet → Bool
same_tweets [] [] = true
same_tweets (t ∷ ts) (u ∷ us) =
    same_int t.id u.id
    && str_eq t.author u.author
    && str_eq t.text u.text
    && same_int t.created_at u.created_at
    && same_tweets ts us
same_tweets _ _ = false

abbrev pub same_snapshot : StoreSnapshot → StoreSnapshot → Bool
same_snapshot s t =
    same_users s.users t.users && same_edges s.follows t.follows && same_tweets s.tweets t.tweets

abbrev put_user_then_has_user : Program Inner (Unit {0})
put_user_then_has_user = do
  assert (λ s. not (has_user s (lit "alice")))
  unwrap (put_user alice)
  assert (λ s. has_user s (lit "alice"))

abbrev put_user_duplicate_rejected : Program Inner (Unit {0})
put_user_duplicate_rejected = do
  unwrap (put_user alice)
  error ← unwrap_err (put_user alice)
  assert (λ s. same_error error Store.duplicate_user)
  assert (λ s. str_eq (Store.fmt error) (lit "duplicate_user"))

abbrev put_follow_rejects_unknown_from : Program Inner (Unit {0})
put_follow_rejects_unknown_from = do
  unwrap (put_user bob)
  f ← alice_follows_bob
  error ← unwrap_err (put_follow f)
  assert (λ s. same_error error Store.unknown_user)

abbrev put_follow_rejects_unknown_to : Program Inner (Unit {0})
put_follow_rejects_unknown_to = do
  unwrap (put_user alice)
  f ← alice_follows_bob
  error ← unwrap_err (put_follow f)
  assert (λ s. same_error error Store.unknown_user)

abbrev put_follow_is_idempotent_f3 : Program Inner (Unit {0})
put_follow_is_idempotent_f3 = do
  unwrap (put_user alice)
  unwrap (put_user bob)
  f ← alice_follows_bob
  unwrap (put_follow f)
  g ← alice_follows_bob
  unwrap (put_follow g)
  assert (λ s. length (follow_set s (lit "alice")).elems == 1)
  assert (λ s. HashSet.contains (follow_set s (lit "alice")) (lit "bob"))

abbrev delete_follow_idempotent_on_missing : Program Inner (Unit {0})
delete_follow_idempotent_on_missing = do
  unwrap (put_user alice)
  unwrap (put_user bob)
  modify (delete_follow (lit "alice") (lit "bob"))
  assert (λ s. length (follow_set s (lit "alice")).elems == 0)
  f ← alice_follows_bob
  unwrap (put_follow f)
  modify (delete_follow (lit "alice") (lit "bob"))
  modify (delete_follow (lit "alice") (lit "bob"))
  assert (λ s. length (follow_set s (lit "alice")).elems == 0)

abbrev put_tweet_rejects_unknown_author_f6 : Program Inner (Unit {0})
put_tweet_rejects_unknown_author_f6 = do
  error ← unwrap_err (put_tweet (sample 1 (lit "ghost") (lit "x") 1))
  assert (λ s. same_error error Store.unknown_user)

abbrev home_timeline_includes_self_and_followed : Program Inner (Unit {0})
home_timeline_includes_self_and_followed = do
  unwrap (put_user alice)
  unwrap (put_user bob)
  unwrap (put_user carol)
  f ← alice_follows_bob
  unwrap (put_follow f)
  unwrap (put_tweet (sample 1 (lit "bob") (lit "b") 1))
  unwrap (put_tweet (sample 2 (lit "carol") (lit "c") 2))
  unwrap (put_tweet (sample 3 (lit "alice") (lit "a") 3))
  assert (λ s. same_ints (timeline_ids (lit "alice") s) (pos 3 ∷ pos 1 ∷ []))

abbrev home_timeline_orders_by_created_desc_then_id_desc_f2 : Program Inner (Unit {0})
home_timeline_orders_by_created_desc_then_id_desc_f2 = do
  unwrap (put_user bob)
  unwrap (put_user alice)
  f ← alice_follows_bob
  unwrap (put_follow f)
  unwrap (put_tweet (sample 1 (lit "bob") (lit "first") 1))
  unwrap (put_tweet (sample 2 (lit "bob") (lit "second") 1))
  assert (λ s. same_ints (timeline_ids (lit "alice") s) (pos 2 ∷ pos 1 ∷ []))

abbrev home_timeline_limit : Program Inner (Unit {0})
home_timeline_limit = do
  unwrap (put_user alice)
  unwrap (put_tweet (sample 1 (lit "alice") (lit "x") 1))
  unwrap (put_tweet (sample 2 (lit "alice") (lit "x") 2))
  unwrap (put_tweet (sample 3 (lit "alice") (lit "x") 3))
  unwrap (put_tweet (sample 4 (lit "alice") (lit "x") 4))
  unwrap (put_tweet (sample 5 (lit "alice") (lit "x") 5))
  assert (λ s.
      same_ints (map (λ (t : Tweet). t.id) (home_timeline forwards backwards s (lit "alice") 2))
        (pos 5 ∷ pos 4 ∷ []))

abbrev home_timeline_unknown_user_empty : Program Inner (Unit {0})
home_timeline_unknown_user_empty = do assert (λ s. same_ints (timeline_ids (lit "ghost") s) [])

abbrev follow_set_empty_when_unknown : Program Inner (Unit {0})
follow_set_empty_when_unknown = do assert (λ s. length (follow_set s (lit "ghost")).elems == 0)

abbrev snapshot_is_empty_initially : Program Inner (Unit {0})
snapshot_is_empty_initially = do
  assert (λ s. length (dump s).users == 0)
  assert (λ s. length (dump s).follows == 0)
  assert (λ s. length (dump s).tweets == 0)

abbrev snapshot_captures_state_in_stable_order : Program Inner (Unit {0})
snapshot_captures_state_in_stable_order = do
  unwrap (put_user carol)
  unwrap (put_user alice)
  unwrap (put_user bob)
  f ← unwrap (λ s. (Domain.new (lit "alice") (lit "carol"), s))
  unwrap (put_follow f)
  g ← alice_follows_bob
  unwrap (put_follow g)
  unwrap (put_tweet (sample 2 (lit "bob") (lit "b") 1))
  unwrap (put_tweet (sample 1 (lit "alice") (lit "a") 1))
  assert (λ s. same_ints (map (λ (u : User). u.id) (dump s).users) (pos 1 ∷ pos 2 ∷ pos 3 ∷ []))
  assert (λ s. same_edges (dump s).follows (
      record { from = lit "alice"; to = lit "bob" }
      ∷ record { from = lit "alice"; to = lit "carol" }
      ∷ []))
  assert (λ s. same_ints (map (λ (t : Tweet). t.id) (dump s).tweets) (pos 1 ∷ pos 2 ∷ []))

abbrev replace_round_trips_snapshot : Program Inner (Unit {0})
replace_round_trips_snapshot = do
  unwrap (put_user alice)
  unwrap (put_user bob)
  f ← alice_follows_bob
  unwrap (put_follow f)
  unwrap (put_tweet (sample 1 (lit "alice") (lit "hi") 5))
  assert (λ s. same_snapshot (dump (Snapshot.replace (dump s) Store.new)) (dump s))

abbrev replace_clears_prior_state : Program Inner (Unit {0})
replace_clears_prior_state = do
  unwrap (put_user alice)
  unwrap (put_user bob)
  unwrap (put_tweet (sample 1 (lit "alice") (lit "old") 1))
  modify (
      Snapshot.replace (record {
        users = carol ∷ [];
        follows = [];
        tweets = sample 9 (lit "carol") (lit "new") 9 ∷ [];
      }))
  assert (λ s. not (has_user s (lit "alice")))
  assert (λ s. not (has_user s (lit "bob")))
  assert (λ s. has_user s (lit "carol"))
  assert (λ s. same_ints (timeline_ids (lit "carol") s) (pos 9 ∷ []))

abbrev replace_can_load_state_that_bypasses_admission_checks : Program Inner (Unit {0})
replace_can_load_state_that_bypasses_admission_checks = do
  modify (
      Snapshot.replace
        (record { users = []; follows = []; tweets = sample 1 (lit "ghost") (lit "x") 1 ∷ [] }))
  assert (λ s. length (timeline_ids (lit "ghost") s) == 1)

store_tests_pass :
    all_pass (
      map (passes Store.new) (
        put_user_then_has_user ∷ put_user_duplicate_rejected ∷ put_follow_rejects_unknown_from
        ∷ put_follow_rejects_unknown_to ∷ put_follow_is_idempotent_f3
        ∷ delete_follow_idempotent_on_missing ∷ put_tweet_rejects_unknown_author_f6
        ∷ home_timeline_includes_self_and_followed
        ∷ home_timeline_orders_by_created_desc_then_id_desc_f2 ∷ home_timeline_limit
        ∷ home_timeline_unknown_user_empty ∷ follow_set_empty_when_unknown
        ∷ snapshot_is_empty_initially ∷ snapshot_captures_state_in_stable_order
        ∷ replace_round_trips_snapshot ∷ replace_clears_prior_state
        ∷ replace_can_load_state_that_bypasses_admission_checks ∷ []))
    ≡ true
unfolding Store.new put_user has_user put_follow delete_follow put_tweet follow_set home_timeline
    Store.fmt Domain.new HashMap.insert HashMap.get HashMap.empty HashMap.contains_key snapshot
    Snapshot.replace str_eq HashSet.insert HashSet.empty HashSet.contains HashSet.remove sort_by
    HashMap.values HashMap.keys HashMap.map_values
store_tests_pass = refl
