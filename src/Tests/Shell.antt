-- ===== src/Tests/Shell.antt =====
-- The theorems of crates/server and of the snapshots at concrete inputs.
use mathlib.Core.List.{not-mem-nil, mem-cons}
use mathlib.Core.HLevel.{hedberg}
use mathlib.Core.Logic.Or
use twitter_rust_formal_veri.Prelude.{
  leb, subst, i64_max, ℕ, pos, Str, ℤ-discrete, Str-discrete, ap, lit, str_eq, is_empty, ◌≡◌, ◌≢◌,
  refl, ◌&&◌, ◌==◌, none, some, List, [], ◌∷◌, Mem, Result, ok, length, if◌then◌else◌, arith,
}
use Prim.Native.Nat.{bit_xor, ◌%◌}
use twitter_rust_formal_veri.Clock
use twitter_rust_formal_veri.Clock.{logical_clock, Logical}
use twitter_rust_formal_veri.Ids
use twitter_rust_formal_veri.Domain.{User, Tweet, Tweet-discrete}
use twitter_rust_formal_veri.Store
use twitter_rust_formal_veri.Store.Views.{users_keys}
use twitter_rust_formal_veri.Store.Snapshot.{StoreSnapshot}
use twitter_rust_formal_veri.Service
use twitter_rust_formal_veri.Service.{Service, from_domain, from_store}
use twitter_rust_formal_veri.Service.Snapshot.{ServiceState, snapshot_state, load_state}
use twitter_rust_formal_veri.Server.Admin.Token.{
  constant_time_eq, padded_eq, constant_time_eq_lem, constant_time_eq_iff, check_admin_token,
  AuthResult,
}
use twitter_rust_formal_veri.Server.Admin.Wire.RoundTrip.{FitsI64}
use twitter_rust_formal_veri.Server.Admin.Load
use twitter_rust_formal_veri.Std.HashMap
use twitter_rust_formal_veri.Std.Sort.{sort_by}
use twitter_rust_formal_veri.Prelude.Int.{incr}
use twitter_rust_formal_veri.Store.Snapshot
use twitter_rust_formal_veri.Server.Admin.Load.{
  current_snapshot_version, loaded, snapshot_body, load_value, load_snapshot,
  load_value-snapshot_body, load_snapshot_rejects, load_snapshot-snapshot,
}
use twitter_rust_formal_veri.Server.Handlers
use twitter_rust_formal_veri.Server.Handlers.{map_err}
use twitter_rust_formal_veri.Server.Handlers.Answers.{Answers, handlers_lem}
use twitter_rust_formal_veri.Server.Handlers.Limit.{
  AreBlank, AreDigits, value_of, answer, timeline_lem,
}
use twitter_rust_formal_veri.Server.Handlers.{trim, trim_start}
use twitter_rust_formal_veri.Tests.Values
use native.Mathlib.Nat.{ℕ_set}
use twitter_rust_formal_veri.Tests.Data.{forwards, backwards, alice, bob, town, first_tweet}
use twitter_rust_formal_veri.Tests.Values.{Value, json}

abbrev alice_user : User
alice_user = record { id = pos 1; handle = alice }

abbrev small : StoreSnapshot
small = record {
  users = alice_user ∷ [];
  follows = record { from = alice; to = bob } ∷ [];
  tweets = first_tweet ∷ [];
}

abbrev state : ServiceState
state = record {
  clock_now = pos 7;
  id_counter_users = pos 1;
  id_counter_tweets = pos 1;
  store = small;
}

abbrev fresh : Service Logical
fresh = record { clk = Clock.new; tweet_ids = Ids.new; user_ids = Ids.new; st = Store.new }

abbrev secret : List ℕ
secret = 1 ∷ 2 ∷ []

abbrev guess : List ℕ
guess = 1 ∷ 3 ∷ []

constant_time_eq_lem_example :
    constant_time_eq secret guess
    ≡ (bit_xor (length secret) (length guess) % 256 == 0 && padded_eq secret guess)
constant_time_eq_lem_example = constant_time_eq_lem secret guess

User_set : IsSet User
User_set = hedberg (hlevel (ℤ-discrete, Str-discrete))

Tweet_set : IsSet Tweet
Tweet_set = hedberg Tweet-discrete

mem-singleton : {A : Type 0} → IsSet A → {a b : A} → Mem a (b ∷ []) → a ≡ b
mem-singleton set {a} {b} m =
    Or.elim (set a b) (mem-cons.0 m) (λ e. e) λ none_left. absurd (not-mem-nil none_left)

state-FitsI64 : FitsI64 state
state-FitsI64 = record {
  clock = (omega arith, omega arith);
  user_counter = (omega arith, omega arith);
  tweet_counter = (omega arith, omega arith);
  users = λ u m. rw (mem-singleton User_set m) (omega arith, omega arith);
  tweets = λ t m.
      rw (mem-singleton Tweet_set m) ((omega arith, omega arith), (omega arith, omega arith));
}

abbrev with_alice : Service Logical
with_alice = (Service.create_user alice fresh).1

abbrev dump : ServiceState
dump = snapshot_state logical_clock forwards backwards forwards backwards with_alice

abbrev alice_dump : ServiceState
alice_dump = record {
  clock_now = pos 0;
  id_counter_users = pos 1;
  id_counter_tweets = pos 0;
  store = record { users = alice_user ∷ []; follows = []; tweets = [] };
}

dump_alice : alice_dump ≡ dump
unfolding snapshot_state Service.create_user Clock.new Clock.now Ids.new Ids.next_id Ids.current
    incr Store.new Store.put_user HashMap.insert HashMap.get HashMap.empty HashMap.contains_key
    Snapshot.snapshot str_eq sort_by HashMap.values HashMap.keys
dump_alice = refl

dump-FitsI64 : FitsI64 dump
dump-FitsI64 = subst FitsI64 dump_alice (record {
  clock = (omega arith, omega arith);
  user_counter = (omega arith, omega arith);
  tweet_counter = (omega arith, omega arith);
  users = λ u m. rw (mem-singleton User_set m) (omega arith, omega arith);
  tweets = λ t m. absurd (not-mem-nil m);
})

alice_allowed : check_admin_token (λ s. s) (some alice) (some alice) ≡ AuthResult.ok
unfolding check_admin_token
alice_allowed = ground (arith, constant_time_eq_iff alice alice refl)

bob_allowed : check_admin_token (λ s. s) (some bob) (some bob) ≡ AuthResult.ok
unfolding check_admin_token
bob_allowed = ground (arith, constant_time_eq_iff bob bob refl)

abbrev dump_value : Value
dump_value = snapshot_body json (lit "0") (lit "dev") (lit "sha256:dev") dump

alice_answered :
    (Load.snapshot json logical_clock
      (λ s. s)
      (some alice)
      (some alice)
      (lit "0")
      (lit "dev")
      (lit "sha256:dev")
      forwards
      backwards
      forwards
      backwards
      with_alice).body
    ≡ some dump_value
unfolding Load.snapshot
alice_answered = ground (arith, alice_allowed)

load_snapshot-snapshot_example :
    ((Load.snapshot json logical_clock
        (λ s. s)
        (some alice)
        (some alice)
        (lit "0")
        (lit "dev")
        (lit "sha256:dev")
        forwards
        backwards
        forwards
        backwards
        with_alice).status
      ≡ 200)
    × (load_snapshot json logical_clock
          (λ _. ok dump_value)
          (λ s. s)
          (some bob)
          (some bob)
          (lit "text")
          town
        ≡ (loaded json current_snapshot_version, load_state logical_clock dump town))
load_snapshot-snapshot_example =
    load_snapshot-snapshot json logical_clock logical_clock (λ _. ok dump_value) (λ s. s)
      (some alice) (some alice) (some bob) (some bob) (lit "0") (lit "dev") (lit "sha256:dev")
      forwards backwards forwards backwards with_alice (lit "text") dump_value town alice_allowed
      bob_allowed dump-FitsI64 alice_answered refl

abbrev from_str : Str → Result Str Value
from_str body = ok (snapshot_body json (lit "0") (lit "dev") (lit "sha256:dev") state)

loaded_differs : load_state logical_clock state fresh ≢ fresh
unfolding load_state
loaded_differs e = ground (
  arith,
  Ids.current-new,
  Ids.current-set_current Ids.new (pos 1),
  ap (λ (s : Service Logical). Ids.current s.user_ids) e,
)

load_snapshot-differs :
    (load_snapshot json logical_clock from_str (λ s. s) (some alice) (some alice) [] fresh).1
    ≢ fresh
unfolding load_snapshot check_admin_token
load_snapshot-differs = ground (
  arith,
  loaded_differs,
  constant_time_eq_iff alice alice refl,
  load_value-snapshot_body json logical_clock (lit "0") (lit "dev") (lit "sha256:dev") state fresh
      state-FitsI64,
)

load_snapshot_rejects_example :
    (check_admin_token (λ s. s) (some alice) (some alice) ≡ AuthResult.ok)
    × ((load_snapshot json logical_clock from_str
          (λ s. s)
          (some alice)
          (some alice)
          []
          fresh).0.status
        ≡ 200)
load_snapshot_rejects_example =
    load_snapshot_rejects json logical_clock from_str (λ s. s) (some alice) (some alice) [] fresh
      load_snapshot-differs

handlers_lem_example :
    Answers
      (if is_empty alice then 400 else if users_keys town.st alice then 409 else 201)
      (Service.create_user alice town).1
      (if is_empty alice
        then lit "F-input-shape" ∷ []
        else if users_keys town.st alice
        then lit "F-uniqueness" ∷ []
        else [])
      (Handlers.create_user json (some alice) (town, []))
    × Answers
        (if str_eq alice bob
          then 400
          else if users_keys town.st alice && users_keys town.st bob
          then 204
          else 400)
        (Service.follow alice bob town).1
        (if str_eq alice bob
          then lit "F4" ∷ []
          else if users_keys town.st alice && users_keys town.st bob
          then []
          else lit "F9" ∷ [])
        (Handlers.follow json (some (record { from = alice; to = bob })) (town, []))
    × Answers
        (if users_keys town.st alice && users_keys town.st bob then 204 else 400)
        (Service.unfollow alice bob town).1
        (if users_keys town.st alice && users_keys town.st bob then [] else lit "F9" ∷ [])
        (Handlers.unfollow json (some (record { from = alice; to = bob })) (town, []))
    × Answers
        (if is_empty bob then 400 else if users_keys town.st alice then 201 else 400)
        (Service.post_tweet logical_clock alice bob town).1
        (if is_empty bob
          then lit "F-input-shape" ∷ []
          else if users_keys town.st alice
          then []
          else lit "F6" ∷ [])
        (Handlers.post_tweet json logical_clock
          (some (record { author = alice; text = bob }))
          (town, []))
handlers_lem_example = handlers_lem json town [] logical_clock alice bob

-- a blank, the digit two and a tab
blank : AreBlank (lit " ")
blank c m = rw (mem-singleton ℕ_set m) refl

tab : AreBlank (0x9 ∷ [])
tab c m = rw (mem-singleton ℕ_set m) refl

digit : AreDigits (lit "2")
digit c m = rw (mem-singleton ℕ_set m) (omega arith)

timeline_lem_example :
    (Handlers.timeline json Values.null forwards backwards (some alice) (some (lit " 2\t")) town
      ≡ answer json Values.null forwards backwards town
          (some alice)
          (if leb (value_of (lit "2")) i64_max then some (value_of (lit "2")) else none))
    × (Handlers.timeline json Values.null forwards backwards (some alice) (some (lit " -2\t")) town
        ≡ answer json Values.null forwards backwards town
            (some alice)
            (if value_of (lit "2") == 0 then some 0 else none))
    × (Handlers.timeline json Values.null forwards backwards (some alice) (some (lit " ")) town
        ≡ answer json Values.null forwards backwards town (some alice) (some 0))
    × (Handlers.timeline json Values.null forwards backwards (some alice) none town
        ≡ answer json Values.null forwards backwards town (some alice) (some 0))
timeline_lem_example =
    timeline_lem json Values.null forwards backwards town (some alice) (lit " ") (0x9 ∷ []) [] 0x32
      blank tab digit
