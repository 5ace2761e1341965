-- ===== src/Tests/Sessions.antt =====
-- The theorems on the cookie, the forms and the escaping of crates/server/src/ui.rs at concrete
-- inputs.

use twitter_rust_formal_veri.Prelude.{
  inr, str_eq, Str, lit, is_empty, ◌≡◌, ◌≢◌, ◌↔◌, refl, true, false, none, some, ◌++◌, length, ◌≤◌,
  arith,
}
use twitter_rust_formal_veri.Clock.{logical_clock}
use twitter_rust_formal_veri.Store.Views.{follow_edges, posts}
use twitter_rust_formal_veri.Server.Ui.{sign, verify}
use twitter_rust_formal_veri.Server.Ui.Cookie.{verify_lem}
use twitter_rust_formal_veri.Server.Handlers.{trim, trim_start}
use twitter_rust_formal_veri.Server.Ui.Actors.{forms_act_for}
use twitter_rust_formal_veri.Server.Ui.Forms.{
  compose, ui_follow, ui_unfollow, cookie_name, current_actor, current_actor-sign,
}
use twitter_rust_formal_veri.Server.Ui.Forms.{Redirect, cookie_header_for, log_in, ui_register}
use twitter_rust_formal_veri.Server.Ui.Login.{cookie_pair, current_actor-set_session}
use twitter_rust_formal_veri.Clock
use twitter_rust_formal_veri.Domain
use twitter_rust_formal_veri.Ids
use twitter_rust_formal_veri.Store
use twitter_rust_formal_veri.Service
use twitter_rust_formal_veri.Service.{new_with_clock}
use twitter_rust_formal_veri.Service.Calls.{run, apply}
use twitter_rust_formal_veri.Std.HashMap
use twitter_rust_formal_veri.Prelude.Int.{incr}
use twitter_rust_formal_veri.Server.Ui.Key.{signing_key, signing_key_lem}
use twitter_rust_formal_veri.Tests.Data.{alice, bob, town}

abbrev zeros : Str
zeros = lit "00000000000000000000000000000000"

verify_lem_example :
    (verify (λ _. zeros) (λ s. s) (lit "a.b.c") ≡ some (lit "a.b"))
    ↔ ((lit "a.b.c" ≡ sign (λ _. zeros) (λ s. s) (lit "a.b")) × (is_empty (lit "a.b") ≡ false))
verify_lem_example =
    verify_lem (λ _. zeros) (λ s. s) (λ _. refl) (λ _. refl) (λ s t e. e) (lit "a.b.c") (lit "a.b")

abbrev alice_cookie : Str
alice_cookie = cookie_header_for (λ _. zeros) (λ s. s) alice

abbrev logged_in : Redirect
logged_in = record { location = lit "/"; cookie = some alice_cookie }

registered :
    (ui_register (λ _. zeros) (λ s. s) (λ _. true) (λ s. s) (lit " alice ") town).0 ≡ some logged_in
unfolding ui_register log_in trim trim_start run apply Service.tick Clock.tick incr Service.unfollow
    Store.has_user HashMap.contains_key Service.post_tweet Service.follow Domain.new str_eq
    Store.put_follow Service.create_user Store.put_user new_with_clock Store.new HashMap.empty
    Ids.new Ids.next_id Service.from_domain Service.from_store HashMap.insert Store.delete_follow
    Store.put_tweet Clock.new HashMap.get
registered = refl

current_actor-set_session_example :
    current_actor (λ _. zeros) (λ s. s) (some (cookie_pair alice_cookie)) ≡ some (lit "alice")
unfolding sign trim trim_start
current_actor-set_session_example =
    current_actor-set_session (λ _. zeros) (λ s. s) (λ _. refl) (λ _. refl) (λ s t e. e) (λ _. true)
      (λ s. s) (lit " alice ") town logged_in alice_cookie refl refl (inr registered) refl

-- The cookie of bob, in a request about alice.
abbrev bob_cookies : Str
bob_cookies = cookie_name ++ sign (λ _. zeros) (λ s. s) bob

bob_session : current_actor (λ _. zeros) (λ s. s) (some bob_cookies) ≡ some bob
unfolding sign trim trim_start
bob_session =
    current_actor-sign (λ _. zeros) (λ s. s) (λ _. refl) (λ _. refl) (λ s t e. e) bob refl refl refl

not_alice : current_actor (λ _. zeros) (λ s. s) (some bob_cookies) ≢ some alice
not_alice = rw bob_session (λ e. ground (arith, e))

forms_act_for_example :
    let actor = current_actor (λ _. zeros) (λ s. s) (some bob_cookies) in
    (posts (compose (λ s. s) logical_clock actor alice town).1.st alice ≡ posts town.st alice)
    × (follow_edges (ui_follow (λ s. s) (λ _. true) actor bob town).1.st alice bob
        ≡ follow_edges town.st alice bob)
    × (follow_edges (ui_unfollow (λ s. s) (λ _. true) actor bob town).1.st alice bob
        ≡ follow_edges town.st alice bob)
forms_act_for_example =
    forms_act_for (λ _. zeros) (λ s. s) (λ s. s) (λ _. true) town logical_clock (some bob_cookies)
      alice bob alice bob not_alice

-- Keys in hexadecimal are not read here, and the clock stands still.
signing_key_lem_example :
    let (key, cell) = signing_key (λ _. none) (some (lit "00")) (λ i. some 1003) none in
    (signing_key (λ _. none) none (λ i. none) cell ≡ (key, cell))
    × (16 ≤ length key)
    × (signing_key (λ _. none) (some (lit "00")) (λ i. some 235) none ≡ (key, cell))
signing_key_lem_example =
    signing_key_lem (λ _. none) (some (lit "00")) none (λ i. some 1003) (λ i. some 235) (λ i. none)
      λ i. refl
