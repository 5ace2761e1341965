-- ===== src/Tests/Requests.antt =====
-- The theorems on the whole server of crates/server, on a few requests.
use twitter_rust_formal_veri.Prelude.{
  lit, ◌≤◌, ◌≡◌, refl, true, false, none, some, List, [], ◌∷◌, ◌++◌, err, length, arith,
}
use twitter_rust_formal_veri.Clock
use twitter_rust_formal_veri.Clock.{Logical, logical_clock}
use twitter_rust_formal_veri.Service.Calls.{run}
use twitter_rust_formal_veri.Service.Sound.{IsSound}
use twitter_rust_formal_veri.Server.Ui.{sign}
use twitter_rust_formal_veri.Server.Ui.Forms.{cookie_name}
use twitter_rust_formal_veri.Server.App.{Request, Environment, Moment}
use twitter_rust_formal_veri.Server.App.Serve.{serve_all, start}
use twitter_rust_formal_veri.Server.App.Calls.{calls_of, some_load, serve_all-run}
use twitter_rust_formal_veri.Server.App.Sound.{start-IsSound}
use twitter_rust_formal_veri.Server.App.Counted.{IsCounted, start-IsCounted}
use twitter_rust_formal_veri.Tests.Data.{forwards, backwards, alice, bob}
use twitter_rust_formal_veri.Server.Admin.Token.{check_admin_token, constant_time_eq, walk, byte_at}
use twitter_rust_formal_veri.Tests.Values
use twitter_rust_formal_veri.Tests.Values.{Value, json}

-- A token is set for the administrator, and no JSON text is valid.
abbrev env : Environment Value Logical
env = record {
  clock = logical_clock;
  json = json;
  null = Values.null;
  from_str = λ s. err s;
  tag = λ _. lit "00000000000000000000000000000000";
  as_bytes = λ s. s;
  display = λ _. lit "1";
  is_header_value = λ _. true;
  encode = λ s. s;
  admin_token = some (lit "secret");
}

abbrev moment : Moment
moment = record {
  now = 5;
  captured_at = lit "5";
  version_file = none;
  encoded = err (lit "none");
  followed = forwards;
  authors = backwards;
  user_order = forwards;
  from_order = forwards;
  to_order = forwards;
  list_order = backwards;
}

-- A client of the API, a form of alice, a reader, and somebody who tries to load a snapshot.
abbrev traffic : List (Moment × Request)
traffic =
    (moment, Request.create_user (some alice))
    ∷ (moment, Request.create_user none)
    ∷ (moment, Request.follow (some (record { from = alice; to = bob })))
    ∷ (moment, Request.ui_register bob)
    ∷ (moment, Request.compose (some (cookie_name ++ sign env.tag env.as_bytes alice)) (lit "hi"))
    ∷ (moment, Request.timeline (some alice) (some (lit "1")))
    ∷ (moment, Request.load_snapshot (some (lit "guess")) (lit "{}"))
    ∷ (moment, Request.refused (lit "PUT") (lit "/users") (some (lit "/users")) 405)
    ∷ []

no_load : some_load env traffic ≡ false
unfolding some_load check_admin_token constant_time_eq walk byte_at
no_load = refl

serve_all-run_example :
    (serve_all env traffic (start env false Clock.new)).svc
    ≡ run logical_clock (calls_of env traffic) (start env false Clock.new).svc
serve_all-run_example = serve_all-run env traffic (start env false Clock.new) no_load

start-IsSound_example : IsSound logical_clock (serve_all env traffic (start env true Clock.new)).svc
start-IsSound_example =
    start-IsSound env true Clock.new traffic no_load (omega arith) (rw Clock.now-new (omega arith))

start-IsCounted_example :
    IsCounted env (serve_all env traffic (start env true Clock.new))
    × (length (serve_all env traffic (start env true Clock.new)).requests ≤ length traffic)
start-IsCounted_example = start-IsCounted env true Clock.new traffic
