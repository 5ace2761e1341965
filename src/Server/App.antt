-- ===== src/Server/App.antt =====
-- crates/server as a whole: the routes, the middleware that counts, and the handlers on the state
-- that they share. What the framework extracts from a request is given with it.
pub mod Serve
pub mod Calls
pub mod Sound
pub mod Counted
use twitter_rust_formal_veri.Prelude.{
  ℕ, ℤ, Str, lit, Bool, true, false, Option, none, some, List, [], ◌∷◌, unwrap_or, Result, ok, err,
  if◌then◌else◌,
}
use twitter_rust_formal_veri.Std.HashMap.{Iteration}
use twitter_rust_formal_veri.Clock.{Clock}
use twitter_rust_formal_veri.Service.{Service, new_with_clock}
use twitter_rust_formal_veri.Server.Json.{Json}
use twitter_rust_formal_veri.Server.Response.{Response}
use twitter_rust_formal_veri.Server.Metrics.{render}
use twitter_rust_formal_veri.Server.Handlers
use twitter_rust_formal_veri.Server.Handlers.{FollowReq, TweetReq}
use twitter_rust_formal_veri.Server.Probes.{VersionResp, healthz, version, labels}
use twitter_rust_formal_veri.Server.Admin.Load
use twitter_rust_formal_veri.Server.Ui.Forms
use twitter_rust_formal_veri.Server.Ui.Forms.{Redirect, current_actor}
use twitter_rust_formal_veri.Server.Ui.Pages
use twitter_rust_formal_veri.Server.Seed.{seed_demo}

-- A request for each route, with what its extractors take from it: a body, none if it cannot be
-- decoded, the fields of a form, the header `Cookie`, the token of the header. The last is one that the
-- framework answers itself, with a status: its method, its path and the route that it matches, if any.
pub data Request : Type 0 where
  create_user : Option Str → Request
  follow unfollow : Option FollowReq → Request
  post_tweet : Option TweetReq → Request
  timeline : Option Str → Option Str → Request
  healthz_probe version_probe metrics_probe : Request
  home : Option Str → Option Str → Request
  set_session : Str → Request
  clear_session : Request
  profile : Option Str → Str → Request
  compose : Option Str → Str → Request
  ui_follow ui_unfollow : Option Str → Str → Request
  ui_register : Str → Request
  snapshot : Option Str → Request
  load_snapshot : Option Str → Str → Request
  refused : Str → Str → Option Str → ℕ → Request

-- The routes of `router`, and those that `mount` of ui.rs and `mount` of admin.rs add: the method and
-- the path of a request that one of them has.
unfoldable pub router : Request → Option (Str × Str)
router (Request.create_user _) = some (lit "POST", lit "/users")
router (Request.follow _) = some (lit "POST", lit "/follow")
router (Request.unfollow _) = some (lit "DELETE", lit "/follow")
router (Request.post_tweet _) = some (lit "POST", lit "/tweets")
router (Request.timeline _ _) = some (lit "GET", lit "/timeline")
router Request.healthz_probe = some (lit "GET", lit "/healthz")
router Request.version_probe = some (lit "GET", lit "/version")
router Request.metrics_probe = some (lit "GET", lit "/metrics")
router _ = none

unfoldable pub ui_mount : Request → Option (Str × Str)
ui_mount (Request.home _ _) = some (lit "GET", lit "/")
ui_mount (Request.set_session _) = some (lit "POST", lit "/_session")
ui_mount Request.clear_session = some (lit "POST", lit "/_session/clear")
ui_mount (Request.profile _ _) = some (lit "GET", lit "/u/:handle")
ui_mount (Request.compose _ _) = some (lit "POST", lit "/compose")
ui_mount (Request.ui_follow _ _) = some (lit "POST", lit "/_ui/follow")
ui_mount (Request.ui_unfollow _ _) = some (lit "POST", lit "/_ui/unfollow")
ui_mount (Request.ui_register _) = some (lit "POST", lit "/register")
ui_mount _ = none

unfoldable pub admin_mount : Request → Option (Str × Str)
admin_mount (Request.snapshot _) = some (lit "POST", lit "/_admin/snapshot")
admin_mount (Request.load_snapshot _ _) = some (lit "POST", lit "/_admin/load-snapshot")
admin_mount _ = none

-- The method and the path that the middleware sees: the matched route, or else the path of the request.
unfoldable pub route : Request → Str × Str
unfolding router ui_mount admin_mount
route (Request.refused method path matched _) = (method, unwrap_or path matched)
route r = elim (router r) [
  | some found ↦ found
  | none ↦ elim (ui_mount r) [ some found ↦ found | none ↦ unwrap_or ([], []) (admin_mount r) ]
]

pub data Reply (V : Type 0) : Type 0 where
  json : Response V → Reply V
  text : ℕ → Str → Reply V
  version_json : VersionResp → Reply V
  html : Str → Reply V
  redirect : Redirect → Reply V
  refusal : ℕ → Reply V

-- The status of a reply; a redirect is 303 See Other.
unfoldable pub status_of : {V : Type 0} → Reply V → ℕ
status_of (Reply.json r) = r.status
status_of (Reply.text status _) = status
status_of (Reply.version_json _) = 200
status_of (Reply.html _) = 200
status_of (Reply.redirect _) = 303
status_of (Reply.refusal status) = status

-- The state that the handlers share: the service, the labels of the counter of violations, the
-- observations of `HTTP_DURATION` and the increments of `HTTP_REQUESTS`, the latest first, and the
-- static of `version`.
pub record App (C : Type 0) : Type 0 where
  pub svc : Service C
  pub noted : List Str
  pub durations : List (Str × Str)
  pub requests : List (Str × Str × ℕ)
  pub started : Option ℕ

-- What the server is given: the libraries that it calls, and the process' environment.
pub record Environment (V C : Type 0) : Type 0 where
  pub clock : Clock C
  pub json : Json V
  pub null : V
  pub from_str : Str → Result Str V
  pub tag : Str → Str
  pub as_bytes : Str → List ℕ
  pub display : ℤ → Str
  pub is_header_value : Str → Bool
  pub encode : Str → Str
  pub admin_token : Option Str

-- What a request meets: the instant, the time of the day, the file of labels, the text of the registry,
-- and the orders in which hash maps and sets are walked.
pub record Moment : Type 0 where
  pub now : ℕ
  pub captured_at : Str
  pub version_file : Option Str
  pub encoded : Result Str Str
  pub followed : Iteration
  pub authors : Iteration
  pub user_order : Iteration
  pub from_order : Iteration
  pub to_order : Iteration
  pub list_order : Iteration
