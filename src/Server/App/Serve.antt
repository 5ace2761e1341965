-- ===== src/Server/App/Serve.antt =====
-- How the server of crates/server answers a request: the handler of its route, the middleware around
-- it, and the start-up of crates/server/src/main.rs.
use twitter_rust_formal_veri.Prelude.{Str, Bool, Option, none, some, List, [], ◌∷◌, if◌then◌else◌}
use twitter_rust_formal_veri.Service.{Service, new_with_clock}
use twitter_rust_formal_veri.Server.Response.{Response}
use twitter_rust_formal_veri.Server.Metrics.{render}
use twitter_rust_formal_veri.Server.Handlers
use twitter_rust_formal_veri.Server.Handlers.{FollowReq, TweetReq}
use twitter_rust_formal_veri.Server.Probes.{healthz, version, labels}
use twitter_rust_formal_veri.Server.Admin.Load
use twitter_rust_formal_veri.Server.Ui.Forms
use twitter_rust_formal_veri.Server.Ui.Forms.{Redirect, current_actor}
use twitter_rust_formal_veri.Server.Ui.Pages
use twitter_rust_formal_veri.Server.Seed.{seed_demo}
use twitter_rust_formal_veri.Server.App.{Request, route, Reply, status_of, App, Environment, Moment}

module _ {V C : Type 0} (env : Environment V C) where
  -- A handler of the API, on its part of the state
  abbrev api : Response V × (Service C × List Str) → App C → Option (Reply V) × App C
  api (response, (s, noted)) app =
      (some (Reply.json response), record app { svc = s; noted = noted })

  abbrev form : Redirect × Service C → App C → Option (Reply V) × App C
  form (r, s) app = (some (Reply.redirect r), record app { svc = s })

  -- A panic of the handler is no reply.
  abbrev redirected : Option Redirect → Option (Reply V)
  redirected (some r) = some (Reply.redirect r)
  redirected none = none

  abbrev form_or_panic : Option Redirect × Service C → App C → Option (Reply V) × App C
  form_or_panic (r, s) app = (redirected r, record app { svc = s })

  -- `read_version_meta`
  unfoldable pub read_version_meta : Option Str → Str × Str
  read_version_meta file = labels env.json env.from_str file

  -- The handler of the route.
  unfoldable pub dispatch : Moment → Request → App C → Option (Reply V) × App C
  unfolding healthz render read_version_meta
  dispatch m (Request.create_user body) app =
      api (Handlers.create_user env.json body (app.svc, app.noted)) app
  dispatch m (Request.follow body) app =
      api (Handlers.follow env.json body (app.svc, app.noted)) app
  dispatch m (Request.unfollow body) app =
      api (Handlers.unfollow env.json body (app.svc, app.noted)) app
  dispatch m (Request.post_tweet body) app =
      api (Handlers.post_tweet env.json env.clock body (app.svc, app.noted)) app
  dispatch m (Request.timeline user limit) app = (
    some (Reply.json (Handlers.timeline env.json env.null m.followed m.authors user limit app.svc)),
    app,
  )
  dispatch m Request.healthz_probe app = (some (Reply.text healthz.0 healthz.1), app)
  dispatch m Request.version_probe app =
      let (response, started) = version env.json env.from_str m.version_file m.now app.started in
      (some (Reply.version_json response), record app { started = started })
  dispatch m Request.metrics_probe app =
      let (status, content_type, out) = render m.encoded in (some (Reply.text status out), app)
  dispatch m (Request.home cookie error) app = (
    some (
        Reply.html (
          Pages.home_or_login env.tag env.as_bytes env.display m.followed m.authors app.svc cookie
            error)),
    app,
  )
  dispatch m (Request.set_session handle) app = (
    redirected (Forms.set_session env.tag env.as_bytes env.is_header_value env.encode handle),
    app,
  )
  dispatch m Request.clear_session app = (some (Reply.redirect Forms.clear_session), app)
  dispatch m (Request.profile cookie handle) app = (
    some (
        Reply.html (
          Pages.profile env.tag env.as_bytes env.display m.followed m.authors app.svc cookie
            handle)),
    app,
  )
  dispatch m (Request.compose cookie text) app =
      form
        (Forms.compose env.encode env.clock (current_actor env.tag env.as_bytes cookie) text
          app.svc)
        app
  dispatch m (Request.ui_follow cookie to) app =
      form_or_panic
        (Forms.ui_follow env.encode env.is_header_value (current_actor env.tag env.as_bytes cookie)
          to app.svc)
        app
  dispatch m (Request.ui_unfollow cookie to) app =
      form_or_panic
        (Forms.ui_unfollow env.encode env.is_header_value
          (current_actor env.tag env.as_bytes cookie) to app.svc)
        app
  dispatch m (Request.ui_register handle) app =
      let (r, s) =
        Forms.ui_register env.tag env.as_bytes env.is_header_value env.encode handle app.svc in
      (redirected r, record app { svc = s })
  dispatch m (Request.snapshot token) app =
      let (git_sha, image_digest) = read_version_meta m.version_file in
      (
        some (
            Reply.json (
              Load.snapshot env.json env.clock env.as_bytes env.admin_token token m.captured_at
                git_sha image_digest m.user_order m.from_order m.to_order m.list_order app.svc)),
        app,
      )
  dispatch m (Request.load_snapshot token body) app =
      let (response, s) =
        Load.load_snapshot env.json env.clock env.from_str env.as_bytes env.admin_token token body
          app.svc in
      (some (Reply.json response), record app { svc = s })
  dispatch m (Request.refused _ _ _ status) app = (some (Reply.refusal status), app)

  -- The middleware: what the handler answers is counted under its route, its method and its status. A
  -- panic goes past it.
  unfoldable pub track : Str × Str → Option (Reply V) × App C → Option (Reply V) × App C
  unfolding status_of
  track (method, path) (none, app) = (none, app)
  track (method, path) (some reply, app) = (
    some reply,
    record app {
      durations = (path, method) ∷ app.durations;
      requests = (path, method, status_of reply) ∷ app.requests;
    },
  )

  unfoldable pub serve : Moment → Request → App C → Option (Reply V) × App C
  unfolding dispatch track route
  serve m r app = track (route r) (dispatch m r app)

  unfoldable pub serve_all : List (Moment × Request) → App C → App C
  unfolding serve
  serve_all [] app = app
  serve_all ((m, r) ∷ requests) app = serve_all requests (serve m r app).1

  -- `main`: an empty service, or one with the demonstration state if SEED_DEMO is "true"
  unfoldable pub start : Bool → C → App C
  unfolding seed_demo
  start seeded clk = record {
    svc = if seeded then seed_demo env.clock (new_with_clock clk) else new_with_clock clk;
    noted = [];
    durations = [];
    requests = [];
    started = none;
  }
