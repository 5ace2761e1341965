-- ===== src/Server/App/Counted.antt =====
-- What the middleware and the counter of crates/server/src/metrics.rs count of the requests.
use twitter_rust_formal_veri.Prelude.{
  ℕ, suc, ◌+◌, ◌≤◌, leb, Str, lit, ◌≡◌, refl, Bool, Option, none, some, List, [], ◌∷◌, length,
  arith, if◌then◌else◌,
}
use twitter_rust_formal_veri.Service
use twitter_rust_formal_veri.Service.{ServiceError}
use twitter_rust_formal_veri.Server.Metrics.{note_violation}
use twitter_rust_formal_veri.Server.Handlers
use twitter_rust_formal_veri.Server.Handlers.{map_err}
use twitter_rust_formal_veri.Server.App.{Request, route, Reply, status_of, App, Environment, Moment}
use twitter_rust_formal_veri.Server.App.Serve.{dispatch, track, serve, serve_all, start}

-- How many of the counted replies have the status of an error
unfoldable pub errors : List (Str × Str × ℕ) → ℕ
errors [] = 0
errors ((path, method, status) ∷ requests) =
    let rest = errors requests in if leb 400 status then suc rest else rest

length-note_violation :
    (code path : Str) (noted : List Str)
    → length (note_violation code path noted) ≤ suc (length noted)
unfolding note_violation
length-note_violation code path noted = ground arith

map_err-error : (e : ServiceError) → 400 ≤ (map_err e).0
unfolding map_err
map_err-error Service.empty_handle = omega arith
map_err-error Service.empty_text = omega arith
map_err-error Service.self_follow = omega arith
map_err-error Service.unknown_user = omega arith
map_err-error Service.duplicate_user = omega arith

counted-error :
    (e : ServiceError) (path : Str) (noted : List Str)
    → length (note_violation (map_err e).1 path noted)
      ≤ (if leb 400 (map_err e).0 then 1 else 0) + length noted
counted-error e path noted =
    ground (arith, length-note_violation (map_err e).1 path noted, map_err-error e)

module _ {V C : Type 0} (env : Environment V C) where
  -- What a reply adds to the count of errors
  abbrev is_error : Option (Reply V) → ℕ
  is_error none = 0
  is_error (some reply) = if leb 400 (status_of reply) then 1 else 0

  noted-dispatch :
      (m : Moment) (r : Request) (app : App C)
      → let (reply, app') = dispatch env m r app in
        (length app'.noted ≤ is_error reply + length app.noted) × (app'.requests ≡ app.requests)
  unfolding dispatch status_of Handlers.create_user Handlers.follow Handlers.unfollow
      Handlers.post_tweet Handlers.error
  noted-dispatch m (Request.create_user (some handle)) app =
      (grind (arith, λ (e : ServiceError). counted-error e (lit "/users") app.noted), refl)
  noted-dispatch m (Request.follow (some req)) app =
      (grind (arith, λ (e : ServiceError). counted-error e (lit "/follow") app.noted), refl)
  noted-dispatch m (Request.unfollow (some req)) app =
      (grind (arith, λ (e : ServiceError). counted-error e (lit "/follow") app.noted), refl)
  noted-dispatch m (Request.post_tweet (some req)) app =
      (grind (arith, λ (e : ServiceError). counted-error e (lit "/tweets") app.noted), refl)
  noted-dispatch m _ app = (omega arith, refl)

  -- The counters of a server agree: every observation of a duration comes with an increment of the
  -- counter of requests, and every violation noted with a counted reply that is an error.
  pub record IsCounted (app : App C) : Type 0 where
    pub observed : length app.durations ≡ length app.requests
    pub violations : length app.noted ≤ errors app.requests

  durations-dispatch :
      (m : Moment) (r : Request) (app : App C) → (dispatch env m r app).1.durations ≡ app.durations
  unfolding dispatch
  durations-dispatch m (Request.create_user (some handle)) app = refl
  durations-dispatch m _ app = refl

  track-IsCounted :
      (way : Str × Str) (app app' : App C) (reply : Option (Reply V))
      → (length app'.noted ≤ is_error reply + length app.noted) × (app'.requests ≡ app.requests)
      → app'.durations ≡ app.durations
      → IsCounted app
      → IsCounted (track env way (reply, app')).1
        × (length (track env way (reply, app')).1.requests ≤ suc (length app.requests))
  unfolding track errors
  track-IsCounted (method, path) app app' none (fewer, same) kept c = (
    record {
      observed = rw (kept, same) c.observed;
      violations = rw same (omega (arith, fewer, c.violations));
    },
    rw same (omega arith),
  )
  track-IsCounted (method, path) app app' (some reply) (fewer, same) kept c = (
    record {
      observed = rw (kept, same) (omega (arith, c.observed));
      violations = rw same (ground (arith, fewer, c.violations));
    },
    rw same (omega arith),
  )

  serve-IsCounted :
      (m : Moment) (r : Request) (app : App C)
      → IsCounted app
      → IsCounted (serve env m r app).1
        × (length (serve env m r app).1.requests ≤ suc (length app.requests))
  unfolding serve
  serve-IsCounted m r app c =
      track-IsCounted (route r) app (dispatch env m r app).1 (dispatch env m r app).0
        (noted-dispatch m r app) (durations-dispatch m r app) c

  serve_all-IsCounted :
      (requests : List (Moment × Request)) (app : App C)
      → IsCounted app
      → IsCounted (serve_all env requests app)
        × (length (serve_all env requests app).requests ≤ length requests + length app.requests)
  unfolding serve_all
  serve_all-IsCounted [] app c = (c, omega arith)
  serve_all-IsCounted ((m, r) ∷ requests) app c =
      let (now, one) = serve-IsCounted m r app c in
      let (later, rest) = serve_all-IsCounted requests (serve env m r app).1 now in
      (later, omega (arith, one, rest))

  -- From the start of the process and after any requests, snapshots among them: a duration was observed
  -- for each counted reply, no more replies are counted than requests came, and no more violations
  -- are noted than replies with the status of an error are counted.
  pub start-IsCounted :
      (seeded : Bool) (clk : C) (requests : List (Moment × Request))
      → IsCounted (serve_all env requests (start env seeded clk))
        × (length (serve_all env requests (start env seeded clk)).requests ≤ length requests)
  unfolding start
  start-IsCounted seeded clk requests =
      let (counted, fewer) =
        serve_all-IsCounted requests (start env seeded clk)
          (record { observed = refl; violations = omega arith }) in
      (counted, omega (arith, fewer))
