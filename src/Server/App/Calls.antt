-- ===== src/Server/App/Calls.antt =====
-- What the requests that crates/server answers do to the service: each makes one call of it at most.
use twitter_rust_formal_veri.Prelude.{
  ◌≤◌, Str, is_empty, ◌≡◌, refl, ap, ◌∙◌, Bool, true, false, ◌||◌, Option, none, some, List, [],
  ◌∷◌, length, arith, if◌then◌else◌,
}
use twitter_rust_formal_veri.Service.{Service}
use twitter_rust_formal_veri.Service.Calls.{Call, apply, run}
use twitter_rust_formal_veri.Server.Admin.Token.{AuthResult, check_admin_token}
use twitter_rust_formal_veri.Server.Admin.Load.{load_snapshot}
use twitter_rust_formal_veri.Server.Handlers
use twitter_rust_formal_veri.Server.Handlers.{trim}
use twitter_rust_formal_veri.Server.Ui.Forms
use twitter_rust_formal_veri.Server.Ui.Forms.{current_actor}
use twitter_rust_formal_veri.Server.App.{Request, route, Reply, App, Environment, Moment}
use twitter_rust_formal_veri.Server.App.Serve.{dispatch, track, serve, serve_all}

module _ {V C : Type 0} (env : Environment V C) where
  -- The call that a form makes for the actor that its cookies name
  abbrev by_actor : Option Str → (Str → Call) → Option Call
  by_actor cookie call = elim (current_actor env.tag env.as_bytes cookie) [
    | some actor ↦ some (call actor)
    | none ↦ none
  ]

  -- The call of the service that a request stands for, if any
  unfoldable pub call_of : Request → Option Call
  call_of (Request.create_user (some handle)) = some (Call.create_user handle)
  call_of (Request.follow (some req)) = some (Call.follow req.from req.to)
  call_of (Request.unfollow (some req)) = some (Call.unfollow req.from req.to)
  call_of (Request.post_tweet (some req)) = some (Call.post_tweet req.author req.text)
  call_of (Request.compose cookie text) = by_actor cookie (λ a. Call.post_tweet a (trim text))
  call_of (Request.ui_follow cookie to) = by_actor cookie (λ a. Call.follow a (trim to))
  call_of (Request.ui_unfollow cookie to) = by_actor cookie (λ a. Call.unfollow a (trim to))
  call_of (Request.ui_register handle) =
      if is_empty (trim handle) then none else some (Call.create_user (trim handle))
  call_of _ = none

  -- The request may load a snapshot: it has the token.
  unfoldable pub may_load : Request → Bool
  may_load (Request.load_snapshot token body) =
      elim (check_admin_token env.as_bytes env.admin_token token) [
        | AuthResult.ok ↦ true
        | AuthResult.forbidden ↦ false
        | AuthResult.disabled ↦ false
      ]
  may_load _ = false

  unfoldable pub calls_of : List (Moment × Request) → List Call
  unfolding call_of
  calls_of [] = []
  calls_of ((m, r) ∷ requests) = elim (call_of r) [
    | some c ↦ c ∷ calls_of requests
    | none ↦ calls_of requests
  ]

  unfoldable pub some_load : List (Moment × Request) → Bool
  unfolding may_load
  some_load [] = false
  some_load ((m, r) ∷ requests) = may_load r || some_load requests

  abbrev apply_some : Option Call → Service C → Service C
  apply_some none s = s
  apply_some (some c) s = apply env.clock c s

  svc-dispatch :
      (m : Moment) (r : Request) (app : App C)
      → may_load r ≡ false
      → (dispatch env m r app).1.svc ≡ apply_some (call_of r) app.svc
  unfolding dispatch may_load call_of apply Handlers.create_user Handlers.follow Handlers.unfollow
      Handlers.post_tweet Forms.compose Forms.ui_follow Forms.ui_unfollow Forms.ui_register
      load_snapshot
  svc-dispatch m (Request.create_user none) app h = refl
  svc-dispatch m (Request.create_user (some handle)) app h = ground arith
  svc-dispatch m (Request.follow none) app h = refl
  svc-dispatch m (Request.follow (some req)) app h = ground arith
  svc-dispatch m (Request.unfollow none) app h = refl
  svc-dispatch m (Request.unfollow (some req)) app h = ground arith
  svc-dispatch m (Request.post_tweet none) app h = refl
  svc-dispatch m (Request.post_tweet (some req)) app h = ground arith
  svc-dispatch m (Request.compose cookie text) app h = ground arith
  svc-dispatch m (Request.ui_follow cookie to) app h = ground arith
  svc-dispatch m (Request.ui_unfollow cookie to) app h = ground arith
  svc-dispatch m (Request.ui_register handle) app h = ground arith
  svc-dispatch m (Request.load_snapshot token body) app h = ground arith
  svc-dispatch m _ app h = refl

  svc-track :
      (route : Str × Str) (reply : Option (Reply V)) (app : App C)
      → (track env route (reply, app)).1.svc ≡ app.svc
  unfolding track
  svc-track (method, path) none app = refl
  svc-track (method, path) (some reply) app = refl

  svc-serve :
      (m : Moment) (r : Request) (app : App C)
      → may_load r ≡ false
      → (serve env m r app).1.svc ≡ apply_some (call_of r) app.svc
  unfolding serve
  svc-serve m r app h =
      svc-track (route r) (dispatch env m r app).0 (dispatch env m r app).1 ∙ svc-dispatch m r app h

  run-apply_some :
      (call : Option Call) (calls : List Call) (s : Service C)
      → run env.clock calls (apply_some call s)
        ≡ run env.clock (elim call as (λ _. List Call) [ some c ↦ c ∷ calls | none ↦ calls ]) s
  unfolding run
  run-apply_some none calls s = refl
  run-apply_some (some c) calls s = refl

  -- Whatever requests the server is sent in whatever order, on whichever routes and with whichever
  -- bodies, cookies and tokens, as long as none brings a snapshot with the token of the administrator:
  -- the service is where the calls of `Service` that the requests stand for leave it, one call for a
  -- request of the API that decodes, one for a form whose cookie names an actor or that registers a
  -- handle, and none for the others.
  pub serve_all-run :
      (requests : List (Moment × Request)) (app : App C)
      → some_load requests ≡ false
      → (serve_all env requests app).svc ≡ run env.clock (calls_of requests) app.svc
  unfolding serve_all some_load calls_of run
  serve_all-run [] app h = refl
  serve_all-run ((m, r) ∷ requests) app h =
      serve_all-run requests (serve env m r app).1 (ground arith)
      ∙ ap (run env.clock (calls_of requests)) (svc-serve m r app (ground arith))
      ∙ run-apply_some (call_of r) (calls_of requests) app.svc

  pub length-calls_of :
      (requests : List (Moment × Request)) → length (calls_of requests) ≤ length requests
  unfolding calls_of
  length-calls_of [] = omega arith
  length-calls_of ((m, r) ∷ requests) = ground (arith, length-calls_of requests)
