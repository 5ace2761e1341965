-- ===== src/Server/App/Sound.antt =====
-- The invariant of the service under the requests that crates/server answers, from its start-up on.
use twitter_rust_formal_veri.Prelude.{
  ℕ, ◌+◌, ◌≤◌, i64_max, lit, ◌≡◌, Bool, true, false, List, [], ◌∷◌, length, arith,
}
use twitter_rust_formal_veri.Clock.Monotone.{Fits}
use twitter_rust_formal_veri.Service.{Service, new_with_clock}
use twitter_rust_formal_veri.Service.Calls.{Call, run}
use twitter_rust_formal_veri.Service.Sound.{IsSound, HasRoom, IsSound-new}
use twitter_rust_formal_veri.Service.Sound.Runs.{
  run-IsSound, run-HasRoom, HasRoom-fewer, HasRoom-new,
}
use twitter_rust_formal_veri.Server.Seed.{seed_demo, seed_handles, seed_tweets}
use twitter_rust_formal_veri.Server.App.{Request, App, Environment, Moment}
use twitter_rust_formal_veri.Server.App.Serve.{serve_all, start}
use twitter_rust_formal_veri.Server.App.Calls.{some_load, calls_of, serve_all-run, length-calls_of}

module _ {V C : Type 0} (env : Environment V C) where
  serve_all-IsSound :
      (requests : List (Moment × Request)) (app : App C)
      → some_load env requests ≡ false
      → HasRoom env.clock app.svc (length requests)
      → IsSound env.clock app.svc
      → IsSound env.clock (serve_all env requests app).svc
  serve_all-IsSound requests app h room p = rw (serve_all-run env requests app h) (
      run-IsSound env.clock (calls_of env requests) app.svc
        (HasRoom-fewer env.clock app.svc (length (calls_of env requests)) (length requests)
          (length-calls_of env requests) room)
        p)

  -- The calls of the demonstration state, three, four and one.
  seed_demo-ready :
      (s : Service C) (n : ℕ)
      → HasRoom env.clock s (8 + n)
      → IsSound env.clock s
      → IsSound env.clock (seed_demo env.clock s) × HasRoom env.clock (seed_demo env.clock s) n
  unfolding seed_demo
  seed_demo-ready s n room p =
      let k = env.clock in
      let handles = run k seed_handles s in
      let tweets = run k seed_tweets handles in
      let last = Call.follow (lit "alice") (lit "bob") ∷ [] in
      let room5 : HasRoom k handles (5 + n) =
        run-HasRoom k seed_handles s (5 + n) (HasRoom-fewer k s _ (8 + n) (omega arith) room) in
      let room1 : HasRoom k tweets (1 + n) =
        run-HasRoom k seed_tweets handles (1 + n)
          (HasRoom-fewer k handles _ (5 + n) (omega arith) room5) in
      let sound_handles : IsSound k handles =
        run-IsSound k seed_handles s (HasRoom-fewer k s _ (8 + n) (omega arith) room) p in
      let sound_tweets : IsSound k tweets =
        run-IsSound k seed_tweets handles (HasRoom-fewer k handles _ (5 + n) (omega arith) room5)
          sound_handles in
      (
        run-IsSound k last tweets (HasRoom-fewer k tweets _ (1 + n) (omega arith) room1)
            sound_tweets,
        run-HasRoom k last tweets n room1,
      )

  start-ready :
      (seeded : Bool) (clk : C) (n : ℕ)
      → 8 + n ≤ i64_max
      → Fits (env.clock.now clk) (8 + n)
      → IsSound env.clock (start env seeded clk).svc
        × HasRoom env.clock (start env seeded clk).svc n
  unfolding start
  start-ready true clk n h fits =
      seed_demo-ready (new_with_clock clk) n (HasRoom-new env.clock clk (8 + n) h fits)
        (IsSound-new env.clock clk)
  start-ready false clk n h fits =
      (IsSound-new env.clock clk, HasRoom-new env.clock clk n (omega arith) (omega arith))

  -- From the start of the process, with the demonstration state or without it, and after any requests
  -- on any routes, none of which brings a snapshot with the token, the invariant of the service holds,
  -- as long as the requests are fewer than the counters and the clock have room for, eight aside.
  pub start-IsSound :
      (seeded : Bool) (clk : C) (requests : List (Moment × Request))
      → some_load env requests ≡ false
      → 8 + length requests ≤ i64_max
      → Fits (env.clock.now clk) (8 + length requests)
      → IsSound env.clock (serve_all env requests (start env seeded clk)).svc
  start-IsSound seeded clk requests h few fits =
      let (sound, room) = start-ready seeded clk (length requests) few fits in
      serve_all-IsSound requests (start env seeded clk) h room sound
