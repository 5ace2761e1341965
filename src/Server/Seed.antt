-- ===== src/Server/Seed.antt =====
-- `seed_demo` of crates/server/src/main.rs: the calls that fill an empty service at start-up. An error
-- is only logged, so the calls go on.
use twitter_rust_formal_veri.Prelude.{lit, List, [], ◌∷◌}
use twitter_rust_formal_veri.Clock.{Clock}
use twitter_rust_formal_veri.Service.{Service}
use twitter_rust_formal_veri.Service.Calls.{Call, run}

abbrev pub seed_handles : List Call
seed_handles =
    Call.create_user (lit "alice")
    ∷ Call.create_user (lit "bob")
    ∷ Call.create_user (lit "carol")
    ∷ []

abbrev pub seed_tweets : List Call
seed_tweets =
    Call.post_tweet (lit "alice") (lit "verified backend, deployed to fly.io")
    ∷ Call.post_tweet (lit "alice")
        (lit "every method here is gobra/verus-checked or honestly trusted")
    ∷ Call.post_tweet (lit "bob") (lit "TLC says 141M states, 0 invariant violations")
    ∷ Call.post_tweet (lit "carol")
        (lit "no follow yet — see /timeline?user=alice — bob's tweet shows up, mine doesn't")
    ∷ []

unfoldable pub seed_demo : {C : Type 0} → Clock C → Service C → Service C
seed_demo k s =
    run k (Call.follow (lit "alice") (lit "bob") ∷ []) (run k seed_tweets (run k seed_handles s))
