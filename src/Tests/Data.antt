-- ===== src/Tests/Data.antt =====
-- The town of the tests: three users, two follows, three tweets and two ticks.
use mathlib.Core.List.Perm
use mathlib.Core.List.{reverse, reverse_perm}
use twitter_rust_formal_veri.Prelude.{pos, Str, lit, List, [], ◌∷◌, arith}
use twitter_rust_formal_veri.Std.HashMap.{Iteration}
use twitter_rust_formal_veri.Clock
use twitter_rust_formal_veri.Clock.{Logical, logical_clock}
use twitter_rust_formal_veri.Domain.{Tweet}
use twitter_rust_formal_veri.Service.{Service, new_with_clock}
use twitter_rust_formal_veri.Service.Calls.{Call, run}
use twitter_rust_formal_veri.Service.Sound.{IsSound}
use twitter_rust_formal_veri.Service.Sound.Runs.{run_new-IsSound}

-- The two orders in which the tests walk a hash set.
abbrev pub forwards : Iteration
forwards = record { order = λ ks. ks; perm = λ ks. Perm.refl ks }

abbrev pub backwards : Iteration
backwards = record { order = reverse; perm = λ ks. reverse_perm ks }

abbrev pub alice : Str
alice = lit "alice"

abbrev pub bob : Str
bob = lit "bob"

abbrev pub carol : Str
carol = lit "carol"

abbrev pub calls : List Call
calls =
    Call.create_user alice
    ∷ Call.create_user bob
    ∷ Call.create_user carol
    ∷ Call.create_user bob
    ∷ Call.follow alice bob
    ∷ Call.follow bob bob
    ∷ Call.follow carol alice
    ∷ Call.post_tweet bob (lit "hi")
    ∷ Call.tick
    ∷ Call.post_tweet alice (lit "yo")
    ∷ Call.post_tweet carol (lit "hey")
    ∷ Call.unfollow carol alice
    ∷ Call.tick
    ∷ []

abbrev pub town : Service Logical
town = run logical_clock calls (new_with_clock Clock.new)

pub town-IsSound : IsSound logical_clock town
town-IsSound =
    run_new-IsSound logical_clock calls Clock.new (omega arith) (rw Clock.now-new (omega arith))

abbrev pub first_tweet : Tweet
first_tweet = record { id = pos 1; author = bob; text = lit "hi"; created_at = pos 0 }
