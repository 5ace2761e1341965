-- ===== src/Tests/Raced.antt =====
-- Threads that race in crates/service/src/lib.rs, and the theorems on them.
use twitter_rust_formal_veri.Prelude.{
  ℕ, pos, str_eq, Str, lit, ◌≡◌, refl, true, List, [], ◌∷◌, ◌++◌, map, Mem, length, ok, err, arith,
}
use twitter_rust_formal_veri.Prelude.Int.{incr}
use twitter_rust_formal_veri.Std.HashMap
use twitter_rust_formal_veri.Clock
use twitter_rust_formal_veri.Clock.{Logical, logical_clock}
use twitter_rust_formal_veri.Ids
use twitter_rust_formal_veri.Domain.{Tweet}
use twitter_rust_formal_veri.Store
use twitter_rust_formal_veri.Service
use twitter_rust_formal_veri.Service.{new_with_clock}
use twitter_rust_formal_veri.Service.Calls.{Call}
use twitter_rust_formal_veri.Service.Sound.{HasRoom}
use twitter_rust_formal_veri.Service.Sound.Runs.{HasRoom-new}
use twitter_rust_formal_veri.Service.Threads.{
  Pc, Answer, System, Event, start, run, step, advance, is_ready,
}
use twitter_rust_formal_veri.Service.Threads.Alone.{serial}
use twitter_rust_formal_veri.Service.Spec.{promises}
use twitter_rust_formal_veri.Service.Spec.Refines.{world}
use twitter_rust_formal_veri.Service.Spec.Turns.{run-promises}
use twitter_rust_formal_veri.Service.Threads.Progress.{starts, moves, run-done}
use twitter_rust_formal_veri.Service.Threads.Acknowledged.{AllHold, run-AllHold}
use twitter_rust_formal_veri.Service.Threads.Safety.{IsSafe}
use twitter_rust_formal_veri.Service.Threads.Safety.Interleaved.{
  run-IsSafe, run-storing_tweet, idle-IsSafe,
}
use twitter_rust_formal_veri.Tests.Data.{alice, bob}

abbrev idle_system : System Logical
idle_system = start Clock.new

-- Two threads register one handle, then both post: the one that draws its identifier first stores its
-- tweet last.
abbrev race : List Event
race =
    Event.call 1 (Call.create_user bob)
    ∷ Event.call 2 (Call.create_user bob)
    ∷ Event.move 1
    ∷ Event.move 2
    ∷ Event.move 2
    ∷ Event.move 1
    ∷ Event.call 1 (Call.post_tweet bob (lit "one"))
    ∷ Event.call 2 (Call.post_tweet bob (lit "two"))
    ∷ Event.move 1
    ∷ Event.move 2
    ∷ Event.move 1
    ∷ Event.move 2
    ∷ Event.move 1
    ∷ Event.move 2
    ∷ Event.move 2
    ∷ []

abbrev posted : ℕ → Str → Tweet
posted id text = record { id = pos id; author = bob; text = text; created_at = pos 0 }

-- The second thread wins the handle, with the second identifier; its tweet is stored while the first's
-- is not.
race_answers : (run logical_clock race idle_system).answered ≡ (
    Answer.tweet (ok (posted 2 (lit "two")))
    ∷ Answer.user (err Service.duplicate_user)
    ∷ Answer.user (ok (record { id = pos 2; handle = bob }))
    ∷ [])
unfolding run step start Store.has_user HashMap.contains_key Store.put_user Store.new HashMap.empty
    HashMap.insert str_eq Store.put_tweet Ids.next_id incr Clock.now Ids.new Clock.new
race_answers = refl

race_first : (run logical_clock race idle_system).pc 1 ≡ Pc.storing_tweet (posted 1 (lit "one"))
unfolding run step start Store.has_user HashMap.contains_key Store.put_user Store.new HashMap.empty
    HashMap.insert str_eq Ids.next_id incr Clock.now Ids.new Clock.new
race_first = refl

-- A thread ticks while two others race.
abbrev others : List Event
others = Event.move 3 ∷ race ++ Event.move 3 ∷ Event.move 3 ∷ Event.move 3 ∷ []

abbrev taking_turns : List (ℕ × Call)
taking_turns =
    (1, Call.create_user alice)
    ∷ (2, Call.create_user bob)
    ∷ (1, Call.follow alice bob)
    ∷ (2, Call.post_tweet bob (lit "hi"))
    ∷ (3, Call.tick)
    ∷ []

idle_ready : is_ready (idle_system.pc 3) ≡ true
unfolding start is_ready
idle_ready = refl

all_ready : (i : ℕ) → is_ready (idle_system.pc i) ≡ true
unfolding start is_ready
all_ready i = refl

none_answered : AllHold idle_system.mem.st idle_system.answered
unfolding start AllHold
none_answered = tt

idle-HasRoom : HasRoom logical_clock idle_system.mem (length race)
unfolding start
idle-HasRoom =
    HasRoom-new logical_clock Clock.new (length race) (omega arith) (rw Clock.now-new (omega arith))

run-IsSafe_example : IsSafe logical_clock (run logical_clock race idle_system)
run-IsSafe_example =
    run-IsSafe logical_clock race idle_system idle-HasRoom (idle-IsSafe logical_clock Clock.new)

run-storing_tweet_example :
    (advance logical_clock
      (run logical_clock race idle_system).mem
      (Pc.storing_tweet (posted 1 (lit "one")))).1
    ≡ Pc.done (Answer.tweet (ok (posted 1 (lit "one"))))
run-storing_tweet_example =
    run-storing_tweet logical_clock race idle_system idle-HasRoom
      (idle-IsSafe logical_clock Clock.new) 1 (posted 1 (lit "one")) race_first

run-AllHold_example :
    AllHold
      (run logical_clock race idle_system).mem.st
      (run logical_clock race idle_system).answered
run-AllHold_example = run-AllHold logical_clock race idle_system none_answered

run-done_example :
    let sys = run logical_clock (Event.call 3 Call.tick ∷ others) idle_system in
    (a : Answer) × (sys.pc 3 ≡ Pc.done a) × Mem a sys.answered
unfolding starts moves
run-done_example =
    run-done logical_clock 3 Call.tick others idle_system idle_ready refl (omega arith)

run-promises_example :
    let sys = run logical_clock (serial taking_turns) idle_system in
    ((sys.answered, world logical_clock sys.mem)
      ≡ promises
          (map (λ (r : ℕ × Call). r.1) taking_turns)
          (idle_system.answered, world logical_clock idle_system.mem))
    × ((i : ℕ) → is_ready (sys.pc i) ≡ true)
run-promises_example = run-promises logical_clock taking_turns idle_system all_ready
