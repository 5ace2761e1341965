-- ===== src/Service/Threads.antt =====
-- crates/service/src/lib.rs called by threads at once. The lock of the store, of a generator or of the
-- clock is held for one operation at a time, so a method is a chain of critical sections, and other
-- threads may have theirs between any two.
pub mod Alone
pub mod Progress
pub mod Pending
pub mod Acknowledged
pub mod Safety
pub mod Dumps
use twitter_rust_formal_veri.Prelude.{
  ℕ, ◌==◌, ◌≡◌, arith, ℤ, Str, is_empty, Bool, true, false, List, [], ◌∷◌, Result, ok, err, map_err,
  if◌then◌else◌,
}
use twitter_rust_formal_veri.Clock.{Clock}
use twitter_rust_formal_veri.Ids
use twitter_rust_formal_veri.Domain
use twitter_rust_formal_veri.Domain.{User, Tweet, Follow}
use twitter_rust_formal_veri.Store
use twitter_rust_formal_veri.Service
use twitter_rust_formal_veri.Service.{Service, ServiceError, from_store, from_domain}
use twitter_rust_formal_veri.Service.Calls.{Call}

-- What a method returns to its caller.
pub data Answer : Type 0 where
  user : Result ServiceError User → Answer
  tweet : Result ServiceError Tweet → Answer
  unit : Result ServiceError (Unit {0}) → Answer
  ticked : Answer

-- Where a thread stands: before the critical section that is named, with the locals that it needs.
pub data Pc : Type 0 where
  idle : Pc
  done : Answer → Pc
  numbering_user : Str → Pc
  storing_user : User → Pc
  storing_follow : Follow → Pc
  checking_from checking_to deleting : Str → Str → Pc
  checking_author numbering_tweet : Str → Str → Pc
  timing_tweet : ℤ → Str → Str → Pc
  storing_tweet : Tweet → Pc
  ticking : Pc

-- The start of a method, up to its first lock.
unfoldable pub begin : Call → Pc
unfolding from_domain
begin (Call.create_user handle) =
    if is_empty handle then done (user (err Service.empty_handle)) else numbering_user handle
begin (Call.follow from to) = elim (Domain.new from to) [
  | err e ↦ done (unit (err (from_domain e)))
  | ok f ↦ storing_follow f
]
begin (Call.unfollow from to) = checking_from from to
begin (Call.post_tweet author text) =
    if is_empty text then done (tweet (err Service.empty_text)) else checking_author author text
begin Call.tick = ticking

-- `put_user(u.clone())?; Ok(u)` and `put_tweet(t.clone())?; Ok(t)`
unfoldable pub stored :
    {A : Type 0} → A → Result Store.StoreError (Unit {0}) → Result ServiceError A
unfolding from_store
stored v (ok _) = ok v
stored v (err e) = err (from_store e)

module _ {C : Type 0} (k : Clock C) where
  -- One critical section, with the code up to the next lock.
  unfoldable pub advance : Service C → Pc → Service C × Pc
  unfolding stored from_store
  advance s idle = (s, idle)
  advance s (done answer) = (s, done answer)
  advance s (numbering_user handle) =
      let (id, user_ids) = Ids.next_id s.user_ids in
      (record s { user_ids = user_ids }, storing_user (record { id = id; handle = handle }))
  advance s (storing_user u) =
      let (result, st) = Store.put_user u s.st in
      (record s { st = st }, done (user (stored u result)))
  advance s (storing_follow f) =
      let (result, st) = Store.put_follow f s.st in
      (record s { st = st }, done (unit (map_err from_store result)))
  advance s (checking_from from to) = (
    s,
    if Store.has_user s.st from
        then checking_to from to
        else done (unit (err Service.unknown_user)),
  )
  advance s (checking_to from to) = (
    s,
    if Store.has_user s.st to then deleting from to else done (unit (err Service.unknown_user)),
  )
  advance s (deleting from to) =
      (record s { st = Store.delete_follow from to s.st }, done (unit (ok tt)))
  advance s (checking_author author text) = (
    s,
    if Store.has_user s.st author
        then numbering_tweet author text
        else done (tweet (err Service.unknown_user)),
  )
  advance s (numbering_tweet author text) =
      let (id, tweet_ids) = Ids.next_id s.tweet_ids in
      (record s { tweet_ids = tweet_ids }, timing_tweet id author text)
  advance s (timing_tweet id author text) = (
    s,
    storing_tweet (record { id = id; author = author; text = text; created_at = k.now s.clk }),
  )
  advance s (storing_tweet t) =
      let (result, st) = Store.put_tweet t s.st in
      (record s { st = st }, done (tweet (stored t result)))
  advance s ticking = (record s { clk = k.tick s.clk }, done ticked)

-- A thread that stands between two calls.
unfoldable pub is_ready : Pc → Bool
is_ready idle = true
is_ready (done answer) = true
is_ready (numbering_user handle) = false
is_ready (storing_user u) = false
is_ready (storing_follow f) = false
is_ready (checking_from from to) = false
is_ready (checking_to from to) = false
is_ready (deleting from to) = false
is_ready (checking_author author text) = false
is_ready (numbering_tweet author text) = false
is_ready (timing_tweet id author text) = false
is_ready (storing_tweet t) = false
is_ready ticking = false

-- The service, its threads, and the answers that they have returned so far, the latest first.
pub record System (C : Type 0) : Type 0 where
  pub mem : Service C
  pub pc : ℕ → Pc
  pub answered : List Answer

-- `Service::new_with_clock`, with no call begun
unfoldable pub start : {C : Type 0} → C → System C
unfolding Service.new_with_clock
start c = record { mem = Service.new_with_clock c; pc = λ i. idle; answered = [] }

abbrev pub update : ℕ → Pc → (ℕ → Pc) → ℕ → Pc
update i p pc j = if i == j then p else pc j

pub update_self : (i : ℕ) (p : Pc) (pc : ℕ → Pc) → update i p pc i ≡ p
update_self i p pc = ground arith

abbrev pub log : Pc → List Answer → List Answer
log (done answer) answers = answer ∷ answers
log _ answers = answers

module _ {C : Type 0} where
  -- The thread `i` goes to `p`, and the service to `s`.
  abbrev pub put : ℕ → Service C × Pc → System C → System C
  put i (s, p) sys = record { mem = s; pc = update i p sys.pc; answered = log p sys.answered }

-- A thread that stands between two calls begins one, or a thread in a call makes its next move.
pub data Event : Type 0 where
  call : ℕ → Call → Event
  move : ℕ → Event

module _ {C : Type 0} (k : Clock C) where
  unfoldable pub step : Event → System C → System C
  unfolding is_ready advance begin
  step (Event.call i c) sys = if is_ready (sys.pc i) then put i (sys.mem, begin c) sys else sys
  step (Event.move i) sys =
      if is_ready (sys.pc i) then sys else put i (advance k sys.mem (sys.pc i)) sys

  unfoldable pub run : List Event → System C → System C
  run [] sys = sys
  run (e ∷ events) sys = run events (step e sys)

  pub call-ready :
      (i : ℕ) (c : Call) (sys : System C)
      → is_ready (sys.pc i) ≡ true
      → step (Event.call i c) sys ≡ put i (sys.mem, begin c) sys
  unfolding step
  call-ready i c sys e = rw e
