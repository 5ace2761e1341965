-- ===== src/Service/Threads/Acknowledged.antt =====
-- What crates/service/src/lib.rs has returned to a caller stays true whatever the threads do next: no
-- acknowledged user or tweet is lost.
use mathlib.Core.List.{mem-append, mem-cons_self}
use mathlib.Core.Logic.Or
use twitter_rust_formal_veri.Prelude.{
  Str, str_eq_iff, str_eq_refl, ◌≡◌, refl, true, false, some, List, [], ◌∷◌, ◌++◌, Mem, Result, ok,
  err, arith, if◌then◌else◌, Bool-cases, inl, inr, Bool, str_eq, ◌&&◌,
}
use twitter_rust_formal_veri.Clock.{Clock}
use twitter_rust_formal_veri.Domain
use twitter_rust_formal_veri.Domain.{User, Tweet, Follow}
use twitter_rust_formal_veri.Store.{
  Inner, StoreError, has_user, put_user, put_follow, delete_follow, put_tweet,
}
use twitter_rust_formal_veri.Store.Views.{
  users_keys, user_at, posts, user_at-put_user, user_at-put_follow, user_at-delete_follow,
  user_at-put_tweet, posts-put_user, posts-put_follow, posts-delete_follow, posts-put_tweet,
  user_at-eq-none,
}
use twitter_rust_formal_veri.Service.{Service, ServiceError}
use twitter_rust_formal_veri.Service.Calls.{Call}
use twitter_rust_formal_veri.Service.Threads.{
  Pc, Answer, System, Event, begin, advance, stored, is_ready, step, run, log,
}

-- The users and the tweets of one store are in another.
record Extends (g g' : Inner) : Type 0 where
  users : (h : Str) (u : User) → user_at g h ≡ some u → user_at g' h ≡ some u
  tweets : (a : Str) (t : Tweet) → Mem t (posts g a) → Mem t (posts g' a)

Extends-refl : (g : Inner) → Extends g g
Extends-refl g = record { users = λ h u e. e; tweets = λ a t m. m }

put_user-Extends : (u : User) (g : Inner) → Extends g (put_user u g).1
put_user-Extends u g = record {
  users = λ h v e.
      ground (arith, user_at-put_user u g h, user_at-eq-none g u.handle, str_eq_iff u.handle h);
  tweets = λ a t m. rw (posts-put_user g a u) m;
}

put_follow-Extends : (f : Follow) (g : Inner) → Extends g (put_follow f g).1
put_follow-Extends f g = record {
  users = λ h u e. rw (user_at-put_follow g h f) e;
  tweets = λ a t m. rw (posts-put_follow g a f) m;
}

delete_follow-Extends : (from to : Str) (g : Inner) → Extends g (delete_follow from to g)
delete_follow-Extends from to g = record {
  users = λ h u e. rw (user_at-delete_follow g h from to) e;
  tweets = λ a t m. rw (posts-delete_follow g a from to) m;
}

put_tweet-Extends : (t : Tweet) (g : Inner) → Extends g (put_tweet t g).1
put_tweet-Extends t g = record {
  users = λ h u e. rw (user_at-put_tweet g h t) e;
  tweets = λ a v m.
      rw (posts-put_tweet t g a) (elim (Bool-cases (users_keys g t.author && str_eq t.author a)) [
        | inl e ↦ rw e (mem-append.1 (Or.inl m))
        | inr e ↦ rw e m
      ]);
}

-- What an answer says of the store: the user is registered under its handle, and the tweet is among
-- its author's.
unfoldable pub Holds : Inner → Answer → Type 0
Holds g (Answer.user (ok u)) = user_at g u.handle ≡ some u
Holds g (Answer.user (err e)) = Unit {0}
Holds g (Answer.tweet (ok t)) = Mem t (posts g t.author)
Holds g (Answer.tweet (err e)) = Unit {0}
Holds g (Answer.unit result) = Unit {0}
Holds g Answer.ticked = Unit {0}

Holds-Extends : (g g' : Inner) (a : Answer) → Extends g g' → Holds g a → Holds g' a
unfolding Holds
Holds-Extends g g' (Answer.user (ok u)) x h = x.users u.handle u h
Holds-Extends g g' (Answer.tweet (ok t)) x h = x.tweets t.author t h
Holds-Extends g g' (Answer.user (err e)) x h = tt
Holds-Extends g g' (Answer.tweet (err e)) x h = tt
Holds-Extends g g' (Answer.unit result) x h = tt
Holds-Extends g g' Answer.ticked x h = tt

put_user-ok :
    (u : User) (g : Inner) → (put_user u g).0 ≡ ok tt → user_at (put_user u g).1 u.handle ≡ some u
unfolding put_user users_keys
put_user-ok u g e = ground (arith, user_at-put_user u g u.handle, str_eq_refl u.handle)

put_tweet-ok :
    (t : Tweet) (g : Inner)
    → (put_tweet t g).0 ≡ ok tt
    → posts (put_tweet t g).1 t.author ≡ posts g t.author ++ t ∷ []
unfolding put_tweet users_keys
put_tweet-ok t g e = ground (arith, posts-put_tweet t g t.author, str_eq_refl t.author)

stored_user-Holds :
    (u : User) (g : Inner) (r : Result StoreError (Unit {0}))
    → (put_user u g).0 ≡ r
    → Holds (put_user u g).1 (Answer.user (stored u r))
unfolding Holds stored
stored_user-Holds u g (ok _) e = put_user-ok u g e
stored_user-Holds u g (err _) e = tt

stored_tweet-Holds :
    (t : Tweet) (g : Inner) (r : Result StoreError (Unit {0}))
    → (put_tweet t g).0 ≡ r
    → Holds (put_tweet t g).1 (Answer.tweet (stored t r))
unfolding Holds stored
stored_tweet-Holds t g (ok _) e = rw (put_tweet-ok t g e) (mem-append.1 (Or.inr mem-cons_self))
stored_tweet-Holds t g (err _) e = tt

-- If the thread has ended its call, what it answers holds.
abbrev DoneHolds : Inner → Pc → Type 0
DoneHolds g (Pc.done a) = Holds g a
DoneHolds g _ = Unit {0}

unfoldable pub AllHold : Inner → List Answer → Type 0
AllHold g [] = Unit {0}
AllHold g (a ∷ answers) = Holds g a × AllHold g answers

AllHold-Extends :
    (g g' : Inner) (answers : List Answer) → Extends g g' → AllHold g answers → AllHold g' answers
unfolding AllHold
AllHold-Extends g g' [] x all = tt
AllHold-Extends g g' (a ∷ answers) x (first, rest) =
    (Holds-Extends g g' a x first, AllHold-Extends g g' answers x rest)

log-AllHold :
    (g : Inner) (p : Pc) (answers : List Answer)
    → DoneHolds g p
    → AllHold g answers
    → AllHold g (log p answers)
unfolding AllHold
log-AllHold g (Pc.done a) answers d all = (d, all)
log-AllHold g _ answers d all = all

refused-DoneHolds :
    (g : Inner) (b : Bool) (p : Pc) (r : Result ServiceError (Unit {0}))
    → DoneHolds g p
    → DoneHolds g (if b then p else Pc.done (Answer.unit r))
unfolding Holds
refused-DoneHolds g true p r d = d
refused-DoneHolds g false p r d = tt

begin-DoneHolds : (g : Inner) (c : Call) → DoneHolds g (begin c)
unfolding Holds begin Domain.new
begin-DoneHolds g (Call.create_user []) = tt
begin-DoneHolds g (Call.create_user (c ∷ handle)) = tt
begin-DoneHolds g (Call.follow from to) = elim (Bool-cases (str_eq from to)) [
  | inl e ↦ rw (e, DoneHolds) tt
  | inr e ↦ rw (e, DoneHolds) tt
]
begin-DoneHolds g (Call.unfollow from to) = tt
begin-DoneHolds g (Call.post_tweet author []) = tt
begin-DoneHolds g (Call.post_tweet author (c ∷ text)) = tt
begin-DoneHolds g Call.tick = tt

module _ {C : Type 0} (k : Clock C) where
  advance-Extends : (s : Service C) (p : Pc) → Extends s.st (advance k s p).0.st
  unfolding advance
  advance-Extends s (Pc.storing_user u) = put_user-Extends u s.st
  advance-Extends s (Pc.storing_follow f) = put_follow-Extends f s.st
  advance-Extends s (Pc.deleting from to) = delete_follow-Extends from to s.st
  advance-Extends s (Pc.storing_tweet t) = put_tweet-Extends t s.st
  advance-Extends s _ = Extends-refl s.st

  advance-DoneHolds :
      (s : Service C) (p : Pc)
      → is_ready p ≡ false
      → DoneHolds (advance k s p).0.st (advance k s p).1
  unfolding advance is_ready Holds
  advance-DoneHolds s Pc.idle e = tt
  advance-DoneHolds s (Pc.done a) e = absurd (ground arith)
  advance-DoneHolds s (Pc.storing_user u) e = stored_user-Holds u s.st _ refl
  advance-DoneHolds s (Pc.storing_tweet t) e = stored_tweet-Holds t s.st _ refl
  advance-DoneHolds s (Pc.checking_from from to) e =
      refused-DoneHolds s.st _ (Pc.checking_to from to) _ tt
  advance-DoneHolds s (Pc.checking_to from to) e =
      refused-DoneHolds s.st _ (Pc.deleting from to) _ tt
  advance-DoneHolds s (Pc.checking_author author text) e =
      elim (Bool-cases (has_user s.st author)) [
        | inl known ↦ rw known tt
        | inr unknown ↦ rw unknown tt
      ]
  advance-DoneHolds s _ e = tt

  step-AllHold :
      (e : Event) (sys : System C)
      → AllHold sys.mem.st sys.answered
      → AllHold (step k e sys).mem.st (step k e sys).answered
  unfolding step
  step-AllHold (Event.call i c) sys all = elim (Bool-cases (is_ready (sys.pc i))) [
    | inl e ↦
        rw e (log-AllHold sys.mem.st (begin c) sys.answered (begin-DoneHolds sys.mem.st c) all)
    | inr e ↦ rw e all
  ]
  step-AllHold (Event.move i) sys all = elim (Bool-cases (is_ready (sys.pc i))) [
    | inl e ↦ rw e all
    | inr e ↦
        let (s, p) = advance k sys.mem (sys.pc i) in
        rw e (
          log-AllHold s.st p sys.answered (advance-DoneHolds sys.mem (sys.pc i) e)
            (AllHold-Extends sys.mem.st s.st sys.answered (advance-Extends sys.mem (sys.pc i)) all))
  ]

  -- However the threads interleave, a user that `create_user` has returned stands under its handle ever
  -- after, and a tweet that `post_tweet` has returned is in its author's list ever after.
  pub run-AllHold :
      (events : List Event) (sys : System C)
      → AllHold sys.mem.st sys.answered
      → AllHold (run k events sys).mem.st (run k events sys).answered
  unfolding run
  run-AllHold [] sys all = all
  run-AllHold (e ∷ events) sys all = run-AllHold events (step k e sys) (step-AllHold e sys all)
