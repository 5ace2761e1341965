-- ===== src/Service/Spec.antt =====
-- What crates/service/src/lib.rs promises, with no trace of how it stores it: the state as functions
-- of handles, and each request as one step of it.
pub mod Refines
pub mod Reads
pub mod Turns
use twitter_rust_formal_veri.Prelude.{
  ℤ, pos, incr, Str, str_eq, is_empty, ◌≡◌, Bool, true, false, not, ◌&&◌, ◌||◌, Option, none, some,
  List, [], ◌∷◌, ◌++◌, ok, err, fun_ext, if◌then◌else◌,
}
use twitter_rust_formal_veri.Domain.{User, Tweet}
use twitter_rust_formal_veri.Service
use twitter_rust_formal_veri.Service.Calls.{Call}
use twitter_rust_formal_veri.Service.Threads.{Answer}

-- The users by their handles, who follows whom, the tweets of each author from the oldest on, the last
-- identifiers issued, and the time.
pub record World : Type 0 where
  pub users : Str → Option User
  pub follows : Str → Str → Bool
  pub tweets : Str → List Tweet
  pub last_user : ℤ
  pub last_tweet : ℤ
  pub time : ℤ

pub World-eq :
    (v w : World)
    → ((h : Str) → v.users h ≡ w.users h)
    → ((a b : Str) → v.follows a b ≡ w.follows a b)
    → ((a : Str) → v.tweets a ≡ w.tweets a)
    → v.last_user ≡ w.last_user
    → v.last_tweet ≡ w.last_tweet
    → v.time ≡ w.time
    → v ≡ w
World-eq v w users follows tweets last_user last_tweet time = λ i. record {
  users = fun_ext users i;
  follows = fun_ext (λ a. fun_ext (follows a)) i;
  tweets = fun_ext tweets i;
  last_user = last_user i;
  last_tweet = last_tweet i;
  time = time i;
}

abbrev pub is_registered : World → Str → Bool
is_registered w h = elim (w.users h) [ some _ ↦ true | none ↦ false ]

-- What a request answers, and the world after it.
unfoldable pub answer_of : Call → World → Answer
answer_of (Call.create_user handle) w = Answer.user (
    if is_empty handle
    then err Service.empty_handle
    else if is_registered w handle
    then err Service.duplicate_user
    else ok (record { id = incr w.last_user; handle = handle }))
answer_of (Call.follow from to) w = Answer.unit (
    if str_eq from to
    then err Service.self_follow
    else if is_registered w from && is_registered w to
    then ok tt
    else err Service.unknown_user)
answer_of (Call.unfollow from to) w =
    Answer.unit
      (if is_registered w from && is_registered w to then ok tt else err Service.unknown_user)
answer_of (Call.post_tweet author text) w = Answer.tweet (
    if is_empty text
    then err Service.empty_text
    else if is_registered w author
    then ok (record { id = incr w.last_tweet; author = author; text = text; created_at = w.time })
    else err Service.unknown_user)
answer_of Call.tick w = Answer.ticked

-- A user joins, or an edge; a request for a user spends an identifier also if it is refused for a
-- handle that is taken.
unfoldable pub after : Call → Answer → World → World
after (Call.create_user handle) (Answer.user (ok u)) w = record w {
  last_user = u.id;
  users = λ h. if str_eq handle h then some u else w.users h;
}
after (Call.create_user handle) (Answer.user (err Service.duplicate_user)) w = record w {
  last_user = incr w.last_user;
}
after (Call.follow from to) (Answer.unit (ok _)) w = record w {
  follows = λ a b. (str_eq from a && str_eq to b) || w.follows a b;
}
after (Call.unfollow from to) (Answer.unit (ok _)) w = record w {
  follows = λ a b. not (str_eq from a && str_eq to b) && w.follows a b;
}
after (Call.post_tweet author text) (Answer.tweet (ok t)) w = record w {
  last_tweet = t.id;
  tweets = λ a. if str_eq author a then w.tweets a ++ t ∷ [] else w.tweets a;
}
after Call.tick Answer.ticked w = record w { time = incr w.time }
after _ _ w = w

-- One request: its answer, and the world after it.
unfoldable pub turn : Call → World → Answer × World
turn c w = let a = answer_of c w in (a, after c a w)

-- The answers of requests one after another, the latest first, and the world after them.
unfoldable pub promises : List Call → List Answer × World → List Answer × World
promises [] r = r
promises (c ∷ calls) (earlier, w) = let (a, w') = turn c w in promises calls (a ∷ earlier, w')
