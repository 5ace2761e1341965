-- ===== src/Server/Handlers.antt =====
-- crates/server/src/handlers.rs: the handlers of the API. A body is what the framework decoded, none
-- if it could not. The state is the service and the counter of crates/server/src/metrics.rs.
pub mod Answers
pub mod Limit
use twitter_rust_formal_veri.Prelude.{
  ℕ, zero, suc, ℤ, pos, negsuc, i64_max, ◌+◌, ◌-◌, ◌*◌, leb, ◌==◌, Str, lit, is_empty, Bool, true,
  false, not, ◌&&◌, ◌||◌, Option, none, some, List, [], ◌∷◌, map, unwrap_or, Result, ok, err,
  if◌then◌else◌,
}
use mathlib.Core.List.{reverse}
use twitter_rust_formal_veri.Std.HashMap.{Iteration}
use twitter_rust_formal_veri.Clock.{Clock}
use twitter_rust_formal_veri.Domain.{User, Tweet}
use twitter_rust_formal_veri.Service
use twitter_rust_formal_veri.Service.{Service, ServiceError}
use twitter_rust_formal_veri.Server.Json.{Json}
use twitter_rust_formal_veri.Server.Response.{Response}
use twitter_rust_formal_veri.Server.Metrics.{note_violation}

unfoldable pub map_err : ServiceError → ℕ × Str
map_err Service.empty_handle = (400, lit "empty_handle")
map_err Service.empty_text = (400, lit "empty_text")
map_err Service.self_follow = (400, lit "self_follow_forbidden")
map_err Service.unknown_user = (400, lit "unknown_user")
map_err Service.duplicate_user = (409, lit "duplicate_user")

pub record FollowReq : Type 0 where
  pub from : Str
  pub to : Str

pub record TweetReq : Type 0 where
  pub author : Str
  pub text : Str

module _ {V : Type 0} (j : Json V) where
  unfoldable pub error : ℕ → Str → Response V
  error status code = record {
    status = status;
    body = some (j.object ((lit "error", j.string code) ∷ []));
  }

  unfoldable pub user_resp : User → V
  user_resp u = j.object ((lit "handle", j.string u.handle) ∷ (lit "id", j.int u.id) ∷ [])

  unfoldable pub tweet_resp : Tweet → V
  tweet_resp t = j.object (
      (lit "id", j.int t.id)
      ∷ (lit "author", j.string t.author)
      ∷ (lit "text", j.string t.text)
      ∷ (lit "created_at", j.int t.created_at)
      ∷ [])

  abbrev no_content : Response V
  no_content = record { status = 204; body = none }

  module _ {C : Type 0} where
    unfoldable pub create_user :
        Option Str → Service C × List Str → Response V × (Service C × List Str)
    unfolding error user_resp map_err
    create_user none (s, noted) = (error 400 (lit "invalid_json"), (s, noted))
    create_user (some handle) (s, noted) =
        let (result, s') = Service.create_user handle s in
        elim result [
          | ok u ↦ (record { status = 201; body = some (user_resp u) }, (s', noted))
          | err e ↦
              let (status, code) = map_err e in
              (error status code, (s', note_violation code (lit "/users") noted))
        ]

    unfoldable pub follow :
        Option FollowReq → Service C × List Str → Response V × (Service C × List Str)
    unfolding error map_err
    follow none (s, noted) = (error 400 (lit "invalid_json"), (s, noted))
    follow (some req) (s, noted) =
        let (result, s') = Service.follow req.from req.to s in
        elim result [
          | ok _ ↦ (no_content, (s', noted))
          | err e ↦
              let (status, code) = map_err e in
              (error status code, (s', note_violation code (lit "/follow") noted))
        ]

    unfoldable pub unfollow :
        Option FollowReq → Service C × List Str → Response V × (Service C × List Str)
    unfolding error map_err
    unfollow none (s, noted) = (error 400 (lit "invalid_json"), (s, noted))
    unfollow (some req) (s, noted) =
        let (result, s') = Service.unfollow req.from req.to s in
        elim result [
          | ok _ ↦ (no_content, (s', noted))
          | err e ↦
              let (status, code) = map_err e in
              (error status code, (s', note_violation code (lit "/follow") noted))
        ]

    unfoldable pub post_tweet :
        Clock C → Option TweetReq → Service C × List Str → Response V × (Service C × List Str)
    unfolding error tweet_resp map_err
    post_tweet k none (s, noted) = (error 400 (lit "invalid_json"), (s, noted))
    post_tweet k (some req) (s, noted) =
        let (result, s') = Service.post_tweet k req.author req.text s in
        elim result [
          | ok t ↦ (record { status = 201; body = some (tweet_resp t) }, (s', noted))
          | err e ↦
              let (status, code) = map_err e in
              (error status code, (s', note_violation code (lit "/tweets") noted))
        ]

-- `char::is_whitespace`: the White_Space property of Unicode
abbrev is_whitespace : ℕ → Bool
is_whitespace c =
    (leb 0x9 c && leb c 0xd)
    || c == 0x20
    || c == 0x85
    || c == 0xa0
    || c == 0x1680
    || (leb 0x2000 c && leb c 0x200a)
    || c == 0x2028
    || c == 0x2029
    || c == 0x202f
    || c == 0x205f
    || c == 0x3000

unfoldable pub trim_start : Str → Str
trim_start [] = []
trim_start (c ∷ s) = let rest = trim_start s in if is_whitespace c then rest else c ∷ s

-- `str::trim`
unfoldable pub trim : Str → Str
unfolding trim_start
trim s = reverse (trim_start (reverse (trim_start s)))

unfoldable pub parse_digits : ℕ → Str → Option ℕ
parse_digits value [] = some value
parse_digits value (c ∷ s) =
    let rest = parse_digits (value * 10 + (c - 0x30)) s in
    if leb 0x30 c && leb c 0x39 then rest else none

-- `str::parse::<i64>`: a sign or none, one digit or more, and a value in range
unfoldable pub parse_i64 : Str → Option ℤ
unfolding parse_digits
parse_i64 [] = none
parse_i64 (c ∷ s) =
    let digits = if c == 0x2b || c == 0x2d then s else c ∷ s in
    if is_empty digits then none else elim (parse_digits 0 digits) [
      | none ↦ none
      | some value ↦
          if c == 0x2d
          then (if leb value (i64_max + 1) then some (negate value) else none)
          else if leb value i64_max
          then some (pos value)
          else none
    ]
  where
    negate : ℕ → ℤ
    negate zero = pos 0
    negate (suc n) = negsuc n

-- The limit of a timeline, zero if it is missing or blank, and none if it is invalid.
unfoldable pub parse_limit : Option Str → Option ℕ
unfolding trim parse_i64
parse_limit none = some 0
parse_limit (some s) =
    if is_empty (trim s)
    then some 0
    else elim (parse_i64 (trim s)) [ some (pos v) ↦ some v | some (negsuc v) ↦ none | none ↦ none ]

module _ {V : Type 0} (j : Json V) (null : V) where
  unfoldable pub timeline_resp : List Tweet → V
  unfolding tweet_resp
  timeline_resp tweets =
      j.object
        ((lit "tweets", j.array (map (tweet_resp j) tweets)) ∷ (lit "next_cursor", null) ∷ [])

  unfoldable pub timeline :
      {C : Type 0} → Iteration → Iteration → Option Str → Option Str → Service C → Response V
  unfolding error timeline_resp parse_limit
  timeline followed authors user limit s =
      if is_empty (unwrap_or [] user)
      then error j 400 (lit "empty_user")
      else elim (parse_limit limit) [
        | none ↦ error j 400 (lit "invalid_limit")
        | some n ↦ record {
          status = 200;
          body =
              some (timeline_resp (Service.home_timeline followed authors s (unwrap_or [] user) n));
        }
      ]
