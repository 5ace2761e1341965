-- ===== src/Server/Handlers/Answers.antt =====
-- What the handlers of crates/server/src/handlers.rs answer, and what they count.
use twitter_rust_formal_veri.Server.Response.{Response}
use twitter_rust_formal_veri.Prelude.{
  ℕ, Str, lit, str_eq, is_empty, ◌≡◌, refl, ◌&&◌, some, List, ◌∷◌, if◌then◌else◌, arith,
}
use twitter_rust_formal_veri.Clock.{Clock}
use twitter_rust_formal_veri.Domain
use twitter_rust_formal_veri.Store
use twitter_rust_formal_veri.Store.Views.{users_keys}
use twitter_rust_formal_veri.Service
use twitter_rust_formal_veri.Service.{Service, ServiceError, from_domain, from_store}
use twitter_rust_formal_veri.Service.Contracts.{
  create_user_ensures, follow_ensures, unfollow_ensures, post_tweet_ensures,
}
use twitter_rust_formal_veri.Server.Json.{Json}
use twitter_rust_formal_veri.Server.Metrics.{note_violation, label, starts_with}
use twitter_rust_formal_veri.Server.Handlers
use twitter_rust_formal_veri.Server.Handlers.{FollowReq, TweetReq, map_err}

-- The code that a client reads is the text of the error, in the crate that raised it as in the
-- service.
pub map_err_text :
    (e : ServiceError) (d : Domain.DomainError) (t : Store.StoreError)
    → ((map_err e).1 ≡ Service.fmt e)
      × ((map_err (from_domain d)).1 ≡ Domain.fmt d)
      × ((map_err (from_store t)).1 ≡ Store.fmt t)
unfolding map_err Service.fmt Domain.fmt Store.fmt from_domain from_store
map_err_text e d t = (service e, domain d, store t)
  where
    service : (e : ServiceError) → (map_err e).1 ≡ Service.fmt e
    service Service.empty_handle = refl
    service Service.empty_text = refl
    service Service.self_follow = refl
    service Service.unknown_user = refl
    service Service.duplicate_user = refl

    domain : (d : Domain.DomainError) → (map_err (from_domain d)).1 ≡ Domain.fmt d
    domain Domain.self_follow = refl

    store : (t : Store.StoreError) → (map_err (from_store t)).1 ≡ Store.fmt t
    store Store.unknown_user = refl
    store Store.duplicate_user = refl

-- The labels that the errors of a request count under.
noted_users :
    (noted : List Str)
    → (note_violation (lit "empty_handle") (lit "/users") noted ≡ lit "F-input-shape" ∷ noted)
      × (note_violation (lit "duplicate_user") (lit "/users") noted ≡ lit "F-uniqueness" ∷ noted)
unfolding note_violation str_eq label starts_with
noted_users noted = (refl, refl)

noted_follow :
    (noted : List Str)
    → (note_violation (lit "self_follow_forbidden") (lit "/follow") noted ≡ lit "F4" ∷ noted)
      × (note_violation (lit "unknown_user") (lit "/follow") noted ≡ lit "F9" ∷ noted)
unfolding note_violation str_eq label starts_with
noted_follow noted = (refl, refl)

noted_tweets :
    (noted : List Str)
    → (note_violation (lit "empty_text") (lit "/tweets") noted ≡ lit "F-input-shape" ∷ noted)
      × (note_violation (lit "unknown_user") (lit "/tweets") noted ≡ lit "F6" ∷ noted)
unfolding note_violation str_eq label starts_with
noted_tweets noted = (refl, refl)

-- What a handler answers, leaves in the service, and counts.
abbrev pub Answers :
    {V C : Type 0} → ℕ → Service C → List Str → Response V × (Service C × List Str) → Type 0
Answers status s noted (response, (s', noted')) =
    (response.status ≡ status) × (s' ≡ s) × (noted' ≡ noted)

module _ {V C : Type 0} (j : Json V) (s : Service C) (noted : List Str) where
  create_user_lem :
      (handle : Str)
      → Answers
          (if is_empty handle then 400 else if users_keys s.st handle then 409 else 201)
          (Service.create_user handle s).1
          (if is_empty handle
            then lit "F-input-shape" ∷ noted
            else if users_keys s.st handle
            then lit "F-uniqueness" ∷ noted
            else noted)
          (Handlers.create_user j (some handle) (s, noted))
  unfolding Handlers.create_user map_err Handlers.error
  create_user_lem handle = ground (arith, (create_user_ensures s handle).outcome, noted_users noted)

  follow_lem :
      (from to : Str)
      → let known = users_keys s.st from && users_keys s.st to in
        Answers
          (if str_eq from to then 400 else if known then 204 else 400)
          (Service.follow from to s).1
          (if str_eq from to then lit "F4" ∷ noted else if known then noted else lit "F9" ∷ noted)
          (Handlers.follow j (some (record { from = from; to = to })) (s, noted))
  unfolding Handlers.follow map_err Handlers.error
  follow_lem from to = ground (arith, (follow_ensures s from to).outcome, noted_follow noted)

  unfollow_lem :
      (from to : Str)
      → let known = users_keys s.st from && users_keys s.st to in
        Answers
          (if known then 204 else 400)
          (Service.unfollow from to s).1
          (if known then noted else lit "F9" ∷ noted)
          (Handlers.unfollow j (some (record { from = from; to = to })) (s, noted))
  unfolding Handlers.unfollow map_err Handlers.error
  unfollow_lem from to = ground (arith, (unfollow_ensures s from to).outcome, noted_follow noted)

  post_tweet_lem :
      (k : Clock C) (author text : Str)
      → Answers
          (if is_empty text then 400 else if users_keys s.st author then 201 else 400)
          (Service.post_tweet k author text s).1
          (if is_empty text
            then lit "F-input-shape" ∷ noted
            else if users_keys s.st author
            then noted
            else lit "F6" ∷ noted)
          (Handlers.post_tweet j k (some (record { author = author; text = text })) (s, noted))
  unfolding Handlers.post_tweet map_err Handlers.error
  post_tweet_lem k author text =
      ground (arith, (post_tweet_ensures s k author text).outcome, noted_tweets noted)

  -- Each handler leaves the service as the request of the service does. POST /users answers 400 to an
  -- empty handle, 409 to a registered one and 201 to the rest; the first counts as a violation of the
  -- input's shape, the second of uniqueness. POST /follow answers 204 to two different registered
  -- handles and 400 to the rest; equal handles count as F4, an unknown one as F9. DELETE /follow
  -- answers 204 to two registered handles, edge or no edge, and 400 to the rest, which count as F9.
  -- POST /tweets answers 201 to a text by a registered author and 400 to the rest; an empty text
  -- counts as a violation of the input's shape, an unknown author as F6.
  pub handlers_lem :
      (k : Clock C) (a b : Str)
      → let known = users_keys s.st a && users_keys s.st b in
        Answers
          (if is_empty a then 400 else if users_keys s.st a then 409 else 201)
          (Service.create_user a s).1
          (if is_empty a
            then lit "F-input-shape" ∷ noted
            else if users_keys s.st a
            then lit "F-uniqueness" ∷ noted
            else noted)
          (Handlers.create_user j (some a) (s, noted))
        × Answers
            (if str_eq a b then 400 else if known then 204 else 400)
            (Service.follow a b s).1
            (if str_eq a b then lit "F4" ∷ noted else if known then noted else lit "F9" ∷ noted)
            (Handlers.follow j (some (record { from = a; to = b })) (s, noted))
        × Answers
            (if known then 204 else 400)
            (Service.unfollow a b s).1
            (if known then noted else lit "F9" ∷ noted)
            (Handlers.unfollow j (some (record { from = a; to = b })) (s, noted))
        × Answers
            (if is_empty b then 400 else if users_keys s.st a then 201 else 400)
            (Service.post_tweet k a b s).1
            (if is_empty b
              then lit "F-input-shape" ∷ noted
              else if users_keys s.st a
              then noted
              else lit "F6" ∷ noted)
            (Handlers.post_tweet j k (some (record { author = a; text = b })) (s, noted))
  handlers_lem k a b = (create_user_lem a, follow_lem a b, unfollow_lem a b, post_tweet_lem k a b)
