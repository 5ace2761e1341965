-- ===== src/Service/VerusProof.antt =====
-- The module `verus_proof` in crates/service/src/lib.rs: shims of which only the contract is known, and
-- copies of the methods of `Service` over them. `&mut` is a step from a state to the next; a ghost
-- view that is a set is a Boolean function.
pub mod Bodies
pub mod Verified
pub mod Copies
use twitter_rust_formal_veri.Prelude.{
  ℕ, Str, str_eq, is_empty, ◌≡◌, Bool, not, ◌&&◌, ◌||◌, List, Result, ok, err, is_ok, if◌then◌else◌,
}
use twitter_rust_formal_veri.Domain
use twitter_rust_formal_veri.Domain.{User, Tweet, Follow, DomainError}
use twitter_rust_formal_veri.Service
use twitter_rust_formal_veri.Service.{ServiceError}

-- The shims of the users, with what is trusted of them.
pub record UserShims (S : Type 0) (service_users_keys : S → Str → Bool) : Type 0 where
  pub proof_service_has_user : S → Str → Bool
  pub has_user_contract :
      (s : S) (handle : Str) → proof_service_has_user s handle ≡ service_users_keys s handle
  pub proof_service_put_user : Str → S → Result ServiceError User × S
  pub put_user_outcome :
      (handle : Str) (s : S)
      → is_ok (proof_service_put_user handle s).0 ≡ not (service_users_keys s handle)
  pub put_user_keys :
      (handle : Str) (s : S) (h : Str)
      → service_users_keys (proof_service_put_user handle s).1 h
        ≡ ((is_ok (proof_service_put_user handle s).0 && str_eq handle h) || service_users_keys s h)

-- The shims of the edges, with what is trusted of them.
pub record FollowShims (S : Type 0) (service_users_keys : S → Str → Bool)
    (service_follow_edges : S → Str → Str → Bool) : Type 0 where
  pub proof_service_put_follow : Follow → S → Result ServiceError (Unit {0}) × S
  pub put_follow_edges :
      (f : Follow) (s : S) (a b : Str)
      → service_follow_edges (proof_service_put_follow f s).1 a b ≡ (
          (is_ok (proof_service_put_follow f s).0 && str_eq f.from a && str_eq f.to b)
          || service_follow_edges s a b)
  pub put_follow_users :
      (f : Follow) (s : S) (h : Str)
      → service_users_keys (proof_service_put_follow f s).1 h ≡ service_users_keys s h
  pub proof_service_delete_follow : Str → Str → S → S
  pub delete_follow_edges :
      (from to : Str) (s : S) (a b : Str)
      → service_follow_edges (proof_service_delete_follow from to s) a b
        ≡ (not (str_eq from a && str_eq to b) && service_follow_edges s a b)
  pub delete_follow_users :
      (from to : Str) (s : S) (h : Str)
      → service_users_keys (proof_service_delete_follow from to s) h ≡ service_users_keys s h

-- The shim of `home_timeline`, of which nothing is trusted.
pub record TimelineShim (S : Type 0) : Type 0 where
  pub proof_service_home_timeline : S → Str → ℕ → List Tweet

-- The opaque state as the type `S`, its ghost views, and the shims over them.
pub record Shims (S : Type 0) : Type 0 where
  pub service_users_keys : S → Str → Bool
  pub service_follow_edges : S → Str → Str → Bool
  pub users : UserShims S service_users_keys
  pub follows : FollowShims S service_users_keys service_follow_edges
  pub timelines : TimelineShim S

module _ {S : Type 0} (x : Shims S) where
  unfoldable pub has_user_ensures : S → Str → Bool
  has_user_ensures s handle = x.users.proof_service_has_user s handle

  unfoldable pub create_user_ensures : Str → S → Result ServiceError User × S
  create_user_ensures handle s =
      if is_empty handle
      then (err Service.empty_handle, s)
      else x.users.proof_service_put_user handle s

  unfoldable pub follow_ensures : Str → Str → S → Result ServiceError (Unit {0}) × S
  follow_ensures from to s = elim (Domain.new from to) [
    | ok f ↦ x.follows.proof_service_put_follow f s
    | err DomainError.self_follow ↦ (err Service.self_follow, s)
  ]

  unfoldable pub unfollow_ensures : Str → Str → S → Result ServiceError (Unit {0}) × S
  unfollow_ensures from to s =
      if not (x.users.proof_service_has_user s from)
      then (err Service.unknown_user, s)
      else if not (x.users.proof_service_has_user s to)
      then (err Service.unknown_user, s)
      else (ok tt, x.follows.proof_service_delete_follow from to s)

  unfoldable pub home_timeline_ensures : S → Str → ℕ → List Tweet
  home_timeline_ensures s user limit = x.timelines.proof_service_home_timeline s user limit
