-- ===== src/Service/VerusProof/Verified.antt =====
-- What the module `verus_proof` of crates/service/src/lib.rs checks of its copies, over any shims that
-- meet the contracts that it trusts.
use twitter_rust_formal_veri.Prelude.{
  Str, str_eq, is_empty, ◌≡◌, true, false, not, ◌&&◌, ◌||◌, Result, is_ok, arith,
}
use twitter_rust_formal_veri.Domain
use twitter_rust_formal_veri.Domain.{User}
use twitter_rust_formal_veri.Service.{ServiceError}
use twitter_rust_formal_veri.Service.VerusProof.{
  Shims, create_user_ensures, follow_ensures, unfollow_ensures,
}

-- The `ensures` of the copies. `old` is the state before the call and `s` the state after it; a clause
-- on one outcome is an equation with the outcome as a test.
module _ {S : Type 0} (x : Shims S) (old s : S) where
  pub record CreateUserContract (handle : Str) (result : Result ServiceError User) : Type 0 where
    pub outcome : is_ok result ≡ (not (is_empty handle) && not (x.service_users_keys old handle))
    pub keys :
        (h : Str)
        → x.service_users_keys s h
          ≡ ((is_ok result && str_eq handle h) || x.service_users_keys old h)

  pub record FollowContract (from to : Str) (result : Result ServiceError (Unit {0})) : Type 0 where
    pub refused : str_eq from to ≡ true → is_ok result ≡ false
    pub edges :
        (a b : Str)
        → x.service_follow_edges s a b
          ≡ ((is_ok result && str_eq from a && str_eq to b) || x.service_follow_edges old a b)
    pub users : (h : Str) → x.service_users_keys s h ≡ x.service_users_keys old h

  pub record UnfollowContract (from to : Str) (result : Result ServiceError (Unit {0}))
      : Type 0 where
    pub outcome : is_ok result ≡ (x.service_users_keys old from && x.service_users_keys old to)
    pub edges :
        (a b : Str)
        → x.service_follow_edges s a b
          ≡ (not (is_ok result && str_eq from a && str_eq to b) && x.service_follow_edges old a b)
    pub users : (h : Str) → x.service_users_keys s h ≡ x.service_users_keys old h

module _ {S : Type 0} (x : Shims S) (s : S) where
  create_user_met :
      (handle : Str)
      → CreateUserContract x s
          (create_user_ensures x handle s).1
          handle
          (create_user_ensures x handle s).0
  unfolding create_user_ensures
  create_user_met handle = record {
    outcome = ground (arith, x.users.put_user_outcome handle s);
    keys = λ h. ground (arith, x.users.put_user_keys handle s h);
  }

  follow_met :
      (from to : Str)
      → FollowContract x s (follow_ensures x from to s).1 from to (follow_ensures x from to s).0
  unfolding follow_ensures Domain.new
  follow_met from to = record {
    refused = λ same. ground arith;
    edges =
        λ a b. ground (arith, x.follows.put_follow_edges (record { from = from; to = to }) s a b);
    users = λ h. ground (arith, x.follows.put_follow_users (record { from = from; to = to }) s h);
  }

  unfollow_met :
      (from to : Str)
      → UnfollowContract x s
          (unfollow_ensures x from to s).1
          from
          to
          (unfollow_ensures x from to s).0
  unfolding unfollow_ensures
  unfollow_met from to = record {
    outcome = ground (arith, x.users.has_user_contract s from, x.users.has_user_contract s to);
    edges = λ a b. ground (arith, x.follows.delete_follow_edges from to s a b);
    users = λ h. ground (arith, x.follows.delete_follow_users from to s h);
  }

  -- Over any shims that meet the trusted contracts, the copies meet theirs: `create_user` succeeds
  -- exactly on a free handle that is not empty, and the registered handles gain that one then and
  -- nothing on an error; `follow` fails on equal handles, and the edges gain this one on success and
  -- nothing on an error; `unfollow` succeeds exactly if both handles are registered, and takes exactly
  -- the edge named then and nothing on an error; the last two leave the handles as they are.
  pub requests_verified :
      (handle from to : Str)
      → CreateUserContract x s
          (create_user_ensures x handle s).1
          handle
          (create_user_ensures x handle s).0
        × FollowContract x s (follow_ensures x from to s).1 from to (follow_ensures x from to s).0
        × UnfollowContract x s
            (unfollow_ensures x from to s).1
            from
            to
            (unfollow_ensures x from to s).0
  requests_verified handle from to =
      (create_user_met handle, follow_met from to, unfollow_met from to)
