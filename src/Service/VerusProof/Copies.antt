-- ===== src/Service/VerusProof/Copies.antt =====
-- The copies of the module `verus_proof` of crates/service/src/lib.rs over the bodies of its shims,
-- beside the methods of `Service` that run.
use twitter_rust_formal_veri.Prelude.{ℕ, Str, ◌≡◌, refl, arith}
use twitter_rust_formal_veri.Std.HashMap.{Iteration}
use twitter_rust_formal_veri.Service
use twitter_rust_formal_veri.Service.{Service}
use twitter_rust_formal_veri.Service.VerusProof.{
  has_user_ensures, create_user_ensures, follow_ensures, unfollow_ensures, home_timeline_ensures,
}
use twitter_rust_formal_veri.Service.VerusProof.Bodies.{
  service_shims, proof_service_has_user, proof_service_put_user, proof_service_put_follow,
  proof_service_delete_follow, proof_service_home_timeline,
}

module _ {C : Type 0} (followed authors : Iteration) (s : Service C) where
  create_user_copy :
      (handle : Str)
      → create_user_ensures (service_shims followed authors) handle s ≡ Service.create_user handle s
  unfolding service_shims create_user_ensures proof_service_put_user Service.create_user
      Service.from_store
  create_user_copy handle = ground arith

  follow_copy :
      (from to : Str)
      → follow_ensures (service_shims followed authors) from to s ≡ Service.follow from to s
  unfolding service_shims follow_ensures proof_service_put_follow Service.follow Service.from_store
      Service.from_domain
  follow_copy from to = ground arith

  unfollow_copy :
      (from to : Str)
      → unfollow_ensures (service_shims followed authors) from to s ≡ Service.unfollow from to s
  unfolding service_shims unfollow_ensures proof_service_has_user proof_service_delete_follow
      Service.unfollow
  unfollow_copy from to = ground arith

  -- Over the bodies of the shims, the copy of a method answers on every input as the method does, with
  -- the same error, and leaves the service that it leaves, identifiers included.
  pub requests_lem :
      (handle from to : Str) (limit : ℕ)
      → let x = service_shims {C = C} followed authors in
        (has_user_ensures x s handle ≡ Service.has_user s handle)
        × (create_user_ensures x handle s ≡ Service.create_user handle s)
        × (follow_ensures x from to s ≡ Service.follow from to s)
        × (unfollow_ensures x from to s ≡ Service.unfollow from to s)
        × (home_timeline_ensures x s handle limit
            ≡ Service.home_timeline followed authors s handle limit)
  unfolding service_shims has_user_ensures home_timeline_ensures proof_service_has_user
      proof_service_home_timeline Service.has_user Service.home_timeline
  requests_lem handle from to limit =
      (refl, create_user_copy handle, follow_copy from to, unfollow_copy from to, refl)
