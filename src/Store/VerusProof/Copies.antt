-- ===== src/Store/VerusProof/Copies.antt =====
-- The copies of the module `verus_proof` of crates/store/src/lib.rs over the bodies of its shims,
-- beside the methods of `MemStore` that run.
use twitter_rust_formal_veri.Prelude.{ℕ, Str, ◌≡◌, refl}
use twitter_rust_formal_veri.Std.HashMap.{Iteration}
use twitter_rust_formal_veri.Domain.{User, Tweet, Follow}
use twitter_rust_formal_veri.Store
use twitter_rust_formal_veri.Store.{Inner}
use twitter_rust_formal_veri.Store.VerusProof.{
  put_user_ensures, has_user_ensures, put_follow_ensures, delete_follow_ensures, put_tweet_ensures,
  follow_set_ensures, home_timeline_ensures,
}
use twitter_rust_formal_veri.Store.VerusProof.Bodies.{
  store_shims, proof_users_contains, proof_users_insert, proof_follow_insert, proof_follow_remove,
  proof_can_post_tweet, proof_append_tweet, proof_follow_set, proof_home_timeline,
}

-- Over the bodies of the shims, the copy of a method answers on every input as the method does, and
-- leaves the state that it leaves.
pub copies_lem :
    (u : User) (f : Follow) (from to : Str) (t : Tweet) (s : Inner) (followed authors : Iteration)
    (limit : ℕ)
    → let x = store_shims followed authors in
      (put_user_ensures x u s ≡ Store.put_user u s)
      × (has_user_ensures x s from ≡ Store.has_user s from)
      × (put_follow_ensures x f s ≡ Store.put_follow f s)
      × (delete_follow_ensures x from to s ≡ Store.delete_follow from to s)
      × (put_tweet_ensures x t s ≡ Store.put_tweet t s)
      × (follow_set_ensures x s from ≡ Store.follow_set s from)
      × (home_timeline_ensures x s from limit ≡ Store.home_timeline followed authors s from limit)
unfolding store_shims put_user_ensures has_user_ensures put_follow_ensures delete_follow_ensures
    put_tweet_ensures follow_set_ensures home_timeline_ensures proof_users_contains
    proof_users_insert proof_follow_insert proof_follow_remove proof_can_post_tweet
    proof_append_tweet proof_follow_set proof_home_timeline Store.put_user Store.has_user
    Store.put_follow Store.delete_follow Store.put_tweet Store.follow_set Store.home_timeline
copies_lem u f from to t s followed authors limit = (refl, refl, refl, refl, refl, refl, refl)
