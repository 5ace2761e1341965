-- ===== src/Service/VerusProof/Bodies.antt =====
-- The bodies of the shims of the module `verus_proof` in crates/service/src/lib.rs, and that they meet
-- the contracts that it trusts.
use twitter_rust_formal_veri.Prelude.{
  ℕ, Str, str_eq, ◌≡◌, refl, Bool, not, ◌&&◌, ◌||◌, List, Result, ok, err, is_ok, arith,
}
use twitter_rust_formal_veri.Std.HashMap.{Iteration}
use twitter_rust_formal_veri.Domain.{User, Tweet, Follow}
use twitter_rust_formal_veri.Ids
use twitter_rust_formal_veri.Store
use twitter_rust_formal_veri.Store.{StoreError}
use twitter_rust_formal_veri.Store.Views.{
  users_keys, follow_edges, users_keys-put_user, follow_edges-put_follow,
  follow_edges-delete_follow,
}
use twitter_rust_formal_veri.Service
use twitter_rust_formal_veri.Service.{Service, ServiceError}
use twitter_rust_formal_veri.Service.VerusProof.{Shims}

module _ {C : Type 0} where
  -- The ghost views are those of the store.
  abbrev pub service_users_keys : Service C → Str → Bool
  service_users_keys s handle = users_keys s.st handle

  abbrev pub service_follow_edges : Service C → Str → Str → Bool
  service_follow_edges s from to = follow_edges s.st from to

  unfoldable pub proof_service_has_user : Service C → Str → Bool
  proof_service_has_user s handle = Store.has_user s.st handle

  unfoldable pub proof_service_put_user : Str → Service C → Result ServiceError User × Service C
  proof_service_put_user handle s =
      let (id, user_ids) = Ids.next_id s.user_ids in
      let u : User = record { id = id; handle = handle } in
      let (stored, st) = Store.put_user u s.st in
      let s' = record s { user_ids = user_ids; st = st } in
      elim stored [
        | ok _ ↦ (ok u, s')
        | err StoreError.unknown_user ↦ (err Service.unknown_user, s')
        | err StoreError.duplicate_user ↦ (err Service.duplicate_user, s')
      ]

  unfoldable pub proof_service_put_follow :
      Follow → Service C → Result ServiceError (Unit {0}) × Service C
  proof_service_put_follow f s =
      let (stored, st) = Store.put_follow f s.st in
      let s' = record s { st = st } in
      elim stored [
        | ok _ ↦ (ok tt, s')
        | err StoreError.unknown_user ↦ (err Service.unknown_user, s')
        | err StoreError.duplicate_user ↦ (err Service.duplicate_user, s')
      ]

  unfoldable pub proof_service_delete_follow : Str → Str → Service C → Service C
  proof_service_delete_follow from to s = record s { st = Store.delete_follow from to s.st }

  unfoldable pub proof_service_home_timeline :
      Iteration → Iteration → Service C → Str → ℕ → List Tweet
  proof_service_home_timeline followed authors s user limit =
      Store.home_timeline followed authors s.st user limit

  pub put_user_outcome_lem :
      (handle : Str) (s : Service C)
      → is_ok (proof_service_put_user handle s).0 ≡ not (service_users_keys s handle)
  unfolding proof_service_put_user Store.put_user users_keys
  put_user_outcome_lem handle s = ground arith

  pub put_user_keys_lem :
      (handle : Str) (s : Service C) (h : Str)
      → service_users_keys (proof_service_put_user handle s).1 h
        ≡ ((is_ok (proof_service_put_user handle s).0 && str_eq handle h) || service_users_keys s h)
  unfolding proof_service_put_user Store.put_user users_keys
  put_user_keys_lem handle s h = ground (
    arith,
    users_keys-put_user (record { id = (Ids.next_id s.user_ids).0; handle = handle }) s.st h,
  )

  pub put_follow_edges_lem :
      (f : Follow) (s : Service C) (a b : Str)
      → service_follow_edges (proof_service_put_follow f s).1 a b ≡ (
          (is_ok (proof_service_put_follow f s).0 && str_eq f.from a && str_eq f.to b)
          || service_follow_edges s a b)
  unfolding proof_service_put_follow Store.put_follow users_keys
  put_follow_edges_lem f s a b = ground (arith, follow_edges-put_follow f s.st a b)

  pub put_follow_users_lem :
      (f : Follow) (s : Service C) (h : Str)
      → service_users_keys (proof_service_put_follow f s).1 h ≡ service_users_keys s h
  unfolding proof_service_put_follow Store.put_follow users_keys
  put_follow_users_lem f s h = ground arith

  pub delete_follow_users_lem :
      (from to : Str) (s : Service C) (h : Str)
      → service_users_keys (proof_service_delete_follow from to s) h ≡ service_users_keys s h
  unfolding proof_service_delete_follow Store.delete_follow users_keys
  delete_follow_users_lem from to s h = ground arith

  -- The service, with the orders in which a timeline meets its sets.
  unfoldable pub service_shims : Iteration → Iteration → Shims (Service C)
  unfolding proof_service_has_user proof_service_delete_follow Store.has_user users_keys
  service_shims followed authors = record {
    service_users_keys = service_users_keys;
    service_follow_edges = service_follow_edges;
    users = record {
      proof_service_has_user = proof_service_has_user;
      has_user_contract = λ s handle. refl;
      proof_service_put_user = proof_service_put_user;
      put_user_outcome = put_user_outcome_lem;
      put_user_keys = put_user_keys_lem;
    };
    follows = record {
      proof_service_put_follow = proof_service_put_follow;
      put_follow_edges = put_follow_edges_lem;
      put_follow_users = put_follow_users_lem;
      proof_service_delete_follow = proof_service_delete_follow;
      delete_follow_edges = λ from to s a b. follow_edges-delete_follow from to s.st a b;
      delete_follow_users = delete_follow_users_lem;
    };
    timelines = record {
      proof_service_home_timeline = proof_service_home_timeline followed authors;
    };
  }
