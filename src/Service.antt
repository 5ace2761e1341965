-- ===== src/Service.antt =====
-- crates/service/src/lib.rs: the service that composes clock, identifiers, domain and store. A
-- method is one step from a state to the next beside its result, though it takes several locks in turn.
pub mod Calls
pub mod Sound
pub mod Contracts
pub mod Snapshot
pub mod Threads
pub mod Spec
pub mod VerusProof
use twitter_rust_formal_veri.Prelude.{
  ℕ, ℤ, pos, Str, lit, is_empty, Bool, not, ◌||◌, List, Result, ok, err, map_err, if◌then◌else◌,
}
use twitter_rust_formal_veri.Std.HashMap.{Iteration}
use twitter_rust_formal_veri.Clock.{Clock, Logical, new as new_logical}
use twitter_rust_formal_veri.Ids
use twitter_rust_formal_veri.Ids.{Generator}
use twitter_rust_formal_veri.Domain
use twitter_rust_formal_veri.Domain.{User, Tweet, Follow, DomainError}
use twitter_rust_formal_veri.Store
use twitter_rust_formal_veri.Store.{Inner, StoreError}

pub data ServiceError : Type 0 where
  empty_handle empty_text self_follow unknown_user duplicate_user : ServiceError

-- `impl Display for ServiceError`
unfoldable pub fmt : ServiceError → Str
fmt empty_handle = lit "empty_handle"
fmt empty_text = lit "empty_text"
fmt self_follow = lit "self_follow_forbidden"
fmt unknown_user = lit "unknown_user"
fmt duplicate_user = lit "duplicate_user"

-- `impl From<DomainError> for ServiceError`
unfoldable pub from_domain : DomainError → ServiceError
from_domain DomainError.self_follow = self_follow

-- `impl From<StoreError> for ServiceError`
unfoldable pub from_store : StoreError → ServiceError
from_store StoreError.unknown_user = unknown_user
from_store StoreError.duplicate_user = duplicate_user

-- `C` is the type of the clock behind `Arc<dyn Clock>`.
pub record Service (C : Type 0) : Type 0 where
  pub clk : C
  pub tweet_ids : Generator
  pub user_ids : Generator
  pub st : Inner

module _ {C : Type 0} where
  unfoldable pub new_with_clock : C → Service C
  new_with_clock clk = record { clk = clk; tweet_ids = Ids.new; user_ids = Ids.new; st = Store.new }

  unfoldable pub create_user : Str → Service C → Result ServiceError User × Service C
  unfolding from_store
  create_user handle s =
      if is_empty handle
      then (err empty_handle, s)
      else (let (id, user_ids) = Ids.next_id s.user_ids in
          let u : User = record { id = id; handle = handle } in
          let (stored, st) = Store.put_user u s.st in
          (
            elim stored [ ok _ ↦ ok u | err e ↦ err (from_store e) ],
            record s { user_ids = user_ids; st = st },
          ))

  unfoldable pub has_user : Service C → Str → Bool
  has_user s handle = Store.has_user s.st handle

  unfoldable pub follow : Str → Str → Service C → Result ServiceError (Unit {0}) × Service C
  unfolding from_domain from_store
  follow from to s = elim (Domain.new from to) [
    | err e ↦ (err (from_domain e), s)
    | ok f ↦
        let (stored, st) = Store.put_follow f s.st in
        (map_err from_store stored, record s { st = st })
  ]

  unfoldable pub unfollow : Str → Str → Service C → Result ServiceError (Unit {0}) × Service C
  unfollow from to s =
      if not (Store.has_user s.st from) || not (Store.has_user s.st to)
      then (err unknown_user, s)
      else (ok tt, record s { st = Store.delete_follow from to s.st })

  unfoldable pub home_timeline : Iteration → Iteration → Service C → Str → ℕ → List Tweet
  home_timeline followed authors s user limit = Store.home_timeline followed authors s.st user limit

module _ {C : Type 0} (k : Clock C) where
  unfoldable pub tick : Service C → Service C
  tick s = record s { clk = k.tick s.clk }

  unfoldable pub post_tweet : Str → Str → Service C → Result ServiceError Tweet × Service C
  unfolding from_store
  post_tweet author text s =
      if is_empty text
      then (err empty_text, s)
      else if not (Store.has_user s.st author)
      then (err unknown_user, s)
      else (let (id, tweet_ids) = Ids.next_id s.tweet_ids in
          let t : Tweet = record {
            id = id;
            author = author;
            text = text;
            created_at = k.now s.clk;
          } in
          let (stored, st) = Store.put_tweet t s.st in
          (
            elim stored [ ok _ ↦ ok t | err e ↦ err (from_store e) ],
            record s { tweet_ids = tweet_ids; st = st },
          ))

-- `Service::new`
unfoldable pub new : Service Logical
unfolding new_with_clock
new = new_with_clock new_logical
