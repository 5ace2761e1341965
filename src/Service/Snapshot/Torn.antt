-- ===== src/Service/Snapshot/Torn.antt =====
-- A request between two critical sections of `load_state` of crates/service/src/lib.rs.
use mathlib.Core.Logic.Or
use mathlib.Core.List.{mem-append, mem-cons_self}
use twitter_rust_formal_veri.Prelude.{
  inl, inr, incr, Str, str_eq, Result, is_ok, ◌&&◌, Bool-cases, str_eq_refl, is_empty, ◌≡◌, ◌≢◌,
  sym, ap, ◌∙◌, true, false, [], ◌∷◌, ◌++◌, Mem, arith,
}
use twitter_rust_formal_veri.Clock.{Clock}
use twitter_rust_formal_veri.Ids
use twitter_rust_formal_veri.Ids.{next_id_lem}
use twitter_rust_formal_veri.Domain.{Tweet}
use twitter_rust_formal_veri.Store.Views.{posts, users_keys}
use twitter_rust_formal_veri.Store.Unique.{HasUniqueIds}
use twitter_rust_formal_veri.Service.{Service, ServiceError, post_tweet}
use twitter_rust_formal_veri.Service.Calls.{tweet_made}
use twitter_rust_formal_veri.Service.Contracts.{post_tweet_ensures}
use twitter_rust_formal_veri.Service.Snapshot.{ServiceState, load_store}

module _ {C : Type 0} (k : Clock C) (state : ServiceState) (s : Service C) (author text : Str) where
  abbrev between : Service C
  between = load_store k state s

  abbrev torn : Service C
  torn = (post_tweet k author text between).1

  abbrev answer : Result ServiceError Tweet
  answer = (post_tweet k author text between).0

  stored_new :
      is_empty text ≡ false
      → users_keys between.st author ≡ true
      → posts torn.st author ≡ posts between.st author ++ tweet_made k author text between ∷ []
  stored_new filled known =
      let e = post_tweet_ensures between k author text in
      ground (arith, e.tweets author, e.outcome, str_eq_refl author)

  stored_old : (t : Tweet) → Mem t (posts between.st t.author) → Mem t (posts torn.st t.author)
  stored_old t m =
      rw ((post_tweet_ensures between k author text).tweets t.author)
        (elim (Bool-cases (is_ok answer && str_eq author t.author)) [
          | inl e ↦ rw e (mem-append.1 (Or.inl m))
          | inr e ↦ rw e m
        ])

  -- A tweet that is posted after the section of `load_state` that replaces the store, and before the
  -- one that sets the counter of tweets, is numbered by the old counter: where a loaded tweet with
  -- another text has that number, the tweets of the store no longer have unique identifiers.
  pub post_tweet-load_store :
      (t : Tweet)
      → is_empty text ≡ false
      → users_keys between.st author ≡ true
      → Mem t (posts between.st t.author)
      → t.id ≡ incr (Ids.current s.tweet_ids)
      → t.text ≢ text
      → ¬ HasUniqueIds torn.st
  unfolding load_store
  post_tweet-load_store t filled known m same_id other u = other (
      ap (λ (x : Tweet). x.text)
        (u.injective t.author author t (tweet_made k author text between) (stored_old t m)
          (rw (stored_new filled known) (mem-append.1 (Or.inr mem-cons_self)))
          (same_id ∙ sym (next_id_lem s.tweet_ids).0)))
