-- ===== src/Server/Ui/Actors.antt =====
-- Whom the forms of crates/server/src/ui.rs act for.
use twitter_rust_formal_veri.Prelude.{
  ℕ, Str, str_eq, str_eq_iff, ◌≡◌, ◌≢◌, refl, ap, Bool, false, Option, none, some, List, arith,
}
use twitter_rust_formal_veri.Clock.{Clock}
use twitter_rust_formal_veri.Store.Views.{follow_edges, posts}
use twitter_rust_formal_veri.Service.{Service}
use twitter_rust_formal_veri.Service.Contracts.{
  follow_ensures, unfollow_ensures, post_tweet_ensures,
}
use twitter_rust_formal_veri.Server.Handlers.{trim}
use twitter_rust_formal_veri.Server.Ui.Forms.{current_actor, compose, ui_follow, ui_unfollow}

not_actor : (actor a : Str) → some actor ≢ some a → str_eq actor a ≡ false
not_actor actor a other =
    let apart : actor ≢ a = λ e. other (ap some e) in ground (arith, str_eq_iff actor a, apart)

module _ (encode : Str → Str) (is_header_value : Str → Bool) {C : Type 0} (s : Service C)
    (a : Str) where
  posts-compose :
      (k : Clock C) (actor : Option Str) (text : Str)
      → actor ≢ some a
      → posts (compose encode k actor text s).1.st a ≡ posts s.st a
  unfolding compose
  posts-compose k none text other = refl
  posts-compose k (some actor) text other =
      ground (arith, (post_tweet_ensures s k actor (trim text)).tweets a, not_actor actor a other)

  edges-follow :
      (actor : Option Str) (to b : Str)
      → actor ≢ some a
      → follow_edges (ui_follow encode is_header_value actor to s).1.st a b ≡ follow_edges s.st a b
  unfolding ui_follow
  edges-follow none to b other = refl
  edges-follow (some actor) to b other =
      ground (arith, (follow_ensures s actor (trim to)).edges a b, not_actor actor a other)

  edges-unfollow :
      (actor : Option Str) (to b : Str)
      → actor ≢ some a
      → follow_edges (ui_unfollow encode is_header_value actor to s).1.st a b
        ≡ follow_edges s.st a b
  unfolding ui_unfollow
  edges-unfollow none to b other = refl
  edges-unfollow (some actor) to b other =
      ground (arith, (unfollow_ensures s actor (trim to)).edges a b, not_actor actor a other)

module _ (tag : Str → Str) (as_bytes : Str → List ℕ) (encode : Str → Str)
    (is_header_value : Str → Bool) {C : Type 0} (s : Service C) where
  -- A request whose cookies do not name a handle as the actor, under the tag of the server, adds no
  -- tweet to those of that handle, whatever it composes, and changes nobody that the handle follows,
  -- whomever it follows or unfollows.
  pub forms_act_for :
      (k : Clock C) (cookies : Option Str) (a b text to : Str)
      → current_actor tag as_bytes cookies ≢ some a
      → let actor = current_actor tag as_bytes cookies in
        (posts (compose encode k actor text s).1.st a ≡ posts s.st a)
        × (follow_edges (ui_follow encode is_header_value actor to s).1.st a b
            ≡ follow_edges s.st a b)
        × (follow_edges (ui_unfollow encode is_header_value actor to s).1.st a b
            ≡ follow_edges s.st a b)
  forms_act_for k cookies a b text to other =
      let actor = current_actor tag as_bytes cookies in
      (
        posts-compose encode is_header_value s a k actor text other,
        edges-follow encode is_header_value s a actor to b other,
        edges-unfollow encode is_header_value s a actor to b other,
      )
