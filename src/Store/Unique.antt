-- ===== src/Store/Unique.antt =====
-- The identifiers of the tweets in the store of crates/store/src/lib.rs: no two tweets share one.
use mathlib.Core.Logic.Or
use mathlib.Core.List.{Nodup-cons, Nodup-nil, not-mem-nil, perm_append_singleton}
use mathlib.Core.List.Perm
use mathlib.Core.HLevel.{hedberg}
use twitter_rust_formal_veri.Prelude.{
  Str, str_eq, ◌≡◌, refl, ◌≢◌, sym, ap, ◌∙◌, ◌&&◌, Mem, Nodup, Bool-cases, inl, inr,
}
use twitter_rust_formal_veri.Domain.{Tweet, Tweet-discrete}
use twitter_rust_formal_veri.Store.{Inner, new, put_tweet}
use twitter_rust_formal_veri.Store.Views.{users_keys, posts, posts-put_tweet, posts-new}
use twitter_rust_formal_veri.Store.Valid.{mem-posts-put_tweet}

-- A list holds a tweet once, and distinct tweets have distinct identifiers.
pub record HasUniqueIds (g : Inner) : Type 0 where
  pub once : (a : Str) → Nodup (posts g a)
  pub injective :
      (a b : Str) (t u : Tweet) → Mem t (posts g a) → Mem u (posts g b) → t.id ≡ u.id → t ≡ u

pub HasUniqueIds-new : HasUniqueIds new
HasUniqueIds-new = record {
  once = λ a. rw (posts-new a) Nodup-nil;
  injective = λ a b t u m _ _. absurd (not-mem-nil (rw (posts-new a) at m));
}

-- An operation that leaves the lists alone leaves the identifiers unique.
pub HasUniqueIds-of_posts :
    (g h : Inner) → ((a : Str) → posts h a ≡ posts g a) → HasUniqueIds g → HasUniqueIds h
HasUniqueIds-of_posts g h same u = record {
  once = λ a. rw (same a) (u.once a);
  injective = λ a b t w m n. u.injective a b t w (rw (same a) at m) (rw (same b) at n);
}

Tweet_set : IsSet Tweet
Tweet_set = hedberg Tweet-discrete

module _ (t : Tweet) (g : Inner)
    (fresh : (a : Str) (u : Tweet) → Mem u (posts g a) → u.id ≢ t.id) where
  put_tweet-once : (a : Str) → Nodup (posts g a) → Nodup (posts (put_tweet t g).1 a)
  put_tweet-once a d =
      rw (posts-put_tweet t g a) (elim (Bool-cases (users_keys g t.author && str_eq t.author a)) [
        | inl e ↦ rw e (
            Perm.nodup (Perm.symm (perm_append_singleton t (posts g a)))
              (Nodup-cons.1 (λ m. fresh a t m refl, d)))
        | inr e ↦ rw e d
      ])

  -- `put_tweet` of a tweet with a fresh identifier keeps the identifiers unique.
  pub put_tweet-HasUniqueIds : HasUniqueIds g → HasUniqueIds (put_tweet t g).1
  put_tweet-HasUniqueIds u = record {
    once = λ a. put_tweet-once a (u.once a);
    injective = λ a b x y mx my e.
        Or.elim (Tweet_set x y) (mem-posts-put_tweet t g a x mx)
          (λ old_x.
            Or.elim (Tweet_set x y) (mem-posts-put_tweet t g b y my)
              (λ old_y. u.injective a b x y old_x old_y e)
              λ new_y. absurd (fresh a x old_x (e ∙ ap (λ (w : Tweet). w.id) new_y.0)))
          λ new_x.
            Or.elim (Tweet_set x y) (mem-posts-put_tweet t g b y my)
              (λ old_y. absurd (fresh b y old_y (sym e ∙ ap (λ (w : Tweet). w.id) new_x.0)))
              λ new_y. new_x.0 ∙ sym (new_y.0);
  }
