-- ===== src/Store/Valid.antt =====
-- The properties called F4, F6 and F9 of crates/store/src/lib.rs as one invariant of the state, and
-- that of the identifiers: every operation keeps them.
use mathlib.Core.Logic.Or
use mathlib.Core.Logic.{∨₁_prop}
use mathlib.Core.List.{mem-append, mem-cons, not-mem-nil}
use twitter_rust_formal_veri.Prelude.{
  Str, str_eq, str_eq_iff, Str_set, Bool_set, ap, ◌∙◌, ◌≡◌, true, false, Mem, arith, Bool-cases,
  inl, inr, ◌&&◌, ◌∨₁◌,
}
use twitter_rust_formal_veri.Domain.{User, Tweet, Follow}
use twitter_rust_formal_veri.Store.{Inner, new, put_user, put_follow, delete_follow, put_tweet}
use twitter_rust_formal_veri.Store.Views.{
  users_keys, follow_edges, posts, users_keys-put_user, users_keys-put_follow,
  users_keys-delete_follow, users_keys-put_tweet, follow_edges-put_user, follow_edges-put_follow,
  follow_edges-delete_follow, follow_edges-put_tweet, posts-put_user, posts-put_follow,
  posts-delete_follow, posts-put_tweet, follow_edges-new, posts-new,
}
use twitter_rust_formal_veri.Store.Tidy.{
  IsTidy, IsTidy-new, put_user-IsTidy, put_follow-IsTidy, delete_follow-IsTidy, put_tweet-IsTidy,
}

-- A list holds tweets of its author.
abbrev pub IsFiled : Inner → Type 0
IsFiled g = (a : Str) (t : Tweet) → Mem t (posts g a) → t.author ≡ a

pub record IsValid (g : Inner) : Type 0 where
  pub tidy : IsTidy g
  -- no edge from or to an unknown handle, and none from a handle to itself
  pub edge_from : (a b : Str) → follow_edges g a b ≡ true → users_keys g a ≡ true
  pub edge_to : (a b : Str) → follow_edges g a b ≡ true → users_keys g b ≡ true
  pub no_self : (a : Str) → follow_edges g a a ≡ false
  -- a list holds tweets of its author, who is known
  pub author : IsFiled g
  pub known : (a : Str) (t : Tweet) → Mem t (posts g a) → users_keys g a ≡ true

pub IsValid-new : IsValid new
IsValid-new = record {
  tidy = IsTidy-new;
  edge_from = λ a b h. cc (follow_edges-new a b);
  edge_to = λ a b h. cc (follow_edges-new a b);
  no_self = λ a. follow_edges-new a a;
  author = λ a t m. absurd (not-mem-nil (rw (posts-new a) at m));
  known = λ a t m. absurd (not-mem-nil (rw (posts-new a) at m));
}

-- `put_user` keeps the state valid, whether it registers the user or refuses.
pub put_user-IsValid : (u : User) (g : Inner) → IsValid g → IsValid (put_user u g).1
put_user-IsValid u g v = record {
  tidy = put_user-IsTidy u g v.tidy;
  edge_from = λ a b h.
      ground (arith, users_keys-put_user u g a, follow_edges-put_user g a b u, v.edge_from a b);
  edge_to = λ a b h.
      ground (arith, users_keys-put_user u g b, follow_edges-put_user g a b u, v.edge_to a b);
  no_self = λ a. rw (follow_edges-put_user g a a u) (v.no_self a);
  author = λ a t m. v.author a t (rw (posts-put_user g a u) at m);
  known = λ a t m.
      ground (arith, users_keys-put_user u g a, v.known a t (rw (posts-put_user g a u) at m));
}

-- `put_follow` keeps the state valid, given a follow between two different handles.
pub put_follow-IsValid :
    (f : Follow) (g : Inner) → str_eq f.from f.to ≡ false → IsValid g → IsValid (put_follow f g).1
put_follow-IsValid f g d v = record {
  tidy = put_follow-IsTidy f g v.tidy;
  edge_from = λ a b h. ground (
    arith,
    users_keys-put_follow g a f,
    follow_edges-put_follow f g a b,
    v.edge_from a b,
    str_eq_iff f.from a,
  );
  edge_to = λ a b h. ground (
    arith,
    users_keys-put_follow g b f,
    follow_edges-put_follow f g a b,
    v.edge_to a b,
    str_eq_iff f.to b,
  );
  no_self = λ a. ground (
    arith,
    follow_edges-put_follow f g a a,
    v.no_self a,
    str_eq_iff f.from a,
    str_eq_iff f.to a,
    str_eq_iff f.from f.to,
  );
  author = λ a t m. v.author a t (rw (posts-put_follow g a f) at m);
  known =
      λ a t m. rw (users_keys-put_follow g a f) (v.known a t (rw (posts-put_follow g a f) at m));
}

-- `delete_follow` keeps the state valid.
pub delete_follow-IsValid :
    (from to : Str) (g : Inner) → IsValid g → IsValid (delete_follow from to g)
delete_follow-IsValid from to g v = record {
  tidy = delete_follow-IsTidy from to g v.tidy;
  edge_from = λ a b h. ground (
    arith,
    users_keys-delete_follow g a from to,
    follow_edges-delete_follow from to g a b,
    v.edge_from a b,
  );
  edge_to = λ a b h. ground (
    arith,
    users_keys-delete_follow g b from to,
    follow_edges-delete_follow from to g a b,
    v.edge_to a b,
  );
  no_self = λ a. ground (arith, follow_edges-delete_follow from to g a a, v.no_self a);
  author = λ a t m. v.author a t (rw (posts-delete_follow g a from to) at m);
  known = λ a t m.
      rw (users_keys-delete_follow g a from to)
        (v.known a t (rw (posts-delete_follow g a from to) at m));
}

-- A tweet in a list after `put_tweet` was there before, or is the new one in its author's list.
pub mem-posts-put_tweet :
    (t : Tweet) (g : Inner) (a : Str) (u : Tweet)
    → Mem u (posts (put_tweet t g).1 a)
    → Mem u (posts g a) ∨₁ ((u ≡ t) × (t.author ≡ a) × (users_keys g t.author ≡ true))
mem-posts-put_tweet t g a u m = elim (Bool-cases (users_keys g t.author && str_eq t.author a)) [
  | inl e ↦ Or.elim ∨₁_prop (mem-append.0 (rw (posts-put_tweet t g a, e) at m)) Or.inl λ n.
      Or.elim ∨₁_prop (mem-cons.0 n)
        (λ p. Or.inr (p, ground (arith, str_eq_iff t.author a), ground arith))
        λ k. absurd (not-mem-nil k)
  | inr e ↦ Or.inl (rw (posts-put_tweet t g a, e) at m)
]

-- `put_tweet` keeps the state valid.
pub put_tweet-IsValid : (t : Tweet) (g : Inner) → IsValid g → IsValid (put_tweet t g).1
put_tweet-IsValid t g v = record {
  tidy = put_tweet-IsTidy t g v.tidy;
  edge_from = λ a b h.
      ground (arith, users_keys-put_tweet g a t, follow_edges-put_tweet g a b t, v.edge_from a b);
  edge_to = λ a b h.
      ground (arith, users_keys-put_tweet g b t, follow_edges-put_tweet g a b t, v.edge_to a b);
  no_self = λ a. rw (follow_edges-put_tweet g a a t) (v.no_self a);
  author = λ a u m.
      Or.elim (Str_set _ _) (mem-posts-put_tweet t g a u m) (v.author a u)
        λ p. ap (λ (w : Tweet). w.author) p.0 ∙ p.1;
  known = λ a u m.
      rw (users_keys-put_tweet g a t) (
        Or.elim (Bool_set _ _) (mem-posts-put_tweet t g a u m) (v.known a u)
          λ p. rw (p.1) at (p.2));
}
