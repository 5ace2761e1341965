-- ===== src/Store/Snapshot/Same.antt =====
-- Two snapshots of one logical state of crates/store/src/lib.rs are equal, as its documentation says.
use mathlib.Core.Logic.Iff
use twitter_rust_formal_veri.Prelude.{Str, ◌≡◌, sym, ◌∙◌, ◌↔◌, some, Mem}
use twitter_rust_formal_veri.Std.HashMap
use twitter_rust_formal_veri.Std.HashMap.{Iteration}
use twitter_rust_formal_veri.Std.Sort.{sort_by-eq_of_members}
use twitter_rust_formal_veri.Domain.{User, Tweet}
use twitter_rust_formal_veri.Store.{Inner}
use twitter_rust_formal_veri.Store.Views.{user_at, follow_edges, posts}
use twitter_rust_formal_veri.Store.Valid.{IsValid}
use twitter_rust_formal_veri.Store.Unique.{HasUniqueIds}
use twitter_rust_formal_veri.Store.Snapshot.{snapshot, by_user_id, by_tweet_id, by_edge}
use twitter_rust_formal_veri.Store.Snapshot.Orders.{
  by_user_id-IsOrder, by_tweet_id-IsOrder, by_edge-IsOrder, same_user_id, same_tweet_id, same_edge,
}
use twitter_rust_formal_veri.Store.Snapshot.Listed.{
  mem-users, users-Nodup, mem-tweets, tweets-Nodup,
}
use twitter_rust_formal_veri.Store.Snapshot.Edges.{mem-edges, edges-Nodup}

-- A state as the requests leave it: valid, with one identifier for each tweet and for each user.
pub record IsSane (g : Inner) : Type 0 where
  pub valid : IsValid g
  pub tweets : HasUniqueIds g
  pub users :
      (h h' : Str) (u v : User) → user_at g h ≡ some u → user_at g h' ≡ some v → u.id ≡ v.id → u ≡ v

-- Two states with the same users, the same edges and, for each author, the same tweets.
pub record SameState (g g' : Inner) : Type 0 where
  pub users : (h : Str) → user_at g h ≡ user_at g' h
  pub edges : (a b : Str) → follow_edges g a b ≡ follow_edges g' a b
  pub tweets : (a : Str) (t : Tweet) → Mem t (posts g a) ↔ Mem t (posts g' a)

-- Sane states that agree have equal snapshots, whatever the orders in which the maps and the sets are
-- walked.
pub snapshot-same :
    (i j k l i' j' k' l' : Iteration) (g g' : Inner)
    → IsSane g
    → IsSane g'
    → SameState g g'
    → snapshot i j k l g ≡ snapshot i' j' k' l' g'
unfolding snapshot
snapshot-same i j k l i' j' k' l' g g' p p' same = λ x. record {
  users =
      sort_by-eq_of_members by_user_id by_user_id-IsOrder (HashMap.values i g.users)
        (HashMap.values i' g'.users)
        (λ a b ma mb h h'.
          p.users a.handle b.handle a b ((mem-users i g p.valid.tidy a).0 ma)
            ((mem-users i g p.valid.tidy b).0 mb) (same_user_id a b h h'))
        (users-Nodup i g p.valid.tidy) (users-Nodup i' g' p'.valid.tidy)
        (λ u. Iff.trans (mem-users i g p.valid.tidy u) (
          Iff.trans (λ e. sym (same.users u.handle) ∙ e, λ e. same.users u.handle ∙ e)
            (Iff.symm (mem-users i' g' p'.valid.tidy u))))
        x;
  follows =
      sort_by-eq_of_members by_edge by_edge-IsOrder _ _ (λ a b ma mb. same_edge a b)
        (edges-Nodup j k g p.valid.tidy) (edges-Nodup j' k' g' p'.valid.tidy)
        (λ f. Iff.trans (mem-edges j k g p.valid.tidy f) (
          Iff.trans (λ e. sym (same.edges f.from f.to) ∙ e, λ e. same.edges f.from f.to ∙ e)
            (Iff.symm (mem-edges j' k' g' p'.valid.tidy f))))
        x;
  tweets =
      sort_by-eq_of_members by_tweet_id by_tweet_id-IsOrder _ _
        (λ a b ma mb h h'.
          p.tweets.injective a.author b.author a b ((mem-tweets l g p.valid a).0 ma)
            ((mem-tweets l g p.valid b).0 mb) (same_tweet_id a b h h'))
        (tweets-Nodup l g p.valid p.tweets) (tweets-Nodup l' g' p'.valid p'.tweets)
        (λ t.
          Iff.trans (mem-tweets l g p.valid t)
            (Iff.trans (same.tweets t.author t) (Iff.symm (mem-tweets l' g' p'.valid t))))
        x;
}
