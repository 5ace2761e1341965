-- ===== src/Store/Snapshot/Orders.antt =====
-- The three comparators of `snapshot` in crates/store/src/lib.rs.
use twitter_rust_formal_veri.Prelude.{Ordering, Str, eq_of_parts, ◌≡◌, refl, ap₂, [], ◌∷◌, arith}
use twitter_rust_formal_veri.Std.Sort.{Before, IsOrder}
use twitter_rust_formal_veri.Domain.{User, Tweet, Follow}
use twitter_rust_formal_veri.Store.Snapshot.{compare_str, by_user_id, by_tweet_id, by_edge}

pub by_user_id-IsOrder : IsOrder by_user_id
by_user_id-IsOrder = record { trans = λ a b c h k. ground arith; total = λ a b h. ground arith }

pub by_tweet_id-IsOrder : IsOrder by_tweet_id
by_tweet_id-IsOrder = record { trans = λ a b c h k. ground arith; total = λ a b h. ground arith }

-- Users, or tweets, that may stand in either order have one identifier.
pub same_user_id : (a b : User) → Before by_user_id a b → Before by_user_id b a → a.id ≡ b.id
same_user_id a b h k = eq_of_parts a.id b.id (ground arith)

pub same_tweet_id : (a b : Tweet) → Before by_tweet_id a b → Before by_tweet_id b a → a.id ≡ b.id
same_tweet_id a b h k = eq_of_parts a.id b.id (ground arith)

-- `String::cmp` is a total order, and equal only on equal strings.
compare_str-eq : (s t : Str) → compare_str s t ≡ Ordering.eq → s ≡ t
unfolding compare_str
compare_str-eq [] [] e = refl
compare_str-eq [] (b ∷ t) e = ground arith
compare_str-eq (a ∷ s) [] e = ground arith
compare_str-eq (a ∷ s) (b ∷ t) e = ground (arith, compare_str-eq s t)

abbrev turn : Ordering → Ordering
turn Ordering.lt = Ordering.gt
turn Ordering.eq = Ordering.eq
turn Ordering.gt = Ordering.lt

compare_str-turn : (s t : Str) → compare_str t s ≡ turn (compare_str s t)
unfolding compare_str
compare_str-turn [] [] = refl
compare_str-turn [] (b ∷ t) = refl
compare_str-turn (a ∷ s) [] = refl
compare_str-turn (a ∷ s) (b ∷ t) = ground (arith, compare_str-turn s t)

compare_str_trans :
    (r s t : Str)
    → compare_str r s ≡ Ordering.lt
    → compare_str s t ≡ Ordering.lt
    → compare_str r t ≡ Ordering.lt
unfolding compare_str
compare_str_trans [] [] t h k = ground arith
compare_str_trans [] (b ∷ s) [] h k = ground arith
compare_str_trans [] (b ∷ s) (c ∷ t) h k = refl
compare_str_trans (a ∷ r) [] t h k = ground arith
compare_str_trans (a ∷ r) (b ∷ s) [] h k = ground arith
compare_str_trans (a ∷ r) (b ∷ s) (c ∷ t) h k = ground (arith, compare_str_trans r s t)

pub by_edge-IsOrder : IsOrder by_edge
unfolding by_edge
by_edge-IsOrder = record {
  trans = λ a b c h k. ground (
    arith,
    compare_str_trans a.from b.from c.from,
    compare_str_trans a.to b.to c.to,
    compare_str-eq a.from b.from,
    compare_str-eq b.from c.from,
    compare_str-eq a.to b.to,
    compare_str-eq b.to c.to,
  );
  total = λ a b h. ground (arith, compare_str-turn a.from b.from, compare_str-turn a.to b.to);
}

-- Edges that may stand in either order are one.
pub same_edge : (a b : Follow) → Before by_edge a b → Before by_edge b a → a ≡ b
unfolding by_edge
same_edge a b h k =
    let froms : a.from ≡ b.from =
      compare_str-eq a.from b.from (ground (arith, compare_str-turn a.from b.from)) in
    let tos : a.to ≡ b.to =
      compare_str-eq a.to b.to
        (ground (arith, compare_str-turn a.from b.from, compare_str-turn a.to b.to)) in
    ap₂ (λ from to. record { from = from; to = to }) froms tos
