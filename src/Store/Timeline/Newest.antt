-- ===== src/Store/Timeline/Newest.antt =====
-- The comparator of `home_timeline` in crates/store/src/lib.rs.
use twitter_rust_formal_veri.Prelude.{◌<ℤ◌, eq_of_parts, ◌≡◌, ◌≢◌, ◌⊎◌, true, arith}
use twitter_rust_formal_veri.Std.Sort.{is_gt, Before, IsOrder}
use twitter_rust_formal_veri.Domain.{Tweet}
use twitter_rust_formal_veri.Store.{newest_first}

-- `a` is later than `b`, or as late and of a larger identifier.
abbrev pub IsNewer : Tweet → Tweet → Type 0
IsNewer a b = (b.created_at <ℤ a.created_at) ⊎ ((a.created_at ≡ b.created_at) × (b.id <ℤ a.id))

newest_first_trans :
    (a b c : Tweet) → Before newest_first a b → Before newest_first b c → Before newest_first a c
unfolding newest_first
newest_first_trans a b c h k = ground arith

newest_first-total : (a b : Tweet) → is_gt (newest_first a b) ≡ true → Before newest_first b a
unfolding newest_first
newest_first-total a b h = ground arith

pub newest_first-IsOrder : IsOrder newest_first
newest_first-IsOrder = record { trans = newest_first_trans; total = newest_first-total }

-- Tweets that may stand in either order have one identifier.
pub same_id : (a b : Tweet) → Before newest_first a b → Before newest_first b a → a.id ≡ b.id
unfolding newest_first
same_id a b h k = eq_of_parts a.id b.id (ground arith)

pub IsNewer-of_Before : (a b : Tweet) → Before newest_first a b → a.id ≢ b.id → IsNewer a b
unfolding newest_first
IsNewer-of_Before a b h d =
    ground (arith, eq_of_parts a.id b.id, eq_of_parts a.created_at b.created_at)
