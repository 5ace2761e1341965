-- ===== src/Ids/Fresh.antt =====
-- The property called F8 of crates/ids/src/lib.rs: identifiers only grow, so none is given twice.
use mathlib.Core.List.{not-mem-nil, mem-cons}
use mathlib.Core.Logic.Or
use native.Mathlib.Bridge.{le_prop}
use twitter_rust_formal_veri.Prelude.{
  ℕ, zero, suc, ◌+◌, ◌≤◌, ℤ, pos_part, neg_part, ◌<ℤ◌, i64_max, incr_parts, List, [], ◌∷◌, Mem,
  Pairwise, arith,
}
use twitter_rust_formal_veri.Ids.{Generator, next_id, current, next_id_lem}

-- The results of `n` calls of `next_id`, by whichever threads, in the order of the lock.
unfoldable pub issued : ℕ → Generator → List ℤ
issued zero g = []
issued (suc n) g = let (id, g') = next_id g in id ∷ issued n g'

-- `n` increments stay below the maximum of `i64`.
abbrev pub HasRoom : Generator → ℕ → Type 0
HasRoom g n = pos_part (current g) + n ≤ i64_max + neg_part (current g)

HasRoom-next :
    (g : Generator) (n : ℕ)
    → HasRoom g (suc n)
    → HasRoom (next_id g).1 n × (current g <ℤ (next_id g).0)
HasRoom-next g n h =
    let (is_incr, is_current) = next_id_lem g in
    rw (is_current, is_incr)
      (
        omega (arith, incr_parts (current g) (omega arith)),
        omega (arith, incr_parts (current g) (omega arith)),
      )

issued_above :
    (n : ℕ) (g : Generator) → HasRoom g n → (id : ℤ) → Mem id (issued n g) → current g <ℤ id
unfolding issued
issued_above zero g h id m = absurd (not-mem-nil m)
issued_above (suc n) g h id m =
    let (room, grows) = HasRoom-next g n h in
    let later = issued_above n (next_id g).1 room id in
    Or.elim le_prop (mem-cons.0 m) (λ e. rw e grows)
      λ t. omega (arith, rw ((next_id_lem g).1) at (later t))

issued_ascending : (n : ℕ) (g : Generator) → HasRoom g n → Pairwise ◌<ℤ◌ (issued n g)
unfolding issued
issued_ascending zero g h = Pairwise.nil
issued_ascending (suc n) g h =
    let room = (HasRoom-next g n h).0 in
    let above = issued_above n (next_id g).1 room in
    Pairwise.cons (λ id m. rw (next_id_lem g).1 at (above id m))
      (issued_ascending n (next_id g).1 room)

-- The counter and the identifiers issued from it strictly grow, so no identifier is given twice, as
-- long as the counter does not pass the maximum of `i64`.
pub issued_grow : (n : ℕ) (g : Generator) → HasRoom g n → Pairwise ◌<ℤ◌ (current g ∷ issued n g)
issued_grow n g h = Pairwise.cons (issued_above n g h) (issued_ascending n g h)
