-- ===== src/Ids/VerusProof.antt =====
-- The module `verus_proof` in crates/ids/src/lib.rs: the ghost views, and the contract of `next_id`, which
-- the verifier trusts. It leaves the views opaque; here they are what its comments say.
use twitter_rust_formal_veri.Prelude.{
  ◌+◌, ℤ, pos, pos_part, neg_part, ◌≤ℤ◌, ◌<ℤ◌, i64_max, incr_parts, lt-max_of_incr, ◌≡◌, ◌↔◌, refl,
  arith,
}
use twitter_rust_formal_veri.Ids.{LockState, Generator, next_id}

unfoldable pub inner_state : Generator → LockState
inner_state g = g.inner

unfoldable pub lock_state_value : LockState → ℤ
lock_state_value s = s.inner

unfoldable pub count : Generator → ℤ
unfolding inner_state lock_state_value
count g = lock_state_value (inner_state g)

-- The `ensures` of `next_id_ensures`; the sum of the second clause is that of unbounded integers.
pub record NextIdEnsures (old g : Generator) (out : ℤ) : Type 0 where
  pub value : out ≡ count g
  pub counted :
      pos_part (count g) + neg_part (count old) ≡ neg_part (count g) + pos_part (count old) + 1
  pub positive : pos 1 ≤ℤ out

-- For a counter that is an `i64`, `next_id` meets the contract exactly when the counter is neither
-- negative, as a loaded state can set it, nor at the maximum, where the release build wraps.
pub NextIdEnsures-iff :
    (g : Generator)
    → count g ≤ℤ pos i64_max
    → NextIdEnsures g (next_id g).1 (next_id g).0 ↔ ((pos 0 ≤ℤ count g) × (count g <ℤ pos i64_max))
unfolding count next_id
NextIdEnsures-iff g h = (
  λ e. (
    omega (arith, e.counted, e.positive),
    lt-max_of_incr g.inner.inner h (omega (arith, e.counted)),
  ),
  λ p. record {
    value = refl;
    counted = incr_parts g.inner.inner (p.1);
    positive = omega (arith, incr_parts g.inner.inner (p.1), p.0);
  },
)
