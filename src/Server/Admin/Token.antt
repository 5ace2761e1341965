-- ===== src/Server/Admin/Token.antt =====
-- The comparison of the admin token in crates/server/src/admin.rs.
use Prim.Native.Nat.{bit_or, bit_xor}
use twitter_rust_formal_veri.Prelude.{
  ℕ, zero, suc, ◌%◌, max, ◌≡◌, ◌↔◌, refl, Bool, true, ◌&&◌, ◌==◌, Option, none, some, List, [], ◌∷◌,
  Str, is_empty, length, unwrap_or, if◌then◌else◌, arith,
}
use twitter_rust_formal_veri.Std.Bits.{bit_or-eq-zero, bit_xor-eq-zero}

-- `*a.get(i).unwrap_or(&0)`
abbrev pub byte_at : List ℕ → ℕ → ℕ
byte_at [] i = 0
byte_at (x ∷ a) zero = x
byte_at (x ∷ a) (suc i) = byte_at a i

-- `n` rounds of the loop from `i` on: `diff |= av ^ bv`
unfoldable pub walk : ℕ → ℕ → List ℕ → List ℕ → ℕ → ℕ
walk zero i a b diff = diff
walk (suc n) i a b diff = walk n (suc i) a b (bit_or diff (bit_xor (byte_at a i) (byte_at b i)))

-- `(a.len() ^ b.len()) as u8` keeps the low eight bits.
unfoldable pub constant_time_eq : List ℕ → List ℕ → Bool
unfolding walk
constant_time_eq a b =
    walk (max (length a) (length b)) 0 a b (bit_xor (length a) (length b) % 256) == 0

-- The lists agree once the shorter is filled up with zeros.
unfoldable pub padded_eq : List ℕ → List ℕ → Bool
padded_eq [] [] = true
padded_eq (x ∷ a) [] = x == 0 && padded_eq a []
padded_eq [] (y ∷ b) = y == 0 && padded_eq [] b
padded_eq (x ∷ a) (y ∷ b) = x == y && padded_eq a b

module _ (d : ℕ) where
  or_xor_zero : (x y : ℕ) → (bit_or d (bit_xor x y) == 0) ≡ (d == 0 && x == y)
  or_xor_zero x y = ground (arith, bit_or-eq-zero d (bit_xor x y), bit_xor-eq-zero x y)

walk_tails : (n i x y d : ℕ) (a b : List ℕ) → walk n (suc i) (x ∷ a) (y ∷ b) d ≡ walk n i a b d
unfolding walk
walk_tails zero i x y d a b = refl
walk_tails (suc n) i x y d a b = walk_tails n (suc i) x y _ a b

walk_tail_left : (n i x d : ℕ) (a : List ℕ) → walk n (suc i) (x ∷ a) [] d ≡ walk n i a [] d
unfolding walk
walk_tail_left zero i x d a = refl
walk_tail_left (suc n) i x d a = walk_tail_left n (suc i) x _ a

walk_tail_right : (n i y d : ℕ) (b : List ℕ) → walk n (suc i) [] (y ∷ b) d ≡ walk n i [] b d
unfolding walk
walk_tail_right zero i y d b = refl
walk_tail_right (suc n) i y d b = walk_tail_right n (suc i) y _ b

walk_lem :
    (n d : ℕ) (a b : List ℕ)
    → n ≡ max (length a) (length b)
    → (walk n 0 a b d == 0) ≡ (d == 0 && padded_eq a b)
unfolding walk padded_eq
walk_lem zero d [] [] h = ground arith
walk_lem zero d (x ∷ a) b h = absurd (omega arith)
walk_lem zero d [] (y ∷ b) h = absurd (omega arith)
walk_lem (suc n) d [] [] h = absurd (omega arith)
walk_lem (suc n) d (x ∷ a) [] h =
    rw (walk_tail_left n 0 x (bit_or d (bit_xor x 0)) a)
      (ground (arith, walk_lem n (bit_or d (bit_xor x 0)) a [] (omega arith), or_xor_zero d x 0))
walk_lem (suc n) d [] (y ∷ b) h =
    rw (walk_tail_right n 0 y (bit_or d (bit_xor 0 y)) b)
      (ground (arith, walk_lem n (bit_or d (bit_xor 0 y)) [] b (omega arith), or_xor_zero d 0 y))
walk_lem (suc n) d (x ∷ a) (y ∷ b) h =
    rw (walk_tails n 0 x y (bit_or d (bit_xor x y)) a b)
      (ground (arith, walk_lem n (bit_or d (bit_xor x y)) a b (omega arith), or_xor_zero d x y))

-- `constant_time_eq` answers true exactly if the low eight bits of the lengths agree and so do the
-- bytes, the shorter list filled up with zeros.
pub constant_time_eq_lem :
    (a b : List ℕ)
    → constant_time_eq a b ≡ (bit_xor (length a) (length b) % 256 == 0 && padded_eq a b)
unfolding constant_time_eq
constant_time_eq_lem a b = walk_lem (max (length a) (length b)) _ a b refl

padded_eq_iff : (a b : List ℕ) → length a ≡ length b → (padded_eq a b ≡ true) ↔ (a ≡ b)
unfolding padded_eq
padded_eq_iff [] [] h = (λ _. refl, λ _. refl)
padded_eq_iff [] (y ∷ b) h = absurd (omega arith)
padded_eq_iff (x ∷ a) [] h = absurd (omega arith)
padded_eq_iff (x ∷ a) (y ∷ b) h =
    let rest = padded_eq_iff a b (omega arith) in (λ p. ground arith, λ e. ground arith)

-- On inputs of one length, `constant_time_eq` is equality.
pub constant_time_eq_iff :
    (a b : List ℕ) → length a ≡ length b → (constant_time_eq a b ≡ true) ↔ (a ≡ b)
constant_time_eq_iff a b h =
    ground
      (arith, constant_time_eq_lem a b, padded_eq_iff a b h, bit_xor-eq-zero (length a) (length b))

pub data AuthResult : Type 0 where
  ok disabled forbidden : AuthResult

-- `token` is the environment variable and `header` the header of the request, if they can be read;
-- `as_bytes` is the encoding of strings.
unfoldable pub check_admin_token : (Str → List ℕ) → Option Str → Option Str → AuthResult
check_admin_token as_bytes token header = elim token [
  | some expected ↦
      if is_empty expected
      then disabled
      else if constant_time_eq (as_bytes (unwrap_or [] header)) (as_bytes expected)
      then ok
      else forbidden
  | none ↦ disabled
]
