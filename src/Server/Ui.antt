-- ===== src/Server/Ui.antt =====
-- crates/server/src/ui.rs: the signed cookie that names the acting handle. `tag` is the hexadecimal
-- text of the first half of the HMAC of a handle under the server's key, and `as_bytes` the encoding of
-- strings.
pub mod Actors
pub mod Cookie
pub mod Escape
pub mod Forms
pub mod Key
pub mod Login
pub mod Pages
use Prim.Native.Nat.{bit_or, bit_xor}
use twitter_rust_formal_veri.Prelude.{
  ℕ, Str, is_empty, Bool, true, false, not, ◌||◌, ◌==◌, Option, none, some, List, [], ◌∷◌, ◌++◌,
  length, if◌then◌else◌,
}

-- `'.'`
abbrev pub dot : ℕ
dot = 0x2e

-- `str::rsplit_once`: around the last occurrence
unfoldable pub rsplit_once : ℕ → Str → Option (Str × Str)
rsplit_once c [] = none
rsplit_once c (x ∷ s) = elim (rsplit_once c s) [
  | some (before, after) ↦ some (x ∷ before, after)
  | none ↦ if x == c then some ([], s) else none
]

-- `for (x, y) in a.iter().zip(b.iter()) { diff |= x ^ y; }`
unfoldable pub zip_diff : ℕ → List ℕ → List ℕ → ℕ
zip_diff diff (x ∷ a) (y ∷ b) = zip_diff (bit_or diff (bit_xor x y)) a b
zip_diff diff _ _ = diff

unfoldable pub constant_time_eq : List ℕ → List ℕ → Bool
unfolding zip_diff
constant_time_eq a b = if not (length a == length b) then false else zip_diff 0 a b == 0

module _ (tag : Str → Str) (as_bytes : Str → List ℕ) where
  unfoldable pub sign : Str → Str
  sign handle = handle ++ dot ∷ tag handle

  unfoldable pub verify : Str → Option Str
  unfolding sign constant_time_eq rsplit_once
  verify cookie = elim (rsplit_once dot cookie) [
    | none ↦ none
    | some (handle, given) ↦
        if is_empty handle || not (length (as_bytes given) == 32)
        then none
        else elim (rsplit_once dot (sign handle)) [
          | none ↦ none
          | some (_, expected) ↦
              if not (constant_time_eq (as_bytes given) (as_bytes expected))
              then none
              else some handle
        ]
  ]
