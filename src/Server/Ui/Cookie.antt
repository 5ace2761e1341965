-- ===== src/Server/Ui/Cookie.antt =====
-- Which cookies `verify` of crates/server/src/ui.rs accepts.
use Prim.Native.Nat.{bit_or, bit_xor}
use twitter_rust_formal_veri.Prelude.{
  ℕ, Str, is_empty, ◌≡◌, ◌↔◌, refl, ap, Bool, true, false, ◌||◌, ◌==◌, ==_iff, none, some, List, [],
  ◌∷◌, ◌++◌, length, arith, Option-cases, inl, inr, Bool-cases,
}
use twitter_rust_formal_veri.Std.Bits.{bit_or-eq-zero, bit_xor-eq-zero}
use twitter_rust_formal_veri.Server.Ui.{dot, rsplit_once, zip_diff, constant_time_eq, sign, verify}

abbrev pub occurs : ℕ → Str → Bool
occurs c [] = false
occurs c (x ∷ s) = x == c || occurs c s

rsplit_once-none : (c : ℕ) (s : Str) → occurs c s ≡ false → rsplit_once c s ≡ none
unfolding rsplit_once
rsplit_once-none c [] h = refl
rsplit_once-none c (x ∷ s) h = ground (arith, rsplit_once-none c s)

rsplit_once-append :
    (c : ℕ) (s t : Str) → occurs c t ≡ false → rsplit_once c (s ++ c ∷ t) ≡ some (s, t)
unfolding rsplit_once
rsplit_once-append c [] t h = ground (arith, rsplit_once-none c t)
rsplit_once-append c (x ∷ s) t h = rw (rsplit_once-append c s t h)

rsplit_once_sound :
    (c : ℕ) (s before after : Str)
    → rsplit_once c s ≡ some (before, after)
    → s ≡ before ++ c ∷ after
unfolding rsplit_once
rsplit_once_sound c [] before after h = ground arith
rsplit_once_sound c (x ∷ s) before after h = elim (Option-cases (rsplit_once c s)) [
  | inl e ↦
      let (x_eq, before_eq, after_eq) : (x ≡ c) × (before ≡ []) × (after ≡ s) = ground arith in
      rw (before_eq, after_eq, x_eq) refl
  | inr ((l, r), e) ↦
      let (before_eq, after_eq) : (before ≡ x ∷ l) × (after ≡ r) = ground arith in
      rw (before_eq, after_eq) (ap (λ rest. x ∷ rest) (rsplit_once_sound c s l r e))
]

zip_diff_zero :
    (d : ℕ) (a b : List ℕ) → length a ≡ length b → (zip_diff d a b ≡ 0) ↔ ((d ≡ 0) × (a ≡ b))
unfolding zip_diff
zip_diff_zero d [] [] h = (λ e. (e, refl), λ e. e.0)
zip_diff_zero d [] (y ∷ b) h = absurd (omega arith)
zip_diff_zero d (x ∷ a) [] h = absurd (omega arith)
zip_diff_zero d (x ∷ a) (y ∷ b) h =
    let rest = zip_diff_zero (bit_or d (bit_xor x y)) a b (omega arith) in
    (
      λ e. ground (arith, rest, bit_or-eq-zero d (bit_xor x y), bit_xor-eq-zero x y),
      λ e. ground (arith, rest, bit_or-eq-zero d (bit_xor x y), bit_xor-eq-zero x y),
    )

-- This comparison is equality on inputs of any lengths.
pub constant_time_eq-is_eq : (a b : List ℕ) → (constant_time_eq a b ≡ true) ↔ (a ≡ b)
unfolding constant_time_eq
constant_time_eq-is_eq a b = elim (Bool-cases (length a == length b)) [
  | inl e ↦
      let same = zip_diff_zero 0 a b ((==_iff (length a) (length b)).0 e) in
      (λ h. ground (arith, same), λ h. ground (arith, same))
  | inr e ↦ (λ h. ground arith, λ h. absurd (ground (arith, ap length h)))
]

module _ (tag : Str → Str) (as_bytes : Str → List ℕ)
    (tag_length : (handle : Str) → length (as_bytes (tag handle)) ≡ 32)
    (tag_hex : (handle : Str) → occurs dot (tag handle) ≡ false)
    (injective : (s t : Str) → as_bytes s ≡ as_bytes t → s ≡ t) where
  verify_sound :
      (cookie handle : Str)
      → verify tag as_bytes cookie ≡ some handle
      → (cookie ≡ sign tag as_bytes handle) × (is_empty handle ≡ false)
  unfolding verify sign
  verify_sound cookie handle h = elim (Option-cases (rsplit_once dot cookie)) [
    | inl e ↦ absurd (ground arith)
    | inr ((l, r), e) ↦
        let known = rsplit_once-append dot l (tag l) (tag_hex l) in
        let (handle_eq, filled, same) : (handle ≡ l)
            × (is_empty l ≡ false)
            × (constant_time_eq (as_bytes r) (as_bytes (tag l)) ≡ true) =
          ground (arith, known) in
        let tag_eq =
          injective r (tag l) ((constant_time_eq-is_eq (as_bytes r) (as_bytes (tag l))).0 same) in
        (rw (handle_eq, ← tag_eq) (rsplit_once_sound dot cookie l r e), rw handle_eq filled)
  ]

  verify-sign :
      (handle : Str)
      → is_empty handle ≡ false
      → verify tag as_bytes (sign tag as_bytes handle) ≡ some handle
  unfolding verify sign
  verify-sign handle h = ground (
    arith,
    rsplit_once-append dot handle (tag handle) (tag_hex handle),
    tag_length handle,
    constant_time_eq-is_eq (as_bytes (tag handle)) (as_bytes (tag handle)),
  )

  -- `verify` reads a handle from a cookie exactly if the cookie is what `sign` makes of that handle
  -- under this key and the handle is not empty, handles with dots included; so a cookie with another
  -- tag is refused.
  pub verify_lem :
      (cookie handle : Str)
      → (verify tag as_bytes cookie ≡ some handle)
        ↔ ((cookie ≡ sign tag as_bytes handle) × (is_empty handle ≡ false))
  verify_lem cookie handle = (verify_sound cookie handle, λ p. rw (p.0) (verify-sign handle p.1))
