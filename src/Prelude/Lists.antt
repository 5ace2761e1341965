-- ===== src/Prelude/Lists.antt =====
-- Lists measured by native numbers, and list lemmas that several components use.
use Prim.Native.Nat.{ℕ, zero, suc, ◌+◌, ◌≤◌}
use mathlib.Core.Path.{◌≡◌, refl}
use mathlib.Core.Logic.Or
use mathlib.Core.List.{
  List, [], ◌∷◌, ◌++◌, Mem, Mem-prop, Pairwise, not-mem-nil, mem-cons, mem-cons_self,
  mem-cons_of_mem,
}
use mathlib.Core.Option.{Option, none, some}
use native.Mathlib.Omega.{arith}

module _ {ℓ} {A : Type ℓ} where
  abbrev pub length : List A → ℕ
  length [] = 0
  length (a ∷ l) = suc (length l)

  abbrev pub take : ℕ → List A → List A
  take zero l = []
  take (suc limit) [] = []
  take (suc limit) (a ∷ l) = a ∷ take limit l

  -- `Option::unwrap_or`
  abbrev pub unwrap_or : A → Option A → A
  unwrap_or d none = d
  unwrap_or d (some a) = a

module _ {ℓ} {A : Type ℓ} where
  pub length-append : (xs ys : List A) → length (xs ++ ys) ≡ length xs + length ys
  length-append [] ys = omega arith
  length-append (x ∷ xs) ys = omega (arith, length-append xs ys)

  pub take_of_length-le : (limit : ℕ) (l : List A) → length l ≤ limit → take limit l ≡ l
  take_of_length-le zero [] fits = refl
  take_of_length-le (suc limit) [] fits = refl
  take_of_length-le zero (a ∷ l) fits = absurd (omega arith)
  take_of_length-le (suc limit) (a ∷ l) fits =
      let rest = take_of_length-le limit l (omega arith) in rw rest

  pub mem-take : (n : ℕ) (xs : List A) {a : A} → Mem a (take n xs) → Mem a xs
  mem-take zero xs m = absurd (not-mem-nil m)
  mem-take (suc n) [] m = m
  mem-take (suc n) (x ∷ xs) m =
      Or.elim Mem-prop (mem-cons.0 m) (λ e. rw e mem-cons_self)
        λ k. mem-cons_of_mem x (mem-take n xs k)

  pub Pairwise-take {κ} :
      {R : A → A → Type κ} (n : ℕ) (xs : List A) → Pairwise R xs → Pairwise R (take n xs)
  Pairwise-take zero xs s = Pairwise.nil
  Pairwise-take (suc n) [] s = s
  Pairwise-take (suc n) (x ∷ xs) (Pairwise.cons before s) =
      Pairwise.cons (λ a m. before a (mem-take n xs m)) (Pairwise-take n xs s)
