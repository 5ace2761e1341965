-- ===== src/Tests/Suite.antt =====
-- The unit tests of the crates, run on the definitions: a test is a program over the state that stops at a
-- failed `unwrap` or assertion.
mod Store
mod Admin
mod Counters
mod Service
use mathlib.Core.Option
use twitter_rust_formal_veri.Prelude.{
  ℕ, ◌==◌, ℤ, compare_ℤ, Ordering, Bool, true, false, ◌&&◌, Option, none, some, List, [], ◌∷◌,
  Result, ok, err, if◌then◌else◌,
}

abbrev pub Program : Type 0 → Type 0 → Type 0
Program S A = S → Option (A × S)

infixl 5 ◌>>=◌ ◌>>◌
abbrev pub ◌>>=◌ : {S A B : Type 0} → Program S A → (A → Program S B) → Program S B
◌>>=◌ m f s = elim (m s) [ none ↦ none | some (a, s') ↦ f a s' ]

abbrev pub ◌>>◌ : {S A B : Type 0} → Program S A → Program S B → Program S B
m >> k = m >>= λ _. k

-- `s.call(…).unwrap()` and `s.call(…).unwrap_err()`
abbrev pub unwrap : {S E A : Type 0} → (S → Result E A × S) → Program S A
unwrap call s = let (result, s') = call s in elim result [ ok a ↦ some (a, s') | err e ↦ none ]

abbrev pub unwrap_err : {S E A : Type 0} → (S → Result E A × S) → Program S E
unwrap_err call s = let (result, s') = call s in elim result [ ok a ↦ none | err e ↦ some (e, s') ]

abbrev pub modify : {S : Type 0} → (S → S) → Program S (Unit {0})
modify f s = some (tt, f s)

abbrev pub call : {S A : Type 0} → (S → A × S) → Program S A
call f s = some (f s)

-- `assert!`, of a condition on the state
abbrev pub assert : {S : Type 0} → (S → Bool) → Program S (Unit {0})
assert p s = if p s then some (tt, s) else none

abbrev pub passes : {S : Type 0} → S → Program S (Unit {0}) → Bool
passes s test = elim (test s) [ none ↦ false | some _ ↦ true ]

abbrev pub all_pass : List Bool → Bool
all_pass [] = true
all_pass (passed ∷ rest) = passed && all_pass rest

abbrev pub same_int : ℤ → ℤ → Bool
same_int a b = elim (compare_ℤ a b) [ Ordering.eq ↦ true | _ ↦ false ]

abbrev pub same_ints : List ℤ → List ℤ → Bool
same_ints [] [] = true
same_ints (a ∷ xs) (b ∷ ys) = same_int a b && same_ints xs ys
same_ints _ _ = false
