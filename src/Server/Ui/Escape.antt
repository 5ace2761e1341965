-- ===== src/Server/Ui/Escape.antt =====
-- `html_escape` of crates/server/src/ui.rs: five replacements, one after another.
use twitter_rust_formal_veri.Prelude.{
  ℕ, Str, lit, ◌≡◌, refl, ap, Bool, false, ◌||◌, ◌==◌, [], ◌∷◌, ◌++◌, if◌then◌else◌, Bool-cases,
  inl, inr, arith,
}

-- `str::replace` of a character by a string
unfoldable pub replace : ℕ → Str → Str → Str
replace c by [] = []
replace c by (x ∷ s) = let rest = replace c by s in if x == c then by ++ rest else x ∷ rest

unfoldable pub html_escape : Str → Str
unfolding replace
html_escape s = replace 0x27 (lit "&#39;") (
    replace 0x22 (lit "&quot;")
      (replace 0x3e (lit "&gt;") (replace 0x3c (lit "&lt;") (replace 0x26 (lit "&amp;") s))))

-- What each character becomes.
unfoldable pub escape : ℕ → Str
escape c =
    if c == 0x26
    then lit "&amp;"
    else if c == 0x3c
    then lit "&lt;"
    else if c == 0x3e
    then lit "&gt;"
    else if c == 0x22
    then lit "&quot;"
    else if c == 0x27
    then lit "&#39;"
    else c ∷ []

unfoldable pub escape_all : Str → Str
unfolding escape
escape_all [] = []
escape_all (c ∷ s) = escape c ++ escape_all s

html_escape-escape_all : (s : Str) → html_escape s ≡ escape_all s
unfolding html_escape escape_all
html_escape-escape_all [] = refl
html_escape-escape_all (c ∷ s) = elim (Bool-cases (c == 0x26)) [
  | inl a ↦ rw (a) (ap (λ t. lit "&amp;" ++ t) (html_escape-escape_all s))
  | inr a ↦ elim (Bool-cases (c == 0x3c)) [
    | inl b ↦ rw (a, b) (ap (λ t. lit "&lt;" ++ t) (html_escape-escape_all s))
    | inr b ↦ elim (Bool-cases (c == 0x3e)) [
      | inl d ↦ rw (a, b, d) (ap (λ t. lit "&gt;" ++ t) (html_escape-escape_all s))
      | inr d ↦ elim (Bool-cases (c == 0x22)) [
        | inl e ↦ rw (a, b, d, e) (ap (λ t. lit "&quot;" ++ t) (html_escape-escape_all s))
        | inr e ↦ elim (Bool-cases (c == 0x27)) [
          | inl f ↦ rw (a, b, d, e, f) (ap (λ t. lit "&#39;" ++ t) (html_escape-escape_all s))
          | inr f ↦ rw (a, b, d, e, f) (ap (λ t. c ∷ t) (html_escape-escape_all s))
        ]
      ]
    ]
  ]
]

-- The characters that open or close a tag or a quoted attribute.
abbrev pub has_markup : Str → Bool
has_markup [] = false
has_markup (c ∷ s) = (c == 0x3c || c == 0x3e || c == 0x22 || c == 0x27) || has_markup s

escape_all_plain : (s : Str) → has_markup (escape_all s) ≡ false
unfolding escape_all
escape_all_plain [] = refl
escape_all_plain (c ∷ s) = ground (arith, escape_all_plain s)

-- The five passes do what one pass does that turns each of the five characters into its entity, so no
-- pass escapes the result of another; what comes out has no character that opens or closes a tag or a
-- quoted attribute.
pub html_escape_lem :
    (s : Str) → (html_escape s ≡ escape_all s) × (has_markup (html_escape s) ≡ false)
html_escape_lem s = (html_escape-escape_all s, rw (html_escape-escape_all s) (escape_all_plain s))
