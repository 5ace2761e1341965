-- ===== src/Server/Json.antt =====
-- `serde_json::Value` as crates/server uses it: a type with the operations that are called, and what
-- the documentation of serde_json says of them.
use twitter_rust_formal_veri.Prelude.{
  ℕ, ◌≤◌, ℤ, pos, negsuc, ◌≤ℤ◌, i64_max, Str, str_eq, ◌≡◌, Bool, true, false, not, ◌&&◌, ◌||◌,
  Option, none, some, List, [], ◌∷◌, if◌then◌else◌,
}

-- The range of `i64`
abbrev pub IsI64 : ℤ → Type 0
IsI64 n = (negsuc i64_max ≤ℤ n) × (n ≤ℤ pos i64_max)

module _ {V : Type 0} where
  abbrev pub field : Str → List (Str × V) → Option V
  field k [] = none
  field k ((j, v) ∷ fields) = if str_eq j k then some v else field k fields

  abbrev has_field : Str → List (Str × V) → Bool
  has_field k [] = false
  has_field k ((j, v) ∷ fields) = str_eq j k || has_field k fields

  -- No key is written twice.
  abbrev pub are_distinct : List (Str × V) → Bool
  are_distinct [] = true
  are_distinct ((k, v) ∷ fields) = not (has_field k fields) && are_distinct fields

pub record Json (V : Type 0) : Type 0 where
  -- `json!` of an `i64`, a string, a vector, a literal object and a `bool`
  pub int : ℤ → V
  pub string : Str → V
  pub array : List V → V
  pub object : List (Str × V) → V
  pub boolean : Bool → V
  pub get : V → Str → Option V
  pub as_i64 : V → Option ℤ
  pub as_u64 : V → Option ℕ
  pub as_str : V → Option Str
  pub as_array : V → Option (List V)
  pub get_object :
      (fields : List (Str × V)) (k : Str)
      → are_distinct fields ≡ true
      → get (object fields) k ≡ field k fields
  pub as_i64_int : (n : ℤ) → IsI64 n → as_i64 (int n) ≡ some n
  pub as_u64_int : (n : ℕ) → n ≤ i64_max → as_u64 (int (pos n)) ≡ some n
  pub as_str_string : (s : Str) → as_str (string s) ≡ some s
  pub as_array_array : (vs : List V) → as_array (array vs) ≡ some vs
