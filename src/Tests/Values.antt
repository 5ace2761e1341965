-- ===== src/Tests/Values.antt =====
-- JSON values as a tree, which meet what crates/server relies on.
use twitter_rust_formal_veri.Prelude.{
  ℕ, ℤ, pos, Str, str_eq, ◌≡◌, refl, ap, Bool, Option, none, some, List, [], ◌∷◌, if◌then◌else◌,
  Bool-cases, inl, inr,
}
use twitter_rust_formal_veri.Server.Json.{Json, field}

mutual
  pub data Value : Type 0 where
    null : Value
    boolean : Bool → Value
    number : ℤ → Value
    string : Str → Value
    array : Values → Value
    object : Fields → Value

  pub data Values : Type 0 where
    end : Values
    value : Value → Values → Values

  pub data Fields : Type 0 where
    done : Fields
    entry : Str → Value → Fields → Fields

abbrev pub values_of : List Value → Values
values_of [] = end
values_of (v ∷ vs) = value v (values_of vs)

abbrev pub list_of : Values → List Value
list_of end = []
list_of (value v vs) = v ∷ list_of vs

abbrev pub fields_of : List (Str × Value) → Fields
fields_of [] = done
fields_of ((k, v) ∷ fields) = entry k v (fields_of fields)

abbrev pub find : Str → Fields → Option Value
find k done = none
find k (entry j v fields) = if str_eq j k then some v else find k fields

abbrev pub get : Value → Str → Option Value
get (object fields) k = find k fields
get _ k = none

abbrev pub as_i64 : Value → Option ℤ
as_i64 (number n) = some n
as_i64 _ = none

abbrev pub as_u64 : Value → Option ℕ
as_u64 (number (pos n)) = some n
as_u64 _ = none

abbrev pub as_str : Value → Option Str
as_str (string s) = some s
as_str _ = none

abbrev pub as_array : Value → Option (List Value)
as_array (array vs) = some (list_of vs)
as_array _ = none

pub find-fields_of :
    (fields : List (Str × Value)) (k : Str) → find k (fields_of fields) ≡ field k fields
find-fields_of [] k = refl
find-fields_of ((j, v) ∷ fields) k = elim (Bool-cases (str_eq j k)) [
  | inl e ↦ rw e
  | inr e ↦ rw e (find-fields_of fields k)
]

pub list_of-values_of : (vs : List Value) → list_of (values_of vs) ≡ vs
list_of-values_of [] = refl
list_of-values_of (v ∷ vs) = ap (λ rest. v ∷ rest) (list_of-values_of vs)

abbrev pub json : Json Value
json = record {
  int = number;
  string = string;
  array = λ vs. array (values_of vs);
  object = λ fields. object (fields_of fields);
  boolean = boolean;
  get = get;
  as_i64 = as_i64;
  as_u64 = as_u64;
  as_str = as_str;
  as_array = as_array;
  get_object = λ fields k _. find-fields_of fields k;
  as_i64_int = λ n _. refl;
  as_u64_int = λ n _. refl;
  as_str_string = λ s. refl;
  as_array_array = λ vs. ap some (list_of-values_of vs);
}
