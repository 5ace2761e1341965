-- ===== src/Std/HashMap.antt =====
-- `std::collections::HashMap<String, V>`: the entries, one for each key. The order in which a loop
-- meets the keys is the hasher's choice, and stands here as any rearrangement of them.
use mathlib.Core.Logic.Or
use mathlib.Core.List.{
  Nodup-nil, Nodup-cons, not-mem-nil, mem-cons, mem-cons_self, mem-cons_of_mem,
  perm_append_singleton,
}
use mathlib.Core.List.Perm
use mathlib.Core.Option
use twitter_rust_formal_veri.Prelude.{
  Str, str_eq, str_eq_iff, ◌≡◌, refl, ap, ◌↔◌, inl, inr, Bool, true, false, ◌||◌, Option, none,
  some, List, [], ◌∷◌, ◌++◌, map, Mem, Perm, Nodup, arith, if◌then◌else◌, Bool-cases, Bool_set,
  Option-cases,
}
use twitter_rust_formal_veri.Prelude.Gather.{gather}

-- The order of one pass over the keys of a map or the elements of a set.
pub record Iteration : Type 0 where
  pub order : List Str → List Str
  pub perm : (ks : List Str) → Perm (order ks) ks

abbrev Entries : Type 0 → Type 0
Entries V = List (Str × V)

module _ {V : Type 0} where
  unfoldable pub find : Str → Entries V → Option V
  find k [] = none
  find k ((j, v) ∷ m) = if str_eq j k then some v else find k m

  unfoldable pub replace : Str → V → Entries V → Entries V
  replace k v [] = (k, v) ∷ []
  replace k v ((j, w) ∷ m) = if str_eq j k then (j, v) ∷ m else (j, w) ∷ replace k v m

  unfoldable pub keys_of : Entries V → List Str
  keys_of = map (λ e. e.0)

  find-replace :
      (k j : Str) (v : V) (m : Entries V)
      → find j (replace k v m) ≡ (if str_eq k j then some v else find j m)
  unfolding find replace
  find-replace k j v [] = refl
  find-replace k j v ((i, w) ∷ m) =
      ground (arith, str_eq_iff k j, str_eq_iff i k, str_eq_iff i j, find-replace k j v m)

  unfoldable pub has : Str → Entries V → Bool
  has k [] = false
  has k ((j, v) ∷ m) = str_eq j k || has k m

  has-replace :
      (k j : Str) (v : V) (m : Entries V) → has j (replace k v m) ≡ (str_eq k j || has j m)
  unfolding has replace
  has-replace k j v [] = refl
  has-replace k j v ((i, w) ∷ m) =
      ground (arith, str_eq_iff k j, str_eq_iff i k, str_eq_iff i j, has-replace k j v m)

  replace_present : (k : Str) (v : V) (m : Entries V) → find k m ≡ some v → replace k v m ≡ m
  unfolding find replace
  replace_present k v [] h = ground arith
  replace_present k v ((j, w) ∷ m) h = elim (Bool-cases (str_eq j k)) [
    | inl e ↦ rw e (ap (λ x. (j, x) ∷ m) (ground arith))
    | inr e ↦ rw e (ap (λ t. (j, w) ∷ t) (replace_present k v m (ground arith)))
  ]

  unfoldable pub map_entries : (V → V) → Entries V → Entries V
  map_entries f [] = []
  map_entries f ((j, v) ∷ m) = (j, f v) ∷ map_entries f m

  find-map_entries :
      (f : V → V) (k : Str) (m : Entries V) → find k (map_entries f m) ≡ Option.map f (find k m)
  unfolding find map_entries
  find-map_entries f k [] = refl
  find-map_entries f k ((j, v) ∷ m) = elim (Bool-cases (str_eq j k)) [
    | inl e ↦ rw e
    | inr e ↦ rw e (find-map_entries f k m)
  ]

  keys-map_entries : (f : V → V) (m : Entries V) → keys_of (map_entries f m) ≡ keys_of m
  unfolding keys_of map_entries
  keys-map_entries f [] = refl
  keys-map_entries f ((j, v) ∷ m) = ap (λ ks. j ∷ ks) (keys-map_entries f m)

  find-eq-none : (k : Str) (m : Entries V) → has k m ≡ false → find k m ≡ none
  unfolding find has
  find-eq-none k [] h = refl
  find-eq-none k ((j, v) ∷ m) h = ground (arith, find-eq-none k m)

  find_of_has : (k : Str) (m : Entries V) → has k m ≡ true → (v : V) × (find k m ≡ some v)
  unfolding find has
  find_of_has k [] h = cc
  find_of_has k ((j, v) ∷ m) h = elim (Bool-cases (str_eq j k)) [
    | inl e ↦ (v, rw e)
    | inr e ↦ let (w, found) = find_of_has k m (ground arith) in (w, rw e found)
  ]

  keys-replace :
      (k : Str) (v : V) (m : Entries V)
      → keys_of (replace k v m) ≡ (if has k m then keys_of m else keys_of m ++ k ∷ [])
  unfolding keys_of replace has
  keys-replace k v [] = refl
  keys-replace k v ((i, w) ∷ m) = ground (arith, keys-replace k v m)

  has_of_mem : (k : Str) (m : Entries V) → Mem k (keys_of m) → has k m ≡ true
  unfolding keys_of has
  has_of_mem k [] h = absurd (not-mem-nil h)
  has_of_mem k ((j, v) ∷ m) h =
      Or.elim (Bool_set _ _) (mem-cons.0 h) (λ e. ground (arith, str_eq_iff j k))
        λ t. ground (arith, has_of_mem k m t)

  mem_of_has : (k : Str) (m : Entries V) → has k m ≡ true → Mem k (keys_of m)
  unfolding keys_of has
  mem_of_has k [] h = cc
  mem_of_has k ((j, v) ∷ m) h = elim (Bool-cases (str_eq j k)) [
    | inl e ↦ rw ((str_eq_iff j k).0 e) mem-cons_self
    | inr e ↦ mem-cons_of_mem j (mem_of_has k m (ground arith))
  ]

  keys-replace-Nodup :
      (k : Str) (v : V) (m : Entries V) → Nodup (keys_of m) → Nodup (keys_of (replace k v m))
  keys-replace-Nodup k v m d = elim (Bool-cases (has k m)) [
    | inl old ↦ rw (keys-replace k v m, old) d
    | inr new ↦
        rw (keys-replace k v m, new)
          (Perm.nodup (Perm.symm (perm_append_singleton k (keys_of m)))
            (Nodup-cons.1 (λ h. cc (has_of_mem k m h), d)))
  ]

pub record HashMap (V : Type 0) : Type 0 where
  entries : Entries V

module _ {V : Type 0} where
  -- `HashMap::new`, and what `clear` leaves
  unfoldable pub empty : HashMap V
  empty = record { entries = [] }

  unfoldable pub get : HashMap V → Str → Option V
  unfolding find
  get m k = find k m.entries

  unfoldable pub contains_key : HashMap V → Str → Bool
  unfolding has
  contains_key m k = has k m.entries

  unfoldable pub insert : HashMap V → Str → V → HashMap V
  unfolding replace
  insert m k v = record { entries = replace k v m.entries }

  unfoldable pub keys : HashMap V → List Str
  unfolding keys_of
  keys m = keys_of m.entries

  -- `for v in m.values_mut() { *v = f(*v) }`
  unfoldable pub map_values : (V → V) → HashMap V → HashMap V
  unfolding map_entries
  map_values f m = record { entries = map_entries f m.entries }

  values_at : HashMap V → List Str → List V
  values_at m [] = []
  values_at m (k ∷ ks) =
      let rest = values_at m ks in elim (get m k) [ some v ↦ v ∷ rest | none ↦ rest ]

  -- `values()`, in the order of one pass
  unfoldable pub values : Iteration → HashMap V → List V
  unfolding values_at
  values i m = values_at m (i.order (keys m))

  -- The value at a key, if there is one.
  abbrev pub entry_at : HashMap V → Str → List V
  entry_at m k = elim (get m k) [ some v ↦ v ∷ [] | none ↦ [] ]

  values_at-gather : (m : HashMap V) (ks : List Str) → values_at m ks ≡ gather (entry_at m) ks
  unfolding values_at gather
  values_at-gather m [] = refl
  values_at-gather m (k ∷ ks) = elim (Option-cases (get m k)) [
    | inl e ↦ rw (e, values_at, entry_at) (values_at-gather m ks)
    | inr (v, e) ↦ rw (e, values_at, entry_at) (ap (λ t. v ∷ t) (values_at-gather m ks))
  ]

  pub values-gather :
      (i : Iteration) (m : HashMap V) → values i m ≡ gather (entry_at m) (i.order (keys m))
  unfolding values
  values-gather i m = values_at-gather m (i.order (keys m))

  pub get-map_values :
      (f : V → V) (m : HashMap V) (k : Str) → get (map_values f m) k ≡ Option.map f (get m k)
  unfolding get map_values
  get-map_values f m k = find-map_entries f k m.entries

  -- Each key has one entry.
  abbrev pub IsMap : HashMap V → Type 0
  IsMap m = Nodup (keys m)

  pub get-empty : (k : Str) → get empty k ≡ none
  unfolding get empty
  get-empty k = refl

  pub get-insert :
      (m : HashMap V) (k j : Str) (v : V)
      → get (insert m k v) j ≡ (if str_eq k j then some v else get m j)
  unfolding get insert
  get-insert m k j v = find-replace k j v m.entries

  -- Storing again what a key already has changes nothing.
  pub insert_present : (m : HashMap V) (k : Str) (v : V) → get m k ≡ some v → insert m k v ≡ m
  unfolding get insert
  insert_present m k v h = ap (λ e. record { entries = e }) (replace_present k v m.entries h)

  pub contains_key-insert :
      (m : HashMap V) (k j : Str) (v : V)
      → contains_key (insert m k v) j ≡ (str_eq k j || contains_key m j)
  unfolding contains_key insert
  contains_key-insert m k j v = has-replace k j v m.entries

  pub get-eq-none : (m : HashMap V) (k : Str) → contains_key m k ≡ false → get m k ≡ none
  unfolding get contains_key
  get-eq-none m k h = find-eq-none k m.entries h

  pub get_of_contains_key :
      (m : HashMap V) (k : Str) → contains_key m k ≡ true → (v : V) × (get m k ≡ some v)
  unfolding get contains_key
  get_of_contains_key m k h = find_of_has k m.entries h

  pub mem-keys : (m : HashMap V) (k : Str) → Mem k (keys m) ↔ (contains_key m k ≡ true)
  unfolding keys contains_key
  mem-keys m k = (has_of_mem k m.entries, mem_of_has k m.entries)

  pub IsMap-insert : (m : HashMap V) (k : Str) (v : V) → IsMap m → IsMap (insert m k v)
  unfolding keys insert
  IsMap-insert m k v d = keys-replace-Nodup k v m.entries d

pub IsMap-map_values : {V : Type 0} (f : V → V) (m : HashMap V) → IsMap m → IsMap (map_values f m)
unfolding keys map_values
IsMap-map_values f m d = rw (keys-map_entries f m.entries) d

pub contains_key-empty : (V : Type 0) (k : Str) → contains_key (empty {V = V}) k ≡ false
unfolding contains_key empty
contains_key-empty V k = refl

pub IsMap-empty : (V : Type 0) → IsMap (empty {V = V})
unfolding keys empty
IsMap-empty V = Nodup-nil

pub ruleset map_laws = (get-empty, contains_key-empty, get-insert, contains_key-insert)
