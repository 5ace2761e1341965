-- ===== src/Std/HashSet.antt =====
-- `std::collections::HashSet<String>`: each element once, in an order that no client relies on.
use mathlib.Core.Logic.Or
use mathlib.Core.List.{Nodup-nil, Nodup-cons, not-mem-nil, mem-cons, mem-cons_self, mem-cons_of_mem}
use twitter_rust_formal_veri.Prelude.{
  Str, str_eq, str_eq_iff, ◌≡◌, refl, ◌↔◌, inl, inr, Bool, true, false, not, ◌&&◌, ◌||◌, List, [],
  ◌∷◌, Mem, Nodup, arith, if◌then◌else◌, Bool-cases, Bool_set,
}

unfoldable pub holds : Str → List Str → Bool
holds k [] = false
holds k (j ∷ s) = str_eq j k || holds k s

without : Str → List Str → List Str
without k [] = []
without k (j ∷ s) = let rest = without k s in if str_eq j k then rest else j ∷ rest

holds-without : (k j : Str) (s : List Str) → holds j (without k s) ≡ (not (str_eq k j) && holds j s)
unfolding holds without
holds-without k j [] = ground arith
holds-without k j (i ∷ s) =
    ground (arith, holds-without k j s, str_eq_iff i k, str_eq_iff i j, str_eq_iff k j)

without_absent : (k : Str) (s : List Str) → holds k s ≡ false → without k s ≡ s
unfolding holds without
without_absent k [] h = refl
without_absent k (j ∷ s) h = ground (arith, without_absent k s)

pub holds_of_mem : (k : Str) (s : List Str) → Mem k s → holds k s ≡ true
unfolding holds
holds_of_mem k [] h = absurd (not-mem-nil h)
holds_of_mem k (j ∷ s) h =
    Or.elim (Bool_set _ _) (mem-cons.0 h) (λ e. ground (arith, str_eq_iff j k))
      λ t. ground (arith, holds_of_mem k s t)

pub mem_of_holds : (k : Str) (s : List Str) → holds k s ≡ true → Mem k s
unfolding holds
mem_of_holds k [] h = cc
mem_of_holds k (j ∷ s) h = elim (Bool-cases (str_eq j k)) [
  | inl e ↦ rw ((str_eq_iff j k).0 e) mem-cons_self
  | inr e ↦ mem-cons_of_mem j (mem_of_holds k s (ground arith))
]

without-Nodup : (k : Str) (s : List Str) → Nodup s → Nodup (without k s)
unfolding without
without-Nodup k [] d = d
without-Nodup k (j ∷ s) d = elim (Bool-cases (str_eq j k)) [
  | inl e ↦ rw e (without-Nodup k s (Nodup-cons.0 d).1)
  | inr e ↦ rw e (Nodup-cons.1 (λ m. absent m, without-Nodup k s (Nodup-cons.0 d).1))
]
  where
    absent : Mem j (without k s) → ⊥
    absent m =
        (Nodup-cons.0 d).0
          (mem_of_holds j s (ground (arith, holds-without k j s, holds_of_mem j (without k s) m)))

pub record HashSet : Type 0 where
  pub elems : List Str

-- `HashSet::new`
unfoldable pub empty : HashSet
empty = record { elems = [] }

unfoldable pub contains : HashSet → Str → Bool
unfolding holds
contains s k = holds k s.elems

unfoldable pub insert : HashSet → Str → HashSet
unfolding holds
insert s k = if holds k s.elems then s else record { elems = k ∷ s.elems }

unfoldable pub remove : HashSet → Str → HashSet
unfolding without
remove s k = record { elems = without k s.elems }

-- An element occurs once.
abbrev pub IsSetOf : HashSet → Type 0
IsSetOf s = Nodup s.elems

pub contains-empty : (k : Str) → contains empty k ≡ false
unfolding contains empty
contains-empty k = refl

pub contains-insert :
    (s : HashSet) (k j : Str) → contains (insert s k) j ≡ (str_eq k j || contains s j)
unfolding contains insert
contains-insert s k j = ground (arith, str_eq_iff k j)

pub contains-remove :
    (s : HashSet) (k j : Str) → contains (remove s k) j ≡ (not (str_eq k j) && contains s j)
unfolding contains remove
contains-remove s k j = holds-without k j s.elems

-- A second insertion, and the removal of what is absent, change nothing.
pub insert_present : (s : HashSet) (k : Str) → contains s k ≡ true → insert s k ≡ s
unfolding contains insert
insert_present s k h = rw h

pub remove_absent : (s : HashSet) (k : Str) → contains s k ≡ false → remove s k ≡ s
unfolding contains remove
remove_absent s k h = rw (without_absent k s.elems h)

pub mem-elems : (s : HashSet) (k : Str) → Mem k s.elems ↔ (contains s k ≡ true)
unfolding contains
mem-elems s k = (holds_of_mem k s.elems, mem_of_holds k s.elems)

pub IsSetOf-empty : IsSetOf empty
unfolding empty
IsSetOf-empty = Nodup-nil

pub IsSetOf-insert : (s : HashSet) (k : Str) → IsSetOf s → IsSetOf (insert s k)
unfolding insert
IsSetOf-insert s k d = elim (Bool-cases (holds k s.elems)) [
  | inl old ↦ rw old d
  | inr new ↦ rw new (Nodup-cons.1 (λ m. cc (holds_of_mem k s.elems m), d))
]

pub IsSetOf-remove : (s : HashSet) (k : Str) → IsSetOf s → IsSetOf (remove s k)
unfolding remove
IsSetOf-remove s k d = without-Nodup k s.elems d

pub ruleset set_laws = (contains-empty, contains-insert, contains-remove)
