-- ===== src/Std/Sort.antt =====
-- `slice::sort_by` and `sort_by_key`: the stable sort. The standard library promises a sorted
-- rearrangement that keeps equal elements in order, and that determines the result; it is computed
-- here by insertion.
use mathlib.Core.Logic.Or
use mathlib.Core.List.{
  Nodup, not-mem-nil, mem-cons, mem-cons_self, mem-cons_of_mem, Pairwise-cons,
  perm_ext_iff_of_Nodup,
}
use mathlib.Core.List.Perm
use twitter_rust_formal_veri.Prelude.{
  Ordering, ◌≡◌, ◌↔◌, ap₂, inl, inr, Bool, true, false, List, [], ◌∷◌, Mem, Perm, Pairwise,
  if◌then◌else◌, Bool-cases, Bool_set,
}

abbrev pub is_gt : Ordering → Bool
is_gt Ordering.gt = true
is_gt _ = false

-- `Ordering::then_with`
abbrev pub then_with : Ordering → Ordering → Ordering
then_with Ordering.eq o = o
then_with o _ = o

module _ {A : Type 0} (cmp : A → A → Ordering) where
  insert_sorted : A → List A → List A
  insert_sorted x [] = x ∷ []
  insert_sorted x (y ∷ ys) =
      let rest = insert_sorted x ys in if is_gt (cmp x y) then y ∷ rest else x ∷ y ∷ ys

  unfoldable pub sort_by : List A → List A
  unfolding insert_sorted
  sort_by [] = []
  sort_by (x ∷ xs) = insert_sorted x (sort_by xs)

  -- `a` may stand before `b`.
  abbrev pub Before : A → A → Type 0
  Before a b = is_gt (cmp a b) ≡ false

  -- What `sort_by` asks of its comparator.
  pub record IsOrder : Type 0 where
    pub trans : (a b c : A) → Before a b → Before b c → Before a c
    pub total : (a b : A) → is_gt (cmp a b) ≡ true → Before b a

  insert_sorted-perm : (x : A) (ys : List A) → Perm (insert_sorted x ys) (x ∷ ys)
  unfolding insert_sorted
  insert_sorted-perm x [] = Perm.rfl
  insert_sorted-perm x (y ∷ ys) = elim (Bool-cases (is_gt (cmp x y))) [
    | inl g ↦ rw g (Perm.trans (Perm.cons y (insert_sorted-perm x ys)) (Perm.swap x y ys))
    | inr l ↦ rw l Perm.rfl
  ]

  -- A sort neither loses nor invents an element.
  pub sort_by-perm : (xs : List A) → Perm (sort_by xs) xs
  unfolding sort_by
  sort_by-perm [] = Perm.rfl
  sort_by-perm (x ∷ xs) =
      Perm.trans (insert_sorted-perm x (sort_by xs)) (Perm.cons x (sort_by-perm xs))

  abbrev pub IsSorted : List A → Type 0
  IsSorted = Pairwise Before

  module _ (o : IsOrder) where
    insert_sorted-IsSorted : (x : A) (ys : List A) → IsSorted ys → IsSorted (insert_sorted x ys)
    unfolding insert_sorted
    insert_sorted-IsSorted x [] s = Pairwise.cons (λ y m. absurd (not-mem-nil m)) Pairwise.nil
    insert_sorted-IsSorted x (y ∷ ys) s = elim (Bool-cases (is_gt (cmp x y))) [
      | inl g ↦ rw g (
          Pairwise.cons
            (λ z m.
              Or.elim (Bool_set _ _) (mem-cons.0 ((Perm.mem_iff (insert_sorted-perm x ys)).0 m))
                (λ e. rw e (o.total x y g)) ((Pairwise-cons.0 s).0 z))
            (insert_sorted-IsSorted x ys (Pairwise-cons.0 s).1))
      | inr l ↦ rw l (
          Pairwise.cons
            (λ z m.
              Or.elim (Bool_set _ _) (mem-cons.0 m) (λ e. rw e l)
                (λ t. o.trans x y z l ((Pairwise-cons.0 s).0 z t)))
            s)
    ]

    -- The result is sorted.
    pub sort_by-IsSorted : (xs : List A) → IsSorted (sort_by xs)
    unfolding sort_by
    sort_by-IsSorted [] = Pairwise.nil
    sort_by-IsSorted (x ∷ xs) = insert_sorted-IsSorted x (sort_by xs) (sort_by-IsSorted xs)

  -- Elements of the list that may stand in either order are one.
  abbrev pub IsStrictOn : List A → Type 0
  IsStrictOn l = (a b : A) → Mem a l → Mem b l → Before a b → Before b a → a ≡ b

  refl_Before : (o : IsOrder) (a : A) → Before a a
  refl_Before o a = elim (Bool-cases (is_gt (cmp a a))) [ inl g ↦ o.total a a g | inr l ↦ l ]

  head-Before :
      (o : IsOrder) (a b : A) (l r : List A) → IsSorted (a ∷ l) → Perm (b ∷ r) (a ∷ l) → Before a b
  head-Before o a b l r s p =
      Or.elim (Bool_set _ _) (mem-cons.0 ((Perm.mem_iff p).0 mem-cons_self))
        (λ e. rw e (refl_Before o a)) ((Pairwise-cons.0 s).0 b)

  -- Two sorted arrangements of the same elements are equal, if no two elements tie.
  pub IsSorted-eq_of_perm :
      (o : IsOrder) (l r : List A) → IsStrictOn l → IsSorted l → IsSorted r → Perm l r → l ≡ r
  IsSorted-eq_of_perm o [] r strict sl sr p = Perm.nil-eq p
  IsSorted-eq_of_perm o (a ∷ l) [] strict sl sr p = Perm.eq-nil p
  IsSorted-eq_of_perm o (a ∷ l) (b ∷ r) strict sl sr p =
      let heads : a ≡ b =
        strict a b mem-cons_self ((Perm.mem_iff p).1 mem-cons_self)
          (head-Before o a b l r sl (Perm.symm p)) (head-Before o b a r l sr p) in
      ap₂ ◌∷◌ heads (
        IsSorted-eq_of_perm o l r
          (λ x y mx my. strict x y (mem-cons_of_mem a mx) (mem-cons_of_mem a my))
          (Pairwise-cons.0 sl).1 (Pairwise-cons.0 sr).1
          (Perm.cons_inv (Perm.trans p (Perm.symm (Perm.cons' heads Perm.rfl)))))

  -- Lists with the same elements, each once, have one sorted arrangement.
  pub sort_by-eq_of_members :
      (o : IsOrder) (l r : List A)
      → IsStrictOn l
      → Nodup l
      → Nodup r
      → ((a : A) → Mem a l ↔ Mem a r)
      → sort_by l ≡ sort_by r
  sort_by-eq_of_members o l r strict once once' same =
      let p = sort_by-perm l in
      IsSorted-eq_of_perm o (sort_by l) (sort_by r)
        (λ a b ma mb. strict a b ((Perm.mem_iff p).0 ma) ((Perm.mem_iff p).0 mb))
        (sort_by-IsSorted o l) (sort_by-IsSorted o r)
        (Perm.trans p
          (Perm.trans ((perm_ext_iff_of_Nodup once once').1 same) (Perm.symm (sort_by-perm r))))
