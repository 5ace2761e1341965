-- ===== src/Prelude/Gather.antt =====
-- Loops over the keys of a map that append a list for each key.
use mathlib.Core.Logic.Or
use mathlib.Core.Logic.{∨₁_prop}
use mathlib.Core.HLevel.{×_prop}
use mathlib.Core.List.{
  not-mem-nil, mem-cons, mem-cons_self, mem-cons_of_mem, mem-append, Mem-prop, Nodup-nil,
  Nodup-cons, Nodup-append,
}
use twitter_rust_formal_veri.Prelude.{Str, ◌≡◌, ◌↔◌, sym, subst, List, [], ◌∷◌, ◌++◌, Mem, Nodup}

unfoldable pub gather : {T : Type 0} → (Str → List T) → List Str → List T
gather f [] = []
gather f (a ∷ rest) = f a ++ gather f rest

module _ {T : Type 0} (key : T → Str) (f : Str → List T)
    (own : (a : Str) (t : T) → Mem t (f a) → key t ≡ a) where
  gather_sound :
      (authors : List Str) (t : T)
      → Mem t (gather f authors)
      → Mem (key t) authors × Mem t (f (key t))
  unfolding gather
  gather_sound [] t m = absurd (not-mem-nil m)
  gather_sound (a ∷ rest) t m =
      Or.elim (×_prop Mem-prop Mem-prop) (mem-append.0 m)
        (λ here.
          subst (λ b. Mem b (a ∷ rest) × Mem t (f b)) (sym (own a t here)) (mem-cons_self, here))
        λ later. let (k, p) = gather_sound rest t later in (mem-cons_of_mem a k, p)

  gather_complete :
      (authors : List Str) (a : Str) (t : T)
      → Mem a authors
      → Mem t (f a)
      → Mem t (gather f authors)
  unfolding gather
  gather_complete [] a t k m = absurd (not-mem-nil k)
  gather_complete (b ∷ rest) a t k m = mem-append.1 (
      Or.elim ∨₁_prop (mem-cons.0 k) (λ e. Or.inl (rw e at m))
        λ later. Or.inr (gather_complete rest a t later m))

  -- What is collected: the tweets of the lists of exactly the authors given.
  pub mem-gather :
      (authors : List Str) (t : T)
      → Mem t (gather f authors) ↔ (Mem (key t) authors × Mem t (f (key t)))
  mem-gather authors t =
      (gather_sound authors t, λ p. gather_complete authors (key t) t (p.0) (p.1))

  -- Nothing is collected twice.
  pub gather-Nodup :
      (authors : List Str) → ((a : Str) → Nodup (f a)) → Nodup authors → Nodup (gather f authors)
  unfolding gather
  gather-Nodup [] each d = Nodup-nil
  gather-Nodup (a ∷ rest) each d =
      let (fresh, tail) = Nodup-cons.0 d in
      Nodup-append.1 (
        each a,
        gather-Nodup rest each tail,
        λ t here later. fresh (rw (own a t here) at ((gather_sound rest t later).0)),
      )
