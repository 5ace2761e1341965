-- ===== src/Store/Snapshot/Rebuilt.antt =====
-- What the lists of a snapshot of crates/store/src/lib.rs say of one handle, one edge and one author.

use mathlib.Core.Logic.Or
use mathlib.Core.Logic.{∨₁_prop}
use mathlib.Core.HLevel.{×_prop}
use mathlib.Core.List.{
  Mem-prop, mem-cons, mem-cons_self, mem-cons_of_mem, not-mem-nil, Nodup-nil, Nodup-cons,
}
use twitter_rust_formal_veri.Prelude.{
  Str, Str_set, str_eq, str_eq_iff, ◌≡◌, refl, sym, ap, ap₂, ◌↔◌, Bool_set, true, ◌&&◌, Option,
  some, List, [], ◌∷◌, Mem, Nodup, arith, Bool-cases, inl, inr,
}
use twitter_rust_formal_veri.Domain.{User, Tweet, Follow}
use twitter_rust_formal_veri.Store.Snapshot.Replaced.{last_user, has_follow, tweets_by}

-- If every listed user of the handle is the one at hand, the list has no other say.
pub last_user_kept :
    (h : Str) (us : List User) (o : Option User)
    → ((u : User) → Mem u us → u.handle ≡ h → o ≡ some u)
    → last_user h us o ≡ o
unfolding last_user
last_user_kept h [] o all = refl
last_user_kept h (x ∷ us) o all = elim (Bool-cases (str_eq x.handle h)) [
  | inl e ↦
      let same = all x mem-cons_self ((str_eq_iff x.handle h).0 e) in
      rw (e, ← same) (last_user_kept h us o (λ u m. all u (mem-cons_of_mem x m)))
  | inr e ↦ rw e (last_user_kept h us o (λ u m. all u (mem-cons_of_mem x m)))
]

pub last_user_found :
    (h : Str) (us : List User) (old : Option User) (u : User)
    → ((v : User) → Mem v us → v.handle ≡ h → some u ≡ some v)
    → Mem u us
    → u.handle ≡ h
    → last_user h us old ≡ some u
unfolding last_user
last_user_found h [] old u all m own = absurd (not-mem-nil m)
last_user_found h (x ∷ us) old u all m own = elim (Bool-cases (str_eq x.handle h)) [
  | inl e ↦
      let same = all x mem-cons_self ((str_eq_iff x.handle h).0 e) in
      rw (e, ← same) (last_user_kept h us (some u) (λ v n. all v (mem-cons_of_mem x n)))
  | inr e ↦ rw e (
      last_user_found h us old u (λ v n. all v (mem-cons_of_mem x n))
        (Or.elim Mem-prop (mem-cons.0 m)
          (λ same. absurd (ground (arith, str_eq_iff x.handle h, ap (λ (v : User). v.handle) same)))
          λ later. later)
        own)
]

pub mem-has_follow :
    (a b : Str) (fs : List Follow)
    → Mem (record { from = a; to = b }) fs ↔ (has_follow a b fs ≡ true)
unfolding has_follow
mem-has_follow a b [] = (λ m. absurd (not-mem-nil m), λ e. cc)
mem-has_follow a b (f ∷ fs) =
    let (to, from) = mem-has_follow a b fs in
    (
      λ m.
          Or.elim (Bool_set _ _) (mem-cons.0 m)
            (λ same. ground (
              arith,
              str_eq_iff f.from a,
              str_eq_iff f.to b,
              ap (λ (x : Follow). x.from) same,
              ap (λ (x : Follow). x.to) same,
            ))
            λ later. ground (arith, to later),
      λ e. mem-cons.1 (elim (Bool-cases (str_eq f.from a && str_eq f.to b)) [
        | inl here ↦ Or.inl (
            ap₂ (λ x y. record { from = x; to = y }) (sym ((str_eq_iff f.from a).0 (ground arith)))
              (sym ((str_eq_iff f.to b).0 (ground arith))))
        | inr other ↦ Or.inr (from (ground arith))
      ]),
    )

pub mem-tweets_by :
    (a : Str) (ts : List Tweet) (t : Tweet) → Mem t (tweets_by a ts) ↔ ((t.author ≡ a) × Mem t ts)
unfolding tweets_by
mem-tweets_by a [] t = (λ m. absurd (not-mem-nil m), λ p. absurd (not-mem-nil (p.1)))
mem-tweets_by a (x ∷ ts) t =
    let (to, from) = mem-tweets_by a ts t in
    elim (Bool-cases (str_eq x.author a)) [
      | inl e ↦ rw e (
        λ m.
            Or.elim (×_prop (Str_set _ _) Mem-prop) (mem-cons.0 m)
              (λ same. (rw same ((str_eq_iff x.author a).0 e), mem-cons.1 (Or.inl same)))
              λ later. let (own, listed) = to later in (own, mem-cons_of_mem x listed),
        λ p.
            mem-cons.1
              (Or.elim ∨₁_prop (mem-cons.0 (p.1)) Or.inl λ later. Or.inr (from (p.0, later))),
      )
      | inr e ↦ rw e (
        λ m. let (own, listed) = to m in (own, mem-cons_of_mem x listed),
        λ p. from (
          p.0,
          Or.elim Mem-prop (mem-cons.0 (p.1))
              (λ same.
                absurd
                  (ground (arith, str_eq_iff x.author a, ap (λ (w : Tweet). w.author) same, p.0)))
              λ later. later,
        ),
      )
    ]

pub tweets_by-Nodup : (a : Str) (ts : List Tweet) → Nodup ts → Nodup (tweets_by a ts)
unfolding tweets_by
tweets_by-Nodup a [] d = Nodup-nil
tweets_by-Nodup a (x ∷ ts) d =
    let (fresh, rest) = Nodup-cons.0 d in
    elim (Bool-cases (str_eq x.author a)) [
      | inl e ↦
          rw e (Nodup-cons.1 (λ m. fresh ((mem-tweets_by a ts x).0 m).1, tweets_by-Nodup a ts rest))
      | inr e ↦ rw e (tweets_by-Nodup a ts rest)
    ]
