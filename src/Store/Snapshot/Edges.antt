-- ===== src/Store/Snapshot/Edges.antt =====
-- The edges that `snapshot` of crates/store/src/lib.rs lists: each edge of the state once.
use mathlib.Core.Logic.Iff
use mathlib.Core.Logic.Or
use mathlib.Core.Logic.{∨₁_prop}
use mathlib.Core.HLevel.{×_prop}
use mathlib.Core.List.{
  Mem-prop, mem-cons, mem-cons_self, mem-cons_of_mem, not-mem-nil, Nodup-nil, Nodup-cons,
}
use mathlib.Core.List.Perm
use twitter_rust_formal_veri.Prelude.{
  Str, Str_set, ◌≡◌, refl, sym, ap, ap₂, subst, ◌↔◌, true, none, some, List, [], ◌∷◌, ◌++◌, Mem,
  Nodup, Option-cases, inl, inr,
}
use twitter_rust_formal_veri.Prelude.Gather.{gather, mem-gather, gather-Nodup}
use twitter_rust_formal_veri.Std.HashMap
use twitter_rust_formal_veri.Std.HashMap.{HashMap, Iteration}
use twitter_rust_formal_veri.Std.HashSet
use twitter_rust_formal_veri.Std.HashSet.{HashSet, contains-empty}
use twitter_rust_formal_veri.Domain.{Follow}
use twitter_rust_formal_veri.Store.{Inner, follow_set}
use twitter_rust_formal_veri.Store.Views.{follow_edges}
use twitter_rust_formal_veri.Store.Tidy.{IsTidy}
use twitter_rust_formal_veri.Store.Snapshot.{edges, edges_from}
use twitter_rust_formal_veri.Store.Snapshot.Listed.{mem-walked, walked-Nodup, contains_key_of_get}

mem-edges_from :
    (a : Str) (ks : List Str) (f : Follow) → Mem f (edges_from a ks) ↔ ((f.from ≡ a) × Mem f.to ks)
unfolding edges_from
mem-edges_from a [] f = (λ m. absurd (not-mem-nil m), λ p. absurd (not-mem-nil (p.1)))
mem-edges_from a (k ∷ ks) f =
    let (to, from) = mem-edges_from a ks f in
    (
      λ m.
          Or.elim (×_prop (Str_set _ _) Mem-prop) (mem-cons.0 m)
            (λ same. (
              ap (λ (x : Follow). x.from) same,
              subst (λ (x : Follow). Mem x.to (k ∷ ks)) (sym same) mem-cons_self,
            ))
            λ later. let (own, in_rest) = to later in (own, mem-cons_of_mem k in_rest),
      λ p. mem-cons.1 (
          Or.elim ∨₁_prop (mem-cons.0 (p.1))
            (λ same. Or.inl (ap₂ (λ x y. record { from = x; to = y }) (p.0) same))
            λ later. Or.inr (from (p.0, later))),
    )

edges_from-Nodup : (a : Str) (ks : List Str) → Nodup ks → Nodup (edges_from a ks)
unfolding edges_from
edges_from-Nodup a [] d = Nodup-nil
edges_from-Nodup a (k ∷ ks) d =
    let (fresh, rest) = Nodup-cons.0 d in
    Nodup-cons.1 (
      λ m. fresh ((mem-edges_from a ks (record { from = a; to = k })).0 m).1,
      edges_from-Nodup a ks rest,
    )

module _ (j : Iteration) (follows : HashMap HashSet) where
  -- The edges from one handle.
  abbrev edge_list : Str → List Follow
  edge_list a = elim (HashMap.get follows a) [
    | some set ↦ edges_from a (j.order set.elems)
    | none ↦ []
  ]

  edges-gather : (ks : List Str) → edges j follows ks ≡ gather edge_list ks
  unfolding edges gather
  edges-gather [] = refl
  edges-gather (k ∷ ks) = elim (Option-cases (HashMap.get follows k)) [
    | inl e ↦ rw (e, edges, edge_list) (edges-gather ks)
    | inr (set, e) ↦
        rw (e, edges, edge_list) (ap (λ r. edges_from k (j.order set.elems) ++ r) (edges-gather ks))
  ]

module _ (i j : Iteration) (g : Inner) (t : IsTidy g) where
  mem-edge_list :
      (a : Str) (f : Follow)
      → Mem f (edge_list j g.follows a) ↔ ((f.from ≡ a) × (follow_edges g a f.to ≡ true))
  unfolding follow_edges follow_set
  mem-edge_list a f = elim (Option-cases (HashMap.get g.follows a)) [
    | inl e ↦ rw (e, edge_list) (λ m. absurd (not-mem-nil m), λ p. cc (p.1, contains-empty f.to))
    | inr (set, e) ↦
        let (to, from) = mem-edges_from a (j.order set.elems) f in
        let (held, listed) =
          Iff.trans (Perm.mem_iff (j.perm set.elems)) (HashSet.mem-elems set f.to) in
        rw (e, edge_list)
          (λ m. let (own, in_set) = to m in (own, held in_set), λ p. from (p.0, listed (p.1)))
  ]

  edge_list-Nodup : (a : Str) → Nodup (edge_list j g.follows a)
  unfolding follow_set
  edge_list-Nodup a = elim (Option-cases (HashMap.get g.follows a)) [
    | inl e ↦ rw (e, edge_list) Nodup-nil
    | inr (set, e) ↦
        rw (e, edge_list)
          (edges_from-Nodup a (j.order set.elems)
            (Perm.nodup (Perm.symm (j.perm set.elems)) (rw e at (t.sets a))))
  ]

  edge_own : (a : Str) (f : Follow) → Mem f (edge_list j g.follows a) → f.from ≡ a
  edge_own a f m = ((mem-edge_list a f).0 m).0

  has_set : (a b : Str) → follow_edges g a b ≡ true → HashMap.contains_key g.follows a ≡ true
  unfolding follow_edges follow_set
  has_set a b h = elim (Option-cases (HashMap.get g.follows a)) [
    | inl e ↦ cc (rw e at h, contains-empty b)
    | inr (set, e) ↦ contains_key_of_get g.follows a set e
  ]

  pub mem-edges :
      (f : Follow)
      → Mem f (edges j g.follows (i.order (HashMap.keys g.follows)))
        ↔ (follow_edges g f.from f.to ≡ true)
  mem-edges f = rw (edges-gather j g.follows (i.order (HashMap.keys g.follows))) (
      let (to, from) =
        mem-gather (λ (x : Follow). x.from) (edge_list j g.follows) edge_own
          (i.order (HashMap.keys g.follows)) f in
      let (held, listed) = mem-edge_list f.from f in
      (
        λ m. (held (to m).1).1,
        λ h. from ((mem-walked i g.follows f.from).1 (has_set f.from f.to h), listed (refl, h)),
      ))

  pub edges-Nodup : Nodup (edges j g.follows (i.order (HashMap.keys g.follows)))
  edges-Nodup = rw (edges-gather j g.follows (i.order (HashMap.keys g.follows))) (
      gather-Nodup (λ (x : Follow). x.from) (edge_list j g.follows) edge_own _ edge_list-Nodup
        (walked-Nodup i g.follows t.follows_map))
