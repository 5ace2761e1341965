-- ===== src/Store/Logical.antt =====
-- The logical state of crates/store/src/lib.rs, a store up to the order of its maps and of its sets, and
-- its dump.
use mathlib.Core.HLevel.{hedberg, Σ_prop_path, Σ_set}
use mathlib.Core.Equiv.{IsEquiv}
use mathlib.Core.Logic.Iff
use mathlib.Core.Logic.{∥∥₁_elim}
use mathlib.Core.Quot.{Setoid, Quotient, Quotient-set}
use mathlib.Core.Quot.Quotient
use mathlib.Mathlib.Logic.Equiv.Defs.{of_bijective}
use twitter_rust_formal_veri.Prelude.{ℤ-discrete, Str-discrete, ◌≡◌, refl, sym, ap, ◌∙◌}
use twitter_rust_formal_veri.Std.HashMap.{Iteration}
use twitter_rust_formal_veri.Store.{Inner}
use twitter_rust_formal_veri.Store.Snapshot.{StoreSnapshot, snapshot, replace}
use twitter_rust_formal_veri.Store.Snapshot.Same.{IsSane, SameState, snapshot-same}
use twitter_rust_formal_veri.Store.Snapshot.Restored.{restored-SameState}

-- A store as the requests leave it
abbrev pub SaneStore : Type 0
SaneStore = (g : Inner) × IsSane g

pub SameState-symm : (g h : Inner) → SameState g h → SameState h g
SameState-symm g h p = record {
  users = λ a. sym (p.users a);
  edges = λ a b. sym (p.edges a b);
  tweets = λ a t. Iff.symm (p.tweets a t);
}

pub SameState-trans : (g h k : Inner) → SameState g h → SameState h k → SameState g k
SameState-trans g h k p q = record {
  users = λ a. p.users a ∙ q.users a;
  edges = λ a b. p.edges a b ∙ q.edges a b;
  tweets = λ a t. Iff.trans (p.tweets a t) (q.tweets a t);
}

abbrev pub alike : Setoid {0, 0} SaneStore
alike = record {
  r = λ x y. SameState x.0 y.0;
  iseqv = record {
    refl = λ x. record { users = λ a. refl; edges = λ a b. refl; tweets = λ a t. (λ m. m, λ m. m) };
    symm = λ x y. SameState-symm x.0 y.0;
    trans = λ x y z. SameState-trans x.0 y.0 z.0;
  };
}

abbrev pub LogicalState : Type 0
LogicalState = Quotient alike

pub StoreSnapshot_set : IsSet StoreSnapshot
StoreSnapshot_set = hedberg (hlevel (ℤ-discrete, Str-discrete))

module _ (i j k l : Iteration) where
  -- The dump of a logical state
  unfoldable pub dump : LogicalState → StoreSnapshot
  dump =
      Quotient.lift alike StoreSnapshot_set (λ x. snapshot i j k l x.0)
        λ x y same. snapshot-same i j k l i j k l x.0 y.0 x.1 y.1 same

  pub dump-mk : (x : SaneStore) → dump (Quotient.mk alike x) ≡ snapshot i j k l x.0
  unfolding dump Quotient.lift
  dump-mk x = refl

-- What a dump restores is the store it was taken of.
same_of_snapshot :
    (i j k l : Iteration) (x y : SaneStore)
    → snapshot i j k l x.0 ≡ snapshot i j k l y.0
    → SameState x.0 y.0
same_of_snapshot i j k l x y e =
    SameState-trans x.0 (replace (snapshot i j k l x.0) x.0) y.0
      (SameState-symm _ x.0 (restored-SameState i j k l x.0 x.1 x.0))
      (rw e (restored-SameState i j k l y.0 y.1 x.0))

module _ (i j k l : Iteration) where
  dump-Injective : (p q : LogicalState) → dump i j k l p ≡ dump i j k l q → p ≡ q
  dump-Injective =
      Quotient.ind₂ alike alike {motive = λ p q. dump i j k l p ≡ dump i j k l q → p ≡ q}
        (λ p q. hlevel (Quotient-set alike))
        λ x y e.
          Quotient.sound alike
            (same_of_snapshot i j k l x y (sym (dump-mk i j k l x) ∙ e ∙ dump-mk i j k l y))

-- A snapshot that is a dump of some store the requests left
abbrev pub Dumped : Iteration → Iteration → Iteration → Iteration → Type 0
Dumped i j k l = (s : StoreSnapshot) × ∥ ((x : SaneStore) × snapshot i j k l x.0 ≡ s) ∥₁

Dumped-set : (i j k l : Iteration) → IsSet (Dumped i j k l)
Dumped-set i j k l = Σ_set StoreSnapshot_set λ s. hlevel

module _ (i j k l : Iteration) where
  abbrev pub dump_of : LogicalState → Dumped i j k l
  dump_of q = (
    dump i j k l q,
    Quotient.ind alike
        {motive = λ q. ∥ ((x : SaneStore) × snapshot i j k l x.0 ≡ dump i j k l q) ∥₁} (λ q. hlevel)
        (λ x. ∣ (x, sym (dump-mk i j k l x)) ∣₁) q,
  )

  dump_of-Injective : (p q : LogicalState) → dump_of p ≡ dump_of q → p ≡ q
  dump_of-Injective p q e = dump-Injective i j k l p q (ap (λ d. d.0) e)

  dump_of-Surjective : (d : Dumped i j k l) → ∥ ((q : LogicalState) × dump_of q ≡ d) ∥₁
  dump_of-Surjective (s, some_store) =
      ∥∥₁_elim some_store (hlevel)
        λ p. ∣ (Quotient.mk alike p.0, Σ_prop_path (λ t. hlevel) (dump-mk i j k l p.0 ∙ p.1)) ∣₁

-- The logical states are the dumps, each the dump of one state and every dump of one, and a dump does not
-- depend on the orders in which the maps and the sets are walked.
pub dump_of-IsEquiv :
    (i j k l i' j' k' l' : Iteration) (q : LogicalState)
    → IsEquiv (dump_of i j k l) × (dump i j k l q ≡ dump i' j' k' l' q)
dump_of-IsEquiv i j k l i' j' k' l' q = (
  (of_bijective (Dumped-set i j k l) (dump_of i j k l)
      (dump_of-Injective i j k l, dump_of-Surjective i j k l)).1,
  Quotient.ind alike {motive = λ q. dump i j k l q ≡ dump i' j' k' l' q}
      (λ q. StoreSnapshot_set _ _)
      (λ x.
        dump-mk i j k l x
        ∙ snapshot-same i j k l i' j' k' l' x.0 x.0 x.1 x.1 (alike.iseqv.refl x)
        ∙ sym (dump-mk i' j' k' l' x))
      q,
)
