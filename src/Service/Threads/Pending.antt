-- ===== src/Service/Threads/Pending.antt =====
-- Identifiers in crates/service/src/lib.rs that a thread has drawn and not stored yet.
use twitter_rust_formal_veri.Prelude.{
  ℕ, ◌==◌, ℤ, ◌≤ℤ◌, ◌<ℤ◌, ◌≡◌, ◌≢◌, ap, sym, ◌∙◌, ◌⊎◌, Option, none, some, arith, Bool-cases, inl,
  inr, ==_iff,
}
use twitter_rust_formal_veri.Service.Threads.{Pc, update}

-- `pending` is the identifier that a thread holds, `count` the generator's counter, and `New` says of an
-- identifier that the store has it not.
module _ (pending : Pc → Option ℤ) where
  pub record AreApart (count : ℤ) (New : ℤ → Type 0) (pc : ℕ → Pc) : Type 0 where
    pub issued : (i : ℕ) (id : ℤ) → pending (pc i) ≡ some id → id ≤ℤ count
    pub new : (i : ℕ) (id : ℤ) → pending (pc i) ≡ some id → New id
    pub apart : (i j : ℕ) (id : ℤ) → pending (pc i) ≡ some id → pending (pc j) ≡ some id → i ≡ j

  -- What a move from `p` to `p'` does to the identifiers.
  pub record Moves (count count' : ℤ) (New New' : ℤ → Type 0) (p p' : Pc) : Type 0 where
    pub grow : count ≤ℤ count'
    pub drawn :
        (id : ℤ) → pending p' ≡ some id → (pending p ≡ some id) ⊎ ((count <ℤ id) × (id ≤ℤ count'))
    pub fresh : (id : ℤ) → count <ℤ id → New id
    pub stays : (id : ℤ) → New id → (pending p ≡ some id → pending p' ≡ some id) → New' id

  module _ (i : ℕ) (p' : Pc) (pc : ℕ → Pc) (count count' : ℤ) (New New' : ℤ → Type 0)
      (old : AreApart count New pc) (m : Moves count count' New New' (pc i) p') where
    -- The identifier of a thread after the move is its own from before, or was drawn by the move.
    origin :
        (j : ℕ) (id : ℤ)
        → pending (update i p' pc j) ≡ some id
        → (pending (pc j) ≡ some id) ⊎ ((i ≡ j) × (count <ℤ id) × (id ≤ℤ count'))
    origin j id e = elim (Bool-cases (i == j)) [
      | inl same ↦
          let at_i : i ≡ j = (==_iff i j).0 same in
          elim (m.drawn id (rw same at e)) [
            | inl own ↦ inl (rw (← at_i) own)
            | inr (above, below) ↦ inr (at_i, above, below)
          ]
      | inr other ↦ inl (rw other at e)
    ]

    still_new : (j : ℕ) (id : ℤ) → pending (update i p' pc j) ≡ some id → New id → New' id
    still_new j id e new = elim (Bool-cases (i == j)) [
      | inl same ↦ m.stays id new (λ own. rw same at e)
      | inr other ↦
          m.stays id new (λ own. absurd (ground (arith, old.apart i j id own (rw other at e))))
    ]

    pub update-AreApart : AreApart count' New' (update i p' pc)
    update-AreApart = record {
      issued = λ j id e. elim (origin j id e) [
        | inl own ↦ omega (arith, old.issued j id own, m.grow)
        | inr (_, _, below) ↦ below
      ];
      new = λ j id e. still_new j id e (elim (origin j id e) [
        | inl own ↦ old.new j id own
        | inr (_, above, _) ↦ m.fresh id above
      ]);
      apart = λ j j' id e e'. elim (origin j id e) [
        | inl own ↦ elim (origin j' id e') [
          | inl own' ↦ old.apart j j' id own own'
          | inr (_, above, _) ↦ absurd (omega (arith, old.issued j id own))
        ]
        | inr (at_j, above, _) ↦ elim (origin j' id e') [
          | inl own' ↦ absurd (omega (arith, old.issued j' id own'))
          | inr (at_j', _, _) ↦ sym at_j ∙ at_j'
        ]
      ];
    }

  -- A move that neither draws nor stores such an identifier.
  pub quiet-Moves :
      (count : ℤ) (New New' : ℤ → Type 0) (p p' : Pc)
      → pending p' ≡ pending p
      → ((id : ℤ) → count <ℤ id → New id)
      → ((id : ℤ) → New id → New' id)
      → Moves count count New New' p p'
  quiet-Moves count New New' p p' same fresh keep = record {
    grow = omega arith;
    drawn = λ id e. inl (sym same ∙ e);
    fresh = fresh;
    stays = λ id new own. keep id new;
  }

  -- A move that draws the next one.
  pub drawing-Moves :
      (count count' : ℤ) (New : ℤ → Type 0) (p p' : Pc)
      → count <ℤ count'
      → pending p ≡ none
      → pending p' ≡ some count'
      → ((id : ℤ) → count <ℤ id → New id)
      → Moves count count' New New p p'
  drawing-Moves count count' New p p' grow before is_count fresh = record {
    grow = omega arith;
    drawn = λ id e. inr (ground arith, ground arith);
    fresh = fresh;
    stays = λ id new own. new;
  }

  -- A move that stores its own.
  pub storing-Moves :
      (count id : ℤ) (New New' : ℤ → Type 0) (p p' : Pc)
      → pending p ≡ some id
      → pending p' ≡ none
      → ((other : ℤ) → count <ℤ other → New other)
      → ((other : ℤ) → New other → other ≢ id → New' other)
      → Moves count count New New' p p'
  storing-Moves count id New New' p p' own gone fresh keep = record {
    grow = omega arith;
    drawn = λ other e. absurd (ground arith);
    fresh = fresh;
    stays = λ other new still.
        keep other new (λ same. absurd (ground (arith, still (own ∙ ap some (sym same)))));
  }
