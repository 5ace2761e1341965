-- ===== src/Service/Threads/Dumps/Alone.antt =====
-- A dump or a load of crates/service/src/lib.rs whose four sections no request comes between.

use twitter_rust_formal_veri.Prelude.{ℕ, ◌≡◌, refl, ◌∙◌, ap, true, false, List, [], ◌∷◌, arith}
use twitter_rust_formal_veri.Std.HashMap.{Iteration}
use twitter_rust_formal_veri.Clock.{Clock}
use twitter_rust_formal_veri.Service.Snapshot.{ServiceState, load_state, snapshot_state}
use twitter_rust_formal_veri.Service.Threads.{System}
use twitter_rust_formal_veri.Service.Threads.Dumps.{
  AdminPc, AdminCall, Shared, Action, seat, is_free, begin_admin, advance_admin, act, act_all,
}

seat_self : (a : ℕ) (p : AdminPc) (admins : ℕ → AdminPc) → seat a p admins a ≡ p
seat_self a p admins = ground arith

module _ {C : Type 0} (k : Clock C) (i j m l : Iteration) where
  -- The administrator `a` stands at `p`, and the threads at `t`.
  pub record IsAt (a : ℕ) (p : AdminPc) (t : System C) (sys : Shared C) : Type 0 where
    pub admin : sys.admins a ≡ p
    pub threads : sys.threads ≡ t

  pub call-IsAt :
      (a : ℕ) (c : AdminCall) (sys : Shared C)
      → is_free (sys.admins a) ≡ true
      → IsAt a (begin_admin c) sys.threads (act k i j m l (Action.admin_call a c) sys)
  unfolding act
  call-IsAt a c sys e =
      rw e (record { admin = seat_self a (begin_admin c) sys.admins; threads = refl })

  pub move-IsAt :
      (a : ℕ) (p : AdminPc) (t : System C) (sys : Shared C)
      → is_free p ≡ false
      → IsAt a p t sys
      → let (s, q) = advance_admin k i j m l t.mem p in
        IsAt a q (record t { mem = s }) (act k i j m l (Action.admin_move a) sys)
  unfolding act
  move-IsAt a p t sys busy here =
      rw (here.admin, busy)
        (record {
          admin =
              seat_self a _ sys.admins
              ∙ ap (λ (t : System C). (advance_admin k i j m l t.mem p).1) here.threads;
          threads =
              ap (λ (t : System C). record t { mem = (advance_admin k i j m l t.mem p).0 })
                here.threads;
        })

  abbrev pub in_a_row : ℕ → AdminCall → List Action
  in_a_row a c =
      Action.admin_call a c
      ∷ Action.admin_move a
      ∷ Action.admin_move a
      ∷ Action.admin_move a
      ∷ Action.admin_move a
      ∷ []

  -- A load whose sections come in a row leaves what `load_state` as one step leaves.
  load_lem :
      (a : ℕ) (state : ServiceState) (sys : Shared C)
      → is_free (sys.admins a) ≡ true
      → IsAt a AdminPc.loaded
          (record sys.threads { mem = load_state k state sys.threads.mem })
          (act_all k i j m l (in_a_row a (AdminCall.load_state state)) sys)
  unfolding act_all advance_admin begin_admin is_free load_state
  load_lem a state sys e = move-IsAt a _ _ _ refl (
      move-IsAt a _ _ _ refl (
        move-IsAt a _ _ _ refl (
          move-IsAt a (AdminPc.loading_store state) sys.threads _ refl
            (call-IsAt a (AdminCall.load_state state) sys e))))

  -- A dump whose sections come in a row is what `snapshot_state` as one step gives.
  dump_lem :
      (a : ℕ) (sys : Shared C)
      → is_free (sys.admins a) ≡ true
      → IsAt a
          (AdminPc.dumped (snapshot_state k i j m l sys.threads.mem))
          sys.threads
          (act_all k i j m l (in_a_row a AdminCall.snapshot_state) sys)
  unfolding act_all advance_admin begin_admin is_free snapshot_state
  dump_lem a sys e = move-IsAt a _ _ _ refl (
      move-IsAt a _ _ _ refl (
        move-IsAt a _ _ _ refl (
          move-IsAt a AdminPc.reading_clock sys.threads _ refl
            (call-IsAt a AdminCall.snapshot_state sys e))))
