-- ===== src/Service/Threads/Dumps/Orderly.antt =====
-- Requests, dumps and loads of crates/service/src/lib.rs at once: what the store keeps.
use twitter_rust_formal_veri.Prelude.{
  ℕ, ◌==◌, str_eq, ◌≡◌, false, List, [], ◌∷◌, Bool-cases, inl, inr,
}
use twitter_rust_formal_veri.Std.HashMap.{Iteration}
use twitter_rust_formal_veri.Clock.{Clock}
use twitter_rust_formal_veri.Domain
use twitter_rust_formal_veri.Store
use twitter_rust_formal_veri.Store.Valid.{
  IsValid, IsValid-new, put_user-IsValid, put_follow-IsValid, delete_follow-IsValid,
  put_tweet-IsValid,
}
use twitter_rust_formal_veri.Store.Snapshot.Closed.{IsClosed, replace-IsValid, snapshot-IsClosed}
use twitter_rust_formal_veri.Service
use twitter_rust_formal_veri.Service.{Service}
use twitter_rust_formal_veri.Service.Calls.{Call}
use twitter_rust_formal_veri.Service.Snapshot.{
  load_store, load_user_ids, load_tweet_ids, load_clock,
}
use twitter_rust_formal_veri.Service.Threads
use twitter_rust_formal_veri.Service.Threads.{
  Pc, System, Event, begin, advance, is_ready, put, start,
}
use twitter_rust_formal_veri.Service.Threads.Dumps.{
  AdminPc, AdminCall, Shared, Action, is_free, begin_admin, advance_admin, put_admin, act, act_all,
}

-- A thread about to store an edge has checked that it joins two handles.
abbrev pub IsApart : Pc → Type 0
IsApart (Pc.storing_follow f) = str_eq f.from f.to ≡ false
IsApart _ = Unit {0}

-- The state that an administrator has dumped, or is about to put in place, is closed.
abbrev pub HoldsClosed : AdminPc → Type 0
HoldsClosed (AdminPc.dumped state) = IsClosed state.store
HoldsClosed (AdminPc.loading_store state) = IsClosed state.store
HoldsClosed _ = Unit {0}

pub record IsOrderly {C : Type 0} (sys : Shared C) : Type 0 where
  pub valid : IsValid sys.threads.mem.st
  pub apart : (n : ℕ) → IsApart (sys.threads.pc n)
  pub closed : (a : ℕ) → HoldsClosed (sys.admins a)

-- The states that are loaded are closed.
abbrev pub LoadsClosed : List Action → Type 0
LoadsClosed [] = Unit {0}
LoadsClosed (Action.admin_call a (AdminCall.load_state state) ∷ actions) =
    IsClosed state.store × LoadsClosed actions
LoadsClosed (_ ∷ actions) = LoadsClosed actions

begin-IsApart : (c : Call) → IsApart (begin c)
unfolding begin Domain.new
begin-IsApart (Call.create_user []) = tt
begin-IsApart (Call.create_user (c ∷ handle)) = tt
begin-IsApart (Call.follow from to) = elim (Bool-cases (str_eq from to)) [
  | inl e ↦ rw (e, IsApart) tt
  | inr e ↦ rw (e, IsApart) e
]
begin-IsApart (Call.unfollow from to) = tt
begin-IsApart (Call.post_tweet author []) = tt
begin-IsApart (Call.post_tweet author (c ∷ text)) = tt
begin-IsApart Call.tick = tt

module _ {C : Type 0} (k : Clock C) where
  advance-IsValid :
      (s : Service C) (p : Pc)
      → IsValid s.st
      → IsApart p
      → IsValid (advance k s p).0.st × IsApart (advance k s p).1
  unfolding advance
  advance-IsValid s Pc.idle v apart = (v, tt)
  advance-IsValid s (Pc.done answer) v apart = (v, tt)
  advance-IsValid s (Pc.numbering_user handle) v apart = (v, tt)
  advance-IsValid s (Pc.storing_user u) v apart = (put_user-IsValid u s.st v, tt)
  advance-IsValid s (Pc.storing_follow f) v apart = (put_follow-IsValid f s.st apart v, tt)
  advance-IsValid s (Pc.checking_from from to) v apart =
      elim (Bool-cases (Store.has_user s.st from)) [ inl e ↦ rw e (v, tt) | inr e ↦ rw e (v, tt) ]
  advance-IsValid s (Pc.checking_to from to) v apart = elim (Bool-cases (Store.has_user s.st to)) [
    | inl e ↦ rw e (v, tt)
    | inr e ↦ rw e (v, tt)
  ]
  advance-IsValid s (Pc.deleting from to) v apart = (delete_follow-IsValid from to s.st v, tt)
  advance-IsValid s (Pc.checking_author author text) v apart =
      elim (Bool-cases (Store.has_user s.st author)) [ inl e ↦ rw e (v, tt) | inr e ↦ rw e (v, tt) ]
  advance-IsValid s (Pc.numbering_tweet author text) v apart = (v, tt)
  advance-IsValid s (Pc.timing_tweet id author text) v apart = (v, tt)
  advance-IsValid s (Pc.storing_tweet t) v apart = (put_tweet-IsValid t s.st v, tt)
  advance-IsValid s Pc.ticking v apart = (v, tt)

  put-IsOrderly :
      (n : ℕ) (s : Service C) (p : Pc) (sys : Shared C)
      → IsOrderly sys
      → IsValid s.st × IsApart p
      → IsOrderly (record sys { threads = put n (s, p) sys.threads })
  put-IsOrderly n s p sys o (v, apart) = record {
    valid = v;
    apart = λ m. elim (Bool-cases (n == m)) [
      | inl e ↦ rw (e, IsApart) apart
      | inr e ↦ rw (e, IsApart) (o.apart m)
    ];
    closed = o.closed;
  }

  request-IsOrderly :
      (e : Event) (sys : Shared C)
      → IsOrderly sys
      → IsOrderly (record sys { threads = Threads.step k e sys.threads })
  unfolding Threads.step
  request-IsOrderly (Event.call n c) sys o = elim (Bool-cases (is_ready (sys.threads.pc n))) [
    | inl e ↦ rw e (put-IsOrderly n sys.threads.mem (begin c) sys o (o.valid, begin-IsApart c))
    | inr e ↦ rw e o
  ]
  request-IsOrderly (Event.move n) sys o = elim (Bool-cases (is_ready (sys.threads.pc n))) [
    | inl e ↦ rw e o
    | inr e ↦ rw e (
        put-IsOrderly n _ _ sys o
          (advance-IsValid sys.threads.mem (sys.threads.pc n) o.valid (o.apart n)))
  ]

  module _ (i j m l : Iteration) where
    admin-IsValid :
        (s : Service C) (p : AdminPc)
        → IsValid s.st
        → HoldsClosed p
        → IsValid (advance_admin k i j m l s p).0.st × HoldsClosed (advance_admin k i j m l s p).1
    unfolding advance_admin load_store load_user_ids load_tweet_ids load_clock
    admin-IsValid s AdminPc.idle v c = (v, tt)
    admin-IsValid s AdminPc.loaded v c = (v, tt)
    admin-IsValid s (AdminPc.dumped state) v c = (v, c)
    admin-IsValid s AdminPc.reading_clock v c = (v, tt)
    admin-IsValid s (AdminPc.reading_user_ids now) v c = (v, tt)
    admin-IsValid s (AdminPc.reading_tweet_ids now users) v c = (v, tt)
    admin-IsValid s (AdminPc.reading_store now users tweets) v c =
        (v, snapshot-IsClosed i j m l s.st v)
    admin-IsValid s (AdminPc.loading_store state) v c = (replace-IsValid state.store s.st c, tt)
    admin-IsValid s (AdminPc.loading_user_ids state) v c = (v, tt)
    admin-IsValid s (AdminPc.loading_tweet_ids state) v c = (v, tt)
    admin-IsValid s (AdminPc.loading_clock state) v c = (v, tt)

    put_admin-IsOrderly :
        (a : ℕ) (s : Service C) (p : AdminPc) (sys : Shared C)
        → IsOrderly sys
        → IsValid s.st × HoldsClosed p
        → IsOrderly (put_admin k i j m l a (s, p) sys)
    put_admin-IsOrderly a s p sys o (v, c) = record {
      valid = v;
      apart = o.apart;
      closed = λ b. elim (Bool-cases (a == b)) [
        | inl e ↦ rw (e, HoldsClosed) c
        | inr e ↦ rw (e, HoldsClosed) (o.closed b)
      ];
    }

    call-IsOrderly :
        (a : ℕ) (c : AdminCall) (sys : Shared C)
        → HoldsClosed (begin_admin c)
        → IsOrderly sys
        → IsOrderly (act k i j m l (Action.admin_call a c) sys)
    unfolding act
    call-IsOrderly a c sys closed o = elim (Bool-cases (is_free (sys.admins a))) [
      | inl e ↦ rw e (put_admin-IsOrderly a sys.threads.mem (begin_admin c) sys o (o.valid, closed))
      | inr e ↦ rw e o
    ]

    move-IsOrderly :
        (a : ℕ) (sys : Shared C)
        → IsOrderly sys
        → IsOrderly (act k i j m l (Action.admin_move a) sys)
    unfolding act
    move-IsOrderly a sys o = elim (Bool-cases (is_free (sys.admins a))) [
      | inl e ↦ rw e o
      | inr e ↦ rw e (
          put_admin-IsOrderly a _ _ sys o
            (admin-IsValid sys.threads.mem (sys.admins a) o.valid (o.closed a)))
    ]

    -- Requests, dumps and loads in any interleaving of their critical sections, where each state that
    -- is loaded is closed: the store stays valid, with no edge or tweet of an unregistered handle and
    -- nobody who follows himself, a thread about to store an edge still has two handles, and every
    -- dump that was taken is closed, so that it can be loaded in turn.
    pub act_all-IsOrderly :
        (actions : List Action) (sys : Shared C)
        → LoadsClosed actions
        → IsOrderly sys
        → IsOrderly (act_all k i j m l actions sys)
    unfolding act_all act begin_admin
    act_all-IsOrderly [] sys loads o = o
    act_all-IsOrderly (Action.request e ∷ actions) sys loads o =
        act_all-IsOrderly actions _ loads (request-IsOrderly e sys o)
    act_all-IsOrderly (Action.admin_call a AdminCall.snapshot_state ∷ actions) sys loads o =
        act_all-IsOrderly actions _ loads (call-IsOrderly a AdminCall.snapshot_state sys tt o)
    act_all-IsOrderly (Action.admin_call a (AdminCall.load_state state) ∷ actions) sys (c, loads)
          o =
        act_all-IsOrderly actions _ loads (call-IsOrderly a (AdminCall.load_state state) sys c o)
    act_all-IsOrderly (Action.admin_move a ∷ actions) sys loads o =
        act_all-IsOrderly actions _ loads (move-IsOrderly a sys o)

-- A fresh service with no call begun and no administrator at work.
abbrev pub quiet : {C : Type 0} → C → Shared C
quiet c = record { threads = start c; admins = λ a. AdminPc.idle }

pub quiet-IsOrderly : {C : Type 0} (c : C) → IsOrderly (quiet c)
unfolding start Service.new_with_clock
quiet-IsOrderly c = record { valid = IsValid-new; apart = λ n. tt; closed = λ a. tt }
