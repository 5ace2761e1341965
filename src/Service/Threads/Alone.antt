-- ===== src/Service/Threads/Alone.antt =====
-- A method of crates/service/src/lib.rs whose critical sections no other thread comes between is the
-- one step that Service.antt takes it for.
use twitter_rust_formal_veri.Prelude.{
  ℕ, zero, suc, ◌==◌, ◌≡◌, refl, sym, ◌∙◌, ap, ap₂, true, false, List, [], ◌∷◌, map, arith,
  if◌then◌else◌, Bool-cases, inl, inr,
}
use twitter_rust_formal_veri.Clock.{Clock}
use twitter_rust_formal_veri.Domain
use twitter_rust_formal_veri.Store
use twitter_rust_formal_veri.Service
use twitter_rust_formal_veri.Service.{Service, from_store, from_domain}
use twitter_rust_formal_veri.Service.Calls
use twitter_rust_formal_veri.Service.Calls.{Call, apply}
use twitter_rust_formal_veri.Service.Threads.{
  Pc, Answer, System, Event, begin, advance, stored, is_ready, step, run, put, log, update_self,
  call-ready,
}

-- Requests one after another: each from its start to its answer before the next begins.
unfoldable pub serial : List (ℕ × Call) → List Event
serial [] = []
serial ((i, c) ∷ requests) =
    Event.call i c ∷ Event.move i ∷ Event.move i ∷ Event.move i ∷ Event.move i ∷ serial requests

module _ {C : Type 0} (k : Clock C) where
  -- What the method, as one step, answers.
  unfoldable pub answer : Call → Service C → Answer
  answer (Call.create_user handle) s = Answer.user (Service.create_user handle s).0
  answer (Call.follow from to) s = Answer.unit (Service.follow from to s).0
  answer (Call.unfollow from to) s = Answer.unit (Service.unfollow from to s).0
  answer (Call.post_tweet author text) s = Answer.tweet (Service.post_tweet k author text s).0
  answer Call.tick s = Answer.ticked

  -- `n` critical sections of one thread, with none of another between.
  abbrev advances : ℕ → Service C → Pc → Service C × Pc
  advances zero s p = (s, p)
  advances (suc n) s p = let (s', p') = advance k s p in advances n s' p'

  advances-begin :
      (c : Call) (s : Service C) → advances 4 s (begin c) ≡ (apply k c s, Pc.done (answer c s))
  unfolding advance begin answer apply stored from_store from_domain Service.create_user
      Service.follow Service.unfollow Service.post_tweet Service.tick Domain.new Store.put_user
      Store.put_follow Store.put_tweet Store.has_user
  advances-begin (Call.create_user []) s = ground arith
  advances-begin (Call.create_user (c ∷ handle)) s = ground arith
  advances-begin (Call.follow from to) s = ground arith
  advances-begin (Call.unfollow from to) s = ground arith
  advances-begin (Call.post_tweet author []) s = ground arith
  advances-begin (Call.post_tweet author (c ∷ text)) s = ground arith
  advances-begin Call.tick s = ground arith

  advance-ready : (s : Service C) (p : Pc) → is_ready p ≡ true → advance k s p ≡ (s, p)
  unfolding advance is_ready
  advance-ready s p e = ground arith

  advances-ready : (n : ℕ) (s : Service C) (p : Pc) → is_ready p ≡ true → advances n s p ≡ (s, p)
  advances-ready zero s p e = refl
  advances-ready (suc n) s p e = rw (advance-ready s p e) (advances-ready n s p e)

  log-unready : (p : Pc) (l : List Answer) → is_ready p ≡ false → log p l ≡ l
  unfolding is_ready
  log-unready p l e = ground arith

  -- The thread `i` moves, `n` times.
  abbrev moves : ℕ → ℕ → List Event
  moves i zero = []
  moves i (suc n) = Event.move i ∷ moves i n

  -- What the thread `i` leaves behind when it moves `n` times in a row.
  record Moved (i n : ℕ) (sys sys' : System C) : Type 0 where
    mem : sys'.mem ≡ (advances n sys.mem (sys.pc i)).0
    self : sys'.pc i ≡ (advances n sys.mem (sys.pc i)).1
    others : (j : ℕ) → (i == j) ≡ false → sys'.pc j ≡ sys.pc j
    answered : sys'.answered ≡ (
        if is_ready (sys.pc i)
        then sys.answered
        else log (advances n sys.mem (sys.pc i)).1 sys.answered)

  step-ready :
      (i : ℕ) (sys : System C) → is_ready (sys.pc i) ≡ true → step k (Event.move i) sys ≡ sys
  unfolding step
  step-ready i sys e = rw e

  step-unready :
      (i : ℕ) (sys : System C)
      → is_ready (sys.pc i) ≡ false
      → step k (Event.move i) sys ≡ put i (advance k sys.mem (sys.pc i)) sys
  unfolding step
  step-unready i sys e = rw e

  run-moves : (i n : ℕ) (sys : System C) → Moved i n sys (run k (moves i n) sys)
  unfolding run
  run-moves i zero sys = record {
    mem = refl;
    self = refl;
    others = λ j e. refl;
    answered = ground (arith, log-unready (sys.pc i) sys.answered);
  }
  run-moves i (suc n) sys = elim (Bool-cases (is_ready (sys.pc i))) [
    | inl e ↦
        let m = run-moves i n sys in
        let same =
          advances-ready n sys.mem (sys.pc i) e
          ∙ sym (advances-ready (suc n) sys.mem (sys.pc i) e) in
        rw (ap (run k (moves i n)) (step-ready i sys e)) (record {
          mem = m.mem ∙ ap (λ (r : Service C × Pc). r.0) same;
          self = m.self ∙ ap (λ (r : Service C × Pc). r.1) same;
          others = m.others;
          answered = ground (arith, m.answered);
        })
    | inr e ↦
        let moved = advance k sys.mem (sys.pc i) in
        let m = run-moves i n (put i moved sys) in
        let here = update_self i (moved.1) sys.pc in
        rw (ap (run k (moves i n)) (step-unready i sys e)) (record {
          mem = rw here at m.mem;
          self = rw here at m.self;
          others = λ j apart. m.others j apart ∙ rw apart;
          answered = ground (
            arith,
            rw here at m.answered,
            advances-ready n (moved.0) (moved.1),
            log-unready (moved.1) sys.answered,
          );
        })
  ]

  AllReady : System C → Type 0
  AllReady sys = (i : ℕ) → is_ready (sys.pc i) ≡ true

  -- One call from its start to its answer.
  record Called (i : ℕ) (c : Call) (sys sys' : System C) : Type 0 where
    mem : sys'.mem ≡ apply k c sys.mem
    answered : sys'.answered ≡ answer c sys.mem ∷ sys.answered
    ready : AllReady sys'

  run-call :
      (i : ℕ) (c : Call) (sys : System C)
      → AllReady sys
      → Called i c sys (run k (moves i 4) (step k (Event.call i c) sys))
  unfolding AllReady is_ready
  run-call i c sys all =
      let m = run-moves i 4 (put i (sys.mem, begin c) sys) in
      let here = update_self i (begin c) sys.pc in
      let finish = advances-begin c sys.mem in
      rw (call-ready k i c sys (all i)) (record {
        mem = rw (here, finish) at m.mem;
        answered = ground (
          arith,
          rw (here, finish) at m.answered,
          finish,
          advances-ready 4 sys.mem (begin c),
          log-unready (begin c) sys.answered,
        );
        ready = λ j. elim (Bool-cases (i == j)) [
          | inl same ↦ ground (arith, rw (here, finish) at m.self)
          | inr apart ↦ ground (arith, m.others j apart, all j)
        ];
      })

  -- What they answer by the methods as one step each, before what was answered.
  unfoldable pub answers : List Call → Service C → List Answer → List Answer
  answers [] s earlier = earlier
  answers (c ∷ calls) s earlier = answers calls (apply k c s) (answer c s ∷ earlier)

  -- Threads that take turns, each call with its critical sections in a row, leave the service and
  -- return the answers that the methods do when each is taken for one step; and all threads end.
  pub run-serial :
      (requests : List (ℕ × Call)) (sys : System C)
      → ((i : ℕ) → is_ready (sys.pc i) ≡ true)
      → let sys' = run k (serial requests) sys in
        let calls = map (λ (r : ℕ × Call). r.1) requests in
        (sys'.mem ≡ Calls.run k calls sys.mem)
        × (sys'.answered ≡ answers calls sys.mem sys.answered)
        × ((i : ℕ) → is_ready (sys'.pc i) ≡ true)
  unfolding AllReady run serial answers Calls.run
  run-serial [] sys all = (refl, refl, all)
  run-serial ((i, c) ∷ requests) sys all =
      let sys' = run k (moves i 4) (step k (Event.call i c) sys) in
      let called = run-call i c sys all in
      let (mem, answered, ready) = run-serial requests sys' called.ready in
      (
        mem ∙ ap (Calls.run k (map (λ r. r.1) requests)) called.mem,
        answered ∙ ap₂ (answers (map (λ r. r.1) requests)) called.mem called.answered,
        ready,
      )
