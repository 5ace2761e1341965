-- ===== src/Service/Threads/Progress.antt =====
-- No thread of crates/service/src/lib.rs waits for another beyond a lock: a call ends after at most
-- four moves of its own, whatever the others do meanwhile.
use mathlib.Core.List.{mem-cons_self, mem-cons_of_mem}
use twitter_rust_formal_veri.Prelude.{
  ℕ, ◌==◌, ◌-◌, ◌+◌, ◌≤◌, ◌≡◌, ◌≢◌, refl, true, List, [], ◌∷◌, Mem, arith, if◌then◌else◌,
  Bool-cases, inl, inr, subst,
}
use twitter_rust_formal_veri.Clock.{Clock}
use twitter_rust_formal_veri.Domain
use twitter_rust_formal_veri.Service.{Service}
use twitter_rust_formal_veri.Service.Calls.{Call}
use twitter_rust_formal_veri.Service.Threads.{
  Pc, Answer, System, Event, begin, advance, is_ready, step, run, put, log, update_self, call-ready,
}

-- The critical sections that a thread has before it, at most.
unfoldable pub remaining : Pc → ℕ
remaining Pc.idle = 0
remaining (Pc.done answer) = 0
remaining (Pc.numbering_user handle) = 2
remaining (Pc.storing_user u) = 1
remaining (Pc.storing_follow f) = 1
remaining (Pc.checking_from from to) = 3
remaining (Pc.checking_to from to) = 2
remaining (Pc.deleting from to) = 1
remaining (Pc.checking_author author text) = 4
remaining (Pc.numbering_tweet author text) = 3
remaining (Pc.timing_tweet id author text) = 2
remaining (Pc.storing_tweet t) = 1
remaining Pc.ticking = 1

-- How often the thread `i` starts a call, and how often it moves.
unfoldable pub starts : ℕ → List Event → ℕ
starts i [] = 0
starts i (Event.call j c ∷ events) = (if i == j then 1 else 0) + starts i events
starts i (Event.move j ∷ events) = starts i events

unfoldable pub moves : ℕ → List Event → ℕ
moves i [] = 0
moves i (Event.call j c ∷ events) = moves i events
moves i (Event.move j ∷ events) = (if i == j then 1 else 0) + moves i events

remaining-begin : (c : Call) → remaining (begin c) ≤ 4
unfolding remaining begin Domain.new
remaining-begin (Call.create_user handle) = ground arith
remaining-begin (Call.follow from to) = ground arith
remaining-begin (Call.unfollow from to) = ground arith
remaining-begin (Call.post_tweet author text) = ground arith
remaining-begin Call.tick = ground arith

is_ready-eq-true : (p : Pc) → remaining p ≤ 0 → is_ready p ≡ true
unfolding is_ready remaining
is_ready-eq-true p h = ground arith

remaining-eq-zero : (p : Pc) → is_ready p ≡ true → remaining p ≡ 0
unfolding is_ready remaining
remaining-eq-zero p h = ground arith

-- A call that has begun is in progress, or has an answer.
HasStarted : Pc → Type 0
HasStarted p = p ≢ Pc.idle

begin-HasStarted : (c : Call) → HasStarted (begin c)
unfolding HasStarted begin Domain.new
begin-HasStarted (Call.create_user handle) = ground arith
begin-HasStarted (Call.follow from to) = ground arith
begin-HasStarted (Call.unfollow from to) = ground arith
begin-HasStarted (Call.post_tweet author text) = ground arith
begin-HasStarted Call.tick = ground arith

done_of_ready : (p : Pc) → is_ready p ≡ true → HasStarted p → (a : Answer) × (p ≡ Pc.done a)
unfolding HasStarted is_ready
done_of_ready Pc.idle e started = absurd (started refl)
done_of_ready (Pc.done a) e started = (a, refl)
done_of_ready _ e started = absurd (ground arith)

module _ {C : Type 0} (k : Clock C) where
  remaining-advance : (s : Service C) (p : Pc) → remaining (advance k s p).1 ≤ remaining p - 1
  unfolding remaining advance
  remaining-advance s p = ground arith

  advance-HasStarted : (s : Service C) (p : Pc) → HasStarted p → HasStarted (advance k s p).1
  unfolding HasStarted advance
  advance-HasStarted s p started = ground arith

  -- What holds of a thread and of the answers while its call runs.
  record IsRunning (i n : ℕ) (sys : System C) : Type 0 where
    bound : remaining (sys.pc i) ≤ n
    started : HasStarted (sys.pc i)
    logged : (a : Answer) → sys.pc i ≡ Pc.done a → Mem a sys.answered

  mem-log : (p : Pc) (a : Answer) (l : List Answer) → Mem a l → Mem a (log p l)
  mem-log (Pc.done b) a l m = mem-cons_of_mem b m
  mem-log _ a l m = m

  mem-log_self : (p : Pc) (a : Answer) (l : List Answer) → p ≡ Pc.done a → Mem a (log p l)
  mem-log_self p a l e = rw e mem-cons_self

  put-IsRunning :
      (i j n m : ℕ) (s : Service C) (p : Pc) (sys : System C)
      → IsRunning i n sys
      → (i ≡ j → (remaining p ≤ m) × HasStarted p)
      → (i ≢ j → n ≤ m)
      → IsRunning i m (put j (s, p) sys)
  put-IsRunning i j n m s p sys r self other = elim (Bool-cases (j == i)) [
    | inl e ↦
        let (bound, started) = self (ground arith) in
        record {
          bound = rw e bound;
          started = rw e started;
          logged = λ a h. mem-log_self p a sys.answered (rw e at h);
        }
    | inr e ↦ record {
      bound = rw e (omega (arith, r.bound, other (ground arith)));
      started = rw e r.started;
      logged = λ a h. mem-log p a sys.answered (r.logged a (rw e at h));
    }
  ]

  IsRunning-within :
      (i n m : ℕ) (sys : System C)
      → IsRunning i n sys
      → remaining (sys.pc i) ≤ m
      → IsRunning i m sys
  IsRunning-within i n m sys r h = record { bound = h; started = r.started; logged = r.logged }

  step-IsRunning :
      (i n : ℕ) (e : Event) (sys : System C)
      → starts i (e ∷ []) ≡ 0
      → IsRunning i (moves i (e ∷ []) + n) sys
      → IsRunning i n (step k e sys)
  unfolding step starts moves
  step-IsRunning i n (Event.call j c) sys none r = elim (Bool-cases (is_ready (sys.pc j))) [
    | inl e ↦ rw e (
        put-IsRunning i j n n sys.mem (begin c) sys
          (IsRunning-within i _ n sys r (ground (arith, r.bound))) (λ same. absurd (ground arith))
          (λ apart. omega arith))
    | inr e ↦ rw e (IsRunning-within i _ n sys r (ground (arith, r.bound)))
  ]
  step-IsRunning i n (Event.move j) sys none r = elim (Bool-cases (is_ready (sys.pc j))) [
    | inl e ↦
        rw e (IsRunning-within i _ n sys r (ground (arith, r.bound, remaining-eq-zero (sys.pc j))))
    | inr e ↦ rw e (
        put-IsRunning i j (moves i (Event.move j ∷ []) + n) n ((advance k sys.mem (sys.pc j)).0)
          ((advance k sys.mem (sys.pc j)).1) sys r
          (λ same. (
            ground (arith, r.bound, remaining-advance sys.mem (sys.pc j)),
            advance-HasStarted sys.mem (sys.pc j)
                (subst (λ m. HasStarted (sys.pc m)) (same) r.started),
          ))
          (λ apart. ground arith))
  ]

  run-IsRunning :
      (i : ℕ) (events : List Event) (sys : System C)
      → starts i events ≡ 0
      → IsRunning i (moves i events) sys
      → IsRunning i 0 (run k events sys)
  unfolding run starts moves
  run-IsRunning i [] sys none r = r
  run-IsRunning i (Event.call j c ∷ events) sys none r =
      run-IsRunning i events (step k (Event.call j c) sys) (omega arith) (
        step-IsRunning i (moves i events) (Event.call j c) sys (omega arith)
          (IsRunning-within i _ _ sys r (omega (arith, r.bound))))
  run-IsRunning i (Event.move j ∷ events) sys none r =
      run-IsRunning i events (step k (Event.move j) sys) (omega arith) (
        step-IsRunning i (moves i events) (Event.move j) sys refl
          (IsRunning-within i _ _ sys r (omega (arith, r.bound))))

  -- A call that a thread starts between two calls has its answer once the thread has moved four times,
  -- however many calls the other threads start and wherever they stand or stop in them, as long as
  -- it starts no other call; and the answer is among the returned ones.
  pub run-done :
      (i : ℕ) (c : Call) (events : List Event) (sys : System C)
      → is_ready (sys.pc i) ≡ true
      → starts i events ≡ 0
      → 4 ≤ moves i events
      → let sys' = run k (Event.call i c ∷ events) sys in
        (a : Answer) × (sys'.pc i ≡ Pc.done a) × Mem a sys'.answered
  unfolding run
  run-done i c events sys e none enough =
      let here = update_self i (begin c) sys.pc in
      let started : IsRunning i (moves i events) (step k (Event.call i c) sys) =
        rw (call-ready k i c sys e) (record {
          bound = rw here (omega (arith, remaining-begin c));
          started = rw here (begin-HasStarted c);
          logged = λ a h. mem-log_self (begin c) a sys.answered (rw here at h);
        }) in
      let ended = run-IsRunning i events (step k (Event.call i c) sys) none started in
      let (a, is_done) = done_of_ready _ (is_ready-eq-true _ ended.bound) ended.started in
      (a, is_done, ended.logged a is_done)
