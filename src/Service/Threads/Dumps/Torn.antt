-- ===== src/Service/Threads/Dumps/Torn.antt =====
-- Requests between the sections of `snapshot_state` of crates/service/src/lib.rs, which reads the two
-- counters before the store.
use mathlib.Core.List.{mem-append, mem-cons_self}
use mathlib.Core.Logic.Or
use twitter_rust_formal_veri.Prelude.{
  ok, ◌<ℤ◌, ℕ, Str, str_eq_refl, is_empty, ◌≡◌, ◌≢◌, refl, sym, ◌∙◌, ap, true, false, List, [], ◌∷◌,
  ◌++◌, map, Mem, incr,
}
use twitter_rust_formal_veri.Std.HashMap.{Iteration}
use twitter_rust_formal_veri.Clock.{Clock}
use twitter_rust_formal_veri.Clock.Monotone.{Fits}
use twitter_rust_formal_veri.Ids
use twitter_rust_formal_veri.Domain.{Tweet}
use twitter_rust_formal_veri.Store.Snapshot
use twitter_rust_formal_veri.Store.Snapshot.Same.{IsSane}
use twitter_rust_formal_veri.Store.Snapshot.Restored.{restored-SameState}
use twitter_rust_formal_veri.Store.Unique.{HasUniqueIds}
use twitter_rust_formal_veri.Store.Views.{posts, users_keys}
use twitter_rust_formal_veri.Service.{Service, post_tweet}
use twitter_rust_formal_veri.Service.Calls
use twitter_rust_formal_veri.Service.Calls.{Call, tweet_made}
use twitter_rust_formal_veri.Service.Sound.{IsSound, next_id-above}
use mathlib.Core.List.Perm
use twitter_rust_formal_veri.Std.Sort.{sort_by-perm}
use twitter_rust_formal_veri.Store.Snapshot.{by_tweet_id}
use twitter_rust_formal_veri.Store.Snapshot.Listed.{mem-tweets}
use twitter_rust_formal_veri.Service.Sound.Requests.{post_tweet-IsSound}
use twitter_rust_formal_veri.Service.Contracts.{post_tweet_ensures}
use twitter_rust_formal_veri.Service.Snapshot.Torn.{post_tweet-load_store}
use twitter_rust_formal_veri.Ids.{next_id_lem}
use twitter_rust_formal_veri.Store.Snapshot.Closed.{replace-IsValid, snapshot-IsClosed}
use twitter_rust_formal_veri.Service.Snapshot.{
  ServiceState, load_state, load_user_ids, load_tweet_ids, load_clock,
}
use twitter_rust_formal_veri.Service.Threads
use twitter_rust_formal_veri.Service.Threads.{Event, System, is_ready}
use twitter_rust_formal_veri.Service.Threads.Alone.{serial, run-serial}
use twitter_rust_formal_veri.Service.Threads.Dumps.Alone.{IsAt, call-IsAt, move-IsAt}
use twitter_rust_formal_veri.Service.Threads.Dumps.{
  AdminPc, AdminCall, Shared, Action, is_free, begin_admin, advance_admin, act, act_all,
}

-- The first three sections of a dump
abbrev pub dump_begun : ℕ → List Action
dump_begun a =
    Action.admin_call a AdminCall.snapshot_state
    ∷ Action.admin_move a
    ∷ Action.admin_move a
    ∷ Action.admin_move a
    ∷ []

-- The first three sections of a dump, the requests, and its last section.
abbrev pub dump_around : ℕ → List (ℕ × Call) → List Action
dump_around a requests =
    dump_begun a ++ (map Action.request (serial requests) ++ Action.admin_move a ∷ [])

module _ {C : Type 0} (k : Clock C) (i j m l : Iteration) where
  act_all-append :
      (before after : List Action) (sys : Shared C)
      → act_all k i j m l (before ++ after) sys
        ≡ act_all k i j m l after (act_all k i j m l before sys)
  unfolding act_all
  act_all-append [] after sys = refl
  act_all-append (x ∷ before) after sys = act_all-append before after (act k i j m l x sys)

  act_all-request :
      (events : List Event) (sys : Shared C)
      → act_all k i j m l (map Action.request events) sys
        ≡ record sys { threads = Threads.run k events sys.threads }
  unfolding act_all act Threads.run
  act_all-request [] sys = refl
  act_all-request (e ∷ events) sys =
      act_all-request events (record sys { threads = Threads.step k e sys.threads })

  -- What a dump gives whose last section comes after `later`, and the others before.
  abbrev pub dump_of_two : Service C → Service C → ServiceState
  dump_of_two s later = record {
    clock_now = k.now s.clk;
    id_counter_users = Ids.current s.user_ids;
    id_counter_tweets = Ids.current s.tweet_ids;
    store = Snapshot.snapshot i j m l later.st;
  }

  -- The clock and the counters have been read.
  three_read :
      (a : ℕ) (sys : Shared C)
      → is_free (sys.admins a) ≡ true
      → let s = sys.threads.mem in
        IsAt k i j m l a
          (AdminPc.reading_store (k.now s.clk) (Ids.current s.user_ids) (Ids.current s.tweet_ids))
          sys.threads
          (act_all k i j m l (dump_begun a) sys)
  unfolding act_all advance_admin begin_admin is_free
  three_read a sys e = move-IsAt k i j m l a _ _ _ refl (
      move-IsAt k i j m l a _ _ _ refl (
        move-IsAt k i j m l a AdminPc.reading_clock sys.threads _ refl
          (call-IsAt k i j m l a AdminCall.snapshot_state sys e)))

  -- The dump has the time and the counters from before the requests, and the store from after them.
  pub dump_around-dumped :
      (a : ℕ) (requests : List (ℕ × Call)) (sys : Shared C)
      → is_free (sys.admins a) ≡ true
      → ((n : ℕ) → is_ready (sys.threads.pc n) ≡ true)
      → (act_all k i j m l (dump_around a requests) sys).admins a
        ≡ AdminPc.dumped (
            dump_of_two sys.threads.mem
              (Calls.run k (map (λ (r : ℕ × Call). r.1) requests) sys.threads.mem))
  unfolding act_all advance_admin is_free
  dump_around-dumped a requests sys e ready =
      let here = three_read a sys e in
      let sys1 = act_all k i j m l (dump_begun a) sys in
      let t = Threads.run k (serial requests) sys.threads in
      let requested = act_all-request (serial requests) sys1 in
      let around : IsAt k i j m l a _ t
          (act_all k i j m l (map Action.request (serial requests)) sys1) =
        record {
          admin = ap (λ (y : Shared C). y.admins a) requested ∙ here.admin;
          threads =
              ap (λ (y : Shared C). y.threads) requested
              ∙ ap (Threads.run k (serial requests)) here.threads;
        } in
      ap (λ (y : Shared C). y.admins a)
        (act_all-append (map Action.request (serial requests)) (Action.admin_move a ∷ []) sys1)
      ∙ (move-IsAt k i j m l a _ t _ refl around).admin
      ∙ ap (λ s. AdminPc.dumped (dump_of_two sys.threads.mem s))
          (run-serial k requests sys.threads ready).0

  module _ {D : Type 0} (k' : Clock D) (author text : Str) (s : Service C) (old : Service D)
      (p : IsSound k s) (room : Fits (Ids.current s.tweet_ids) 1) (filled : is_empty text ≡ false)
      (known : users_keys s.st author ≡ true) where
    abbrev later : Service C
    later = (post_tweet k author text s).1

    abbrev made : Tweet
    made = tweet_made k author text s

    abbrev torn : ServiceState
    torn = dump_of_two s later

    later-IsSane : IsSane later.st
    later-IsSane =
        let q = post_tweet-IsSound k s p author text room in
        record { valid = q.valid; tweets = q.unique; users = q.user_unique }

    made_posted : Mem made (posts later.st author)
    made_posted =
        let e = post_tweet_ensures s k author text in
        rw (e.tweets author, e.outcome, filled, known, str_eq_refl author)
          (mem-append.1 (Or.inr mem-cons_self))

    made_loaded : Mem made (posts (load_state k' torn old).st author)
    unfolding load_state
    made_loaded =
        ((restored-SameState i j m l later.st later-IsSane old.st).tweets author made).1 made_posted

    author_loaded : users_keys (load_state k' torn old).st author ≡ true
    unfolding load_state
    author_loaded =
        let closed = snapshot-IsClosed i j m l later.st later-IsSane.valid in
        (replace-IsValid torn.store old.st closed).known author made made_loaded

    same_id : made.id ≡ incr (Ids.current (load_state k' torn old).tweet_ids)
    unfolding load_state
    same_id =
        (next_id_lem s.tweet_ids).0
        ∙ ap incr (sym (Ids.current-set_current old.tweet_ids (Ids.current s.tweet_ids)))

    made_dumped : Mem made torn.store.tweets
    unfolding Snapshot.snapshot
    made_dumped =
        (Perm.mem_iff (sort_by-perm by_tweet_id _)).1
          ((mem-tweets l later.st later-IsSane.valid made).1 made_posted)

    module _ (text' : Str) (filled' : is_empty text' ≡ false) where
      abbrev again : Tweet
      again = tweet_made k' author text' (load_state k' torn old)

      again_id : again.id ≡ made.id
      again_id = (next_id_lem (load_state k' torn old).tweet_ids).0 ∙ sym same_id

      again_posted : (post_tweet k' author text' (load_state k' torn old)).0 ≡ ok again
      again_posted =
          let e = post_tweet_ensures (load_state k' torn old) k' author text' in
          rw (e.outcome, filled', author_loaded)

      torn_again :
          text ≢ text' → ¬ HasUniqueIds (post_tweet k' author text' (load_state k' torn old)).1.st
      unfolding load_state
      torn_again other =
          post_tweet-load_store k' torn
            (load_clock k' torn (load_tweet_ids k' torn (load_user_ids k' torn old))) author text'
            made filled' author_loaded made_loaded same_id other

    made_answered : (post_tweet k author text s).0 ≡ ok made
    made_answered = let e = post_tweet_ensures s k author text in rw (e.outcome, filled, known)

  -- Let the service keep its invariant (valid store, unique and issued identifiers, no stored time to
  -- come), have an identifier left and an author registered, with no request in progress and an
  -- administrator free. If a request posts a tweet of that author after the administrator's dump has
  -- read the counter of tweets and before it reads the store, the dump holds the tweet and its counter
  -- is below the tweet's identifier. Once any service has loaded the dump, the author's next tweet is
  -- accepted with the same identifier; if its text is another, the tweets of the store no longer have
  -- unique identifiers.
  pub dump_around-torn :
      {D : Type 0} (k' : Clock D) (a n : ℕ) (author text text' : Str) (sys : Shared C)
      (old : Service D)
      → IsSound k sys.threads.mem
      → Fits (Ids.current sys.threads.mem.tweet_ids) 1
      → users_keys sys.threads.mem.st author ≡ true
      → is_empty text ≡ false
      → is_empty text' ≡ false
      → text ≢ text'
      → is_free (sys.admins a) ≡ true
      → ((n : ℕ) → is_ready (sys.threads.pc n) ≡ true)
      → let sys' = act_all k i j m l (dump_around a ((n, Call.post_tweet author text) ∷ [])) sys in
        (state : ServiceState) × (t u : Tweet) × (sys'.admins a ≡ AdminPc.dumped state)
        × ((post_tweet k author text sys.threads.mem).0 ≡ ok t)
        × Mem t state.store.tweets
        × (state.id_counter_tweets <ℤ t.id)
        × ((post_tweet k' author text' (load_state k' state old)).0 ≡ ok u)
        × (u.id ≡ t.id)
        × ¬ HasUniqueIds (post_tweet k' author text' (load_state k' state old)).1.st
  unfolding Calls.run Calls.apply
  dump_around-torn k' a n author text text' sys old p room known filled filled' other free ready =
      let s = sys.threads.mem in
      (
        torn k' author text s old p room filled known,
        made k' author text s old p room filled known,
        again k' author text s old p room filled known text' filled',
        dump_around-dumped a ((n, Call.post_tweet author text) ∷ []) sys free ready,
        made_answered k' author text s old p room filled known,
        made_dumped k' author text s old p room filled known,
        (next_id-above s.tweet_ids 0 room).0,
        again_posted k' author text s old p room filled known text' filled',
        again_id k' author text s old p room filled known text' filled',
        torn_again k' author text s old p room filled known text' filled' other,
      )
