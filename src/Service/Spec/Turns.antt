-- ===== src/Service/Spec/Turns.antt =====
-- Threads of crates/service/src/lib.rs that take turns, against what the service promises.
use twitter_rust_formal_veri.Prelude.{ℕ, ◌≡◌, sym, ap₂, ◌∙◌, true, List, map}
use twitter_rust_formal_veri.Clock.{Clock}
use twitter_rust_formal_veri.Service.Calls.{Call}
use twitter_rust_formal_veri.Service.Threads.{System, run, is_ready}
use twitter_rust_formal_veri.Service.Threads.Alone.{serial, run-serial}
use twitter_rust_formal_veri.Service.Spec.{promises}
use twitter_rust_formal_veri.Service.Spec.Refines.{world, run-refines}

-- From a system whose threads are all ready, threads that take turns, each request with its critical
-- sections in a row, return the answers that the specification gives, and leave a service that stands
-- for the world that it says; and all of them end.
pub run-promises :
    {C : Type 0} (k : Clock C) (requests : List (ℕ × Call)) (sys : System C)
    → ((i : ℕ) → is_ready (sys.pc i) ≡ true)
    → let sys' = run k (serial requests) sys in
      ((sys'.answered, world k sys'.mem)
        ≡ promises (map (λ (r : ℕ × Call). r.1) requests) (sys.answered, world k sys.mem))
      × ((i : ℕ) → is_ready (sys'.pc i) ≡ true)
run-promises k requests sys all =
    let (mem, answered, ready) = run-serial k requests sys all in
    (
      ap₂ (λ a s. (a, world k s)) answered mem
          ∙ sym (run-refines k (map (λ r. r.1) requests) sys.mem sys.answered),
      ready,
    )
