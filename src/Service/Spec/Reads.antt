-- ===== src/Service/Spec/Reads.antt =====
-- A timeline of crates/service/src/lib.rs shows nothing but what the specification knows.
use twitter_rust_formal_veri.Prelude.{ℕ, Str, str_eq, ◌≡◌, ap, ◌||◌}
use twitter_rust_formal_veri.Std.HashMap.{Iteration}
use twitter_rust_formal_veri.Clock.{Clock}
use twitter_rust_formal_veri.Store.Timeline.Contents.{home_timeline-same}
use twitter_rust_formal_veri.Service.{Service, home_timeline}
use twitter_rust_formal_veri.Service.Sound.{IsSound}
use twitter_rust_formal_veri.Service.Spec.{World}
use twitter_rust_formal_veri.Service.Spec.Refines.{world}

module _ {C D : Type 0} (k : Clock C) (k' : Clock D) where
  -- Sound services that stand for one world give every reader one timeline, whatever they store it in
  -- and however they walk it.
  pub home_timeline-world :
      (i j i' j' : Iteration) (s : Service C) (s' : Service D) (user : Str) (limit : ℕ)
      → IsSound k s
      → IsSound k' s'
      → world k s ≡ world k' s'
      → home_timeline i j s user limit ≡ home_timeline i' j' s' user limit
  unfolding world home_timeline
  home_timeline-world i j i' j' s s' user limit p p' same =
      home_timeline-same i j i' j' s.st s'.st user limit p.valid.author p.unique p'.valid.author
        p'.unique (λ a. ap (λ (w : World). str_eq user a || w.follows user a) same)
        λ a t.
          let lists = ap (λ (w : World). w.tweets a) same in (λ m. rw lists at m, λ m. rw lists m)
