-- ===== src/Server/Probes.antt =====
-- The probes of crates/server/src/handlers.rs, `healthz` and `version`. An instant is in nanoseconds.
-- `file` is the text of /etc/version.json, if it can be read, and `from_str` the parser of JSON texts.
use twitter_rust_formal_veri.Prelude.{
  ℕ, ◌-◌, ◌/◌, ◌≡◌, refl, Str, lit, Option, none, some, unwrap_or, Result, ok, err, arith,
}
use twitter_rust_formal_veri.Server.Json.{Json}

unfoldable pub healthz : ℕ × Str
healthz = (200, lit "ok\n")

pub record VersionResp : Type 0 where
  pub git_sha : Str
  pub image_digest : Str
  pub process_uptime_seconds : ℕ
  pub snapshot_version : ℕ

-- The static that holds the instant of the first call, and that instant: `OnceLock::get_or_init`
unfoldable get_or_init : Option ℕ → ℕ → ℕ × Option ℕ
get_or_init none now = (now, some now)
get_or_init (some start) now = (start, some start)

module _ {V : Type 0} (j : Json V) (from_str : Str → Result Str V) where
  -- A label of the file, or what stands for it
  unfoldable label_of : V → Str → Str → Str
  label_of v key fallback = elim (j.get v key) [
    | some x ↦ unwrap_or fallback (j.as_str x)
    | none ↦ fallback
  ]

  unfoldable pub labels : Option Str → Str × Str
  unfolding label_of
  labels none = (lit "dev", lit "sha256:dev")
  labels (some s) = elim (from_str s) [
    | ok v ↦
        (label_of v (lit "git_sha") (lit "dev"), label_of v (lit "image_digest") (lit "sha256:dev"))
    | err _ ↦ (lit "dev", lit "sha256:dev")
  ]

  unfoldable pub version : Option Str → ℕ → Option ℕ → VersionResp × Option ℕ
  unfolding labels get_or_init
  version file now static_start =
      let (start, static_start') = get_or_init static_start now in
      let (git_sha, image_digest) = labels file in
      (
        record {
          git_sha = git_sha;
          image_digest = image_digest;
          process_uptime_seconds = (now - start) / 1000000000;
          snapshot_version = 1;
        },
        static_start',
      )

  -- The uptime is counted from the first call, whenever the process began: that call reports zero,
  -- and the second one the seconds since the first.
  version-version :
      (file : Option Str) (first second : ℕ)
      → let (response, static_start) = version file first none in
        (response.process_uptime_seconds ≡ 0)
        × ((version file second static_start).0.process_uptime_seconds
            ≡ (second - first) / 1000000000)
  unfolding version get_or_init
  version-version file first second = (ground arith, refl)
