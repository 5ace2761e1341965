-- ===== src/Server/Admin/Load.antt =====
-- The handlers `snapshot` and `load_snapshot` of crates/server/src/admin.rs.
use twitter_rust_formal_veri.Prelude.{
  ℕ, pos, ◌+◌, ◌-◌, ◌^◌, leb, ◌==◌, Str, lit, str_eq, ◌≡◌, ◌≢◌, refl, Bool, true, false, not, ◌||◌,
  Option, none, some, List, [], ◌∷◌, ◌++◌, map, Result, ok, err, if◌then◌else◌, arith, ap, sym, ◌∙◌,
  unwrap_or,
}
use twitter_rust_formal_veri.Std.HashMap.{Iteration}
use twitter_rust_formal_veri.Clock.{Clock}
use twitter_rust_formal_veri.Service.{Service}
use twitter_rust_formal_veri.Service.Snapshot.{ServiceState, snapshot_state, load_state}
use twitter_rust_formal_veri.Server.Json.{Json}
use twitter_rust_formal_veri.Server.Response.{Response}
use twitter_rust_formal_veri.Server.Admin.Token.{AuthResult, check_admin_token}
use twitter_rust_formal_veri.Server.Admin.Wire
use twitter_rust_formal_veri.Server.Admin.Wire.{ParseError, and_then, parse_state, state_to_json}
use twitter_rust_formal_veri.Server.Admin.Wire.RoundTrip.{FitsI64, parse_state-state_to_json}

abbrev pub current_snapshot_version : ℕ
current_snapshot_version = 1

abbrev pub supported_versions : List ℕ
supported_versions = current_snapshot_version ∷ (current_snapshot_version + 1) ∷ []

-- `contains`
abbrev pub has_version : List ℕ → ℕ → Bool
has_version [] version = false
has_version (n ∷ versions) version = n == version || has_version versions version

-- `ParseError::message`
unfoldable pub message : ParseError → Str
message (Wire.missing_field f) = lit "missing field: " ++ f
message (Wire.invalid_type f) = lit "invalid type for field: " ++ f

module _ {V : Type 0} (j : Json V) where
  unfoldable pub forbidden : Response V
  forbidden = record {
    status = 401;
    body = some (j.object ((lit "error", j.string (lit "forbidden")) ∷ []));
  }

  unfoldable pub admin_disabled : Response V
  admin_disabled = record {
    status = 503;
    body = some (j.object ((lit "error", j.string (lit "admin_disabled")) ∷ []));
  }

  unfoldable pub version_unsupported : ℕ → Response V
  version_unsupported received = record {
    status = 422;
    body = some (
        j.object (
          (lit "error", j.string (lit "snapshot_version_unsupported"))
          ∷ (lit "supported", j.array (map (λ n. j.int (pos n)) supported_versions))
          ∷ (lit "received", j.int (pos received))
          ∷ []));
  }

  unfoldable pub malformed_json : Str → Response V
  malformed_json reason = record {
    status = 400;
    body = some (
        j.object
          ((lit "error", j.string (lit "malformed_json")) ∷ (lit "reason", j.string reason) ∷ []));
  }

  unfoldable pub loaded : ℕ → Response V
  loaded version = record {
    status = 200;
    body = some (
        j.object ((lit "ok", j.boolean true) ∷ (lit "snapshot_version", j.int (pos version)) ∷ []));
  }

  -- The body that `snapshot` answers, given the time and the two strings of /etc/version.json.
  unfoldable pub snapshot_body : Str → Str → Str → ServiceState → V
  snapshot_body captured_at git_sha image_digest state = j.object (
      (lit "snapshot_version", j.int (pos current_snapshot_version))
      ∷ (lit "captured_at_unix_nanos", j.string captured_at)
      ∷ (lit "git_sha", j.string git_sha)
      ∷ (lit "image_digest", j.string image_digest)
      ∷ (lit "state", state_to_json j state)
      ∷ [])

  unfoldable pub snapshot :
      {C : Type 0}
      → Clock C
      → (Str → List ℕ)
      → Option Str
      → Option Str
      → Str
      → Str
      → Str
      → Iteration
      → Iteration
      → Iteration
      → Iteration
      → Service C
      → Response V
  unfolding admin_disabled forbidden snapshot_body
  snapshot k as_bytes token header captured_at git_sha image_digest i i' i'' i''' s =
      elim (check_admin_token as_bytes token header) [
        | AuthResult.disabled ↦ admin_disabled
        | AuthResult.forbidden ↦ forbidden
        | AuthResult.ok ↦ record {
          status = 200;
          body =
              some
                (snapshot_body captured_at git_sha image_digest (snapshot_state k i i' i'' i''' s));
        }
      ]

  -- What `load_snapshot` does with the parsed body.
  unfoldable pub load_value : {C : Type 0} → Clock C → V → Service C → Response V × Service C
  unfolding malformed_json version_unsupported loaded message
  load_value k v s = elim (and_then (j.get v (lit "snapshot_version")) j.as_u64) [
    | none ↦ (malformed_json (lit "missing or invalid snapshot_version"), s)
    | some version ↦
        if not (leb version (2 ^ 32 - 1))
        then (malformed_json (lit "missing or invalid snapshot_version"), s)
        else if not (has_version supported_versions version)
        then (version_unsupported version, s)
        else elim (j.get v (lit "state")) [
          | none ↦ (malformed_json (lit "missing state"), s)
          | some state_v ↦ elim (parse_state j state_v) [
            | err e ↦ (malformed_json (message e), s)
            | ok new_state ↦ (loaded version, load_state k new_state s)
          ]
        ]
  ]

  -- `from_str` is the parser of JSON texts, whose error is its text.
  unfoldable pub load_snapshot :
      {C : Type 0}
      → Clock C
      → (Str → Result Str V)
      → (Str → List ℕ)
      → Option Str
      → Option Str
      → Str
      → Service C
      → Response V × Service C
  unfolding load_value admin_disabled forbidden malformed_json
  load_snapshot k from_str as_bytes token header body s =
      elim (check_admin_token as_bytes token header) [
        | AuthResult.disabled ↦ (admin_disabled, s)
        | AuthResult.forbidden ↦ (forbidden, s)
        | AuthResult.ok ↦ elim (from_str body) [
          | err e ↦ (malformed_json e, s)
          | ok v ↦ load_value k v s
        ]
      ]

module _ {V C : Type 0} (j : Json V) (k : Clock C) where
  version_of_body :
      (captured_at git_sha image_digest : Str) (state : ServiceState)
      → let v = snapshot_body j captured_at git_sha image_digest state in
        (and_then (j.get v (lit "snapshot_version")) j.as_u64 ≡ some 1)
        × (j.get v (lit "state") ≡ some (state_to_json j state))
  unfolding snapshot_body str_eq
  version_of_body captured_at git_sha image_digest state = (
    rw (j.get_object _ (lit "snapshot_version") refl) (j.as_u64_int 1 (omega arith)),
    j.get_object _ (lit "state") refl,
  )

  -- The parsed body is taken apart into the state that it was made of.
  pub load_value-snapshot_body :
      (captured_at git_sha image_digest : Str) (state : ServiceState) (s : Service C)
      → FitsI64 state
      → load_value j k (snapshot_body j captured_at git_sha image_digest state) s
        ≡ (loaded j current_snapshot_version, load_state k state s)
  unfolding load_value
  load_value-snapshot_body captured_at git_sha image_digest state s fits = ground (
    arith,
    version_of_body captured_at git_sha image_digest state,
    parse_state-state_to_json j state fits,
  )

  load_value_rejects :
      (v : V) (s : Service C) → (load_value j k v s).1 ≢ s → (load_value j k v s).0.status ≡ 200
  unfolding load_value loaded
  load_value_rejects v s h = ground arith

  -- A `load_snapshot` that changes the service had the token and answers 200: every refusal, by the
  -- token, the JSON, the version or a field, leaves the service as it was.
  pub load_snapshot_rejects :
      (from_str : Str → Result Str V) (as_bytes : Str → List ℕ) (token header : Option Str)
      (body : Str) (s : Service C)
      → (load_snapshot j k from_str as_bytes token header body s).1 ≢ s
      → (check_admin_token as_bytes token header ≡ AuthResult.ok)
        × ((load_snapshot j k from_str as_bytes token header body s).0.status ≡ 200)
  unfolding load_snapshot
  load_snapshot_rejects from_str as_bytes token header body s h = grind (arith, load_value_rejects)

module _ {V C D : Type 0} (j : Json V) (k : Clock C) (k' : Clock D) (from_str : Str → Result Str V)
    (as_bytes : Str → List ℕ) (token header token' header' : Option Str)
    (captured_at git_sha image_digest : Str) (i i' l l' : Iteration) (s : Service C) where
  snapshot-allowed :
      check_admin_token as_bytes token header ≡ AuthResult.ok
      → snapshot j k as_bytes token header captured_at git_sha image_digest i i' l l' s ≡ record {
        status = 200;
        body =
            some (snapshot_body j captured_at git_sha image_digest (snapshot_state k i i' l l' s));
      }
  unfolding snapshot
  snapshot-allowed allowed = ground (arith, allowed)

  load_snapshot-allowed :
      (text : Str) (v : V) (old : Service D)
      → check_admin_token as_bytes token' header' ≡ AuthResult.ok
      → from_str text ≡ ok v
      → load_snapshot j k' from_str as_bytes token' header' text old ≡ load_value j k' v old
  unfolding load_snapshot
  load_snapshot-allowed text v old allowed' parsed = ground (arith, allowed', parsed)

  -- What one server dumps, another loads. Let the request of the dump and that of the load each have
  -- the token of their server, the numbers of the dumped state be of 64 bits, and the text of the load
  -- parse as the JSON value that `snapshot` answered. Then `snapshot` answered 200, `load_snapshot`
  -- answers that the version is loaded, and it leaves the service that `load_state` makes of the very
  -- state that `snapshot_state` read.
  pub load_snapshot-snapshot :
      (text : Str) (v : V) (old : Service D)
      → check_admin_token as_bytes token header ≡ AuthResult.ok
      → check_admin_token as_bytes token' header' ≡ AuthResult.ok
      → FitsI64 (snapshot_state k i i' l l' s)
      → (snapshot j k as_bytes token header captured_at git_sha image_digest i i' l l' s).body
        ≡ some v
      → from_str text ≡ ok v
      → ((snapshot j k as_bytes token header captured_at git_sha image_digest i i' l l' s).status
          ≡ 200)
        × (load_snapshot j k' from_str as_bytes token' header' text old
            ≡ (loaded j current_snapshot_version, load_state k' (snapshot_state k i i' l l' s) old))
  load_snapshot-snapshot text v old allowed allowed' fits answered parsed =
      let state = snapshot_state k i i' l l' s in
      let is_value : snapshot_body j captured_at git_sha image_digest state ≡ v =
        ap (unwrap_or v)
          (sym (ap (λ (r : Response V). r.body) (snapshot-allowed allowed)) ∙ answered) in
      (
        ap (λ (r : Response V). r.status) (snapshot-allowed allowed),
        load_snapshot-allowed text v old allowed' parsed
            ∙ ap (λ w. load_value j k' w old) (sym is_value)
            ∙ load_value-snapshot_body j k' captured_at git_sha image_digest state old fits,
      )
