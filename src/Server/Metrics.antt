-- ===== src/Server/Metrics.antt =====
-- `note_violation` of crates/server/src/metrics.rs. The counter is the list of the labels that it was
-- incremented at, the latest first.
use twitter_rust_formal_veri.Prelude.{
  Str, lit, str_eq, Bool, true, false, ◌&&◌, ◌||◌, List, [], ◌∷◌, if◌then◌else◌, ◌==◌, Option, none,
  some, ℕ, ◌++◌, Result, ok, err,
}

-- `str::starts_with`
unfoldable pub starts_with : Str → Str → Bool
starts_with s [] = true
starts_with [] (b ∷ prefix) = false
starts_with (a ∷ s) (b ∷ prefix) = a == b && starts_with s prefix

unfoldable pub label : Str → Str → Option Str
unfolding starts_with
label error_code request_path =
    if str_eq error_code (lit "self_follow_forbidden")
    then some (lit "F4")
    else if str_eq error_code (lit "unknown_user") && starts_with request_path (lit "/tweets")
    then some (lit "F6")
    else if str_eq error_code (lit "unknown_user")
        && (starts_with request_path (lit "/follow") || starts_with request_path (lit "/_ui/"))
    then some (lit "F9")
    else if str_eq error_code (lit "duplicate_user")
    then some (lit "F-uniqueness")
    else if str_eq error_code (lit "empty_handle") || str_eq error_code (lit "empty_text")
    then some (lit "F-input-shape")
    else none

unfoldable pub note_violation : Str → Str → List Str → List Str
unfolding label
note_violation error_code request_path noted = elim (label error_code request_path) [
  | some f ↦ f ∷ noted
  | none ↦ noted
]

-- `encoded` is the text of the registry, or the error of the encoder. The answer is a status, the type
-- of the content and the text.
unfoldable pub render : Result Str Str → ℕ × Str × Str
render (ok out) = (200, lit "text/plain; version=0.0.4", out)
render (err e) = (500, lit "text/plain", lit "error: " ++ e)
