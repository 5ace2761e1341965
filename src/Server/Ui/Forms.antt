-- ===== src/Server/Ui/Forms.antt =====
-- The session and the forms of crates/server/src/ui.rs. A redirect is its location and the cookie that it
-- sets; no answer stands for the panic of `unwrap` or of `Redirect::to`. `is_header_value` says which
-- texts parse as a header value, as constants do and what `encode`, the encoding of URLs, gives.
use twitter_rust_formal_veri.Prelude.{
  ℕ, Str, lit, is_empty, str_eq, ◌≡◌, refl, ap, ◌∙◌, Bool, false, ◌==◌, Option, none, some, List,
  [], ◌∷◌, ◌++◌, ok, err, if◌then◌else◌, length, arith,
}
use twitter_rust_formal_veri.Std.HashMap.{Iteration}
use twitter_rust_formal_veri.Clock.{Clock}
use twitter_rust_formal_veri.Domain.{Tweet}
use twitter_rust_formal_veri.Service
use twitter_rust_formal_veri.Service.{Service, ServiceError}
use twitter_rust_formal_veri.Server.Handlers.{trim}
use twitter_rust_formal_veri.Server.Ui.{sign, verify, dot}
use twitter_rust_formal_veri.Server.Ui.Cookie.{occurs, verify_lem}

pub record Redirect : Type 0 where
  pub location : Str
  pub cookie : Option Str

abbrev redirect : Str → Redirect
redirect location = record { location = location; cookie = none }

-- `{e:?}`
unfoldable pub debug : ServiceError → Str
debug Service.empty_handle = lit "EmptyHandle"
debug Service.empty_text = lit "EmptyText"
debug Service.self_follow = lit "SelfFollow"
debug Service.unknown_user = lit "UnknownUser"
debug Service.duplicate_user = lit "DuplicateUser"

abbrev add_first : ℕ → List Str → List Str
add_first x [] = (x ∷ []) ∷ []
add_first x (part ∷ parts) = (x ∷ part) ∷ parts

-- `str::split` at a character
unfoldable pub split : ℕ → Str → List Str
split c [] = [] ∷ []
split c (x ∷ s) = let rest = split c s in if x == c then [] ∷ rest else add_first x rest

-- `str::strip_prefix`
unfoldable pub strip_prefix : Str → Str → Option Str
strip_prefix [] s = some s
strip_prefix (p ∷ prefix) [] = none
strip_prefix (p ∷ prefix) (x ∷ s) =
    let rest = strip_prefix prefix s in if x == p then rest else none

abbrev pub cookie_name : Str
cookie_name = lit "acting_handle="

module _ (tag : Str → Str) (as_bytes : Str → List ℕ) where
  unfoldable pub actor_in : List Str → Option Str
  unfolding strip_prefix
  actor_in [] = none
  actor_in (part ∷ parts) =
      let later = actor_in parts in
      elim (strip_prefix cookie_name (trim part)) [
        | some rest ↦ verify tag as_bytes rest
        | none ↦ later
      ]

  -- The argument is the header `Cookie`, if there is one and it is text.
  unfoldable pub current_actor : Option Str → Option Str
  unfolding actor_in split
  current_actor none = none
  current_actor (some cookie_header) = actor_in (split 0x3b cookie_header)

  unfoldable pub cookie_header_for : Str → Str
  cookie_header_for handle =
      cookie_name
      ++ sign tag as_bytes handle
      ++ lit "; Path=/; HttpOnly; SameSite=Lax; Max-Age=2592000"

  module _ (is_header_value : Str → Bool) (encode : Str → Str) where
    unfoldable pub log_in : Str → Option Redirect
    unfolding cookie_header_for
    log_in handle =
        if is_header_value (cookie_header_for handle)
        then some (record { location = lit "/"; cookie = some (cookie_header_for handle) })
        else none

    unfoldable pub set_session : Str → Option Redirect
    unfolding log_in
    set_session handle =
        if is_empty (trim handle)
        then some (redirect (lit "/?error=empty+handle"))
        else log_in (trim handle)

    unfoldable pub ui_register : {C : Type 0} → Str → Service C → Option Redirect × Service C
    unfolding log_in debug
    ui_register handle s =
        if is_empty (trim handle)
        then (some (redirect (lit "/?error=empty+handle")), s)
        else (let (result, s') = Service.create_user (trim handle) s in
            elim result [
              | ok _ ↦ (log_in (trim handle), s')
              | err Service.duplicate_user ↦ (log_in (trim handle), s')
              | err e ↦ (some (redirect (lit "/?error=" ++ encode (debug e))), s')
            ])

abbrev pub clear_session : Redirect
clear_session = record {
  location = lit "/";
  cookie = some (lit "acting_handle=; Path=/; Max-Age=0; HttpOnly; SameSite=Lax");
}

-- `Redirect::to` at a text with a field of a form in it: it panics if the text is no header value.
unfoldable pub redirect_to : (Str → Bool) → Str → Option Redirect
redirect_to is_header_value location =
    if is_header_value location then some (redirect location) else none

-- The forms take the actor that `current_actor` found.
module _ (encode : Str → Str) {C : Type 0} where
  unfoldable pub compose : Clock C → Option Str → Str → Service C → Redirect × Service C
  unfolding debug
  compose k none text s = (redirect (lit "/"), s)
  compose k (some actor) text s =
      let (result, s') = Service.post_tweet k actor (trim text) s in
      elim result [
        | ok _ ↦ (redirect (lit "/"), s')
        | err e ↦ (redirect (lit "/?error=" ++ encode (debug e)), s')
      ]

  module _ (is_header_value : Str → Bool) where
    unfoldable pub ui_follow : Option Str → Str → Service C → Option Redirect × Service C
    unfolding debug redirect_to
    ui_follow none to s = (some (redirect (lit "/")), s)
    ui_follow (some actor) to s =
        let (result, s') = Service.follow actor (trim to) s in
        elim result [
          | ok _ ↦ (redirect_to is_header_value (lit "/u/" ++ to), s')
          | err e ↦ (
            redirect_to is_header_value (lit "/u/" ++ to ++ lit "?error=" ++ encode (debug e)),
            s',
          )
        ]

    unfoldable pub ui_unfollow : Option Str → Str → Service C → Option Redirect × Service C
    unfolding redirect_to
    ui_unfollow none to s = (some (redirect (lit "/")), s)
    ui_unfollow (some actor) to s =
        (redirect_to is_header_value (lit "/u/" ++ to), (Service.unfollow actor (trim to) s).1)

unfoldable pub by_author : Str → List Tweet → List Tweet
by_author handle [] = []
by_author handle (t ∷ tweets) =
    let rest = by_author handle tweets in if str_eq t.author handle then t ∷ rest else rest

-- The tweets on the page of a handle.
unfoldable pub profile_tweets : {C : Type 0} → Iteration → Iteration → Service C → Str → List Tweet
unfolding by_author
profile_tweets followed authors s handle =
    by_author handle (Service.home_timeline followed authors s handle 50)

split-singleton : (c : ℕ) (s : Str) → occurs c s ≡ false → split c s ≡ s ∷ []
unfolding split
split-singleton c [] h = refl
split-singleton c (x ∷ s) h = ground (arith, split-singleton c s)

strip_prefix-cookie_name : (rest : Str) → strip_prefix cookie_name (cookie_name ++ rest) ≡ some rest
unfolding strip_prefix
strip_prefix-cookie_name rest = refl

actor_in-one :
    (tag : Str → Str) (as_bytes : Str → List ℕ) (part rest : Str)
    → trim part ≡ cookie_name ++ rest
    → actor_in tag as_bytes (part ∷ []) ≡ verify tag as_bytes rest
unfolding actor_in
actor_in-one tag as_bytes part rest h =
    let stripped : strip_prefix cookie_name (trim part) ≡ some rest =
      ap (strip_prefix cookie_name) h ∙ strip_prefix-cookie_name rest in
    ground (arith, stripped)

module _ (tag : Str → Str) (as_bytes : Str → List ℕ)
    (tag_length : (handle : Str) → length (as_bytes (tag handle)) ≡ 32)
    (tag_hex : (handle : Str) → occurs dot (tag handle) ≡ false)
    (injective : (s t : Str) → as_bytes s ≡ as_bytes t → s ≡ t) where
  -- A signed cookie, sent alone, names its handle, if that is not empty and the text that is sent has no
  -- semicolon and no blank at an end.
  pub current_actor-sign :
      (handle : Str)
      → is_empty handle ≡ false
      → occurs 0x3b (cookie_name ++ sign tag as_bytes handle) ≡ false
      → trim (cookie_name ++ sign tag as_bytes handle) ≡ cookie_name ++ sign tag as_bytes handle
      → current_actor tag as_bytes (some (cookie_name ++ sign tag as_bytes handle)) ≡ some handle
  unfolding current_actor
  current_actor-sign handle filled whole trimmed =
      let signed = sign tag as_bytes handle in
      let accepted =
        (verify_lem tag as_bytes tag_length tag_hex injective signed handle).1 (refl, filled) in
      rw (split-singleton 0x3b (cookie_name ++ signed) whole)
        (actor_in-one tag as_bytes (cookie_name ++ signed) signed trimmed ∙ accepted)
