-- ===== src/Server/Ui/Login.antt =====
-- A login in crates/server/src/ui.rs, and the request after it that brings the cookie back.
use mathlib.Core.List.{append_assoc}
use twitter_rust_formal_veri.Prelude.{
  ℕ, Str, is_empty, ◌≡◌, refl, sym, ap, ◌∙◌, ◌⊎◌, Bool, false, ◌==◌, some, List, [], ◌∷◌, ◌++◌,
  if◌then◌else◌, length, arith, inl, inr,
}
use twitter_rust_formal_veri.Service.{Service}
use twitter_rust_formal_veri.Server.Handlers.{trim}
use twitter_rust_formal_veri.Server.Ui.{sign, dot}
use twitter_rust_formal_veri.Server.Ui.Cookie.{occurs}
use twitter_rust_formal_veri.Server.Ui.Forms.{
  Redirect, cookie_name, cookie_header_for, log_in, set_session, ui_register, current_actor,
  current_actor-sign,
}

-- What a client keeps of a header `Set-Cookie` and sends back: the name and the value, which end at the
-- first semicolon (RFC 6265).
unfoldable pub cookie_pair : Str → Str
cookie_pair [] = []
cookie_pair (c ∷ s) = let rest = cookie_pair s in if c == 0x3b then [] else c ∷ rest

cookie_pair-append :
    (pair attributes : Str)
    → occurs 0x3b pair ≡ false
    → cookie_pair (pair ++ 0x3b ∷ attributes) ≡ pair
unfolding cookie_pair
cookie_pair-append [] attributes h = refl
cookie_pair-append (c ∷ pair) attributes h = ground (arith, cookie_pair-append pair attributes)

module _ (tag : Str → Str) (as_bytes : Str → List ℕ) where
  cookie_pair-header :
      (handle : Str)
      → occurs 0x3b (cookie_name ++ sign tag as_bytes handle) ≡ false
      → cookie_pair (cookie_header_for tag as_bytes handle)
        ≡ cookie_name ++ sign tag as_bytes handle
  unfolding cookie_header_for
  cookie_pair-header handle whole =
      ap cookie_pair (sym (append_assoc cookie_name (sign tag as_bytes handle) _))
      ∙ cookie_pair-append (cookie_name ++ sign tag as_bytes handle) _ whole

  module _ (is_header_value : Str → Bool) (encode : Str → Str) (r : Redirect) (cookie : Str) where
    log_in-cookie :
        (handle : Str)
        → log_in tag as_bytes is_header_value encode handle ≡ some r
        → r.cookie ≡ some cookie
        → cookie_header_for tag as_bytes handle ≡ cookie
    unfolding log_in
    log_in-cookie handle e set = ground (arith, e, set)

    set_session-cookie :
        (handle : Str)
        → set_session tag as_bytes is_header_value encode handle ≡ some r
        → r.cookie ≡ some cookie
        → (is_empty (trim handle) ≡ false) × (cookie_header_for tag as_bytes (trim handle) ≡ cookie)
    unfolding set_session
    set_session-cookie handle e set = ground (arith, e, set, log_in-cookie (trim handle))

    ui_register-cookie :
        {C : Type 0} (handle : Str) (s : Service C)
        → (ui_register tag as_bytes is_header_value encode handle s).0 ≡ some r
        → r.cookie ≡ some cookie
        → (is_empty (trim handle) ≡ false) × (cookie_header_for tag as_bytes (trim handle) ≡ cookie)
    unfolding ui_register
    ui_register-cookie handle s e set = ground (arith, e, set, log_in-cookie (trim handle))

module _ (tag : Str → Str) (as_bytes : Str → List ℕ)
    (tag_length : (handle : Str) → length (as_bytes (tag handle)) ≡ 32)
    (tag_hex : (handle : Str) → occurs dot (tag handle) ≡ false)
    (injective : (s t : Str) → as_bytes s ≡ as_bytes t → s ≡ t) (is_header_value : Str → Bool)
    (encode : Str → Str) where
  -- If the session form or the registration form answers with a cookie, the name and the value of that
  -- cookie, sent alone in a later request, name as its actor the handle of the form without the blanks
  -- around it. This takes that the tag has 32 bytes and no dot, that different texts have different
  -- bytes, and that the name with the signed value has no semicolon and no blank at an end.
  pub current_actor-set_session :
      {C : Type 0} (handle : Str) (s : Service C) (r : Redirect) (cookie : Str)
      → occurs 0x3b (cookie_name ++ sign tag as_bytes (trim handle)) ≡ false
      → trim (cookie_name ++ sign tag as_bytes (trim handle))
        ≡ cookie_name ++ sign tag as_bytes (trim handle)
      → (set_session tag as_bytes is_header_value encode handle ≡ some r)
        ⊎ ((ui_register tag as_bytes is_header_value encode handle s).0 ≡ some r)
      → r.cookie ≡ some cookie
      → current_actor tag as_bytes (some (cookie_pair cookie)) ≡ some (trim handle)
  current_actor-set_session handle s r cookie whole trimmed answered set =
      let (filled, is_header) : (is_empty (trim handle) ≡ false)
          × (cookie_header_for tag as_bytes (trim handle) ≡ cookie) =
        elim answered [
          | inl e ↦ set_session-cookie tag as_bytes is_header_value encode r cookie handle e set
          | inr e ↦ ui_register-cookie tag as_bytes is_header_value encode r cookie handle s e set
        ] in
      ap (λ sent. current_actor tag as_bytes (some sent))
        (ap cookie_pair (sym is_header) ∙ cookie_pair-header tag as_bytes (trim handle) whole)
      ∙ current_actor-sign tag as_bytes tag_length tag_hex injective (trim handle) filled whole
          trimmed
