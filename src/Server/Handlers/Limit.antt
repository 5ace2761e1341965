-- ===== src/Server/Handlers/Limit.antt =====
-- The limit of the `timeline` handler of crates/server/src/handlers.rs, as a client writes it.
use mathlib.Core.Logic.Or
use mathlib.Core.List.{
  reverse, reverse-append, reverse-reverse, mem-reverse, mem-cons, mem-cons_self,
}
use twitter_rust_formal_veri.Prelude.{
  ℕ, pos, i64_max, ◌+◌, ◌-◌, ◌*◌, ◌^◌, ◌≤◌, leb, length, Str, lit, unwrap_or, is_empty, ◌≡◌, refl,
  sym, Bool_set, append-nil, ◌==◌, ap, ◌∙◌, true, false, Option, none, some, [], ◌∷◌, ◌++◌, Mem,
  arith, if◌then◌else◌,
}
use twitter_rust_formal_veri.Std.HashMap.{Iteration}
use twitter_rust_formal_veri.Service.{Service, home_timeline}
use twitter_rust_formal_veri.Server.Json.{Json}
use twitter_rust_formal_veri.Server.Response.{Response}
use twitter_rust_formal_veri.Server.Handlers.{
  error, timeline, timeline_resp, is_whitespace, trim_start, trim, parse_digits, parse_i64,
  parse_limit,
}

-- A text of white space, and a text of decimal digits.
abbrev pub AreBlank : Str → Type 0
AreBlank s = (c : ℕ) → Mem c s → is_whitespace c ≡ true

abbrev pub AreDigits : Str → Type 0
AreDigits s = (c : ℕ) → Mem c s → (0x30 ≤ c) × (c ≤ 0x39)

abbrev AreSolid : Str → Type 0
AreSolid s = (c : ℕ) → Mem c s → is_whitespace c ≡ false

AreSolid-cons : (c : ℕ) (s : Str) → is_whitespace c ≡ false → AreSolid s → AreSolid (c ∷ s)
AreSolid-cons c s e h d m =
    Or.elim (Bool_set _ _) (mem-cons.0 m) (λ same. rw same e) (λ later. h d later)

-- The number that decimal digits denote: each one times a power of ten.
unfoldable pub value_of : Str → ℕ
value_of [] = 0
value_of (c ∷ s) = (c - 0x30) * 10 ^ length s + value_of s

digit-solid : (c : ℕ) → (0x30 ≤ c) × (c ≤ 0x39) → is_whitespace c ≡ false
digit-solid c h = ground arith

trim_start-pad : (pad s : Str) → AreBlank pad → trim_start (pad ++ s) ≡ trim_start s
unfolding trim_start
trim_start-pad [] s h = refl
trim_start-pad (c ∷ pad) s h =
    rw (h c mem-cons_self) (trim_start-pad pad s (λ d m. h d (mem-cons.1 (Or.inr m))))

trim_start-cons : (s : Str) (c : ℕ) → is_whitespace c ≡ false → trim_start (c ∷ s) ≡ c ∷ s
unfolding trim_start
trim_start-cons s c h = rw h refl

shift : (v d p w : ℕ) → (v * 10 + d) * p + w ≡ v * (p * 10) + (d * p + w)
shift v d p w = grind arith

parse_digits_lem :
    (v : ℕ) (s : Str) → AreDigits s → parse_digits v s ≡ some (v * 10 ^ length s + value_of s)
unfolding parse_digits value_of
parse_digits_lem v [] h = ap some (omega arith)
parse_digits_lem v (c ∷ s) h =
    let next = parse_digits_lem (v * 10 + (c - 0x30)) s (λ d m. h d (mem-cons.1 (Or.inr m))) in
    ground (arith, next, shift v (c - 0x30) (10 ^ length s) (value_of s), h c mem-cons_self)

AreBlank-reverse : (s : Str) → AreBlank s → AreBlank (reverse s)
AreBlank-reverse s h c m = h c (mem-reverse.0 m)

AreSolid-reverse : (s : Str) → AreSolid s → AreSolid (reverse s)
AreSolid-reverse s h c m = h c (mem-reverse.0 m)

trim_start-solid : (s : Str) → AreSolid s → trim_start s ≡ s
unfolding trim_start
trim_start-solid [] h = refl
trim_start-solid (c ∷ s) h = trim_start-cons s c (h c mem-cons_self)

trim_step : (s t u : Str) → trim_start s ≡ t → trim_start (reverse t) ≡ u → trim s ≡ reverse u
unfolding trim
trim_step s t u e e' = ap (λ (x : Str). reverse (trim_start (reverse x))) e ∙ ap reverse e'

trim_lem :
    (pad pad' s : Str) (c : ℕ)
    → AreBlank pad
    → AreBlank pad'
    → AreSolid (c ∷ s)
    → trim (pad ++ (c ∷ s ++ pad')) ≡ c ∷ s
trim_lem pad pad' s c before after h =
    trim_step (pad ++ (c ∷ s ++ pad')) (c ∷ s ++ pad') (reverse (c ∷ s))
      (rw (trim_start-pad pad (c ∷ s ++ pad') before)
        (trim_start-cons (s ++ pad') c (h c mem-cons_self)))
      (ap trim_start (reverse-append (c ∷ s) pad')
        ∙ trim_start-pad (reverse pad') (reverse (c ∷ s)) (AreBlank-reverse pad' after)
        ∙ trim_start-solid (reverse (c ∷ s)) (AreSolid-reverse (c ∷ s) h))
    ∙ reverse-reverse (c ∷ s)

trim-blank : (pad : Str) → AreBlank pad → trim pad ≡ []
unfolding trim_start
trim-blank pad h =
    trim_step pad [] [] (ap trim_start (sym (append-nil pad)) ∙ trim_start-pad pad [] h) refl

parse_i64_lem :
    (s : Str) (c : ℕ)
    → AreDigits (c ∷ s)
    → parse_i64 (c ∷ s)
      ≡ (if leb (value_of (c ∷ s)) i64_max then some (pos (value_of (c ∷ s))) else none)
unfolding parse_i64
parse_i64_lem s c h = ground (arith, parse_digits_lem 0 (c ∷ s) h, h c mem-cons_self)

module _ (pad pad' s : Str) (c : ℕ) where
  parse_limit_lem :
      AreBlank pad
      → AreBlank pad'
      → AreDigits (c ∷ s)
      → parse_limit (some (pad ++ (c ∷ s ++ pad')))
        ≡ (if leb (value_of (c ∷ s)) i64_max then some (value_of (c ∷ s)) else none)
  unfolding parse_limit
  parse_limit_lem before after h = ground (
    arith,
    trim_lem pad pad' s c before after (λ d m. digit-solid d (h d m)),
    parse_i64_lem s c h,
  )

  parse_limit-minus :
      AreBlank pad
      → AreBlank pad'
      → AreDigits (c ∷ s)
      → parse_limit (some (pad ++ (0x2d ∷ c ∷ s ++ pad')))
        ≡ (if value_of (c ∷ s) == 0 then some 0 else none)
  unfolding parse_limit parse_i64
  parse_limit-minus before after h =
      let solid = AreSolid-cons 0x2d (c ∷ s) refl (λ d m. digit-solid d (h d m)) in
      ground
        (arith, trim_lem pad pad' (c ∷ s) 0x2d before after solid, parse_digits_lem 0 (c ∷ s) h)

parse_limit-blank : (pad : Str) → AreBlank pad → parse_limit (some pad) ≡ some 0
unfolding parse_limit
parse_limit-blank pad h = rw (trim-blank pad h) refl

module _ {V C : Type 0} (j : Json V) (null : V) (followed authors : Iteration)
    (st : Service C) where
  -- What a request for a timeline is answered, given the limit it asks for, if that is a valid one.
  abbrev pub answer : Option Str → Option ℕ → Response V
  answer user limit =
      if is_empty (unwrap_or [] user) then error j 400 (lit "empty_user") else elim limit [
        | none ↦ error j 400 (lit "invalid_limit")
        | some n ↦ record {
          status = 200;
          body =
              some (timeline_resp j null (home_timeline followed authors st (unwrap_or [] user) n));
        }
      ]

  -- GET /timeline with blanks around a limit: decimal digits stand for the number that they denote,
  -- up to the largest `i64`, and are invalid above it; with a minus sign they stand for zero, and are
  -- invalid unless they denote it; and blanks alone, like no limit, stand for zero. A user that is
  -- missing or empty is refused first, with 400 empty_user, and an invalid limit with 400
  -- invalid_limit; otherwise the answer is 200 and the user's timeline at that limit.
  pub timeline_lem :
      (user : Option Str) (pad pad' digits : Str) (digit : ℕ)
      → AreBlank pad
      → AreBlank pad'
      → AreDigits (digit ∷ digits)
      → let value = value_of (digit ∷ digits) in
        (timeline j null followed authors user (some (pad ++ (digit ∷ digits ++ pad'))) st
          ≡ answer user (if leb value i64_max then some value else none))
        × (timeline j null followed authors user (some (pad ++ (0x2d ∷ digit ∷ digits ++ pad'))) st
            ≡ answer user (if value == 0 then some 0 else none))
        × (timeline j null followed authors user (some pad) st ≡ answer user (some 0))
        × (timeline j null followed authors user none st ≡ answer user (some 0))
  unfolding timeline parse_limit
  timeline_lem user pad pad' digits digit before after h = (
    ap (answer user) (parse_limit_lem pad pad' digits digit before after h),
    ap (answer user) (parse_limit-minus pad pad' digits digit before after h),
    ap (answer user) (parse_limit-blank pad before),
    refl,
  )
