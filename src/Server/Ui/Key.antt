-- ===== src/Server/Ui/Key.antt =====
-- `signing_key` of crates/server/src/ui.rs: the key of the HMAC, from the environment or from the clock of
-- the machine, made once. `decode` is `hex::decode`, and `readings i` the nanoseconds since the epoch at
-- the i-th reading of the clock, if it is past the epoch.
use Prim.Native.Nat.{bit_and, ◌/◌, ◌%◌, ◌^◌, ◌*◌, ◌+◌}
use native.Mathlib.Nat.{mod-mod, add-mul, mul_assoc, add-mul-mod_self_left}
use twitter_rust_formal_veri.Std.Bits.{bit_and-byte}
use twitter_rust_formal_veri.Prelude.{
  ℕ, zero, suc, ◌≤◌, leb, Str, Option, none, some, List, [], ◌∷◌, length, ◌≡◌, refl, sym, ◌∙◌, ap,
  ap₂, arith, if◌then◌else◌, unwrap_or,
}

-- The byte `i` of the ephemeral key
unfoldable pub key_byte : ℕ → ℕ → ℕ
key_byte now i = bit_and (now * ((i + 1) % 2 ^ 128) % 2 ^ 128) 0xff % 2 ^ 8

-- `for (i, b) in k.iter_mut().enumerate()`, from the byte `i` on, for `n` bytes
unfoldable pub key_bytes : (ℕ → Option ℕ) → ℕ → ℕ → List ℕ
unfolding key_byte
key_bytes readings i zero = []
key_bytes readings i (suc n) = key_byte (unwrap_or 0 (readings i)) i ∷ key_bytes readings (i + 1) n

unfoldable pub ephemeral_key : (ℕ → Option ℕ) → List ℕ
unfolding key_bytes
ephemeral_key readings = key_bytes readings 0 32

module _ (decode : Str → Option (List ℕ)) where
  unfoldable pub init_key : Option Str → (ℕ → Option ℕ) → List ℕ
  unfolding ephemeral_key
  init_key none readings = ephemeral_key readings
  init_key (some hex_key) readings = elim (decode hex_key) [
    | some bytes ↦ if leb 16 (length bytes) then bytes else ephemeral_key readings
    | none ↦ ephemeral_key readings
  ]

  -- `KEY.get_or_init`: the key, and the cell that holds it from then on.
  unfoldable pub signing_key :
      Option Str → (ℕ → Option ℕ) → Option (List ℕ) → List ℕ × Option (List ℕ)
  unfolding init_key
  signing_key hex_key readings (some key) = (key, some key)
  signing_key hex_key readings none = let key = init_key hex_key readings in (key, some key)

-- Two clocks whose readings agree in the lowest byte
abbrev pub SameLowBytes : (ℕ → Option ℕ) → (ℕ → Option ℕ) → Type 0
SameLowBytes readings others =
    (i : ℕ) → unwrap_or 0 (readings i) % 256 ≡ unwrap_or 0 (others i) % 256

mul-mod_left_factor : (a c : ℕ) → a * c % 256 ≡ a % 256 * c % 256
mul-mod_left_factor a c =
    ap (λ x. x * c % 256) split
    ∙ ap (λ x. x % 256)
        (add-mul (a % 256) (256 * (a / 256)) c
          ∙ ap (λ x. a % 256 * c + x) (mul_assoc 256 (a / 256) c))
    ∙ add-mul-mod_self_left (a % 256 * c) 256 (a / 256 * c)
  where
    split : a ≡ a % 256 + 256 * (a / 256)
    split = omega arith

key_byte-mod : (now i : ℕ) → key_byte now i ≡ now % 256 * ((i + 1) % 2 ^ 128) % 256
unfolding key_byte
key_byte-mod now i =
    let c = (i + 1) % 2 ^ 128 in
    ap (λ x. x % 256) (bit_and-byte (now * c % 2 ^ 128))
    ∙ mod-mod (now * c % 2 ^ 128) 256
    ∙ omega arith
    ∙ mul-mod_left_factor now c

module _ (readings others : ℕ → Option ℕ) (same : SameLowBytes readings others) where
  key_bytes-same : (n i : ℕ) → key_bytes readings i n ≡ key_bytes others i n
  unfolding key_bytes
  key_bytes-same zero i = refl
  key_bytes-same (suc n) i =
      ap₂ ◌∷◌
        (key_byte-mod (unwrap_or 0 (readings i)) i
          ∙ ap (λ x. x * ((i + 1) % 2 ^ 128) % 256) (same i)
          ∙ sym (key_byte-mod (unwrap_or 0 (others i)) i))
        (key_bytes-same n (i + 1))

  ephemeral_key-same : ephemeral_key readings ≡ ephemeral_key others
  unfolding ephemeral_key
  ephemeral_key-same = key_bytes-same 32 0

length-key_bytes : (readings : ℕ → Option ℕ) (n i : ℕ) → length (key_bytes readings i n) ≡ n
unfolding key_bytes
length-key_bytes readings zero i = refl
length-key_bytes readings (suc n) i = omega (arith, length-key_bytes readings n (i + 1))

length-ephemeral_key : (readings : ℕ → Option ℕ) → length (ephemeral_key readings) ≡ 32
unfolding ephemeral_key
length-ephemeral_key readings = length-key_bytes readings 32 0

module _ (decode : Str → Option (List ℕ)) where
  init_key-same :
      (hex_key : Option Str) (readings others : ℕ → Option ℕ)
      → SameLowBytes readings others
      → init_key decode hex_key readings ≡ init_key decode hex_key others
  unfolding init_key
  init_key-same hex_key readings others same =
      ground (arith, ephemeral_key-same readings others same)

  length-init_key :
      (hex_key : Option Str) (readings : ℕ → Option ℕ)
      → 16 ≤ length (init_key decode hex_key readings)
  unfolding init_key
  length-init_key hex_key readings = ground (arith, length-ephemeral_key readings)

  -- The key is made once: a later call gives the same key, whatever the environment and the clock say by
  -- then. It has at least sixteen bytes. And of the readings of the clock it depends on the lowest bytes
  -- alone: a server that starts with the same environment, at times that agree in these, has the same
  -- key.
  pub signing_key_lem :
      (hex_key later_hex_key : Option Str) (readings others later_readings : ℕ → Option ℕ)
      → SameLowBytes readings others
      → let (key, cell) = signing_key decode hex_key readings none in
        (signing_key decode later_hex_key later_readings cell ≡ (key, cell))
        × (16 ≤ length key)
        × (signing_key decode hex_key others none ≡ (key, cell))
  unfolding signing_key
  signing_key_lem hex_key later_hex_key readings others later_readings same = (
    refl,
    length-init_key hex_key readings,
    ap (λ (key : List ℕ). (key, some key)) (sym (init_key-same hex_key readings others same)),
  )
