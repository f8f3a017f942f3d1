-- ===== src/Errors.antt =====
-- src/errors.mjs: the fault that every module raises, the fingerprint used in session keys, and the
-- redaction of diagnostics. A text whose bytes are read is the list of its UTF-8 bytes.
use Prim.Native.Nat.{bit_xor}
use Prim.Native.String.{◌++◌ as text_append}
use native.Mathlib.Nat.{pow-suc}
use floe_runtime.Prelude.{
  ℕ, zero, suc, ◌+◌, ◌-◌, ◌*◌, ◌/◌, ◌%◌, ◌^◌, ◌<◌, ◌≡◌, refl, String, Bool, true, false, List, [],
  ◌∷◌, ◌++◌, arith, length, length-append, drop, length-drop, if◌then◌else◌, ltb, lt→ltb, ◌≤◌, All,
  All-append, ◌∙◌, ◌⊎◌,
}

infixl 65 ◌⧺◌
abbrev pub ◌⧺◌ : String → String → String
s ⧺ t = text_append s t

pub record RuntimeFault : Type 0 where
  pub fault_code : String
  pub message : String
  pub status : ℕ

-- What a call returns: a value, or the fault that it throws.
pub data Result {ℓ} (V : Type ℓ) : Type ℓ where
  err : RuntimeFault → Result V
  ok : V → Result V

infixl 5 ◌>>=◌ ◌>>◌
abbrev pub ◌>>=◌ {ℓ κ} : {V : Type ℓ} {W : Type κ} → Result V → (V → Result W) → Result W
err thrown >>= next = err thrown
ok value >>= next = next value

abbrev pub ◌>>◌ {ℓ} : {W : Type ℓ} → Result (Unit {0}) → Result W → Result W
first >> next = first >>= λ done. next

abbrev pub fault : String → String → ℕ → RuntimeFault
fault c m s = record { fault_code = c; message = m; status = s }

-- `check`
abbrev pub check : Bool → String → String → ℕ → Result (Unit {0})
check true c m s = ok tt
check false c m s = err (fault c m s)

abbrev fnv_prime : ℕ
fnv_prime = 1099511628211

abbrev pub fnv_offset : ℕ
fnv_offset = 14695981039346656037

-- The loop of `digest`: FNV-1a on 64 bits.
pub fnv_from : ℕ → List ℕ → ℕ
fnv_from offset [] = offset
fnv_from offset (byte ∷ bytes) = fnv_from ((bit_xor offset byte * fnv_prime) % 2 ^ 64) bytes

fnv_from-lt : (offset : ℕ) (bytes : List ℕ) → offset < 2 ^ 64 → fnv_from offset bytes < 2 ^ 64
unfolding fnv_from
fnv_from-lt offset [] h = h
fnv_from-lt offset (byte ∷ bytes) h =
    fnv_from-lt ((bit_xor offset byte * fnv_prime) % 2 ^ 64) bytes (omega arith)

-- A hexadecimal digit, as `toString(16)` writes it.
hex_digit : ℕ → ℕ
hex_digit d = if ltb d 10 then b'0' + d else b'a' + (d - 10)

-- The low `n` hexadecimal digits of a number, most significant first: `toString(16)` followed by
-- `padStart(n, '0')`, for a number below 16 ^ n.
hex_padded : ℕ → ℕ → List ℕ
unfolding hex_digit
hex_padded zero x = []
hex_padded (suc n) x = hex_padded n (x / 16) ++ hex_digit (x % 16) ∷ []

pub digest : List ℕ → List ℕ
unfolding fnv_from hex_padded
digest bytes = hex_padded 16 (fnv_from fnv_offset bytes)

length-hex_padded : (n x : ℕ) → length (hex_padded n x) ≡ n
unfolding hex_padded
length-hex_padded zero x = refl
length-hex_padded (suc n) x = omega (
  arith,
  length-append (hex_padded n (x / 16)) (hex_digit (x % 16) ∷ []),
  length-hex_padded n (x / 16),
)

-- A digest read back as a number.
hex_digit_value : ℕ → ℕ
hex_digit_value c = if ltb c b'a' then c - b'0' else c - b'a' + 10

pub hex_value : List ℕ → ℕ → ℕ
hex_value [] acc = acc
hex_value (c ∷ cs) acc = hex_value cs (acc * 16 + hex_digit_value c)

hex_value-append :
    (cs ds : List ℕ) (acc : ℕ) → hex_value (cs ++ ds) acc ≡ hex_value ds (hex_value cs acc)
unfolding hex_value
hex_value-append [] ds acc = refl
hex_value-append (c ∷ cs) ds acc = hex_value-append cs ds (acc * 16 + hex_digit_value c)

hex_digit_value-hex_digit : (d : ℕ) → d < 16 → hex_digit_value (hex_digit d) ≡ d
unfolding hex_digit_value hex_digit
hex_digit_value-hex_digit d h = ground arith

hex_value-hex_padded : (n x : ℕ) → x < 16 ^ n → hex_value (hex_padded n x) 0 ≡ x
unfolding hex_value hex_padded
hex_value-hex_padded zero x h = omega arith
hex_value-hex_padded (suc n) x h =
    rw (hex_value-append (hex_padded n (x / 16)) (hex_digit (x % 16) ∷ []) 0) (
      omega (
        arith,
        hex_value-hex_padded n (x / 16) (omega (arith, pow-suc 16 n)),
        hex_digit_value-hex_digit (x % 16) (omega arith),
      ))

-- The 64-bit FNV-1a hash as it is published: its offset basis, and its prime 2 ^ 40 + 2 ^ 8 + 0xb3.
abbrev pub fold_bytes : (ℕ → ℕ → ℕ) → ℕ → List ℕ → ℕ
fold_bytes step hash [] = hash
fold_bytes step hash (byte ∷ bytes) = fold_bytes step (step hash byte) bytes

pub fnv1a : List ℕ → ℕ
fnv1a bytes =
    fold_bytes (λ hash byte. (bit_xor hash byte * (2 ^ 40 + 2 ^ 8 + 179)) % 2 ^ 64)
      14695981039346656037 bytes

fnv_from-fold_bytes :
    (hash : ℕ) (bytes : List ℕ)
    → fnv_from hash bytes
      ≡ fold_bytes (λ h b. (bit_xor h b * (2 ^ 40 + 2 ^ 8 + 179)) % 2 ^ 64) hash bytes
unfolding fnv_from
fnv_from-fold_bytes hash [] = refl
fnv_from-fold_bytes hash (byte ∷ bytes) =
    fnv_from-fold_bytes ((bit_xor hash byte * fnv_prime) % 2 ^ 64) bytes

-- A digit 0 to 9 or a to f.
abbrev pub IsHexDigit : ℕ → Type 0
IsHexDigit c = ((b'0' ≤ c) × (c ≤ b'9')) ⊎ ((b'a' ≤ c) × (c ≤ b'f'))

hex_digit-IsHexDigit : (d : ℕ) → d < 16 → IsHexDigit (hex_digit d)
unfolding hex_digit
hex_digit-IsHexDigit d h = ground arith

hex_padded-IsHexDigit : (n x : ℕ) → All IsHexDigit (hex_padded n x)
unfolding hex_padded
hex_padded-IsHexDigit zero x = tt
hex_padded-IsHexDigit (suc n) x =
    All-append IsHexDigit (hex_padded n (x / 16)) (hex_digit (x % 16) ∷ [])
      (hex_padded-IsHexDigit n (x / 16)) (hex_digit-IsHexDigit (x % 16) (omega arith), tt)

-- A digest is sixteen small hexadecimal digits, and the number that they denote is the 64-bit FNV-1a hash
-- of the bytes.
pub digest-is-hash :
    (bytes : List ℕ)
    → (length (digest bytes) ≡ 16)
      × All IsHexDigit (digest bytes)
      × (hex_value (digest bytes) 0 ≡ fnv1a bytes)
unfolding digest fnv1a
digest-is-hash bytes =
    let below = fnv_from-lt fnv_offset bytes (omega arith) in
    (
      length-hex_padded 16 (fnv_from fnv_offset bytes),
      hex_padded-IsHexDigit 16 (fnv_from fnv_offset bytes),
      hex_value-hex_padded 16 (fnv_from fnv_offset bytes) below
          ∙ fnv_from-fold_bytes fnv_offset bytes,
    )

zero_sub : (n m : ℕ) → n ≤ m → n - m ≡ 0
zero_sub n m h = omega arith

-- `redact`: the last `max_length` characters. A negative zero is zero, so a bound of 0 keeps all.
pub redact : List ℕ → ℕ → List ℕ
redact text max_length = if ltb 0 max_length then drop (length text - max_length) text else text

-- A redacted text has at most `max_length` characters, if the bound is not 0, and a text that is
-- within the bound is left as it is.
pub redact_bounds :
    (text : List ℕ) (max_length : ℕ)
    → 0 < max_length
    → (length (redact text max_length) ≤ max_length)
      × (length text ≤ max_length → redact text max_length ≡ text)
unfolding redact
redact_bounds text max_length h = rw (lt→ltb 0 max_length h) (
  omega (arith, length-drop (length text - max_length) text),
  λ short. rw (zero_sub (length text) max_length short),
)
