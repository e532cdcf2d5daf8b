-- ===== src/Wire/Bytes.antt =====
-- Node's `Buffer`: little-endian numbers, and bytes as hexadecimal text.
use delta_sync_engine.Prelude.{
  ℕ, ◌+◌, ◌-◌, ◌*◌, ◌/◌, ◌%◌, ◌^◌, ◌<◌, ◌≡◌, refl, sym, ap, ◌∙◌, List, [], ◌∷◌, ◌++◌, Option, none,
  some, ◌&&◌, arith, leb, if◌then◌else◌, length, drop, All, drop-drop, drop-append,
}
use delta_sync_engine.Prelude.Texts.{Text}
use delta_sync_engine.Hash.Strong.{hex_digit, hex_byte, buf_to_hex}
use delta_sync_engine.Hash.Adler.{IsByte}

-- `n >>> 0` of a whole number that is not negative.
abbrev pub to_uint32 : ℕ → ℕ
to_uint32 n = n % 2 ^ 32

-- The four bytes that `writeUInt32LE` writes.
unfoldable pub u32_le : ℕ → List ℕ
u32_le v = v % 256 ∷ v / 256 % 256 ∷ v / 65536 % 256 ∷ v / 16777216 % 256 ∷ []

unfoldable pub u32_at : List ℕ → Option ℕ
u32_at (a ∷ b ∷ c ∷ d ∷ rest) = some (a + b * 256 + c * 65536 + d * 16777216)
u32_at _ = none

unfoldable pub u8_at : List ℕ → Option ℕ
u8_at [] = none
u8_at (a ∷ rest) = some a

-- Reads are out of range where `none`.
unfoldable pub read_u8 : List ℕ → ℕ → Option ℕ
unfolding u8_at
read_u8 buf p = u8_at (drop p buf)

unfoldable pub read_u32_le : List ℕ → ℕ → Option ℕ
unfolding u32_at
read_u32_le buf p = u32_at (drop p buf)

-- The value of a hexadecimal digit, in either case.
unfoldable pub hex_value : ℕ → Option ℕ
hex_value c =
    if leb b'0' c && leb c b'9'
    then some (c - b'0')
    else if leb b'a' c && leb c b'f'
    then some (c - b'a' + 10)
    else if leb b'A' c && leb c b'F'
    then some (c - b'A' + 10)
    else none

-- A byte from the values of its two digits, in front of the bytes behind it.
unfoldable pub hex_pair : Option ℕ → Option ℕ → List ℕ → List ℕ
hex_pair (some x) (some y) rest = (x * 16 + y) ∷ rest
hex_pair _ _ rest = []

-- `Buffer.from(text, "hex")` stops at the first pair that is not two hexadecimal digits.
unfoldable pub hex_decode : Text → List ℕ
unfolding hex_value hex_pair
hex_decode [] = []
hex_decode (c ∷ []) = []
hex_decode (c ∷ d ∷ text) = hex_pair (hex_value c) (hex_value d) (hex_decode text)

hex_value-hex_digit : (d : ℕ) → d < 16 → hex_value (hex_digit d) ≡ some d
unfolding hex_value hex_digit
hex_value-hex_digit d h = ground arith

hex_byte_digits : (b : ℕ) → hex_byte b ≡ hex_digit (b / 16) ∷ hex_digit (b % 16) ∷ []
unfolding hex_byte hex_digit
hex_byte_digits b = ground arith

-- Decoding the hexadecimal text of bytes gives those bytes.
pub hex_decode-buf_to_hex : (buf : List ℕ) → All IsByte buf → hex_decode (buf_to_hex buf) ≡ buf
unfolding hex_decode buf_to_hex
hex_decode-buf_to_hex [] h = refl
hex_decode-buf_to_hex (b ∷ buf) (byte, h) =
    rw
      (
        hex_byte_digits b,
        hex_value-hex_digit (b / 16) (omega arith),
        hex_value-hex_digit (b % 16) (omega arith),
        hex_decode-buf_to_hex buf h,
      )
      (ap (λ (v : ℕ). v ∷ buf) (omega arith))

pub u32_at-u32_le : (v : ℕ) (rest : List ℕ) → u32_at (u32_le v ++ rest) ≡ some (to_uint32 v)
unfolding u32_at u32_le
u32_at-u32_le v rest = ap some (omega arith)

pub reads_u32 :
    (buf rest : List ℕ) (p v : ℕ)
    → drop p buf ≡ u32_le v ++ rest
    → read_u32_le buf p ≡ some (to_uint32 v)
unfolding read_u32_le
reads_u32 buf rest p v e = rw e (u32_at-u32_le v rest)

-- Where the bytes from `p` on are known, so are those behind what is read.
pub drop-behind :
    (buf front rest : List ℕ) (p k : ℕ)
    → drop p buf ≡ front ++ rest
    → length front ≡ k
    → drop (p + k) buf ≡ rest
drop-behind buf front rest p k e n =
    sym (drop-drop p k (p + k) buf refl) ∙ ap (drop k) e ∙ drop-append front rest k n
