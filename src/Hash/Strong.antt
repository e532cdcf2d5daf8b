-- ===== src/Hash/Strong.antt =====
-- The strong hash: SHA-256 as lower-case hexadecimal text (src/lib/rsync/strong-hash.ts, shared/hash.ts).
use delta_sync_engine.Prelude.{
  ℕ, ◌+◌, ◌-◌, ◌/◌, ◌%◌, ◌≡◌, refl, List, [], ◌∷◌, ◌++◌, arith, ltb, if◌then◌else◌, take,
}
use delta_sync_engine.Prelude.Texts.{Text, starts_with, codes}

-- The digit of a number below 16.
unfoldable pub hex_digit : ℕ → ℕ
hex_digit d = if ltb d 10 then b'0' + d else b'a' + (d - 10)

-- `b.toString(16).padStart(2, "0")` of a byte.
unfoldable pub hex_byte : ℕ → Text
unfolding hex_digit
hex_byte b =
    if ltb b 16 then b'0' ∷ hex_digit b ∷ [] else hex_digit (b / 16) ∷ hex_digit (b % 16) ∷ []

unfoldable pub buf_to_hex : List ℕ → Text
unfolding hex_byte
buf_to_hex [] = []
buf_to_hex (b ∷ buf) = hex_byte b ++ buf_to_hex buf

-- `digest` is `crypto.subtle.digest("SHA-256", …)`.
unfoldable pub sha256 : (List ℕ → List ℕ) → List ℕ → Text
sha256 digest bytes = buf_to_hex (digest bytes)

-- `temp-` keys are left alone; any other hash is stored below its first two characters.
unfoldable pub get_s3_key : Text → Text
unfolding starts_with
get_s3_key hash = if starts_with hash (codes "temp-") then hash else take 2 hash ++ (b'/' ∷ hash)

-- The hexadecimal text determines the bytes.
pub buf_to_hex-injective : (u v : List ℕ) → buf_to_hex u ≡ buf_to_hex v → u ≡ v
unfolding buf_to_hex
buf_to_hex-injective [] [] h = refl
buf_to_hex-injective [] (y ∷ v) h = absurd (ground arith)
buf_to_hex-injective (x ∷ u) [] h = absurd (ground arith)
buf_to_hex-injective (x ∷ u) (y ∷ v) h = ground (arith, buf_to_hex-injective u v)

pub sha256-injective :
    (digest : List ℕ → List ℕ) (u v : List ℕ)
    → (digest u ≡ digest v → u ≡ v)
    → sha256 digest u ≡ sha256 digest v
    → u ≡ v
unfolding sha256
sha256-injective digest u v h e = h (buf_to_hex-injective (digest u) (digest v) e)
