-- ===== src/Hash/Adler.antt =====
-- Adler-32, computed over a block and rolled by one byte (src/lib/rsync/adler32.ts, shared/hash.ts).
pub mod Rolling
pub mod Packing
use Prim.Native.Nat.{bit_and, bit_or}
use delta_sync_engine.Prelude.{ℕ, ◌+◌, ◌-◌, ◌*◌, ◌%◌, ◌^◌, ◌<◌, List, [], ◌∷◌, length}

abbrev pub mod_adler : ℕ
mod_adler = 65521

pub record Adler32State : Type 0 where
  pub a : ℕ
  pub b : ℕ
  pub block_size : ℕ

-- `for (let i = start; i < end; i++)`, over the bytes of that window.
unfoldable pub adler32_loop : List ℕ → ℕ → ℕ → ℕ × ℕ
adler32_loop [] a b = (a, b)
adler32_loop (x ∷ xs) a b =
    let a' = (a + x) % mod_adler in let b' = (b + a') % mod_adler in adler32_loop xs a' b'

-- The argument is the window that `start` and `end` cut out of the bytes.
unfoldable pub adler32 : List ℕ → Adler32State
unfolding adler32_loop
adler32 bytes =
    let (a, b) = adler32_loop bytes 1 0 in record { a = a; b = b; block_size = length bytes }

-- The sums of `b` are written with what is added first, since `-` stops at 0.
unfoldable pub roll_adler32 : Adler32State → ℕ → ℕ → Adler32State
roll_adler32 state out_byte in_byte =
    let a = (state.a + in_byte + mod_adler - out_byte) % mod_adler in
    let b =
      (state.b + a + mod_adler * (state.block_size + 1) - state.block_size * out_byte - 1)
      % mod_adler in
    record { a = a; b = b; block_size = state.block_size }

-- `((b << 16) | a) >>> 0`
unfoldable pub adler32_hash : Adler32State → ℕ
adler32_hash state = bit_or (state.b * 65536 % 2 ^ 32) state.a

unfoldable pub weak16 : ℕ → ℕ
weak16 hash = bit_and hash 0xffff

-- shared/hash.ts has the loop and the packing in one function.
unfoldable pub adler32_value : List ℕ → ℕ
unfolding adler32_loop
adler32_value bytes = let (a, b) = adler32_loop bytes 1 0 in bit_or (b * 65536 % 2 ^ 32) a

abbrev pub IsByte : ℕ → Type 0
IsByte b = b < 256
