-- ===== src/Wire/Manifest.antt =====
-- shared/chunk-manifest.ts: the packed list of the chunks of a file version, format DSM1.
pub mod RoundTrip
pub mod Pages
use delta_sync_engine.Prelude.{
  ℕ, zero, suc, ◌+◌, ◌*◌, List, [], ◌∷◌, ◌++◌, ◌&&◌, Option, none, some, leb, ltb, if◌then◌else◌,
  length, take, drop, slice, map, Result, ok, err, or_throw, ensure, ◌>>=◌, ◌>>◌,
}
use mathlib.Core.Option
use delta_sync_engine.Prelude.Texts.{Text, text_eq, text_mem, codes}
use delta_sync_engine.Hash.Strong.{buf_to_hex}
use delta_sync_engine.Wire.Bytes.{to_uint32, u32_le, read_u32_le, hex_decode}

abbrev pub manifest_magic : Text
manifest_magic = codes "DSM1"

pub record ManifestRow : Type 0 where
  pub offset : ℕ
  pub length : ℕ
  pub weak_hash : ℕ
  pub strong_hash_hex : Text

pub record ManifestChunk : Type 0 where
  pub block_index : ℕ
  pub offset : ℕ
  pub length : ℕ
  pub weak_hash : ℕ
  pub strong_hash_hex : Text

pub data ManifestError : Type 0 where
  invalid_magic truncated out_of_range : ManifestError

-- `buf.write(hex, p, 32, "hex")` writes what decodes; behind it stays what the memory held.
unfoldable pub write_hex : List ℕ → Text → List ℕ
unfolding hex_decode
write_hex memory hex =
    take 32 (hex_decode hex) ++ drop (length (take 32 (hex_decode hex))) (take 32 memory)

-- The rows, written over the memory from the first row on; what lies behind them is kept.
unfoldable pub encode_rows : List ℕ → List ManifestRow → List ℕ
unfolding u32_le write_hex
encode_rows memory [] = memory
encode_rows memory (c ∷ chunks) =
    u32_le (to_uint32 c.offset)
    ++ (u32_le (to_uint32 c.length)
        ++ (u32_le (to_uint32 c.weak_hash)
            ++ (write_hex (drop 12 memory) c.strong_hash_hex
                ++ encode_rows (drop 44 memory) chunks)))

-- `alloc_unsafe n` is the memory that `Buffer.allocUnsafe(n)` returns, with whatever it holds. The
-- source allocates 4 + 4 + 4 + 4 + 32 bytes for a row, and writes 44 of them.
unfoldable pub encode_chunk_manifest_v1 : (ℕ → List ℕ) → List ManifestRow → List ℕ
unfolding encode_rows
encode_chunk_manifest_v1 alloc_unsafe chunks =
    let memory = alloc_unsafe (8 + length chunks * 48) in
    manifest_magic ++ (u32_le (length chunks) ++ encode_rows (drop 8 memory) chunks)

unfoldable pub decode_row : List ℕ → ℕ → ℕ → Result ManifestError ManifestChunk
unfolding read_u32_le
decode_row buf p i = do
  offset ← or_throw (read_u32_le buf p) out_of_range
  len ← or_throw (read_u32_le buf (p + 4)) out_of_range
  weak_hash ← or_throw (read_u32_le buf (p + 8)) out_of_range
  ok (record {
    block_index = i;
    offset = offset;
    length = len;
    weak_hash = weak_hash;
    strong_hash_hex = buf_to_hex (slice buf (p + 12) (p + 44));
  })

unfoldable pub decode_rows : ℕ → List ℕ → ℕ → ℕ → Result ManifestError (List ManifestChunk)
decode_rows zero buf p i = ok []
decode_rows (suc rounds) buf p i = do
  chunk ← decode_row buf p i
  chunks ← decode_rows rounds buf (p + 44) (i + 1)
  ok (chunk ∷ chunks)

-- The checks in front of the rows: the number of rows.
unfoldable pub read_header : List ℕ → Result ManifestError ℕ
unfolding read_u32_le
read_header buf = do
  ensure (leb 8 (length buf) && text_eq (take 4 buf) manifest_magic) invalid_magic
  count ← or_throw (read_u32_le buf 4) out_of_range
  ensure (leb (8 + count * 44) (length buf)) truncated
  ok count

unfoldable pub decode_chunk_manifest_v1 : List ℕ → Result ManifestError (List ManifestChunk)
unfolding read_header decode_rows
decode_chunk_manifest_v1 buf = do count ← read_header buf; decode_rows count buf 8 0

-- The callback acts on a state; the rows are handed to it one by one.
unfoldable pub stream_rows {ℓ} :
    {S : Type ℓ} → (ManifestChunk → S → S) → ℕ → List ℕ → ℕ → ℕ → S → Result ManifestError S
unfolding decode_row
stream_rows callback zero buf p i s = ok s
stream_rows callback (suc rounds) buf p i s = do
  chunk ← decode_row buf p i
  stream_rows callback rounds buf (p + 44) (i + 1) (callback chunk s)

unfoldable pub decode_chunk_manifest_v1_streaming {ℓ} :
    {S : Type ℓ} → List ℕ → (ManifestChunk → S → S) → S → Result ManifestError (ℕ × S)
unfolding read_header stream_rows
decode_chunk_manifest_v1_streaming buf callback s = do
  count ← read_header buf
  s' ← stream_rows callback count buf 8 0 s
  ok (count, s')

-- `seen.add(hash)`, if it is not there; the set keeps the order of insertion. The source's `page`
-- is filled beside it and never read.
unfoldable pub see : ManifestChunk → List Text → List Text
unfolding text_mem
see chunk seen =
    if text_mem chunk.strong_hash_hex seen then seen else seen ++ chunk.strong_hash_hex ∷ []

-- `for (let i = 0; i < all.length; i += pageSize) yield all.slice(i, i + pageSize)`; `none` is a loop
-- that has not ended when the fuel is used up, as with pages of size 0.
unfoldable pub pages_from : ℕ → List Text → ℕ → ℕ → Option (List (List Text))
pages_from zero all page_size i = none
pages_from (suc fuel) all page_size i =
    let rest = pages_from fuel all page_size (i + page_size) in
    if ltb i (length all)
    then Option.map (λ pages. slice all i (i + page_size) ∷ pages) rest
    else some []

unfoldable pub iterate_manifest_hash_pages :
    List ℕ → ℕ → Result ManifestError (Option (List (List Text)))
unfolding decode_chunk_manifest_v1_streaming see pages_from
iterate_manifest_hash_pages buf page_size = do
  (count, seen) ← decode_chunk_manifest_v1_streaming buf see []
  ok (pages_from (length seen + 1) seen page_size 0)
