-- ===== src/Wire/Manifest/RoundTrip.antt =====
-- A manifest that was written is read back, whatever the new buffer's memory held.
use delta_sync_engine.Prelude.{
  ℕ, ◌+◌, ◌-◌, ◌*◌, ◌^◌, ◌≤◌, ◌<◌, ◌≡◌, refl, ap, ◌∙◌, List, [], ◌∷◌, ◌++◌, some, true, arith, leb,
  length, length-append, take, drop, slice, take-all, take-append, length-drop, length-take,
  drop-all, All, ok,
}
use mathlib.Core.List.{append-nil}
use delta_sync_engine.Prelude.Texts.{Text, text_eq}
use delta_sync_engine.Hash.Adler.{IsByte}
use delta_sync_engine.Hash.Strong.{buf_to_hex}
use delta_sync_engine.Wire.Bytes.{
  to_uint32, u32_le, read_u32_le, reads_u32, drop-behind, hex_decode, hex_decode-buf_to_hex,
}
use delta_sync_engine.Wire.Manifest.{
  ManifestRow, ManifestChunk, manifest_magic, write_hex, encode_rows, encode_chunk_manifest_v1,
  decode_row, decode_rows, read_header, decode_chunk_manifest_v1,
}

-- The strong hash of the row is the hexadecimal text of 32 bytes.
pub record IsHashed (row : ManifestRow) : Type 0 where
  pub digest : List ℕ
  pub size : length digest ≡ 32
  pub bytes : All IsByte digest
  pub hex : row.strong_hash_hex ≡ buf_to_hex digest

write_hex-hashed :
    (memory : List ℕ) (row : ManifestRow) (h : IsHashed row)
    → write_hex memory row.strong_hash_hex ≡ h.digest
unfolding write_hex
write_hex-hashed memory row h =
    let decoded : hex_decode row.strong_hash_hex ≡ h.digest =
      ap hex_decode h.hex ∙ hex_decode-buf_to_hex h.digest h.bytes in
    let whole : take 32 h.digest ≡ h.digest = take-all h.digest 32 (omega (arith, h.size)) in
    let nothing : drop (length h.digest) (take 32 memory) ≡ [] =
      drop-all (take 32 memory) (length h.digest) (omega (arith, h.size, length-take 32 memory)) in
    rw (decoded, whole, nothing, append-nil)

-- A row with the bytes `d` of its hash, in front of `rest`.
row_bytes : ManifestRow → List ℕ → List ℕ → List ℕ
row_bytes row d rest =
    u32_le (to_uint32 row.offset)
    ++ (u32_le (to_uint32 row.length) ++ (u32_le (to_uint32 row.weak_hash) ++ (d ++ rest)))

-- What a row of the format says of the chunk numbered `i`.
abbrev pub chunk_of : ℕ → ManifestRow → ManifestChunk
chunk_of i row = record {
  block_index = i;
  offset = to_uint32 row.offset;
  length = to_uint32 row.length;
  weak_hash = to_uint32 row.weak_hash;
  strong_hash_hex = row.strong_hash_hex;
}

abbrev pub chunks_of : ℕ → List ManifestRow → List ManifestChunk
chunks_of i [] = []
chunks_of i (row ∷ rows) = chunk_of i row ∷ chunks_of (i + 1) rows

decode_row-row_bytes :
    (buf : List ℕ) (p i : ℕ) (row : ManifestRow) (h : IsHashed row) (rest : List ℕ)
    → drop p buf ≡ row_bytes row h.digest rest
    → (decode_row buf p i ≡ ok (chunk_of i row)) × (drop (p + 44) buf ≡ rest)
unfolding decode_row row_bytes u32_le
decode_row-row_bytes buf p i row h rest e =
    let a = u32_le (to_uint32 row.offset) in
    let b = u32_le (to_uint32 row.length) in
    let c = u32_le (to_uint32 row.weak_hash) in
    let d = h.digest in
    let at_b = drop-behind buf a (b ++ (c ++ (d ++ rest))) p 4 e refl in
    let at_c = drop-behind buf (a ++ b) (c ++ (d ++ rest)) p 8 e refl in
    let at_d = drop-behind buf (a ++ (b ++ c)) (d ++ rest) p 12 e refl in
    let behind = drop-behind buf (a ++ (b ++ (c ++ d))) rest p 44 e (omega (arith, h.size)) in
    let width : p + 44 - (p + 12) ≡ 32 = omega arith in
    let hash : slice buf (p + 12) (p + 44) ≡ d = rw (width, at_d) (take-append d rest 32 h.size) in
    (
      rw
          (
            reads_u32 buf _ p (to_uint32 row.offset) e,
            reads_u32 buf _ (p + 4) (to_uint32 row.length) at_b,
            reads_u32 buf _ (p + 8) (to_uint32 row.weak_hash) at_c,
            hash,
            ← h.hex,
          )
          (ground arith),
      behind,
    )

decode_rows-encode_rows :
    (buf memory : List ℕ) (p i : ℕ) (rows : List ManifestRow)
    → All IsHashed rows
    → drop p buf ≡ encode_rows memory rows
    → decode_rows (length rows) buf p i ≡ ok (chunks_of i rows)
unfolding decode_rows encode_rows
decode_rows-encode_rows buf memory p i [] h e = refl
decode_rows-encode_rows buf memory p i (row ∷ rows) (hashed, h) e =
    let rest = encode_rows (drop 44 memory) rows in
    let here : drop p buf ≡ row_bytes row hashed.digest rest =
      unfold row_bytes in (rw (write_hex-hashed (drop 12 memory) row hashed) at e) in
    let (first, behind) = decode_row-row_bytes buf p i row hashed rest here in
    rw (first, decode_rows-encode_rows buf (drop 44 memory) (p + 44) (i + 1) rows h behind)

write_hex-length :
    (memory : List ℕ) (hex : Text) → 32 ≤ length memory → length (write_hex memory hex) ≡ 32
unfolding write_hex
write_hex-length memory hex h =
    let written = take 32 (hex_decode hex) in
    omega (
      arith,
      length-append written (drop (length written) (take 32 memory)),
      length-take 32 (hex_decode hex),
      length-drop (length written) (take 32 memory),
      length-take 32 memory,
    )

length-encode_rows :
    (memory : List ℕ) (rows : List ManifestRow)
    → length rows * 44 ≤ length memory
    → length (encode_rows memory rows) ≡ length memory
unfolding encode_rows u32_le
length-encode_rows memory [] h = refl
length-encode_rows memory (row ∷ rows) h = omega (
  arith,
  length-append (write_hex (drop 12 memory) row.strong_hash_hex)
      (encode_rows (drop 44 memory) rows),
  write_hex-length (drop 12 memory) row.strong_hash_hex (omega (arith, length-drop 12 memory)),
  length-encode_rows (drop 44 memory) rows (omega (arith, length-drop 44 memory)),
  length-drop 44 memory,
)

-- The encoding of n rows has 8 + 48 n bytes, if memory is allocated in the size asked for.
pub length-encode_chunk_manifest_v1 :
    (alloc_unsafe : ℕ → List ℕ) (rows : List ManifestRow)
    → ((n : ℕ) → length (alloc_unsafe n) ≡ n)
    → length (encode_chunk_manifest_v1 alloc_unsafe rows) ≡ 8 + length rows * 48
unfolding encode_chunk_manifest_v1 u32_le
length-encode_chunk_manifest_v1 alloc rows sized =
    let memory = alloc (8 + length rows * 48) in
    let size : length memory ≡ 8 + length rows * 48 = sized (8 + length rows * 48) in
    omega (
      arith,
      length-encode_rows (drop 8 memory) rows (omega (arith, length-drop 8 memory)),
      length-drop 8 memory,
    )

-- Decoding the encoding of fewer than 2^32 rows, whose strong hashes are hexadecimal texts of 32
-- bytes, returns those rows, numbered from 0, with their numbers taken modulo 2^32, whatever the
-- memory of the right size that the buffer is allocated in.
pub decode-encode_chunk_manifest_v1 :
    (alloc_unsafe : ℕ → List ℕ) (rows : List ManifestRow)
    → ((n : ℕ) → length (alloc_unsafe n) ≡ n)
    → All IsHashed rows
    → length rows < 2 ^ 32
    → decode_chunk_manifest_v1 (encode_chunk_manifest_v1 alloc_unsafe rows) ≡ ok (chunks_of 0 rows)
unfolding decode_chunk_manifest_v1 read_header text_eq
decode-encode_chunk_manifest_v1 alloc rows sized hashed few =
    let buf = encode_chunk_manifest_v1 alloc rows in
    let memory = alloc (8 + length rows * 48) in
    let size : length buf ≡ 8 + length rows * 48 =
      length-encode_chunk_manifest_v1 alloc rows sized in
    let long : leb 8 (length buf) ≡ true = ground arith in
    let fits : leb (8 + length rows * 44) (length buf) ≡ true = ground arith in
    let body : drop 8 buf ≡ encode_rows (drop 8 memory) rows =
      unfold encode_chunk_manifest_v1 u32_le in refl in
    let behind_magic : drop 4 buf ≡ u32_le (length rows) ++ encode_rows (drop 8 memory) rows =
      unfold encode_chunk_manifest_v1 in refl in
    let magic : text_eq (take 4 buf) manifest_magic ≡ true =
      unfold encode_chunk_manifest_v1 in refl in
    let count : read_u32_le buf 4 ≡ some (length rows) =
      reads_u32 buf _ 4 (length rows) behind_magic ∙ ap some (omega arith) in
    rw (long, magic, count, fits, decode_rows-encode_rows buf (drop 8 memory) 8 0 rows hashed body)
