-- ===== src/Tests/Formats.antt =====
-- The formats on the wire, at small values.
use mathlib.Core.List.{flatten}
use delta_sync_engine.Prelude.{
  ℕ, zero, suc, some, none, ◌+◌, ◌≤◌, ◌<◌, ◌≡◌, refl, List, [], ◌∷◌, arith, length,
  length-replicate, replicate, map, All, ok, ◌>>=◌,
}
use delta_sync_engine.Prelude.Texts.{Text, Distinct, text_mem}
use delta_sync_engine.Hash.Strong.{buf_to_hex}
use delta_sync_engine.Wire.OpsBinary.{
  UploadOp, copy, literal, encode_ops_binary_v1, decode_ops_binary_v1,
}
use delta_sync_engine.Wire.OpsBinary.RoundTrip.{wrap_op, decode-encode_ops_binary_v1}
use delta_sync_engine.Wire.OpsFlatbuf.{
  FlatManifestInput, encode_flat_manifest, decode_ops_universal, copy_op, literal_op, dso2,
  block_size, content_sha256, new_size,
}
use delta_sync_engine.Wire.OpsFlatbuf.RoundTrip.{decode_ops_universal-encode_flat_manifest}
use delta_sync_engine.Wire.Manifest.{
  ManifestRow, encode_chunk_manifest_v1, decode_chunk_manifest_v1,
  decode_chunk_manifest_v1_streaming, iterate_manifest_hash_pages,
}
use delta_sync_engine.Wire.Manifest.RoundTrip.{IsHashed, chunks_of, decode-encode_chunk_manifest_v1}
use delta_sync_engine.Wire.Manifest.Pages.{
  feed, hashes, decode_streaming-decode, iterate_manifest_hash_pages_lem,
}

abbrev three_ops : List UploadOp
three_ops = copy 7 ∷ literal 0 300 ∷ copy 0 ∷ []

decode-encode_ops_binary_v1_example :
    decode_ops_binary_v1 (encode_ops_binary_v1 three_ops) ≡ ok (map wrap_op three_ops)
decode-encode_ops_binary_v1_example = decode-encode_ops_binary_v1 three_ops (omega arith)

abbrev digest_bytes : List ℕ
digest_bytes = replicate 32 171

abbrev pub memory : ℕ → List ℕ
memory n = replicate n 0

abbrev pub two_rows : List ManifestRow
two_rows =
    record { offset = 0; length = 5; weak_hash = 9; strong_hash_hex = buf_to_hex digest_bytes }
    ∷ record { offset = 5; length = 5; weak_hash = 9; strong_hash_hex = buf_to_hex digest_bytes }
    ∷ []

repeat_bytes : (n : ℕ) → All (λ b. b < 256) (replicate n 171)
repeat_bytes zero = tt
repeat_bytes (suc n) = (omega arith, repeat_bytes n)

abbrev flat_manifest : FlatManifestInput
flat_manifest = record {
  block_size = 4096;
  content_sha256 = buf_to_hex digest_bytes;
  new_size = 9000;
  ops =
      record { kind = copy_op; block_index = some 7; literal_offset = none; literal_length = none }
      ∷ record {
        kind = literal_op;
        block_index = none;
        literal_offset = some 300;
        literal_length = some 66000;
      }
      ∷ [];
}

decode_ops_universal-encode_flat_manifest_example :
    (buf : List ℕ) × (encode_flat_manifest flat_manifest ≡ ok buf)
    × (decode_ops_universal buf
        ≡ ok (record { format = dso2; ops = copy 7 ∷ literal 300 66000 ∷ []; reader = some buf }))
    × (block_size buf ≡ ok 4096)
    × (content_sha256 buf ≡ buf_to_hex digest_bytes)
    × (new_size buf ≡ ok 9000)
decode_ops_universal-encode_flat_manifest_example =
    decode_ops_universal-encode_flat_manifest flat_manifest (record {
      few = omega arith;
      block_fits = omega arith;
      size_fits = omega arith;
      ops_fit = (omega arith, ((omega arith, omega arith), tt));
      digest = digest_bytes;
      bytes = repeat_bytes 32;
      digest_size = refl;
      hashed = refl;
    })

-- The rows' hashes are hexadecimal texts.
pub hashed : All IsHashed two_rows
hashed = (
  record { digest = digest_bytes; size = refl; bytes = repeat_bytes 32; hex = refl },
  (record { digest = digest_bytes; size = refl; bytes = repeat_bytes 32; hex = refl }, tt),
)

decode-encode_chunk_manifest_v1_example :
    decode_chunk_manifest_v1 (encode_chunk_manifest_v1 memory two_rows) ≡ ok (chunks_of 0 two_rows)
decode-encode_chunk_manifest_v1_example =
    decode-encode_chunk_manifest_v1 memory two_rows (λ n. length-replicate n 0) hashed (omega arith)

abbrev two_row_manifest : List ℕ
two_row_manifest = encode_chunk_manifest_v1 memory two_rows

decode_streaming-decode_example :
    decode_chunk_manifest_v1_streaming two_row_manifest (λ c n. n + c.length) 0 ≡ (
      decode_chunk_manifest_v1 two_row_manifest >>= λ chunks.
      ok (length chunks, feed (λ c n. n + c.length) chunks 0))
decode_streaming-decode_example =
    decode_streaming-decode {S = ℕ} two_row_manifest (λ c n. n + c.length) 0

iterate_manifest_hash_pages_lem_example :
    (pages : List (List Text)) × (iterate_manifest_hash_pages two_row_manifest 1 ≡ ok (some pages))
    × Distinct (flatten pages)
    × ((t : Text) → text_mem t (flatten pages) ≡ text_mem t (hashes (chunks_of 0 two_rows)))
    × All (λ page. (0 < length page) × (length page ≤ 1)) pages
iterate_manifest_hash_pages_lem_example =
    iterate_manifest_hash_pages_lem two_row_manifest 1 (chunks_of 0 two_rows) (omega arith) (
      decode-encode_chunk_manifest_v1 memory two_rows (λ n. length-replicate n 0) hashed
        (omega arith))
