-- ===== src/Wire/OpsFlatbuf.antt =====
-- shared/ops-flatbuf.ts: the operations of an upload as bytes, format DSO2, with its reader, and the
-- decoder that takes either format.
pub mod RoundTrip
use delta_sync_engine.Prelude.{
  ℕ, zero, suc, ◌+◌, ◌*◌, ◌^◌, List, [], ◌∷◌, ◌++◌, Option, none, some, Bool, ◌==◌, leb, ltb,
  if◌then◌else◌, length, take, slice, replicate, Result, ok, err, or_throw, ensure, ◌>>=◌, ◌>>◌,
}
use mathlib.Core.Option.{get_or}
use delta_sync_engine.Prelude.Texts.{Text, text_eq, codes}
use delta_sync_engine.Hash.Strong.{buf_to_hex}
use delta_sync_engine.Wire.Bytes.{u32_le, read_u8, read_u32_le, hex_decode}
use delta_sync_engine.Wire.OpsBinary.{
  UploadOp, OpsError, copy, literal, ops_bin_magic, decode_ops_binary_v1,
}

abbrev pub magic : Text
magic = codes "DSO2"

abbrev pub header_size : ℕ
header_size = 80

abbrev pub op_row_size : ℕ
op_row_size = 9

abbrev pub version : ℕ
version = 2

pub data FlatKind : Type 0 where
  copy_op literal_op : FlatKind

pub record FlatOp : Type 0 where
  pub kind : FlatKind
  pub block_index : Option ℕ
  pub literal_offset : Option ℕ
  pub literal_length : Option ℕ

pub record FlatManifestInput : Type 0 where
  pub block_size : ℕ
  pub content_sha256 : Text
  pub new_size : ℕ
  pub ops : List FlatOp

-- A number that does not fit, and the refusals of the reader and of the decoder.
pub data FlatError : Type 0 where
  not_u32 too_short bad_magic unsupported_version truncated_manifest out_of_bounds unknown_format :
      FlatError
  v1 : OpsError → FlatError

-- `buf.writeUInt32LE(v, p)` throws for a number that is not below 2^32.
unfoldable pub write_u32_le : ℕ → Result FlatError (List ℕ)
unfolding u32_le
write_u32_le v = if ltb v (2 ^ 32) then ok (u32_le v) else err not_u32

-- The row of an operation, by its kind and its fields.
unfoldable pub encode_fields : FlatKind → Option ℕ → Option ℕ → Option ℕ → Result FlatError (List ℕ)
unfolding write_u32_le
encode_fields copy_op block_index literal_offset literal_length = do
  a ← write_u32_le (get_or block_index 0)
  b ← write_u32_le 0
  ok (0 ∷ (a ++ b))
encode_fields literal_op block_index literal_offset literal_length = do
  a ← write_u32_le (get_or literal_offset 0)
  b ← write_u32_le (get_or literal_length 0)
  ok (1 ∷ (a ++ b))

unfoldable pub encode_row : FlatOp → Result FlatError (List ℕ)
unfolding encode_fields
encode_row op = encode_fields op.kind op.block_index op.literal_offset op.literal_length

unfoldable pub encode_rows : List FlatOp → Result FlatError (List ℕ)
unfolding encode_row
encode_rows [] = ok []
encode_rows (op ∷ ops) = do row ← encode_row op; rows ← encode_rows ops; ok (row ++ rows)

-- The 32 bytes at 16: the hash, if its text decodes to 32 bytes, and zeros if not.
unfoldable pub sha_field : Text → List ℕ
unfolding hex_decode
sha_field hex = if length (hex_decode hex) == 32 then hex_decode hex else replicate 32 0

-- The buffer is zero-filled, so the padding at 6 and the reserved bytes at 52 are zeros.
unfoldable pub encode_flat_manifest : FlatManifestInput → Result FlatError (List ℕ)
unfolding write_u32_le encode_rows sha_field
encode_flat_manifest input = do
  op_count ← write_u32_le (length input.ops)
  block_size ← write_u32_le input.block_size
  new_size ← write_u32_le input.new_size
  rows ← encode_rows input.ops
  ok (
      magic
      ++ (version
          ∷ 0
          ∷ 0
          ∷ 0
          ∷ (op_count
              ++ (block_size
                  ++ (sha_field input.content_sha256 ++ (new_size ++ (replicate 28 0 ++ rows)))))))

-- The reader: a buffer that its constructor has validated, and reads at computed offsets.
unfoldable pub op_count : List ℕ → Result FlatError ℕ
unfolding read_u32_le
op_count buf = or_throw (read_u32_le buf 8) out_of_bounds

unfoldable pub block_size : List ℕ → Result FlatError ℕ
unfolding read_u32_le
block_size buf = or_throw (read_u32_le buf 12) out_of_bounds

unfoldable pub content_sha256 : List ℕ → Text
unfolding buf_to_hex
content_sha256 buf = buf_to_hex (slice buf 16 48)

unfoldable pub new_size : List ℕ → Result FlatError ℕ
unfolding read_u32_le
new_size buf = or_throw (read_u32_le buf 48) out_of_bounds

unfoldable pub op_offset : ℕ → ℕ
op_offset i = header_size + i * op_row_size

unfoldable pub op_type : List ℕ → ℕ → Result FlatError ℕ
unfolding read_u8 op_offset
op_type buf i = or_throw (read_u8 buf (op_offset i)) out_of_bounds

unfoldable pub is_copy : List ℕ → ℕ → Result FlatError Bool
unfolding op_type
is_copy buf i = do kind ← op_type buf i; ok (kind == 0)

unfoldable pub op_a : List ℕ → ℕ → Result FlatError ℕ
unfolding read_u32_le op_offset
op_a buf i = or_throw (read_u32_le buf (op_offset i + 1)) out_of_bounds

unfoldable pub op_b : List ℕ → ℕ → Result FlatError ℕ
unfolding read_u32_le op_offset
op_b buf i = or_throw (read_u32_le buf (op_offset i + 5)) out_of_bounds

unfoldable pub validate : List ℕ → Result FlatError (Unit {0})
unfolding op_count read_u8
validate buf = do
  ensure (leb header_size (length buf)) too_short
  ensure (text_eq (take 4 buf) magic) bad_magic
  ver ← or_throw (read_u8 buf 4) out_of_bounds
  ensure (ver == version) unsupported_version
  count ← op_count buf
  ensure (leb (header_size + count * op_row_size) (length buf)) truncated_manifest

-- `new FlatManifestReader(data)`
unfoldable pub flat_manifest_reader : List ℕ → Result FlatError (List ℕ)
unfolding validate
flat_manifest_reader buf = do validate buf; ok buf

unfoldable pub to_upload_op : List ℕ → ℕ → Result FlatError UploadOp
unfolding is_copy op_a op_b
to_upload_op buf i = do
  a_copy ← is_copy buf i
  a ← op_a buf i
  if a_copy then ok (copy a) else (do b ← op_b buf i; ok (literal a b))

-- The rounds from `i` on.
unfoldable pub upload_ops_from : ℕ → List ℕ → ℕ → Result FlatError (List UploadOp)
unfolding to_upload_op
upload_ops_from zero buf i = ok []
upload_ops_from (suc rounds) buf i = do
  op ← to_upload_op buf i
  ops ← upload_ops_from rounds buf (i + 1)
  ok (op ∷ ops)

unfoldable pub to_upload_ops : List ℕ → Result FlatError (List UploadOp)
unfolding upload_ops_from op_count
to_upload_ops buf = do count ← op_count buf; upload_ops_from count buf 0

unfoldable pub total_bytes : List ℕ → Result FlatError ℕ
unfolding op_count
total_bytes buf = do count ← op_count buf; ok (header_size + count * op_row_size)

pub data Format : Type 0 where
  dso1 dso2 : Format

-- The format, the operations, and the reader where the format has one.
pub record Decoded : Type 0 where
  pub format : Format
  pub ops : List UploadOp
  pub reader : Option (List ℕ)

unfoldable pub decode_v1 : List ℕ → Result FlatError Decoded
unfolding decode_ops_binary_v1
decode_v1 buf = elim (decode_ops_binary_v1 buf) [
  | ok ops ↦ ok (record { format = dso1; ops = ops; reader = none })
  | err e ↦ err (v1 e)
]

unfoldable pub decode_ops_universal : List ℕ → Result FlatError Decoded
unfolding flat_manifest_reader to_upload_ops decode_v1
decode_ops_universal buf =
    if text_eq (take 4 buf) magic
    then (do
      reader ← flat_manifest_reader buf
      ops ← to_upload_ops reader
      ok (record { format = dso2; ops = ops; reader = some reader }))
    else if text_eq (take 4 buf) ops_bin_magic
    then decode_v1 buf
    else err unknown_format
