-- ===== src/Wire/OpsFlatbuf/RoundTrip.antt =====
-- Decoding what was encoded in the format DSO2.
use mathlib.Core.Option.{get_or}
use delta_sync_engine.Prelude.{
  ℕ, ◌+◌, ◌*◌, ◌^◌, ◌<◌, ◌≡◌, refl, sym, ap, ◌∙◌, List, [], ◌∷◌, ◌++◌, map, Option, some, true,
  arith, ltb, leb, ◌==◌, length, length-append, drop, take, take-append, replicate, All, ok,
}
use delta_sync_engine.Prelude.Texts.{text_eq}
use delta_sync_engine.Hash.Adler.{IsByte}
use delta_sync_engine.Hash.Strong.{buf_to_hex}
use delta_sync_engine.Wire.Bytes.{
  u32_le, u8_at, read_u8, read_u32_le, reads_u32, drop-behind, hex_decode, hex_decode-buf_to_hex,
}
use delta_sync_engine.Wire.OpsBinary.{UploadOp, copy, literal}
use delta_sync_engine.Wire.OpsFlatbuf.{
  FlatKind, FlatOp, FlatManifestInput, copy_op, literal_op, magic, header_size, op_row_size,
  version, write_u32_le, encode_fields, encode_row, encode_rows, sha_field, encode_flat_manifest,
  op_count, block_size, content_sha256, new_size, op_offset, op_type, is_copy, op_a, op_b, validate,
  flat_manifest_reader, to_upload_op, upload_ops_from, to_upload_ops, dso2, decode_ops_universal,
}

-- What an operation of the format says, by its kind and its fields; a field that is missing counts as 0.
abbrev pub upload_op : FlatKind → Option ℕ → Option ℕ → Option ℕ → UploadOp
upload_op copy_op b o l = copy (get_or b 0)
upload_op literal_op b o l = literal (get_or o 0) (get_or l 0)

abbrev pub upload_op_of : FlatOp → UploadOp
upload_op_of op = upload_op op.kind op.block_index op.literal_offset op.literal_length

-- The numbers that are written for an operation are below 2^32.
abbrev pub FitsU32 : FlatKind → Option ℕ → Option ℕ → Option ℕ → Type 0
FitsU32 copy_op b o l = get_or b 0 < 2 ^ 32
FitsU32 literal_op b o l = (get_or o 0 < 2 ^ 32) × (get_or l 0 < 2 ^ 32)

abbrev pub IsWritable : FlatOp → Type 0
IsWritable op = FitsU32 op.kind op.block_index op.literal_offset op.literal_length

abbrev row_of : FlatKind → Option ℕ → Option ℕ → Option ℕ → List ℕ
row_of copy_op b o l = 0 ∷ (u32_le (get_or b 0) ++ u32_le 0)
row_of literal_op b o l = 1 ∷ (u32_le (get_or o 0) ++ u32_le (get_or l 0))

abbrev rows_of : List FlatOp → List ℕ
rows_of [] = []
rows_of (op ∷ ops) =
    row_of op.kind op.block_index op.literal_offset op.literal_length ++ rows_of ops

write_u32_le_lem : (v : ℕ) → v < 2 ^ 32 → write_u32_le v ≡ ok (u32_le v)
unfolding write_u32_le
write_u32_le_lem v h = let fits : ltb v (2 ^ 32) ≡ true = ground arith in rw fits

encode_fields_lem :
    (kind : FlatKind) (b o l : Option ℕ)
    → FitsU32 kind b o l
    → encode_fields kind b o l ≡ ok (row_of kind b o l)
unfolding encode_fields
encode_fields_lem copy_op b o l h = rw (write_u32_le_lem (get_or b 0) h)
encode_fields_lem literal_op b o l (h, k) =
    rw (write_u32_le_lem (get_or o 0) h, write_u32_le_lem (get_or l 0) k)

encode_rows_lem : (ops : List FlatOp) → All IsWritable ops → encode_rows ops ≡ ok (rows_of ops)
unfolding encode_rows encode_row
encode_rows_lem [] h = refl
encode_rows_lem (op ∷ ops) (w, h) = rw (
  encode_fields_lem op.kind op.block_index op.literal_offset op.literal_length w,
  encode_rows_lem ops h,
)

length-row_of : (kind : FlatKind) (b o l : Option ℕ) → length (row_of kind b o l) ≡ 9
unfolding u32_le
length-row_of copy_op b o l = refl
length-row_of literal_op b o l = refl

length-rows_of : (ops : List FlatOp) → length (rows_of ops) ≡ length ops * 9
length-rows_of [] = omega arith
length-rows_of (op ∷ ops) = omega (
  arith,
  length-append (row_of op.kind op.block_index op.literal_offset op.literal_length) (rows_of ops),
  length-row_of op.kind op.block_index op.literal_offset op.literal_length,
  length-rows_of ops,
)

-- A row that stands in the table is read as its operation.
to_upload_op_lem :
    (kind : FlatKind) (b o l : Option ℕ) (buf rest : List ℕ) (i : ℕ)
    → FitsU32 kind b o l
    → drop (header_size + i * op_row_size) buf ≡ row_of kind b o l ++ rest
    → to_upload_op buf i ≡ ok (upload_op kind b o l)
unfolding to_upload_op is_copy op_type op_a op_b op_offset read_u8 u8_at u32_le
to_upload_op_lem copy_op b o l buf rest i h e =
    let v = get_or b 0 in
    let p = header_size + i * op_row_size in
    let behind = drop-behind buf (0 ∷ []) (u32_le v ++ (u32_le 0 ++ rest)) p 1 e refl in
    let a : read_u32_le buf (p + 1) ≡ some v =
      reads_u32 buf _ (p + 1) v behind ∙ ap some (omega (arith, h)) in
    rw (e, a)
to_upload_op_lem literal_op b o l buf rest i (h, k) e =
    let v = get_or o 0 in
    let w = get_or l 0 in
    let p = header_size + i * op_row_size in
    let behind = drop-behind buf (1 ∷ []) (u32_le v ++ (u32_le w ++ rest)) p 1 e refl in
    let behind' = drop-behind buf (1 ∷ u32_le v) (u32_le w ++ rest) p 5 e refl in
    let a : read_u32_le buf (p + 1) ≡ some v =
      reads_u32 buf _ (p + 1) v behind ∙ ap some (omega (arith, h)) in
    let c : read_u32_le buf (p + 5) ≡ some w =
      reads_u32 buf rest (p + 5) w behind' ∙ ap some (omega (arith, k)) in
    rw (e, a, c)

upload_ops_from_lem :
    (ops : List FlatOp) (buf : List ℕ) (i : ℕ)
    → All IsWritable ops
    → drop (header_size + i * op_row_size) buf ≡ rows_of ops
    → upload_ops_from (length ops) buf i ≡ ok (map upload_op_of ops)
unfolding upload_ops_from
upload_ops_from_lem [] buf i h e = refl
upload_ops_from_lem (op ∷ ops) buf i (w, h) e =
    let row = row_of op.kind op.block_index op.literal_offset op.literal_length in
    let size = length-row_of op.kind op.block_index op.literal_offset op.literal_length in
    let first =
      to_upload_op_lem op.kind op.block_index op.literal_offset op.literal_length buf (rows_of ops)
        i w e in
    let behind = drop-behind buf row (rows_of ops) (header_size + i * op_row_size) 9 e size in
    let next : header_size + i * op_row_size + 9 ≡ header_size + (i + 1) * op_row_size =
      omega arith in
    let rest = upload_ops_from_lem ops buf (i + 1) h (rw next at behind) in rw (first, rest)

-- A manifest whose numbers fit, with a hash that is the hexadecimal text of 32 bytes.
pub record IsEncodable (input : FlatManifestInput) : Type 0 where
  pub few : length input.ops < 2 ^ 32
  pub block_fits : input.block_size < 2 ^ 32
  pub size_fits : input.new_size < 2 ^ 32
  pub ops_fit : All IsWritable input.ops
  pub digest : List ℕ
  pub bytes : All IsByte digest
  pub digest_size : length digest ≡ 32
  pub hashed : input.content_sha256 ≡ buf_to_hex digest

-- The header from the count of operations on, and the table.
tail_of : FlatManifestInput → List ℕ → List ℕ
tail_of input digest =
    u32_le (length input.ops)
    ++ (u32_le input.block_size
        ++ (digest ++ (u32_le input.new_size ++ (replicate 28 0 ++ rows_of input.ops))))

buffer_of : FlatManifestInput → List ℕ → List ℕ
buffer_of input digest = magic ++ (version ∷ 0 ∷ 0 ∷ 0 ∷ tail_of input digest)

encode_flat_manifest_lem :
    (input : FlatManifestInput) (h : IsEncodable input)
    → encode_flat_manifest input ≡ ok (buffer_of input h.digest)
unfolding encode_flat_manifest sha_field buffer_of tail_of
encode_flat_manifest_lem input h =
    let decoded : hex_decode input.content_sha256 ≡ h.digest =
      ap hex_decode h.hashed ∙ hex_decode-buf_to_hex h.digest h.bytes in
    let size : (length h.digest == 32) ≡ true = ground (arith, h.digest_size) in
    rw (
      write_u32_le_lem (length input.ops) h.few,
      write_u32_le_lem input.block_size h.block_fits,
      write_u32_le_lem input.new_size h.size_fits,
      encode_rows_lem input.ops h.ops_fit,
      decoded,
      size,
    )

-- The fields where the reader finds them.
record Placed (input : FlatManifestInput) (digest buf : List ℕ) : Type 0 where
  count : op_count buf ≡ ok (length input.ops)
  block : block_size buf ≡ ok input.block_size
  hash : content_sha256 buf ≡ buf_to_hex digest
  size : new_size buf ≡ ok input.new_size
  table : drop 80 buf ≡ rows_of input.ops

length-u32_le : (v : ℕ) → length (u32_le v) ≡ 4
unfolding u32_le
length-u32_le v = refl

tail_of-Placed :
    (input : FlatManifestInput) (h : IsEncodable input) (buf : List ℕ)
    → drop 8 buf ≡ tail_of input h.digest
    → Placed input h.digest buf
unfolding op_count block_size content_sha256 new_size tail_of
tail_of-Placed input h buf from_8 =
    let rows = rows_of input.ops in
    let at_48 = u32_le input.new_size ++ (replicate 28 0 ++ rows) in
    let at_12 = u32_le input.block_size ++ (h.digest ++ at_48) in
    let from_12 : drop 12 buf ≡ at_12 =
      drop-behind buf (u32_le (length input.ops)) at_12 8 4 from_8 (length-u32_le _) in
    let from_16 : drop 16 buf ≡ h.digest ++ at_48 =
      drop-behind buf (u32_le input.block_size) (h.digest ++ at_48) 12 4 from_12
        (length-u32_le _) in
    let from_48 : drop 48 buf ≡ at_48 =
      drop-behind buf h.digest at_48 16 32 from_16 h.digest_size in
    let from_52 : drop 52 buf ≡ replicate 28 0 ++ rows =
      drop-behind buf (u32_le input.new_size) (replicate 28 0 ++ rows) 48 4 from_48
        (length-u32_le _) in
    record {
      count = rw (reads_u32 buf at_12 8 (length input.ops) from_8) (ap ok (omega (arith, h.few)));
      block =
          rw (reads_u32 buf _ 12 input.block_size from_12) (ap ok (omega (arith, h.block_fits)));
      hash = ap buf_to_hex (ap (take 32) from_16 ∙ take-append h.digest at_48 32 h.digest_size);
      size = rw (reads_u32 buf _ 48 input.new_size from_48) (ap ok (omega (arith, h.size_fits)));
      table = drop-behind buf (replicate 28 0) rows 52 28 from_52 refl;
    }

length-buffer_of :
    (input : FlatManifestInput) (digest : List ℕ)
    → length digest ≡ 32
    → length (buffer_of input digest) ≡ 80 + length input.ops * 9
unfolding buffer_of tail_of u32_le
length-buffer_of input digest size = omega (
  arith,
  size,
  length-append digest (u32_le input.new_size ++ (replicate 28 0 ++ rows_of input.ops)),
  length-rows_of input.ops,
)

magic-buffer_of :
    (input : FlatManifestInput) (digest : List ℕ)
    → text_eq (take 4 (buffer_of input digest)) magic ≡ true
unfolding buffer_of text_eq
magic-buffer_of input digest = refl

version-buffer_of :
    (input : FlatManifestInput) (digest : List ℕ)
    → read_u8 (buffer_of input digest) 4 ≡ some version
unfolding buffer_of read_u8 u8_at
version-buffer_of input digest = refl

flat_manifest_reader-buffer_of :
    (input : FlatManifestInput) (digest : List ℕ)
    → length digest ≡ 32
    → op_count (buffer_of input digest) ≡ ok (length input.ops)
    → flat_manifest_reader (buffer_of input digest) ≡ ok (buffer_of input digest)
unfolding flat_manifest_reader validate
flat_manifest_reader-buffer_of input digest digest_size count =
    let buf = buffer_of input digest in
    let size = length-buffer_of input digest digest_size in
    let long : leb header_size (length buf) ≡ true = ground (arith, size) in
    let fits : leb (header_size + length input.ops * op_row_size) (length buf) ≡ true =
      ground (arith, size) in
    rw (long, magic-buffer_of input digest, version-buffer_of input digest, count, fits)

to_upload_ops-buffer_of :
    (input : FlatManifestInput) (h : IsEncodable input)
    → Placed input h.digest (buffer_of input h.digest)
    → to_upload_ops (buffer_of input h.digest) ≡ ok (map upload_op_of input.ops)
unfolding to_upload_ops
to_upload_ops-buffer_of input h placed = rw (
  placed.count,
  upload_ops_from_lem input.ops (buffer_of input h.digest) 0 h.ops_fit placed.table,
)

decode_ops_universal_lem :
    (buf : List ℕ) (ops : List UploadOp)
    → text_eq (take 4 buf) magic ≡ true
    → flat_manifest_reader buf ≡ ok buf
    → to_upload_ops buf ≡ ok ops
    → decode_ops_universal buf ≡ ok (record { format = dso2; ops = ops; reader = some buf })
unfolding decode_ops_universal
decode_ops_universal_lem buf ops known read listed = rw (read, listed, known)

-- A manifest whose numbers are below 2^32 and whose hash is the hexadecimal text of 32 bytes is encoded, and from
-- the bytes the universal decoder returns its operations, in order, and the reader its block size, hash and size.
pub decode_ops_universal-encode_flat_manifest :
    (input : FlatManifestInput)
    → IsEncodable input
    → (buf : List ℕ) × (encode_flat_manifest input ≡ ok buf)
      × (decode_ops_universal buf
          ≡ ok (record { format = dso2; ops = map upload_op_of input.ops; reader = some buf }))
      × (block_size buf ≡ ok input.block_size)
      × (content_sha256 buf ≡ input.content_sha256)
      × (new_size buf ≡ ok input.new_size)
decode_ops_universal-encode_flat_manifest input h =
    let buf = buffer_of input h.digest in
    let placed = tail_of-Placed input h buf (unfold buffer_of in refl) in
    let read = flat_manifest_reader-buffer_of input h.digest h.digest_size placed.count in
    (
      buf,
      encode_flat_manifest_lem input h,
      decode_ops_universal_lem buf _ (magic-buffer_of input h.digest) read
          (to_upload_ops-buffer_of input h placed),
      placed.block,
      placed.hash ∙ sym h.hashed,
      placed.size,
    )
