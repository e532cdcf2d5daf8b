-- ===== src/Server/Upload.antt =====
-- src/routes/api/public/sync/upload.ts: the one-phase upload of operations and literals.
pub mod Literals
pub mod Handler
use delta_sync_engine.Prelude.{
  ℕ, ◌+◌, ◌-◌, ◌*◌, List, [], ◌∷◌, Option, none, some, Bool, true, false, not, ◌&&◌, ◌||◌, ◌==◌,
  leb, ltb, if◌then◌else◌, length, Result, ok, err,
}
use delta_sync_engine.Prelude.Texts.{Text}
use delta_sync_engine.Rsync.Signatures.{ChunkingMode}
use delta_sync_engine.Wire.OpsBinary.{UploadOp, copy, literal}
use delta_sync_engine.Wire.OpsFlatbuf.{FlatError, Decoded, decode_ops_universal}
use delta_sync_engine.Wire.Manifest.{ManifestRow, ManifestChunk, ManifestError}
use delta_sync_engine.Server.RateLimiter.{Limits, Config, check_rate_limit}
use delta_sync_engine.Server.Database.{FileRow, Database, find_file}
use delta_sync_engine.Server.Publish.{
  Publication, PublishError, stale, conflict, current_version, publish,
}
use delta_sync_engine.Server.Commit.{Ids, id_of}
use delta_sync_engine.Server.Requests.{valid_path, valid_block_size, previous_chunks}
use Literals.{Objects, Progress, chunk_at, upload_ops, copy_ops}

pub data OpsEncoding : Type 0 where
  json bin flatbuf : OpsEncoding

-- The meta field, parsed: its fields have the schema's types and the defaults are filled in.
pub record Meta : Type 0 where
  pub path : Text
  pub chunking : ChunkingMode
  pub block_size : ℕ
  pub new_size : ℕ
  pub content_sha256 : Text
  pub ops_encoding : OpsEncoding
  pub op_count : Option ℕ
  pub ops : Option (List UploadOp)

-- A field of the form that is not there, is text, or is a file.
pub data Field {ℓ} (A : Type ℓ) : Type ℓ where
  missing : Field A
  text : Text → Field A
  blob : A → Field A

-- `meta_field` is `none` for a field that is no text, `some none` for one that does not parse.
pub record Form : Type 0 where
  pub meta_field : Option (Option Meta)
  pub ops_bin : Field (List ℕ)
  pub ops_flatbuf : Field (List ℕ)
  pub literals : Field (List (List ℕ))

-- A request: `form` is `none` when the body is not multipart.
pub record UploadRequest : Type 0 where
  pub user : Option Text
  pub content_length : ℕ
  pub form : Option Form

pub data UploadReply : Type 0 where
  unauthorized rate_limited payload_too_large expected_multipart missing_meta invalid_meta
        missing_ops invalid_ops invalid_literals stale_remote sync_conflict failed :
      UploadReply
  op_count_mismatch : (op_count decoded : ℕ) → UploadReply
  unknown_block : (block_index : ℕ) → UploadReply
  size_mismatch : (reconstructed new_size : ℕ) → UploadReply
  uploaded : (version_no bytes_saved : ℕ) → UploadReply

unfoldable pub ops_given : Option (List UploadOp) → ℕ → Bool
ops_given none new_size = false
ops_given (some ops) new_size = not (length ops == 0 && ltb 0 new_size)

unfoldable pub count_given : Option ℕ → Bool
count_given none = false
count_given (some n) = true

-- The rule that `superRefine` adds.
unfoldable pub refined : OpsEncoding → Meta → Bool
unfolding ops_given count_given
refined json m = ops_given m.ops m.new_size
refined bin m = count_given m.op_count
refined flatbuf m = count_given m.op_count

unfoldable pub valid_meta : Meta → Bool
unfolding valid_path valid_block_size refined
valid_meta m =
    valid_path m.path
    && valid_block_size m.block_size
    && length m.content_sha256 == 64
    && refined m.ops_encoding m

unfoldable pub or_field {ℓ} : {A : Type ℓ} → Field A → Field A → Field A
or_field missing other = other
or_field (text t) other = text t
or_field (blob a) other = blob a

unfoldable pub same_count : Option ℕ → ℕ → Bool
same_count none n = false
same_count (some m) n = m == n

-- The operations of a binary encoding.
unfoldable pub binary_ops : Option ℕ → Field (List ℕ) → Result UploadReply (List UploadOp)
unfolding decode_ops_universal same_count
binary_ops op_count missing = err missing_ops
binary_ops op_count (text t) = err missing_ops
binary_ops op_count (blob buf) = elim (decode_ops_universal buf) [
  | err e ↦ err invalid_ops
  | ok d ↦ if same_count op_count (length d.ops) then ok d.ops else elim op_count [
    | none ↦ err invalid_ops
    | some n ↦ err (op_count_mismatch n (length d.ops))
  ]
]

-- `meta.ops!`, which the schema has checked.
unfoldable pub json_ops : Option (List UploadOp) → List UploadOp
json_ops none = []
json_ops (some ops) = ops

unfoldable pub read_ops : OpsEncoding → Meta → Form → Result UploadReply (List UploadOp)
unfolding binary_ops or_field json_ops
read_ops json m f = ok (json_ops m.ops)
read_ops bin m f = binary_ops m.op_count f.ops_bin
read_ops flatbuf m f = binary_ops m.op_count (or_field f.ops_flatbuf f.ops_bin)

-- The literals' stream, if there is one; an empty text counts as no field.
unfoldable pub read_literals : Field (List (List ℕ)) → Result UploadReply (Option (List (List ℕ)))
read_literals missing = ok none
read_literals (text []) = ok none
read_literals (text (c ∷ t)) = err invalid_literals
read_literals (blob pieces) = ok (some pieces)

-- The first copy of a block that the previous version does not have.
unfoldable pub first_unknown : List ManifestChunk → List UploadOp → Option ℕ
unfolding chunk_at
first_unknown prev [] = none
first_unknown prev (literal o len ∷ ops) = first_unknown prev ops
first_unknown prev (copy i ∷ ops) = elim (chunk_at i prev) [
  | none ↦ some i
  | some c ↦ first_unknown prev ops
]
