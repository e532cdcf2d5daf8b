-- ===== src/Wire/OpsBinary.antt =====
-- shared/ops-binary.ts: the operations of an upload as bytes, format DSO1.
pub mod RoundTrip
use delta_sync_engine.Prelude.{
  ℕ, zero, suc, ◌+◌, List, [], ◌∷◌, ◌++◌, ◌&&◌, not, leb, ltb, ◌==◌, if◌then◌else◌, length, take,
  Result, ok, err, or_throw, ensure, ◌>>=◌, ◌>>◌,
}
use delta_sync_engine.Prelude.Texts.{Text, text_eq, codes}
use delta_sync_engine.Wire.Bytes.{to_uint32, u32_le, read_u8, read_u32_le}

pub data UploadOp : Type 0 where
  copy : (block_index : ℕ) → UploadOp
  literal : (literal_offset literal_length : ℕ) → UploadOp

pub data OpsError : Type 0 where
  invalid_magic truncated truncated_copy truncated_literal trailing_data out_of_range : OpsError
  unknown_kind : ℕ → OpsError

abbrev pub ops_bin_magic : Text
ops_bin_magic = codes "DSO1"

unfoldable pub encode_op : UploadOp → List ℕ
unfolding u32_le
encode_op (copy block_index) = 0 ∷ u32_le (to_uint32 block_index)
encode_op (literal literal_offset literal_length) =
    1 ∷ (u32_le (to_uint32 literal_offset) ++ u32_le (to_uint32 literal_length))

unfoldable pub encode_body : List UploadOp → List ℕ
unfolding encode_op
encode_body [] = []
encode_body (op ∷ ops) = encode_op op ++ encode_body ops

unfoldable pub encode_ops_binary_v1 : List UploadOp → List ℕ
unfolding encode_body
encode_ops_binary_v1 ops = ops_bin_magic ++ (u32_le (length ops) ++ encode_body ops)

-- What follows the kind, which stands before `p`: the operation, and the position behind it.
unfoldable pub decode_copy : List ℕ → ℕ → Result OpsError (UploadOp × ℕ)
unfolding read_u32_le
decode_copy buf p = do
  ensure (leb (p + 4) (length buf)) truncated_copy
  block_index ← or_throw (read_u32_le buf p) out_of_range
  ok (copy block_index, p + 4)

unfoldable pub decode_literal : List ℕ → ℕ → Result OpsError (UploadOp × ℕ)
unfolding read_u32_le
decode_literal buf p = do
  ensure (leb (p + 8) (length buf)) truncated_literal
  literal_offset ← or_throw (read_u32_le buf p) out_of_range
  literal_length ← or_throw (read_u32_le buf (p + 4)) out_of_range
  ok (literal literal_offset literal_length, p + 8)

-- One round of the loop at position `p`.
unfoldable pub decode_op : List ℕ → ℕ → Result OpsError (UploadOp × ℕ)
unfolding read_u8 decode_copy decode_literal
decode_op buf p = do
  ensure (ltb p (length buf)) truncated
  kind ← or_throw (read_u8 buf p) out_of_range
  if kind == 0
      then decode_copy buf (p + 1)
      else (if kind == 1 then decode_literal buf (p + 1) else err (unknown_kind kind))

unfoldable pub decode_loop : ℕ → List ℕ → ℕ → Result OpsError (List UploadOp × ℕ)
decode_loop zero buf p = ok ([], p)
decode_loop (suc count) buf p = do
  (op, p') ← decode_op buf p
  (ops, end) ← decode_loop count buf p'
  ok (op ∷ ops, end)

unfoldable pub decode_ops_binary_v1 : List ℕ → Result OpsError (List UploadOp)
decode_ops_binary_v1 buf = do
  ensure (leb 8 (length buf) && text_eq (take 4 buf) ops_bin_magic) invalid_magic
  count ← or_throw (read_u32_le buf 4) out_of_range
  (ops, end) ← decode_loop count buf 8
  ensure (end == length buf) trailing_data
  ok ops
