-- ===== src/Wire/OpsBinary/RoundTrip.antt =====
-- Decoding what was encoded.
use delta_sync_engine.Prelude.{
  ℕ, ◌+◌, ◌^◌, ◌≤◌, ◌<◌, ◌≡◌, refl, sym, ap, ◌∙◌, List, [], ◌∷◌, ◌++◌, map, some, true, arith, ltb,
  leb, ◌==◌, length, length-append, drop, length-drop, ok,
}
use mathlib.Core.List.{append_assoc, append-nil}
use delta_sync_engine.Prelude.Texts.{text_eq}
use delta_sync_engine.Wire.Bytes.{
  to_uint32, u32_le, u8_at, read_u8, read_u32_le, reads_u32, drop-behind,
}
use delta_sync_engine.Wire.OpsBinary.{
  UploadOp, copy, literal, encode_op, encode_body, encode_ops_binary_v1, decode_copy,
  decode_literal, decode_op, decode_loop, decode_ops_binary_v1,
}

-- What the format keeps of an operation: its numbers below 2^32.
abbrev pub wrap_op : UploadOp → UploadOp
wrap_op (copy block_index) = copy (to_uint32 block_index)
wrap_op (literal literal_offset literal_length) =
    literal (to_uint32 literal_offset) (to_uint32 literal_length)

-- The bytes that stand from `p` on fit the buffer.
room :
    (buf front rest : List ℕ) (p : ℕ)
    → drop p buf ≡ front ++ rest
    → 0 < length front
    → p + length front ≤ length buf
room buf front rest p e h = omega (arith, length-drop p buf, ap length e, length-append front rest)

decode_op-encode_op :
    (buf : List ℕ) (p : ℕ) (op : UploadOp) (rest : List ℕ)
    → drop p buf ≡ encode_op op ++ rest
    → decode_op buf p ≡ ok (wrap_op op, p + length (encode_op op))
unfolding decode_op encode_op decode_copy decode_literal read_u8 u8_at
decode_op-encode_op buf p (copy b) rest e =
    let v = to_uint32 b in
    let fits : p + 5 ≤ length buf = room buf (0 ∷ u32_le v) rest p e (omega arith) in
    let behind = drop-behind buf (0 ∷ []) (u32_le v ++ rest) p 1 e refl in
    let some_left : ltb p (length buf) ≡ true = ground arith in
    let fits' : leb (p + 1 + 4) (length buf) ≡ true = ground arith in
    rw (some_left, e, fits', reads_u32 buf rest (p + 1) v behind) (ground arith)
decode_op-encode_op buf p (literal o l) rest e =
    let v = to_uint32 o in
    let w = to_uint32 l in
    let fits : p + 9 ≤ length buf = room buf (1 ∷ (u32_le v ++ u32_le w)) rest p e (omega arith) in
    let behind = drop-behind buf (1 ∷ []) (u32_le v ++ (u32_le w ++ rest)) p 1 e refl in
    let behind' = drop-behind buf (u32_le v) (u32_le w ++ rest) (p + 1) 4 behind refl in
    let some_left : ltb p (length buf) ≡ true = ground arith in
    let fits' : leb (p + 1 + 8) (length buf) ≡ true = ground arith in
    rw
      (
        some_left,
        e,
        fits',
        reads_u32 buf _ (p + 1) v behind,
        reads_u32 buf rest (p + 1 + 4) w behind',
      )
      (ground arith)

decode_loop-encode_body :
    (buf : List ℕ) (p : ℕ) (ops : List UploadOp) (rest : List ℕ)
    → drop p buf ≡ encode_body ops ++ rest
    → decode_loop (length ops) buf p ≡ ok (map wrap_op ops, p + length (encode_body ops))
unfolding decode_loop encode_body
decode_loop-encode_body buf p [] rest e = ground arith
decode_loop-encode_body buf p (op ∷ ops) rest e =
    let first = encode_op op in
    let here = e ∙ append_assoc first (encode_body ops) rest in
    let behind = drop-behind buf first (encode_body ops ++ rest) p (length first) here refl in
    let again = decode_loop-encode_body buf (p + length first) ops rest behind in
    rw (decode_op-encode_op buf p op (encode_body ops ++ rest) here, again)
      (ground (arith, length-append first (encode_body ops)))

-- Decoding the encoding of fewer than 2^32 operations returns those operations, in order, with their
-- numbers taken modulo 2^32.
pub decode-encode_ops_binary_v1 :
    (ops : List UploadOp)
    → length ops < 2 ^ 32
    → decode_ops_binary_v1 (encode_ops_binary_v1 ops) ≡ ok (map wrap_op ops)
unfolding decode_ops_binary_v1 encode_ops_binary_v1 text_eq
decode-encode_ops_binary_v1 ops h =
    let buf = encode_ops_binary_v1 ops in
    let long : leb 8 (length buf) ≡ true = ground arith in
    let count : read_u32_le buf 4 ≡ some (length ops) =
      reads_u32 buf (encode_body ops) 4 (length ops) refl ∙ ap some (omega arith) in
    let body = decode_loop-encode_body buf 8 ops [] (sym (append-nil (encode_body ops))) in
    let all_read : (8 + length (encode_body ops)) == length buf ≡ true = ground arith in
    rw (long, count, body, all_read)
