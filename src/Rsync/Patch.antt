-- ===== src/Rsync/Patch.antt =====
-- src/lib/rsync/patch.ts: the old file and the operations rebuild the new file.
use delta_sync_engine.Prelude.{
  ℕ, ◌+◌, List, [], ◌∷◌, ◌++◌, leb, if◌then◌else◌, length, get_elem?, take, drop, slice, replicate,
  Result, ok, err, or_throw, ◌>>=◌,
}
use delta_sync_engine.Rsync.Signatures.{BlockSignature}
use delta_sync_engine.Rsync.Delta.{DeltaOp, copy, literal}

-- Reading a field of a block that is not there, and writing past the end of the new file.
pub data PatchError : Type 0 where
  no_such_block offset_out_of_bounds : PatchError

-- `out.set(bytes, offset)`
unfoldable pub set_bytes : List ℕ → List ℕ → ℕ → Result PatchError (List ℕ)
set_bytes out bytes offset =
    if leb (offset + length bytes) (length out)
    then ok (take offset out ++ (bytes ++ drop (offset + length bytes) out))
    else err offset_out_of_bounds

unfoldable pub apply_op :
    List ℕ → List BlockSignature → DeltaOp → List ℕ → Result PatchError (List ℕ)
unfolding set_bytes
apply_op old sigs (copy block_index offset len) out = do
  sig ← or_throw (get_elem? sigs block_index) no_such_block
  set_bytes out (slice old sig.offset (sig.offset + sig.length)) offset
apply_op old sigs (literal offset bytes) out = set_bytes out bytes offset

unfoldable pub apply_ops :
    List ℕ → List BlockSignature → List DeltaOp → List ℕ → Result PatchError (List ℕ)
unfolding apply_op
apply_ops old sigs [] out = ok out
apply_ops old sigs (op ∷ ops) out = do out' ← apply_op old sigs op out; apply_ops old sigs ops out'

unfoldable pub apply_delta :
    List ℕ → List BlockSignature → List DeltaOp → ℕ → Result PatchError (List ℕ)
unfolding apply_ops
apply_delta old sigs ops new_size = apply_ops old sigs ops (replicate new_size 0)
