-- ===== src/Rsync/Rebuild.antt =====
-- Operations that describe the new file part by part rebuild it.
use delta_sync_engine.Prelude.{
  ℕ, zero, ◌+◌, ◌-◌, ◌≤◌, ◌≡◌, refl, sym, ap, ◌∙◌, inl, inr, List, [], ◌∷◌, ◌++◌, some, arith, leb,
  ltb, Bool-cases, length, get_elem?, take, drop, slice, replicate, length-append, length-take,
  length-drop, length-replicate, take-add, drop-drop, take-all, take-append, true, drop-append,
  drop-replicate, ok,
}
use mathlib.Core.List.{append_assoc, append-nil}
use delta_sync_engine.Rsync.Signatures.{BlockSignature}
use delta_sync_engine.Rsync.Delta.{
  DeltaOp, DeltaStats, copy, literal, yield_literal, count_op, count_ops,
}
use delta_sync_engine.Rsync.Patch.{set_bytes, apply_op, apply_ops, apply_delta}

-- From position `pos` on, the operations lead through the new file with no gap to its end; each
-- copies a block with the bytes that the new file has there, or carries those bytes.
abbrev pub Rebuilds : List ℕ → List BlockSignature → List ℕ → ℕ → List DeltaOp → Type 0
Rebuilds old sigs new pos [] = pos ≡ length new
Rebuilds old sigs new pos (copy index offset len ∷ ops) =
    (offset ≡ pos)
    × (pos + len ≤ length new)
    × ((s : BlockSignature) × (get_elem? sigs index ≡ some s)
        × (slice old s.offset (s.offset + s.length) ≡ slice new pos (pos + len)))
    × Rebuilds old sigs new (pos + len) ops
Rebuilds old sigs new pos (literal offset bytes ∷ ops) =
    (offset ≡ pos)
    × (pos + length bytes ≤ length new)
    × (bytes ≡ slice new pos (pos + length bytes))
    × Rebuilds old sigs new (pos + length bytes) ops

-- The output when the first `pos` bytes are written.
abbrev written : List ℕ → ℕ → List ℕ
written new pos = take pos new ++ replicate (length new - pos) 0

length-slice :
    (new : List ℕ) (pos len : ℕ) → pos + len ≤ length new → length (slice new pos (pos + len)) ≡ len
length-slice new pos len h =
    length-take (pos + len - pos) (drop pos new) ∙ omega (arith, length-drop pos new)

splice :
    (front back bytes : List ℕ) (pos : ℕ)
    → length front ≡ pos
    → length bytes ≤ length back
    → set_bytes (front ++ back) bytes pos ≡ ok (front ++ (bytes ++ drop (length bytes) back))
unfolding set_bytes
splice front back bytes pos e h =
    let fits : leb (pos + length bytes) (length (front ++ back)) ≡ true =
      ground (arith, length-append front back) in
    rw (
      fits,
      take-append front back pos e,
      ← drop-drop pos (length bytes) (pos + length bytes) (front ++ back) refl,
      drop-append front back pos e,
    )

set_bytes-written :
    (new bytes : List ℕ) (pos : ℕ)
    → pos + length bytes ≤ length new
    → bytes ≡ slice new pos (pos + length bytes)
    → set_bytes (written new pos) bytes pos ≡ ok (written new (pos + length bytes))
set_bytes-written new bytes pos h e =
    let n = length new in
    let left : n - pos - length bytes ≡ n - (pos + length bytes) = omega arith in
    let front : length (take pos new) ≡ pos = omega (arith, length-take pos new) in
    let zeros : length (replicate (n - pos) zero) ≡ n - pos = length-replicate (n - pos) zero in
    let room : length bytes ≤ length (replicate (n - pos) zero) = omega arith in
    let whole : take pos new ++ bytes ≡ take (pos + length bytes) new =
      ap (λ l. take pos new ++ l) e
      ∙ take-add pos (pos + length bytes - pos) (pos + length bytes) new (omega arith) in
    splice (take pos new) (replicate (n - pos) 0) bytes pos front room
    ∙ ap ok (
        ap (λ l. take pos new ++ (bytes ++ l))
          (drop-replicate (length bytes) (n - pos) 0 ∙ ap (λ k. replicate k 0) left)
        ∙ sym (append_assoc (take pos new) bytes _)
        ∙ ap (λ l. l ++ replicate (n - (pos + length bytes)) 0) whole)

-- Operations that rebuild the new file from `pos` on complete it.
apply_ops-written :
    (old : List ℕ) (sigs : List BlockSignature) (new : List ℕ) (pos : ℕ) (ops : List DeltaOp)
    → Rebuilds old sigs new pos ops
    → apply_ops old sigs ops (written new pos) ≡ ok new
unfolding apply_ops apply_op
apply_ops-written old sigs new pos [] e =
    let nothing_left : length new - pos ≡ 0 = omega arith in
    rw nothing_left (ap ok (append-nil _ ∙ take-all new pos (omega arith)))
apply_ops-written old sigs new pos (copy index offset len ∷ ops) (at, inside, (s, there, same), h) =
    let bytes = slice old s.offset (s.offset + s.length) in
    let size : length bytes ≡ len = ap length same ∙ length-slice new pos len inside in
    let here : bytes ≡ slice new pos (pos + length bytes) = rw size same in
    rw (there, at, set_bytes-written new bytes pos (omega arith) here, size)
      (apply_ops-written old sigs new (pos + len) ops h)
apply_ops-written old sigs new pos (literal offset bytes ∷ ops) (at, inside, same, h) =
    rw (at, set_bytes-written new bytes pos inside same)
      (apply_ops-written old sigs new (pos + length bytes) ops h)

pub apply_delta-Rebuilds :
    (old : List ℕ) (sigs : List BlockSignature) (new : List ℕ) (ops : List DeltaOp)
    → Rebuilds old sigs new 0 ops
    → apply_delta old sigs ops (length new) ≡ ok new
unfolding apply_delta
apply_delta-Rebuilds old sigs new ops h =
    let e : length new - 0 ≡ length new = omega arith in
    rw e at (apply_ops-written old sigs new 0 ops h)

-- A pending literal run in front of such operations.
pub yield_literal-Rebuilds :
    (old : List ℕ) (sigs : List BlockSignature) (new : List ℕ) (from until : ℕ) (ops : List DeltaOp)
    → from ≤ until
    → until ≤ length new
    → Rebuilds old sigs new until ops
    → Rebuilds old sigs new from (yield_literal new from until ++ ops)
unfolding yield_literal
yield_literal-Rebuilds old sigs new from until ops le inside h =
    elim (Bool-cases (ltb from until)) [
      | inl more ↦
          let bytes = slice new from until in
          let size : length bytes ≡ until - from =
            length-take (until - from) (drop from new) ∙ omega (arith, length-drop from new) in
          let end : from + length bytes ≡ until = omega arith in
          rw more (refl, omega arith, rw end refl, rw end h)
      | inr no_more ↦ let same : until ≡ from = ground arith in rw no_more (rw same at h)
    ]

-- The bytes that the operations copy and carry add up to the size of the new file.
pub count_ops-Rebuilds :
    (old : List ℕ) (sigs : List BlockSignature) (new : List ℕ) (pos : ℕ) (ops : List DeltaOp)
    (stats : DeltaStats)
    → Rebuilds old sigs new pos ops
    → (count_ops ops stats).copied_bytes + (count_ops ops stats).literal_bytes + pos
      ≡ stats.copied_bytes + stats.literal_bytes + length new
unfolding count_ops count_op
count_ops-Rebuilds old sigs new pos [] stats h = omega arith
count_ops-Rebuilds old sigs new pos (copy index offset len ∷ ops) stats (at, inside, found, h) =
    omega (arith, count_ops-Rebuilds old sigs new (pos + len) ops _ h)
count_ops-Rebuilds old sigs new pos (literal offset bytes ∷ ops) stats (at, inside, same, h) =
    omega (arith, count_ops-Rebuilds old sigs new (pos + length bytes) ops _ h)
