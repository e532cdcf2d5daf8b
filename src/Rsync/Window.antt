-- ===== src/Rsync/Window.antt =====
-- The rolled checksum of the sliding window is always the checksum of that window, so the rolling
-- loop does what a loop does that computes every checksum anew.
use mathlib.Core.Option
use delta_sync_engine.Prelude.{
  ℕ, zero, suc, ◌+◌, ◌-◌, ◌<◌, ◌≡◌, refl, ap, inl, inr, List, [], ◌∷◌, ◌++◌, Option, none, some,
  sym, ap, ◌∙◌, take-all, false, arith, leb, ltb, Bool-cases, Option-cases, if◌then◌else◌, length,
  get_or, take, drop, slice, All,
}
use delta_sync_engine.Hash.Adler.{IsByte, adler32, adler32_hash, roll_adler32}
use delta_sync_engine.Hash.Adler.Rolling.{roll-adler32}
use delta_sync_engine.Rsync.Signatures.{BlockSignature}
use delta_sync_engine.Rsync.Delta.{
  literal, DeltaOp, Buckets, copy, build_buckets_fixed, match_window, yield_literal, rolling_loop,
  compute_delta_fixed,
}

-- The loop without rolling: each round computes the checksum of its window.
unfoldable pub plain_loop :
    (List ℕ → List ℕ) → ℕ → List ℕ → Buckets → ℕ → ℕ → ℕ → Option (List DeltaOp)
unfolding yield_literal
plain_loop digest zero bytes buckets block_size i literal_start = none
plain_loop digest (suc fuel) bytes buckets block_size i literal_start =
    let len = length bytes in
    let next = i + block_size in
    let window = slice bytes i next in
    let after_copy = plain_loop digest fuel bytes buckets block_size next next in
    let after_byte = plain_loop digest fuel bytes buckets block_size (i + 1) literal_start in
    if leb next len
    then elim (match_window digest buckets (adler32_hash (adler32 window)) window) [
      | some sig ↦
          Option.map
            (λ ops. yield_literal bytes literal_start i ++ (copy sig.index i block_size ∷ ops))
            (if leb (next + block_size) len
              then after_copy
              else some (yield_literal bytes next len))
      | none ↦ if leb len next then some (yield_literal bytes literal_start len) else after_byte
    ]
    else some (yield_literal bytes literal_start len)

take_next :
    (xs : List ℕ) (n : ℕ) → n < length xs → take (suc n) xs ≡ take n xs ++ get_or xs n 0 ∷ []
take_next [] n h = absurd (omega arith)
take_next (x ∷ xs) zero h = refl
take_next (x ∷ xs) (suc n) h = ap (λ l. x ∷ l) (take_next xs n (omega arith))

-- A window of at least one byte, and the window one byte further.
slide :
    (bytes : List ℕ) (i n j : ℕ)
    → j ≡ i + suc n
    → j < length bytes
    → (middle : List ℕ) × (take (suc n) (drop i bytes) ≡ get_or bytes i 0 ∷ middle)
      × (take (suc n) (drop (suc i) bytes) ≡ middle ++ get_or bytes j 0 ∷ [])
slide [] i n j e h = absurd (omega arith)
slide (x ∷ xs) zero n zero e h = absurd (omega arith)
slide (x ∷ xs) zero n (suc j) e h =
    let same : j ≡ n = omega arith in (take n xs, refl, rw same (take_next xs n (omega arith)))
slide (x ∷ xs) (suc i) n zero e h = absurd (omega arith)
slide (x ∷ xs) (suc i) n (suc j) e h = slide xs i n j (omega arith) (omega arith)

get_or-IsByte : (xs : List ℕ) (i : ℕ) → All IsByte xs → get_or xs i 0 < 256
get_or-IsByte [] i b = omega arith
get_or-IsByte (x ∷ xs) zero (b, bs) = b
get_or-IsByte (x ∷ xs) (suc i) (b, bs) = get_or-IsByte xs i bs

roll_slice :
    (bytes : List ℕ) (i n : ℕ)
    → All IsByte bytes
    → 0 < n
    → i + n < length bytes
    → roll_adler32 (adler32 (slice bytes i (i + n))) (get_or bytes i 0) (get_or bytes (i + n) 0)
      ≡ adler32 (slice bytes (i + 1) (i + 1 + n))
roll_slice bytes i zero b pos h = elim pos [ ]
roll_slice bytes i (suc n) b pos h =
    let (middle, old, new) = slide bytes i n (i + suc n) refl h in
    let width : i + suc n - i ≡ suc n = omega arith in
    let width' : i + 1 + suc n - (i + 1) ≡ suc n = omega arith in
    let next : i + 1 ≡ suc i = omega arith in
    rw (width, width', next, old, new) (roll-adler32 _ _ middle (get_or-IsByte bytes i b))

rolling_loop-plain_loop :
    (digest : List ℕ → List ℕ) (bytes : List ℕ) (buckets : Buckets) (n fuel i literal_start : ℕ)
    → All IsByte bytes
    → 0 < n
    → rolling_loop digest fuel bytes buckets n i literal_start (adler32 (slice bytes i (i + n)))
      ≡ plain_loop digest fuel bytes buckets n i literal_start
unfolding rolling_loop plain_loop
rolling_loop-plain_loop digest bytes buckets n zero i ls b pos = refl
rolling_loop-plain_loop digest bytes buckets n (suc fuel) i ls b pos =
    let next = i + n in
    let window = slice bytes i next in
    let hash = adler32_hash (adler32 window) in
    let after_copy = rolling_loop-plain_loop digest bytes buckets n fuel next next b pos in
    elim (Bool-cases (leb next (length bytes))) [
      | inr past_end ↦ rw past_end
      | inl room ↦ elim (Option-cases (match_window digest buckets hash window)) [
        | inr (sig, matched) ↦ rw (room, matched, after_copy)
        | inl unmatched ↦ elim (Bool-cases (leb (length bytes) next)) [
          | inl at_end ↦ rw (room, unmatched, at_end)
          | inr more ↦
              rw (room, unmatched, more, roll_slice bytes i n b pos (ground arith))
                (rolling_loop-plain_loop digest bytes buckets n fuel (i + 1) ls b pos)
        ]
      ]
    ]

plain_loop-short :
    (digest : List ℕ → List ℕ) (bytes : List ℕ) (buckets : Buckets) (n : ℕ)
    → length bytes < n
    → plain_loop digest (length bytes + 1) bytes buckets n 0 0
      ≡ some (if ltb 0 (length bytes) then literal 0 bytes ∷ [] else [])
unfolding plain_loop yield_literal
plain_loop-short digest bytes buckets n h =
    let once : length bytes + 1 ≡ suc (length bytes) = omega arith in
    let past_end : leb (0 + n) (length bytes) ≡ false = ground arith in
    let whole : slice bytes 0 (length bytes) ≡ bytes =
      ap (λ m. take m bytes) (omega arith) ∙ take-all bytes (length bytes) (omega arith) in
    rw (once, past_end, whole) refl

-- On bytes, and for any block size but 0, the fixed-size delta, which rolls its checksum from window
-- to window, is the delta of the loop that computes the checksum of every window from its bytes.
pub compute_delta_fixed-plain_loop :
    (digest : List ℕ → List ℕ) (bytes : List ℕ) (sigs : List BlockSignature) (block_size : ℕ)
    → All IsByte bytes
    → 0 < block_size
    → compute_delta_fixed digest bytes sigs block_size
      ≡ plain_loop digest
          (length bytes + 1)
          bytes
          (build_buckets_fixed sigs block_size [])
          block_size
          0
          0
unfolding compute_delta_fixed
compute_delta_fixed-plain_loop digest bytes sigs n b pos =
    let buckets = build_buckets_fixed sigs n [] in
    let same : 0 + n ≡ n = omega arith in
    elim (Bool-cases (ltb (length bytes) n)) [
      | inr long ↦
          rw long (
            rw same at
              (rolling_loop-plain_loop digest bytes buckets n (length bytes + 1) 0 0 b pos))
      | inl short ↦ rw short (sym (plain_loop-short digest bytes buckets n (ground (arith, short))))
    ]
