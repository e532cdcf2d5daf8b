-- ===== src/Rsync/Signed.antt =====
-- The signatures of a file describe its blocks.
use delta_sync_engine.Prelude.{
  ℕ, zero, suc, ◌+◌, ◌-◌, ◌≤◌, ◌<◌, min, ◌≡◌, refl, ◌∙◌, inl, inr, List, [], ◌∷◌, ◌++◌, some, arith,
  ltb, Bool-cases, length, get_elem?, slice, All, length-append,
}
use mathlib.Core.List.{append_assoc}
use mathlib.Core.Path.{subst}
use delta_sync_engine.Hash.Strong.{sha256}
use delta_sync_engine.Cdc.{Range, cdc_ranges}
use delta_sync_engine.Cdc.Tiling.{Tiles, cdc_ranges-Tiles}
use delta_sync_engine.Rsync.Signatures.{
  BlockSignature, ChunkingMode, cdc, fixed, sign, fixed_loop, cdc_sigs, cdc_options,
  compute_signatures,
}

-- `s` stands at its own index, and describes a part of `old` that lies inside it.
pub record IsSigOf (digest : List ℕ → List ℕ) (old : List ℕ) (sigs : List BlockSignature)
    (s : BlockSignature) : Type 0 where
  pub at : get_elem? sigs s.index ≡ some s
  pub inside : s.offset + s.length ≤ length old
  pub hashed : s.strong ≡ sha256 digest (slice old s.offset (s.offset + s.length))

-- Signatures of parts of the file, numbered from `index` on.
abbrev Numbered : (List ℕ → List ℕ) → List ℕ → ℕ → List BlockSignature → Type 0
Numbered digest old index [] = Unit {0}
Numbered digest old index (s ∷ sigs) =
    (s.index ≡ index)
    × (s.offset + s.length ≤ length old)
    × (s.strong ≡ sha256 digest (slice old s.offset (s.offset + s.length)))
    × Numbered digest old (index + 1) sigs

get_elem?-append_behind {ℓ} :
    {A : Type ℓ} (xs : List A) (y : A) (ys : List A) (i : ℕ)
    → length xs ≡ i
    → get_elem? (xs ++ y ∷ ys) i ≡ some y
get_elem?-append_behind [] y ys zero h = refl
get_elem?-append_behind [] y ys (suc i) h = absurd (omega arith)
get_elem?-append_behind (x ∷ xs) y ys zero h = absurd (omega arith)
get_elem?-append_behind (x ∷ xs) y ys (suc i) h = get_elem?-append_behind xs y ys i (omega arith)

Numbered-IsSigOf :
    (digest : List ℕ → List ℕ) (old : List ℕ) (done rest sigs : List BlockSignature) (index : ℕ)
    → length done ≡ index
    → done ++ rest ≡ sigs
    → Numbered digest old index rest
    → All (IsSigOf digest old sigs) rest
Numbered-IsSigOf digest old done [] sigs index n e h = tt
Numbered-IsSigOf digest old done (s ∷ rest) sigs index n e (at, inside, hashed, h) = (
  record {
    at =
        subst (λ l. get_elem? l s.index ≡ some s) e
          (get_elem?-append_behind done s rest s.index (omega arith));
    inside = inside;
    hashed = hashed;
  },
  Numbered-IsSigOf digest old (done ++ s ∷ []) rest sigs (index + 1)
      (omega (arith, length-append done (s ∷ []))) (append_assoc done (s ∷ []) rest ∙ e) h,
)

sign-Numbered :
    (digest : List ℕ → List ℕ) (old : List ℕ) (index offset end : ℕ) (rest : List BlockSignature)
    → offset ≤ end
    → end ≤ length old
    → Numbered digest old (index + 1) rest
    → Numbered digest old index (sign digest old index offset end ∷ rest)
unfolding sign
sign-Numbered digest old index offset end rest below inside h =
    let same : offset + (end - offset) ≡ end = omega arith in rw same (refl, inside, refl, h)

fixed_loop-Numbered :
    (digest : List ℕ → List ℕ) (fuel : ℕ) (old : List ℕ) (block_size offset index : ℕ)
    → 0 < block_size
    → length old < offset + fuel
    → 0 < fuel
    → (sigs : List BlockSignature) × (fixed_loop digest fuel old block_size offset index
        ≡ some sigs)
      × Numbered digest old index sigs
unfolding fixed_loop
fixed_loop-Numbered digest zero old n offset index pos enough some_fuel = elim some_fuel [ ]
fixed_loop-Numbered digest (suc fuel) old n offset index pos enough some_fuel =
    elim (Bool-cases (ltb offset (length old))) [
      | inl more ↦
          let (rest, e, h) =
            fixed_loop-Numbered digest fuel old n (offset + n) (index + 1) pos (omega arith)
              (ground arith) in
          let end = min (offset + n) (length old) in
          (
            sign digest old index offset end ∷ rest,
            rw (more, e),
            sign-Numbered digest old index offset end rest (ground arith) (omega arith) h,
          )
      | inr done ↦ ([], rw done, tt)
    ]

cdc_sigs-Numbered :
    (digest : List ℕ → List ℕ) (old : List ℕ) (ranges : List Range) (index offset : ℕ)
    → Tiles offset (length old) ranges
    → Numbered digest old index (cdc_sigs digest old index ranges)
unfolding cdc_sigs
cdc_sigs-Numbered digest old [] index offset h = tt
cdc_sigs-Numbered digest old (r ∷ ranges) index offset (start, more, inside, h) =
    sign-Numbered digest old index r.start r.end _ (omega arith) inside
      (cdc_sigs-Numbered digest old ranges (index + 1) r.end h)

-- For blocks of at least one byte, both modes return signatures, and each of them stands at its own
-- index, describes bytes inside the file, and carries their strong hash.
pub compute_signatures-IsSigOf :
    (digest : List ℕ → List ℕ) (old : List ℕ) (block_size : ℕ) (mode : ChunkingMode)
    → 0 < block_size
    → (sigs : List BlockSignature) × (compute_signatures digest old block_size mode ≡ some sigs)
      × All (IsSigOf digest old sigs) sigs
unfolding compute_signatures
compute_signatures-IsSigOf digest old n cdc pos =
    let ranges = cdc_ranges old (cdc_options n) in
    let sigs = cdc_sigs digest old 0 ranges in
    (
      sigs,
      refl,
      Numbered-IsSigOf digest old [] sigs sigs 0 refl refl
          (cdc_sigs-Numbered digest old ranges 0 0 (cdc_ranges-Tiles old (cdc_options n))),
    )
compute_signatures-IsSigOf digest old n fixed pos =
    let (sigs, e, h) =
      fixed_loop-Numbered digest (length old + 1) old n 0 0 pos (omega arith) (omega arith) in
    (sigs, e, Numbered-IsSigOf digest old [] sigs sigs 0 refl refl h)
