-- ===== src/Cli/Delta/Leading.antt =====
-- The client's operations lead through the new file, part by part.
use mathlib.Core.Path.{subst}
use mathlib.Core.List.{append-nil}
use delta_sync_engine.Prelude.{
  ℕ, zero, suc, ◌+◌, ◌-◌, ◌≤◌, ◌<◌, ◌≡◌, refl, sym, ap, ◌∙◌, inl, inr, List, [], ◌∷◌, ◌++◌, some,
  Bool, true, ◌&&◌, ◌==◌, arith, ltb, leb, Bool-cases, Option-cases, length, drop, slice, All,
  length-take, length-drop, take-all,
}
use delta_sync_engine.Prelude.Texts.{text_eq, text_eq-eq}
use delta_sync_engine.Hash.Adler.{adler32_value, weak16}
use delta_sync_engine.Hash.Strong.{sha256}
use delta_sync_engine.Cdc.{Range}
use delta_sync_engine.Cdc.Tiling.{Tiles, cdc_ranges-Tiles}
use delta_sync_engine.Wire.OpsBinary.{UploadOp, copy, literal}
use delta_sync_engine.Wire.Manifest.{ManifestChunk}
use delta_sync_engine.Rsync.Signatures.{BlockSignature, ChunkingMode, cdc, fixed}
use delta_sync_engine.Rsync.Delta.{bucket_get, build_buckets_all}
use delta_sync_engine.Rsync.Matching.{bucket_get-All, find-All, build_buckets_all-AllIn}
use delta_sync_engine.Server.Upload.Literals.{chunk_at}
use delta_sync_engine.Cli.Delta.{
  ClientDelta, flush_literal, then_delta, match_slice, delta_fixed_loop, compute_delta_fixed,
  delta_cdc_loop, compute_delta_cdc, compute_delta, client_options,
}

module _ (digest : List ℕ → List ℕ) (prev : List ManifestChunk) (new : List ℕ) where
  -- A signature is that of a chunk of the previous version, and a part of the new file with its strong
  -- hash has its length.
  pub record IsServed (s : BlockSignature) : Type 0 where
    pub chunk : ManifestChunk
    pub at : chunk_at s.index prev ≡ some chunk
    pub hashed : chunk.strong_hash_hex ≡ s.strong
    pub sized :
        (i j : ℕ) → s.strong ≡ sha256 digest (slice new i j) → chunk.length ≡ length (slice new i j)

  -- From position `pos` on, the operations and the literals lead through the new file to its end.
  abbrev pub Leads : ℕ → List UploadOp → List ℕ → Type 0
  Leads pos [] lits = (pos ≡ length new) × (lits ≡ [])
  Leads pos (copy i ∷ ops) lits =
      ((c : ManifestChunk) × (chunk_at i prev ≡ some c)
        × (pos + c.length ≤ length new)
        × (c.strong_hash_hex ≡ sha256 digest (slice new pos (pos + c.length)))
        × Leads (pos + c.length) ops lits)
  Leads pos (literal o len ∷ ops) lits =
      ((rest : List ℕ) × (pos + len ≤ length new)
        × (lits ≡ slice new pos (pos + len) ++ rest)
        × Leads (pos + len) ops rest)

  match_slice_sound :
      (sigs : List BlockSignature) (window : List ℕ) (fits : BlockSignature → Bool)
      {sig : BlockSignature}
      → All IsServed sigs
      → match_slice digest (build_buckets_all sigs []) window fits ≡ some sig
      → IsServed sig × (sig.strong ≡ sha256 digest window)
  unfolding match_slice
  match_slice_sound sigs window fits {sig = sig} h e =
      let weak = adler32_value window in
      let strong = sha256 digest window in
      let buckets = build_buckets_all sigs [] in
      elim (Option-cases (bucket_get (weak16 weak) buckets)) [
        | inl missing ↦ absurd (cc (rw (missing, match_slice) at e))
        | inr (candidates, there) ↦
            let among =
              bucket_get-All IsServed (weak16 weak) buckets
                (build_buckets_all-AllIn IsServed sigs [] h tt) there in
            let (p, ok) =
              find-All IsServed (λ c. c.weak == weak && text_eq c.strong strong && fits c)
                candidates among (rw (there, match_slice) at e) in
            (p, text_eq-eq sig.strong strong (ground (arith, ok)))
      ]

  copy-Leads :
      {sig : BlockSignature} (ops : List UploadOp) (lits : List ℕ) (start end : ℕ)
      → IsServed sig
      → sig.strong ≡ sha256 digest (slice new start end)
      → start ≤ end
      → end ≤ length new
      → Leads end ops lits
      → Leads start (copy sig.index ∷ ops) lits
  copy-Leads ops lits start end served strong below inside h =
      let size : served.chunk.length ≡ end - start =
        served.sized start end strong
        ∙ length-take (end - start) (drop start new)
        ∙ omega (arith, length-drop start new) in
      let total : end ≡ start + served.chunk.length = omega arith in
      (
        served.chunk,
        served.at,
        omega arith,
        served.hashed ∙ strong ∙ ap (λ e. sha256 digest (slice new start e)) total,
        subst (λ e. Leads e ops lits) total h,
      )

  literal-Leads :
      (ops : List UploadOp) (lits : List ℕ) (cursor start end : ℕ)
      → start ≤ end
      → end ≤ length new
      → Leads end ops lits
      → Leads start
          (literal cursor (length (slice new start end)) ∷ ops)
          (slice new start end ++ lits)
  literal-Leads ops lits cursor start end below inside h =
      let size : length (slice new start end) ≡ end - start =
        length-take (end - start) (drop start new) ∙ omega (arith, length-drop start new) in
      let total : end ≡ start + length (slice new start end) = omega arith in
      (
        lits,
        omega arith,
        ap (λ e. slice new start e ++ lits) total,
        subst (λ e. Leads e ops lits) total h,
      )

  flush_literal-Leads :
      (ops : List UploadOp) (lits : List ℕ) (start end cursor : ℕ)
      → start ≤ end
      → end ≤ length new
      → Leads end ops lits
      → Leads start
          ((flush_literal new start end cursor).ops ++ ops)
          ((flush_literal new start end cursor).literal_bytes ++ lits)
  unfolding flush_literal
  flush_literal-Leads ops lits start end cursor below inside h = elim (Bool-cases (ltb start end)) [
    | inl more ↦ rw more (literal-Leads ops lits cursor start end below inside h)
    | inr same ↦
        let e : end ≡ start = ground (arith, same) in rw same (subst (λ p. Leads p ops lits) e h)
  ]

  -- The loop ends, and what it returns leads from where its literal starts.
  delta_fixed_loop-Leads :
      (sigs : List BlockSignature) (fuel block_size i lit_start cursor : ℕ)
      → All IsServed sigs
      → 0 < block_size
      → length new < i + fuel
      → lit_start ≤ i
      → i ≤ length new
      → (d : ClientDelta) × (delta_fixed_loop digest fuel new
            (build_buckets_all sigs [])
            block_size
            i
            lit_start
            cursor
          ≡ some d)
        × Leads lit_start d.ops d.literal_bytes
  unfolding delta_fixed_loop then_delta
  delta_fixed_loop-Leads sigs zero n i ls cursor served pos enough below le = absurd (omega arith)
  delta_fixed_loop-Leads sigs (suc fuel) n i ls cursor served pos enough below le =
      let next = i + n in
      let buckets = build_buckets_all sigs [] in
      elim (Bool-cases (leb next (length new))) [
        | inr over ↦
            let d = flush_literal new ls (length new) cursor in
            (
              d,
              rw over,
              rw (← append-nil d.ops, ← append-nil d.literal_bytes)
                  (flush_literal-Leads [] [] ls (length new) cursor (omega arith) (omega arith)
                    (refl, refl)),
            )
        | inl room ↦
            elim (Option-cases (match_slice digest buckets (slice new i next) (λ c. true))) [
              | inl unmatched ↦ elim (Bool-cases (ltb i (length new))) [
                | inl more ↦
                    let (d, e, h) =
                      delta_fixed_loop-Leads sigs fuel n (i + 1) ls cursor served pos (omega arith)
                        (omega arith) (ground arith) in
                    (d, rw (room, unmatched, delta_fixed_loop, e), h)
                | inr end ↦ absurd (ground arith)
              ]
              | inr (sig, matched) ↦
                  let flushed = flush_literal new ls i cursor in
                  let (is_served, strong) =
                    match_slice_sound sigs (slice new i next) (λ c. true) served matched in
                  let (d, e, h) =
                    delta_fixed_loop-Leads sigs fuel n next next
                      (cursor + length flushed.literal_bytes) served pos (omega arith) (omega arith)
                      (ground arith) in
                  (
                    then_delta flushed
                        (record { ops = copy sig.index ∷ d.ops; literal_bytes = d.literal_bytes }),
                    rw (room, matched, delta_fixed_loop, e),
                    flush_literal-Leads _ _ ls i cursor below le (
                        copy-Leads d.ops d.literal_bytes i next is_served strong (omega arith)
                          (ground arith) h),
                  )
            ]
      ]

  delta_cdc_loop-Leads :
      (sigs : List BlockSignature) (ranges : List Range) (start cursor : ℕ)
      → All IsServed sigs
      → Tiles start (length new) ranges
      → Leads start
          (delta_cdc_loop digest new (build_buckets_all sigs []) ranges cursor).ops
          (delta_cdc_loop digest new (build_buckets_all sigs []) ranges cursor).literal_bytes
  unfolding delta_cdc_loop
  delta_cdc_loop-Leads sigs [] start cursor served end = (end, refl)
  delta_cdc_loop-Leads sigs (r ∷ ranges) start cursor served (e, more, inside, tiles) =
      let window = slice new r.start r.end in
      let buckets = build_buckets_all sigs [] in
      let kept = delta_cdc_loop digest new buckets ranges cursor in
      let rest = delta_cdc_loop digest new buckets ranges (cursor + length window) in
      let from : ℕ → ClientDelta → Type 0 = λ p d. Leads p d.ops d.literal_bytes in
      subst (λ p. from p (delta_cdc_loop digest new buckets (r ∷ ranges) cursor)) e
        (elim (Option-cases (match_slice digest buckets window (λ c. c.length == length window))) [
          | inl unmatched ↦
              let step : delta_cdc_loop digest new buckets (r ∷ ranges) cursor ≡ record {
                ops = literal cursor (length window) ∷ rest.ops;
                literal_bytes = window ++ rest.literal_bytes;
              } =
                rw (delta_cdc_loop, unmatched) refl in
              subst (from r.start) (sym step) (
                literal-Leads rest.ops rest.literal_bytes cursor r.start r.end (omega arith) inside
                  (delta_cdc_loop-Leads sigs ranges r.end (cursor + length window) served tiles))
          | inr (sig, matched) ↦
              let (is_served, strong) =
                match_slice_sound sigs window (λ c. c.length == length window) served matched in
              let step : delta_cdc_loop digest new buckets (r ∷ ranges) cursor
                  ≡ record { ops = copy sig.index ∷ kept.ops; literal_bytes = kept.literal_bytes } =
                rw (delta_cdc_loop, matched) refl in
              subst (from r.start) (sym step) (
                copy-Leads kept.ops kept.literal_bytes r.start r.end is_served strong (omega arith)
                  inside (delta_cdc_loop-Leads sigs ranges r.end cursor served tiles))
        ])

  pub compute_delta-Leads :
      (sigs : List BlockSignature) (mode : ChunkingMode) (block_size : ℕ)
      → All IsServed sigs
      → 0 < block_size
      → (d : ClientDelta) × (compute_delta digest new sigs mode block_size ≡ some d)
        × Leads 0 d.ops d.literal_bytes
  unfolding compute_delta compute_delta_fixed compute_delta_cdc
  compute_delta-Leads [] mode n served pos =
      let all : slice new 0 (0 + length new) ≡ new =
        take-all new (0 + length new - 0) (omega arith) in
      (
        _,
        refl,
        (
          [],
          omega arith,
          sym (append-nil new ∙ refl) ∙ ap (λ l. l ++ []) (sym all),
          (omega arith, refl),
        ),
      )
  compute_delta-Leads (s ∷ sigs) fixed n served pos =
      delta_fixed_loop-Leads (s ∷ sigs) (length new + 1) n 0 0 0 served pos (omega arith)
        (omega arith) (omega arith)
  compute_delta-Leads (s ∷ sigs) cdc n served pos = (
    _,
    refl,
    delta_cdc_loop-Leads (s ∷ sigs) _ 0 0 served (cdc_ranges-Tiles new (client_options n)),
  )
