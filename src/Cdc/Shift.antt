-- ===== src/Cdc/Shift.antt =====
-- Where a chunk ends depends on the bytes from its start on, and on nothing before them.
use delta_sync_engine.Prelude.{
  ℕ, zero, suc, ◌+◌, ◌-◌, ◌≤◌, min, ◌≡◌, refl, ap, ◌∙◌, inl, inr, List, [], ◌∷◌, ◌++◌, map, arith,
  ltb, if◌then◌else◌, Bool-cases, length, get_or, drop, length-drop, length-append, drop-append,
}
use delta_sync_engine.Cdc.Tiling.{next_cut-IsCut}
use delta_sync_engine.Cdc.{
  CdcOptions, mask_bits, next_fp, skip_loop, cut_loop, next_cut, cdc_loop, cdc_chunk_ends,
}

get_or-drop : (xs : List ℕ) (n i j d : ℕ) → j ≡ n + i → get_or (drop n xs) i d ≡ get_or xs j d
get_or-drop xs zero i j d e = let same : j ≡ i = omega arith in rw same
get_or-drop [] (suc n) i j d e = refl
get_or-drop (x ∷ xs) (suc n) i zero d e = absurd (omega arith)
get_or-drop (x ∷ xs) (suc n) i (suc j) d e = get_or-drop xs n i j d (omega arith)

skip_loop-drop :
    (bytes : List ℕ) (n rounds i j fp : ℕ)
    → j ≡ n + i
    → skip_loop (drop n bytes) rounds i fp ≡ skip_loop bytes rounds j fp
unfolding skip_loop
skip_loop-drop bytes n zero i j fp e = refl
skip_loop-drop bytes n (suc rounds) i j fp e =
    rw (get_or-drop bytes n i j 0 e)
      (skip_loop-drop bytes n rounds (i + 1) (j + 1) (next_fp fp (get_or bytes j 0)) (omega arith))

cut_loop-drop :
    (bytes : List ℕ) (mask hard_max hard_max' n rounds i j fp : ℕ)
    → hard_max ≡ n + hard_max'
    → j ≡ n + i
    → cut_loop bytes mask hard_max rounds j fp
      ≡ n + cut_loop (drop n bytes) mask hard_max' rounds i fp
unfolding cut_loop
cut_loop-drop bytes mask hard_max hard_max' n zero i j fp h e = h
cut_loop-drop bytes mask hard_max hard_max' n (suc rounds) i j fp h e =
    let fp' = next_fp fp (get_or bytes j 0) in
    rw (get_or-drop bytes n i j 0 e) (
      ground (
        arith,
        cut_loop-drop bytes mask hard_max hard_max' n rounds (i + 1) (j + 1) fp' h (omega arith),
      ))

next_cut-drop :
    (bytes : List ℕ) (opts : CdcOptions) (n m k : ℕ)
    → k ≡ n + m
    → n ≤ length bytes
    → next_cut bytes opts k ≡ n + next_cut (drop n bytes) opts m
unfolding next_cut
next_cut-drop bytes opts n m k e h =
    let len = length bytes in
    let len' : ℕ = len - n in
    let hard_max = min (k + opts.max_size) len in
    let hard_max' = min (m + opts.max_size) len' in
    let min_end = min (k + opts.min_size) len in
    let min_end' = min (m + opts.min_size) len' in
    let mask = mask_bits opts.avg_size in
    let fp = skip_loop bytes (min_end - k) k 0x811c9dc5 in
    let rounds : hard_max' - min_end' ≡ hard_max - min_end = omega arith in
    let skips : min_end' - m ≡ min_end - k = omega arith in
    rw (length-drop n bytes, rounds, skips, skip_loop-drop bytes n (min_end - k) m k 0x811c9dc5 e)
      (ground (
        arith,
        cut_loop-drop bytes mask hard_max hard_max' n (hard_max - min_end) min_end' min_end fp
            (omega arith) (omega arith),
      ))

cdc_loop-drop :
    (fuel : ℕ) (bytes : List ℕ) (opts : CdcOptions) (n m k : ℕ)
    → k ≡ n + m
    → n ≤ length bytes
    → cdc_loop fuel bytes opts k ≡ map (λ e. n + e) (cdc_loop fuel (drop n bytes) opts m)
unfolding cdc_loop
cdc_loop-drop zero bytes opts n m k e h = refl
cdc_loop-drop (suc fuel) bytes opts n m k e h =
    let cut' = next_cut (drop n bytes) opts m in
    let step = next_cut-drop bytes opts n m k e h in
    let same : ltb m (length (drop n bytes)) ≡ ltb k (length bytes) =
      ground (arith, length-drop n bytes) in
    elim (Bool-cases (ltb k (length bytes))) [
      | inl more ↦
          rw
            (
              same,
              more,
              ← cdc_loop-drop fuel bytes opts n cut' (next_cut bytes opts k) step h,
              step,
            )
            refl
      | inr done ↦ rw (same, done)
    ]

cdc_loop_fuel :
    (fuel fuel' : ℕ) (bytes : List ℕ) (opts : CdcOptions) (n : ℕ)
    → length bytes ≤ n + fuel
    → length bytes ≤ n + fuel'
    → cdc_loop fuel bytes opts n ≡ cdc_loop fuel' bytes opts n
unfolding cdc_loop
cdc_loop_fuel zero zero bytes opts n h h' = refl
cdc_loop_fuel zero (suc fuel') bytes opts n h h' = ground arith
cdc_loop_fuel (suc fuel) zero bytes opts n h h' = ground arith
cdc_loop_fuel (suc fuel) (suc fuel') bytes opts n h h' = elim (Bool-cases (ltb n (length bytes))) [
  | inl more ↦
      let cut = next_cut-IsCut bytes opts n (ground arith) in
      ap (λ l. if ltb n (length bytes) then next_cut bytes opts n ∷ l else [])
        (cdc_loop_fuel fuel fuel' bytes opts (next_cut bytes opts n) (omega (arith, cut.ahead))
          (omega (arith, cut.ahead)))
  | inr done ↦ rw done
]

-- What the loop lists behind an end `c` is what it lists when it starts at `c`.
cdc_loop-behind :
    (fuel : ℕ) (bytes : List ℕ) (opts : CdcOptions) (n c : ℕ) (us vs : List ℕ)
    → length bytes ≤ n + fuel
    → cdc_loop fuel bytes opts n ≡ us ++ c ∷ vs
    → vs ≡ cdc_loop (length bytes) bytes opts c
unfolding cdc_loop
cdc_loop-behind zero bytes opts n c [] vs h e = absurd (cc)
cdc_loop-behind zero bytes opts n c (u ∷ us) vs h e = absurd (cc)
cdc_loop-behind (suc fuel) bytes opts n c us vs h e = elim (Bool-cases (ltb n (length bytes))) [
  | inl more ↦
      let next = next_cut bytes opts n in
      let rest = cdc_loop fuel bytes opts next in
      let e' : next ∷ rest ≡ us ++ c ∷ vs = rw more at e in
      let ahead = (next_cut-IsCut bytes opts n (ground arith)).ahead in
      split us e' (λ us' q. cdc_loop-behind fuel bytes opts next c us' vs (omega (arith, ahead)) q)
        (cdc_loop_fuel (length bytes) fuel bytes opts next (omega arith) (omega (arith, ahead)))
  | inr done ↦ let e' : [] ≡ us ++ c ∷ vs = rw done at e in absurd (nothing us e')
]
  where
    split :
        {next : ℕ} {rest : List ℕ} (us : List ℕ)
        → next ∷ rest ≡ us ++ c ∷ vs
        → ((us' : List ℕ) → rest ≡ us' ++ c ∷ vs → vs ≡ cdc_loop (length bytes) bytes opts c)
        → cdc_loop (length bytes) bytes opts next ≡ rest
        → vs ≡ cdc_loop (length bytes) bytes opts c
    split [] q deeper here = cc
    split (u ∷ us') q deeper here = deeper us' (cc)

    nothing : (us : List ℕ) → [] ≡ us ++ c ∷ vs → ⊥
    nothing [] q = cc
    nothing (u ∷ us') q = cc

-- If the chunking of `before ++ after` has a cut at the end of `before`, then its later cuts are
-- exactly the cuts of `after` alone, moved by the length of `before`.
pub cdc_chunk_ends-behind_cut :
    (opts : CdcOptions) (before after us vs : List ℕ)
    → cdc_chunk_ends (before ++ after) opts ≡ us ++ length before ∷ vs
    → vs ≡ map (λ e. length before + e) (cdc_chunk_ends after opts)
unfolding cdc_chunk_ends
cdc_chunk_ends-behind_cut opts before after us vs e =
    let bytes = before ++ after in
    let n = length before in
    let enough : length after ≤ 0 + length bytes = omega (arith, length-append before after) in
    cdc_loop-behind (length bytes) bytes opts 0 n us vs (omega arith) e
    ∙ cdc_loop-drop (length bytes) bytes opts n 0 n (omega arith)
        (omega (arith, length-append before after))
    ∙ ap (λ l. map (λ e. n + e) l)
        (rw (drop-append before after n refl)
          (cdc_loop_fuel (length bytes) (length after) after opts 0 enough (omega arith)))
