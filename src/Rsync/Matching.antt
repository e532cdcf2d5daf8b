-- ===== src/Rsync/Matching.antt =====
-- What a lookup in the buckets finds is a signature of the list that the buckets were built from.
use delta_sync_engine.Prelude.{
  ℕ, ◌≡◌, inl, inr, List, [], ◌∷◌, some, Bool, true, arith, ◌==◌, Bool-cases, Option-cases, ==_iff,
  length, All, All-append,
}
use mathlib.Core.Path.{subst}
use mathlib.Core.Option.{some-injective}
use delta_sync_engine.Prelude.Texts.{text_eq, text_eq-eq}
use delta_sync_engine.Hash.Adler.{adler32, adler32_hash, weak16}
use delta_sync_engine.Hash.Strong.{sha256}
use delta_sync_engine.Rsync.Signatures.{BlockSignature}
use delta_sync_engine.Rsync.Delta.{
  Buckets, bucket_get, bucket_push, build_buckets_fixed, build_buckets_all, find, filter_weak,
  strong_match, match_window, match_chunk,
}

module _ (P : BlockSignature → Type 0) where
  abbrev pub AllIn : Buckets → Type 0
  AllIn buckets = All (λ (e : ℕ × List BlockSignature). All P e.1) buckets

  bucket_push-AllIn :
      (key : ℕ) (sig : BlockSignature) (buckets : Buckets)
      → P sig
      → AllIn buckets
      → AllIn (bucket_push key sig buckets)
  unfolding bucket_push
  bucket_push-AllIn key sig [] p h = ((p, tt), tt)
  bucket_push-AllIn key sig ((k, list) ∷ rest) p (here, there) = elim (Bool-cases (k == key)) [
    | inl same ↦ rw same (All-append P list (sig ∷ []) here (p, tt), there)
    | inr other ↦ rw other (here, bucket_push-AllIn key sig rest p there)
  ]

  pub bucket_get-All :
      (key : ℕ) (buckets : Buckets) {list : List BlockSignature}
      → AllIn buckets
      → bucket_get key buckets ≡ some list
      → All P list
  unfolding bucket_get
  bucket_get-All key [] h e = absurd (cc)
  bucket_get-All key ((k, l) ∷ rest) (here, there) e = elim (Bool-cases (k == key)) [
    | inl same ↦ subst (λ l'. All P l') (some-injective _ _ (rw same at e)) here
    | inr other ↦ bucket_get-All key rest there (rw other at e)
  ]

  filter_weak-All :
      (hash : ℕ) (list : List BlockSignature) → All P list → All P (filter_weak hash list)
  unfolding filter_weak
  filter_weak-All hash [] h = tt
  filter_weak-All hash (c ∷ cs) (p, h) = elim (Bool-cases (c.weak == hash)) [
    | inl same ↦ rw same (p, filter_weak-All hash cs h)
    | inr other ↦ rw other (filter_weak-All hash cs h)
  ]

  pub find-All :
      (test : BlockSignature → Bool) (list : List BlockSignature) {sig : BlockSignature}
      → All P list
      → find test list ≡ some sig
      → P sig × (test sig ≡ true)
  unfolding find
  find-All test [] h e = absurd (cc)
  find-All test (c ∷ cs) (p, h) e = elim (Bool-cases (test c)) [
    | inl found ↦ subst (λ s. P s × (test s ≡ true)) (some-injective _ _ (rw found at e)) (p, found)
    | inr other ↦ find-All test cs h (rw other at e)
  ]

  pub build_buckets_all-AllIn :
      (sigs : List BlockSignature) (buckets : Buckets)
      → All P sigs
      → AllIn buckets
      → AllIn (build_buckets_all sigs buckets)
  unfolding build_buckets_all
  build_buckets_all-AllIn [] buckets h k = k
  build_buckets_all-AllIn (sig ∷ sigs) buckets (p, h) k =
      build_buckets_all-AllIn sigs _ h (bucket_push-AllIn (weak16 sig.weak) sig buckets p k)

  -- A chunk's match has the chunk's strong hash and length.
  pub match_chunk_sound :
      (digest : List ℕ → List ℕ) (sigs : List BlockSignature) (window : List ℕ)
      {sig : BlockSignature}
      → All P sigs
      → match_chunk digest (build_buckets_all sigs []) window ≡ some sig
      → P sig × (sig.strong ≡ sha256 digest window) × (sig.length ≡ length window)
  unfolding match_chunk
  match_chunk_sound digest sigs window {sig = sig} h e =
      let weak = adler32_hash (adler32 window) in
      let strong = sha256 digest window in
      let buckets = build_buckets_all sigs [] in
      elim (Option-cases (bucket_get (weak16 weak) buckets)) [
        | inl missing ↦ absurd (cc (rw (missing, match_chunk) at e))
        | inr (candidates, there) ↦
            let among =
              bucket_get-All (weak16 weak) buckets (build_buckets_all-AllIn sigs [] h tt) there in
            let (p, fits) = find-All _ candidates among (rw (there, match_chunk) at e) in
            (p, ground (arith, text_eq-eq sig.strong strong), ground (arith, fits))
      ]

  build_buckets_fixed-AllIn :
      (sigs : List BlockSignature) (block_size : ℕ) (buckets : Buckets)
      → All (λ s. s.length ≡ block_size → P s) sigs
      → AllIn buckets
      → AllIn (build_buckets_fixed sigs block_size buckets)
  unfolding build_buckets_fixed
  build_buckets_fixed-AllIn [] n buckets h k = k
  build_buckets_fixed-AllIn (sig ∷ sigs) n buckets (p, h) k = elim (Bool-cases (sig.length == n)) [
    | inl full ↦ rw full (
        build_buckets_fixed-AllIn sigs n _ h
          (bucket_push-AllIn (weak16 sig.weak) sig buckets (p ((==_iff _ _).0 full)) k))
    | inr short ↦ rw short (build_buckets_fixed-AllIn sigs n buckets h k)
  ]

  strong_match_sound :
      (digest : List ℕ → List ℕ) (list : List BlockSignature) (window : List ℕ)
      {sig : BlockSignature}
      → All P list
      → strong_match digest list window ≡ some sig
      → P sig × (sig.strong ≡ sha256 digest window)
  unfolding strong_match
  strong_match_sound digest [] window h e = absurd (cc)
  strong_match_sound digest (c ∷ cs) window {sig = sig} h e =
      let strong = sha256 digest window in
      let (p, fits) = find-All (λ s. text_eq s.strong strong) (c ∷ cs) h e in
      (p, text_eq-eq sig.strong strong fits)

  -- A window's match has the window's strong hash, and is a signature of a whole block.
  pub match_window_sound :
      (digest : List ℕ → List ℕ) (sigs : List BlockSignature) (block_size hash : ℕ)
      (window : List ℕ) {sig : BlockSignature}
      → All (λ s. s.length ≡ block_size → P s) sigs
      → match_window digest (build_buckets_fixed sigs block_size []) hash window ≡ some sig
      → P sig × (sig.strong ≡ sha256 digest window)
  unfolding match_window
  match_window_sound digest sigs n hash window {sig = sig} h e =
      let buckets = build_buckets_fixed sigs n [] in
      elim (Option-cases (bucket_get (weak16 hash) buckets)) [
        | inl missing ↦ absurd (cc (rw (missing, match_window) at e))
        | inr (candidates, there) ↦
            let among =
              bucket_get-All (weak16 hash) buckets (build_buckets_fixed-AllIn sigs n [] h tt)
                there in
            strong_match_sound digest _ window (filter_weak-All hash candidates among)
              (rw (there, match_window) at e)
      ]
