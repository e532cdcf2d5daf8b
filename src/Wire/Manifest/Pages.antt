-- ===== src/Wire/Manifest/Pages.antt =====
-- The streaming decoder is the decoder followed by a fold, and the pages of hashes are the distinct
-- hashes of the manifest.
use delta_sync_engine.Prelude.{
  ℕ, zero, suc, ◌+◌, ◌-◌, ◌≤◌, ◌<◌, ◌≡◌, refl, sym, ap, ◌∙◌, inl, inr, List, [], ◌∷◌, ◌++◌, map,
  some, true, ◌||◌, arith, ltb, Bool-cases, length, take, drop, slice, length-take, length-drop,
  take-append-drop, drop-all, drop-drop, All, ok, ◌>>=◌, >>=-eq-ok, Result-cases,
}
use mathlib.Core.List.{flatten}
use delta_sync_engine.Prelude.Texts.{
  Text, text_eq, text_eq-eq, text_mem, Distinct, Distinct-append_one, text_mem-append,
}
use delta_sync_engine.Wire.Manifest.{
  ManifestChunk, decode_row, decode_rows, read_header, decode_chunk_manifest_v1, stream_rows,
  decode_chunk_manifest_v1_streaming, see, pages_from, iterate_manifest_hash_pages,
}

-- The chunks in order, each handed to the callback.
abbrev pub feed {ℓ} : {S : Type ℓ} → (ManifestChunk → S → S) → List ManifestChunk → S → S
feed callback [] s = s
feed callback (c ∷ cs) s = feed callback cs (callback c s)

stream_rows-decode_rows {ℓ} :
    {S : Type ℓ} (callback : ManifestChunk → S → S) (rounds : ℕ) (buf : List ℕ) (p i : ℕ) (s : S)
    → stream_rows callback rounds buf p i s
      ≡ (decode_rows rounds buf p i >>= λ chunks. ok (feed callback chunks s))
unfolding stream_rows decode_rows
stream_rows-decode_rows callback zero buf p i s = refl
stream_rows-decode_rows callback (suc rounds) buf p i s = elim (Result-cases (decode_row buf p i)) [
  | inr (e, failed) ↦ rw failed
  | inl (chunk, read) ↦
      let again = stream_rows-decode_rows callback rounds buf (p + 44) (i + 1) (callback chunk s) in
      elim (Result-cases (decode_rows rounds buf (p + 44) (i + 1))) [
        | inr (e, failed) ↦ rw (read, again, failed)
        | inl (chunks, rest) ↦ rw (read, again, rest)
      ]
]

decode_rows-length :
    (rounds : ℕ) (buf : List ℕ) (p i : ℕ) {chunks : List ManifestChunk}
    → decode_rows rounds buf p i ≡ ok chunks
    → length chunks ≡ rounds
unfolding decode_rows
decode_rows-length zero buf p i {chunks = []} e = refl
decode_rows-length zero buf p i {chunks = c ∷ cs} e = absurd (cc)
decode_rows-length (suc rounds) buf p i e =
    let (chunk, here, behind) = >>=-eq-ok (decode_row buf p i) _ e in
    let (chunks, rest, whole) = >>=-eq-ok (decode_rows rounds buf (p + 44) (i + 1)) _ behind in
    ground (arith, whole, decode_rows-length rounds buf (p + 44) (i + 1) rest)

-- On every buffer the streaming decoder fails exactly as the decoder fails, and where the decoder
-- returns chunks, it returns their number and the state after the callback saw them in order.
pub decode_streaming-decode :
    {S : Type 0} (buf : List ℕ) (callback : ManifestChunk → S → S) (s : S)
    → decode_chunk_manifest_v1_streaming buf callback s
      ≡ (decode_chunk_manifest_v1 buf >>= λ chunks. ok (length chunks, feed callback chunks s))
unfolding decode_chunk_manifest_v1_streaming decode_chunk_manifest_v1
decode_streaming-decode buf callback s = elim (Result-cases (read_header buf)) [
  | inr (e, failed) ↦ rw failed
  | inl (count, header) ↦
      let stream = stream_rows-decode_rows callback count buf 8 0 s in
      elim (Result-cases (decode_rows count buf 8 0)) [
        | inr (e, failed) ↦ rw (header, stream, failed)
        | inl (chunks, rows) ↦ rw (header, stream, rows, decode_rows-length count buf 8 0 rows)
      ]
]

abbrev pub hashes : List ManifestChunk → List Text
hashes chunks = map (λ (c : ManifestChunk). c.strong_hash_hex) chunks

feed-see :
    (chunks : List ManifestChunk) (seen : List Text)
    → Distinct seen
    → Distinct (feed see chunks seen)
      × ((t : Text)
          → text_mem t (feed see chunks seen) ≡ (text_mem t seen || text_mem t (hashes chunks)))
unfolding see text_mem
feed-see [] seen d = (d, λ t. ground arith)
feed-see (c ∷ chunks) seen d =
    let h = c.strong_hash_hex in
    elim (Bool-cases (text_mem h seen)) [
      | inl old ↦
          let (distinct, members) = feed-see chunks seen d in
          rw old (
            distinct,
            λ t. elim (Bool-cases (text_eq t h)) [
              | inl same ↦
                  let known : text_mem t seen ≡ true =
                    ap (λ x. text_mem x seen) (text_eq-eq t h same) ∙ old in
                  members t ∙ ground (arith, known)
              | inr other ↦ members t ∙ ground (arith, other)
            ],
          )
      | inr new ↦
          let (distinct, members) =
            feed-see chunks (seen ++ h ∷ []) (Distinct-append_one seen h d new) in
          rw new (distinct, λ t. members t ∙ ground (arith, text_mem-append t seen (h ∷ [])))
    ]

-- Pages of at least one element: the loop ends, and they together are the rest of the list.
pub pages_lem :
    (fuel : ℕ) (all : List Text) (page_size i : ℕ)
    → 0 < page_size
    → length all < i + fuel
    → 0 < fuel
    → (pages : List (List Text)) × (pages_from fuel all page_size i ≡ some pages)
      × (flatten pages ≡ drop i all)
      × All (λ page. (0 < length page) × (length page ≤ page_size)) pages
unfolding pages_from flatten
pages_lem zero all n i pos enough some_fuel = elim some_fuel [ ]
pages_lem (suc fuel) all n i pos enough some_fuel = elim (Bool-cases (ltb i (length all))) [
  | inr done ↦ ([], rw done, sym (drop-all all i (ground arith)), tt)
  | inl more ↦
      let (pages, e, joined, sized) =
        pages_lem fuel all n (i + n) pos (omega arith) (ground arith) in
      let page = slice all i (i + n) in
      let width : i + n - i ≡ n = omega arith in
      let size = length-take (i + n - i) (drop i all) in
      (
        page ∷ pages,
        rw (more, e),
        ap (λ l. page ++ l) joined
            ∙ rw width (
                ap (λ l. take n (drop i all) ++ l) (sym (drop-drop i n (i + n) all refl))
                ∙ take-append-drop n (drop i all)),
        ((ground (arith, size, length-drop i all), ground (arith, size)), sized),
      )
]

-- For a page size of at least one: where the manifest decodes, the pages together list every hash of
-- it exactly once, and each page holds at least one hash and at most `page_size`.
pub iterate_manifest_hash_pages_lem :
    (buf : List ℕ) (page_size : ℕ) (chunks : List ManifestChunk)
    → 0 < page_size
    → decode_chunk_manifest_v1 buf ≡ ok chunks
    → (pages : List (List Text)) × (iterate_manifest_hash_pages buf page_size ≡ ok (some pages))
      × Distinct (flatten pages)
      × ((t : Text) → text_mem t (flatten pages) ≡ text_mem t (hashes chunks))
      × All (λ page. (0 < length page) × (length page ≤ page_size)) pages
unfolding iterate_manifest_hash_pages
iterate_manifest_hash_pages_lem buf n chunks pos decoded =
    let seen = feed see chunks [] in
    let (distinct, members) = feed-see chunks [] tt in
    let (pages, e, joined, sized) =
      pages_lem (length seen + 1) seen n 0 pos (omega arith) (omega arith) in
    let stream : decode_chunk_manifest_v1_streaming buf see [] ≡ ok (length chunks, seen) =
      rw (decode_streaming-decode buf see [], decoded) in
    (pages, rw (stream, e), rw joined distinct, λ t. rw joined (members t), sized)
