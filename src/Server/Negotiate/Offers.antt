-- ===== src/Server/Negotiate/Offers.antt =====
-- Which chunks a negotiation offers for upload.
use mathlib.Core.Path.{subst}
use mathlib.Core.List.{flatten}
use delta_sync_engine.Prelude.{
  ℕ, ◌+◌, ◌≡◌, refl, sym, ap, ◌∙◌, inl, inr, List, [], ◌∷◌, ◌++◌, map, some, true, false, ◌||◌,
  ◌&&◌, not, arith, Bool-cases, Option-cases, length, All,
}
use delta_sync_engine.Prelude.Texts.{
  Text, text_eq, text_eq-eq, text_mem, text_mem-append, text_add, text_mem-text_add, text_add_all,
  text_mem-text_add_all, text_add_all-Distinct, Distinct,
}
use delta_sync_engine.Prelude.Maps.{lookup, insert, keys, keys-insert}
use delta_sync_engine.Wire.Manifest.Pages.{pages_lem}
use delta_sync_engine.Hash.Strong.{get_s3_key}
use delta_sync_engine.Server.NegotiationStore.{ChunkInfo, hashes_of}
use delta_sync_engine.Server.Objects.{Head}
use delta_sync_engine.Server.Objects.Answers.{
  is_stored, Answers, Answers-head, Answers-tail, Answers-append,
}
use delta_sync_engine.Server.Negotiate.{
  MissingChunk, to_check, unique_hash_map, check_batch, check_batches, missing_chunks, find_missing,
}

abbrev hash_of : ℕ × Text → Text
hash_of (i, hash) = hash

-- What is known to exist, and what is left to check, after the comparison with the previous version.
to_check_lem :
    (prev : List Text) (i : ℕ) (chunks : List ChunkInfo) (existing : List Text)
    → ((t : Text) → text_mem t existing ≡ true → text_mem t prev ≡ true)
    → ((t : Text)
        → text_mem t (map hash_of (to_check prev i chunks existing).0)
          ≡ (text_mem t (hashes_of chunks) && not (text_mem t prev)))
      × ((t : Text)
          → text_mem t (to_check prev i chunks existing).1
            ≡ (text_mem t existing || (text_mem t (hashes_of chunks) && text_mem t prev)))
unfolding to_check text_mem
to_check_lem prev i [] existing within = (λ t. refl, λ t. ground arith)
to_check_lem prev i (c ∷ chunks) existing within =
    let h = c.strong_hash in
    elim (Bool-cases (text_mem h prev)) [
      | inl old ↦
          let (left, known) = to_check_lem prev (i + 1) chunks (text_add h existing) (λ t m.
            elim (Bool-cases (text_eq t h)) [
              | inl same ↦ ap (λ x. text_mem x prev) (text_eq-eq t h same) ∙ old
              | inr other ↦ within t (ground (arith, text_mem-text_add t h existing))
            ]) in
          (
            λ t. elim (Bool-cases (text_eq t h)) [
              | inl same ↦
                  let there : text_mem t prev ≡ true =
                    ap (λ x. text_mem x prev) (text_eq-eq t h same) ∙ old in
                  rw old (left t ∙ ground (arith, there))
              | inr other ↦ rw old (left t ∙ ground (arith, other))
            ],
            λ t. elim (Bool-cases (text_eq t h)) [
              | inl same ↦
                  let there : text_mem t prev ≡ true =
                    ap (λ x. text_mem x prev) (text_eq-eq t h same) ∙ old in
                  rw old (known t ∙ ground (arith, there, text_mem-text_add t h existing))
              | inr other ↦ rw old (known t ∙ ground (arith, other, text_mem-text_add t h existing))
            ],
          )
      | inr new ↦
          let unseen : text_mem h existing ≡ false = elim (Bool-cases (text_mem h existing)) [
            | inl seen ↦ absurd (ground (arith, within h seen))
            | inr unseen ↦ unseen
          ] in
          let (left, known) = to_check_lem prev (i + 1) chunks existing within in
          (
            λ t. elim (Bool-cases (text_eq t h)) [
              | inl same ↦
                  let gone : text_mem t prev ≡ false =
                    ap (λ x. text_mem x prev) (text_eq-eq t h same) ∙ new in
                  rw (new, unseen) (ground (arith, left t, gone, same))
              | inr other ↦ rw (new, unseen) (ground (arith, left t, other))
            ],
            λ t. elim (Bool-cases (text_eq t h)) [
              | inl same ↦
                  let gone : text_mem t prev ≡ false =
                    ap (λ x. text_mem x prev) (text_eq-eq t h same) ∙ new in
                  rw (new, unseen) (ground (arith, known t, gone))
              | inr other ↦ rw (new, unseen) (ground (arith, known t, other))
            ],
          )
    ]

unique_hash_map-keys :
    (items : List (ℕ × Text)) (m : List (Text × List ℕ))
    → keys (unique_hash_map items m) ≡ text_add_all (keys m) (map hash_of items)
unfolding unique_hash_map text_add_all
unique_hash_map-keys [] m = refl
unique_hash_map-keys ((i, hash) ∷ items) m = elim (Option-cases (lookup hash m)) [
  | inl e ↦
      rw (e, keys)
        (unique_hash_map-keys items (insert hash (i ∷ []) m)
          ∙ ap (λ seen. text_add_all seen (map hash_of items)) (keys-insert hash (i ∷ []) m))
  | inr (indices, e) ↦
      rw (e, keys)
        (unique_hash_map-keys items (insert hash (indices ++ i ∷ []) m)
          ∙ ap (λ seen. text_add_all seen (map hash_of items))
              (keys-insert hash (indices ++ i ∷ []) m))
]

check_batch_lem :
    (head : Text → Head) (batch existing : List Text)
    → Answers head batch
    → (existing' : List Text) × (check_batch head batch existing ≡ some existing')
      × ((t : Text)
          → text_mem t existing' ≡ (text_mem t existing || (text_mem t batch && is_stored head t)))
unfolding check_batch text_mem
check_batch_lem head [] existing a = (existing, refl, λ t. ground arith)
check_batch_lem head (hash ∷ batch) existing a =
    let answer = Answers-head head hash batch a in
    let later = Answers-tail head hash batch a in
    elim (Bool-cases (is_stored head hash)) [
      | inl there ↦
          let (existing', e, members) = check_batch_lem head batch (text_add hash existing) later in
          (
            existing',
            rw (check_batch, answer ∙ ap some there, e),
            λ t. elim (Bool-cases (text_eq t hash)) [
              | inl same ↦
                  let known : is_stored head t ≡ true =
                    ap (is_stored head) (text_eq-eq t hash same) ∙ there in
                  members t ∙ ground (arith, known, text_mem-text_add t hash existing)
              | inr other ↦ members t ∙ ground (arith, other, text_mem-text_add t hash existing)
            ],
          )
      | inr gone ↦
          let (existing', e, members) = check_batch_lem head batch existing later in
          (
            existing',
            rw (check_batch, answer ∙ ap some gone, e),
            λ t. elim (Bool-cases (text_eq t hash)) [
              | inl same ↦
                  let known : is_stored head t ≡ false =
                    ap (is_stored head) (text_eq-eq t hash same) ∙ gone in
                  members t ∙ ground (arith, known)
              | inr other ↦ members t ∙ ground (arith, other)
            ],
          )
    ]

check_batches_lem :
    (head : Text → Head) (batches : List (List Text)) (existing : List Text)
    → Answers head (flatten batches)
    → (existing' : List Text) × (check_batches head batches existing ≡ some existing')
      × ((t : Text)
          → text_mem t existing'
            ≡ (text_mem t existing || (text_mem t (flatten batches) && is_stored head t)))
unfolding check_batches text_mem flatten
check_batches_lem head [] existing a = (existing, refl, λ t. ground arith)
check_batches_lem head (batch ∷ batches) existing a =
    let (here, later) = Answers-append head batch (flatten batches) a in
    let (existing1, e1, members1) = check_batch_lem head batch existing here in
    let (existing2, e2, members2) = check_batches_lem head batches existing1 later in
    (
      existing2,
      rw (e1, check_batches, e2),
      λ t. members2 t ∙ ground (arith, members1 t, text_mem-append t batch (flatten batches)),
    )

abbrev pub missing_hash : MissingChunk → Text
missing_hash c = c.strong_hash

missing_chunks_lem :
    (sign : Text → Text) (entries : List (Text × List ℕ)) (existing : List Text)
    → ((t : Text)
        → text_mem t (map missing_hash (missing_chunks sign entries existing))
          ≡ (text_mem t (keys entries) && not (text_mem t existing)))
      × (Distinct (keys entries)
          → Distinct (map missing_hash (missing_chunks sign entries existing)))
      × All
          (λ c. c.upload_url ≡ sign (get_s3_key c.strong_hash))
          (missing_chunks sign entries existing)
unfolding missing_chunks text_mem
missing_chunks_lem sign [] existing = (λ t. refl, λ d. d, tt)
missing_chunks_lem sign ((hash, indices) ∷ entries) existing =
    let (members, distinct, urls) = missing_chunks_lem sign entries existing in
    elim (Bool-cases (text_mem hash existing)) [
      | inl there ↦ (
        λ t. elim (Bool-cases (text_eq t hash)) [
          | inl same ↦
              let known : text_mem t existing ≡ true =
                ap (λ x. text_mem x existing) (text_eq-eq t hash same) ∙ there in
              rw there (members t ∙ ground (arith, known))
          | inr other ↦ rw there (members t ∙ ground (arith, other))
        ],
        λ d. rw there (distinct d.1),
        rw there urls,
      )
      | inr gone ↦ (
        λ t. elim (Bool-cases (text_eq t hash)) [
          | inl same ↦
              let known : text_mem t existing ≡ false =
                ap (λ x. text_mem x existing) (text_eq-eq t hash same) ∙ gone in
              rw gone (ground (arith, members t, known, same))
          | inr other ↦ rw gone (ground (arith, members t, other))
        ],
        λ d. rw gone (members hash ∙ ground (arith, d.0), distinct d.1),
        rw gone (refl, urls),
      )
    ]

-- Where the object store answers about the negotiated chunks, the negotiation finds the chunks to
-- upload: exactly those that neither the previous version nor the store has, each once, each with the
-- presigned URL of its key.
pub find_missing_lem :
    (head : Text → Head) (sign : Text → Text) (prev : List Text) (chunks : List ChunkInfo)
    → Answers head (hashes_of chunks)
    → (missing : List MissingChunk) × (find_missing head sign prev chunks ≡ some missing)
      × Distinct (map missing_hash missing)
      × ((t : Text)
          → text_mem t (map missing_hash missing)
            ≡ (text_mem t (hashes_of chunks) && not (text_mem t prev) && not (is_stored head t)))
      × All (λ c. c.upload_url ≡ sign (get_s3_key c.strong_hash)) missing
unfolding find_missing text_mem
find_missing_lem head sign prev chunks a =
    let items = (to_check prev 0 chunks []).0 in
    let existing = (to_check prev 0 chunks []).1 in
    let (left, known) = to_check_lem prev 0 chunks [] (λ t m. absurd (cc)) in
    let entries = unique_hash_map items [] in
    let listed = unique_hash_map-keys items [] in
    let hashes = keys entries in
    let unique : (t : Text) → text_mem t hashes ≡ text_mem t (map hash_of items) =
      λ t. ap (text_mem t) listed ∙ text_mem-text_add_all t [] (map hash_of items) in
    let (pages, e, joined, sized) =
      pages_lem (length hashes + 1) hashes 50 0 (omega arith) (omega arith) (omega arith) in
    let paged : (t : Text) → text_mem t (flatten pages) ≡ text_mem t hashes =
      λ t. ap (text_mem t) joined in
    let (existing', e', members) =
      check_batches_lem head pages existing
        (λ t m. a t (ground (arith, paged t, unique t, left t))) in
    let (missing_members, distinct, urls) = missing_chunks_lem sign entries existing' in
    (
      missing_chunks sign entries existing',
      rw (e, find_missing, e'),
      distinct (subst Distinct (sym listed) (text_add_all-Distinct [] (map hash_of items) tt)),
      λ t. missing_members t ∙ ground (arith, members t, paged t, unique t, left t, known t),
      urls,
    )
