-- ===== src/Server/Resume/Progress.antt =====
-- What a resumed negotiation is told to upload.
use mathlib.Core.List.{flatten}
use delta_sync_engine.Prelude.{
  ◌+◌, ◌-◌, ◌≡◌, refl, sym, ap, ◌∙◌, inl, inr, List, [], ◌∷◌, map, some, true, false, ◌||◌, ◌&&◌,
  not, arith, Bool-cases, length,
}
use delta_sync_engine.Prelude.Texts.{
  Text, text_eq, text_eq-eq, text_mem, text_mem-append, text_add, text_mem-text_add,
  text_add-Distinct, text_add_all, text_mem-text_add_all, Distinct,
}
use delta_sync_engine.Wire.Manifest.Pages.{pages_lem}
use delta_sync_engine.Hash.Strong.{get_s3_key}
use delta_sync_engine.Server.NegotiationStore.{NegotiationPayload, hashes_of}
use delta_sync_engine.Server.Objects.{Head}
use delta_sync_engine.Server.Objects.Answers.{
  is_stored, Answers, Answers-head, Answers-tail, Answers-append,
}
use delta_sync_engine.Server.Resume.{resumed, add_missing, missing_set, resume_negotiation}

-- What is missing after some requests: a set, which the hashes join that the store does not have.
abbrev IsMissing : (Text → Head) → List Text → List Text → List Text → Type 0
IsMissing head missing hashes missing' =
    (Distinct missing → Distinct missing')
    × ((t : Text)
        → text_mem t missing'
          ≡ (text_mem t missing || (text_mem t hashes && not (is_stored head t))))

add_missing_lem :
    (head : Text → Head) (batch missing : List Text)
    → Answers head batch
    → (missing' : List Text) × (add_missing head batch missing ≡ some missing')
      × IsMissing head missing batch missing'
unfolding add_missing text_mem
add_missing_lem head [] missing a = (missing, refl, (λ d. d, λ t. ground arith))
add_missing_lem head (hash ∷ batch) missing a =
    let answer = Answers-head head hash batch a in
    elim (Bool-cases (is_stored head hash)) [
      | inl there ↦
          let (missing', e, (distinct, members)) =
            add_missing_lem head batch missing (Answers-tail head hash batch a) in
          (
            missing',
            rw (add_missing, answer ∙ ap some there, e),
            (
              distinct,
              λ t. elim (Bool-cases (text_eq t hash)) [
                | inl same ↦
                    let known : is_stored head t ≡ true =
                      ap (is_stored head) (text_eq-eq t hash same) ∙ there in
                    members t ∙ ground (arith, known)
                | inr other ↦ members t ∙ rw other
              ],
            ),
          )
      | inr gone ↦
          let (missing', e, (distinct, members)) =
            add_missing_lem head batch (text_add hash missing) (Answers-tail head hash batch a) in
          (
            missing',
            rw (add_missing, answer ∙ ap some gone, e),
            (
              λ d. distinct (text_add-Distinct hash missing d),
              λ t. elim (Bool-cases (text_eq t hash)) [
                | inl same ↦
                    let known : is_stored head t ≡ false =
                      ap (is_stored head) (text_eq-eq t hash same) ∙ gone in
                    members t ∙ ground (arith, known, text_mem-text_add t hash missing)
                | inr other ↦ members t ∙ ground (arith, other, text_mem-text_add t hash missing)
              ],
            ),
          )
    ]

missing_set_lem :
    (head : Text → Head) (batches : List (List Text)) (missing : List Text)
    → Answers head (flatten batches)
    → (missing' : List Text) × (missing_set head batches missing ≡ some missing')
      × IsMissing head missing (flatten batches) missing'
unfolding missing_set text_mem flatten
missing_set_lem head [] missing a = (missing, refl, (λ d. d, λ t. ground arith))
missing_set_lem head (batch ∷ batches) missing a =
    let (here, later) = Answers-append head batch (flatten batches) a in
    let (missing1, e1, (distinct1, members1)) = add_missing_lem head batch missing here in
    let (missing2, e2, (distinct2, members2)) = missing_set_lem head batches missing1 later in
    (
      missing2,
      rw (e1, missing_set, e2),
      (
        λ d. distinct2 (distinct1 d),
        λ t. members2 t ∙ ground (arith, members1 t, text_mem-append t batch (flatten batches)),
      ),
    )

-- Where the object store answers, a resumed negotiation succeeds: the chunks that it offers for upload,
-- each under the presigned URL of its key, are exactly those negotiated chunks that the store does not
-- have, each once.
pub resume_negotiation_lem :
    (head : Text → Head) (sign : Text → Text) (negotiation_id : Text) (n : NegotiationPayload)
    → Answers head (hashes_of n.chunks)
    → (missing : List Text) × (resume_negotiation head sign negotiation_id n
        ≡ resumed negotiation_id
            (map (λ hash. (hash, sign (get_s3_key hash))) missing)
            (length (text_add_all [] (hashes_of n.chunks)))
            (length (text_add_all [] (hashes_of n.chunks)) - length missing)
            3600)
      × Distinct missing
      × ((t : Text)
          → text_mem t missing ≡ (text_mem t (hashes_of n.chunks) && not (is_stored head t)))
unfolding resume_negotiation text_mem
resume_negotiation_lem head sign negotiation_id n a =
    let hashes = hashes_of n.chunks in
    let unique = text_add_all [] hashes in
    let (pages, e, joined, sized) =
      pages_lem (length unique + 1) unique 50 0 (omega arith) (omega arith) (omega arith) in
    let members : (t : Text) → text_mem t (flatten pages) ≡ text_mem t hashes =
      λ t. ap (text_mem t) joined ∙ text_mem-text_add_all t [] hashes in
    let (missing, e', (distinct, missing_members)) =
      missing_set_lem head pages [] (λ t m. a t (sym (members t) ∙ m)) in
    (
      missing,
      rw (e, resume_negotiation, e'),
      distinct tt,
      λ t. missing_members t ∙ ground (arith, members t),
    )
