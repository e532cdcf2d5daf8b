-- ===== src/Cli/Push/Payload.antt =====
-- What a push sends: the bytes that each missing chunk's hash names.
use mathlib.Core.Path.{subst}
use mathlib.Core.Option.{some-injective}
use delta_sync_engine.Prelude.{
  ℕ, ◌+◌, ◌-◌, ◌≤◌, ◌≡◌, refl, sym, ap, ◌∙◌, inl, inr, List, [], ◌∷◌, map, Option, none, some, true,
  false, ◌&&◌, not, Bool-cases, Option-cases, length, slice, All, arith,
}
use delta_sync_engine.Prelude.Texts.{Text, text_eq, text_eq-eq, text_mem}
use delta_sync_engine.Hash.Strong.{sha256}
use delta_sync_engine.Cdc.{Range}
use delta_sync_engine.Cdc.Tiling.{Tiles, cdc_ranges-Tiles}
use delta_sync_engine.Rsync.Signatures.{BlockSignature}
use delta_sync_engine.Cli.Journal.{ChunkTransfer, get_completed_chunks}
use delta_sync_engine.Cli.Uploads.{Upload}
use delta_sync_engine.Cli.Uploads.Invariant.{queued}
use delta_sync_engine.Cli.Delta.{client_signature, cdc_signatures, build_signatures, client_options}
use delta_sync_engine.Cli.Sync.{get_file}
use delta_sync_engine.Cli.Push.Answered.{
  Answered, Signed, IsAnsweredStart, start_push-IsAnsweredStart,
}
use delta_sync_engine.Cli.Push.{
  LocalDb, MissingUpload, PushServer, PushStart, unchanged, refused, prepared, block_size_of,
  remaining_uploads, find_signature, with_metadata, plan_uploads, start_uploading, prepare_uploads,
  known_version, start_push, prepare_push,
}

abbrev pub missing_hashes : List MissingUpload → List Text
missing_hashes missing = map (λ (m : MissingUpload). m.0) missing

module _ (digest : List ℕ → List ℕ) (bytes : List ℕ) where
  -- A part of the file and the strong hash of it.
  abbrev IsPart : Text → ℕ → ℕ → Type 0
  IsPart hash offset len =
      (offset + len ≤ length bytes) × (hash ≡ sha256 digest (slice bytes offset (offset + len)))

  abbrev pub IsUploadOf : Upload → Type 0
  IsUploadOf u = IsPart u.strong_hash u.offset u.length

  abbrev IsSignature : BlockSignature → Type 0
  IsSignature s = IsPart s.strong s.offset s.length

  cdc_signatures-IsSignature :
      (ranges : List Range) (index offset : ℕ)
      → Tiles offset (length bytes) ranges
      → All IsSignature (cdc_signatures digest bytes index ranges)
  unfolding cdc_signatures client_signature
  cdc_signatures-IsSignature [] index offset h = tt
  cdc_signatures-IsSignature (r ∷ ranges) index offset (start, more, inside, h) =
      let width : r.start + (r.end - r.start) ≡ r.end = omega arith in
      (
        (omega arith, ap (λ e. sha256 digest (slice bytes r.start e)) (sym width)),
        cdc_signatures-IsSignature ranges (index + 1) r.end h,
      )

  find_signature-IsPart :
      (hash : Text) (sigs : List BlockSignature) {sig : BlockSignature}
      → All IsSignature sigs
      → find_signature hash sigs ≡ some sig
      → IsPart hash sig.offset sig.length
  unfolding find_signature
  find_signature-IsPart hash [] h e = absurd (cc)
  find_signature-IsPart hash (s ∷ sigs) {sig = sig} (p, h) e =
      elim (Bool-cases (text_eq s.strong hash)) [
        | inr other ↦ find_signature-IsPart hash sigs h (rw other at e)
        | inl same ↦
            let here : IsPart hash s.offset s.length =
              subst (λ t. IsPart t s.offset s.length) (text_eq-eq s.strong hash same) p in
            subst (λ (x : BlockSignature). IsPart hash x.offset x.length)
              (some-injective _ _ (rw same at e)) here
      ]

  with_metadata_lem :
      (sigs : List BlockSignature) (missing : List MissingUpload) (uploads : List Upload)
      → All IsSignature sigs
      → with_metadata sigs missing ≡ some uploads
      → All IsUploadOf uploads × (queued uploads ≡ missing_hashes missing)
  unfolding with_metadata
  with_metadata_lem sigs [] uploads h e =
      subst (λ us. All IsUploadOf us × (queued us ≡ [])) (some-injective _ _ e) (tt, refl)
  with_metadata_lem sigs ((hash, url) ∷ missing) uploads h e =
      elim (Option-cases (find_signature hash sigs)) [
        | inl unknown ↦ absurd (cc (rw (unknown, with_metadata) at e))
        | inr (sig, found) ↦ elim (Option-cases (with_metadata sigs missing)) [
          | inl failed ↦ absurd (cc (rw (found, with_metadata, failed) at e))
          | inr (rest, e') ↦
              let (parts, names) = with_metadata_lem sigs missing rest h e' in
              subst (λ us. All IsUploadOf us × (queued us ≡ hash ∷ missing_hashes missing))
                (some-injective _ _ (rw (found, with_metadata, e') at e))
                ((find_signature-IsPart hash sigs h found, parts), ap (λ l. hash ∷ l) names)
        ]
      ]

  remaining_uploads-mem :
      (completed_local : List Text) (missing : List MissingUpload) (t : Text)
      → text_mem t (missing_hashes (remaining_uploads completed_local missing))
        ≡ (text_mem t (missing_hashes missing) && not (text_mem t completed_local))
  unfolding remaining_uploads text_mem
  remaining_uploads-mem done [] t = refl
  remaining_uploads-mem done ((hash, url) ∷ missing) t =
      let later = remaining_uploads-mem done missing t in
      elim (Bool-cases (text_mem hash done)) [
        | inl old ↦ elim (Bool-cases (text_eq t hash)) [
          | inl same ↦
              let known : text_mem t done ≡ true =
                ap (λ x. text_mem x done) (text_eq-eq t hash same) ∙ old in
              rw old (later ∙ ground (arith, known))
          | inr other ↦ rw old (later ∙ ground (arith, other))
        ]
        | inr new ↦ elim (Bool-cases (text_eq t hash)) [
          | inl same ↦
              let fresh : text_mem t done ≡ false =
                ap (λ x. text_mem x done) (text_eq-eq t hash same) ∙ new in
              rw new (ground (arith, later, fresh, same))
          | inr other ↦ rw new (ground (arith, later, other))
        ]
      ]

  -- What a start promises if uploads are to be made.
  abbrev IsPayload : List ChunkTransfer → PushStart → Type 0
  IsPayload transfers (unchanged v) = Unit {0}
  IsPayload transfers (refused e) = Unit {0}
  IsPayload transfers (prepared id missing uploads) =
      All IsUploadOf uploads
      × ((t : Text)
          → text_mem t (queued uploads) ≡ (
              text_mem t (missing_hashes missing)
              && not (text_mem t (get_completed_chunks id transfers))))

  start_uploading-IsPayload :
      (sigs : List BlockSignature) (transfers : List ChunkTransfer)
      (established : Option (Text × List MissingUpload))
      → All IsSignature sigs
      → IsPayload transfers (start_uploading sigs transfers established)
  unfolding start_uploading plan_uploads
  start_uploading-IsPayload sigs transfers none h = tt
  start_uploading-IsPayload sigs transfers (some (id, missing)) h =
      let done = get_completed_chunks id transfers in
      let left = remaining_uploads done missing in
      elim (Option-cases (with_metadata sigs left)) [
        | inl failed ↦ rw (failed, start_uploading) tt
        | inr (uploads, e) ↦
            let (parts, names) = with_metadata_lem sigs left uploads h e in
            rw (e, start_uploading)
              (parts, λ t. ap (text_mem t) names ∙ remaining_uploads-mem done missing t)
      ]

  start_push-IsPayload :
      (server : PushServer) (path : Text) (known : Option ℕ) (db : LocalDb)
      → IsPayload db.chunk_transfers (start_push digest server path bytes known db).0
  unfolding start_push prepare_uploads build_signatures
  start_push-IsPayload server path (some v) db = tt
  start_push-IsPayload server path none db = start_uploading-IsPayload _ db.chunk_transfers _ (
      cdc_signatures-IsSignature _ 0 0
        (cdc_ranges-Tiles bytes (client_options (block_size_of (length bytes)))))

-- Where a push starts to upload, each upload is a part of the file inside it, sent under the strong hash
-- of exactly these bytes. The hashes to upload are those of the missing chunks less those that the journal has as
-- completed for the negotiation. The negotiation and the missing chunks are the server's answer: to the resumption of
-- the path's session, if that is of the same content, or to the negotiation of the file's signatures.
pub prepare_push-IsUploadOf :
    (digest : List ℕ → List ℕ) (server : PushServer) (now : ℕ) (path : Text) (bytes : List ℕ)
    (db db' : LocalDb) (id : Text) (missing : List MissingUpload) (uploads : List Upload)
    → prepare_push digest server now path bytes db ≡ (prepared id missing uploads, db')
    → All (IsUploadOf digest bytes) uploads
      × ((t : Text)
          → text_mem t (queued uploads) ≡ (
              text_mem t (missing_hashes missing)
              && not (text_mem t (get_completed_chunks id db.chunk_transfers))))
      × ((sigs : List BlockSignature) × (Signed digest bytes sigs)
          × Answered server path (sha256 digest bytes) db.negotiation_sessions sigs id missing)
unfolding prepare_push
prepare_push-IsUploadOf digest server now path bytes db db' id missing uploads e =
    let cached = known_version (get_file now path db.files).0 (sha256 digest bytes) in
    let db_read : LocalDb = record db { files = (get_file now path db.files).1 } in
    let started = ap (λ (r : PushStart × LocalDb). r.0) e in
    let (parts, left) =
      subst (IsPayload digest bytes db.chunk_transfers) started
        (start_push-IsPayload digest bytes server path cached db_read) in
    let (sigs, signed, answered) =
      start_push-IsAnsweredStart digest server path bytes cached db_read in
    (
      parts,
      left,
      (
        sigs,
        signed,
        subst (IsAnsweredStart server path (sha256 digest bytes) db.negotiation_sessions sigs)
            started answered,
      ),
    )
