-- ===== src/Cli/Push/Answered.antt =====
-- cli/src/push.ts: the missing chunks that a push starts from are those of the server's answer.
use delta_sync_engine.Prelude.{
  ℕ, ◌≡◌, refl, ◌⊎◌, inl, inr, List, Option, none, some, true, Bool-cases, Option-cases, length,
  ◌==◌,
}
use mathlib.Core.Path.{subst}
use delta_sync_engine.Prelude.Texts.{Text, text_eq}
use delta_sync_engine.Prelude.Maps.{lookup}
use delta_sync_engine.Hash.Strong.{sha256}
use delta_sync_engine.Rsync.Signatures.{BlockSignature, cdc}
use delta_sync_engine.Cli.Journal.{ChunkTransfer, Session, get_completed_chunks}
use delta_sync_engine.Cli.Delta.{build_signatures}
use delta_sync_engine.Cli.Push.{
  LocalDb, MissingUpload, PushServer, PushStart, unchanged, refused, prepared, block_size_of,
  resume_session, establish, remaining_uploads, with_metadata, plan_uploads, start_uploading,
  prepare_uploads, start_push,
}

-- The server gives this negotiation and these missing chunks: either when it is asked to resume the session of the
-- path, which is one of the same content, or when it is asked to negotiate the signatures.
abbrev pub Answered :
    PushServer
    → Text
    → Text
    → List (Text × Session)
    → List BlockSignature
    → Text
    → List MissingUpload
    → Type 0
Answered server path hash sessions sigs id missing =
    ((session : Session) × (lookup path sessions ≡ some session)
      × (text_eq session.content_sha256 hash ≡ true)
      × (server.resume session.negotiation_id ≡ some (id, missing)))
    ⊎ (server.negotiate sigs ≡ some (id, missing))

module _ (server : PushServer) (path hash : Text) (sessions : List (Text × Session))
    (sigs : List BlockSignature) where
  abbrev IsAnswer : Option (Text × List MissingUpload) → Type 0
  IsAnswer none = Unit {0}
  IsAnswer (some (id, missing)) = Answered server path hash sessions sigs id missing

  resume_session-IsAnswer : IsAnswer (resume_session server path hash sessions).0
  unfolding resume_session
  resume_session-IsAnswer = elim (Option-cases (lookup path sessions)) [
    | inl fresh ↦ rw (fresh, resume_session) tt
    | inr (session, found) ↦ elim (Bool-cases (text_eq session.content_sha256 hash)) [
      | inr changed ↦ rw (found, resume_session, changed) tt
      | inl same ↦ elim (Option-cases (server.resume session.negotiation_id)) [
        | inl failed ↦ rw (found, resume_session, same, failed) tt
        | inr ((id, missing), answer) ↦ elim (Bool-cases (length id == 0)) [
          | inl nameless ↦ rw (found, resume_session, same, answer, nameless) tt
          | inr named ↦
              rw (found, resume_session, same, answer, named) (inl (session, found, same, answer))
        ]
      ]
    ]
  ]

  establish-IsAnswer : IsAnswer (establish server path hash sigs sessions).0
  unfolding establish
  establish-IsAnswer =
      let resumed = resume_session-IsAnswer in
      elim (Option-cases (resume_session server path hash sessions).0) [
        | inr (r, e) ↦ rw (e, establish) (subst IsAnswer e resumed)
        | inl unknown ↦ elim (Option-cases (server.negotiate sigs)) [
          | inl failed ↦ rw (unknown, establish, failed) tt
          | inr ((id, missing), answer) ↦ rw (unknown, establish, answer) (inr answer)
        ]
      ]

  abbrev pub IsAnsweredStart : PushStart → Type 0
  IsAnsweredStart (unchanged v) = Unit {0}
  IsAnsweredStart (refused e) = Unit {0}
  IsAnsweredStart (prepared id missing uploads) = Answered server path hash sessions sigs id missing

  start_uploading-IsAnsweredStart :
      (transfers : List ChunkTransfer) (established : Option (Text × List MissingUpload))
      → IsAnswer established
      → IsAnsweredStart (start_uploading sigs transfers established)
  unfolding start_uploading plan_uploads
  start_uploading-IsAnsweredStart transfers none a = tt
  start_uploading-IsAnsweredStart transfers (some (id, missing)) a =
      elim (Option-cases
        (with_metadata sigs (remaining_uploads (get_completed_chunks id transfers) missing))) [
          | inl failed ↦ rw (failed, start_uploading) tt
          | inr (uploads, e) ↦ rw (e, start_uploading) a
        ]

-- The signatures that a push of these bytes negotiates.
abbrev pub Signed : (List ℕ → List ℕ) → List ℕ → List BlockSignature → Type 0
Signed digest bytes sigs =
    build_signatures digest bytes cdc (block_size_of (length bytes)) ≡ some sigs

pub start_push-IsAnsweredStart :
    (digest : List ℕ → List ℕ) (server : PushServer) (path : Text) (bytes : List ℕ)
    (known : Option ℕ) (db : LocalDb)
    → (sigs : List BlockSignature) × (Signed digest bytes sigs)
      × IsAnsweredStart server path
          (sha256 digest bytes)
          db.negotiation_sessions
          sigs
          (start_push digest server path bytes known db).0
unfolding start_push prepare_uploads build_signatures
start_push-IsAnsweredStart digest server path bytes (some v) db = (_, refl, tt)
start_push-IsAnsweredStart digest server path bytes none db = (
  _,
  refl,
  start_uploading-IsAnsweredStart server path (sha256 digest bytes) db.negotiation_sessions _
      db.chunk_transfers _
      (establish-IsAnswer server path (sha256 digest bytes) db.negotiation_sessions _),
)
