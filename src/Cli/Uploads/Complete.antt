-- ===== src/Cli/Uploads/Complete.antt =====
-- cli/src/push.ts: what holds when the uploads of a push have ended.
use delta_sync_engine.Prelude.{
  ℕ, ◌≤◌, ◌<◌, ◌≡◌, refl, ap, ◌⊎◌, inl, inr, List, [], ◌∷◌, ◌++◌, true, false, ◌==◌, ltb, length,
  All, arith, Bool-cases,
}
use mathlib.Core.Path.{subst}
use delta_sync_engine.Prelude.Texts.{Text, text_mem, text_eq, text_eq-eq}
use delta_sync_engine.Cli.Journal.{ChunkTransfer, get_completed_chunks}
use delta_sync_engine.Cli.Uploads.{Upload, UploadWorker, Uploader}
use delta_sync_engine.Cli.Uploads.Invariant.{queued, held, given_up}
use delta_sync_engine.Cli.Uploads.Attempts.{
  times, refused_by, IsTried, Tried, All-taken, on_delay-Tried, start_uploads-Tried,
  on_answer-Tried, times_monotone,
}
use delta_sync_engine.Cli.Uploads.Interleaving.{Reach, starts, answered, woken, Reach-Sound}

unqueued : (queue : List Upload) (t : Text) → length queue ≡ 0 → text_mem t (queued queue) ≡ false
unfolding text_mem
unqueued [] t e = refl
unqueued (c ∷ queue) t e = absurd (omega (arith, e))

-- Each chunk of the list was refused at least three times.
AllRefused : List Text → List Text → Type 0
AllRefused refused lost = (t : Text) → text_mem t lost ≡ true → 3 ≤ times t refused

given_up-AllRefused :
    (w : UploadWorker) (refused lost : List Text)
    → IsTried refused w
    → AllRefused refused lost
    → AllRefused refused (given_up w ++ lost)
unfolding AllRefused text_mem
given_up-AllRefused w refused lost p h = elim (Bool-cases (w.attempts == 0)) [
  | inr left ↦ rw left h
  | inl used ↦ rw used (λ t m. elim (Bool-cases (text_eq t w.chunk.strong_hash)) [
    | inl same ↦
        let none_left : w.attempts ≡ 0 = ground (arith, used) in
        let tried : 3 ≤ times w.chunk.strong_hash refused = omega (arith, p, none_left) in
        rw (text_eq-eq t w.chunk.strong_hash same) tried
    | inr other ↦ h t (rw other at m)
  ])
]

module _ (upload_concurrency : ℕ) (negotiation_id : Text) (uploads : List Upload) where
  Reach-Tried :
      {journal : List ChunkTransfer} {refused lost : List Text} {u : Uploader}
      → Reach upload_concurrency negotiation_id uploads journal refused lost u
      → Tried refused u × AllRefused refused lost
  unfolding AllRefused text_mem
  Reach-Tried {journal = j} starts =
      (start_uploads-Tried upload_concurrency uploads j, λ t m. absurd (cc m))
  Reach-Tried
        (answered {refused = refused} {lost = lost} {u = u} before after w answer r e requested) =
      let (tried, given) = Reach-Tried r in
      let (p, rest) =
        All-taken (IsTried refused) before after w (subst (All (IsTried refused)) e tried) in
      (
        on_answer-Tried upload_concurrency negotiation_id refused w answer
            (record u { workers = before ++ after }) p rest,
        λ t m. omega (arith, given t m, times_monotone t (refused_by answer w) refused),
      )
  Reach-Tried (woken {refused = refused} {lost = lost} {u = u} before after w r e waited) =
      let (tried, given) = Reach-Tried r in
      let (p, rest) =
        All-taken (IsTried refused) before after w (subst (All (IsTried refused)) e tried) in
      (
        on_delay-Tried refused upload_concurrency w (record u { workers = before ++ after }) p rest,
        given_up-AllRefused w refused lost p given,
      )

  -- When all workers of the uploads have ended without an error being recorded, each chunk is completed in the
  -- journal, or at least three answers to requests for it were an HTTP 503 or 429 or another failure.
  pub uploads_complete :
      {journal : List ChunkTransfer} {refused lost : List Text} {u : Uploader}
      → 0 < upload_concurrency
      → 0 < length uploads
      → Reach upload_concurrency negotiation_id uploads journal refused lost u
      → u.workers ≡ []
      → u.upload_error ≡ false
      → (t : Text) → text_mem t (queued uploads) ≡ true
      → (text_mem t (get_completed_chunks negotiation_id u.journal) ≡ true) ⊎ (3 ≤ times t refused)
  unfolding AllRefused text_mem
  uploads_complete {lost = lost} {u = u} some_concurrency some_uploads r ended fine t m =
      let s =
        Reach-Sound upload_concurrency negotiation_id uploads some_concurrency some_uploads r in
      let idle : length u.queue ≡ 0 = elim (Bool-cases (ltb 0 (length u.queue))) [
        | inl more ↦ absurd (omega (arith, s.driven fine (ground (arith, more)), ap length ended))
        | inr none ↦ ground (arith, none)
      ] in
      let place = s.kept fine t m in
      elim (Bool-cases (text_mem t lost)) [
        | inl gone ↦ inr ((Reach-Tried r).1 t gone)
        | inr there ↦ inl (
            ground
              (arith, place, there, ap (λ l. text_mem t (held l)) ended, unqueued u.queue t idle))
      ]
