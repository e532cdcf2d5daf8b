-- ===== src/Cli/Uploads/Interleaving.antt =====
-- The uploads of a push under every interleaving of the workers' answers.
use delta_sync_engine.Prelude.{
  ℕ, zero, suc, ◌+◌, ◌-◌, ◌≤◌, ◌<◌, ◌≡◌, refl, ap, ◌∙◌, inl, inr, List, [], ◌∷◌, ◌++◌, true, not,
  ◌&&◌, ◌==◌, ltb, leb, length, min, arith, Bool-cases, length-append,
}
use delta_sync_engine.Prelude.Texts.{Text, text_mem, text_mem-append}
use delta_sync_engine.Cli.Journal.{
  ChunkTransfer, record_chunk_status, completed, record_chunk_status-completed,
}
use delta_sync_engine.Cli.Uploads.{
  Upload, UploadWorker, PutAnswer, stored, slow_down, failed, requesting, delayed, Uploader,
  run_worker, note_latency, slow, on_answer, on_delay, first_workers, no_uploads_yet, start_uploads,
}
use delta_sync_engine.Cli.Uploads.Attempts.{refused_by}
use delta_sync_engine.Cli.Uploads.Invariant.{
  held, held-append, given_up, Sound, caught-Sound, finish_chunk-Sound, add_worker-Sound,
  delay-Sound, first_workers-Sound, take_next-Sound,
}

module _ (upload_concurrency : ℕ) (negotiation_id : Text) (uploads : List Upload) where
  note_latency-Sound :
      {lost : List Text} (latency : ℕ) (u : Uploader)
      → Sound upload_concurrency negotiation_id uploads 1 lost u
      → Sound upload_concurrency negotiation_id uploads 1 lost
          (note_latency upload_concurrency latency u)
  unfolding note_latency
  note_latency-Sound {lost} latency u s =
      let retimed : (limit successes : ℕ)
          → 1 ≤ limit
          → limit ≤ upload_concurrency
          → Sound upload_concurrency negotiation_id uploads 1 lost
              (record u { active_limit = limit; consecutive_successes = successes }) =
        λ limit successes positive limited. record {
          counted = s.counted;
          positive = positive;
          limited = limited;
          kept = s.kept;
          driven = s.driven;
        } in
      elim (Bool-cases (ltb latency 400)) [
        | inr late ↦ rw late (retimed u.active_limit 0 s.positive s.limited)
        | inl early ↦ elim (Bool-cases (leb 5 (u.consecutive_successes + 1))) [
          | inr few ↦
              rw (early, few)
                (retimed u.active_limit (u.consecutive_successes + 1) s.positive s.limited)
          | inl many ↦
              rw (early, many)
                (retimed (min upload_concurrency (u.active_limit + 1)) 0
                  (omega (arith, s.positive, s.limited)) (omega arith))
        ]
      ]

  -- The worker's chunk is completed in the journal.
  journaled-Sound :
      {lost : List Text} (w : UploadWorker) (u : Uploader)
      → Sound upload_concurrency negotiation_id uploads 1 (w.chunk.strong_hash ∷ lost) u
      → Sound upload_concurrency negotiation_id uploads 1 lost (record u {
        journal = record_chunk_status negotiation_id w.chunk.strong_hash completed u.journal;
      })
  unfolding text_mem
  journaled-Sound w u s = record {
    counted = s.counted;
    positive = s.positive;
    limited = s.limited;
    kept = λ fine t m. ground (
      arith,
      s.kept fine t m,
      record_chunk_status-completed negotiation_id w.chunk.strong_hash t u.journal,
    );
    driven = s.driven;
  }

  slow-Sound :
      {lost : List Text} (u : Uploader)
      → Sound upload_concurrency negotiation_id uploads 1 lost u
      → Sound upload_concurrency negotiation_id uploads 1 lost (slow upload_concurrency u)
  unfolding slow
  slow-Sound u s = record {
    counted = s.counted;
    positive = omega arith;
    limited = omega (arith, s.positive, s.limited);
    kept = s.kept;
    driven = s.driven;
  }

  on_answer-Sound :
      {lost : List Text} (w : UploadWorker) (answer : PutAnswer) (u : Uploader)
      → Sound upload_concurrency negotiation_id uploads 1 (w.chunk.strong_hash ∷ lost) u
      → Sound upload_concurrency negotiation_id uploads 0 lost
          (on_answer upload_concurrency negotiation_id w answer u)
  unfolding on_answer
  on_answer-Sound w (stored latency) u s =
      let u' = note_latency upload_concurrency latency u in
      finish_chunk-Sound upload_concurrency negotiation_id uploads w _
        (journaled-Sound w u' (note_latency-Sound latency u s))
  on_answer-Sound w slow_down u s = elim (Bool-cases (ltb 0 (w.attempts - 1))) [
    | inl more ↦ rw more (
        delay-Sound upload_concurrency negotiation_id uploads w (w.attempts - 1)
          (slow upload_concurrency u) (slow-Sound u s))
    | inr last ↦ rw last (
        caught-Sound upload_concurrency negotiation_id uploads w (w.attempts - 1)
          (slow upload_concurrency u) (slow-Sound u s))
  ]
  on_answer-Sound w failed u s =
      caught-Sound upload_concurrency negotiation_id uploads w w.attempts u s

  on_delay-Sound :
      {lost : List Text} (w : UploadWorker) (u : Uploader)
      → Sound upload_concurrency negotiation_id uploads 1 (w.chunk.strong_hash ∷ lost) u
      → Sound upload_concurrency negotiation_id uploads 0
          (given_up w ++ lost)
          (on_delay upload_concurrency w u)
  unfolding on_delay text_mem
  on_delay-Sound w u s = elim (Bool-cases (ltb 0 w.attempts && not u.upload_error)) [
    | inl again ↦
        let left : given_up w ≡ [] = ground (arith, again) in
        rw (again, left)
          (add_worker-Sound upload_concurrency negotiation_id uploads
            (record w { phase = requesting }) u s)
    | inr over ↦ rw over (
        finish_chunk-Sound upload_concurrency negotiation_id uploads w u (record {
          counted = s.counted;
          positive = s.positive;
          limited = s.limited;
          kept = λ fine t m.
              let used : (w.attempts == 0) ≡ true = ground (arith, over, fine) in
              rw used (s.kept fine t m);
          driven = s.driven;
        }))
  ]

  -- Taking a worker out of the list of workers.
  taken-Sound :
      {lost : List Text} (before after : List UploadWorker) (w : UploadWorker) (u : Uploader)
      → u.workers ≡ before ++ w ∷ after
      → Sound upload_concurrency negotiation_id uploads 0 lost u
      → Sound upload_concurrency negotiation_id uploads 1
          (w.chunk.strong_hash ∷ lost)
          (record u { workers = before ++ after })
  unfolding text_mem
  taken-Sound before after w u e s =
      let size = ap length e ∙ length-append before (w ∷ after) in
      let size' = length-append before after in
      record {
        counted = omega (arith, s.counted, size, size');
        positive = s.positive;
        limited = s.limited;
        kept = λ fine t m.
            let where_it_was =
              ap (λ l. text_mem t (held l)) e
              ∙ ap (text_mem t) (held-append before (w ∷ after))
              ∙ text_mem-append t (held before) (held (w ∷ after)) in
            let where_it_is =
              ap (text_mem t) (held-append before after)
              ∙ text_mem-append t (held before) (held after) in
            ground (arith, s.kept fine t m, where_it_was, where_it_is);
        driven = λ fine more. omega arith;
      }

  -- The states of the uploads, with the chunks of the answers that refused an upload and the chunks that were given up
  -- on the way.
  pub data Reach (journal : List ChunkTransfer) : List Text → List Text → Uploader → Type 0 where
    starts : Reach journal [] [] (start_uploads upload_concurrency uploads journal)
    answered :
        {refused lost : List Text} {u : Uploader} (before after : List UploadWorker)
        (w : UploadWorker) (answer : PutAnswer)
        → Reach journal refused lost u
        → u.workers ≡ before ++ w ∷ after
        → w.phase ≡ requesting
        → Reach journal (refused_by answer w ++ refused) lost (
            on_answer upload_concurrency negotiation_id w answer
              (record u { workers = before ++ after }))
    woken :
        {refused lost : List Text} {u : Uploader} (before after : List UploadWorker)
        (w : UploadWorker)
        → Reach journal refused lost u
        → u.workers ≡ before ++ w ∷ after
        → w.phase ≡ delayed
        → Reach journal refused
            (given_up w ++ lost)
            (on_delay upload_concurrency w (record u { workers = before ++ after }))

  first_workers_lem :
      (n : ℕ) (journal : List ChunkTransfer)
      → 0 < n
      → 0 < upload_concurrency
      → Sound upload_concurrency negotiation_id uploads 0 []
          (first_workers upload_concurrency n (no_uploads_yet upload_concurrency uploads journal))
  unfolding first_workers run_worker no_uploads_yet
  first_workers_lem zero journal some_workers some_concurrency = elim some_workers [ ]
  first_workers_lem (suc n) journal some_workers some_concurrency =
      first_workers-Sound upload_concurrency negotiation_id uploads n _ (
        take_next-Sound upload_concurrency negotiation_id uploads true
          (record (no_uploads_yet upload_concurrency uploads journal) { active_count = 0 + 1 })
          (record {
            counted = refl;
            positive = omega arith;
            limited = omega arith;
            kept = λ fine t m. ground (arith, m);
            driven = λ fine more. omega arith;
          }))

  -- In every state of the uploads that any order of answers and delays leads to: the active count is
  -- the number of workers, the limit is between 1 and the configured concurrency, and while no error is
  -- recorded, every chunk is queued, with a worker, completed in the journal or given up, and some
  -- worker runs while a chunk is queued.
  pub Reach-Sound :
      {journal : List ChunkTransfer} {refused lost : List Text} {u : Uploader}
      → 0 < upload_concurrency
      → 0 < length uploads
      → Reach journal refused lost u
      → Sound upload_concurrency negotiation_id uploads 0 lost u
  unfolding start_uploads
  Reach-Sound some_concurrency some_uploads starts =
      first_workers_lem (min upload_concurrency (length uploads)) _ (omega arith) some_concurrency
  Reach-Sound some_concurrency some_uploads
        (answered {lost = l} {u = u} before after w answer r e requested) =
      on_answer-Sound w answer (record u { workers = before ++ after })
        (taken-Sound before after w u e (Reach-Sound some_concurrency some_uploads r))
  Reach-Sound some_concurrency some_uploads (woken {lost = l} {u = u} before after w r e waited) =
      on_delay-Sound w (record u { workers = before ++ after })
        (taken-Sound before after w u e (Reach-Sound some_concurrency some_uploads r))
