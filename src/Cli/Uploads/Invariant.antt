-- ===== src/Cli/Uploads/Invariant.antt =====
-- What every state of the uploads keeps to, and that what a worker does at the end of a chunk keeps it.
use delta_sync_engine.Prelude.{
  ℕ, zero, suc, ◌+◌, ◌-◌, ◌≤◌, ◌<◌, ◌≡◌, refl, ap, inl, inr, List, [], ◌∷◌, ◌++◌, map, Bool, true,
  false, ◌||◌, ◌==◌, ltb, if◌then◌else◌, length, arith, Bool-cases, length-append,
}
use delta_sync_engine.Prelude.Texts.{Text, text_mem, text_mem-append}
use delta_sync_engine.Cli.Journal.{get_completed_chunks}
use delta_sync_engine.Cli.Uploads.{
  Upload, UploadWorker, delayed, Uploader, end_worker, add_worker, send, take_from, take_next,
  run_worker, wants_worker, spawn_loop, finish_chunk, delay, caught, first_workers,
}

abbrev pub queued : List Upload → List Text
queued queue = map (λ (c : Upload). c.strong_hash) queue

abbrev pub held : List UploadWorker → List Text
held workers = map (λ (w : UploadWorker). w.chunk.strong_hash) workers

pub held-append : (xs ys : List UploadWorker) → held (xs ++ ys) ≡ held xs ++ held ys
held-append [] ys = refl
held-append (w ∷ xs) ys = ap (λ l. w.chunk.strong_hash ∷ l) (held-append xs ys)

-- The chunk that a delay's end gives up: its three attempts are used up, and no error is recorded.
abbrev pub given_up : UploadWorker → List Text
given_up w = if w.attempts == 0 then w.chunk.strong_hash ∷ [] else []

module _ (upload_concurrency : ℕ) (negotiation_id : Text) (uploads : List Upload) where
  -- Where a chunk is: queued, with a worker, completed in the journal, or among the lost.
  abbrev pub placed : List Text → Uploader → Text → Bool
  placed lost u t =
      text_mem t (queued u.queue)
      || text_mem t (held u.workers)
      || text_mem t (get_completed_chunks negotiation_id u.journal)
      || text_mem t lost

  -- The invariant; `extra` counts the workers that run at this moment and are not in `workers`.
  pub record Sound (extra : ℕ) (lost : List Text) (u : Uploader) : Type 0 where
    pub counted : u.active_count ≡ length u.workers + extra
    pub positive : 1 ≤ u.active_limit
    pub limited : u.active_limit ≤ upload_concurrency
    pub kept :
        u.upload_error ≡ false
        → (t : Text) → text_mem t (queued uploads) ≡ true
        → placed lost u t ≡ true
    pub driven : u.upload_error ≡ false → 0 < length u.queue → 0 < length u.workers + extra

  -- A worker that runs takes its place among the workers again.
  pub add_worker-Sound :
      {extra : ℕ} {lost : List Text} (w : UploadWorker) (u : Uploader)
      → Sound (suc extra) (w.chunk.strong_hash ∷ lost) u
      → Sound extra lost (add_worker w u)
  unfolding add_worker text_mem
  add_worker-Sound w u s =
      let grown : length (u.workers ++ w ∷ []) ≡ length u.workers + 1 = length-append u.workers _ in
      record {
        counted = omega (arith, s.counted, grown);
        positive = s.positive;
        limited = s.limited;
        kept = λ fine t m. rw (held-append u.workers (w ∷ [])) (
            ground (
              arith,
              s.kept fine t m,
              text_mem-append t (held u.workers) (w.chunk.strong_hash ∷ []),
            ));
        driven = λ fine more. omega (arith, grown);
      }

  send-Sound :
      {extra : ℕ} {lost : List Text} (awaited : Bool) (chunk : Upload) (rest : List Upload)
      (u : Uploader)
      → u.queue ≡ chunk ∷ rest
      → Sound (suc extra) lost u
      → Sound extra lost (send awaited chunk rest u)
  unfolding send text_mem
  send-Sound awaited chunk rest u e s =
      add_worker-Sound _ (record u { queue = rest })
        (record {
          counted = s.counted;
          positive = s.positive;
          limited = s.limited;
          kept = λ fine t m. ground (arith, s.kept fine t m, ap (λ q. text_mem t (queued q)) e);
          driven = λ fine more. omega arith;
        })

  end_worker-Sound :
      {extra : ℕ} {lost : List Text} (u : Uploader)
      → (u.upload_error ≡ false → 0 < length u.queue → 0 < length u.workers + extra)
      → Sound (suc extra) lost u
      → Sound extra lost (end_worker u)
  unfolding end_worker
  end_worker-Sound u others s = record {
    counted = omega (arith, s.counted);
    positive = s.positive;
    limited = s.limited;
    kept = s.kept;
    driven = others;
  }

  take_from-Sound :
      {extra : ℕ} {lost : List Text} (awaited : Bool) (queue : List Upload) (u : Uploader)
      → u.queue ≡ queue
      → Sound (suc extra) lost u
      → Sound extra lost (take_from awaited queue u)
  unfolding take_from
  take_from-Sound awaited [] u e s =
      end_worker-Sound u (λ fine more. absurd (omega (arith, more, ap length e))) s
  take_from-Sound awaited (chunk ∷ rest) u e s =
      elim (Bool-cases (u.upload_error || ltb u.active_limit u.active_count)) [
        | inl stop ↦
            rw stop (
              end_worker-Sound u (λ fine more. ground (arith, s.counted, s.positive, stop, fine)) s)
        | inr free ↦ rw free (send-Sound awaited chunk rest u e s)
      ]

  pub take_next-Sound :
      {extra : ℕ} {lost : List Text} (awaited : Bool) (u : Uploader)
      → Sound (suc extra) lost u
      → Sound extra lost (take_next awaited u)
  unfolding take_next
  take_next-Sound awaited u s = take_from-Sound awaited u.queue u refl s

  run_worker-Sound :
      {extra : ℕ} {lost : List Text} (awaited : Bool) (u : Uploader)
      → Sound extra lost u
      → Sound extra lost (run_worker awaited u)
  unfolding run_worker
  run_worker-Sound awaited u s =
      take_next-Sound awaited (record u { active_count = u.active_count + 1 })
        (record {
          counted = omega (arith, s.counted);
          positive = s.positive;
          limited = s.limited;
          kept = s.kept;
          driven = λ fine more. omega arith;
        })

  spawn_loop-Sound :
      {extra : ℕ} {lost : List Text} (rounds : ℕ) (u : Uploader)
      → Sound extra lost u
      → Sound extra lost (spawn_loop rounds u)
  unfolding spawn_loop
  spawn_loop-Sound zero u s = s
  spawn_loop-Sound (suc rounds) u s = elim (Bool-cases (wants_worker u)) [
    | inl more ↦ rw more (spawn_loop-Sound rounds (run_worker false u) (run_worker-Sound false u s))
    | inr enough ↦ rw enough s
  ]

  pub finish_chunk-Sound :
      {lost : List Text} (w : UploadWorker) (u : Uploader)
      → Sound 1 lost u
      → Sound 0 lost (finish_chunk w u)
  unfolding finish_chunk
  finish_chunk-Sound w u s =
      take_next-Sound w.awaited (spawn_loop (length u.queue) u)
        (spawn_loop-Sound (length u.queue) u s)

  pub first_workers-Sound :
      {lost : List Text} (n : ℕ) (u : Uploader)
      → Sound 0 lost u
      → Sound 0 lost (first_workers upload_concurrency n u)
  unfolding first_workers
  first_workers-Sound zero u s = s
  first_workers-Sound (suc n) u s =
      first_workers-Sound n (run_worker true u) (run_worker-Sound true u s)

  pub delay-Sound :
      {lost : List Text} (w : UploadWorker) (attempts : ℕ) (u : Uploader)
      → Sound 1 (w.chunk.strong_hash ∷ lost) u
      → Sound 0 lost (delay w attempts u)
  unfolding delay
  delay-Sound w attempts u s =
      add_worker-Sound (record w { attempts = attempts; phase = delayed }) u s

  pub caught-Sound :
      {lost : List Text} (w : UploadWorker) (attempts : ℕ) (u : Uploader)
      → Sound 1 (w.chunk.strong_hash ∷ lost) u
      → Sound 0 lost (caught w attempts u)
  unfolding caught
  caught-Sound w attempts u s = elim (Bool-cases (attempts == 1)) [
    | inl last ↦ rw last (
        finish_chunk-Sound w (record u { upload_error = true })
          (record {
            counted = s.counted;
            positive = s.positive;
            limited = s.limited;
            kept = λ fine t m. absurd (cc);
            driven = λ fine more. absurd (cc);
          }))
    | inr again ↦ rw again (delay-Sound w (attempts - 1) u s)
  ]
