-- ===== src/Cli/Uploads/Attempts.antt =====
-- The attempts of the uploads' workers: a worker has as many left as it began with, less the answers that refused its chunk.
use delta_sync_engine.Prelude.{
  ℕ, zero, suc, ◌+◌, ◌-◌, ◌≤◌, ◌≡◌, refl, inl, inr, List, [], ◌∷◌, ◌++◌, Bool, true, false, ◌||◌,
  ◌&&◌, not, ◌==◌, leb, ltb, if◌then◌else◌, length, min, All, All-append, All-weaken, arith,
  Bool-cases,
}
use delta_sync_engine.Prelude.Texts.{Text, text_eq, text_eq_refl}
use delta_sync_engine.Cli.Journal.{ChunkTransfer, record_chunk_status, completed}
use delta_sync_engine.Cli.Uploads.{
  Upload, UploadWorker, PutAnswer, stored, slow_down, failed, requesting, delayed, Uploader,
  end_worker, add_worker, send, take_from, take_next, run_worker, wants_worker, spawn_loop,
  finish_chunk, delay, caught, note_latency, slow, on_answer, on_delay, first_workers,
  no_uploads_yet, start_uploads,
}

-- How often the text is in the list.
abbrev pub times : Text → List Text → ℕ
times t [] = 0
times t (s ∷ ss) = (if text_eq t s then 1 else 0) + times t ss

-- The chunk whose upload an answer refuses.
abbrev pub refused_by : PutAnswer → UploadWorker → List Text
refused_by (stored latency) w = []
refused_by slow_down w = w.chunk.strong_hash ∷ []
refused_by failed w = w.chunk.strong_hash ∷ []

-- The worker's chunk was refused for each of the three attempts that it has no more.
abbrev pub IsTried : List Text → UploadWorker → Type 0
IsTried refused w = 3 ≤ w.attempts + times w.chunk.strong_hash refused

pub All-taken :
    (P : UploadWorker → Type 0) (before after : List UploadWorker) (w : UploadWorker)
    → All P (before ++ w ∷ after)
    → P w × All P (before ++ after)
All-taken P [] after w (p, h) = (p, h)
All-taken P (v ∷ before) after w (q, h) =
    let (p, rest) = All-taken P before after w h in (p, (q, rest))

module _ (refused : List Text) where
  abbrev pub Tried : Uploader → Type 0
  Tried u = All (IsTried refused) u.workers

  add_worker-Tried :
      (w : UploadWorker) (u : Uploader) → IsTried refused w → Tried u → Tried (add_worker w u)
  unfolding add_worker
  add_worker-Tried w u p h = All-append (IsTried refused) u.workers (w ∷ []) h (p, tt)

  take_from-Tried :
      (awaited : Bool) (queue : List Upload) (u : Uploader)
      → Tried u
      → Tried (take_from awaited queue u)
  unfolding take_from send end_worker
  take_from-Tried awaited [] u h = h
  take_from-Tried awaited (chunk ∷ rest) u h =
      elim (Bool-cases (u.upload_error || ltb u.active_limit u.active_count)) [
        | inl stops ↦ rw stops h
        | inr goes ↦ rw goes (add_worker-Tried _ (record u { queue = rest }) (omega arith) h)
      ]

  run_worker-Tried : (awaited : Bool) (u : Uploader) → Tried u → Tried (run_worker awaited u)
  unfolding run_worker take_next
  run_worker-Tried awaited u h =
      take_from-Tried awaited u.queue (record u { active_count = u.active_count + 1 }) h

  spawn_loop-Tried : (rounds : ℕ) (u : Uploader) → Tried u → Tried (spawn_loop rounds u)
  unfolding spawn_loop
  spawn_loop-Tried zero u h = h
  spawn_loop-Tried (suc rounds) u h = elim (Bool-cases (wants_worker u)) [
    | inl wanted ↦
        rw wanted (spawn_loop-Tried rounds (run_worker false u) (run_worker-Tried false u h))
    | inr enough ↦ rw enough h
  ]

  finish_chunk-Tried : (w : UploadWorker) (u : Uploader) → Tried u → Tried (finish_chunk w u)
  unfolding finish_chunk take_next
  finish_chunk-Tried w u h =
      take_from-Tried w.awaited _ (spawn_loop (length u.queue) u)
        (spawn_loop-Tried (length u.queue) u h)

  delay-Tried :
      (w : UploadWorker) (attempts : ℕ) (u : Uploader)
      → 3 ≤ attempts + times w.chunk.strong_hash refused
      → Tried u
      → Tried (delay w attempts u)
  unfolding delay
  delay-Tried w attempts u p h =
      add_worker-Tried (record w { attempts = attempts; phase = delayed }) u p h

  caught-Tried :
      (w : UploadWorker) (attempts : ℕ) (u : Uploader)
      → 3 ≤ attempts - 1 + times w.chunk.strong_hash refused
      → Tried u
      → Tried (caught w attempts u)
  unfolding caught
  caught-Tried w attempts u p h = elim (Bool-cases (attempts == 1)) [
    | inl last ↦ rw last (finish_chunk-Tried w (record u { upload_error = true }) h)
    | inr more ↦ rw more (delay-Tried w (attempts - 1) u p h)
  ]

  note_latency-Tried : (c latency : ℕ) (u : Uploader) → Tried u → Tried (note_latency c latency u)
  unfolding note_latency
  note_latency-Tried c latency u h = elim (Bool-cases (ltb latency 400)) [
    | inr late ↦ rw late h
    | inl early ↦ elim (Bool-cases (leb 5 (u.consecutive_successes + 1))) [
      | inl many ↦ rw (early, many) h
      | inr few ↦ rw (early, few) h
    ]
  ]

  first_workers-Tried : (c n : ℕ) (u : Uploader) → Tried u → Tried (first_workers c n u)
  unfolding first_workers
  first_workers-Tried c zero u h = h
  first_workers-Tried c (suc n) u h =
      first_workers-Tried c n (run_worker true u) (run_worker-Tried true u h)

  pub on_delay-Tried :
      (c : ℕ) (w : UploadWorker) (u : Uploader)
      → IsTried refused w
      → Tried u
      → Tried (on_delay c w u)
  unfolding on_delay
  on_delay-Tried c w u p h = elim (Bool-cases (ltb 0 w.attempts && not u.upload_error)) [
    | inl again ↦ rw again (add_worker-Tried (record w { phase = requesting }) u p h)
    | inr over ↦ rw over (finish_chunk-Tried w u h)
  ]

pub start_uploads-Tried :
    (c : ℕ) (uploads : List Upload) (journal : List ChunkTransfer)
    → Tried [] (start_uploads c uploads journal)
unfolding start_uploads no_uploads_yet
start_uploads-Tried c uploads journal =
    first_workers-Tried [] c (min c (length uploads)) (no_uploads_yet c uploads journal) tt

times_more : (t s : Text) (refused : List Text) → times s refused ≤ times s (t ∷ refused)
times_more t s refused = elim (Bool-cases (text_eq s t)) [
  | inl same ↦ rw same (omega arith)
  | inr other ↦ rw other (omega arith)
]

pub times_monotone :
    (t : Text) (more refused : List Text) → times t refused ≤ times t (more ++ refused)
times_monotone t [] refused = omega arith
times_monotone t (s ∷ more) refused =
    omega (arith, times_monotone t more refused, times_more s t (more ++ refused))

times_self : (t : Text) (refused : List Text) → times t (t ∷ refused) ≡ 1 + times t refused
times_self t refused = rw (text_eq_refl t) refl

Tried-more :
    (t : Text) (refused : List Text) (u : Uploader) → Tried refused u → Tried (t ∷ refused) u
Tried-more t refused u h =
    All-weaken
      (λ (w : UploadWorker) (p : IsTried refused w).
        omega (arith, p, times_more t w.chunk.strong_hash refused))
      u.workers h

pub on_answer-Tried :
    (c : ℕ) (id : Text) (refused : List Text) (w : UploadWorker) (answer : PutAnswer) (u : Uploader)
    → IsTried refused w
    → Tried refused u
    → Tried (refused_by answer w ++ refused) (on_answer c id w answer u)
unfolding on_answer slow
on_answer-Tried c id refused w (stored latency) u p h =
    let u' = note_latency c latency u in
    finish_chunk-Tried refused w
      (record u' { journal = record_chunk_status id w.chunk.strong_hash completed u'.journal })
      (note_latency-Tried refused c latency u h)
on_answer-Tried c id refused w slow_down u p h =
    let hash = w.chunk.strong_hash in
    let again = times_self hash refused in
    let slowed = Tried-more hash refused u h in
    elim (Bool-cases (ltb 0 (w.attempts - 1))) [
      | inl more ↦ rw more (
          delay-Tried (hash ∷ refused) w (w.attempts - 1) (slow c u) (omega (arith, p, again))
            slowed)
      | inr last ↦
          let used : w.attempts - 1 ≡ 0 = ground (arith, last) in
          rw last (
            caught-Tried (hash ∷ refused) w (w.attempts - 1) (slow c u)
              (omega (arith, p, again, used)) slowed)
    ]
on_answer-Tried c id refused w failed u p h =
    let hash = w.chunk.strong_hash in
    caught-Tried (hash ∷ refused) w w.attempts u (omega (arith, p, times_self hash refused))
      (Tried-more hash refused u h)
