-- ===== src/Server/S3Limiter/Fairness.antt =====
-- The limiter over any sequence of calls and completions.
use delta_sync_engine.Prelude.{
  ℕ, zero, suc, ◌+◌, ◌-◌, ◌≤◌, ◌<◌, ◌≡◌, refl, sym, ap, ◌∙◌, inl, inr, List, [], ◌∷◌, ◌++◌, arith,
  ltb, Bool-cases, length, length-append,
}
use mathlib.Core.List.{append_assoc, append-nil}
use delta_sync_engine.Server.S3Limiter.{Limiter, new_limiter, pump_loop, pump, run, settle}

-- A history: what was started so far, in order, beside the limiter.
pub record History {ℓ} (Job : Type ℓ) : Type ℓ where
  pub limiter : Limiter Job
  pub submitted : List Job
  pub started : List Job
  pub settled : ℕ

module _ {ℓ} {Job : Type ℓ} (max_concurrent : ℕ) where
  abbrev pub after_run : Job → History Job → History Job
  after_run job h =
      let r = run max_concurrent job h.limiter in
      record {
        limiter = r.1;
        submitted = h.submitted ++ job ∷ [];
        started = h.started ++ r.0;
        settled = h.settled;
      }

  abbrev pub after_settle : History Job → History Job
  after_settle h =
      let r = settle max_concurrent h.limiter in
      record {
        limiter = r.1;
        submitted = h.submitted;
        started = h.started ++ r.0;
        settled = h.settled + 1;
      }

  -- Calls come at any time, and any job that runs may settle.
  pub data Reach : History Job → Type ℓ where
    fresh : Reach (record { limiter = new_limiter; submitted = []; started = []; settled = 0 })
    call : {h : History Job} → (job : Job) → Reach h → Reach (after_run job h)
    done : {h : History Job} → 0 < h.limiter.active → Reach h → Reach (after_settle h)

  pub record Inv (h : History Job) : Type ℓ where
    pub bounded : h.limiter.active ≤ max_concurrent
    pub busy : 0 < length h.limiter.queue → h.limiter.active ≡ max_concurrent
    pub in_order : h.started ++ h.limiter.queue ≡ h.submitted
    pub counted : length h.started ≡ h.settled + h.limiter.active

  no_items : (queue : List Job) → length queue ≡ 0 → queue ≡ []
  no_items [] h = refl
  no_items (job ∷ queue) h = absurd (omega arith)

  -- What the loop does.
  pump_loop_lem :
      (active : ℕ) (queue : List Job)
      → active ≤ max_concurrent
      → let r = pump_loop max_concurrent active queue in
        (r.0 ++ r.1.queue ≡ queue)
        × (r.1.active ≡ active + length r.0)
        × (r.1.active ≤ max_concurrent)
        × (0 < length r.1.queue → r.1.active ≡ max_concurrent)
  unfolding pump_loop
  pump_loop_lem active [] h = (refl, omega arith, h, λ some_left. absurd (omega arith))
  pump_loop_lem active (job ∷ queue) h = elim (Bool-cases (ltb active max_concurrent)) [
    | inl room ↦
        let (order, count, bound, busy) = pump_loop_lem (active + 1) queue (ground arith) in
        rw room (ap (λ l. job ∷ l) order, omega (arith, count), bound, busy)
    | inr full ↦ rw full (refl, omega arith, h, λ some_left. ground arith)
  ]

  after_run-Inv : (job : Job) (h : History Job) → Inv h → Inv (after_run job h)
  unfolding run pump
  after_run-Inv job h inv =
      let (order, count, bound, busy) =
        pump_loop_lem h.limiter.active (h.limiter.queue ++ job ∷ []) inv.bounded in
      let started = (pump_loop max_concurrent h.limiter.active (h.limiter.queue ++ job ∷ [])).0 in
      record {
        bounded = bound;
        busy = busy;
        in_order =
            append_assoc h.started started _
            ∙ ap (λ l. h.started ++ l) order
            ∙ sym (append_assoc h.started h.limiter.queue (job ∷ []))
            ∙ ap (λ l. l ++ job ∷ []) inv.in_order;
        counted = omega (arith, length-append h.started started, inv.counted, count);
      }

  after_settle-Inv : (h : History Job) → 0 < h.limiter.active → Inv h → Inv (after_settle h)
  unfolding settle pump
  after_settle-Inv h some_active inv =
      let (order, count, bound, busy) =
        pump_loop_lem (h.limiter.active - 1) h.limiter.queue (omega (arith, inv.bounded)) in
      let started = (pump_loop max_concurrent (h.limiter.active - 1) h.limiter.queue).0 in
      record {
        bounded = bound;
        busy = busy;
        in_order = append_assoc h.started started _ ∙ ap (λ l. h.started ++ l) order ∙ inv.in_order;
        counted = omega (arith, length-append h.started started, inv.counted, count);
      }

  Reach-Inv : {h : History Job} → Reach h → Inv h
  Reach-Inv fresh = record {
    bounded = omega arith;
    busy = λ some_left. absurd (omega arith);
    in_order = refl;
    counted = omega arith;
  }
  Reach-Inv (call {h = h} job r) = after_run-Inv job h (Reach-Inv r)
  Reach-Inv (done {h = h} some_active r) = after_settle-Inv h some_active (Reach-Inv r)

  -- At every moment of every history: at most `max_concurrent` calls run, calls are started in the
  -- order in which they came, none is lost, and a call waits only while as many run as may.
  pub limiter-Inv :
      (h : History Job)
      → Reach h
      → (h.limiter.active ≤ max_concurrent)
        × (h.started ++ h.limiter.queue ≡ h.submitted)
        × (length h.started ≡ h.settled + h.limiter.active)
        × (0 < length h.limiter.queue → h.limiter.active ≡ max_concurrent)
  limiter-Inv h r = let inv = Reach-Inv r in (inv.bounded, inv.in_order, inv.counted, inv.busy)

  -- One job after the other settles.
  abbrev pub settle_all : ℕ → History Job → History Job
  settle_all zero h = h
  settle_all (suc n) h = settle_all n (after_settle h)

  one_less :
      (h : History Job) (n : ℕ)
      → 0 < max_concurrent
      → Inv h
      → length h.limiter.queue ≡ suc n
      → (0 < h.limiter.active) × (length (after_settle h).limiter.queue ≡ n)
  unfolding settle pump
  one_less h n some_slots inv waiting =
      let full : h.limiter.active ≡ max_concurrent = inv.busy (omega arith) in
      let (order, count, bound, busy) =
        pump_loop_lem (h.limiter.active - 1) h.limiter.queue (omega (arith, inv.bounded)) in
      let r = pump_loop max_concurrent (h.limiter.active - 1) h.limiter.queue in
      (omega arith, ground (arith, ap length order, length-append r.0 r.1.queue))

  settle_all-started :
      (n : ℕ) (h : History Job)
      → 0 < max_concurrent
      → length h.limiter.queue ≡ n
      → Reach h
      → Reach (settle_all n h) × ((settle_all n h).started ≡ h.submitted)
  settle_all-started zero h some_slots empty r = (
    r,
    sym (append-nil h.started)
        ∙ ap (λ l. h.started ++ l) (sym (no_items h.limiter.queue empty))
        ∙ (Reach-Inv r).in_order,
  )
  settle_all-started (suc n) h some_slots waiting r =
      let (running, rest) = one_less h n some_slots (Reach-Inv r) waiting in
      settle_all-started n (after_settle h) some_slots rest (done running r)

  -- Every call is started: when as many jobs have settled as calls wait, each of them one that runs,
  -- then every call that was made has been started, if the limit is not 0.
  pub settle_all_lem :
      (h : History Job)
      → 0 < max_concurrent
      → Reach h
      → let h' = settle_all (length h.limiter.queue) h in Reach h' × (h'.started ≡ h.submitted)
  settle_all_lem h some_slots r = settle_all-started (length h.limiter.queue) h some_slots refl r
