-- ===== src/Server/S3Limiter.antt =====
-- server/s3-limiter.ts: a bound on the number of requests to the object store at a time.
pub mod Fairness
use delta_sync_engine.Prelude.{ℕ, ◌+◌, ◌-◌, List, [], ◌∷◌, ◌++◌, ltb, if◌then◌else◌}

-- The calls that wait, in order, and the number of calls that run. A call is known by what it
-- carries, a value of `Job`.
pub record Limiter {ℓ} (Job : Type ℓ) : Type ℓ where
  pub active : ℕ
  pub queue : List Job

module _ {ℓ} {Job : Type ℓ} where
  abbrev pub new_limiter : Limiter Job
  new_limiter = record { active = 0; queue = [] }

  -- The loop: the jobs that it starts, in order, and what it leaves.
  unfoldable pub pump_loop : ℕ → ℕ → List Job → List Job × Limiter Job
  pump_loop max_concurrent active [] = ([], record { active = active; queue = [] })
  pump_loop max_concurrent active (job ∷ queue) =
      let rest = pump_loop max_concurrent (active + 1) queue in
      if ltb active max_concurrent
      then (job ∷ rest.0, rest.1)
      else ([], record { active = active; queue = job ∷ queue })

  unfoldable pub pump : ℕ → Limiter Job → List Job × Limiter Job
  unfolding pump_loop
  pump max_concurrent s = pump_loop max_concurrent s.active s.queue

  -- `run(fn)`: the call joins the queue.
  unfoldable pub run : ℕ → Job → Limiter Job → List Job × Limiter Job
  unfolding pump
  run max_concurrent job s = pump max_concurrent (record s { queue = s.queue ++ job ∷ [] })

  -- A job has settled, well or badly: the `finally` of its promise.
  unfoldable pub settle : ℕ → Limiter Job → List Job × Limiter Job
  unfolding pump
  settle max_concurrent s = pump max_concurrent (record s { active = s.active - 1 })
