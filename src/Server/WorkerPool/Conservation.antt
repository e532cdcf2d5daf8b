-- ===== src/Server/WorkerPool/Conservation.antt =====
-- The pool over any sequence of submissions and exits.
use delta_sync_engine.Prelude.{
  ℕ, ◌+◌, ◌-◌, ◌<◌, ◌≡◌, inl, inr, List, [], ◌∷◌, ◌++◌, arith, ltb, Bool, Bool-cases, if◌then◌else◌,
  length, length-append,
}
use delta_sync_engine.Server.WorkerPool.{
  Task, Lane, fast, heavy, Pool, new_pool, process_queues, submit, exit,
}
use delta_sync_engine.Server.WorkerPool.Loops.{
  count, count-append, queued, IsFull, process_queues_lem, process_queues-count,
}

-- A history: the pool, what was submitted, what each lane started, and how many of its workers exited.
pub record History : Type 0 where
  pub pool : Pool
  pub submitted : List Task
  pub started_fast : List Task
  pub started_heavy : List Task
  pub exited_fast : ℕ
  pub exited_heavy : ℕ

abbrev pub new_history : History
new_history = record {
  pool = new_pool;
  submitted = [];
  started_fast = [];
  started_heavy = [];
  exited_fast = 0;
  exited_heavy = 0;
}

abbrev pub after_submit : Task → History → History
after_submit task h =
    let r = submit task h.pool in
    record h {
      pool = r.1;
      submitted = task ∷ h.submitted;
      started_fast = h.started_fast ++ r.0.0;
      started_heavy = h.started_heavy ++ r.0.1;
    }

abbrev pub after_exit : Lane → History → History
after_exit fast h =
    let r = exit fast h.pool in
    record h {
      pool = r.1;
      started_fast = h.started_fast ++ r.0.0;
      started_heavy = h.started_heavy ++ r.0.1;
      exited_fast = h.exited_fast + 1;
    }
after_exit heavy h =
    let r = exit heavy h.pool in
    record h {
      pool = r.1;
      started_fast = h.started_fast ++ r.0.0;
      started_heavy = h.started_heavy ++ r.0.1;
      exited_heavy = h.exited_heavy + 1;
    }

abbrev pub active_in : Lane → Pool → ℕ
active_in fast p = p.active_fast
active_in heavy p = p.active_heavy

-- Tasks are submitted at any time, and any worker that runs may exit.
pub data Reach : History → Type 0 where
  fresh : Reach new_history
  submits : {h : History} → (task : Task) → Reach h → Reach (after_submit task h)
  exits :
      {h : History}
      → (lane : Lane) → 0 < active_in lane h.pool
      → Reach h
      → Reach (after_exit lane h)

-- Of every kind of task, as many are queued or were started as were submitted; the lanes' counts are
-- those of the workers that have not exited.
pub record Inv (h : History) : Type 0 where
  pub full : IsFull h.pool
  pub conserved :
      (test : Task → Bool)
      → count test h.submitted
        ≡ queued test h.pool + (count test h.started_fast + count test h.started_heavy)
  pub fast_counted : length h.started_fast ≡ h.exited_fast + h.pool.active_fast
  pub heavy_counted : length h.started_heavy ≡ h.exited_heavy + h.pool.active_heavy

-- The pool with a task more, before its queues are processed.
queued-submit :
    (test : Task → Bool) (task : Task) (p : Pool)
    → let r = submit task p in
      queued test p + (if test task then 1 else 0)
      ≡ queued test r.1 + (count test r.0.0 + count test r.0.1)
unfolding submit
queued-submit test task p = elim (Bool-cases (ltb 2000 task.total_blocks)) [
  | inl big ↦ rw big (
      omega (
        arith,
        process_queues-count test (record p { heavy_queue = p.heavy_queue ++ task ∷ [] }),
        count-append test p.heavy_queue (task ∷ []),
      ))
  | inr small ↦ rw small (
      omega (
        arith,
        process_queues-count test (record p { fast_queue = p.fast_queue ++ task ∷ [] }),
        count-append test p.fast_queue (task ∷ []),
      ))
]

submit_lem :
    (task : Task) (p : Pool)
    → IsFull p
    → let r = submit task p in
      IsFull r.1
      × (r.1.active_fast ≡ p.active_fast + length r.0.0)
      × (r.1.active_heavy ≡ p.active_heavy + length r.0.1)
unfolding submit
submit_lem task p full = elim (Bool-cases (ltb 2000 task.total_blocks)) [
  | inl big ↦
      let all =
        process_queues_lem (record p { heavy_queue = p.heavy_queue ++ task ∷ [] }) full.fast_bound
          full.heavy_bound in
      rw big (all.0, all.1, all.2)
  | inr small ↦
      let all =
        process_queues_lem (record p { fast_queue = p.fast_queue ++ task ∷ [] }) full.fast_bound
          full.heavy_bound in
      rw small (all.0, all.1, all.2)
]

after_submit-Inv : (task : Task) (h : History) → Inv h → Inv (after_submit task h)
after_submit-Inv task h inv =
    let (full, fast_more, heavy_more) = submit_lem task h.pool inv.full in
    let r = submit task h.pool in
    record {
      full = full;
      conserved = λ test. omega (
        arith,
        inv.conserved test,
        queued-submit test task h.pool,
        count-append test h.started_fast r.0.0,
        count-append test h.started_heavy r.0.1,
      );
      fast_counted = omega (arith, inv.fast_counted, fast_more, length-append h.started_fast r.0.0);
      heavy_counted =
          omega (arith, inv.heavy_counted, heavy_more, length-append h.started_heavy r.0.1);
    }

after_exit-Inv :
    (lane : Lane) (h : History) → 0 < active_in lane h.pool → Inv h → Inv (after_exit lane h)
unfolding exit
after_exit-Inv fast h running inv =
    let p = record h.pool { active_fast = h.pool.active_fast - 1 } in
    let bound = inv.full.fast_bound in
    let (full, fast_more, heavy_more, fewer) =
      process_queues_lem p (omega arith) inv.full.heavy_bound in
    let r = process_queues p in
    record {
      full = full;
      conserved = λ test. omega (
        arith,
        inv.conserved test,
        process_queues-count test p,
        count-append test h.started_fast r.0.0,
        count-append test h.started_heavy r.0.1,
      );
      fast_counted = omega (arith, inv.fast_counted, fast_more, length-append h.started_fast r.0.0);
      heavy_counted =
          omega (arith, inv.heavy_counted, heavy_more, length-append h.started_heavy r.0.1);
    }
after_exit-Inv heavy h running inv =
    let p = record h.pool { active_heavy = h.pool.active_heavy - 1 } in
    let bound = inv.full.heavy_bound in
    let (full, fast_more, heavy_more, fewer) =
      process_queues_lem p inv.full.fast_bound (omega arith) in
    let r = process_queues p in
    record {
      full = full;
      conserved = λ test. omega (
        arith,
        inv.conserved test,
        process_queues-count test p,
        count-append test h.started_fast r.0.0,
        count-append test h.started_heavy r.0.1,
      );
      fast_counted = omega (arith, inv.fast_counted, fast_more, length-append h.started_fast r.0.0);
      heavy_counted =
          omega (arith, inv.heavy_counted, heavy_more, length-append h.started_heavy r.0.1);
    }

-- At every moment of every history: at most 4 workers run in the fast lane and 2 in the heavy lane,
-- and a task waits, in either queue, only while all 6 run; every submitted task is queued or was
-- started, as often as it was submitted; a lane's count is the number of its workers that run.
pub pool-Inv : {h : History} → Reach h → Inv h
pool-Inv fresh = record {
  full = record {
    fast_bound = omega arith;
    heavy_bound = omega arith;
    busy = λ some_left. absurd (omega arith);
  };
  conserved = λ test. omega arith;
  fast_counted = omega arith;
  heavy_counted = omega arith;
}
pool-Inv (submits {h = h} task r) = after_submit-Inv task h (pool-Inv r)
pool-Inv (exits {h = h} lane running r) = after_exit-Inv lane h running (pool-Inv r)
