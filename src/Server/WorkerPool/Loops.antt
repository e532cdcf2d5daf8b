-- ===== src/Server/WorkerPool/Loops.antt =====
-- What the pool's loops make of its queues.
use delta_sync_engine.Prelude.{
  ℕ, ◌+◌, ◌≤◌, ◌<◌, ◌≡◌, refl, inl, inr, List, [], ◌∷◌, ◌++◌, arith, ltb, Bool, Bool-cases,
  if◌then◌else◌, length, length-append,
}
use delta_sync_engine.Server.WorkerPool.{
  Task, Pool, max_fast, max_heavy, take_tasks, process_queues,
}

-- How many tasks of a list a test picks.
abbrev pub count : (Task → Bool) → List Task → ℕ
count test [] = 0
count test (task ∷ tasks) = (if test task then 1 else 0) + count test tasks

pub count-append :
    (test : Task → Bool) (xs ys : List Task) → count test (xs ++ ys) ≡ count test xs + count test ys
count-append test [] ys = omega arith
count-append test (x ∷ xs) ys = omega (arith, count-append test xs ys)

abbrev pub waiting : Pool → ℕ
waiting p = length p.fast_queue + length p.heavy_queue

abbrev pub queued : (Task → Bool) → Pool → ℕ
queued test p = count test p.fast_queue + count test p.heavy_queue

pub record IsFull (p : Pool) : Type 0 where
  pub fast_bound : p.active_fast ≤ max_fast
  pub heavy_bound : p.active_heavy ≤ max_heavy
  pub busy : 0 < waiting p → (p.active_fast ≡ max_fast) × (p.active_heavy ≡ max_heavy)

take_tasks_lem :
    (max_active active : ℕ) (queue : List Task)
    → active ≤ max_active
    → let r = take_tasks max_active active queue in
      (r.1.0 ≡ active + length r.0)
      × (r.1.0 ≤ max_active)
      × (length queue ≡ length r.0 + length r.1.1)
      × (0 < length r.1.1 → r.1.0 ≡ max_active)
unfolding take_tasks
take_tasks_lem max active [] h = (omega arith, h, omega arith, λ some_left. absurd (omega arith))
take_tasks_lem max active (task ∷ queue) h = elim (Bool-cases (ltb active max)) [
  | inl room ↦
      let (number, bound, whole, busy) = take_tasks_lem max (active + 1) queue (ground arith) in
      rw room (omega (arith, number), bound, omega (arith, whole), busy)
  | inr full ↦ rw full (omega arith, h, omega arith, λ some_left. ground arith)
]

take_tasks-count :
    (test : Task → Bool) (max_active active : ℕ) (queue : List Task)
    → let r = take_tasks max_active active queue in
      count test queue ≡ count test r.0 + count test r.1.1
unfolding take_tasks
take_tasks-count test max active [] = refl
take_tasks-count test max active (task ∷ queue) = elim (Bool-cases (ltb active max)) [
  | inl room ↦ rw room (omega (arith, take_tasks-count test max (active + 1) queue))
  | inr full ↦ rw full (omega arith)
]

-- What `process_queues` makes of any pool within its bounds.
pub process_queues_lem :
    (p : Pool)
    → p.active_fast ≤ max_fast
    → p.active_heavy ≤ max_heavy
    → let r = process_queues p in
      IsFull r.1
      × (r.1.active_fast ≡ p.active_fast + length r.0.0)
      × (r.1.active_heavy ≡ p.active_heavy + length r.0.1)
      × (waiting p ≡ waiting r.1 + (length r.0.0 + length r.0.1))
unfolding process_queues
process_queues_lem p f h =
    let r1 = take_tasks max_heavy p.active_heavy p.heavy_queue in
    let r2 = take_tasks max_fast p.active_fast p.fast_queue in
    let r3 = take_tasks max_heavy r1.1.0 r2.1.1 in
    let r4 = take_tasks max_fast r2.1.0 r1.1.1 in
    let (n1, b1, w1, full1) = take_tasks_lem max_heavy p.active_heavy p.heavy_queue h in
    let (n2, b2, w2, full2) = take_tasks_lem max_fast p.active_fast p.fast_queue f in
    let (n3, b3, w3, full3) = take_tasks_lem max_heavy r1.1.0 r2.1.1 b1 in
    let (n4, b4, w4, full4) = take_tasks_lem max_fast r2.1.0 r1.1.1 b2 in
    let fast_added = length-append r2.0 r4.0 in
    let heavy_added = length-append r1.0 r3.0 in
    (
      record {
        fast_bound = b4;
        heavy_bound = b3;
        busy = λ some_left. (ground arith, ground arith);
      },
      omega arith,
      omega arith,
      omega arith,
    )

pub process_queues-count :
    (test : Task → Bool) (p : Pool)
    → let r = process_queues p in
      queued test p ≡ queued test r.1 + (count test r.0.0 + count test r.0.1)
unfolding process_queues
process_queues-count test p =
    let r1 = take_tasks max_heavy p.active_heavy p.heavy_queue in
    let r2 = take_tasks max_fast p.active_fast p.fast_queue in
    let r3 = take_tasks max_heavy r1.1.0 r2.1.1 in
    let r4 = take_tasks max_fast r2.1.0 r1.1.1 in
    omega (
      arith,
      take_tasks-count test max_heavy p.active_heavy p.heavy_queue,
      take_tasks-count test max_fast p.active_fast p.fast_queue,
      take_tasks-count test max_heavy r1.1.0 r2.1.1,
      take_tasks-count test max_fast r2.1.0 r1.1.1,
      count-append test r2.0 r4.0,
      count-append test r1.0 r3.0,
    )
