-- ===== src/Server/WorkerPool.antt =====
-- server/worker-pool.ts: two lanes of workers that steal from each other's queue.
pub mod Loops
pub mod Conservation
pub mod Draining
use delta_sync_engine.Prelude.{ℕ, ◌+◌, ◌-◌, List, [], ◌∷◌, ◌++◌, ltb, if◌then◌else◌}
use delta_sync_engine.Prelude.Texts.{Text}

pub record Task : Type 0 where
  pub id : Text
  pub version_id : Text
  pub total_blocks : ℕ

pub data Lane : Type 0 where
  fast heavy : Lane

pub record Pool : Type 0 where
  pub fast_queue : List Task
  pub heavy_queue : List Task
  pub active_fast : ℕ
  pub active_heavy : ℕ

abbrev pub max_fast : ℕ
max_fast = 4

abbrev pub max_heavy : ℕ
max_heavy = 2

abbrev pub new_pool : Pool
new_pool = record { fast_queue = []; heavy_queue = []; active_fast = 0; active_heavy = 0 }

-- One of the four loops: the tasks that it hands to a worker, the lane's count after it, and the
-- tasks that it leaves in the queue.
unfoldable pub take_tasks : ℕ → ℕ → List Task → List Task × (ℕ × List Task)
take_tasks max_active active [] = ([], (active, []))
take_tasks max_active active (task ∷ queue) =
    let rest = take_tasks max_active (active + 1) queue in
    if ltb active max_active then (task ∷ rest.0, rest.1) else ([], (active, task ∷ queue))

-- `processQueues`: the tasks that the fast and the heavy lane start, and the pool that is left.
unfoldable pub process_queues : Pool → (List Task × List Task) × Pool
unfolding take_tasks
process_queues p =
    let (own_heavy, (heavy_1, heavy_queue)) = take_tasks max_heavy p.active_heavy p.heavy_queue in
    let (own_fast, (fast_1, fast_queue)) = take_tasks max_fast p.active_fast p.fast_queue in
    let (stolen_fast, (heavy_2, fast_queue')) = take_tasks max_heavy heavy_1 fast_queue in
    let (stolen_heavy, (fast_2, heavy_queue')) = take_tasks max_fast fast_1 heavy_queue in
    (
      (own_fast ++ stolen_heavy, own_heavy ++ stolen_fast),
      record {
        fast_queue = fast_queue';
        heavy_queue = heavy_queue';
        active_fast = fast_2;
        active_heavy = heavy_2;
      },
    )

unfoldable pub submit : Task → Pool → (List Task × List Task) × Pool
unfolding process_queues
submit task p = process_queues (
    if ltb 2000 task.total_blocks
    then record p { heavy_queue = p.heavy_queue ++ task ∷ [] }
    else record p { fast_queue = p.fast_queue ++ task ∷ [] })

-- The worker of a lane exits.
unfoldable pub exit : Lane → Pool → (List Task × List Task) × Pool
unfolding process_queues
exit fast p = process_queues (record p { active_fast = p.active_fast - 1 })
exit heavy p = process_queues (record p { active_heavy = p.active_heavy - 1 })
