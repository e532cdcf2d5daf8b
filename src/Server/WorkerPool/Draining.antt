-- ===== src/Server/WorkerPool/Draining.antt =====
-- Every task that waits is started.
use delta_sync_engine.Prelude.{suc, ◌-◌, ◌<◌, ◌≡◌, List, [], ◌∷◌, arith, length}
use delta_sync_engine.Server.WorkerPool.{Lane, fast, heavy, exit}
use delta_sync_engine.Server.WorkerPool.Loops.{waiting, process_queues_lem}
use delta_sync_engine.Server.WorkerPool.Conservation.{
  History, after_exit, active_in, Reach, exits, pool-Inv,
}

-- While a task waits, a worker runs in either lane, and its exit takes one task from the queues.
exit-waiting :
    (lane : Lane) (h : History)
    → Reach h
    → 0 < waiting h.pool
    → (0 < active_in lane h.pool) × (suc (waiting (after_exit lane h).pool) ≡ waiting h.pool)
unfolding exit
exit-waiting fast h r some_wait =
    let full = (pool-Inv r).full in
    let busy = full.busy some_wait in
    let p = record h.pool { active_fast = h.pool.active_fast - 1 } in
    let (full', fast_more, heavy_more, fewer) =
      process_queues_lem p (omega arith) full.heavy_bound in
    let fb = full'.fast_bound in
    let hb = full'.heavy_bound in let busy' = full'.busy in (omega arith, ground arith)
exit-waiting heavy h r some_wait =
    let full = (pool-Inv r).full in
    let busy = full.busy some_wait in
    let p = record h.pool { active_heavy = h.pool.active_heavy - 1 } in
    let (full', fast_more, heavy_more, fewer) =
      process_queues_lem p full.fast_bound (omega arith) in
    let fb = full'.fast_bound in
    let hb = full'.heavy_bound in let busy' = full'.busy in (omega arith, ground arith)

-- Workers exit one after the other.
abbrev pub run_exits : List Lane → History → History
run_exits [] h = h
run_exits (lane ∷ lanes) h = run_exits lanes (after_exit lane h)

-- Every submitted task is started: after as many exits as tasks wait, in whichever lanes, each of which
-- is the exit of a worker that runs, no task waits any more.
pub run_exits-waiting :
    (lanes : List Lane) (h : History)
    → Reach h
    → length lanes ≡ waiting h.pool
    → Reach (run_exits lanes h) × (waiting (run_exits lanes h).pool ≡ 0)
run_exits-waiting [] h r none_left = (r, omega arith)
run_exits-waiting (lane ∷ lanes) h r enough =
    let (running, fewer) = exit-waiting lane h r (omega arith) in
    run_exits-waiting lanes (after_exit lane h) (exits lane running r) (omega arith)
