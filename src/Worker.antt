-- ===== src/Worker.antt =====
-- worker.c and worker.h: a pool of threads, each with a slot for a piece of work.
--
-- Where the source changes a slot under its lock, that part is one function of the slot. `worker_killbusy`
-- reads and writes flags without the lock: what the threads of a slot do between two of its
-- accesses is an argument (`Meanwhile`). What the thread of the slot is at stands in `thread`; a thread
-- that is replaced without a join, and may not have ended, stands in `old`. The pool is not null.
pub mod Slots
pub mod Passes
use mybmm.Base.{
  ℕ, ◌+◌, ◌-◌, Bool, true, false, not, ◌&&◌, Option, none, some, ◌>>=◌, List, [], ◌∷◌, ◌==◌, ltb,
  if◌then◌else◌, map, length, replicate, bit, set_state, clear_state, check_state, ℤ, pos, negsuc,
}

-- a function, as the number of its address, and its argument
pub record Job : Type 0 where
  pub func : ℕ
  pub arg : ℕ

-- What a thread is at: waiting for its condition, behind the wait, in the function, or at its end.
pub data Thread : Type 0 where
  waiting : Thread
  ready : Thread
  running : Job → Thread
  exited : Thread

-- `struct worker_info`
pub record Worker : Type 0 where
  pub flags : ℕ
  pub job : Job
  pub thread : Thread
  pub old : List Thread

abbrev pub flag_busy : ℕ
flag_busy = bit 0

abbrev pub flag_done : ℕ
flag_done = bit 1

abbrev pub flag_kill : ℕ
flag_kill = bit 2

abbrev pub is_busy : Worker → Bool
is_busy wp = check_state wp.flags flag_busy

abbrev pub is_done : Worker → Bool
is_done wp = check_state wp.flags flag_done

abbrev pub is_killed : Worker → Bool
is_killed wp = check_state wp.flags flag_kill

-- `create_worker`
abbrev pub created : Worker
created = record { flags = 0; job = record { func = 0; arg = 0 }; thread = waiting; old = [] }

-- `worker_create_pool`; `is_made` is whether there is memory and the threads are created.
unfoldable pub worker_create_pool : Bool → ℤ → Option (List Worker)
worker_create_pool is_made (negsuc n) = none
worker_create_pool is_made (pos n) =
    if n == 0 then none else if is_made then some (replicate n created) else none

-- `worker`: behind the wait for its condition
unfoldable pub wake : Worker → Worker
wake wp =
    if not (is_busy wp) && not (is_done wp)
    then wp
    else if is_done wp
    then record wp { thread = exited }
    else record wp { thread = ready }

-- `wp->func(wp->arg)`
abbrev pub call : Worker → Worker
call wp = record wp { thread = running wp.job }

-- behind the return of the function
unfoldable pub finish : Worker → Worker
finish wp = record wp { flags = clear_state wp.flags flag_busy; thread = waiting }

-- the slot with the work, in `worker_exec`
unfoldable pub accept : Job → Worker → Worker
accept job wp = record wp { job = job; flags = set_state wp.flags flag_busy }

-- One pass of `worker_exec` over the slots: none where every slot is busy.
unfoldable pub exec_pass : Job → List Worker → Option (List Worker)
unfolding accept
exec_pass job [] = none
exec_pass job (wp ∷ wps) =
    let rest = exec_pass job wps in
    if is_busy wp then (do wps' ← rest; some (wp ∷ wps')) else some (accept job wp ∷ wps)

-- `worker_exec`, with the pool as each pass finds it: what it returns and the pool, or none while it goes on.
unfoldable pub worker_exec : List (List Worker) → Job → Option (ℤ × List Worker)
unfolding exec_pass
worker_exec [] job = none
worker_exec (pool ∷ pools) job =
    let rest = worker_exec pools job in
    if job.func == 0
    then some (pos 1, pool)
    else elim (exec_pass job pool) [ none ↦ rest | some pool' ↦ some (pos 0, pool') ]

unfoldable pub busy_count : List Worker → ℕ
busy_count [] = 0
busy_count (wp ∷ wps) = let rest = busy_count wps in if is_busy wp then rest + 1 else rest

-- `worker_wait`, with the pool and the time as each pass finds them: whether it has ended.
unfoldable pub worker_wait : ℕ → ℕ → List (List Worker × ℕ) → Bool
unfolding busy_count
worker_wait timeout start [] = false
worker_wait timeout start ((pool, t) ∷ passes) =
    let rest = worker_wait timeout start passes in
    if busy_count pool == 0
    then true
    else if ltb 0 timeout && ltb timeout (t - start)
    then true
    else rest

-- What the threads of a slot do between the accesses of `worker_killbusy`: from the test of FLAG_BUSY to the read of
-- the flags, which is when the signal is sent; to the write of the flags; to the test of FLAG_KILL in the second
-- pass; and to the lock behind it. The thread ends where the signal reaches it, in any of these times or later.
pub record Meanwhile : Type 0 where
  pub to_read : Worker → Worker
  pub to_write : Worker → Worker
  pub to_test : Worker → Worker
  pub to_lock : Worker → Worker

-- The first pass of `worker_killbusy` at a slot. The write puts back what was read of the other flags.
unfoldable pub kill_busy : Meanwhile → Worker → Worker
kill_busy m wp =
    if is_busy wp
    then (let read = m.to_read wp in
        record (m.to_write read) { flags = set_state read.flags flag_kill })
    else wp

-- The second pass: the test is outside of the lock.
unfoldable pub recreate : Meanwhile → Worker → Worker
recreate m wp =
    let seen = m.to_test wp in
    let locked = m.to_lock seen in
    if is_killed seen
    then record locked { flags = 0; thread = waiting; old = locked.thread ∷ locked.old }
    else seen

-- Each slot with what its threads do in the meantime.
unfoldable pub worker_killbusy : List (Meanwhile × Worker) → List Worker
unfolding kill_busy recreate
worker_killbusy pool = map (λ (m, wp). recreate m (kill_busy m wp)) pool

-- the mark that `worker_finish` sets
unfoldable pub mark_done : Worker → Worker
mark_done wp = record wp { flags = set_state wp.flags flag_done }

-- `worker_cancel` ends a thread at its next cancellation point; here it has come to it.
abbrev pub cancel : Worker → Worker
cancel wp = record wp { thread = exited }

-- `worker_finish`: `waited` is what has become of the marked pool when the wait ends.
unfoldable pub worker_finish : (List Worker → List Worker) → List Worker → List Worker
unfolding mark_done
worker_finish waited pool = map cancel (waited (map mark_done pool))
