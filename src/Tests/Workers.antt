-- ===== src/Tests/Workers.antt =====
-- A pool of two slots, and the life of one.
use mybmm.Base.{
  ℕ, ◌≡◌, refl, true, none, some, List, [], ◌∷◌, ◌++◌, pos, ◌⊎◌, All, set_state, clear_state,
  check_state,
}
use mybmm.Worker.{
  Job, waiting, running, exited, Worker, created, wake, call, finish, accept, mark_done, Meanwhile,
  worker_exec, worker_wait, worker_killbusy,
}
use mybmm.Worker.Slots.{
  Reach, start, next, exec, wakes, calls, returns, IsSound, pending, Reach-pending,
}
use mybmm.Worker.Passes.{IsBusy, IsPut, worker_exec-IsPut}

abbrev work : ℕ → Job
work n = record { func = 9; arg = n }

abbrev two : List Worker
two = created ∷ (record created { flags = 1; job = work 5; thread = running (work 5) }) ∷ []

second_given :
    worker_exec (((record created { flags = 1 }) ∷ created ∷ []) ∷ []) (work 3)
    ≡ some
        (pos 0, (record created { flags = 1 }) ∷ (record created { flags = 1; job = work 3 }) ∷ [])
unfolding worker_exec set_state check_state
second_given = refl

no_function : worker_exec (two ∷ []) (record { func = 0; arg = 1 }) ≡ some (pos 1, two)
unfolding worker_exec
no_function = refl

waited : worker_wait 5 10 ((two, 11) ∷ (two, 15) ∷ (two, 16) ∷ []) ≡ true
unfolding worker_wait check_state
waited = refl

-- A job given before `worker_finish` whose thread wakes after it: the thread ends, the slot stays busy.
lost_job :
    wake (mark_done (record created { flags = 1; job = work 3 }))
    ≡ record created { flags = 3; job = work 3; thread = exited }
unfolding wake mark_done set_state check_state
lost_job = refl

-- The signal ends the thread before the flags are read: the slot has a new thread and is free.
abbrev ended : Meanwhile
ended = record {
  to_read = λ wp. record wp { thread = exited };
  to_write = λ wp. wp;
  to_test = λ wp. wp;
  to_lock = λ wp. wp;
}

killed :
    worker_killbusy ((ended, record created { flags = 1; thread = running (work 5) }) ∷ [])
    ≡ record created { thread = waiting; old = exited ∷ [] } ∷ []
unfolding worker_killbusy set_state check_state
killed = refl

-- The thread returns from the function and clears its flag between the read and the write of the flags: both are set,
-- and the slot is given a second thread although the first one has not ended.
abbrev returned : Meanwhile
returned = record ended {
  to_read = λ wp. wp;
  to_write = λ wp. record wp { flags = 0; thread = waiting };
}

second_thread :
    worker_killbusy ((returned, record created { flags = 1; thread = running (work 5) }) ∷ [])
    ≡ record created { thread = waiting; old = waiting ∷ [] } ∷ []
unfolding worker_killbusy set_state check_state
second_thread = refl

abbrev served : Reach (finish (call (wake (accept (work 3) created)))) (work 3 ∷ []) (work 3 ∷ [])
served =
    unfold accept wake finish set_state clear_state check_state in
    next (next (next (next start (exec (work 3) refl)) (wakes refl)) (calls refl)) (returns refl)

Reach-pending_example :
    IsSound (finish (call (wake (accept (work 3) created))))
    × (work 3 ∷ [] ≡ (work 3 ∷ []) ++ pending (finish (call (wake (accept (work 3) created)))))
Reach-pending_example = Reach-pending served

-- A pass that finds every slot busy, and one that finds the first one free.
abbrev passes : List (List Worker)
passes = (record created { flags = 1 } ∷ []) ∷ (created ∷ []) ∷ []

worker_exec-IsPut_example :
    (All (All IsBusy) passes × (worker_exec passes (work 3) ≡ none))
    ⊎ ((before : List (List Worker)) × (pool : List Worker) × (later : List (List Worker))
        × (pool' : List Worker) × (passes ≡ before ++ pool ∷ later)
        × All (All IsBusy) before
        × IsPut (work 3) pool pool'
        × (worker_exec passes (work 3) ≡ some (pos 0, pool')))
worker_exec-IsPut_example = worker_exec-IsPut (work 3) passes refl
