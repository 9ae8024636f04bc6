-- ===== src/Worker/Passes.antt =====
-- The passes of `worker_exec` over the slots: which slot a job gets.
use mybmm.Base.{
  ◌≡◌, refl, ap, true, false, none, some, List, [], ◌∷◌, ◌++◌, ◌==◌, All, check-set, Bool-cases,
  ◌⊎◌, inl, inr, pos,
}
use mybmm.Worker.{Job, Worker, is_busy, accept, exec_pass, worker_exec}

abbrev pub IsBusy : Worker → Type 0
IsBusy wp = is_busy wp ≡ true

abbrev pub IsFree : Worker → Type 0
IsFree wp = is_busy wp ≡ false

-- The job is put into the first free slot: it is there, and the slot is busy. The thread is what it was, and so are the
-- other slots.
abbrev pub IsPut : Job → List Worker → List Worker → Type 0
IsPut job pool pool' =
    (pre : List Worker) × (wp : Worker) × (wp' : Worker) × (post : List Worker) × (pool
      ≡ pre ++ wp ∷ post)
    × All IsBusy pre
    × IsFree wp
    × (pool' ≡ pre ++ wp' ∷ post)
    × (wp'.job ≡ job)
    × IsBusy wp'
    × (wp'.thread ≡ wp.thread)

exec_pass-IsPut :
    (job : Job) (pool : List Worker)
    → (All IsBusy pool × (exec_pass job pool ≡ none))
      ⊎ ((pool' : List Worker) × (exec_pass job pool ≡ some pool') × IsPut job pool pool')
unfolding exec_pass accept
exec_pass-IsPut job [] = inl (tt, refl)
exec_pass-IsPut job (wp ∷ wps) = elim (Bool-cases (is_busy wp)) [
  | inr free ↦ inr (
    accept job wp ∷ wps,
    rw free refl,
    ([], wp, accept job wp, wps, refl, tt, free, refl, refl, check-set 0 0 wp.flags, refl),
  )
  | inl busy ↦ elim (exec_pass-IsPut job wps) [
    | inl (all, e) ↦ inl ((busy, all), rw (busy, e) refl)
    | inr (pool', e, (pre, w, w', post, is, all, free, is', j, b, t)) ↦ inr (
      wp ∷ pool',
      rw (busy, e) refl,
      (wp ∷ pre, w, w', post, ap (◌∷◌ wp) is, (busy, all), free, ap (◌∷◌ wp) is', j, b, t),
    )
  ]
]

-- `worker_exec` with a function looks through the slots, in pass after pass, as long as every slot that it comes to is
-- busy. In the first pass that comes to one that is free, the job is put into the first such slot, which is busy
-- behind that, and 0 is returned; no slot that was busy is changed, and none but the one that gets the job.
pub worker_exec-IsPut :
    (job : Job) (pools : List (List Worker))
    → (job.func == 0) ≡ false
    → (All (All IsBusy) pools × (worker_exec pools job ≡ none))
      ⊎ ((before : List (List Worker)) × (pool : List Worker) × (later : List (List Worker))
          × (pool' : List Worker) × (pools ≡ before ++ pool ∷ later)
          × All (All IsBusy) before
          × IsPut job pool pool'
          × (worker_exec pools job ≡ some (pos 0, pool')))
unfolding worker_exec
worker_exec-IsPut job [] has = inl (tt, refl)
worker_exec-IsPut job (pool ∷ pools) has = elim (exec_pass-IsPut job pool) [
  | inr (pool', e, put) ↦ inr ([], pool, pools, pool', refl, tt, put, rw (has, e) refl)
  | inl (all, e) ↦ elim (worker_exec-IsPut job pools has) [
    | inl (alls, r) ↦ inl ((all, alls), rw (has, e) r)
    | inr (before, found, later, pool', is, alls, put, r) ↦
        inr (pool ∷ before, found, later, pool', ap (◌∷◌ pool) is, (all, alls), put, rw (has, e) r)
  ]
]
