-- ===== src/Worker/Slots.antt =====
-- The life of a slot as steps, of the program and of the slot's thread in any order, while the thread is neither
-- signalled nor cancelled.
use mybmm.Base.{
  ◌≡◌, refl, sym, ap, subst, ◌∙◌, Bool, true, false, List, [], ◌∷◌, ◌++◌, append-nil, append_assoc,
  arith, if◌then◌else◌, check-set, check-clear, check_state, Bool-cases, inl, inr,
}
use mybmm.Worker.{
  Job, Thread, waiting, ready, running, exited, Worker, is_busy, is_done, created, wake, call,
  finish, accept, mark_done,
}

abbrev waits : Thread → Bool → Job → List Job
waits waiting busy j = if busy then j ∷ [] else []
waits ready busy j = if busy then j ∷ [] else []
waits (running j') busy j = []
waits exited busy j = if busy then j ∷ [] else []

-- the job that waits for its call
abbrev pub pending : Worker → List Job
pending wp = waits wp.thread (is_busy wp) wp.job

-- A step, with the jobs that it gives to the slot and those that it calls.
pub data Step (wp : Worker) : Worker → List Job → List Job → Type 0 where
  exec : (j : Job) → is_busy wp ≡ false → Step wp (accept j wp) (j ∷ []) []
  wakes : wp.thread ≡ waiting → Step wp (wake wp) [] []
  calls : wp.thread ≡ ready → Step wp (call wp) [] (wp.job ∷ [])
  returns : {j : Job} → wp.thread ≡ running j → Step wp (finish wp) [] []
  marks : Step wp (mark_done wp) [] []

-- The slots that come from a new one, with all jobs that it was given and all that were called, in order.
pub data Reach : Worker → List Job → List Job → Type 0 where
  start : Reach created [] []
  next :
      {wp wp' : Worker} {js js' cs cs' : List Job}
      → Reach wp js cs
      → Step wp wp' js' cs'
      → Reach wp' (js ++ js') (cs ++ cs')

abbrev Sound : Thread → Bool → Type 0
Sound waiting busy = Unit
Sound ready busy = busy ≡ true
Sound (running j) busy = busy ≡ true
Sound exited busy = Unit

-- A thread in or before the function has a busy slot.
abbrev pub IsSound : Worker → Type 0
IsSound wp = Sound wp.thread (is_busy wp)

-- what a step keeps
abbrev Keeps : Worker → Worker → List Job → List Job → Type 0
Keeps wp wp' js cs = IsSound wp' × (pending wp ++ js ≡ cs ++ pending wp')

exec-Sound :
    (j0 : Job) (t : Thread) (b : Bool) (j : Job)
    → Sound t b
    → b ≡ false
    → Sound t true × (waits t b j0 ++ j ∷ [] ≡ waits t true j)
exec-Sound j0 t true j s e = absurd (ground arith)
exec-Sound j0 waiting false j s e = (tt, refl)
exec-Sound j0 ready false j s e = absurd (ground arith)
exec-Sound j0 (running i) false j s e = absurd (ground arith)
exec-Sound j0 exited false j s e = (tt, refl)

wake-Keeps : (wp : Worker) → wp.thread ≡ waiting → Keeps wp (wake wp) [] []
unfolding wake
wake-Keeps wp e =
    let same_job : pending wp ++ [] ≡ waits waiting (is_busy wp) wp.job =
      append-nil (pending wp) ∙ ap (λ t. waits t (is_busy wp) wp.job) e in
    elim (Bool-cases (is_done wp)) [
      | inl d ↦
          let ends : wake wp ≡ record wp { thread = exited } = ground arith in
          subst (λ w. Keeps wp w [] []) (sym ends) (tt, same_job)
      | inr d ↦ elim (Bool-cases (is_busy wp)) [
        | inl b ↦
            let goes_on : wake wp ≡ record wp { thread = ready } = ground arith in
            subst (λ w. Keeps wp w [] []) (sym goes_on) (b, same_job)
        | inr b ↦
            let stays : wake wp ≡ wp = ground arith in
            subst (λ w. Keeps wp w [] []) (sym stays)
              (subst (λ t. Sound t (is_busy wp)) (sym e) tt, append-nil (pending wp))
      ]
    ]

finish-Keeps : {j : Job} (wp : Worker) → wp.thread ≡ running j → Keeps wp (finish wp) [] []
unfolding finish
finish-Keeps wp e =
    rw (check-clear 0 0 wp.flags)
      (tt, append-nil (pending wp) ∙ ap (λ t. waits t (is_busy wp) wp.job) e)

Step-Keeps :
    {wp wp' : Worker} {js cs : List Job} → IsSound wp → Step wp wp' js cs → Keeps wp wp' js cs
unfolding accept mark_done
Step-Keeps {wp} is (exec j free) =
    rw (check-set 0 0 wp.flags) (exec-Sound wp.job wp.thread (is_busy wp) j is free)
Step-Keeps {wp} is (wakes e) = wake-Keeps wp e
Step-Keeps {wp} is (calls e) =
    let busy : is_busy wp ≡ true = subst (λ t. Sound t (is_busy wp)) e is in
    (busy, append-nil (pending wp) ∙ ap (λ t. waits t (is_busy wp) wp.job) e ∙ rw busy refl)
Step-Keeps {wp} is (returns e) = finish-Keeps wp e
Step-Keeps {wp} is marks = rw (check-set 1 0 wp.flags) (is, append-nil (pending wp))

-- As long as the slot's thread is neither signalled nor cancelled, and in whatever order the program
-- (`worker_exec`, and the marks of `worker_finish`) and the thread take their steps, the jobs that the slot was
-- given are those that were called, in the same order and each once, and then the one that waits, if
-- there is one (in vain, where `worker_finish` has ended the thread). A thread in or before the function has a busy slot.
pub Reach-pending :
    {wp : Worker} {js cs : List Job} → Reach wp js cs → IsSound wp × (js ≡ cs ++ pending wp)
Reach-pending start = unfold check_state in (tt, refl)
Reach-pending (next {wp} {wp'} {js} {js'} {cs} {cs'} r step) =
    let (is, e) = Reach-pending r in
    let (is', e') = Step-Keeps is step in
    (
      is',
      ap (λ l. l ++ js') e
          ∙ (append_assoc cs (pending wp) js'
              ∙ (ap (◌++◌ cs) e' ∙ sym (append_assoc cs cs' (pending wp')))),
    )
