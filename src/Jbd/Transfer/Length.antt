-- ===== src/Jbd/Transfer/Length.antt =====
-- The buffer that `jbd_rw` fills keeps its length.
use mybmm.Base.{
  ℕ, zero, suc, ◌≡◌, refl, subst, ◌∙◌, Option, none, some, ◌>>=◌, List, length, replicate,
  length-replicate, length-store_at, store_at, load_at, get_elem?, drop, ◌++◌, ◌==◌, Bool-cases,
  inl, inr,
}
use mybmm.Jbd.{jbd_verify, jbd_cmd}
use mybmm.Jbd.Transfer.{Transport, Outcome, jbd_rw_answer, jbd_rw_loop, jbd_rw}

-- If there is an outcome, the buffer has `n` bytes.
Sized : ℕ → {S : Type 0} → Outcome S → Type 0
Sized n none = Unit
Sized n (some (r, out, s)) = length out ≡ n

Sized-some :
    {S : Type 0} (n : ℕ) (r : Option ℕ) (out : List ℕ) (s : S)
    → length out ≡ n
    → Sized n (some (r, out, s))
unfolding Sized
Sized-some n r out s h = h

Sized-bind :
    {A S : Type 0} (n : ℕ) (m : Option A) (f : A → Outcome S)
    → ((a : A) → m ≡ some a → Sized n (f a))
    → Sized n (m >>= f)
unfolding Sized
Sized-bind n none f h = tt
Sized-bind n (some a) f h = h a refl

module _ (t : Transport) (datasz : ℕ) (cmd : List ℕ) (cmdlen : Option ℕ) where
  open t use {State}

  jbd_rw_answer-Sized :
      (again : List ℕ → State → Outcome State)
      → ((buf : List ℕ) (s : State) → Sized datasz (again buf s))
      → (buf : List ℕ) (r : Option (List ℕ)) (s : State)
      → Sized datasz (jbd_rw_answer t datasz cmd cmdlen again buf r s)
  unfolding jbd_rw_answer
  jbd_rw_answer-Sized again ih buf none s = unfold Sized in length-replicate datasz 0
  jbd_rw_answer-Sized again ih buf (some bytes) s =
      Sized-bind datasz (jbd_verify (bytes ++ drop (length bytes) buf) (length bytes)) _
        (λ verdict _. elim (Bool-cases (verdict == 0)) [
          | inr refused ↦ rw refused (ih _ s)
          | inl accepted ↦ rw accepted (
              Sized-bind datasz (get_elem? (bytes ++ drop (length bytes) buf) 3) _ (λ n _.
                Sized-bind datasz (load_at (bytes ++ drop (length bytes) buf) 4 n) _ (λ payload _.
                  Sized-bind datasz (store_at (replicate datasz 0) 0 payload) _ (λ out e.
                    Sized-some datasz (some n) out s (
                      length-store_at (replicate datasz 0) payload 0 e
                      ∙ length-replicate datasz 0)))))
        ])

  jbd_rw_loop-Sized :
      (retries : ℕ) (out buf : List ℕ) (s : State)
      → length out ≡ datasz
      → Sized datasz (jbd_rw_loop t datasz cmd cmdlen retries out buf s)
  unfolding jbd_rw_loop Sized
  jbd_rw_loop-Sized zero out buf s h = h
  jbd_rw_loop-Sized (suc retries) out buf s h =
      jbd_rw_answer-Sized (jbd_rw_loop t datasz cmd cmdlen retries (replicate datasz 0))
        (λ buf' s'.
          jbd_rw_loop-Sized retries (replicate datasz 0) buf' s' (length-replicate datasz 0))
        buf _ _

-- Whatever `jbd_rw` returns, `data` holds as many bytes as the caller said that it does.
pub jbd_rw_sized :
    (t : Transport) (action reg : ℕ) (bytes : List ℕ) (datasz : ℕ) (buf : List ℕ) (s : t.State)
    → length bytes ≡ datasz
    → (n : Option ℕ) (out : List ℕ) (s' : t.State)
    → jbd_rw t action reg bytes datasz buf s ≡ some (n, out, s')
    → length out ≡ datasz
unfolding jbd_rw
jbd_rw_sized t action reg bytes datasz buf s h n out s' e =
    let sized : Sized datasz (jbd_rw t action reg bytes datasz buf s) =
      Sized-bind datasz (jbd_cmd 256 action reg bytes datasz) _
        (λ made _. jbd_rw_loop-Sized t datasz made.1 made.0 3 bytes buf s h) in
    unfold Sized in subst (Sized datasz) e sized
