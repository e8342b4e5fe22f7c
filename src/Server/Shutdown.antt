-- ===== src/Server/Shutdown.antt =====
-- The shutdown of server/src/server.rs: what `tracker.wait()` waits for behind the loop of `accept_loop`.
use stss.Prelude.{
  ℕ, true, false, List, [], ◌∷◌, ◌++◌, length, ◌≡◌, ◌<◌, ◌⊎◌, inl, inr, ◌≢◌, refl, arith, ap, ◌∙◌,
}
use stss.Connection.Types.{Signer, Externals, token_cancelled}
use stss.Server.Accept.{
  accepting, draining, exited, Serving, Happening, accept, interrupted, handshake, turn, waited,
  is_done, all_done, step, run,
}
use stss.Server.Tasks.{
  is_ready, all, at, at-beyond, all_ready, all_done_lem, done-finish, ready-finish, unready-finish,
  unready_not_done, done-turn, ready-turn, turn_at-over,
}

module _ (x : Externals) (key : x.crypto.RsaPrivateKey) (signer : Signer) where
  step-done :
      (n : ℕ) (e : Happening) (s : Serving)
      → s.stage ≢ accepting
      → at is_done n s.tasks ≡ true
      → at is_done n (step x key signer e s).tasks ≡ true
  unfolding step
  step-done n (accept r) s b h = ground (arith, b)
  step-done n (handshake m v) s b h = done-finish n m v s.tasks h
  step-done n (turn m round) s b h = done-turn x key signer n m round s.tasks s.shared h
  step-done n e s b h = ground arith

  step-ready :
      (n : ℕ) (e : Happening) (s : Serving)
      → s.stage ≢ accepting
      → at is_ready n s.tasks ≡ true
      → at is_ready n (step x key signer e s).tasks ≡ true
  unfolding step
  step-ready n (accept r) s b h = ground (arith, b)
  step-ready n (handshake m v) s b h = ready-finish n m v s.tasks h
  step-ready n (turn m round) s b h = ready-turn x key signer n m round s.tasks s.shared ∙ h
  step-ready n e s b h = ground arith

  step_behind :
      (e : Happening) (s : Serving)
      → s.stage ≢ accepting
      → (step x key signer e s).stage ≢ accepting
  unfolding step
  step_behind e s b = ground (arith, b)

  -- The connection at a place sees the cancelled token.
  abbrev pub Interrupts : ℕ → Happening → Type 0
  Interrupts n (turn m round) = (m ≡ n) × (round.polled ≡ token_cancelled)
  Interrupts n _ = ⊥

  abbrev pub IsInterrupted : ℕ → List Happening → Type 0
  IsInterrupted n [] = ⊥
  IsInterrupted n (e ∷ es) = Interrupts n e ⊎ IsInterrupted n es

  step-over :
      (n : ℕ) (e : Happening) (s : Serving)
      → at is_ready n s.tasks ≡ true
      → Interrupts n e
      → at is_done n (step x key signer e s).tasks ≡ true
  unfolding step
  step-over n (turn m round) s r (h, p) =
      rw h (turn_at-over x key signer n round s.tasks s.shared r p)
  step-over n e s r i = ground arith

  run-done :
      (n : ℕ) (es : List Happening) (s : Serving)
      → s.stage ≢ accepting
      → at is_done n s.tasks ≡ true
      → at is_done n (run x key signer es s).tasks ≡ true
  unfolding run
  run-done n [] s b h = h
  run-done n (e ∷ es) s b h =
      run-done n es (step x key signer e s) (step_behind e s b) (step-done n e s b h)

  run-over :
      (n : ℕ) (es : List Happening) (s : Serving)
      → s.stage ≢ accepting
      → at is_ready n s.tasks ≡ true
      → IsInterrupted n es
      → at is_done n (run x key signer es s).tasks ≡ true
  unfolding run
  run-over n [] s b r i = absurd i
  run-over n (e ∷ es) s b r (inl i) =
      run-done n es (step x key signer e s) (step_behind e s b) (step-over n e s r i)
  run-over n (e ∷ es) s b r (inr i) =
      run-over n es (step x key signer e s) (step_behind e s b) (step-ready n e s b r) i

  run-append :
      (es fs : List Happening) (s : Serving)
      → run x key signer (es ++ fs) s ≡ run x key signer fs (run x key signer es s)
  unfolding run
  run-append [] fs s = refl
  run-append (e ∷ es) fs s = run-append es fs (step x key signer e s)

  run_behind :
      (es : List Happening) (s : Serving)
      → s.stage ≢ accepting
      → (run x key signer es s).stage ≢ accepting
  unfolding run
  run_behind [] s b = b
  run_behind (e ∷ es) s b = run_behind es (step x key signer e s) (step_behind e s b)

  waited-exited :
      (s : Serving)
      → s.stage ≢ accepting
      → all_done s.tasks ≡ true
      → (step x key signer waited s).stage ≡ exited
  unfolding step
  waited-exited s b h = ground (arith, b, h)

  drained :
      (es : List Happening) (s : Serving)
      → s.stage ≢ accepting
      → all is_ready s.tasks ≡ true
      → ((n : ℕ) → n < length s.tasks → IsInterrupted n es)
      → (run x key signer (es ++ waited ∷ []) s).stage ≡ exited
  unfolding run
  drained es s b r i =
      let over : (n : ℕ) → at is_done n (run x key signer es s).tasks ≡ true = λ n.
        elim (at-beyond is_done n s.tasks) [
          | inl p ↦ run-over n es s b (all_ready n s.tasks r) (i n p)
          | inr h ↦ run-done n es s b h
        ] in
      ap (λ s'. s'.stage) (run-append es (waited ∷ []) s)
      ∙ waited-exited (run x key signer es s) (run_behind es s b) (all_done_lem _ over)

  -- A server whose token is cancelled while it accepts connections, and none of whose connections is in
  -- its handshake, shuts down: when the loop has seen the token, under any further events in which
  -- every connection sees the token once, `accept_loop` returns after them.
  pub shutdown_completes :
      (es : List Happening) (s : Serving)
      → s.stage ≡ accepting
      → s.shared.cancelled ≡ true
      → all is_ready s.tasks ≡ true
      → ((n : ℕ) → n < length s.tasks → IsInterrupted n es)
      → (run x key signer (interrupted ∷ es ++ waited ∷ []) s).stage ≡ exited
  unfolding run step
  shutdown_completes es s a c r i =
      drained es (step x key signer interrupted s) (ground (arith, a, c)) r i

  -- The events of a task's handshake.
  abbrev pub Finishes : ℕ → Happening → Type 0
  Finishes n (handshake m _) = m ≡ n
  Finishes n _ = ⊥

  abbrev pub IsFinished : ℕ → List Happening → Type 0
  IsFinished n [] = ⊥
  IsFinished n (e ∷ es) = Finishes n e ⊎ IsFinished n es

  step-waiting :
      (n : ℕ) (e : Happening) (s : Serving)
      → s.stage ≡ draining
      → at is_ready n s.tasks ≡ false
      → ¬ Finishes n e
      → let s' = step x key signer e s in (s'.stage ≡ draining) × (at is_ready n s'.tasks ≡ false)
  unfolding step
  step-waiting n (accept r) s d h f = ground arith
  step-waiting n (handshake m v) s d h f = (d, unready-finish n m v s.tasks h f)
  step-waiting n (turn m round) s d h f =
      (d, ready-turn x key signer n m round s.tasks s.shared ∙ h)
  step-waiting n waited s d h f = ground (arith, unready_not_done n s.tasks h)
  step-waiting n e s d h f = ground arith

  -- A server that waits for its tasks while a client is in the TLS handshake does not return before
  -- that handshake ends, under any events: nothing limits its time, and it does not look at the token.
  pub handshake_delays_shutdown :
      (n : ℕ) (es : List Happening) (s : Serving)
      → s.stage ≡ draining
      → at is_ready n s.tasks ≡ false
      → ¬ IsFinished n es
      → (run x key signer es s).stage ≡ draining
  unfolding run
  handshake_delays_shutdown n [] s d h f = d
  handshake_delays_shutdown n (e ∷ es) s d h f =
      let (d', h') = step-waiting n e s d h (λ p. f (inl p)) in
      handshake_delays_shutdown n es (step x key signer e s) d' h' (λ p. f (inr p))
