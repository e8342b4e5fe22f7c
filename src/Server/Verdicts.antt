-- ===== src/Server/Verdicts.antt =====
-- How the handshakes end of the connections that `accept_loop` of server/src/server.rs accepts, and what becomes of
-- their tasks.
use stss.Prelude.{
  ℕ, zero, suc, Bool, true, false, List, [], ◌∷◌, map, ok, err, ◌≡◌, refl, arith, ap, ◌∙◌,
}
use stss.Connection.Types.{SocketAddr, Signer, Externals, StsServerState, Round}
use stss.Server.Accept.{
  Task, handshaking, refused, serving, Stage, accepting, draining, exited, Serving, Happening,
  accept, interrupted, handshake, turn, shutdown_signal, sync_failed, synced, waited, accepted,
  finish_handshake, task_turn, conn_turn, turn_at, step, run,
}

-- How the handshake of an accepted connection has ended, if it has.
pub data Verdict : Type 0 where
  pending passed failed : Verdict

abbrev pub verdict_of : Task → Verdict
verdict_of (handshaking address) = pending
verdict_of (refused address) = failed
verdict_of (serving c) = passed

-- The end of the handshake of a connection; only the first one counts.
abbrev pub settle : Bool → Verdict → Verdict
settle true pending = passed
settle false pending = failed
settle _ v = v

abbrev pub settle_at : ℕ → Bool → List Verdict → List Verdict
settle_at n succeeds [] = []
settle_at zero succeeds (v ∷ vs) = settle succeeds v ∷ vs
settle_at (suc n) succeeds (v ∷ vs) = v ∷ settle_at n succeeds vs

verdicts-finish :
    (n : ℕ) (succeeds : Bool) (ts : List Task)
    → map verdict_of (finish_handshake n succeeds ts) ≡ settle_at n succeeds (map verdict_of ts)
verdicts-finish n succeeds [] = refl
verdicts-finish zero true (handshaking address ∷ ts) = refl
verdicts-finish zero false (handshaking address ∷ ts) = refl
verdicts-finish zero succeeds (refused address ∷ ts) = ground arith
verdicts-finish zero succeeds (serving c ∷ ts) = ground arith
verdicts-finish (suc n) succeeds (t ∷ ts) =
    ap (λ vs. verdict_of t ∷ vs) (verdicts-finish n succeeds ts)

-- In the loop, a connection that is accepted stands before the others, with its handshake to come.
abbrev pub admit : Stage → List Verdict → List Verdict
admit accepting vs = pending ∷ vs
admit _ vs = vs

module _ (x : Externals) (key : x.crypto.RsaPrivateKey) (signer : Signer) where
  -- The ends of the handshakes, as what happens to the loop tells them.
  abbrev pub verdict_step : Happening → Stage → List Verdict → List Verdict
  verdict_step (accept (ok address)) stage vs = admit stage vs
  verdict_step (handshake n succeeds) stage vs = settle_at n succeeds vs
  verdict_step _ stage vs = vs

  unfoldable pub verdicts : List Happening → Serving → List Verdict → List Verdict
  verdicts [] s vs = vs
  verdicts (e ∷ es) s vs = verdicts es (step x key signer e s) (verdict_step e s.stage vs)

  verdicts-turn :
      (n : ℕ) (round : Round) (ts : List Task) (st : StsServerState)
      → map verdict_of (turn_at x key signer n round ts st).0 ≡ map verdict_of ts
  unfolding turn_at task_turn conn_turn
  verdicts-turn n round [] st = refl
  verdicts-turn zero round (handshaking a ∷ ts) st = refl
  verdicts-turn zero round (refused a ∷ ts) st = refl
  verdicts-turn zero round (serving c ∷ ts) st = ground arith
  verdicts-turn (suc n) round (t ∷ ts) st =
      ap (λ vs. verdict_of t ∷ vs) (verdicts-turn n round ts st)

  verdicts-accepted :
      (address : SocketAddr) (stage : Stage) (ts : List Task)
      → map verdict_of (accepted x key signer (ok address) stage ts)
        ≡ admit stage (map verdict_of ts)
  verdicts-accepted address accepting ts = refl
  verdicts-accepted address draining ts = refl
  verdicts-accepted address exited ts = refl

  step-verdicts :
      (e : Happening) (s : Serving)
      → map verdict_of (step x key signer e s).tasks
        ≡ verdict_step e s.stage (map verdict_of s.tasks)
  unfolding step
  step-verdicts (accept (ok address)) s = verdicts-accepted address s.stage s.tasks
  step-verdicts (accept (err e)) s = ground arith
  step-verdicts (turn n round) s = verdicts-turn n round s.tasks s.shared
  step-verdicts (handshake n b) s = verdicts-finish n b s.tasks
  step-verdicts interrupted s = refl
  step-verdicts shutdown_signal s = refl
  step-verdicts sync_failed s = refl
  step-verdicts (synced offset) s = refl
  step-verdicts waited s = refl

  pub run-verdicts :
      (es : List Happening) (s : Serving)
      → map verdict_of (run x key signer es s).tasks ≡ verdicts es s (map verdict_of s.tasks)
  unfolding run verdicts
  run-verdicts [] s = refl
  run-verdicts (e ∷ es) s =
      let s' = step x key signer e s in run-verdicts es s' ∙ ap (verdicts es s') (step-verdicts e s)
