-- ===== src/Server/Tasks.antt =====
-- The tasks of `accept_loop` of server/src/server.rs: which have ended, and what a turn or the end of a
-- handshake does to that.
use stss.Prelude.{
  ℕ, zero, suc, Bool, true, false, ◌&&◌, List, [], ◌∷◌, length, ◌≡◌, ◌<◌, ◌⊎◌, inl, inr, ◌≢◌, refl,
  arith, ap, ◌∙◌,
}
use stss.Connection.Types.{SocketAddr, Signer, Externals, StsServerState, Round, token_cancelled}
use stss.Connection.{fetch_next_request}
use stss.Connection.Handler.{
  Phase, conn_round, guest_round, guest_fetched, session_round, session_fetched, after_session,
}
use stss.Server.Accept.{
  Task, handshaking, refused, serving, is_over, is_done, all_done, finish_handshake, task_turn,
  conn_turn, turn_at,
}

-- The handshake of a task has ended.
abbrev pub is_ready : Task → Bool
is_ready (handshaking address) = false
is_ready _ = true

abbrev pub all : (Task → Bool) → List Task → Bool
all test [] = true
all test (t ∷ ts) = test t && all test ts

-- A test of the task at a place, if there is one.
abbrev pub at : (Task → Bool) → ℕ → List Task → Bool
at test n [] = true
at test zero (t ∷ ts) = test t
at test (suc n) (t ∷ ts) = at test n ts

pub at-beyond :
    (test : Task → Bool) (n : ℕ) (ts : List Task) → (n < length ts) ⊎ (at test n ts ≡ true)
at-beyond test n [] = inr refl
at-beyond test zero (t ∷ ts) = inl (omega arith)
at-beyond test (suc n) (t ∷ ts) = elim (at-beyond test n ts) [
  | inl p ↦ inl (omega (arith, p))
  | inr h ↦ inr h
]

pub all_ready : (n : ℕ) (ts : List Task) → all is_ready ts ≡ true → at is_ready n ts ≡ true
all_ready n [] h = refl
all_ready zero (t ∷ ts) h = ground arith
all_ready (suc n) (t ∷ ts) h = all_ready n ts (ground arith)

pub all_done_lem : (ts : List Task) → ((n : ℕ) → at is_done n ts ≡ true) → all_done ts ≡ true
unfolding all_done
all_done_lem [] h = refl
all_done_lem (t ∷ ts) h = ground (arith, h 0, all_done_lem ts (λ n. h (suc n)))

pub done-finish :
    (n m : ℕ) (b : Bool) (ts : List Task)
    → at is_done n ts ≡ true
    → at is_done n (finish_handshake m b ts) ≡ true
done-finish n m b [] h = refl
done-finish zero zero b (t ∷ ts) h = ground arith
done-finish zero (suc m) b (t ∷ ts) h = h
done-finish (suc n) zero b (t ∷ ts) h = ground arith
done-finish (suc n) (suc m) b (t ∷ ts) h = done-finish n m b ts h

pub ready-finish :
    (n m : ℕ) (b : Bool) (ts : List Task)
    → at is_ready n ts ≡ true
    → at is_ready n (finish_handshake m b ts) ≡ true
ready-finish n m b [] h = refl
ready-finish zero zero b (t ∷ ts) h = ground arith
ready-finish zero (suc m) b (t ∷ ts) h = h
ready-finish (suc n) zero b (t ∷ ts) h = ground arith
ready-finish (suc n) (suc m) b (t ∷ ts) h = ready-finish n m b ts h

pub unready-finish :
    (n m : ℕ) (b : Bool) (ts : List Task)
    → at is_ready n ts ≡ false
    → m ≢ n
    → at is_ready n (finish_handshake m b ts) ≡ false
unready-finish n m b [] h d = h
unready-finish zero zero b (t ∷ ts) h d = absurd (d refl)
unready-finish zero (suc m) b (t ∷ ts) h d = h
unready-finish (suc n) zero b (t ∷ ts) h d = ground arith
unready-finish (suc n) (suc m) b (t ∷ ts) h d = unready-finish n m b ts h (λ p. d (ap suc p))

pub unready_not_done : (n : ℕ) (ts : List Task) → at is_ready n ts ≡ false → all_done ts ≡ false
unfolding all_done
unready_not_done n [] h = cc
unready_not_done zero (t ∷ ts) h = ground arith
unready_not_done (suc n) (t ∷ ts) h = ground (arith, unready_not_done n ts h)

module _ (x : Externals) (key : x.crypto.RsaPrivateKey) (signer : Signer) where
  task_turn-done :
      (t : Task) (round : Round) (st : StsServerState)
      → is_done t ≡ true
      → (task_turn x key signer t round st).0 ≡ t
  unfolding task_turn
  task_turn-done t round st h = ground arith

  task_turn-ready :
      (t : Task) (round : Round) (st : StsServerState)
      → is_ready (task_turn x key signer t round st).0 ≡ is_ready t
  unfolding task_turn conn_turn
  task_turn-ready t round st = ground arith

  -- A handler that sees the cancelled token ends.
  conn_round-over :
      (address : SocketAddr) (phase : Phase) (round : Round) (st : StsServerState)
      → round.polled ≡ token_cancelled
      → is_over (conn_round x key signer address phase round st).0 ≡ true
  unfolding conn_round guest_round guest_fetched session_round session_fetched after_session
      fetch_next_request
  conn_round-over address phase round st h = ground arith

  task_turn-over :
      (t : Task) (round : Round) (st : StsServerState)
      → is_ready t ≡ true
      → round.polled ≡ token_cancelled
      → is_done (task_turn x key signer t round st).0 ≡ true
  unfolding task_turn conn_turn
  task_turn-over (handshaking a) round st h p = cc
  task_turn-over (refused a) round st h p = refl
  task_turn-over (serving c) round st h p =
      ground (arith, conn_round-over c.address c.phase round st p)

  pub done-turn :
      (n m : ℕ) (round : Round) (ts : List Task) (st : StsServerState)
      → at is_done n ts ≡ true
      → at is_done n (turn_at x key signer m round ts st).0 ≡ true
  unfolding turn_at
  done-turn n m round [] st h = refl
  done-turn zero zero round (t ∷ ts) st h = ap is_done (task_turn-done t round st h) ∙ h
  done-turn zero (suc m) round (t ∷ ts) st h = h
  done-turn (suc n) zero round (t ∷ ts) st h = h
  done-turn (suc n) (suc m) round (t ∷ ts) st h = done-turn n m round ts st h

  pub ready-turn :
      (n m : ℕ) (round : Round) (ts : List Task) (st : StsServerState)
      → at is_ready n (turn_at x key signer m round ts st).0 ≡ at is_ready n ts
  unfolding turn_at
  ready-turn n m round [] st = refl
  ready-turn zero zero round (t ∷ ts) st = task_turn-ready t round st
  ready-turn zero (suc m) round (t ∷ ts) st = refl
  ready-turn (suc n) zero round (t ∷ ts) st = refl
  ready-turn (suc n) (suc m) round (t ∷ ts) st = ready-turn n m round ts st

  pub turn_at-over :
      (n : ℕ) (round : Round) (ts : List Task) (st : StsServerState)
      → at is_ready n ts ≡ true
      → round.polled ≡ token_cancelled
      → at is_done n (turn_at x key signer n round ts st).0 ≡ true
  unfolding turn_at
  turn_at-over n round [] st h p = refl
  turn_at-over zero round (t ∷ ts) st h p = task_turn-over t round st h p
  turn_at-over (suc n) round (t ∷ ts) st h p = turn_at-over n round ts st h p
