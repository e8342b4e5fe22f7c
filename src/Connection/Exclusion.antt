-- ===== src/Connection/Exclusion.antt =====
-- Sessions of one user over all connections, under every schedule: server/src/connection_handler.rs
-- with its set `logged_users`.
use stss.Prelude.{
  ℕ, zero, suc, ◌+◌, ◌≤◌, ◌≡◌, true, String, List, [], ◌∷◌, some, Option, eq_iff, arith,
}
use stss.Connection.Types.{Signer, Externals, StsServerState, Round, contains, remove}
use stss.Connection.Locks.{LockStep, stays, taken, leaked, freed, abandoned, conn_round-LockStep}
use stss.Connection.World.{
  Conn, World, Event, accepted, turn, cancelled, synced, turn_at, step, run, one, held, slot,
}

contains-remove :
    (name n : String) (us : List String)
    → slot name us ≤ one name (some n) + slot name (remove n us)
unfolding contains remove
contains-remove name n [] = ground arith
contains-remove name n (u ∷ us) =
    ground (arith, contains-remove name n us, eq_iff u n, eq_iff u name, eq_iff n name)

-- What a round takes it also locks.
balance :
    {a b : Option String} {us vs : List String} (name : String)
    → LockStep a us b vs
    → one name b + slot name us ≤ one name a + slot name vs
unfolding contains
balance name stays = omega arith
balance name (taken n fresh) = ground (arith, eq_iff n name)
balance name (leaked n fresh) = ground (arith, eq_iff n name)
balance {us} name (freed n) = omega (arith, contains-remove name n us)
balance name (abandoned n) = omega arith

module _ (x : Externals) (key : x.crypto.RsaPrivateKey) (signer : Signer) where
  turn_at-balance :
      (name : String) (n : ℕ) (round : Round) (cs : List Conn) (st : StsServerState)
      → let (cs', st') = turn_at x key signer n round cs st in
        held name cs' + slot name st.logged_users ≤ held name cs + slot name st'.logged_users
  unfolding turn_at
  turn_at-balance name n round [] st = omega arith
  turn_at-balance name zero round (c ∷ cs) st =
      omega (arith, balance name (conn_round-LockStep x key signer c.address c.phase round st))
  turn_at-balance name (suc n) round (c ∷ cs) st = omega (arith, turn_at-balance name n round cs st)

  step-balance :
      (name : String) (e : Event) (w : World)
      → held name (step x key signer e w).connections + slot name w.shared.logged_users
        ≤ held name w.connections + slot name (step x key signer e w).shared.logged_users
  unfolding step
  step-balance name (accepted address) w = omega arith
  step-balance name (turn n round) w = turn_at-balance name n round w.connections w.shared
  step-balance name cancelled w = omega arith
  step-balance name (synced offset) w = omega arith

  run-balance :
      (name : String) (es : List Event) (w : World)
      → held name (run x key signer es w).connections + slot name w.shared.logged_users
        ≤ held name w.connections + slot name (run x key signer es w).shared.logged_users
  unfolding run
  run-balance name [] w = omega arith
  run-balance name (e ∷ es) w =
      omega (arith, step-balance name e w, run-balance name es (step x key signer e w))

  -- However the rounds of all connections interleave, from a server without connections at most
  -- one connection at a time is in a session of any user.
  pub one_session_per_user :
      (name : String) (es : List Event) (st : StsServerState)
      → held name (run x key signer es (record { connections = []; shared = st })).connections ≤ 1
  one_session_per_user name es st =
      ground (arith, run-balance name es (record { connections = []; shared = st }))

  -- A name that is locked while no connection is in its session stays locked under every schedule,
  -- and no connection gets into a session of that user again.
  pub orphaned_lock_persists :
      (name : String) (es : List Event) (w : World)
      → contains name w.shared.logged_users ≡ true
      → held name w.connections ≡ 0
      → let w' = run x key signer es w in
        (contains name w'.shared.logged_users ≡ true) × (held name w'.connections ≡ 0)
  orphaned_lock_persists name es w locked free = ground (arith, run-balance name es w)
