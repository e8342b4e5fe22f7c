-- ===== src/Connection/World.antt =====
-- Many connections over one shared state: the tasks that server/src/server.rs spawns for the accepted
-- connections, as a schedule of events. Between two rounds of one connection any rounds of the others
-- may stand, the token may be cancelled and the time oracle may store another offset.
use stss.Prelude.{
  ℕ, zero, suc, ◌+◌, true, String, List, [], ◌∷◌, ℤ, some, none, Option, str_eq, if◌then◌else◌,
}
use stss.Connection.Types.{SocketAddr, Signer, Externals, StsServerState, Round, contains}
use stss.Connection.Handler.{Phase, guest, conn_round}
use stss.Connection.Locks.{session_name}

pub record Conn : Type 0 where
  pub address : SocketAddr
  pub phase : Phase

pub record World : Type 0 where
  pub connections : List Conn
  pub shared : StsServerState

pub data Event : Type 0 where
  accepted : SocketAddr → Event
  turn : ℕ → Round → Event
  cancelled : Event
  synced : ℤ → Event

module _ (x : Externals) (key : x.crypto.RsaPrivateKey) (signer : Signer) where
  unfoldable pub turn_at : ℕ → Round → List Conn → StsServerState → List Conn × StsServerState
  turn_at n round [] st = ([], st)
  turn_at zero round (c ∷ cs) st =
      let (phase, st') = conn_round x key signer c.address c.phase round st in
      (record { address = c.address; phase = phase } ∷ cs, st')
  turn_at (suc n) round (c ∷ cs) st = let (cs', st') = turn_at n round cs st in (c ∷ cs', st')

  unfoldable pub step : Event → World → World
  step (accepted address) w = record w {
    connections = record { address = address; phase = guest } ∷ w.connections;
  }
  step (turn n round) w =
      let (cs, st) = turn_at n round w.connections w.shared in
      record { connections = cs; shared = st }
  step cancelled w = let st = w.shared in record w { shared = record st { cancelled = true } }
  step (synced offset) w =
      let st = w.shared in record w { shared = record st { offset_nanos = offset } }

  unfoldable pub run : List Event → World → World
  unfolding step
  run [] w = w
  run (e ∷ es) w = run es (step e w)

-- Whether a connection's session is of this user, as a number.
abbrev pub one : String → Option String → ℕ
one name none = 0
one name (some n) = if str_eq n name then 1 else 0

-- How many connections are in a session of `name`.
abbrev pub held : String → List Conn → ℕ
held name [] = 0
held name (c ∷ cs) = one name (session_name c.phase) + held name cs

abbrev pub slot : String → List String → ℕ
slot name users = if contains name users then 1 else 0
