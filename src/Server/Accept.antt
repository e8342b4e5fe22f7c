-- ===== src/Server/Accept.antt =====
-- `run_with_signal` and `accept_loop` of server/src/server.rs: the listener, the tasks that it spawns,
-- the shutdown. What happens at the listener, the handshakes, the clients, the signal and the clock is
-- a sequence of events; an event that the state does not wait for changes nothing.
use stss.Prelude.{
  ℕ, zero, suc, Bool, true, false, List, [], ◌∷◌, String, Result, ok, err, map_err, ◌>>=◌, ℤ,
  if◌then◌else◌, ◌&&◌,
}
use stss.Connection.Types.{
  SocketAddr, ErrorKind, addr_in_use, permission_denied, addr_not_available, IoError,
  server_network_down, network, Signer, Externals, StsServerState, Round,
}
use stss.Connection.Handler.{Phase, guest, closed, crashed, conn_round}
use stss.Connection.World.{Conn}
use stss.Server.{StsServerRunError, port_already_in_use, generic_bind}

abbrev pub bind_error : SocketAddr → ErrorKind → String → StsServerRunError
bind_error address addr_in_use text = port_already_in_use address.port
bind_error address permission_denied text = StsServerRunError.permission_denied address.port
bind_error address addr_not_available text = StsServerRunError.addr_not_available address
bind_error address _ text = generic_bind text

-- A task of the tracker: in the TLS handshake, over because the handshake failed, or in the handler of
-- its connection.
pub data Task : Type 0 where
  handshaking : SocketAddr → Task
  refused : SocketAddr → Task
  serving : Conn → Task

-- In the loop, behind it at `tracker.wait()`, or returned.
pub data Stage : Type 0 where
  accepting draining exited : Stage

pub record Serving : Type 0 where
  pub stage : Stage
  pub tasks : List Task
  pub shared : StsServerState

pub data Happening : Type 0 where
  -- `listener.accept()` wins the `select!`. Whatever the kind of its error, the loop goes on: the
  -- counter `_unanswered_syn_count` drops its `checked_add`.
  accept : Result ErrorKind SocketAddr → Happening
  -- The cancelled token wins the `select!`.
  interrupted : Happening
  -- The handshake of a task ends.
  handshake : ℕ → Bool → Happening
  -- A turn of the loop of a connection.
  turn : ℕ → Round → Happening
  -- The shutdown signal, and the fatal error of the time oracle's worker.
  shutdown_signal : Happening
  sync_failed : Happening
  -- The worker stores another offset.
  synced : ℤ → Happening
  -- `tracker.wait()` returns.
  waited : Happening

abbrev pub is_over : Phase → Bool
is_over (closed r) = true
is_over crashed = true
is_over _ = false

-- Whether a task has ended.
abbrev pub is_done : Task → Bool
is_done (handshaking address) = false
is_done (refused address) = true
is_done (serving c) = is_over c.phase

unfoldable pub all_done : List Task → Bool
all_done [] = true
all_done (t ∷ ts) = is_done t && all_done ts

unfoldable pub cancel : StsServerState → StsServerState
cancel st = record st { cancelled = true }

-- What the task does with the result of `conn_handler`: only one error is more than a log entry.
unfoldable pub react : Phase → StsServerState → StsServerState
unfolding cancel
react (closed (err (network server_network_down))) st = cancel st
react phase st = st

abbrev pub finish_handshake : ℕ → Bool → List Task → List Task
finish_handshake n succeeds [] = []
finish_handshake zero succeeds (handshaking address ∷ ts) =
    (if succeeds then serving (record { address = address; phase = guest }) else refused address)
    ∷ ts
finish_handshake zero succeeds (t ∷ ts) = t ∷ ts
finish_handshake (suc n) succeeds (t ∷ ts) = t ∷ finish_handshake n succeeds ts

module _ (x : Externals) (key : x.crypto.RsaPrivateKey) (signer : Signer) where
  unfoldable pub conn_turn : Conn → Round → StsServerState → Task × StsServerState
  unfolding react
  conn_turn c round st =
      let (phase, st') = conn_round x key signer c.address c.phase round st in
      (serving (record { address = c.address; phase = phase }), react phase st')

  unfoldable pub task_turn : Task → Round → StsServerState → Task × StsServerState
  unfolding conn_turn
  task_turn (serving c) round st = if is_over c.phase then (serving c, st) else conn_turn c round st
  task_turn t round st = (t, st)

  unfoldable pub turn_at : ℕ → Round → List Task → StsServerState → List Task × StsServerState
  unfolding task_turn
  turn_at n round [] st = ([], st)
  turn_at zero round (t ∷ ts) st = let (t', st') = task_turn t round st in (t' ∷ ts, st')
  turn_at (suc n) round (t ∷ ts) st = let (ts', st') = turn_at n round ts st in (t ∷ ts', st')

  -- A result of `accept` is taken, and the cancelled token seen, only in the loop.
  abbrev pub accepted : Result ErrorKind SocketAddr → Stage → List Task → List Task
  accepted (ok address) accepting ts = handshaking address ∷ ts
  accepted _ _ ts = ts

  abbrev pub leave_loop : Bool → Stage → Stage
  leave_loop true accepting = draining
  leave_loop _ stage = stage

  abbrev pub leave : Bool → Stage → Stage
  leave true draining = exited
  leave _ stage = stage

  unfoldable pub step : Happening → Serving → Serving
  unfolding cancel turn_at all_done
  step (accept result) s = record s { tasks = accepted result s.stage s.tasks }
  step interrupted s = let st = s.shared in record s { stage = leave_loop st.cancelled s.stage }
  step (handshake n succeeds) s = record s { tasks = finish_handshake n succeeds s.tasks }
  step (turn n round) s =
      let (ts, st) = turn_at n round s.tasks s.shared in record s { tasks = ts; shared = st }
  step shutdown_signal s = record s { shared = cancel s.shared }
  step sync_failed s = record s { shared = cancel s.shared }
  step (synced offset) s =
      let st = s.shared in record s { shared = record st { offset_nanos = offset } }
  step waited s = record s { stage = leave (all_done s.tasks) s.stage }

  unfoldable pub run : List Happening → Serving → Serving
  unfolding step
  run [] s = s
  run (e ∷ es) s = run es (step e s)

  -- `run_with_signal`: the listener is bound, or the server does not start.
  unfoldable pub accept_loop :
      SocketAddr
      → Result IoError (Unit {0})
      → List Happening
      → StsServerState
      → Result StsServerRunError Serving
  unfolding run
  accept_loop address bound es st = map_err (λ e. bind_error address e.kind e.text) bound >>= λ _.
      ok (run es (record { stage = accepting; tasks = []; shared = st }))
