-- ===== src/Server/Refinement.antt =====
-- The tasks of `accept_loop` of server/src/server.rs as an implementation of the connections over one
-- shared state: the states of the loop map to those states, and what happens to the loop to their events.
use stss.Prelude.{
  ℕ, zero, suc, Bool, true, false, Option, none, some, List, [], ◌∷◌, ◌++◌, map, ok, err, ◌≡◌, refl,
  arith, ap, sym, ◌∙◌, if◌then◌else◌, Bool-cases, inl, inr,
}
use stss.Connection.Types.{
  SocketAddr, network, server_network_down, Signer, Externals, StsServerState, Round,
}
use stss.Connection.Handler.{Phase, guest, closed, conn_round}
use stss.Connection.World.{Conn, World, Event, cancelled, held}
use stss.Connection.World
use stss.Server.Verdicts.{verdict_of, verdicts, run-verdicts}
use stss.Server.Accept.{
  Task, handshaking, refused, serving, Stage, accepting, Serving, Happening, accept, interrupted,
  handshake, turn, shutdown_signal, sync_failed, synced, waited, is_over, react, cancel,
  finish_handshake, task_turn, conn_turn, turn_at, step, run,
}

-- A task that has no handler, not yet or never, is a connection that has sent nothing.
abbrev pub conn_of : Task → Conn
conn_of (handshaking address) = record { address = address; phase = guest }
conn_of (refused address) = record { address = address; phase = guest }
conn_of (serving c) = c

abbrev pub view : Serving → World
view s = record { connections = map conn_of s.tasks; shared = s.shared }

-- Whether the task of a connection cancels the token when its handler ends like this.
abbrev pub alarm : Phase → Bool
alarm (closed (err (network server_network_down))) = true
alarm _ = false

abbrev pub cancel_if : Bool → StsServerState → StsServerState
cancel_if b st = if b then cancel st else st

react-alarm : (phase : Phase) (st : StsServerState) → react phase st ≡ cancel_if (alarm phase) st
unfolding react
react-alarm phase st = ground arith

map-finish :
    (n : ℕ) (succeeds : Bool) (ts : List Task)
    → map conn_of (finish_handshake n succeeds ts) ≡ map conn_of ts
map-finish n succeeds [] = refl
map-finish zero succeeds (handshaking address ∷ ts) = ground arith
map-finish zero succeeds (refused address ∷ ts) = refl
map-finish zero succeeds (serving c ∷ ts) = refl
map-finish (suc n) succeeds (t ∷ ts) = ap (λ cs. conn_of t ∷ cs) (map-finish n succeeds ts)

world_eq :
    {cs ds : List Conn} {st su : StsServerState}
    → cs ≡ ds
    → st ≡ su
    → let w : World = record { connections = cs; shared = st } in
      w ≡ record { connections = ds; shared = su }
world_eq p q = rw (p, q) refl

module _ (x : Externals) (key : x.crypto.RsaPrivateKey) (signer : Signer) where
  -- What the turn of a task is for the connections: nothing, or a round, and whether the token is
  -- cancelled after it.
  abbrev pub effect : Task → Round → StsServerState → Option Bool
  effect (serving c) round st =
      if is_over c.phase
      then none
      else some (alarm (conn_round x key signer c.address c.phase round st).0)
  effect _ round st = none

  unfoldable pub effect_at : ℕ → Round → List Task → StsServerState → Option Bool
  effect_at n round [] st = none
  effect_at zero round (t ∷ ts) st = effect t round st
  effect_at (suc n) round (t ∷ ts) st = effect_at n round ts st

  abbrev pub turn_events : ℕ → Round → Option Bool → List Event
  turn_events n round none = []
  turn_events n round (some false) = World.turn n round ∷ []
  turn_events n round (some true) = World.turn n round ∷ cancelled ∷ []

  abbrev pub accept_events : Stage → SocketAddr → List Event
  accept_events accepting address = World.accepted address ∷ []
  accept_events _ address = []

  unfoldable pub events_of : Happening → Serving → List Event
  unfolding effect_at
  events_of (accept (ok address)) s = accept_events s.stage address
  events_of (turn n round) s = turn_events n round (effect_at n round s.tasks s.shared)
  events_of shutdown_signal s = cancelled ∷ []
  events_of sync_failed s = cancelled ∷ []
  events_of (synced offset) s = World.synced offset ∷ []
  events_of _ s = []

  -- The events of the connections, as the loop goes through what happens to it.
  unfoldable pub trace : List Happening → Serving → List Event
  unfolding events_of
  trace [] s = []
  trace (e ∷ es) s = events_of e s ++ trace es (step x key signer e s)

  abbrev TurnPost : ℕ → Round → List Task → StsServerState → Option Bool → Type 0
  TurnPost n round ts st none = turn_at x key signer n round ts st ≡ (ts, st)
  TurnPost n round ts st (some b) =
      (map conn_of (turn_at x key signer n round ts st).0
        ≡ (World.turn_at x key signer n round (map conn_of ts) st).0)
      × ((turn_at x key signer n round ts st).1
          ≡ cancel_if b (World.turn_at x key signer n round (map conn_of ts) st).1)

  TurnPost-served :
      (c : Conn) (round : Round) (ts : List Task) (st : StsServerState)
      → TurnPost 0 round (serving c ∷ ts) st (effect (serving c) round st)
  unfolding turn_at World.turn_at conn_turn task_turn
  TurnPost-served c round ts st = elim (Bool-cases (is_over c.phase)) [
    | inl p ↦ ground arith
    | inr p ↦
        let r = conn_round x key signer c.address c.phase round st in
        ground (arith, react-alarm r.0 r.1)
  ]

  TurnPost-suc :
      (n : ℕ) (round : Round) (t : Task) (ts : List Task) (st : StsServerState) (r : Option Bool)
      → TurnPost n round ts st r
      → TurnPost (suc n) round (t ∷ ts) st r
  unfolding turn_at World.turn_at
  TurnPost-suc n round t ts st none h = cc
  TurnPost-suc n round t ts st (some b) h = (ap (λ cs. conn_of t ∷ cs) h.0, h.1)

  turn_at-TurnPost :
      (n : ℕ) (round : Round) (ts : List Task) (st : StsServerState)
      → TurnPost n round ts st (effect_at n round ts st)
  unfolding effect_at turn_at World.turn_at task_turn
  turn_at-TurnPost n round [] st = refl
  turn_at-TurnPost zero round (handshaking a ∷ ts) st = refl
  turn_at-TurnPost zero round (refused a ∷ ts) st = refl
  turn_at-TurnPost zero round (serving c ∷ ts) st = TurnPost-served c round ts st
  turn_at-TurnPost (suc n) round (t ∷ ts) st =
      TurnPost-suc n round t ts st (effect_at n round ts st) (turn_at-TurnPost n round ts st)

  run-append :
      (es fs : List Event) (w : World)
      → World.run x key signer (es ++ fs) w
        ≡ World.run x key signer fs (World.run x key signer es w)
  unfolding World.run
  run-append [] fs w = refl
  run-append (e ∷ es) fs w = run-append es fs (World.step x key signer e w)

  turn-view :
      (n : ℕ) (round : Round) (s : Serving) (r : Option Bool)
      → TurnPost n round s.tasks s.shared r
      → view (step x key signer (turn n round) s)
        ≡ World.run x key signer (turn_events n round r) (view s)
  unfolding step World.run World.step cancel
  turn-view n round s none h =
      ap (λ r. view (record { stage = s.stage; tasks = r.0; shared = r.1 })) h
  turn-view n round s (some false) h = world_eq h.0 h.1
  turn-view n round s (some true) h = world_eq h.0 h.1

  step-view :
      (e : Happening) (s : Serving)
      → view (step x key signer e s) ≡ World.run x key signer (events_of e s) (view s)
  unfolding step World.run World.step events_of
  step-view (accept (ok address)) s = ground arith
  step-view (accept (err e)) s = refl
  step-view (turn n round) s = turn-view n round s _ (turn_at-TurnPost n round s.tasks s.shared)
  step-view (handshake n b) s =
      ap (λ cs. record { connections = cs; shared = s.shared }) (map-finish n b s.tasks)
  step-view interrupted s = refl
  step-view shutdown_signal s = refl
  step-view sync_failed s = refl
  step-view (synced offset) s = refl
  step-view waited s = refl

  pub run-view :
      (es : List Happening) (s : Serving)
      → view (run x key signer es s) ≡ World.run x key signer (trace es s) (view s)
  unfolding run trace World.run
  run-view [] s = refl
  run-view (e ∷ es) s =
      let s' = step x key signer e s in
      run-view es s'
      ∙ ap (World.run x key signer (trace es s')) (step-view e s)
      ∙ sym (run-append (events_of e s) (trace es s') (view s))

  -- Whatever happens to the loop, its tasks and the shared state end as the connections and the state
  -- of the world do under the events that `trace` reads off: accepted connections, rounds of those that are
  -- served and not over, cancellations and offsets. And a task is served exactly if the handshake of its
  -- connection has ended well, refused exactly if it has failed, and waiting as long as it has not ended.
  pub run-trace :
      (es : List Happening) (s : Serving)
      → (view (run x key signer es s) ≡ World.run x key signer (trace es s) (view s))
        × (map verdict_of (run x key signer es s).tasks
            ≡ verdicts x key signer es s (map verdict_of s.tasks))
  run-trace es s = (run-view es s, run-verdicts x key signer es s)
