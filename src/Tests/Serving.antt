-- ===== src/Tests/Serving.antt =====
-- The theorems on the server's start, its loop and its shutdown, at a machine with a database of one user.
use stss.Prelude.{
  map, ℕ, zero, suc, ◌≤◌, ◌<◌, ◌≡◌, refl, arith, true, false, none, some, List, [], ◌∷◌, ◌++◌, ok,
  pos, inl, inr,
}
use stss.Protocol.Signing.{returned}
use stss.Database.Safety.{IsValid}
use stss.Database.Open.{
  check_tables, check_queries, check_audits, validate, prepare, unchecked_build, build,
}
use stss.Database.Open.Checked.{is_new, Checks, build-Checks}
use stss.Connection.Types.{SocketAddr, slow, StsServerState, Round, frame, token_cancelled}
use stss.Connection.Handler.{guest}
use stss.Connection.World.{held}
use stss.Connection.World
use stss.Server.{multi_thread, StsServer}
use stss.Server.Build.{
  set_up, on_runtime, expect_runtime, open_database, oracle_parts, from_bundle, signer_of,
  build_from_context,
}
use stss.Server.Built.{served_safe}
use stss.Server.Accept.{
  handshaking, serving, Serving, accepting, draining, exited, Happening, accept, interrupted,
  handshake, turn, shutdown_signal, waited, run, accept_loop,
}
use stss.Server.Verdicts.{verdict_of, verdicts}
use stss.Server.Refinement.{view, trace, run-trace}
use stss.Server.Shutdown.{IsInterrupted, IsFinished, shutdown_completes, handshake_delays_shutdown}
use stss.Tests.Toy.{toy, tables, tables-IsValid}
use stss.Tests.Machine.{integers, integers-IsColumns, answers, files, disk, platform, here, context}

opened : build integers files context.database_location answers ≡ ok false
unfolding build unchecked_build prepare validate check_tables check_queries check_audits
opened = refl

build-Checks_example :
    (answers.connect ≡ ok tt)
    × (false ≡ is_new integers files context.database_location)
    × Checks integers answers false
build-Checks_example =
    build-Checks integers files context.database_location answers false integers-IsColumns opened

abbrev server : StsServer platform
server = record {
  signer = slow;
  address = here;
  runtime = record { flavor = multi_thread 4; max_blocking_threads = some 1 };
  tls_acceptor = "key";
  signing_key = true;
  state = record {
    database = record { tables = tables; faults = [] };
    cancelled = false;
    logged_users = [];
    offset_nanos = pos 0;
  };
  time_oracle_worker = none;
}

built : build_from_context platform integers context disk ≡ returned (ok server)
unfolding build_from_context expect_runtime set_up on_runtime open_database oracle_parts from_bundle
    signer_of build unchecked_build prepare validate check_tables check_queries check_audits
built = refl

abbrev home : SocketAddr
home = record { ip = "10.0.0.7"; port = 4000 }

abbrev login_round : Round
login_round = record {
  polled = frame (0 ∷ []);
  salt = "salt";
  local_now = pos 1000;
  joined = true;
  send = ok tt;
}

abbrev last_round : Round
last_round = record {
  polled = token_cancelled;
  salt = "salt";
  local_now = pos 1000;
  joined = true;
  send = ok tt;
}

abbrev visits : List Happening
visits =
    accept (ok home)
    ∷ accept (ok home)
    ∷ handshake 0 true
    ∷ turn 0 login_round
    ∷ handshake 1 true
    ∷ turn 1 login_round
    ∷ shutdown_signal
    ∷ []

abbrev start : Serving
start = record { stage = accepting; tasks = []; shared = server.state }

run-trace_example :
    (view (run toy true slow visits start)
      ≡ World.run toy true slow (trace toy true slow visits start) (view start))
    × (map verdict_of (run toy true slow visits start).tasks
        ≡ verdicts toy true slow visits start [])
run-trace_example = run-trace toy true slow visits start

listened :
    accept_loop toy true slow here (ok tt) visits server.state ≡ ok (run toy true slow visits start)
unfolding accept_loop
listened = refl

served_safe_example :
    IsValid (run toy true slow visits start).shared.database.tables
    × (held "ada" (view (run toy true slow visits start)).connections ≤ 1)
served_safe_example =
    served_safe platform integers context disk server (ok tt) visits
      (run toy true slow visits start) "ada" integers-IsColumns (λ _. tables-IsValid) built listened

abbrev stopping : StsServerState
stopping = record {
  database = record { tables = tables; faults = [] };
  cancelled = true;
  logged_users = [];
  offset_nanos = pos 0;
}

abbrev busy : Serving
busy = record {
  stage = accepting;
  tasks = serving (record { address = home; phase = guest }) ∷ [];
  shared = stopping;
}

seen : (n : ℕ) → n < 1 → IsInterrupted toy true slow n (turn 0 last_round ∷ [])
seen zero h = inl (refl, refl)
seen (suc n) h = absurd (omega (arith, h))

shutdown_completes_example :
    (run toy true slow (interrupted ∷ (turn 0 last_round ∷ []) ++ waited ∷ []) busy).stage ≡ exited
shutdown_completes_example =
    shutdown_completes toy true slow (turn 0 last_round ∷ []) busy refl refl refl seen

abbrev slow_client : Serving
slow_client = record { stage = draining; tasks = handshaking home ∷ []; shared = stopping }

abbrev patience : List Happening
patience = shutdown_signal ∷ waited ∷ turn 0 last_round ∷ waited ∷ []

unfinished : ¬ IsFinished toy true slow 0 patience
unfinished h = elim h [
  | inl p ↦ p
  | inr (inl p) ↦ p
  | inr (inr (inl p)) ↦ p
  | inr (inr (inr (inl p))) ↦ p
  | inr (inr (inr (inr p))) ↦ p
]

handshake_delays_shutdown_example : (run toy true slow patience slow_client).stage ≡ draining
handshake_delays_shutdown_example =
    handshake_delays_shutdown toy true slow 0 patience slow_client refl refl unfinished
