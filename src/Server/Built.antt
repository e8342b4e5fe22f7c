-- ===== src/Server/Built.antt =====
-- A server that `build_from_context` of server/src/server.rs has built, and what its connections do to the
-- database and to the sessions.
use stss.Prelude.{
  ℕ, Bool, true, false, Option, none, some, List, [], String, Result, ok, err, map_err, ◌≡◌, ◌≤◌,
  refl, arith, ap, sym, ◌∙◌, >>=_inverse, map_err_inverse, ok_injective,
}
use mathlib.Core.Path.{subst}
use stss.Protocol.Signing.{returned}
use stss.Database.Safety.{IsValid}
use stss.Database.Monad.{Sqlite}
use stss.Database.Open.{Columns, IsColumns, build}
use stss.Database.Open.Checked.{is_new, Checks, build-Checks}
use stss.Connection.Types.{Signer, accelerated, slow, IoError}
use stss.Connection.World.{held}
use stss.Connection.Validity.{run-IsValid}
use stss.Connection.Exclusion.{one_session_per_user}
use stss.Server.{
  Runtime, Flavor, current_thread, multi_thread, Platform, ServerContext, StsServer,
  StsServerBuildError, tls_setup, data_base,
}
use stss.Server.Build.{
  Disk, set_up_log, flavor, blocking_threads, database_of, open_database, oracle_parts, set_up,
  on_runtime, expect_runtime, build_from_context, from_bundle, signer_of,
}
use stss.Server.Accept.{Serving, Happening, accepting, accept_loop, bind_error}
use stss.Server.Refinement.{view, trace, run-view}

empty-IsValid : IsValid (record { users = []; history = [] })
empty-IsValid = record {
  accounts = record { keyed = tt; in_range = tt };
  rows = tt;
  owned = tt;
  unique = tt;
}

-- The threads of the runtime: one, or as many as configured, which are at least two.
abbrev pub HasThreads : ℕ → Flavor → Type 0
HasThreads n current_thread = n ≡ 1
HasThreads n (multi_thread m) = (m ≡ n) × (2 ≤ n)

-- The signer and the limit of the threads that it may block.
abbrev pub HasSigner : ℕ → Signer → Option ℕ → Type 0
HasSigner n accelerated limit = (n ≡ 0) × (limit ≡ none)
HasSigner n slow limit = (1 ≤ n) × (limit ≡ some n)

module _ (p : Platform) (c : Columns) where
  pub record IsBuilt (context : ServerContext p) (disk : Disk c) (server : StsServer p)
      : Type 0 where
    pub threads : HasThreads context.runtime_context.working_threads server.runtime.flavor
    pub signer :
        HasSigner context.runtime_context.cryptography_threads server.signer
          server.runtime.max_blocking_threads
    pub certified :
        p.with_single_cert context.key_context.tls_cert context.key_context.tls_priv
        ≡ ok server.tls_acceptor
    pub signs : server.signing_key ≡ context.key_context.tss_priv
    pub listens : server.address ≡ context.address
    pub checked : Checks c disk.answers (is_new c disk.files context.database_location)
    pub loaded :
        server.state.database ≡ database_of disk (is_new c disk.files context.database_location)
    pub nobody : server.state.logged_users ≡ []
    pub active : server.state.cancelled ≡ false
    pub clock :
        (server.time_oracle_worker ≡ (oracle_parts context.time_oracle_type).1)
        × (server.state.offset_nanos ≡ (oracle_parts context.time_oracle_type).0.offset_nanos)

  flavor-HasThreads : (n : ℕ) (f : Flavor) → flavor n ≡ ok f → HasThreads n f
  flavor-HasThreads n f h = ground arith

  signer_of-HasSigner : (n : ℕ) → HasSigner n (signer_of n) (blocking_threads n)
  unfolding signer_of
  signer_of-HasSigner n = ground arith

  open_database_inverse :
      (disk : Disk c) (location : _) (d : Sqlite)
      → IsColumns c
      → open_database c disk location ≡ ok d
      → Checks c disk.answers (is_new c disk.files location)
        × (d ≡ database_of disk (is_new c disk.files location))
  unfolding open_database
  open_database_inverse disk location d law h =
      let (b, opened, q) = >>=_inverse (build c disk.files location disk.answers) _ h in
      let (_, new, checks) = build-Checks c disk.files location disk.answers b law opened in
      (subst (Checks c disk.answers) new checks, sym (ok_injective q) ∙ ap (database_of disk) new)

  set_up_inverse :
      (context : ServerContext p) (rt : Runtime)
      → set_up p c context ≡ ok rt
      → HasThreads context.runtime_context.working_threads rt.flavor
        × (rt.max_blocking_threads ≡ blocking_threads context.runtime_context.cryptography_threads)
  unfolding set_up
  set_up_inverse context rt h =
      let (_, _, h1) = >>=_inverse (set_up_log p.try_init context.log_output) _ h in
      let (f, made, h2) = >>=_inverse (flavor context.runtime_context.working_threads) _ h1 in
      let built = ok_injective h2 in
      (
        subst (λ rt'. HasThreads context.runtime_context.working_threads rt'.flavor) built
            (flavor-HasThreads _ f made),
        ap (λ rt'. rt'.max_blocking_threads) (sym built),
      )

  on_runtime-IsBuilt :
      (context : ServerContext p) (disk : Disk c) (rt : Runtime) (server : StsServer p)
      → IsColumns c
      → HasThreads context.runtime_context.working_threads rt.flavor
      → rt.max_blocking_threads ≡ blocking_threads context.runtime_context.cryptography_threads
      → on_runtime p c context disk rt ≡ ok server
      → IsBuilt context disk server
  unfolding on_runtime from_bundle
  on_runtime-IsBuilt context disk rt server law threads limit h =
      let (acceptor, tls, h1) =
        >>=_inverse
          (map_err tls_setup
            (p.with_single_cert context.key_context.tls_cert context.key_context.tls_priv))
          _ h in
      let (d, opened, h2) =
        >>=_inverse (map_err data_base (open_database c disk context.database_location)) _ h1 in
      let (checks, loaded) =
        open_database_inverse disk context.database_location d law
          (map_err_inverse data_base _ opened) in
      let threads_of_signer = signer_of-HasSigner context.runtime_context.cryptography_threads in
      subst (IsBuilt context disk) (ok_injective h2) (record {
        threads = threads;
        signer = rw limit threads_of_signer;
        certified = map_err_inverse tls_setup _ tls;
        signs = refl;
        listens = refl;
        checked = checks;
        loaded = loaded;
        nobody = refl;
        active = refl;
        clock = (refl, refl);
      })

  expect_runtime-IsBuilt :
      (context : ServerContext p) (disk : Disk c) (r : Result StsServerBuildError Runtime)
      (server : StsServer p)
      → IsColumns c
      → r ≡ set_up p c context
      → expect_runtime p c context disk r ≡ returned (ok server)
      → IsBuilt context disk server
  unfolding expect_runtime
  expect_runtime-IsBuilt context disk (err e) server law e' h = cc
  expect_runtime-IsBuilt context disk (ok rt) server law e h =
      let (threads, limit) = set_up_inverse context rt (sym e) in
      on_runtime-IsBuilt context disk rt server law threads limit (ground arith)

  pub build_from_context-IsBuilt :
      (context : ServerContext p) (disk : Disk c) (server : StsServer p)
      → IsColumns c
      → build_from_context p c context disk ≡ returned (ok server)
      → IsBuilt context disk server
  unfolding build_from_context
  build_from_context-IsBuilt context disk server law h =
      expect_runtime-IsBuilt context disk (set_up p c context) server law refl h

  opened-IsValid :
      (disk : Disk c) (b : Bool)
      → (b ≡ false → IsValid disk.stored.tables)
      → IsValid (database_of disk b).tables
  opened-IsValid disk true h = empty-IsValid
  opened-IsValid disk false h = h refl

  -- However clients, handshakes, faults of the network and of the database, the shutdown and the
  -- time oracle interleave in the loop of a server that was built: its database has its invariant, if the
  -- stored database had it or is new, and at most one connection at a time is in a session of any user.
  pub served_safe :
      (context : ServerContext p) (disk : Disk c) (server : StsServer p)
      (bound : Result IoError (Unit {0})) (es : List Happening) (s : Serving) (name : String)
      → IsColumns c
      → (is_new c disk.files context.database_location ≡ false → IsValid disk.stored.tables)
      → build_from_context p c context disk ≡ returned (ok server)
      → accept_loop p.externals server.signing_key server.signer server.address bound es
          server.state
        ≡ ok s
      → IsValid s.shared.database.tables × (held name (view s).connections ≤ 1)
  unfolding accept_loop
  served_safe context disk server bound es s name law stored made served =
      let built = build_from_context-IsBuilt context disk server law made in
      let (_, _, h) =
        >>=_inverse (map_err (λ e. bind_error server.address e.kind e.text) bound) _ served in
      let start : Serving = record { stage = accepting; tasks = []; shared = server.state } in
      let start_valid =
        subst (λ d. IsValid d.tables) (sym built.loaded) (opened-IsValid disk _ stored) in
      let x = p.externals in
      let events = trace x server.signing_key server.signer es start in
      let same =
        sym (run-view x server.signing_key server.signer es start) ∙ ap view (ok_injective h) in
      (
        subst (λ w. IsValid w.shared.database.tables) same
            (run-IsValid x server.signing_key server.signer events (view start) start_valid),
        subst (λ w. held name w.connections ≤ 1) same
            (one_session_per_user x server.signing_key server.signer name events server.state),
      )
