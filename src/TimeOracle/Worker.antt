-- ===== src/TimeOracle/Worker.antt =====
-- `TimeSyncWorker::start_syncing` of server/src/time_oracle.rs. What each tick of the interval
-- brings, the address lookup and the answer of the crate `sntpc`, comes from the environment.
use stss.Prelude.{
  ℕ, ◌≡◌, refl, List, [], ◌∷◌, ◌++◌, String, Result, ok, err, ℤ, ◌≤ℤ◌, i64_max, i64_min, arith,
}
use stss.TimeOracle.{TimeOracleError, hostname_not_found, generic_network_error, compute_offset}
use stss.TimeOracle.Sync.{OffsetPost, compute_offset-OffsetPost}

-- The answer of `get_time`; a time comes with the local clock that is read after it.
pub data NtpAnswer : Type 0 where
  time : ℕ → ℕ → ℤ → NtpAnswer
  network : NtpAnswer
  address_resolve : NtpAnswer
  other : String → NtpAnswer

-- One round: the lookup fails, finds no address, or finds one that is then asked.
pub data Tick : Type 0 where
  lookup_failed : String → Tick
  no_address : Tick
  asked : NtpAnswer → Tick

-- The worker ends with an error only; `waiting` is a worker that awaits its next tick.
pub data SyncState : Type 0 where
  waiting : SyncState
  stopped : TimeOracleError → SyncState

abbrev pub stored : Result TimeOracleError ℤ → ℤ → SyncState × ℤ
stored (ok offset) _ = (waiting, offset)
stored (err e) offset = (stopped e, offset)

-- The body of the loop, on the stored offset; `address` is the text of the server's address.
unfoldable pub sync_round : String → Tick → ℤ → SyncState × ℤ
sync_round address (lookup_failed e) offset = (stopped (generic_network_error e), offset)
sync_round address no_address offset = (stopped (hostname_not_found address), offset)
sync_round address (asked (time secs nanos local_now)) offset =
    stored (compute_offset secs nanos local_now) offset
sync_round address (asked network) offset = (waiting, offset)
sync_round address (asked address_resolve) offset = (waiting, offset)
sync_round address (asked (other e)) offset = (stopped (generic_network_error e), offset)

unfoldable pub start_syncing : String → List Tick → ℤ → SyncState × ℤ
start_syncing address [] offset = (waiting, offset)
start_syncing address (tick ∷ ticks) offset =
    let (state, offset') = sync_round address tick offset in
    elim state [ waiting ↦ start_syncing address ticks offset' | stopped e ↦ (stopped e, offset') ]

abbrev pub IsI64 : ℤ → Type 0
IsI64 z = (i64_min ≤ℤ z) × (z ≤ℤ i64_max)

stored-IsI64 :
    (secs nanos : ℕ) (local offset : ℤ) (r : Result TimeOracleError ℤ)
    → OffsetPost secs nanos local r
    → IsI64 offset
    → IsI64 (stored r offset).1
stored-IsI64 secs nanos local offset (ok z) post h = (post.2, post.3)
stored-IsI64 secs nanos local offset (err _) post h = h

sync_round-IsI64 :
    (address : String) (tick : Tick) (offset : ℤ)
    → IsI64 offset
    → IsI64 (sync_round address tick offset).1
unfolding sync_round
sync_round-IsI64 address (asked (time secs nanos local)) offset h =
    stored-IsI64 secs nanos local offset _ (compute_offset-OffsetPost secs nanos local) h
sync_round-IsI64 address (asked network) offset h = h
sync_round-IsI64 address (asked address_resolve) offset h = h
sync_round-IsI64 address (asked (other e)) offset h = h
sync_round-IsI64 address (lookup_failed e) offset h = h
sync_round-IsI64 address no_address offset h = h

-- From a stored offset that is an `i64`, whatever the network answers, the stored offset is an
-- `i64`.
pub start_syncing-IsI64 :
    (address : String) (ticks : List Tick) (offset : ℤ)
    → IsI64 offset
    → IsI64 (start_syncing address ticks offset).1
unfolding start_syncing
start_syncing-IsI64 address [] offset h = h
start_syncing-IsI64 address (tick ∷ ticks) offset h = ground (
  arith,
  sync_round-IsI64 address tick offset h,
  start_syncing-IsI64 address ticks (sync_round address tick offset).1,
)

-- An answer that the worker only logs.
pub data IsTransient : Tick → Type 0 where
  network_down : IsTransient (asked network)
  unresolved : IsTransient (asked address_resolve)

-- A transient network problem, wherever it happens, leaves no trace in the worker.
pub start_syncing_skips :
    (address : String) (before after : List Tick) (tick : Tick) (offset : ℤ)
    → IsTransient tick
    → start_syncing address (before ++ tick ∷ after) offset
      ≡ start_syncing address (before ++ after) offset
unfolding start_syncing sync_round
start_syncing_skips address [] after tick offset network_down = refl
start_syncing_skips address [] after tick offset unresolved = refl
start_syncing_skips address (b ∷ before) after tick offset h =
    ground (arith, start_syncing_skips address before after tick (sync_round address b offset).1 h)
