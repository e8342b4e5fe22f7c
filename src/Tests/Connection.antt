-- ===== src/Tests/Connection.antt =====
-- A server with one user, and the theorems on its connections at concrete requests.
use stss.Prelude.{
  ℕ, ◌≤◌, ◌≡◌, refl, true, false, none, some, List, [], ◌∷◌, String, Result, ok, err, pos, arith,
  ◌++◌, ◌+ℤ◌,
}
use stss.Bytes.{to_be_bytes}
use stss.Protocol.{Request, Response, RsaSignature}
use stss.Protocol.Limits.{credentials_length_error}
use stss.Protocol.Timestamps.{new, as_be_bytes}
use stss.Protocol.Signing.{
  returned, sign_with_timestamp, combined_hash, finish_signature, expect_signature,
  signature_try_from,
}
use stss.TimeOracle.{time_now, since_epoch}
use stss.Database.{verify_user_password}
use stss.Database.Schema.{find_user, has_record}
use stss.Database.Tokens.{Holds}
use stss.Database.Monad.{next_fault}
use stss.Database.Safety.{IsValid}
use stss.Connection.Types.{
  broken_pipe, thread_panic, IoError, SocketAddr, Session, slow, StsServerState, Round, frame,
  contains, connection_dropped, network,
}
use stss.Connection.{fetch_next_request, send_error_logger, answer, generate_timestamp_signature}
use stss.Connection.Requests.{handle_sign_hash}
use stss.Connection.Handler.{guest, in_session, guest_round, conn_round, send_response}
use stss.Connection.World.{World, Event, accepted, turn, run, held}
use stss.Connection.SignHash.{handle_sign_hash-SignPost}
use stss.Connection.Accounting.{SignPost}
use stss.Connection.Exclusion.{one_session_per_user, orphaned_lock_persists}
use stss.Connection.Validity.{run-IsValid}
use stss.Connection.Access.{EntryPost, guest_round-EntryPost}
use stss.Connection.Exit.{ExitPost, session_round-ExitPost, unsent_login_locks_out}
use stss.Connection.Refund.{handle_sign_hash_refunds}
use stss.Connection.Delivery.{handle_sign_hash_delivers}
use stss.Tests.Toy.{toy, toy_crypto, toy_pair, toy_hash, pad, tables, tables-IsValid, ada-Holds}

abbrev server : List String → StsServerState
server users = record {
  database = record { tables = tables; faults = [] };
  cancelled = false;
  logged_users = users;
  offset_nanos = pos 5;
}

abbrev home : SocketAddr
home = record { ip = "10.0.0.7"; port = 4000 }

abbrev round : List ℕ → Result IoError (Unit {0}) → Round
round bytes sent = record {
  polled = frame bytes;
  salt = "salt";
  local_now = pos 1000;
  joined = true;
  send = sent;
}

abbrev broken : IoError
broken = record { kind = broken_pipe; text = "broken pipe" }

handle_sign_hash-SignPost_example :
    SignPost toy_crypto true true "ada" toy_hash
      (since_epoch (time_now (pos 1000) (pos 5)))
      3
      []
      (server ("ada" ∷ [])).database
      (handle_sign_hash toy true slow "ada" (round (1 ∷ []) (ok tt)) toy_hash (server ("ada" ∷ [])))
handle_sign_hash-SignPost_example =
    handle_sign_hash-SignPost toy true true slow "ada" (round (1 ∷ []) (ok tt)) toy_hash 3
      (server ("ada" ∷ [])) toy_pair tables-IsValid ada-Holds

abbrev logins : List Event
logins =
    accepted home
    ∷ accepted home
    ∷ turn 0 (round (0 ∷ []) (ok tt))
    ∷ turn 1 (round (0 ∷ []) (ok tt))
    ∷ []

one_session_per_user_example :
    held "ada"
      (run toy true slow logins (record { connections = []; shared = server [] })).connections
    ≤ 1
one_session_per_user_example = one_session_per_user toy true slow "ada" logins (server [])

abbrev lonely : World
lonely = record {
  connections = record { address = home; phase = guest } ∷ [];
  shared = server ("ada" ∷ []);
}

ada_locked : contains "ada" ("ada" ∷ []) ≡ true
unfolding contains
ada_locked = refl

orphaned_lock_persists_example :
    let w' = run toy true slow logins lonely in
    (contains "ada" w'.shared.logged_users ≡ true) × (held "ada" w'.connections ≡ 0)
orphaned_lock_persists_example =
    orphaned_lock_persists toy true slow "ada" logins lonely ada_locked refl

run-IsValid_example : IsValid (run toy true slow logins lonely).shared.database.tables
run-IsValid_example = run-IsValid toy true slow logins lonely tables-IsValid

guest_round-EntryPost_example :
    EntryPost toy home
      (fetch_next_request toy home (frame (0 ∷ [])))
      (server [])
      (guest_round toy home (round (0 ∷ []) (ok tt)) (server []))
guest_round-EntryPost_example = guest_round-EntryPost toy home (round (0 ∷ []) (ok tt)) (server [])

abbrev session : Session
session = record { address = home; username = "ada" }

session_round-ExitPost_example : ExitPost session (server ("ada" ∷ [])) (
    conn_round toy true slow home
      (in_session session)
      (round (2 ∷ []) (ok tt))
      (server ("ada" ∷ [])))
session_round-ExitPost_example =
    session_round-ExitPost toy true slow home session (round (2 ∷ []) (ok tt)) (server ("ada" ∷ []))

fetched_login :
    fetch_next_request toy home (frame (0 ∷ [])) ≡ ok (some (Request.login "ada" "secret"))
unfolding fetch_next_request
fetched_login = refl

verified_login : (verify_user_password toy.hasher "ada" "secret" (server []).database).0 ≡ ok tt
unfolding verify_user_password find_user next_fault
verified_login = refl

short_login : credentials_length_error "ada" "secret" ≡ none
unfolding credentials_length_error
short_login = refl

nobody : contains "ada" [] ≡ false
unfolding contains
nobody = refl

unsent_answer :
    send_response toy (round (0 ∷ []) (err broken)) Response.ok ≡ err (network connection_dropped)
unfolding send_response send_error_logger
unsent_answer = refl

unsent_login_locks_out_example :
    let w : World = record {
      connections = record { address = home; phase = guest } ∷ [];
      shared = server [];
    } in
    let w' = run toy true slow (turn 0 (round (0 ∷ []) (err broken)) ∷ logins) w in
    (contains "ada" w'.shared.logged_users ≡ true) × (held "ada" w'.connections ≡ 0)
unsent_login_locks_out_example =
    unsent_login_locks_out toy true slow home (round (0 ∷ []) (err broken)) "ada" "secret" []
      (server []) (network connection_dropped) logins fetched_login short_login verified_login
      nobody unsent_answer refl

abbrev signature : RsaSignature
signature = record { bytes = (toy_hash.bytes ++ as_be_bytes (new 1005)) ++ pad }

clock : since_epoch (time_now (pos 1000) (pos 5)) ≡ some 1005
unfolding time_now ◌+ℤ◌
clock = refl

generated :
    generate_timestamp_signature toy_crypto slow true true toy_hash (new 1005)
    ≡ returned (ok signature)
unfolding generate_timestamp_signature sign_with_timestamp combined_hash finish_signature
    expect_signature signature_try_from as_be_bytes to_be_bytes
generated = refl

fresh : has_record "ada" (as_be_bytes (new 1005)) [] ≡ false
unfolding has_record
fresh = refl

handle_sign_hash_delivers_example :
    (handle_sign_hash toy true slow "ada" (round (1 ∷ []) (ok tt)) toy_hash (server ("ada" ∷ []))).0
    ≡ answer (Response.token toy_hash signature (new 1005)) false
handle_sign_hash_delivers_example =
    handle_sign_hash_delivers toy true slow "ada" (round (1 ∷ []) (ok tt)) toy_hash 3 1005 signature
      (server ("ada" ∷ [])) tables-IsValid.accounts ada-Holds (omega arith) refl clock generated
      fresh

abbrev lost_task : Round
lost_task = record {
  polled = frame (1 ∷ []);
  salt = "salt";
  local_now = pos 1000;
  joined = false;
  send = ok tt;
}

lost_signature :
    generate_timestamp_signature toy_crypto slow false true toy_hash (new 1005)
    ≡ returned (err thread_panic)
unfolding generate_timestamp_signature
lost_signature = refl

handle_sign_hash_refunds_example :
    let (a, st') = handle_sign_hash toy true slow "ada" lost_task toy_hash (server ("ada" ∷ [])) in
    (a ≡ answer (Response.operation_error "Error while performing the operation.") false)
    × Holds "ada" st'.database.tables 3
handle_sign_hash_refunds_example =
    handle_sign_hash_refunds toy true slow "ada" lost_task toy_hash 3 1005 thread_panic
      (server ("ada" ∷ [])) tables-IsValid ada-Holds (omega arith) refl clock lost_signature

abbrev visit : List Round
visit = round (0 ∷ []) (ok tt) ∷ round (1 ∷ []) (ok tt) ∷ round (2 ∷ []) (ok tt) ∷ []
