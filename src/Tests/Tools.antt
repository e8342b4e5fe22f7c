-- ===== src/Tests/Tools.antt =====
-- The theorems on the clients and on the certification authority, with codecs that write the messages of the tests
-- as one byte.
use Prim.Native.String.{◌++◌ as append_text}
use stss.Prelude.{
  ℕ, zero, suc, ◌≡◌, refl, arith, true, false, none, some, List, [], ◌∷◌, ◌++◌, String, Result, ok,
  err, pos, show_i64, ltb_ℤ, str_eq, eq_iff, ◌&&◌, if◌then◌else◌,
}
use stss.Bytes.{to_be_bytes}
use stss.Protocol.{Request, Response, HistoryRecord, RsaSignature}
use stss.Protocol.Codec.{Codec}
use stss.Protocol.Timestamps.{new, as_be_bytes}
use stss.Protocol.Signing.{
  returned, sign_with_timestamp, combined_hash, finish_signature, expect_signature,
  signature_try_from,
}
use stss.Connection.Types.{Externals, SocketAddr, slow, Round, token_cancelled}
use stss.Connection.Handler.{guest}
use stss.Client.Exchange.{IsCodec}
use stss.Cli.{Action}
use stss.Cli.Print.{messages, output_file}
use stss.Cli.Link.{Fate, carried, Link, IsInSync, session}
use stss.Cli.Agreement.{session-IsInSync}
use stss.Cli.Proof.{SavedPost, hash_a_file-verify_a_hash}
use stss.Cli.Times.{Calendar, IsCalendar, time_str, time_str_no_date}
use stss.Config.Authority.{CaContext}
use stss.Authority.Messages
use stss.Authority.Messages.{CaCodec, certificate_sign}
use stss.Authority.{Rcgen, Frame}
use stss.Authority.Rekey.{CsrBuilder, RekeyClient}
use stss.Tests.Toy.{toy, toy_crypto, toy_pair, toy_hash, pad, tables}

abbrev written : Request → Result String (List ℕ)
written (Request.login name password) =
    if str_eq name "ada" && str_eq password "secret" then ok (0 ∷ []) else err "unsupported"
written Request.log_out = ok (1 ∷ [])
written Request.how_many_tokens_do_i_have = ok (2 ∷ [])
written _ = err "unsupported"

abbrev parsed : List ℕ → Result String Request
parsed (zero ∷ []) = ok (Request.login "ada" "secret")
parsed (suc zero ∷ []) = ok Request.log_out
parsed (suc (suc zero) ∷ []) = ok Request.how_many_tokens_do_i_have
parsed _ = err "unsupported"

abbrev response_bytes : Response → Result String (List ℕ)
response_bytes Response.ok = ok (0 ∷ [])
response_bytes Response.not_logged_in = ok (1 ∷ [])
response_bytes (Response.token_count n) = ok (2 ∷ n ∷ [])
response_bytes _ = err "unsupported"

abbrev received : List ℕ → Result String Response
received (zero ∷ []) = ok Response.ok
received (suc zero ∷ []) = ok Response.not_logged_in
received (suc (suc zero) ∷ n ∷ []) = ok (Response.token_count n)
received _ = err "unsupported"

abbrev codec : Codec
codec = record {
  serialize_request = written;
  deserialize_request = parsed;
  serialize_response = response_bytes;
  deserialize_response = received;
}

read_back : (r : Request) (b : List ℕ) → written r ≡ ok b → parsed b ≡ ok r
read_back (Request.login name password) b h =
    ground (arith, h, eq_iff name "ada", eq_iff password "secret")
read_back r b h = ground (arith, h)

reply_back : (r : Response) (b : List ℕ) → response_bytes r ≡ ok b → received b ≡ ok r
reply_back r b h = ground (arith, h)

codec-IsCodec : IsCodec codec
codec-IsCodec = record { requests = read_back; responses = reply_back }

abbrev externals : Externals
externals = record toy { codec = codec }

abbrev home : SocketAddr
home = record { ip = "10.0.0.7"; port = 4000 }

abbrev round : Round
round = record {
  polled = token_cancelled;
  salt = "salt";
  local_now = pos 1000;
  joined = true;
  send = ok tt;
}

abbrev fresh : Link
fresh = record {
  is_logged_in = false;
  phase = guest;
  shared = record {
    database = record { tables = tables; faults = [] };
    cancelled = false;
    logged_users = [];
    offset_nanos = pos 0;
  };
  alive = true;
}

abbrev evening : List (Action × Fate)
evening =
    (Action.login (some ("ada", "secret")), carried round)
    ∷ (Action.check_tokens, carried round)
    ∷ (Action.logout, carried round)
    ∷ (Action.exit, carried round)
    ∷ []

session-IsInSync_example : IsInSync (session externals true slow home evening fresh)
session-IsInSync_example =
    session-IsInSync externals true slow home evening fresh codec-IsCodec (λ alive. refl)

abbrev signature : RsaSignature
signature = record { bytes = (toy_hash.bytes ++ as_be_bytes (new 1005)) ++ pad }

made : sign_with_timestamp toy_crypto true toy_hash (new 1005) ≡ returned (ok signature)
unfolding sign_with_timestamp combined_hash finish_signature expect_signature signature_try_from
    as_be_bytes to_be_bytes
made = refl

abbrev encode : List ℕ → String
encode bytes = "hash"

abbrev decode : String → Result String (List ℕ)
decode text = ok toy_hash.bytes

hash_a_file-verify_a_hash_example :
    SavedPost toy_crypto encode decode true true toy_hash
      (new 1005)
      100
      (messages toy_crypto decode true
        (Action.hash_a_file true (ok tt) (ok toy_hash) (ok 100))
        (ok (Response.token toy_hash signature (new 1005))))
      (output_file
        (Action.hash_a_file true (ok tt) (ok toy_hash) (ok 100))
        (ok (Response.token toy_hash signature (new 1005))))
hash_a_file-verify_a_hash_example =
    hash_a_file-verify_a_hash toy_crypto encode decode true true toy_hash (new 1005) signature 100
      toy_pair refl (omega arith) made

abbrev dates : Calendar
dates = record {
  DateTime = ℕ;
  from_timestamp = λ s n. if ltb_ℤ (pos 8210266876799) s then none else some n;
  format = λ date text. text;
}

dates-IsCalendar : IsCalendar dates
dates-IsCalendar = record { from_timestamp_max = λ s n h. ground (arith, h) }

abbrev recent : HistoryRecord
recent = record { sign = signature; timestamp = new 1700000000000000000 }

time_str_no_date_example :
    time_str dates recent ≡ append_text "Invalid Epoch: " (show_i64 (pos 1700000000000000000))
time_str_no_date_example =
    time_str_no_date dates recent dates-IsCalendar (omega arith) (omega arith)

abbrev ca_sent : Messages.Response → Result String (List ℕ)
ca_sent (Messages.Response.ok pem_cert) =
    if str_eq pem_cert "pem" then ok (0 ∷ []) else err "unsupported"
ca_sent (Messages.can_not_sign_the_certificate reason) = err "unsupported"

abbrev ca_codec : CaCodec
ca_codec = record {
  serialize_request = λ r. elim r [ certificate_sign raw_cert ↦ ok raw_cert ];
  deserialize_request = λ bytes. ok (certificate_sign bytes);
  serialize_response = ca_sent;
  deserialize_response = λ bytes. ok (Messages.Response.ok "pem");
}

abbrev rcgen : Rcgen
rcgen = record {
  KeyPair = String;
  Issuer = String;
  SigningRequest = List ℕ;
  from_utf8 = λ bytes. ok "text";
  from_pem = λ text. ok text;
  from_ca_cert_pem = λ text key. ok key;
  from_der = λ bytes. ok bytes;
  signed_by = λ request issuer. ok "pem";
}

abbrev authority : CaContext
authority = record {
  address = record { ip = "127.0.0.1"; port = 8081 };
  ca_cert_pem = 1 ∷ [];
  ca_key_pem = 2 ∷ [];
}

abbrev frames : List (Frame rcgen ca_codec authority)
frames = (ok (7 ∷ []), ok tt) ∷ (ok (8 ∷ []), err "broken pipe") ∷ []

-- The same requests, with how sending the answers goes.
abbrev requests : List (List ℕ × Result String (Unit {0}))
requests = (7 ∷ [], ok tt) ∷ (8 ∷ [], err "broken pipe") ∷ []

abbrev builder : CsrBuilder
builder = record {
  KeyPair = String;
  CertificateParams = String;
  generate_for = ok "key";
  new = λ names. ok "params";
  push_organization_name = λ name params. params;
  push_common_name = λ name params. params;
  serialize_request = λ params key. ok (5 ∷ []);
}

abbrev renewal : RekeyClient
renewal = record {
  server_ip = "127.0.0.1";
  organization_name = "organization";
  server_name = "server";
  output = "cert.pem";
}
