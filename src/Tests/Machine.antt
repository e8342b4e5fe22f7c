-- ===== src/Tests/Machine.antt =====
-- A machine for the server and its tools to start on: files, sockets, certificates and a database whose values are
-- integers.
use stss.Prelude.{
  true, false, arith, none, some, [], ◌∷◌, String, ok, err, ℤ, pos, ltb_ℤ, leb_ℤ, if◌then◌else◌,
}
use stss.Net.{SocketAddr}
use stss.SafeRead.{File}
use stss.TimeOracle.Bundle.{Sockets, local, new_local}
use stss.Database.Schema.{failure}
use stss.Database.Open.{Columns, IsColumns, FileSystem, Answers, DataBaseLocation}
use stss.Server.{LogDestination, Platform, ServerContext}
use stss.Server.Build.{Disk}
use stss.Config.{Reader}
use stss.Tests.Toy.{toy, tables}

abbrev pub integers : Columns
integers = record {
  Cell = ℤ;
  to_i32 = λ z. if ltb_ℤ z (pos 2147483648) then ok z else err (failure "out of range");
  at_least_zero = leb_ℤ (pos 0);
}

pub integers-IsColumns : IsColumns integers
integers-IsColumns = record { to_i32_bounds = λ cell z h. ground arith }

abbrev pub answers : Answers integers
answers = record {
  connect = ok tt;
  initialize = ok tt;
  table_names = ok ("users" ∷ "history" ∷ []);
  is_err = λ query. false;
  audit = ok ("ada", pos 3) ∷ [];
}

abbrev pub files : FileSystem
files = record { exists = λ path. true; parent = λ path. none; create_dir_all = λ path. ok tt }

abbrev pub disk : Disk integers
disk = record { files = files; answers = answers; stored = record { tables = tables; faults = [] } }

abbrev pub platform : Platform
platform = record {
  CertificateDer = String;
  PrivateKeyDer = String;
  TlsAcceptor = String;
  externals = toy;
  with_single_cert = λ certs key. ok key;
  try_init = λ destination. ok tt;
  can_build = λ runtime. true;
}

abbrev pub here : SocketAddr
here = record { ip = "127.0.0.1"; port = 8080 }

abbrev pub context : ServerContext platform
context = record {
  address = here;
  runtime_context = record { working_threads = 4; cryptography_threads = 1 };
  key_context = record { tls_cert = "cert" ∷ []; tls_priv = "key"; tss_priv = true };
  time_oracle_type = local new_local;
  log_output = LogDestination.stdout;
  database_location = DataBaseLocation.disk "stss.db";
}

abbrev pub pem_file : File
pem_file = record { content = 7 ∷ []; metadata_len = ok 1; reads = []; reservable = ok tt }

-- Every file has one byte.
abbrev pub reader : Reader
reader = record {
  extension = λ path. some "pem";
  open_file = λ path. ok pem_file;
  from_utf8 = λ bytes. ok "text";
  parse_ip = λ text. ok text;
  parent = λ path. none;
  file_name = λ path. some path;
}

abbrev pub sockets : Sockets
sockets = record {
  to_socket_addrs = λ host port. ok (here ∷ []);
  bind = λ address. ok tt;
  set_nonblocking = ok tt;
}
