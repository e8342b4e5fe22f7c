-- ===== src/Tests/Setup.antt =====
-- The theorems on the configuration of the server and on the generated environment, at a machine whose files
-- all have one byte.
use Prim.Native.String.{◌++◌}
use stss.Prelude.{◌≡◌, refl, true, false, none, some, [], ◌∷◌, String, ok, pos}
use stss.Protocol.Signing.{returned}
use stss.TimeOracle.Bundle.{TimeOracleType, synced, create_bundle, into_parts}
use stss.Connection.Types.{slow}
use stss.Database.Open.{memory, prepare, unchecked_build, initialize_db, build}
use stss.Server.{LogDestination, ServerContext, StsServer, multi_thread}
use stss.Server.Build.{
  set_up, on_runtime, expect_runtime, open_database, oracle_parts, from_bundle, signer_of,
  build_from_context,
}
use stss.SafeRead.{read_answered, read_take, next_chunk, read_chunks, safe_read_all, safe_read}
use stss.SafeRead
use stss.SafeRead.Total.{read_file}
use stss.Net.{from}
use stss.Config.{read, read_certs}
use stss.Config.Server.{
  Config, Pem, interval_in_seconds, log_destination, time_oracle_type, read_tls_key, read_tss_key,
  to_server_context,
}
use stss.Terraform.Fresh.{Layout, generator_of}
use stss.Terraform.{
  normal, Processor, x86_64, is_crypto_hardware_accelerated, FilePath, FileSystemName,
  heuristic_working_threads,
}
use stss.Terraform.Keys.{Crates}
use stss.Terraform.Generator.{Generator, AnyServerFiles, server_config}
use stss.Terraform.Default.{StartsAsGenerated, generated_server-StartsAsGenerated}
use stss.Terraform.Files.{Fs, Mount, exists_dir}
use stss.Terraform.Keys.{Keys}
use stss.Terraform.Complete.{Tomls}
use stss.Terraform.Existing.{Refused, generate_all-Refused}
use stss.Terraform.Generator.{generate_all}
use stss.Tests.Machine.{platform, reader, sockets, integers, integers-IsColumns, disk, here}

abbrev pem : Pem platform
pem = record {
  certs = λ bytes. ok "cert" ∷ [];
  private_key = λ bytes. ok (some "key");
  from_pkcs8_pem = λ text. ok true;
}

abbrev path : String → FilePath
path name = record { dir = "/sim"; names = "server_env" ∷ name ∷ [] }

abbrev name : String → FileSystemName
name text = record { name = text }

abbrev own_files : String → AnyServerFiles
own_files prefix = record {
  tls_cert_name = name (prefix ++ "cert.pem");
  tls_key_name = name (prefix ++ "key.pem");
  sign_pub_key_name = name (prefix ++ "pub.pem");
  sign_priv_key_name = name (prefix ++ "priv.pem");
  toml_name = name (prefix ++ "config.toml");
  given_prefix = name prefix;
}

abbrev layout : Layout
layout = record {
  server_files = own_files "server_";
  ca_files = own_files "ca_";
  client_toml = name "client.toml";
  root_dir = "/sim";
  client = "client_env";
  server = "server_env";
  ca = "ca_env";
  components = λ name. normal name ∷ [];
  plain_dirs = (refl, (refl, (refl, tt)));
  plain_files =
      (refl, (refl, (refl, (refl, (refl, (refl, (refl, (refl, (refl, (refl, (refl, tt)))))))))));
}

abbrev generator : Generator
generator = generator_of layout

abbrev old_cpu : Processor
old_cpu = record { target_arch = x86_64; is_feature_detected = λ name. false }

abbrev mount : Mount
mount = record { roots = "/sim" ∷ []; resolve = λ p. p }

abbrev crates : Crates
crates = record {
  KeyPair = String;
  CertificateParams = String;
  Certificate = String;
  Issuer = String;
  RsaPrivateKey = String;
  generate_ca = ok "ca";
  generate_server = ok "server";
  serialize_pem = λ k. k;
  new_params = λ names. ok "params";
  unconstrained_ca = λ p. p;
  push_names = λ organization name p. p;
  self_signed = λ p k. ok "certificate";
  issuer = λ p k. k;
  signed_by = λ p k i. ok "certificate";
  pem = λ c. c;
  new_rsa = ok "rsa";
  to_pkcs8_pem = λ k. ok k;
  to_public_key_pem = λ k. ok k;
  server_toml = λ c. ok "toml";
  client_toml = λ c. ok "toml";
  ca_toml = λ c. ok "toml";
}

abbrev config : Config
config =
    server_config generator crates (λ p. p.dir) (heuristic_working_threads old_cpu (some 12) none)
      (path "a") (path "b") (path "c") (path "d")

abbrev clock : TimeOracleType
clock = synced (record {
  oracle = record { offset_nanos = pos 0 };
  worker = record {
    ntp_server_addr = here;
    listener = record { ip = "0.0.0.0"; port = 0 };
    sync_interval = 300;
  };
})

abbrev context : ServerContext platform
context = record {
  address = here;
  runtime_context = record { working_threads = 3; cryptography_threads = 1 };
  key_context = record { tls_cert = "cert" ∷ []; tls_priv = "key"; tss_priv = true };
  time_oracle_type = clock;
  log_output = LogDestination.stdout;
  database_location = memory;
}

accepted : to_server_context platform reader sockets pem config ≡ ok context
unfolding to_server_context server_config heuristic_working_threads is_crypto_hardware_accelerated
    log_destination read_tls_key read_tss_key time_oracle_type interval_in_seconds create_bundle
    from read_certs read read_file safe_read safe_read_all read_chunks next_chunk read_take
    read_answered SafeRead.new
accepted = refl

abbrev server : StsServer platform
server = record {
  signer = slow;
  address = here;
  runtime = record { flavor = multi_thread 3; max_blocking_threads = some 1 };
  tls_acceptor = "key";
  signing_key = true;
  state = record {
    database = record { tables = record { users = []; history = [] }; faults = [] };
    cancelled = false;
    logged_users = [];
    offset_nanos = pos 0;
  };
  time_oracle_worker = some (record {
    ntp_server_addr = here;
    listener = record { ip = "0.0.0.0"; port = 0 };
    sync_interval = 300;
  });
}

started : build_from_context platform integers context disk ≡ returned (ok server)
unfolding build_from_context expect_runtime set_up on_runtime open_database oracle_parts from_bundle
    signer_of build unchecked_build prepare initialize_db into_parts
started = refl

generated_server-StartsAsGenerated_example :
    StartsAsGenerated platform reader sockets pem integers generator crates
      (λ p. p.dir)
      old_cpu
      server
generated_server-StartsAsGenerated_example =
    generated_server-StartsAsGenerated platform reader sockets pem integers generator crates
      (λ p. p.dir) old_cpu (some 12) (path "a") (path "b") (path "c") (path "d") context disk server
      integers-IsColumns accepted started

-- The directory of an earlier environment, with its key.
abbrev used : Fs
used = record {
  mount = mount;
  dirs = record { dir = "/sim"; names = [] } ∷ [];
  files = (path "key.pem", "old key") ∷ [];
  faults = [];
}

exists : exists_dir (record { dir = "/sim"; names = [] }) used.dirs ≡ true
unfolding exists_dir
exists = refl

generate_all-Refused_example :
    Refused used (generate_all generator crates (λ p. p.dir) old_cpu (some 12) used)
generate_all-Refused_example =
    generate_all-Refused generator crates (λ p. p.dir) old_cpu (some 12) used exists

abbrev keys : Keys
keys = record {
  ca_key_pem = "ca";
  ca_cert_pem = "certificate";
  server_tls_key_pem = "server";
  server_tls_cert_pem = "certificate";
  server_rsa_priv_pem = "rsa";
  server_rsa_pub_pem = "rsa";
}

abbrev tomls : Tomls layout crates (λ p. p.dir) mount old_cpu (some 12)
tomls = record {
  server_toml = "toml";
  client_toml = "toml";
  ca_toml = "toml";
  server_printed = refl;
  client_printed = refl;
  ca_printed = refl;
}
