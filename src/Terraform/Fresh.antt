-- ===== src/Terraform/Fresh.antt =====
-- The keys and certificates that terraform/src/lib.rs distributes where nothing is in its way.
use stss.Prelude.{
  All, ◌++◌, ◌≡◌, ◌≢◌, refl, arith, ap, ◌∙◌, true, false, none, List, [], ◌∷◌, String, ok, map_err,
  eq_iff,
}
use stss.Connection.Types.{contains}
use stss.Terraform.{Component, normal, FilePath, FileSystemName, join_to}
use stss.Terraform.Files.{
  Fs, Mount, Io, ◌>>=◌, create_dir, write, lift, exists_dir, content, has_parent,
}
use stss.Terraform.Keys.{Crates, Keys, KeyGenError, generate_keys}
use stss.Terraform.Quiet.{quiet, bind-ok, same_path_refl}
use stss.Terraform.Existing.{root, then_dir}
use stss.Terraform.Generator.{
  Generator, AnyServerFiles, create_dirs, distribute, generate_keys_and_distribute, mapped,
}

abbrev pub file_names : AnyServerFiles → List String
file_names f =
    f.tls_cert_name.name ∷ f.tls_key_name.name ∷ f.sign_pub_key_name.name
    ∷ f.sign_priv_key_name.name ∷ f.toml_name.name ∷ []

-- What `Generator` and `EnvironmentGeneratorBuilder` are given: names that are one normal component each, and
-- nothing else. `components` is `Path::components`.
pub record Layout : Type 0 where
  pub server_files : AnyServerFiles
  pub ca_files : AnyServerFiles
  pub client_toml : FileSystemName
  pub root_dir : String
  pub client : String
  pub server : String
  pub ca : String
  pub components : String → List Component
  pub plain_dirs : All (λ name. components name ≡ normal name ∷ []) (client ∷ server ∷ ca ∷ [])
  pub plain_files :
      All
        (λ name. components name ≡ normal name ∷ [])
        (client_toml.name ∷ file_names server_files ++ file_names ca_files)

abbrev pub inside : Layout → String → FilePath
inside l name = record { dir = l.root_dir; names = name ∷ [] }

abbrev pub generator_of : Layout → Generator
generator_of l = record {
  server_files = l.server_files;
  ca_files = l.ca_files;
  client_toml = l.client_toml;
  env = record {
    client_dir = inside l l.client;
    server_dir = inside l l.server;
    ca_dir = inside l l.ca;
    root_dir = l.root_dir;
  };
}

module _ (l : Layout) (crates : Crates) (show : FilePath → String) (mount : Mount) where
  abbrev pub g : Generator
  g = generator_of l

  -- The root directory can be made: what it is to stand in is there, and there is nothing at its path or
  -- below. The three directories in it have different names.
  pub record IsFresh (dirs : List FilePath) (files : List (FilePath × String)) : Type 0 where
    pub root_parent : contains l.root_dir mount.roots ≡ true
    pub no_dirs :
        (names : List String) → exists_dir (record { dir = l.root_dir; names = names }) dirs ≡ false
    pub no_files :
        (names : List String) → content (record { dir = l.root_dir; names = names }) files ≡ none
    pub ca_server : l.ca ≢ l.server
    pub ca_client : l.ca ≢ l.client
    pub server_client : l.server ≢ l.client

  abbrev pub all_dirs : List FilePath → List FilePath
  all_dirs dirs = g.env.client_dir ∷ g.env.server_dir ∷ g.env.ca_dir ∷ root g ∷ dirs

  -- The keys and certificates, the last one first.
  abbrev pub key_files : Keys → List (FilePath × String) → List (FilePath × String)
  key_files keys files =
      (join_to g.env.client_dir g.server_files.sign_pub_key_name, keys.server_rsa_pub_pem)
      ∷ (join_to g.env.client_dir g.ca_files.tls_cert_name, keys.ca_cert_pem)
      ∷ (join_to g.env.server_dir g.ca_files.tls_cert_name, keys.ca_cert_pem)
      ∷ (join_to g.env.server_dir g.server_files.sign_priv_key_name, keys.server_rsa_priv_pem)
      ∷ (join_to g.env.server_dir g.server_files.tls_cert_name, keys.server_tls_cert_pem)
      ∷ (join_to g.env.server_dir g.server_files.tls_key_name, keys.server_tls_key_pem)
      ∷ (join_to g.env.ca_dir g.ca_files.tls_cert_name, keys.ca_cert_pem)
      ∷ (join_to g.env.ca_dir g.ca_files.tls_key_name, keys.ca_key_pem)
      ∷ files

  pub mapped-ok :
      {E F A : Type 0}
      → (f : E → F) (m : Io E A) (s s' : Fs) (a : A) → m s ≡ (ok a, s')
      → mapped g crates show f m s ≡ (ok a, s')
  mapped-ok f m s s' a h = ap (λ o. (map_err f o.0, o.1)) h

  create_fresh :
      (p : FilePath) (dirs : List FilePath) (files : List (FilePath × String))
      → has_parent p (quiet mount dirs files) ≡ true
      → exists_dir p dirs ≡ false
      → content p files ≡ none
      → create_dir KeyGenError.io p (quiet mount dirs files) ≡ (ok tt, quiet mount (p ∷ dirs) files)
  unfolding create_dir
  create_fresh p dirs files parent no_dir no_file = rw parent (rw no_dir (rw no_file refl))

  after_dirs :
      (s : Fs) (m : Io KeyGenError (Unit {0})) (p : FilePath) (dirs : List FilePath)
      (files : List (FilePath × String))
      → m s ≡ (ok tt, quiet mount dirs files)
      → has_parent p (quiet mount dirs files) ≡ true
      → exists_dir p dirs ≡ false
      → content p files ≡ none
      → then_dir m p s ≡ (ok tt, quiet mount (p ∷ dirs) files)
  after_dirs s m p dirs files made parent no_dir no_file =
      bind-ok m (λ _. create_dir KeyGenError.io p) s (quiet mount dirs files) tt made
      ∙ create_fresh p dirs files parent no_dir no_file

  create_dirs-fresh :
      (dirs : List FilePath) (files : List (FilePath × String))
      → IsFresh dirs files
      → create_dirs g (quiet mount dirs files) ≡ (ok tt, quiet mount (all_dirs dirs) files)
  unfolding create_dirs create_dir exists_dir
  create_dirs-fresh dirs files h =
      let s = quiet mount dirs files in
      let at_root = create_dir KeyGenError.io (root g) in
      let with_ca = then_dir at_root g.env.ca_dir in
      let with_server = then_dir with_ca g.env.server_dir in
      let made = create_fresh (root g) dirs files h.root_parent (h.no_dirs []) (h.no_files []) in
      let ca_made =
        after_dirs s at_root g.env.ca_dir (root g ∷ dirs) files made
          (ground (arith, same_path_refl (root g))) (ground (arith, h.no_dirs (l.ca ∷ [])))
          (h.no_files (l.ca ∷ [])) in
      let server_made =
        after_dirs s with_ca g.env.server_dir (g.env.ca_dir ∷ root g ∷ dirs) files ca_made
          (ground (arith, same_path_refl (root g)))
          (ground (arith, h.no_dirs (l.server ∷ []), h.ca_server, eq_iff l.server l.ca))
          (h.no_files (l.server ∷ [])) in
      after_dirs s with_server g.env.client_dir (g.env.server_dir ∷ g.env.ca_dir ∷ root g ∷ dirs)
        files server_made (ground (arith, same_path_refl (root g)))
        (ground (
          arith,
          h.no_dirs (l.client ∷ []),
          h.ca_client,
          h.server_client,
          eq_iff l.client l.ca,
          eq_iff l.client l.server,
        ))
        (h.no_files (l.client ∷ []))

  pub in_ca : (dirs : List FilePath) → exists_dir g.env.ca_dir (all_dirs dirs) ≡ true
  unfolding exists_dir
  in_ca dirs = ground (arith, same_path_refl g.env.ca_dir)

  pub in_server : (dirs : List FilePath) → exists_dir g.env.server_dir (all_dirs dirs) ≡ true
  unfolding exists_dir
  in_server dirs = ground (arith, same_path_refl g.env.server_dir)

  pub in_client : (dirs : List FilePath) → exists_dir g.env.client_dir (all_dirs dirs) ≡ true
  unfolding exists_dir
  in_client dirs = ground (arith, same_path_refl g.env.client_dir)

  pub no_dir :
      (dirs : List FilePath) (files : List (FilePath × String)) (name : String)
      (file : FileSystemName)
      → IsFresh dirs files
      → exists_dir (join_to (inside l name) file) (all_dirs dirs) ≡ false
  unfolding exists_dir
  no_dir dirs files name file h = ground (arith, h.no_dirs (name ∷ file.name ∷ []))

  pub write-ok :
      {E : Type 0}
      → (io : String → E) (dirs : List FilePath) (before files : List (FilePath × String))
        (name : String) (file : FileSystemName) (text : String)
      → IsFresh dirs before
      → exists_dir (inside l name) (all_dirs dirs) ≡ true
      → write io (join_to (inside l name) file) text (quiet mount (all_dirs dirs) files)
        ≡ (ok tt, quiet mount (all_dirs dirs) ((join_to (inside l name) file, text) ∷ files))
  unfolding write
  write-ok io dirs before files name file text h parent =
      rw parent (rw (no_dir dirs before name file h) refl)

  distribute-quiet :
      (keys : Keys) (dirs : List FilePath) (files : List (FilePath × String))
      → IsFresh dirs files
      → distribute g keys (quiet mount (all_dirs dirs) files)
        ≡ (ok tt, quiet mount (all_dirs dirs) (key_files keys files))
  unfolding distribute write
  distribute-quiet keys dirs files fresh = ground (
    arith,
    in_ca dirs,
    in_server dirs,
    in_client dirs,
    no_dir dirs files l.ca l.ca_files.tls_key_name fresh,
    no_dir dirs files l.ca l.ca_files.tls_cert_name fresh,
    no_dir dirs files l.server l.server_files.tls_key_name fresh,
    no_dir dirs files l.server l.server_files.tls_cert_name fresh,
    no_dir dirs files l.server l.server_files.sign_priv_key_name fresh,
    no_dir dirs files l.server l.ca_files.tls_cert_name fresh,
    no_dir dirs files l.client l.ca_files.tls_cert_name fresh,
    no_dir dirs files l.client l.server_files.sign_pub_key_name fresh,
  )

  pub keys-written :
      (keys : Keys) (dirs : List FilePath) (files : List (FilePath × String))
      → IsFresh dirs files
      → generate_keys crates ≡ ok keys
      → generate_keys_and_distribute g crates show (quiet mount dirs files)
        ≡ (ok tt, quiet mount (all_dirs dirs) (key_files keys files))
  unfolding generate_keys_and_distribute
  keys-written keys dirs files fresh made =
      bind-ok (lift (generate_keys crates)) (λ keys. create_dirs g >>= λ _. distribute g keys)
        (quiet mount dirs files) (quiet mount dirs files) keys (rw made refl)
      ∙ bind-ok (create_dirs g) (λ _. distribute g keys) (quiet mount dirs files)
          (quiet mount (all_dirs dirs) files) tt (create_dirs-fresh dirs files fresh)
      ∙ distribute-quiet keys dirs files fresh
