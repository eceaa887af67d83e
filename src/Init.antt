-- ===== src/Init.antt =====
-- init.go: the action "init", which makes the certificates, the token and the hash on the master.
pub mod Saved
use lazyjack.Base.{
  Bytes, List, [], ◌∷◌, ◌++◌, true, false, if◌then◌else◌, ℤ, show_int, str, quote, trim, is_space,
  Result, ok, err, panic, Done, M, ◌>>=◌, ◌>>◌, pure, fail, lift, wrap,
}
use lazyjack.Base.Split.{split}
use lazyjack.World.{Os}
use lazyjack.World.Path.{join_path}
use lazyjack.Files.{get_file_contents, save_file_contents, do_exec_command}
use lazyjack.Config.{Config, cert_area, node_of}
use lazyjack.EtcFiles.Yaml.{update_config_yaml_contents}
use lazyjack.Validate.Token.{validate_token, validate_token_cert_hash}
use lazyjack.Validate.General.{is_empty}

-- `filepath.Join(base, CertArea, name)`
abbrev pub cert_file : Bytes → Bytes → Bytes
cert_file base name = join_path (join_path base cert_area) name

unfoldable pub build_args_for_ca_key : Bytes → List Bytes
build_args_for_ca_key base =
    str "genrsa" ∷ str "-out" ∷ cert_file base (str "ca.key") ∷ str "2048" ∷ []

unfoldable pub build_args_for_ca_cert : Bytes → ℤ → Bytes → List Bytes
build_args_for_ca_cert mgmt_prefix id base =
    str "req"
    ∷ str "-x509"
    ∷ str "-new"
    ∷ str "-nodes"
    ∷ str "-key"
    ∷ cert_file base (str "ca.key")
    ∷ str "-subj"
    ∷ (str "/CN=" ++ mgmt_prefix ++ show_int id)
    ∷ str "-days"
    ∷ str "10000"
    ∷ str "-out"
    ∷ cert_file base (str "ca.crt")
    ∷ []

unfoldable pub build_args_for_x509_cert : Bytes → List Bytes
build_args_for_x509_cert base =
    str "x509" ∷ str "-pubkey" ∷ str "-in" ∷ cert_file base (str "ca.crt") ∷ []

unfoldable pub build_args_for_rsa : Bytes → List Bytes
build_args_for_rsa base =
    str "rsa"
    ∷ str "-pubin"
    ∷ str "-in"
    ∷ cert_file base (str "ca.x509")
    ∷ str "-outform"
    ∷ str "der"
    ∷ str "-out"
    ∷ cert_file base (str "ca.rsa")
    ∷ []

unfoldable pub build_args_for_ca_digest : Bytes → List Bytes
build_args_for_ca_digest base =
    str "dgst" ∷ str "-sha256" ∷ str "-hex" ∷ cert_file base (str "ca.rsa") ∷ []

-- `strings.Split` gave exactly two parts.
digest_of : List Bytes → Result Bytes
digest_of (a ∷ b ∷ []) = elim (validate_token_cert_hash (trim is_space b) true) [
  | ok _ ↦ ok (trim is_space b)
  | err e ↦ err e
  | panic ↦ panic
]
digest_of _ = err (str "unable to parse digest info for CA key")

unfoldable pub extract_digest : Bytes → Result Bytes
unfolding digest_of
extract_digest input = digest_of (split b' ' input)

unfoldable pub extract_token : Bytes → Result Bytes
extract_token input = elim (validate_token (trim is_space input) false) [
  | ok _ ↦ ok (trim is_space input)
  | err e ↦ err (str "internal error, token is malformed: " ++ e)
  | panic ↦ panic
]

module _ (o : Os) where
  unfoldable pub create_cert_key_area : Bytes → M (o.World) Done
  create_cert_key_area base = do
    let area = join_path base cert_area
    wrap (o.remove_all area) (λ e. str "unable to clear out certificate area: " ++ e)
    wrap (o.mkdir_all area)
        (λ e. str "unable to create area for certificates (" ++ area ++ str "): " ++ e)

  -- A command whose output is not used.
  run_openssl : List Bytes → Bytes → M (o.World) Done
  run_openssl args what =
      wrap (do_exec_command o (str "openssl") args) (λ e. what ++ e) >>= λ _. pure tt

  unfoldable pub create_key_for_ca : Bytes → M (o.World) Done
  unfolding run_openssl
  create_key_for_ca base =
      run_openssl (build_args_for_ca_key base) (str "unable to create CA key: ")

  unfoldable pub create_certificate_for_ca : Bytes → ℤ → Bytes → M (o.World) Done
  unfolding run_openssl
  create_certificate_for_ca mgmt_prefix id base =
      run_openssl (build_args_for_ca_cert mgmt_prefix id base)
        (str "unable to create CA certificate: ")

  -- An empty output is an error too; `%v` prints the nil error as `<nil>`.
  save_x509 : Bytes → Bytes → M (o.World) Done
  save_x509 base output =
      if is_empty output
      then fail (str "unable to create X509 cert: <nil>")
      else wrap (o.write_file (cert_file base (str "ca.x509")) output)
          (λ e. str "unable to save X509 cert for CA: " ++ e)

  unfoldable pub create_x509_cert_for_ca : Bytes → M (o.World) Done
  unfolding save_x509
  create_x509_cert_for_ca base = do
    output ←
        wrap (do_exec_command o (str "openssl") (build_args_for_x509_cert base))
          (λ e. str "unable to create X509 cert: " ++ e)
    save_x509 base output

  unfoldable pub create_rsa_for_ca : Bytes → M (o.World) Done
  unfolding run_openssl
  create_rsa_for_ca base =
      run_openssl (build_args_for_rsa base) (str "unable to create RSA key for CA: ")

  unfoldable pub create_digest_for_ca : Bytes → M (o.World) Bytes
  create_digest_for_ca base = do
    output ←
        wrap (do_exec_command o (str "openssl") (build_args_for_ca_digest base))
          (λ e. str "unable to create CA digest: " ++ e)
    lift (extract_digest output)

  unfoldable pub create_token : M (o.World) Bytes
  create_token = do
    token ←
        wrap (do_exec_command o (str "kubeadm") (str "token" ∷ str "generate" ∷ []))
          (λ e. str "unable to create shared token: " ++ e)
    lift (extract_token token)

  unfoldable pub open_permissions : Bytes → M (o.World) Done
  open_permissions name =
      wrap (o.chmod name 0o777)
        (λ e. str "unable to open permissions on " ++ quote name ++ str ": " ++ e)

  unfoldable pub update_config_yaml : Bytes → Bytes → Bytes → M (o.World) Done
  update_config_yaml file token hash = do
    let backup = file ++ str ".bak"
    contents ← get_file_contents o file
    save_file_contents o (update_config_yaml_contents contents token hash) file backup
    open_permissions file
    open_permissions backup

  -- `Initialize` on the master.
  init_master : Bytes → Config → Bytes → M (o.World) Done
  init_master name c config_file = do
    let base = c.general.work_area
    create_cert_key_area base
    create_key_for_ca base
    create_certificate_for_ca c.mgmt.info0.prefix (node_of name c).id base
    create_x509_cert_for_ca base
    create_rsa_for_ca base
    hash ← create_digest_for_ca base
    token ← create_token
    update_config_yaml config_file token hash

  unfoldable pub initialize : Bytes → Config → Bytes → M (o.World) Done
  unfolding init_master
  initialize name c config_file =
      if (node_of name c).is_master then init_master name c config_file else pure tt
