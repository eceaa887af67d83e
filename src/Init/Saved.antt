-- ===== src/Init/Saved.antt =====
-- The configuration file behind "init".
use lazyjack.Base.{
  ℕ, Bytes, List, [], ◌∷◌, ◌++◌, Option, some, true, false, ℤ, All, ◌≡◌, ◌≢◌, ◌⊎◌, refl, sym, ◌∙◌,
  ap, arith, str, trim, is_space, ok, Done, M, ◌>>=◌,
}
use lazyjack.Base.Affix.{size, size-append}
use lazyjack.Base.Split.{split}
use lazyjack.Base.Rules.{Keeps, Keeps->>=, Keeps-wrap, Keeps-if, Keeps-pure, Keeps-fail}
use lazyjack.Base.Yields.{Yields, Yields->>=, Yields-fact, Yields-wrap, Yields-keep, Yields-behind}
use lazyjack.World.{Os, Ran, succeeded, failed}
use lazyjack.World.Path.{join_path}
use lazyjack.Files.{get_file_contents, save_file_contents, exec_result, do_exec_command}
use lazyjack.Files.Laws.{FileLaws, save_file_contents-saved}
use lazyjack.Config.{Config, cert_area, node_of}
use lazyjack.EtcFiles.Yaml.{update_config_yaml_contents}
use lazyjack.Validate.Token.Shape.{
  IsToken, IsHash, validate_token_iff, validate_token_cert_hash_iff,
}
use lazyjack.Validate.General.{is_empty}
use lazyjack.Init

-- The six commands of "init": each writes a file of the area of the certificates, or none.
abbrev pub init_commands : Bytes → ℤ → Bytes → List (Bytes × List Bytes)
init_commands prefix id base =
    (str "openssl", Init.build_args_for_ca_key base)
    ∷ (str "openssl", Init.build_args_for_ca_cert prefix id base)
    ∷ (str "openssl", Init.build_args_for_x509_cert base)
    ∷ (str "openssl", Init.build_args_for_rsa base)
    ∷ (str "openssl", Init.build_args_for_ca_digest base)
    ∷ (str "kubeadm", str "token" ∷ str "generate" ∷ [])
    ∷ []

-- A command that leaves the file alone.
abbrev pub Spares :
    (o : Os) → (Bytes → o.World → Option Bytes) → Bytes → Bytes → List Bytes → Type 0
Spares o content file cmd args =
    (w : o.World) → content file (o.combined_output cmd args w).1 ≡ content file w

-- What "init" calls leaves the configuration file alone: it lies outside the area of the
-- certificates, where the commands write, and `chmod` changes no contents. The management
-- network has the given prefix, and the node the given ID.
pub record IsApart (o : Os) (content : Bytes → o.World → Option Bytes) (prefix : Bytes) (id : ℤ)
    (base file : Bytes) : Type 0 where
  pub remove_all_keeps : Keeps (content file) (o.remove_all (join_path base cert_area))
  pub mkdir_all_keeps : Keeps (content file) (o.mkdir_all (join_path base cert_area))
  pub commands_keep :
      All (λ (cmd, args). Spares o content file cmd args) (init_commands prefix id base)
  pub not_x509 : file ≢ Init.cert_file base (str "ca.x509")
  pub chmod_keeps : (f g : Bytes) (mode : ℕ) → Keeps (content g) (o.chmod f mode)

extract_token-IsToken : (input token : Bytes) → Init.extract_token input ≡ ok token → IsToken token
unfolding Init.extract_token
extract_token-IsToken input token h = ground (arith, validate_token_iff (trim is_space input) false)

-- A digest may also be empty.
abbrev pub IsDigest : Bytes → Type 0
IsDigest hash = (hash ≡ []) ⊎ IsHash hash

digest_of-IsDigest :
    (parts : List Bytes) (hash : Bytes) → Init.digest_of parts ≡ ok hash → IsDigest hash
unfolding Init.digest_of
digest_of-IsDigest [] hash h = cc
digest_of-IsDigest (a ∷ []) hash h = cc
digest_of-IsDigest (a ∷ b ∷ []) hash h =
    ground (arith, validate_token_cert_hash_iff (trim is_space b) true)
digest_of-IsDigest (a ∷ b ∷ c ∷ r) hash h = cc

extract_digest-IsDigest : (input hash : Bytes) → Init.extract_digest input ≡ ok hash → IsDigest hash
unfolding Init.extract_digest
extract_digest-IsDigest input hash h = digest_of-IsDigest (split b' ' input) hash h

-- The file's text before was `old`. Now it is that text with the credentials, and the backup has
-- the old one.
pub record HasCredentials (o : Os) (content : Bytes → o.World → Option Bytes) (file : Bytes)
    (before : Option Bytes) (w : o.World) : Type 0 where
  pub old : Bytes
  pub token : Bytes
  pub hash : Bytes
  pub had : before ≡ some old
  pub token_shape : IsToken token
  pub hash_shape : IsDigest hash
  pub new_text : content file w ≡ some (update_config_yaml_contents old token hash)
  pub backup_text : content (file ++ str ".bak") w ≡ some old

file-ne-backup : (file : Bytes) → file ≢ file ++ str ".bak"
unfolding str
file-ne-backup file h = absurd (omega (arith, ap size h, size-append file (str ".bak")))

module _ (o : Os) (content : Bytes → o.World → Option Bytes) (L : FileLaws o content) where
  -- Reading a file leaves its contents and has them as its value.
  get_file_contents-content :
      (file : Bytes) (x : Option Bytes)
      → Yields
          (get_file_contents o file)
          (λ s. content file s ≡ x)
          (λ d s. (content file s ≡ x) × (x ≡ some d))
  unfolding get_file_contents
  get_file_contents-content file x = Yields-wrap _ (record {
    yielded = λ s d p e. (L.read_keeps file file s ∙ p, sym p ∙ L.read_content file s d e);
  })

  save_file_contents-content :
      (new file backup : Bytes) (x : Option Bytes) (old : Bytes)
      → file ≢ backup
      → x ≡ some old
      → Yields
          (save_file_contents o new file backup)
          (λ s. content file s ≡ x)
          (λ _ s. (content file s ≡ some new) × (content backup s ≡ some old))
  save_file_contents-content new file backup x old ne known = record {
    yielded = λ s _ p e.
        let saved = save_file_contents-saved o content L new file backup s ne e in
        (saved.0, rw (p, known) at (saved.1));
  }

  update_config_yaml-content :
      (file token hash : Bytes) (x : Option Bytes)
      → ((f g : Bytes) (mode : ℕ) → Keeps (content g) (o.chmod f mode))
      → Yields
          (Init.update_config_yaml o file token hash)
          (λ s. content file s ≡ x)
          (λ _ s.
            (old : Bytes) × (x ≡ some old)
            × (content file s ≡ some (update_config_yaml_contents old token hash))
            × (content (file ++ str ".bak") s ≡ some old))
  unfolding Init.update_config_yaml Init.open_permissions
  update_config_yaml-content file token hash x still =
      let backup = file ++ str ".bak" in
      let both : (f : Bytes)
          → Keeps (λ s. (content file s, content backup s)) (Init.open_permissions o f) =
        λ f. Keeps-wrap _ (record {
          kept_part =
              λ s i. ((still f file 0o777).kept_part s i, (still f backup 0o777).kept_part s i);
        }) in
      Yields->>= (get_file_contents-content file x) λ old. Yields-fact λ known.
        Yields->>=
          (save_file_contents-content (update_config_yaml_contents old token hash) file backup x old
            (file-ne-backup file) known)
          λ _.
            Yields->>=
              (Yields-keep
                (λ (c : Option Bytes × Option Bytes).
                  (c.0 ≡ some (update_config_yaml_contents old token hash)) × (c.1 ≡ some old))
                (both file))
              λ _. record {
                yielded = λ s a p e.
                    let q =
                      (Yields-keep
                          (λ (c : Option Bytes × Option Bytes).
                            (c.0 ≡ some (update_config_yaml_contents old token hash))
                            × (c.1 ≡ some old))
                          (both backup)).yielded
                        s a p e in
                    (old, known, q.0, q.1);
              }

  module _ (file : Bytes) where
    command-Keeps :
        (cmd : Bytes) (args : List Bytes)
        → Spares o content file cmd args
        → Keeps (content file) (do_exec_command o cmd args)
    unfolding do_exec_command
    command-Keeps cmd args spares = record {
      kept_part = λ w. output-state cmd args (o.combined_output cmd args w) ∙ spares w;
    }
      where
        output-state :
            (cmd : Bytes) (args : List Bytes) (r : Ran × o.World)
            → content file (exec_result o cmd args r).1 ≡ content file r.1
        output-state cmd args (succeeded out, w) = refl
        output-state cmd args (failed e out, w) = refl

    run_openssl-Keeps :
        (args : List Bytes) (what : Bytes)
        → Spares o content file (str "openssl") args
        → Keeps (content file) (Init.run_openssl o args what)
    unfolding Init.run_openssl
    run_openssl-Keeps args what spares =
        Keeps->>= (Keeps-wrap _ (command-Keeps (str "openssl") args spares)) (λ _. Keeps-pure)

  module _ (prefix : Bytes) (id : ℤ) (base file : Bytes)
      (apart : IsApart o content prefix id base file) where
    create_cert_key_area-Keeps : Keeps (content file) (Init.create_cert_key_area o base)
    unfolding Init.create_cert_key_area
    create_cert_key_area-Keeps =
        Keeps->>= (Keeps-wrap _ apart.remove_all_keeps) (λ _. Keeps-wrap _ apart.mkdir_all_keeps)

    create_x509_cert_for_ca-Keeps : Keeps (content file) (Init.create_x509_cert_for_ca o base)
    unfolding Init.create_x509_cert_for_ca Init.save_x509
    create_x509_cert_for_ca-Keeps =
        Keeps->>= (Keeps-wrap _ (command-Keeps file (str "openssl") _ (apart.commands_keep.1.1.0)))
          λ output. Keeps-if (is_empty output) Keeps-fail (
            Keeps-wrap _ (record { kept_part = λ w. L.write_keeps _ output file w apart.not_x509 }))

    module _ {R : Done → o.World → Type 0} where
      digest_then :
          (x : Option Bytes) (k : Bytes → M (o.World) Done)
          → ((hash : Bytes) → IsDigest hash → Yields (k hash) (λ s. content file s ≡ x) R)
          → Yields (Init.create_digest_for_ca o base >>= k) (λ s. content file s ≡ x) R
      unfolding Init.create_digest_for_ca
      digest_then x k next =
          Yields->>=
            (Yields-behind (λ y. y ≡ x)
              (Keeps-wrap _ (command-Keeps file (str "openssl") _ (apart.commands_keep.1.1.1.1.0)))
              λ output. record {
                yielded = λ s hash p e. (p, extract_digest-IsDigest output hash e);
              })
            λ hash. Yields-fact (next hash)

      token_then :
          (x : Option Bytes) (k : Bytes → M (o.World) Done)
          → ((token : Bytes) → IsToken token → Yields (k token) (λ s. content file s ≡ x) R)
          → Yields (Init.create_token o >>= k) (λ s. content file s ≡ x) R
      unfolding Init.create_token
      token_then x k next =
          Yields->>=
            (Yields-behind (λ y. y ≡ x)
              (Keeps-wrap _
                (command-Keeps file (str "kubeadm") _ (apart.commands_keep.1.1.1.1.1.0)))
              λ output. record {
                yielded = λ s token p e. (p, extract_token-IsToken output token e);
              })
            λ token. Yields-fact (next token)

  init_master-HasCredentials :
      (name : Bytes) (c : Config) (file : Bytes) (x : Option Bytes)
      → IsApart o content c.mgmt.info0.prefix (node_of name c).id c.general.work_area file
      → Yields
          (Init.init_master o name c file)
          (λ s. content file s ≡ x)
          (λ _. HasCredentials o content file x)
  unfolding Init.init_master Init.create_key_for_ca Init.create_certificate_for_ca
      Init.create_rsa_for_ca
  init_master-HasCredentials name c file x apart =
      let base = c.general.work_area in
      let prefix = c.mgmt.info0.prefix in
      let id = (node_of name c).id in
      let spared = apart.commands_keep in
      Yields-behind (λ y. y ≡ x) (create_cert_key_area-Keeps prefix id base file apart)
        λ _.
          Yields-behind (λ y. y ≡ x) (run_openssl-Keeps file _ _ (spared.0))
            λ _.
              Yields-behind (λ y. y ≡ x) (run_openssl-Keeps file _ _ (spared.1.0))
                λ _.
                  Yields-behind (λ y. y ≡ x)
                    (create_x509_cert_for_ca-Keeps prefix id base file apart)
                    λ _.
                      Yields-behind (λ y. y ≡ x) (run_openssl-Keeps file _ _ (spared.1.1.1.0))
                        λ _. digest_then prefix id base file apart x _ λ hash digest.
                          token_then prefix id base file apart x _ λ token shape. record {
                            yielded = λ s a p e.
                                let (old, known, now, kept) =
                                  (update_config_yaml-content file token hash x
                                      apart.chmod_keeps).yielded
                                    s a p e in
                                record {
                                  old = old;
                                  token = token;
                                  hash = hash;
                                  had = known;
                                  token_shape = shape;
                                  hash_shape = digest;
                                  new_text = now;
                                  backup_text = kept;
                                };
                          }

  -- If "init" succeeds on the master, the configuration file has its former text but for the token and
  -- the hash, which have their shapes or are an empty hash, and its backup has the former text;
  -- provided that the file lies apart from the area of the certificates and from what the six commands of "init" write.
  pub initialize-HasCredentials :
      (name : Bytes) (c : Config) (file : Bytes) (w : o.World)
      → IsApart o content c.mgmt.info0.prefix (node_of name c).id c.general.work_area file
      → (node_of name c).is_master ≡ true
      → (Init.initialize o name c file w).0 ≡ ok tt
      → HasCredentials o content file (content file w) (Init.initialize o name c file w).1
  unfolding Init.initialize
  initialize-HasCredentials name c file w apart master h = rw master (
      (init_master-HasCredentials name c file (content file w) apart).yielded w tt refl
        (rw master at h))
