-- ===== src/Tpmtls/Context.antt =====
-- tpmtls/tpm_context.go: the TLS context whose key the TPM holds. Files, the PEM and X.509 parsers, the
-- hash functions of package crypto and the TPM itself are given; what is asked of the TPM is a list of
-- uses. A certificate is known by its raw bytes, readers and writers and public areas by numbers.
pub mod Keys
pub mod Methods
mod Tests
use suite_connector.Prelude.{
  ℕ, Bool, not, Option, none, some, List, [], ◌∷◌, ◌++◌, ◌==◌, if◌then◌else◌,
}
use suite_connector.Prelude.Text.{Text, is_empty}

pub record ExtTls : Type 0 where
  pub certificates : List Text
  pub cipher_suites : List ℕ
  pub root_cas : Text
  pub insecure_skip_verify : Bool

pub record ContextOpts : Type 0 where
  pub tpm_rw : Option ℕ
  pub private_key_file : Text
  pub public_key_file : Text
  pub storage_root_key_handle : ℕ
  pub public_cert_file : Text
  pub ext_tls_config : Option ExtTls

pub record TpmContext : Type 0 where
  pub cfg : ContextOpts
  pub x509_certificate : Text
  pub public_key : Option ℕ
  pub cached_key_context : ℕ

pub data ContextFault : Type 0 where
  no_rw no_root_key no_public_key no_private_key no_certificate : ContextFault
  no_ext_tls certificates_set cipher_suites_set : ContextFault
  unreadable_file undecoded unparsed not_marshalled : ContextFault
  load_failed unread_public bad_key : ContextFault
  closed already_closed bad_length unsupported_hash sign_failed decrypt_failed : ContextFault

pub data Answer {ℓ} (A : Type ℓ) : Type ℓ where
  done : A → Answer A
  fault : ContextFault → Answer A
  panics : Answer A

-- What is asked of the TPM over a reader and writer; keys are known by their handles.
pub data TpmUse : Type 0 where
  loads flushes reads_public : ℕ → ℕ → TpmUse
  signs decrypts : ℕ → ℕ → Text → TpmUse

-- What the libraries answer. The load of a key gives a handle also if it fails; hash_size is none where
-- package crypto panics.
pub record Libraries : Type 0 where
  pub read_file : Text → Option Text
  pub decode_pem : Text → Option Text
  pub parse_certificate : Text → Option Text
  pub unmarshal : Text → Option Text
  pub load : ℕ → ℕ → Text → Text → ℕ × Bool
  pub read_public : ℕ → ℕ → Option ℕ
  pub key : ℕ → Option ℕ
  pub hash_size : ℕ → Option ℕ
  pub sign : ℕ → ℕ → Text → Option Text
  pub rsa_decrypt : ℕ → ℕ → Text → Option Text

-- crypto.SHA256, as package crypto counts the hash functions
abbrev pub sha256 : ℕ
sha256 = 5

abbrev pub new_context : ContextOpts → TpmContext
new_context o = record { cfg = o; x509_certificate = []; public_key = none; cached_key_context = 0 }

-- The options that NewTPMContext refuses, in its order.
unfoldable pub check_tls : Option ExtTls → Option ContextFault
check_tls none = some no_ext_tls
check_tls (some tls) =
    if not (is_empty tls.certificates)
    then some certificates_set
    else if not (is_empty tls.cipher_suites)
    then some cipher_suites_set
    else none

unfoldable pub check_opts : ContextOpts → Option ContextFault
unfolding check_tls
check_opts o = elim o.tpm_rw [
  | none ↦ some no_rw
  | some w ↦
      if o.storage_root_key_handle == 0
      then some no_root_key
      else if is_empty o.public_key_file
      then some no_public_key
      else if is_empty o.private_key_file
      then some no_private_key
      else if is_empty o.public_cert_file
      then some no_certificate
      else check_tls o.ext_tls_config
]

-- The next stage, on the context of the one before.
unfoldable pub after :
    List TpmUse × Answer TpmContext
    → (TpmContext → List TpmUse × Answer TpmContext)
    → List TpmUse × Answer TpmContext
after (uses, done t) stage = let (more, r) = stage t in (uses ++ more, r)
after (uses, fault f) stage = (uses, fault f)
after (uses, panics) stage = (uses, panics)

module _ (lib : Libraries) where
  unfoldable pub load_public_cert : TpmContext → Answer TpmContext
  load_public_cert t = elim (lib.read_file t.cfg.public_cert_file) [
    | none ↦ fault unreadable_file
    | some pem ↦ elim (lib.decode_pem pem) [
      | none ↦ fault undecoded
      | some block ↦ elim (lib.parse_certificate block) [
        | none ↦ fault unparsed
        | some cert ↦ done (record t { x509_certificate = cert })
      ]
    ]
  ]

  -- tpm2.Load with its failure, which flushes the handle that it gives.
  unfoldable pub load_key : ℕ → Text → Text → TpmContext → List TpmUse × Answer TpmContext
  load_key w pub_blob priv_blob t =
      let (handle, loaded) = lib.load w t.cfg.storage_root_key_handle pub_blob priv_blob in
      if loaded
      then (loads w handle ∷ [], done (record t { cached_key_context = handle }))
      else (flushes w handle ∷ [], fault load_failed)

  unfoldable pub load_keys_context : ℕ → TpmContext → List TpmUse × Answer TpmContext
  unfolding load_key
  load_keys_context w t =
      if not (t.cached_key_context == 0)
      then ([], done t)
      else elim (lib.read_file t.cfg.private_key_file) [
        | none ↦ ([], fault unreadable_file)
        | some priv ↦ elim (lib.read_file t.cfg.public_key_file) [
          | none ↦ ([], fault unreadable_file)
          | some pb ↦ elim (lib.unmarshal pb) [
            | none ↦ ([], fault not_marshalled)
            | some pub_blob ↦ elim (lib.unmarshal priv) [
              | none ↦ ([], fault not_marshalled)
              | some priv_blob ↦ load_key w pub_blob priv_blob t
            ]
          ]
        ]
      ]

  unfoldable pub load_pub_key : ℕ → TpmContext → List TpmUse × Answer TpmContext
  load_pub_key w t = elim t.public_key [
    | some _ ↦ ([], done t)
    | none ↦
        let uses = reads_public w t.cached_key_context ∷ [] in
        elim (lib.read_public w t.cached_key_context) [
          | none ↦ (uses, fault unread_public)
          | some area ↦ elim (lib.key area) [
            | none ↦ (uses, fault bad_key)
            | some _ ↦ (uses, done (record t { public_key = some area }))
          ]
        ]
  ]

  -- The stages of NewTPMContext over a reader and writer.
  unfoldable pub set_up : ℕ → TpmContext → List TpmUse × Answer TpmContext
  set_up w t = after (after ([], load_public_cert t) (load_keys_context w)) (load_pub_key w)

  unfoldable pub new_tpm_context : ContextOpts → List TpmUse × Answer TpmContext
  new_tpm_context o = elim (check_opts o) [
    | some f ↦ ([], fault f)
    | none ↦ elim o.tpm_rw [ none ↦ ([], fault no_rw) | some w ↦ set_up w (new_context o) ]
  ]
