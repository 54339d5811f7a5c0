-- ===== src/Tpmtls/Context/Methods.antt =====
-- tpmtls/tpm_context.go: the methods of the TLS context. They have value receivers, and NewTPMContext
-- hands the value itself out, so that each works on a copy, whose change no later call sees.
use suite_connector.Prelude.{
  ℕ, ◌≡◌, ◌↔◌, ◌∙◌, refl, ap, Bool, not, Option, none, some, List, [], ◌∷◌, ◌++◌, ◌==◌, arith,
  if◌then◌else◌, length,
}
use suite_connector.Prelude.Text.{Text}
use suite_connector.Tpmtls.Context.{
  TpmContext, closed, already_closed, bad_length, unsupported_hash, sign_failed, decrypt_failed,
  Answer, done, fault, panics, TpmUse, flushes, signs, decrypts, Libraries, sha256,
}

-- The configuration that TLSConfig gives: its certificate, whose private key is the context, and what
-- it takes from the other configuration.
pub record ContextTls : Type 0 where
  pub private_key : TpmContext
  pub certificate : Text
  pub root_cas : Text
  pub insecure_skip_verify : Bool
  pub cipher_suites : List ℕ
  pub max_version : ℕ

-- TLS_ECDHE_RSA_WITH_AES_128_GCM_SHA256, its ECDSA sibling, TLS_RSA_WITH_AES_128_CBC_SHA256, and
-- VersionTLS12
abbrev pub sha256_suites : List ℕ
sha256_suites = 49199 ∷ 49195 ∷ 60 ∷ []

abbrev pub version_tls12 : ℕ
version_tls12 = 771

module _ (lib : Libraries) where
  unfoldable pub sign_digest : Text → ℕ → TpmContext → List TpmUse × Answer Text
  sign_digest digest hash t = elim t.cfg.tpm_rw [
    | none ↦ ([], fault closed)
    | some w ↦ elim (lib.hash_size hash) [
      | none ↦ ([], panics)
      | some size ↦
          if not (length digest == size)
          then ([], fault bad_length)
          else if not (hash == sha256)
          then ([], fault unsupported_hash)
          else (
            signs w t.cached_key_context digest ∷ [],
            elim (lib.sign w t.cached_key_context digest) [
              | none ↦ fault sign_failed
              | some signature ↦ done signature
            ],
          )
    ]
  ]

  -- Public, with none for the key nil
  unfoldable pub public : TpmContext → Answer (Option ℕ)
  public t = elim t.cfg.tpm_rw [
    | none ↦ done none
    | some _ ↦ elim t.public_key [ none ↦ panics | some area ↦ done (lib.key area) ]
  ]

  unfoldable pub decrypt : Text → TpmContext → List TpmUse × Answer Text
  decrypt message t = elim t.cfg.tpm_rw [
    | none ↦ ([], fault closed)
    | some w ↦ (
      decrypts w t.cached_key_context message ∷ [],
      elim (lib.rsa_decrypt w t.cached_key_context message) [
        | none ↦ fault decrypt_failed
        | some plain ↦ done plain
      ],
    )
  ]

-- Close: the copy as it leaves it, the uses and the reader and writer that it gives back.
unfoldable pub close_context : TpmContext → TpmContext × List TpmUse × Answer ℕ
close_context t = elim t.cfg.tpm_rw [
  | none ↦ (t, [], fault already_closed)
  | some w ↦ (
    record t { public_key = none; cached_key_context = 0; cfg = record (t.cfg) { tpm_rw = none } },
    flushes w t.cached_key_context ∷ [],
    done w,
  )
]

-- TLSConfig, with none for nil; without the other configuration it panics.
unfoldable pub tls_config : TpmContext → Answer (Option ContextTls)
tls_config t = elim t.cfg.tpm_rw [
  | none ↦ done none
  | some _ ↦ elim t.cfg.ext_tls_config [
    | none ↦ panics
    | some ext ↦ done (
        some (record {
          private_key = t;
          certificate = t.x509_certificate;
          root_cas = ext.root_cas;
          insecure_skip_verify = ext.insecure_skip_verify;
          cipher_suites = sha256_suites;
          max_version = version_tls12;
        }))
  ]
]

-- Calls on a context, and their answers with what they ask of the TPM.
pub data ContextCall : Type 0 where
  signs_digest : Text → ℕ → ContextCall
  decrypts_message : Text → ContextCall
  closes_context : ContextCall

pub data ContextAnswer : Type 0 where
  text : Answer Text → ContextAnswer
  stream : Answer ℕ → ContextAnswer

module _ (lib : Libraries) where
  unfoldable pub call : ContextCall → TpmContext → List TpmUse × ContextAnswer
  unfolding sign_digest decrypt close_context
  call (signs_digest digest hash) t =
      let (uses, r) = sign_digest lib digest hash t in (uses, text r)
  call (decrypts_message message) t = let (uses, r) = decrypt lib message t in (uses, text r)
  call closes_context t = let (_, uses, r) = close_context t in (uses, stream r)

  -- The caller's context is the same in each call.
  unfoldable pub calls : List ContextCall → TpmContext → List (List TpmUse × ContextAnswer)
  unfolding call
  calls [] t = []
  calls (c ∷ cs) t = call c t ∷ calls cs t

calls-append :
    (lib : Libraries) (cs ds : List ContextCall) (t : TpmContext)
    → calls lib (cs ++ ds) t ≡ calls lib cs t ++ calls lib ds t
unfolding calls
calls-append lib [] ds t = refl
calls-append lib (c ∷ cs) ds t = ap (λ later. call lib c t ∷ later) (calls-append lib cs ds t)

-- On a context with a reader and writer, whatever has been called before, Close succeeds, also a second
-- time, when it flushes the key once more; and a context that is closed still asks the TPM to sign and
-- to decrypt with that key.
pub close_is_lost :
    (lib : Libraries) (t : TpmContext) (w : ℕ) (cs : List ContextCall) (digest message : Text)
    → t.cfg.tpm_rw ≡ some w
    → lib.hash_size sha256 ≡ some (length digest)
    → let key = t.cached_key_context in
      calls lib
        (cs
          ++ (closes_context
              ∷ closes_context
              ∷ signs_digest digest sha256
              ∷ decrypts_message message
              ∷ []))
        t
      ≡ calls lib cs t
        ++ ((flushes w key ∷ [], stream (done w))
            ∷ (flushes w key ∷ [], stream (done w))
            ∷ (
              signs w key digest ∷ [],
              text (elim (lib.sign w key digest) [ none ↦ fault sign_failed | some s ↦ done s ]),
            )
            ∷ (
              decrypts w key message ∷ [],
              text (elim (lib.rsa_decrypt w key message) [
                | none ↦ fault decrypt_failed
                | some plain ↦ done plain
              ]),
            )
            ∷ [])
unfolding calls call sign_digest decrypt close_context
close_is_lost lib t w cs digest message is_open size =
    let ds =
      closes_context
      ∷ closes_context
      ∷ signs_digest digest sha256
      ∷ decrypts_message message
      ∷ [] in
    calls-append lib cs ds t ∙ ap (λ later. calls lib cs t ++ later) (ground (arith, is_open, size))

-- The context signs a digest exactly if it has a reader and writer, the digest is as long as the hash
-- function's, that is SHA-256, and the TPM signs it; and the TPM is asked for nothing else.
pub sign_digest_iff :
    (lib : Libraries) (t : TpmContext) (digest signature : Text) (hash : ℕ)
    → ((sign_digest lib digest hash t).1 ≡ done signature) ↔ (
        (w : ℕ) × (t.cfg.tpm_rw ≡ some w)
        × (lib.hash_size hash ≡ some (length digest))
        × (hash ≡ sha256)
        × (lib.sign w t.cached_key_context digest ≡ some signature))
unfolding sign_digest
sign_digest_iff lib t digest signature hash = ground arith
