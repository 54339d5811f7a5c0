-- ===== src/Tpmtls/Context/Tests.antt =====
-- The properties at concrete inputs.
use suite_connector.Prelude.{◌≡◌, refl, true, Option, none, some, [], ◌∷◌, ℕ}
use suite_connector.Prelude.Text.{codes}
use suite_connector.Tpmtls.Context.{
  ContextOpts, TpmContext, Libraries, check_tls, check_opts, load_public_cert, load_keys_context,
  load_key, load_pub_key, after, set_up, new_tpm_context, done, fault, unread_public, loads,
  reads_public, sha256, flushes, signs, decrypts, decrypt_failed,
}
use suite_connector.Tpmtls.Context.Keys.{KeysOf, new_tpm_context_keys}
use suite_connector.Tpmtls.Context.Methods.{
  signs_digest, decrypts_message, closes_context, stream, text, call, calls, decrypt, close_is_lost,
}

-- A TPM that loads the key with the handle 7, and reads its public part if it can.
abbrev libraries : Option ℕ → Libraries
libraries area = record {
  read_file = λ name. some name;
  decode_pem = λ pem. some pem;
  parse_certificate = λ block. some block;
  unmarshal = λ blob. some blob;
  load = λ w parent pub_blob priv_blob. (7, true);
  read_public = λ w handle. area;
  key = λ a. some a;
  hash_size = λ hash. some 2;
  sign = λ w handle digest. some digest;
  rsa_decrypt = λ w handle message. none;
}

abbrev opts : ContextOpts
opts = record {
  tpm_rw = some 3;
  private_key_file = codes "key";
  public_key_file = codes "pub";
  storage_root_key_handle = 1;
  public_cert_file = codes "cert";
  ext_tls_config = some (record {
    certificates = [];
    cipher_suites = [];
    root_cas = codes "ca";
    insecure_skip_verify = true;
  });
}

abbrev context : TpmContext
context = record {
  cfg = opts;
  x509_certificate = codes "cert";
  public_key = some 9;
  cached_key_context = 7;
}

made : (new_tpm_context (libraries (some 9)) opts).1 ≡ done context
unfolding new_tpm_context check_opts check_tls set_up after load_public_cert load_keys_context
    load_key load_pub_key
made = refl

left :
    new_tpm_context (libraries none) opts ≡ (loads 3 7 ∷ reads_public 3 7 ∷ [], fault unread_public)
unfolding new_tpm_context check_opts check_tls set_up after load_public_cert load_keys_context
    load_key load_pub_key
left = refl

new_tpm_context_keys_example :
    KeysOf opts 3
      (new_tpm_context (libraries none) opts).0
      (new_tpm_context (libraries none) opts).1
new_tpm_context_keys_example = new_tpm_context_keys (libraries none) opts 3 refl

close_is_lost_example :
    calls
      (libraries none)
      (decrypts_message []
        ∷ closes_context
        ∷ closes_context
        ∷ signs_digest (1 ∷ 2 ∷ []) sha256
        ∷ decrypts_message []
        ∷ [])
      context
    ≡ (decrypts 3 7 [] ∷ [], text (fault decrypt_failed))
      ∷ (flushes 3 7 ∷ [], stream (done 3))
      ∷ (flushes 3 7 ∷ [], stream (done 3))
      ∷ (signs 3 7 (1 ∷ 2 ∷ []) ∷ [], text (done (1 ∷ 2 ∷ [])))
      ∷ (decrypts 3 7 [] ∷ [], text (fault decrypt_failed))
      ∷ []
unfolding calls call decrypt
close_is_lost_example =
    close_is_lost (libraries none) context 3 (decrypts_message [] ∷ []) (1 ∷ 2 ∷ []) [] refl refl
