-- ===== src/Tpmtls/Context/Keys.antt =====
-- What NewTPMContext loads into the TPM, and what it leaves there.
use suite_connector.Prelude.{
  ℕ, suc, ◌≡◌, refl, ◌⊎◌, inl, inr, none, some, Option-cases, List, sym, ◌≢◌, subst, [], ◌∷◌, ◌++◌,
  arith,
}
use suite_connector.Tpmtls.Context.{
  ContextOpts, TpmContext, ContextFault, unread_public, bad_key, Answer, done, fault, panics,
  TpmUse, loads, flushes, reads_public, Libraries, check_opts, load_public_cert, load_key,
  load_keys_context, load_pub_key, after, new_context, set_up, new_tpm_context,
}

unfoldable pub loaded : List TpmUse → ℕ
loaded [] = 0
loaded (loads w h ∷ us) = suc (loaded us)
loaded (_ ∷ us) = loaded us

unfoldable pub flushed : List TpmUse → ℕ
flushed [] = 0
flushed (flushes w h ∷ us) = suc (flushed us)
flushed (_ ∷ us) = flushed us

unfoldable pub KeysOf : ContextOpts → ℕ → List TpmUse → Answer TpmContext → Type 0
unfolding loaded flushed
KeysOf o w uses (done t) =
    (t.cfg ≡ o)
    × (uses ≡ loads w t.cached_key_context ∷ reads_public w t.cached_key_context ∷ [])
    × (t.public_key ≢ none)
KeysOf o w uses (fault f) =
    (loaded uses ≡ 0)
    ⊎ (((f ≡ unread_public) ⊎ (f ≡ bad_key)) × (loaded uses ≡ 1) × (flushed uses ≡ 0))
KeysOf o w uses panics = ⊥

-- A property of a stage that holds of the next one too.
module _ (P Q : List TpmUse → Answer TpmContext → Type 0) where
  after-lem :
      (first : List TpmUse × Answer TpmContext)
      (stage : TpmContext → List TpmUse × Answer TpmContext)
      → P first.0 first.1
      → ((uses : List TpmUse) (t : TpmContext)
          → P uses (done t)
          → Q (uses ++ (stage t).0) (stage t).1)
      → ((uses : List TpmUse) (f : ContextFault) → P uses (fault f) → Q uses (fault f))
      → ((uses : List TpmUse) → P uses panics → Q uses panics)
      → Q (after first stage).0 (after first stage).1
  unfolding after
  after-lem (uses, done t) stage p on_done on_fault on_panic = on_done uses t p
  after-lem (uses, fault f) stage p on_done on_fault on_panic = on_fault uses f p
  after-lem (uses, panics) stage p on_done on_fault on_panic = on_panic uses p

-- Nothing is loaded yet, over the reader and writer.
unfoldable Unloaded : ContextOpts → List TpmUse → Answer TpmContext → Type 0
Unloaded o uses (done t) =
    (t.cfg ≡ o) × (t.public_key ≡ none) × (t.cached_key_context ≡ 0) × (uses ≡ [])
Unloaded o uses (fault f) = uses ≡ []
Unloaded o uses panics = ⊥

-- The key is loaded, and no more.
unfoldable Loaded : ContextOpts → ℕ → List TpmUse → Answer TpmContext → Type 0
unfolding loaded
Loaded o w uses (done t) =
    (t.cfg ≡ o) × (t.public_key ≡ none) × (uses ≡ loads w t.cached_key_context ∷ [])
Loaded o w uses (fault f) = loaded uses ≡ 0
Loaded o w uses panics = ⊥

module _ (lib : Libraries) (o : ContextOpts) (w : ℕ) (t : TpmContext) where
  load_public_cert-Unloaded : Unloaded o [] (done t) → Unloaded o [] (load_public_cert lib t)
  unfolding load_public_cert Unloaded
  load_public_cert-Unloaded h = ground (arith, h)

  load_keys_context-Loaded :
      (uses : List TpmUse)
      → Unloaded o uses (done t)
      → Loaded o w (uses ++ (load_keys_context lib w t).0) (load_keys_context lib w t).1
  unfolding load_keys_context load_key Unloaded Loaded loaded
  load_keys_context-Loaded uses h =
      subst (λ us. Loaded o w (us ++ (load_keys_context lib w t).0) (load_keys_context lib w t).1)
        (sym h.3) (ground (arith, h))

  load_pub_key-KeysOf :
      (uses : List TpmUse)
      → Loaded o w uses (done t)
      → KeysOf o w (uses ++ (load_pub_key lib w t).0) (load_pub_key lib w t).1
  unfolding load_pub_key KeysOf Loaded loaded flushed
  load_pub_key-KeysOf uses h =
      subst (λ us. KeysOf o w (us ++ (load_pub_key lib w t).0) (load_pub_key lib w t).1) (sym h.2)
        (ground (arith, h))

set_up-KeysOf :
    (lib : Libraries) (o : ContextOpts) (w : ℕ)
    → KeysOf o w (set_up lib w (new_context o)).0 (set_up lib w (new_context o)).1
unfolding set_up Unloaded Loaded KeysOf loaded
set_up-KeysOf lib o w =
    let start : Unloaded o [] (done (new_context o)) = (refl, refl, refl, refl) in
    let certified : List TpmUse × Answer TpmContext = ([], load_public_cert lib (new_context o)) in
    let keyed = after certified (load_keys_context lib w) in
    let second : Loaded o w keyed.0 keyed.1 =
      after-lem (Unloaded o) (Loaded o w) certified (load_keys_context lib w)
        (load_public_cert-Unloaded lib o w (new_context o) start)
        (λ uses t h. load_keys_context-Loaded lib o w t uses h) (λ uses f h. ground (arith, h))
        (λ uses h. h) in
    after-lem (Loaded o w) (KeysOf o w) keyed (load_pub_key lib w) second
      (λ uses t h. load_pub_key-KeysOf lib o w t uses h) (λ uses f h. inl h) (λ uses h. h)

-- With a reader and writer, NewTPMContext gives a context that keeps the options, whose key was loaded
-- into the TPM once and its public part read; or it fails, and then no key is loaded, or the public part
-- of the one that is loaded cannot be read or used, and that key is left in the TPM.
pub new_tpm_context_keys :
    (lib : Libraries) (o : ContextOpts) (w : ℕ)
    → o.tpm_rw ≡ some w
    → KeysOf o w (new_tpm_context lib o).0 (new_tpm_context lib o).1
unfolding new_tpm_context KeysOf loaded flushed
new_tpm_context_keys lib o w given = elim (Option-cases (check_opts o)) [
  | inr (f, refused) ↦ ground (arith, refused, given)
  | inl accepted ↦ ground (arith, accepted, given, set_up-KeysOf lib o w)
]
