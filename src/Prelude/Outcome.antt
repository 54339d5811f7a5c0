-- ===== src/Prelude/Outcome.antt =====
-- How a Go call ends: with a value, with an error value, or in a run-time panic.
use suite_connector.Prelude.{
  ℕ, ◌≡◌, refl, ◌⊎◌, inl, inr, Bool, true, false, Option, none, some, if◌then◌else◌,
}
use suite_connector.Prelude.Text.{Text}

-- The errors that the modelled code makes, and `external` for those that a library hands it.
pub data Error : Type 0 where
  no_topic invalid_cloud_command closed timeout not_connected marshal_failed canceled : Error
  invalid_command_topic : Text → Error
  invalid_device : Text → Text → Error
  invalid_configuration : Text → Error
  external : ℕ → Error

pub data Outcome {ℓ} (A : Type ℓ) : Type ℓ where
  ok : A → Outcome A
  err : Error → Outcome A
  panic : Outcome A

infixl 5 ◌>>=◌ ◌>>◌
abbrev pub ◌>>=◌ {ℓ κ} : {A : Type ℓ} {B : Type κ} → Outcome A → (A → Outcome B) → Outcome B
ok a >>= f = f a
err e >>= f = err e
panic >>= f = panic

abbrev pub ◌>>◌ {ℓ} : {B : Type ℓ} → Outcome (Unit {0}) → Outcome B → Outcome B
m >> k = m >>= λ _. k

-- `if !c { return err }`
abbrev pub guard : Bool → Error → Outcome (Unit {0})
guard true e = ok tt
guard false e = err e

-- Access to an entry that may be missing: out of range is a panic.
abbrev pub or_panic {ℓ} : {A : Type ℓ} → Option A → Outcome A
or_panic none = panic
or_panic (some a) = ok a

-- A call that gives a value, or one that gives none.
pub Outcome-cases {ℓ} :
    {A : Type ℓ} (m : Outcome A)
    → ((a : A) × (m ≡ ok a)) ⊎ (((e : Error) × (m ≡ err e)) ⊎ (m ≡ panic))
Outcome-cases (ok a) = inl (a, refl)
Outcome-cases (err e) = inr (inl (e, refl))
Outcome-cases panic = inr (inr refl)

-- The call ends well, with a value that satisfies `P`.
pub data Yields {ℓ κ} {A : Type ℓ} (P : A → Type κ) : Outcome A → Type (ℓ ⊔ κ) where
  yields : {a : A} → P a → Yields P (ok a)

module _ {ℓ κ} {A : Type ℓ} {P : A → Type κ} where
  pub Yields-inv : {m : Outcome A} → Yields P m → (a : A) × (m ≡ ok a) × P a
  Yields-inv (yields p) = (_, refl, p)

  pub Yields-bind {ℓ' κ'} :
      {B : Type ℓ'} {Q : B → Type κ'} {m : Outcome A} {f : A → Outcome B}
      → ((a : A) → P a → Yields Q (f a))
      → Yields P m
      → Yields Q (m >>= f)
  Yields-bind k (yields p) = k _ p

  pub Yields-weaken {κ'} :
      {Q : A → Type κ'} {m : Outcome A} → ((a : A) → P a → Q a) → Yields P m → Yields Q m
  Yields-weaken k (yields p) = yields (k _ p)

  -- By the test, which each branch may use.
  pub Yields-test :
      {m n : Outcome A} (b : Bool)
      → (b ≡ true → Yields P m)
      → (b ≡ false → Yields P n)
      → Yields P (if b then m else n)
  Yields-test true hm hn = hm refl
  Yields-test false hm hn = hn refl
