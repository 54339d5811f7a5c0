-- ===== src/Flags/Names.antt =====
-- Each flag that is set reaches its own field of the settings, and no other.
use suite_connector.Prelude.{
  ◌≡◌, refl, sym, ◌∙◌, ap, Bool, true, false, ◌||◌, ◌&&◌, subst, inl, inr, List, [], ◌∷◌, All,
  arith, if◌then◌else◌, Bool-cases,
}
use suite_connector.Prelude.Text.{replace_from, Text, codes, text_eq, text_eq_iff}
use suite_connector.Logger.{upper}
use suite_connector.Flags.{Flag, add, add_log, add_hub, add_tls, add_local_broker, copy_name}

-- The first letter in upper case.
abbrev pub upper_first : Text → Text
upper_first [] = []
upper_first (c ∷ s) = upper c ∷ s

-- The names of the flags, with those that are for no field.
abbrev pub names_of : List Flag → List Text
names_of [] = codes "configFile" ∷ codes "version" ∷ []
names_of (f ∷ fs) = f.name ∷ names_of fs

unfoldable pub known : List Text → Text → Bool
known [] n = false
known (m ∷ ms) n = text_eq m n || known ms n

-- The flag's name by the field that its key names.
unfoldable pub name_by_key : List Text → Text → Text
unfolding copy_name upper text_eq
name_by_key [] k = []
name_by_key (n ∷ ns) k = if text_eq (upper_first (copy_name n)) k then n else name_by_key ns k

-- A test on every entry.
abbrev pub every {ℓ} : {A : Type ℓ} → (A → Bool) → List A → Bool
every p [] = true
every p (x ∷ xs) = p x && every p xs

pub every-All {ℓ κ} :
    {A : Type ℓ} {P : A → Type κ} (p : A → Bool) (xs : List A)
    → ((x : A) → p x ≡ true → P x)
    → every p xs ≡ true
    → All P xs
every-All p [] holds h = tt
every-All p (x ∷ xs) holds h =
    (holds x (ground (arith, h)), every-All p xs holds (ground (arith, h)))

-- The key of each flag names the field that the flag sets.
abbrev pub IsNamed : Flag → Type 0
IsNamed f = upper_first (copy_name f.name) ≡ f.field

abbrev named : Flag → Bool
named f = text_eq (upper_first (copy_name f.name)) f.field

pub add-IsNamed : All IsNamed add
unfolding add add_log add_hub add_tls add_local_broker copy_name replace_from upper text_eq
add-IsNamed =
    every-All named add (λ f h. (text_eq_iff (upper_first (copy_name f.name)) f.field).0 h) refl

abbrev pub key : Text → Text
key n = upper_first (copy_name n)

abbrev is_back : Text → Bool
is_back n = text_eq (name_by_key (names_of add) (key n)) n

-- The key of a known flag gives its name back.
known-back :
    (ns : List Text) (n : Text)
    → every is_back ns ≡ true
    → known ns n ≡ true
    → name_by_key (names_of add) (key n) ≡ n
unfolding known
known-back [] n h k = absurd (ground (arith, k))
known-back (m ∷ ms) n h k = elim (Bool-cases (text_eq m n)) [
  | inl same ↦
      let m_n : m ≡ n = (text_eq_iff m n).0 same in
      let back : is_back m ≡ true = ground (arith, h) in
      subst (λ x. name_by_key (names_of add) (key x) ≡ x) m_n
        ((text_eq_iff (name_by_key (names_of add) (key m)) m).0 back)
  | inr other ↦ known-back ms n (ground (arith, h)) (ground (arith, k, other))
]

abbrev pub is_known : Text → Bool
is_known n = known (names_of add) n

all_back : every is_back (names_of add) ≡ true
unfolding add add_log add_hub add_tls add_local_broker copy_name replace_from upper name_by_key
    text_eq
all_back = refl

-- Two known flags with the same key are the same.
pub key_injective : (n m : Text) → is_known n ≡ true → is_known m ≡ true → key n ≡ key m → n ≡ m
key_injective n m hn hm e =
    sym (known-back (names_of add) n all_back hn)
    ∙ (ap (name_by_key (names_of add)) e ∙ known-back (names_of add) m all_back hm)
