-- ===== src/Flags/Precedence.antt =====
-- The settings of a field: the command line's, if its flag is set, and else those of before.
use suite_connector.Prelude.{
  ◌≡◌, ◌≢◌, refl, sym, ◌∙◌, ap, true, Option, Option-cases, none, some, inl, inr, ◌⊎◌, List, [],
  ◌∷◌, arith, Bool-cases,
}
use suite_connector.Prelude.Text.{Text, text_eq, text_eq_iff}
use suite_connector.Prelude.Dict.{lookup, insert, IsMap, lookup-insert}
use suite_connector.Flags.{Value, copy_name, copy_from, copy}
use suite_connector.Flags.Names.{upper_first, key, is_known, key_injective}

-- The flags of the entries are known.
abbrev pub AllKnown : List (Text × Value) → Type 0
AllKnown [] = Unit
AllKnown ((n, v) ∷ visited) = (is_known n ≡ true) × AllKnown visited

abbrev pub or_else {ℓ} : {A : Type ℓ} → Option A → Option A → Option A
or_else none b = b
or_else (some a) b = some a

copy_name_eq :
    (n m : Text)
    → is_known n ≡ true
    → is_known m ≡ true
    → text_eq (copy_name n) (copy_name m) ≡ text_eq n m
copy_name_eq n m hn hm = elim (Bool-cases (text_eq (copy_name n) (copy_name m))) [
  | inl same ↦
      let n_m =
        key_injective n m hn hm
          (ap upper_first ((text_eq_iff (copy_name n) (copy_name m)).0 same)) in
      same ∙ sym ((text_eq_iff n m).1 n_m)
  | inr other ↦ elim (Bool-cases (text_eq n m)) [
    | inr different ↦ other ∙ sym different
    | inl same ↦ absurd (
        ground (
          arith,
          other,
          (text_eq_iff (copy_name n) (copy_name m)).1 (ap copy_name ((text_eq_iff n m).0 same)),
        ))
  ]
]

-- What the map has under the key of a known flag.
copy_from-lookup :
    (visited m : List (Text × Value)) (n : Text)
    → IsMap visited
    → AllKnown visited
    → is_known n ≡ true
    → lookup (copy_name n) (copy_from visited m)
      ≡ or_else (lookup n visited) (lookup (copy_name n) m)
unfolding copy_from lookup
copy_from-lookup [] m n u k hn = refl
copy_from-lookup ((j, v) ∷ visited) m n u k hn = ground (
  arith,
  u.0,
  copy_from-lookup visited (insert (copy_name j) v m) n u.1 k.1 hn,
  lookup-insert (copy_name j) (copy_name n) v m,
  copy_name_eq j n k.0 hn,
  text_eq_iff j n,
)

-- What the map has is of a known flag.
copy_from-known :
    (visited m : List (Text × Value)) (k : Text) (w : Value)
    → AllKnown visited
    → lookup k (copy_from visited m) ≡ some w
    → ((n : Text) × (is_known n ≡ true) × (copy_name n ≡ k)) ⊎ (lookup k m ≡ some w)
unfolding copy_from
copy_from-known [] m k w hk found = inr found
copy_from-known ((j, v) ∷ visited) m k w hk found =
    elim (copy_from-known visited (insert (copy_name j) v m) k w hk.1 found) [
      | inl known ↦ inl known
      | inr earlier ↦ elim (Bool-cases (text_eq (copy_name j) k)) [
        | inl same ↦ inl (j, hk.0, (text_eq_iff (copy_name j) k).0 same)
        | inr other ↦ inr (ground (arith, earlier, other, lookup-insert (copy_name j) k v m))
      ]
    ]

copy-known :
    (visited : List (Text × Value)) (k : Text) (w : Value)
    → AllKnown visited
    → lookup k (copy visited) ≡ some w
    → (n : Text) × (is_known n ≡ true) × (copy_name n ≡ k)
unfolding lookup
copy-known visited k w hk found = elim (copy_from-known visited [] k w hk found) [
  | inl known ↦ known
  | inr nowhere ↦ absurd (ground (arith, nowhere))
]

-- What mergo.Map does with a map and a struct, whose fields are read by their names: an entry sets the
-- field of its name, with the first letter in upper case, if there is that field and no other entry is
-- for it; the fields without an entry stay.
pub record Merges {S : Type 0} (field : S → Text → Option Value)
    (merge : List (Text × Value) → S → Option S) : Type 0 where
  pub sets :
      (m : List (Text × Value)) (s s' : S) (k : Text) (v : Value)
      → merge m s ≡ some s'
      → lookup k m ≡ some v
      → ((j : Text) (w : Value) → lookup j m ≡ some w → upper_first j ≡ upper_first k → j ≡ k)
      → field s (upper_first k) ≢ none
      → field s' (upper_first k) ≡ some v
  pub keeps :
      (m : List (Text × Value)) (s s' : S) (name : Text)
      → merge m s ≡ some s'
      → ((j : Text) (w : Value) → lookup j m ≡ some w → upper_first j ≢ name)
      → field s' name ≡ field s name

module _ {S : Type 0} (field : S → Text → Option Value) (merge : List (Text × Value) → S → Option S)
    (merges : Merges field merge) (visited : List (Text × Value)) (n : Text) (once : IsMap visited)
    (all_known : AllKnown visited) (n_known : is_known n ≡ true) where
  own_key :
      (j : Text) (w : Value)
      → lookup j (copy visited) ≡ some w
      → upper_first j ≡ key n
      → j ≡ copy_name n
  own_key j w found same =
      let (m, m_known, m_j) = copy-known visited j w all_known found in
      let m_n = key_injective m n m_known n_known (ap upper_first m_j ∙ same) in
      sym m_j ∙ ap copy_name m_n

  -- Over a merge as mergo.Map's, for known flags, each set once: the field of a known flag is set to
  -- the flag's value if the flag is set, and stays as it was if not.
  pub merge-copy :
      (s s' : S)
      → merge (copy visited) s ≡ some s'
      → field s (key n) ≢ none
      → field s' (key n) ≡ or_else (lookup n visited) (field s (key n))
  unfolding lookup
  merge-copy s s' merged is_field = elim (Option-cases (lookup n visited)) [
    | inl unset ↦
        let missing : lookup (copy_name n) (copy visited) ≡ none =
          ground (arith, unset, copy_from-lookup visited [] n once all_known n_known) in
        rw unset (
          merges.keeps (copy visited) s s' (key n) merged
            (λ j w found same. cc (found, missing, own_key j w found same)))
    | inr (v, set) ↦
        let there : lookup (copy_name n) (copy visited) ≡ some v =
          ground (arith, set, copy_from-lookup visited [] n once all_known n_known) in
        rw set (merges.sets (copy visited) s s' (copy_name n) v merged there own_key is_field)
  ]
