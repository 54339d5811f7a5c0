-- ===== src/Prelude/Text.antt =====
-- Go strings as lists of bytes, with the functions of package `strings` that the code calls.
use Prim.Native.Char.{code}
use Prim.Native.String.{String}
use suite_connector.Prelude.{
  ℕ, zero, suc, ◌-◌, ◌≡◌, refl, ◌≢◌, ◌↔◌, Bool, true, false, ◌&&◌, Option, none, some, List, [],
  ◌∷◌, ◌++◌, arith, ◌==◌, if◌then◌else◌, length, drop,
}

abbrev pub Text : Type 0
Text = List ℕ

-- The bytes of an ASCII literal.
abbrev pub codes : String → Text
codes String.[] = []
codes (String.◌∷◌ c s) = code c ∷ codes s

-- `s == t`
unfoldable pub text_eq : Text → Text → Bool
text_eq [] [] = true
text_eq (a ∷ s) (b ∷ t) = a == b && text_eq s t
text_eq _ _ = false

-- `len(s) == 0`
abbrev pub is_empty {ℓ} : {A : Type ℓ} → List A → Bool
is_empty [] = true
is_empty (_ ∷ _) = false

-- strings.HasPrefix
unfoldable pub has_prefix : Text → Text → Bool
has_prefix s [] = true
has_prefix [] (b ∷ p) = false
has_prefix (a ∷ s) (b ∷ p) = a == b && has_prefix s p

-- strings.HasSuffix
unfoldable pub has_suffix : Text → Text → Bool
unfolding text_eq
has_suffix [] p = is_empty p
has_suffix (a ∷ s) p = if text_eq (a ∷ s) p then true else has_suffix s p

-- strings.IndexRune, for an ASCII rune, with `none` for -1
unfoldable pub index_rune : Text → ℕ → Option ℕ
index_rune [] c = none
index_rune (a ∷ s) c =
    if a == c then some 0 else elim (index_rune s c) [ none ↦ none | some i ↦ some (suc i) ]

-- strings.Contains
unfoldable pub contains : Text → Text → Bool
unfolding has_prefix
contains [] p = is_empty p
contains (a ∷ s) p = if has_prefix (a ∷ s) p then true else contains s p

-- strings.Replace with the count 1, for a non-empty old text
unfoldable pub replace_first : Text → Text → Text → Text
unfolding has_prefix
replace_first [] old new = []
replace_first (a ∷ s) old new =
    if has_prefix (a ∷ s) old then new ++ drop (length old) (a ∷ s) else a ∷ replace_first s old new

-- strings.ReplaceAll, for a non-empty old text; `skip` bytes belong to the one replaced last.
unfoldable pub replace_from : Text → Text → ℕ → Text → Text
unfolding has_prefix
replace_from old new skip [] = []
replace_from old new (suc skip) (c ∷ s) = replace_from old new skip s
replace_from old new zero (c ∷ s) =
    let kept = replace_from old new 0 s in
    let replaced = replace_from old new (length old - 1) s in
    if has_prefix (c ∷ s) old then new ++ replaced else c ∷ kept

abbrev pub replace_all : Text → Text → Text → Text
replace_all s old new = replace_from old new 0 s

abbrev pub cons_head : ℕ → List Text → List Text
cons_head a [] = (a ∷ []) ∷ []
cons_head a (w ∷ ws) = (a ∷ w) ∷ ws

-- strings.Split at a separator of one byte
unfoldable pub split : Text → ℕ → List Text
split [] c = [] ∷ []
split (a ∷ s) c = let rest = split s c in if a == c then [] ∷ rest else cons_head a rest

-- The byte does not occur.
abbrev pub Lacks : ℕ → Text → Type 0
Lacks c [] = Unit
Lacks c (a ∷ s) = (a ≢ c) × Lacks c s

pub text_eq_iff : (s t : Text) → (text_eq s t ≡ true) ↔ (s ≡ t)
unfolding text_eq
text_eq_iff [] [] = ground arith
text_eq_iff [] (b ∷ t) = ground arith
text_eq_iff (a ∷ s) [] = ground arith
text_eq_iff (a ∷ s) (b ∷ t) = ground (arith, text_eq_iff s t)

pub text_eq_refl : (s : Text) → text_eq s s ≡ true
text_eq_refl s = (text_eq_iff s s).1 refl

pub has_prefix-append : (p s : Text) → has_prefix (p ++ s) p ≡ true
unfolding has_prefix
has_prefix-append [] s = refl
has_prefix-append (a ∷ p) s = ground (arith, has_prefix-append p s)

-- A text with a prefix is the prefix and the rest.
pub has_prefix-inv : (s p : Text) → has_prefix s p ≡ true → s ≡ p ++ drop (length p) s
unfolding has_prefix
has_prefix-inv s [] h = refl
has_prefix-inv [] (b ∷ p) h = cc
has_prefix-inv (a ∷ s) (b ∷ p) h = ground (arith, has_prefix-inv s p)

pub index_rune-append :
    (p s : Text) (c : ℕ) → Lacks c p → index_rune (p ++ c ∷ s) c ≡ some (length p)
unfolding index_rune
index_rune-append [] s c h = ground arith
index_rune-append (a ∷ p) s c h = ground (arith, index_rune-append p s c h.1)

pub split-append : (p s : Text) (c : ℕ) → Lacks c p → split (p ++ c ∷ s) c ≡ p ∷ split s c
unfolding split
split-append [] s c h = ground arith
split-append (a ∷ p) s c h = ground (arith, split-append p s c h.1)

pub split-Lacks : (p : Text) (c : ℕ) → Lacks c p → split p c ≡ p ∷ []
unfolding split
split-Lacks [] c h = refl
split-Lacks (a ∷ p) c h = ground (arith, split-Lacks p c h.1)

pub Lacks-append : (c : ℕ) (s t : Text) → Lacks c s → Lacks c t → Lacks c (s ++ t)
Lacks-append c [] t h k = k
Lacks-append c (a ∷ s) t h k = (h.0, Lacks-append c s t h.1 k)
