-- ===== src/Prelude/Dict.antt =====
-- Go maps with text keys, as lists of their entries.
use suite_connector.Prelude.{◌≡◌, refl, Option, none, some, List, [], ◌∷◌, arith, if◌then◌else◌}
use suite_connector.Prelude.Text.{Text, text_eq, text_eq_iff}

module _ {V : Type 0} where
  unfoldable pub lookup : Text → List (Text × V) → Option V
  lookup k [] = none
  lookup k ((j, v) ∷ m) = if text_eq j k then some v else lookup k m

  unfoldable pub insert : Text → V → List (Text × V) → List (Text × V)
  insert k v [] = (k, v) ∷ []
  insert k v ((j, w) ∷ m) = if text_eq j k then (j, v) ∷ m else (j, w) ∷ insert k v m

  unfoldable pub erase : Text → List (Text × V) → List (Text × V)
  erase k [] = []
  erase k ((j, w) ∷ m) = if text_eq j k then m else (j, w) ∷ erase k m

  -- No key is listed twice.
  abbrev pub IsMap : List (Text × V) → Type 0
  IsMap [] = Unit
  IsMap ((j, v) ∷ m) = (lookup j m ≡ none) × IsMap m

  pub lookup-insert :
      (k j : Text) (v : V) (m : List (Text × V))
      → lookup j (insert k v m) ≡ (if text_eq k j then some v else lookup j m)
  unfolding lookup insert
  lookup-insert k j v [] = refl
  lookup-insert k j v ((i, w) ∷ m) =
      ground (arith, text_eq_iff k j, text_eq_iff i k, text_eq_iff i j, lookup-insert k j v m)

  pub lookup-erase :
      (k j : Text) (m : List (Text × V))
      → IsMap m
      → lookup j (erase k m) ≡ (if text_eq k j then none else lookup j m)
  unfolding lookup erase
  lookup-erase k j [] v = ground arith
  lookup-erase k j ((i, w) ∷ m) v =
      ground (arith, text_eq_iff k j, text_eq_iff i k, text_eq_iff i j, lookup-erase k j m v.1)

  pub insert-IsMap : (k : Text) (v : V) (m : List (Text × V)) → IsMap m → IsMap (insert k v m)
  unfolding insert
  insert-IsMap k v [] u = unfold lookup in (refl, tt)
  insert-IsMap k v ((j, w) ∷ m) u =
      ground
        (arith, insert-IsMap k v m u.1, lookup-insert k j v m, text_eq_iff j k, text_eq_iff k j)

  pub erase-IsMap : (k : Text) (m : List (Text × V)) → IsMap m → IsMap (erase k m)
  unfolding erase
  erase-IsMap k [] u = tt
  erase-IsMap k ((j, w) ∷ m) u = ground (arith, erase-IsMap k m u.1, lookup-erase k j m u.1)
