-- ===== src/Logger/Output/Order.antt =====
-- The order of a map's entries does not show in what is exported.
use suite_connector.Prelude.{
  ℕ, ◌≡◌, ◌≢◌, ◌⊎◌, inl, inr, refl, sym, ap, ◌∙◌, true, Bool-cases, Option, some, [], ◌∷◌, arith,
}
use suite_connector.Prelude.Text.{Text, is_empty, text_eq, text_eq_iff}
use suite_connector.Prelude.Dict.{lookup, erase, IsMap, lookup-erase, erase-IsMap}
use suite_connector.Logger.Output.{
  Fields, text_le, insert_field, sort_fields, Logger, all_fields, log, log_at,
}

text_le_total : (s t : Text) → (text_le s t ≡ true) ⊎ (text_le t s ≡ true)
unfolding text_le
text_le_total [] t = inl refl
text_le_total (a ∷ s) [] = inr refl
text_le_total (a ∷ s) (b ∷ t) = ground (arith, text_le_total s t)

text_le_antisym : (s t : Text) → text_le s t ≡ true → text_le t s ≡ true → s ≡ t
unfolding text_le
text_le_antisym [] [] h k = refl
text_le_antisym [] (b ∷ t) h k = absurd (ground (arith, k))
text_le_antisym (a ∷ s) [] h k = absurd (ground (arith, h))
text_le_antisym (a ∷ s) (b ∷ t) h k = ground (arith, text_le_antisym s t)

text_le_trans : (s t u : Text) → text_le s t ≡ true → text_le t u ≡ true → text_le s u ≡ true
unfolding text_le
text_le_trans [] t u h k = refl
text_le_trans (a ∷ s) [] u h k = absurd (ground (arith, h))
text_le_trans (a ∷ s) (b ∷ t) [] h k = absurd (ground (arith, k))
text_le_trans (a ∷ s) (b ∷ t) (c ∷ u) h k = ground (arith, text_le_trans s t u)

insert_field-exchange :
    (f g : Text × Text) (fs : Fields)
    → f.0 ≢ g.0
    → insert_field f (insert_field g fs) ≡ insert_field g (insert_field f fs)
unfolding insert_field
insert_field-exchange f g [] ne = ground (arith, ne, text_le_total f.0 g.0, text_le_antisym f.0 g.0)
insert_field-exchange f g (h ∷ hs) ne = ground (
  arith,
  ne,
  text_le_total f.0 g.0,
  text_le_antisym f.0 g.0,
  text_le_trans f.0 g.0 h.0,
  text_le_trans g.0 f.0 h.0,
  insert_field-exchange f g hs ne,
)

-- An entry of a map may be sorted in last.
sort_fields-erase :
    (k v : Text) (fs : Fields)
    → IsMap fs
    → lookup k fs ≡ some v
    → sort_fields fs ≡ insert_field (k, v) (sort_fields (erase k fs))
unfolding sort_fields lookup erase
sort_fields-erase k v [] once found = absurd (ground (arith, found))
sort_fields-erase k v ((j, w) ∷ fs) once found = elim (Bool-cases (text_eq j k)) [
  | inl same ↦
      let j_k : j ≡ k = (text_eq_iff j k).0 same in
      let w_v : w ≡ v = ground (arith, found, same) in rw same (cc (j_k, w_v))
  | inr other ↦
      let ne : j ≢ k = λ e. ground (arith, other, (text_eq_iff j k).1 e) in
      let rest = sort_fields-erase k v fs once.1 (ground (arith, found, other)) in
      rw other (
        ap (insert_field (j, w)) rest
        ∙ insert_field-exchange (j, w) (k, v) (sort_fields (erase k fs)) ne)
]

-- The two lists are the entries of the same map.
abbrev pub IsSameMap : Fields → Fields → Type 0
IsSameMap fs gs = IsMap fs × IsMap gs × ((k : Text) → lookup k fs ≡ lookup k gs)

IsSameMap-erase :
    (k v : Text) (fs gs : Fields) → IsSameMap ((k, v) ∷ fs) gs → IsSameMap fs (erase k gs)
unfolding lookup
IsSameMap-erase k v fs gs ((fresh, once), once', same) = (
  once,
  erase-IsMap k gs once',
  λ j. ground (arith, fresh, same j, lookup-erase k j gs once', text_eq_iff k j),
)

sort_fields_same : (fs gs : Fields) → IsSameMap fs gs → sort_fields fs ≡ sort_fields gs
unfolding sort_fields lookup
sort_fields_same [] [] same = refl
sort_fields_same [] ((j, w) ∷ gs) same = absurd (ground (arith, same.2 j, text_eq_iff j j))
sort_fields_same ((k, v) ∷ fs) gs same =
    let found : lookup k gs ≡ some v = ground (arith, same.2 k, text_eq_iff k k) in
    ap (insert_field (k, v)) (sort_fields_same fs (erase k gs) (IsSameMap-erase k v fs gs same))
    ∙ sym (sort_fields-erase k v gs same.1 found)

is_empty_same : (fs gs : Fields) → IsSameMap fs gs → is_empty fs ≡ is_empty gs
unfolding lookup
is_empty_same [] [] same = refl
is_empty_same [] ((j, w) ∷ gs) same = absurd (ground (arith, same.2 j, text_eq_iff j j))
is_empty_same ((k, v) ∷ fs) [] same = absurd (ground (arith, same.2 k, text_eq_iff k k))
is_empty_same (f ∷ fs) (g ∷ gs) same = refl

-- Two loggers of the same level, with fields of their own or without, export the same for a message if
-- their own fields and those of the calls, put together, are the same map, in whatever orders Go walks
-- it.
pub log_at_same_map :
    (add : Fields → Fields → Fields) (level : ℕ) (l l' : Logger) (message : Text)
    (fs gs : Option Fields)
    → l.level ≡ l'.level
    → IsSameMap (all_fields add l.fields fs) (all_fields add l'.fields gs)
    → log_at add level l message fs ≡ log_at add level l' message gs
unfolding log_at log
log_at_same_map add level l l' message fs gs levels same =
    let sorted = sort_fields_same (all_fields add l.fields fs) (all_fields add l'.fields gs) same in
    let empty = is_empty_same (all_fields add l.fields fs) (all_fields add l'.fields gs) same in
    rw (log_at, log, levels, sorted, empty) refl
