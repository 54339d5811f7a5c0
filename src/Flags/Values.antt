-- ===== src/Flags/Values.antt =====
-- flags/loglevel_value.go, url_value.go and string_slice_value.go: the flags with values of their own.
use suite_connector.Prelude.{
  ℕ, zero, suc, ◌-◌, ◌≡◌, ◌≢◌, refl, arith, Bool, true, false, ◌||◌, ◌&&◌, Option, none, some, List,
  [], ◌∷◌, ◌++◌, ◌==◌, All, leb, sym, ap, ◌∙◌, append_assoc, append-nil, if◌then◌else◌,
}
use suite_connector.Prelude.Text.{Text, is_empty}
use suite_connector.Logger.{level_string, parse_log_level, parse-level_string}

-- A flag's own value, whether it is provided, and the field that it sets.
pub record FlagVar (A : Type 0) : Type 0 where
  pub provided : Bool
  pub value : A
  pub setter : A

-- LogLevelV.Set, which takes each text.
unfoldable pub set_level : Text → FlagVar ℕ → Option (FlagVar ℕ)
set_level given f =
    let level = parse_log_level given in
    some (record { provided = true; value = level; setter = level })

-- URLV.Set, over the parser of addresses
unfoldable pub set_url : (Text → Bool) → Text → FlagVar Text → Option (FlagVar Text)
set_url parses given f =
    if parses given then some (record { provided = true; value = given; setter = given }) else none

-- U+1680, U+2000 to U+200A, U+2028, U+2029, U+202F, U+205F and U+3000
abbrev pub is_long_space : ℕ → ℕ → ℕ → Bool
is_long_space c d e =
    (c == 0xe1 && (d == 0x9a && e == 0x80))
    || ((c == 0xe2
          && ((d == 0x80 && ((leb 0x80 e && leb e 0x8a) || (e == 0xa8 || (e == 0xa9 || e == 0xaf))))
              || (d == 0x81 && e == 0x9f)))
        || (c == 0xe3 && (d == 0x80 && e == 0x80)))

-- The white space of unicode.IsSpace in UTF-8: how many bytes of it a text begins with, 0 for none. Its
-- first byte is never inside of another rune, so it is white space wherever it stands.
unfoldable pub space_width : Text → ℕ
space_width [] = 0
space_width (c ∷ []) = if c == b' ' || (leb 9 c && leb c 13) then 1 else 0
space_width (c ∷ d ∷ []) =
    if c == b' ' || (leb 9 c && leb c 13)
    then 1
    else if c == 0xc2 && (d == 0x85 || d == 0xa0)
    then 2
    else 0
space_width (c ∷ d ∷ e ∷ s) =
    if c == b' ' || (leb 9 c && leb c 13)
    then 1
    else if c == 0xc2 && (d == 0x85 || d == 0xa0)
    then 2
    else if is_long_space c d e
    then 3
    else 0

-- strings.Fields, with the bytes of white space that are still to be passed over, and the bytes of the
-- word that is being read, if there is one.
abbrev pub end_word : Option Text → List Text → List Text
end_word none ws = ws
end_word (some w) ws = w ∷ ws

abbrev pub add_byte : Option Text → ℕ → Text
add_byte none c = c ∷ []
add_byte (some w) c = w ++ c ∷ []

unfoldable pub fields_from : ℕ → Option Text → Text → List Text
unfolding space_width
fields_from n word [] = end_word word []
fields_from (suc n) word (c ∷ s) = fields_from n word s
fields_from zero word (c ∷ s) =
    let width = space_width (c ∷ s) in
    let rest = fields_from (width - 1) (if width == 0 then some (add_byte word c) else none) s in
    if width == 0 then rest else end_word word rest

abbrev pub fields : Text → List Text
fields s = fields_from 0 none s

-- strings.Join with a blank
unfoldable pub join : List Text → Text
join [] = []
join (w ∷ []) = w
join (w ∷ v ∷ ws) = w ++ (b' ' ∷ join (v ∷ ws))

-- StringSliceV: its value is the field that it sets.
unfoldable pub set_slice : Text → List Text → Option (List Text)
set_slice given f = if is_empty given then none else some (fields given)

unfoldable pub slice_string : List Text → Text
slice_string f = join f

-- A text without white space, at any of its positions.
abbrev pub IsSolid : Text → Type 0
IsSolid [] = Unit
IsSolid (c ∷ w) = (space_width (c ∷ w) ≡ 0) × IsSolid w

abbrev pub IsWord : Text → Type 0
IsWord w = IsSolid w × (w ≢ [])

-- What follows a word: nothing, or a blank.
abbrev IsStop : Text → Type 0
IsStop [] = Unit
IsStop (c ∷ s) = c ≡ b' '

-- A word that ends within a rune makes no white space with a blank behind it.
space_width-append :
    (c : ℕ) (w s : Text) → space_width (c ∷ w) ≡ 0 → IsStop s → space_width (c ∷ w ++ s) ≡ 0
unfolding space_width
space_width-append c [] [] h stop = h
space_width-append c [] (d ∷ []) h stop = ground (arith, h, stop)
space_width-append c [] (d ∷ e ∷ s) h stop = ground (arith, h, stop)
space_width-append c (d ∷ []) [] h stop = h
space_width-append c (d ∷ []) (e ∷ s) h stop = ground (arith, h, stop)
space_width-append c (d ∷ e ∷ w) s h stop = h

fields_from-word :
    (w s before : Text)
    → IsSolid w
    → IsStop s
    → fields_from 0 (some before) (w ++ s) ≡ fields_from 0 (some (before ++ w)) s
unfolding fields_from
fields_from-word [] s before h stop = simp append-nil
fields_from-word (c ∷ w) s before h stop =
    rw (fields_from, space_width-append c w s h.0 stop)
      (fields_from-word w s (before ++ c ∷ []) h.1 stop
        ∙ ap (λ word. fields_from 0 (some word) s) (append_assoc before (c ∷ []) w))

fields_word :
    (w s : Text) → IsWord w → IsStop s → fields_from 0 none (w ++ s) ≡ fields_from 0 (some w) s
unfolding fields_from
fields_word [] s h stop = absurd (h.1 refl)
fields_word (c ∷ w) s h stop =
    rw (fields_from, space_width-append c w s h.0.0 stop) (fields_from-word w s (c ∷ []) h.0.1 stop)

-- A blank ends the word.
fields_from-blank : (w s : Text) → fields_from 0 (some w) (b' ' ∷ s) ≡ w ∷ fields s
unfolding fields_from space_width
fields_from-blank w [] = refl
fields_from-blank w (c ∷ []) = refl
fields_from-blank w (c ∷ d ∷ s) = refl

fields-join : (ws : List Text) → All IsWord ws → fields (join ws) ≡ ws
unfolding join
fields-join [] h = unfold fields_from in refl
fields-join (w ∷ []) h =
    ap fields (sym (append-nil w)) ∙ (fields_word w [] h.0 tt ∙ unfold fields_from in refl)
fields-join (w ∷ v ∷ ws) h =
    fields_word w (b' ' ∷ join (v ∷ ws)) h.0 refl
    ∙ (fields_from-blank w (join (v ∷ ws)) ∙ ap (λ rest. w ∷ rest) (fields-join (v ∷ ws) h.1))

join-ne : (w : Text) (ws : List Text) → w ≢ [] → is_empty (join (w ∷ ws)) ≡ false
unfolding join
join-ne [] ws ne = absurd (ne refl)
join-ne (c ∷ w) [] ne = refl
join-ne (c ∷ w) (v ∷ ws) ne = refl

-- A list of words, which are not empty and have no white space, also none outside ASCII, that a flag
-- prints is set again, if there are words; and without words the text is refused.
pub set_slice-string :
    (ws f : List Text)
    → All IsWord ws
    → set_slice (slice_string ws) f ≡ (if is_empty ws then none else some ws)
unfolding set_slice slice_string
set_slice-string [] f h = unfold join in refl
set_slice-string (w ∷ ws) f h = rw (join-ne w ws h.0.1, fields-join (w ∷ ws) h) refl

-- What is printed for a level, and provided as a flag, sets that level, and 1 for what is none.
pub set_level-string :
    (level : ℕ) (f : FlagVar ℕ)
    → set_level (level_string level) f ≡ (
        let read = if leb 1 level && leb level 5 then level else 1 in
        some (record { provided = true; value = read; setter = read }))
unfolding set_level
set_level-string level f = rw (parse-level_string level) refl
