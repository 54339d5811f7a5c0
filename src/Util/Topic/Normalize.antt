-- ===== src/Util/Topic/Normalize.antt =====
-- NormalizeTopic: the short and the long form of a request subscription have one normal form.
use suite_connector.Prelude.{
  ◌≤◌, ◌<◌, ◌≡◌, refl, true, false, [], ◌∷◌, ◌++◌, arith, length, length-append,
}
use suite_connector.Prelude.Text.{
  Text, codes, has_prefix, has_suffix, replace_first, Lacks, text_eq,
}
use suite_connector.Util.Topic.{normalize_topic}

text_eq_longer : (s t : Text) → length t < length s → text_eq s t ≡ false
unfolding text_eq
text_eq_longer [] t h = elim h [ ]
text_eq_longer (a ∷ s) [] h = refl
text_eq_longer (a ∷ s) (b ∷ t) h = ground (arith, text_eq_longer s t)

-- A suffix no longer than the last part is a suffix of it.
has_suffix-append : (s t p : Text) → length p ≤ length t → has_suffix (s ++ t) p ≡ has_suffix t p
unfolding has_suffix
has_suffix-append [] t p h = refl
has_suffix-append (a ∷ s) t p h =
    ground (arith, text_eq_longer (a ∷ (s ++ t)) p, length-append s t, has_suffix-append s t p h)

-- The old text begins with a slash and a `q`, and the device has no slash.
replace_first_request :
    (dev : Text)
    → Lacks b'/' dev
    → replace_first (dev ++ codes "/q/#") (codes "/q/#") (codes "/req/#") ≡ dev ++ codes "/req/#"
unfolding replace_first has_prefix
replace_first_request [] h = refl
replace_first_request (a ∷ dev) h = ground (arith, replace_first_request dev h.1)

long_request :
    (dev : Text)
    → Lacks b'/' dev
    → replace_first (codes "command//" ++ (dev ++ codes "/q/#")) (codes "/q/#") (codes "/req/#")
      ≡ codes "command//" ++ (dev ++ codes "/req/#")
unfolding replace_first has_prefix
long_request [] h = refl
long_request (a ∷ []) h = ground (arith, replace_first_request (a ∷ []) h)
long_request (a ∷ b ∷ dev) h = ground (arith, replace_first_request (a ∷ b ∷ dev) h)

has_suffix_short : has_suffix (codes "/q/#") (codes "/q/#") ≡ true
unfolding has_suffix
has_suffix_short = refl

has_suffix_long : has_suffix (codes "/req/#") (codes "/q/#") ≡ false
unfolding has_suffix
has_suffix_long = refl

-- A short request filter of a device with no slash in its name normalizes to the long one.
pub normalize_topic-short :
    (dev : Text)
    → Lacks b'/' dev
    → normalize_topic (codes "c//" ++ (dev ++ codes "/q/#"))
      ≡ codes "command//" ++ (dev ++ codes "/req/#")
unfolding normalize_topic
normalize_topic-short dev h =
    unfold replace_first has_prefix in
    rw
      (
        has_suffix-append (codes "command//" ++ dev) (codes "/q/#") (codes "/q/#") (omega arith),
        has_suffix_short,
      )
      (long_request dev h)

-- The long request filter of any device is its own normal form.
pub normalize_topic-long :
    (dev : Text)
    → normalize_topic (codes "command//" ++ (dev ++ codes "/req/#"))
      ≡ codes "command//" ++ (dev ++ codes "/req/#")
unfolding normalize_topic
normalize_topic-long dev =
    unfold has_prefix in
    rw (
      has_suffix-append (codes "command//" ++ dev) (codes "/req/#") (codes "/q/#") (omega arith),
      has_suffix_long,
    )
