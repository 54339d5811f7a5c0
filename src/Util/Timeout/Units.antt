-- ===== src/Util/Timeout/Units.antt =====
-- ParseTimeout reads a decimal count of minutes, seconds or milliseconds.
use suite_connector.Prelude.{
  ℕ, zero, suc, ◌+◌, ◌-◌, ◌*◌, ◌^◌, ◌<◌, ◌≡◌, ◌≢◌, refl, ap, ◌∙◌, true, some, List, [], ◌∷◌, ◌++◌,
  arith, leb, length, take, get_elem?, length-append, take-append, append_assoc, append-nil,
}
use suite_connector.Prelude.Int.{pos, ◌*ℤ◌}
use suite_connector.Prelude.Text.{Text, codes}
use suite_connector.Prelude.Outcome.{ok}
use suite_connector.Util.Timeout.{
  wrap64, digits_value, atoi, millisecond, second, minute, hour, in_timeout_range, scaled,
  byte_before, timeout_value, parse_timeout,
}

-- The text is a non-empty run of decimal digits with the value `v`.
abbrev pub IsDecimal : Text → ℕ → Type 0
IsDecimal ds v = (ds ≢ []) × (digits_value 0 ds ≡ some v)

wrap64_small : (v unit : ℕ) → v * unit < 2 ^ 63 → wrap64 (pos v *ℤ pos unit) ≡ pos (v * unit)
unfolding wrap64 ◌*ℤ◌
wrap64_small v unit h = ground arith

atoi_decimal : (ds : Text) (v : ℕ) → IsDecimal ds v → v < 2 ^ 63 → atoi ds ≡ some (pos v)
unfolding atoi
atoi_decimal [] v d h = absurd (d.0 refl)
atoi_decimal (c ∷ s) v d h = ground arith

scaled_decimal :
    (ds : Text) (v unit : ℕ)
    → IsDecimal ds v
    → 0 < unit
    → v * unit < hour
    → scaled ds unit ≡ pos (v * unit)
unfolding scaled
scaled_decimal ds v unit d u h =
    let small : v < 2 ^ 63 = grind arith in
    rw (atoi_decimal ds v d small, scaled) (wrap64_small v unit (omega arith))

get_elem?-append {ℓ} :
    {A : Type ℓ} (s t : List A) (i : ℕ) → get_elem? (s ++ t) (length s + i) ≡ get_elem? t i
get_elem?-append [] t i = ap (get_elem? t) (omega arith)
get_elem?-append (x ∷ s) t i =
    let e : suc (length s) + i ≡ suc (length s + i) = omega arith in rw e (get_elem?-append s t i)

byte_before-append : (s t : Text) (c k : ℕ) → length t + 1 ≡ k → byte_before (s ++ c ∷ t) k ≡ ok c
unfolding byte_before
byte_before-append s t c k h =
    let size = length-append s (c ∷ t) in
    let at : length (s ++ c ∷ t) - k ≡ length s + 0 = omega (arith, size) in
    let inside : leb k (length (s ++ c ∷ t)) ≡ true = ground (arith, size) in
    rw (inside, at, get_elem?-append s (c ∷ t) 0)

-- The last byte of a run of digits is a digit.
decimal_last :
    (c : ℕ) (ds : Text) (acc v : ℕ)
    → digits_value acc (c ∷ ds) ≡ some v
    → (x : ℕ) × (get_elem? (c ∷ ds) (length ds) ≡ some x) × (x ≢ b'm') × (x ≢ b's')
unfolding digits_value
decimal_last c [] acc v h = (c, refl, ground arith, ground arith)
decimal_last c (d ∷ ds) acc v h = decimal_last d ds (acc * 10 + (c - b'0')) v (ground arith)

byte_before_decimal :
    (ds : Text) (v : ℕ)
    → IsDecimal ds v
    → (x : ℕ) × (byte_before ds 1 ≡ ok x) × (x ≢ b'm') × (x ≢ b's')
unfolding byte_before
byte_before_decimal [] v d = absurd (d.0 refl)
byte_before_decimal (c ∷ ds) v d =
    let (x, e, m, s) = decimal_last c ds 0 v d.1 in
    let at : suc (length ds) - 1 ≡ length ds = omega arith in (x, rw at (ground (arith, e)), m, s)

in_range : (n : ℕ) → n < hour → in_timeout_range (pos n) ≡ true
unfolding in_timeout_range
in_range n h = ground arith

cut_unit : (ds t : Text) (k : ℕ) → length t ≡ k → take (length (ds ++ t) - k) (ds ++ t) ≡ ds
cut_unit ds t k h =
    let at : length (ds ++ t) - k ≡ length ds = omega (arith, length-append ds t) in
    rw (at, take-append ds t)

get_elem?-append_left : (s t : Text) (i : ℕ) → i < length s → get_elem? (s ++ t) i ≡ get_elem? s i
get_elem?-append_left [] t i h = elim h [ ]
get_elem?-append_left (x ∷ s) t zero h = refl
get_elem?-append_left (x ∷ s) t (suc i) h = get_elem?-append_left s t i (omega arith)

byte_before_left : (s : Text) (c : ℕ) → s ≢ [] → byte_before (s ++ c ∷ []) 2 ≡ byte_before s 1
unfolding byte_before
byte_before_left [] c h = absurd (h refl)
byte_before_left (a ∷ s) c h =
    let at : suc (length (s ++ c ∷ [])) - 2 ≡ length s = omega (arith, length-append s (c ∷ [])) in
    let at' : suc (length s) - 1 ≡ length s = omega arith in
    let inside : leb 2 (suc (length (s ++ c ∷ []))) ≡ true =
      ground (arith, length-append s (c ∷ [])) in
    let inside' : leb 1 (suc (length s)) ≡ true = ground arith in
    rw (inside, inside', at, at', get_elem?-append_left (a ∷ s) (c ∷ []) (length s) (omega arith))

module _ (ds : Text) (v : ℕ) (d : IsDecimal ds v) where
  timeout_value-minutes : timeout_value (ds ++ codes "m") ≡ ok (scaled ds minute)
  unfolding timeout_value
  timeout_value-minutes =
      rw (timeout_value, byte_before-append ds [] b'm' 1 refl, cut_unit ds (codes "m") 1 refl)

  timeout_value-milliseconds : timeout_value (ds ++ codes "ms") ≡ ok (scaled ds millisecond)
  unfolding timeout_value
  timeout_value-milliseconds =
      let last : byte_before (ds ++ codes "ms") 1 ≡ ok b's' =
        rw (append_assoc ds (codes "m") (codes "s")) at
          (byte_before-append (ds ++ codes "m") [] b's' 1 refl) in
      rw (
        timeout_value,
        last,
        byte_before-append ds (codes "s") b'm' 2 refl,
        cut_unit ds (codes "ms") 2 refl,
      )

  timeout_value-seconds : timeout_value (ds ++ codes "s") ≡ ok (scaled ds second)
  unfolding timeout_value
  timeout_value-seconds =
      let (x, e, m, s) = byte_before_decimal ds v d in
      rw
        (
          timeout_value,
          byte_before-append ds [] b's' 1 refl,
          byte_before_left ds b's' d.0,
          e,
          cut_unit ds (codes "s") 1 refl,
        )
        (ground arith)

  timeout_value-bare : timeout_value ds ≡ ok (scaled ds second)
  unfolding timeout_value
  timeout_value-bare =
      let (x, e, m, s) = byte_before_decimal ds v d in rw (timeout_value, e) (ground arith)

parse_timeout_value :
    (s : Text) (n : ℕ)
    → s ≢ []
    → timeout_value s ≡ ok (pos n)
    → n < hour
    → parse_timeout s ≡ ok (pos n)
unfolding parse_timeout
parse_timeout_value [] n ne e h = absurd (ne refl)
parse_timeout_value (c ∷ s) n ne e h = ground (arith, in_range n h)

append-ne-nil : (s t : Text) → s ≢ [] → s ++ t ≢ []
append-ne-nil [] t h = absurd (h refl)
append-ne-nil (a ∷ s) t h = λ e. cc

-- The units of a time-out text; a bare number counts seconds.
pub data TimeUnit : Type 0 where
  minutes seconds milliseconds bare : TimeUnit

abbrev pub suffix : TimeUnit → Text
suffix minutes = codes "m"
suffix seconds = codes "s"
suffix milliseconds = codes "ms"
suffix bare = []

abbrev pub scale : TimeUnit → ℕ
scale minutes = minute
scale seconds = second
scale milliseconds = millisecond
scale bare = second

timeout_value-suffix :
    (u : TimeUnit) (ds : Text) (v : ℕ)
    → IsDecimal ds v
    → timeout_value (ds ++ suffix u) ≡ ok (scaled ds (scale u))
timeout_value-suffix minutes ds v d = timeout_value-minutes ds v d
timeout_value-suffix seconds ds v d = timeout_value-seconds ds v d
timeout_value-suffix milliseconds ds v d = timeout_value-milliseconds ds v d
timeout_value-suffix bare ds v d = rw (append-nil ds) (timeout_value-bare ds v d)

scale_pos : (u : TimeUnit) → 0 < scale u
scale_pos minutes = omega arith
scale_pos seconds = omega arith
scale_pos milliseconds = omega arith
scale_pos bare = omega arith

-- A decimal count of minutes, seconds or milliseconds, or a bare count of seconds, is read as that
-- duration, if it is below an hour.
pub parse_timeout-units :
    (u : TimeUnit) (ds : Text) (v : ℕ)
    → IsDecimal ds v
    → v * scale u < hour
    → parse_timeout (ds ++ suffix u) ≡ ok (pos (v * scale u))
parse_timeout-units u ds v d h =
    parse_timeout_value (ds ++ suffix u) (v * scale u) (append-ne-nil ds (suffix u) d.0)
      (timeout_value-suffix u ds v d ∙ ap ok (scaled_decimal ds v (scale u) d (scale_pos u) h)) h
