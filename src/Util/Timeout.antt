-- ===== src/Util/Timeout.antt =====
-- util/utils.go: ParseTimeout and inTimeoutRange. A time.Duration is an int64 of nanoseconds.
pub mod Bounds
pub mod Units
use suite_connector.Prelude.{
  ℕ, ◌+◌, ◌-◌, ◌*◌, ◌%◌, ◌^◌, Bool, true, false, ◌&&◌, Option, none, some, List, [], ◌∷◌, ltb, leb,
  ◌==◌, if◌then◌else◌, length, take, get_elem?,
}
use suite_connector.Prelude.Int.{ℤ, pos, negsuc, ◌*ℤ◌, ltb_ℤ, leb_ℤ}
use suite_connector.Prelude.Text.{Text}
use suite_connector.Prelude.Outcome.{Outcome, ok, panic, ◌>>=◌, or_panic}

-- The int64 that a mathematical integer wraps to.
unfoldable pub to_word : ℤ → ℕ
to_word (pos n) = n % 2 ^ 64
to_word (negsuc n) = 2 ^ 64 - 1 - n % 2 ^ 64

unfoldable pub of_word : ℕ → ℤ
of_word w = if ltb w (2 ^ 63) then pos w else negsuc (2 ^ 64 - 1 - w)

unfoldable pub wrap64 : ℤ → ℤ
unfolding to_word of_word
wrap64 z = of_word (to_word z)

-- The value of a run of decimal digits, after an accumulator.
unfoldable pub digits_value : ℕ → Text → Option ℕ
digits_value acc [] = some acc
digits_value acc (c ∷ s) =
    let rest = digits_value (acc * 10 + (c - b'0')) s in
    if leb b'0' c && leb c b'9' then rest else none

-- An unsigned magnitude with its sign, refused out of the range of int64.
unfoldable pub signed : Bool → Text → Option ℤ
signed minus [] = none
signed minus (c ∷ s) = elim (digits_value 0 (c ∷ s)) [
  | none ↦ none
  | some n ↦
      if minus
      then (if n == 0 then some (pos 0) else if leb n (2 ^ 63) then some (negsuc (n - 1)) else none)
      else (if ltb n (2 ^ 63) then some (pos n) else none)
]

-- strconv.Atoi
unfoldable pub atoi : Text → Option ℤ
unfolding signed digits_value
atoi [] = none
atoi (c ∷ s) =
    if c == b'-' then signed true s else if c == b'+' then signed false s else signed false (c ∷ s)

abbrev pub millisecond : ℕ
millisecond = 1_000_000

abbrev pub second : ℕ
second = 1_000_000_000

abbrev pub minute : ℕ
minute = 60_000_000_000

abbrev pub hour : ℕ
hour = 3_600_000_000_000

unfoldable pub in_timeout_range : ℤ → Bool
in_timeout_range t = leb_ℤ (pos 0) t && ltb_ℤ t (pos hour)

-- `if i, err := strconv.Atoi(s); err == nil { t = time.Duration(i) * unit }`, with t = -1 before
unfoldable pub scaled : Text → ℕ → ℤ
scaled s unit = elim (atoi s) [ none ↦ negsuc 0 | some i ↦ wrap64 (i *ℤ pos unit) ]

-- `s[len(s)-k]`
unfoldable pub byte_before : Text → ℕ → Outcome ℕ
byte_before s k = if leb k (length s) then or_panic (get_elem? s (length s - k)) else panic

-- The switch on the last byte.
unfoldable pub timeout_value : Text → Outcome ℤ
timeout_value s = do
  last ← byte_before s 1
  let in_seconds = byte_before s 2 >>= λ unit. ok (
      if unit == b'm'
      then scaled (take (length s - 2) s) millisecond
      else scaled (take (length s - 1) s) second)
  if last == b'm'
      then ok (scaled (take (length s - 1) s) minute)
      else if last == b's'
      then in_seconds
      else ok (scaled s second)

unfoldable pub parse_timeout : Text → Outcome ℤ
parse_timeout [] = ok (pos (60 * second))
parse_timeout (c ∷ s) = do
  t ← timeout_value (c ∷ s)
  ok (if in_timeout_range t then t else pos (60 * second))
