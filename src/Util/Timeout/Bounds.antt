-- ===== src/Util/Timeout/Bounds.antt =====
-- ParseTimeout answers a duration below an hour, and panics on one text alone.
use suite_connector.Prelude.{
  ◌≢◌, ap, ◌∙◌, ℕ, suc, ◌-◌, ◌≤◌, ◌<◌, ◌≡◌, refl, ◌↔◌, some, [], ◌∷◌, arith, length, get_elem?,
  List,
}
use suite_connector.Prelude.Int.{ℤ, pos, pos_part, ◌≤ℤ◌}
use suite_connector.Prelude.Text.{Text, codes}
use suite_connector.Prelude.Outcome.{ok, panic}
use suite_connector.Util.Timeout.{hour, in_timeout_range, byte_before, timeout_value, parse_timeout}

-- A result of ParseTimeout is at least 0 and below an hour, whatever the text, wrapped products
-- included.
pub parse_timeout_bounds :
    (s : Text) (t : ℤ) → parse_timeout s ≡ ok t → (pos 0 ≤ℤ t) × (pos_part t < hour)
unfolding parse_timeout in_timeout_range
parse_timeout_bounds [] t h = ground arith
parse_timeout_bounds (c ∷ s) t h = ground arith

get_elem?_inside {ℓ} :
    {A : Type ℓ} (s : List A) (i : ℕ) → i < length s → (a : A) × (get_elem? s i ≡ some a)
get_elem?_inside [] i h = elim h [ ]
get_elem?_inside (x ∷ s) ℕ.zero h = (x, refl)
get_elem?_inside (x ∷ s) (suc i) h = get_elem?_inside s i (omega arith)

byte_before_inside : (s : Text) (k : ℕ) → 0 < k → k ≤ length s → (c : ℕ) × (byte_before s k ≡ ok c)
unfolding byte_before
byte_before_inside s k h l =
    let (c, e) = get_elem?_inside s (length s - k) (omega arith) in (c, ground (arith, e))

timeout_value-panic : (s : Text) → 2 ≤ length s → timeout_value s ≢ panic
unfolding timeout_value
timeout_value-panic s h =
    let (c, e) = byte_before_inside s 1 (omega arith) (omega arith) in
    let (d, f) = byte_before_inside s 2 (omega arith) h in rw (e, f) (ground arith)

parse_timeout_s : parse_timeout (codes "s") ≡ panic
unfolding parse_timeout timeout_value byte_before
parse_timeout_s = refl

-- ParseTimeout indexes out of range on the text "s", and on no other.
pub parse_timeout-panic : (s : Text) → (parse_timeout s ≡ panic) ↔ (s ≡ codes "s")
unfolding parse_timeout
parse_timeout-panic [] = (λ h. cc, λ h. cc)
parse_timeout-panic (c ∷ d ∷ s) =
    (λ h. ground (arith, timeout_value-panic (c ∷ d ∷ s) (omega arith)), λ h. cc)
parse_timeout-panic (c ∷ []) =
    unfold timeout_value byte_before in (ground arith, λ h. ap parse_timeout h ∙ parse_timeout_s)
