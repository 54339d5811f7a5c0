-- ===== src/Routing/Commands/Pending.antt =====
-- The cache of cache/cache.go as the cache of pending requests, which is what the handlers are given.
-- HandleRequest puts the value `true`, and drops Put's answer.
use suite_connector.Prelude.{ℕ, ◌≡◌, ◌∙◌, Bool, true, false, arith, if◌then◌else◌}
use suite_connector.Prelude.Int.{ℤ, pos, ◌≤ℤ◌}
use suite_connector.Prelude.Text.{Text, text_eq}
use suite_connector.Prelude.Outcome.{Outcome, ok, ◌>>=◌}
use suite_connector.Cache.Table.{Cache, put, remove}
use suite_connector.Cache.Table.Valid.{IsValid, view}
use suite_connector.Cache.Table.Holds.{is_some}
use suite_connector.Cache.Table.Refines.{put_refines, remove_refines}
use suite_connector.Routing.Commands.Defs.{RequestCache}

abbrev pub put_request : ℕ → Text → ℤ → Cache Bool → Outcome (Cache Bool)
put_request now k ttl c = put now k true ttl c >>= λ (c', signalled). ok c'

abbrev pub is_pending : Text → Cache Bool → Bool
is_pending k c = is_some (view c k)

-- A cache that is valid and open.
abbrev pub IsReady : Cache Bool → Type 0
IsReady c = IsValid c × (c.closed ≡ false)

pub put_request_ok :
    (now : ℕ) (k : Text) (ttl : ℤ) (c : Cache Bool)
    → IsReady c
    → pos 0 ≤ℤ ttl
    → (c' : Cache Bool) × (put_request now k ttl c ≡ ok c')
      × IsReady c'
      × ((j : Text) → is_pending j c' ≡ (if text_eq k j then true else is_pending j c))
put_request_ok now k ttl c (v, is_open) nonneg =
    let (c', done, h) = put_refines now k true ttl c v is_open nonneg in
    (c', rw done, (h.valid, h.as_open ∙ is_open), λ j. ground (arith, h.viewed j))

pub remove_ok :
    (k : Text) (c : Cache Bool)
    → IsReady c
    → (c' : Cache Bool) × (remove k c ≡ ok (c', is_pending k c))
      × IsReady c'
      × ((j : Text) → is_pending j c' ≡ (if text_eq k j then false else is_pending j c))
remove_ok k c (v, is_open) =
    let (c', done, h) = remove_refines k c v is_open in
    (c', done, (h.valid, h.as_open ∙ is_open), λ j. ground (arith, h.viewed j))

abbrev pub ttl_cache : RequestCache
ttl_cache = record {
  Store = Cache Bool;
  put = put_request;
  remove = remove;
  holds = is_pending;
  IsValid = IsReady;
  put_ok = put_request_ok;
  remove_ok = remove_ok;
}
