-- ===== src/Connector/Subscriptions/Counts.antt =====
-- The manager counts references: the connection is called exactly when the first comes or the last goes.
use suite_connector.Prelude.{
  ℕ, ◌+◌, ◌-◌, ◌<◌, ◌≡◌, refl, Bool, true, false, ◌&&◌, Option, Option-cases, inl, inr, none, some,
  List, [], ◌∷◌, arith, ◌==◌, if◌then◌else◌,
}
use suite_connector.Prelude.Text.{Text, text_eq, text_eq_iff}
use suite_connector.Connector.Subscriptions.{
  Counts, lookup, insert, erase, Manager, Call, subscribe, unsubscribe, add0, remove0, finish, add,
  remove,
}

-- Every count is positive and no topic is listed twice.
abbrev pub IsValid : Counts → Type 0
IsValid [] = Unit
IsValid ((k, c) ∷ m) = (0 < c) × (lookup k m ≡ none) × IsValid m

-- How often a topic is referred to.
unfoldable pub references : Text → Counts → ℕ
references t m = elim (lookup t m) [ some c ↦ c | none ↦ 0 ]

abbrev pub is_set : Option ℕ → Bool
is_set none = false
is_set (some _) = true

lookup-insert :
    (t j : Text) (c : ℕ) (m : Counts)
    → lookup j (insert t c m) ≡ (if text_eq t j then some c else lookup j m)
unfolding lookup insert
lookup-insert t j c [] = refl
lookup-insert t j c ((k, d) ∷ m) =
    ground (arith, text_eq_iff t j, text_eq_iff k t, text_eq_iff k j, lookup-insert t j c m)

lookup-erase :
    (t j : Text) (m : Counts)
    → IsValid m
    → lookup j (erase t m) ≡ (if text_eq t j then none else lookup j m)
unfolding lookup erase
lookup-erase t j [] v = ground arith
lookup-erase t j ((k, d) ∷ m) v =
    ground (arith, text_eq_iff t j, text_eq_iff k t, text_eq_iff k j, lookup-erase t j m v.2)

insert-IsValid : (t : Text) (c : ℕ) (m : Counts) → IsValid m → 0 < c → IsValid (insert t c m)
unfolding insert
insert-IsValid t c [] v p = unfold lookup in (p, refl, tt)
insert-IsValid t c ((k, d) ∷ m) v p =
    ground
      (arith, insert-IsValid t c m v.2 p, lookup-insert t k c m, text_eq_iff t k, text_eq_iff k t)

erase-IsValid : (t : Text) (m : Counts) → IsValid m → IsValid (erase t m)
unfolding erase
erase-IsValid t [] v = tt
erase-IsValid t ((k, d) ∷ m) v = ground (arith, erase-IsValid t m v.2, lookup-erase t k m v.2)

lookup_pos : (t : Text) (c : ℕ) (m : Counts) → IsValid m → lookup t m ≡ some c → 0 < c
unfolding lookup
lookup_pos t c [] v e = cc
lookup_pos t c ((k, d) ∷ m) v e = ground (arith, lookup_pos t c m v.2)

module _ (t : Text) (m : Counts) (v : IsValid m) where
  add0-IsValid : IsValid (add0 t m).0
  unfolding add0
  add0-IsValid = elim (Option-cases (lookup t m)) [
    | inl e ↦ rw (e, add0) (insert-IsValid t 1 m v (omega arith))
    | inr (c, e) ↦ rw (e, add0) (insert-IsValid t (c + 1) m v (omega arith))
  ]

  references-add0 :
      (j : Text)
      → references j (add0 t m).0 ≡ (if text_eq t j then references j m + 1 else references j m)
  unfolding references add0
  references-add0 j = elim (Option-cases (lookup t m)) [
    | inl e ↦ ground (arith, e, text_eq_iff t j, lookup-insert t j 1 m)
    | inr (c, e) ↦ ground (arith, e, text_eq_iff t j, lookup-insert t j (c + 1) m)
  ]

  add0_changed : (add0 t m).1 ≡ (references t m == 0)
  unfolding add0 references
  add0_changed = elim (Option-cases (lookup t m)) [
    | inl e ↦ rw (e, add0, references) (ground arith)
    | inr (c, e) ↦ rw (e, add0, references) (ground (arith, lookup_pos t c m v e))
  ]

  remove0-IsValid : IsValid (remove0 t m).0
  unfolding remove0
  remove0-IsValid = elim (Option-cases (lookup t m)) [
    | inl e ↦ rw (e, remove0) v
    | inr (c, e) ↦
        rw (e, remove0) (ground (arith, insert-IsValid t (c - 1) m v, erase-IsValid t m v))
  ]

  references-remove0 :
      (j : Text)
      → references j (remove0 t m).0 ≡ (if text_eq t j then references j m - 1 else references j m)
  unfolding references remove0
  references-remove0 j = elim (Option-cases (lookup t m)) [
    | inl e ↦ ground (arith, e, text_eq_iff t j)
    | inr (c, e) ↦ ground (
      arith,
      text_eq_iff t j,
      lookup-insert t j (c - 1) m,
      lookup-erase t j m v,
      lookup_pos t c m v e,
    )
  ]

  remove0_changed : (remove0 t m).1 ≡ (references t m == 1)
  unfolding remove0 references
  remove0_changed = elim (Option-cases (lookup t m)) [
    | inl e ↦ rw (e, remove0, references) (ground arith)
    | inr (c, e) ↦ rw (e, remove0, references) (ground (arith, lookup_pos t c m v e))
  ]

-- The call on the connection, if one is set.
abbrev pub call_if_set : (ℕ → Text → Call) → Text → Option ℕ → List Call
call_if_set call t none = []
call_if_set call t (some conn) = call conn t ∷ []

finish_parts :
    (call : ℕ → Text → Call) (t : Text) (m : Manager) (r : Counts × Bool)
    → ((finish call t m r).manager ≡ record m { topics = r.0 })
      × ((finish call t m r).calls ≡ (if r.1 then call_if_set call t m.conn else []))
      × ((finish call t m r).answer ≡ (r.1 && is_set m.conn))
unfolding finish
finish_parts call t m (topics, true) = (ground arith, ground arith, ground arith)
finish_parts call t m (topics, false) = (ground arith, ground arith, ground arith)

-- Add keeps a well-formed map well-formed, adds one reference to its topic alone, and subscribes
-- exactly if there was none and a connection is set; it answers whether it subscribed.
pub add_counts :
    (t : Text) (m : Manager)
    → IsValid m.topics
    → let r = add t m in
      IsValid r.manager.topics
      × ((j : Text)
          → references j r.manager.topics
            ≡ (if text_eq t j then references j m.topics + 1 else references j m.topics))
      × (r.manager.conn ≡ m.conn)
      × (r.calls ≡ (if references t m.topics == 0 then call_if_set subscribe t m.conn else []))
      × (r.answer ≡ (references t m.topics == 0 && is_set m.conn))
unfolding add
add_counts t m v =
    let (state, calls, answer) = finish_parts subscribe t m (add0 t m.topics) in
    (
      rw state (add0-IsValid t m.topics v),
      λ j. rw state (references-add0 t m.topics v j),
      rw state,
      rw (calls, add0_changed t m.topics v),
      rw (answer, add0_changed t m.topics v),
    )

-- Remove keeps a well-formed map well-formed, takes one reference of its topic away, if there is
-- one, and unsubscribes exactly if that was the last and a connection is set; it answers whether it
-- did.
pub remove_counts :
    (t : Text) (m : Manager)
    → IsValid m.topics
    → let r = remove t m in
      IsValid r.manager.topics
      × ((j : Text)
          → references j r.manager.topics
            ≡ (if text_eq t j then references j m.topics - 1 else references j m.topics))
      × (r.manager.conn ≡ m.conn)
      × (r.calls ≡ (if references t m.topics == 1 then call_if_set unsubscribe t m.conn else []))
      × (r.answer ≡ (references t m.topics == 1 && is_set m.conn))
unfolding remove
remove_counts t m v =
    let (state, calls, answer) = finish_parts unsubscribe t m (remove0 t m.topics) in
    (
      rw state (remove0-IsValid t m.topics v),
      λ j. rw state (references-remove0 t m.topics v j),
      rw state,
      rw (calls, remove0_changed t m.topics v),
      rw (answer, remove0_changed t m.topics v),
    )
