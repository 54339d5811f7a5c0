-- ===== src/Connector/Listeners/Laws.antt =====
-- Listeners are kept once each, in the order in which they were added.
use suite_connector.Prelude.{
  ℕ, suc, ◌&&◌, length, append-nil, take-append, ◌-◌, ◌+◌, ◌≡◌, refl, none, some, List, [], ◌∷◌,
  ◌++◌, arith, take, drop, ◌==◌, if◌then◌else◌, Option-cases, Bool-cases, inl, inr,
}
use suite_connector.Connector.Listeners.{
  index_of, add_connection_listener, remove_connection_listener,
}

-- How often a listener is in the list.
unfoldable pub occurrences : ℕ → List ℕ → ℕ
occurrences l [] = 0
occurrences l (k ∷ ls) = (if l == k then 1 else 0) + occurrences l ls

occurrences-append :
    (l : ℕ) (xs ys : List ℕ) → occurrences l (xs ++ ys) ≡ occurrences l xs + occurrences l ys
unfolding occurrences
occurrences-append l [] ys = omega arith
occurrences-append l (x ∷ xs) ys = omega (arith, occurrences-append l xs ys)

index_of-none : (l : ℕ) (ls : List ℕ) → index_of l ls ≡ none → occurrences l ls ≡ 0
unfolding index_of occurrences
index_of-none l [] e = refl
index_of-none l (k ∷ ls) e = ground (arith, index_of-none l ls)

index_of-some :
    (l k : ℕ) (ls : List ℕ) (i : ℕ)
    → index_of l ls ≡ some i
    → occurrences k ls ≡ (if k == l then 1 else 0) + occurrences k (take i ls ++ drop (suc i) ls)
unfolding index_of occurrences
index_of-some l k [] i e = cc
index_of-some l k (x ∷ ls) i e = elim (Bool-cases (l == x)) [
  | inl here ↦ let e' : i ≡ 0 = ground (arith, e, here) in rw e' (ground (arith, here))
  | inr later ↦ elim (Option-cases (index_of l ls)) [
    | inl missing ↦ absurd (ground (arith, e, later, missing))
    | inr (j, found) ↦
        let e' : i ≡ suc j = ground (arith, e, later, found) in
        rw e' (ground (arith, index_of-some l k ls j found))
  ]
]

occurrences_one : (k l : ℕ) → occurrences k (l ∷ []) ≡ (if k == l then 1 else 0)
unfolding occurrences
occurrences_one k l = ground arith

index_of-absent : (l : ℕ) (ls : List ℕ) → occurrences l ls ≡ 0 → index_of l ls ≡ none
unfolding index_of occurrences
index_of-absent l [] h = refl
index_of-absent l (k ∷ ls) h = ground (arith, index_of-absent l ls)

index_of-concat :
    (l : ℕ) (ls : List ℕ) → occurrences l ls ≡ 0 → index_of l (ls ++ l ∷ []) ≡ some (length ls)
unfolding index_of occurrences
index_of-concat l [] h = ground arith
index_of-concat l (k ∷ ls) h = ground (arith, index_of-concat l ls)

drop-concat : (l : ℕ) (ls : List ℕ) → drop (suc (length ls)) (ls ++ l ∷ []) ≡ []
drop-concat l [] = refl
drop-concat l (k ∷ ls) = drop-concat l ls

remove-append :
    (l : ℕ) (ls : List ℕ) → occurrences l ls ≡ 0 → remove_connection_listener l (ls ++ l ∷ []) ≡ ls
unfolding remove_connection_listener
remove-append l ls h =
    rw
      (
        index_of-concat l ls h,
        remove_connection_listener,
        take-append ls (l ∷ []),
        drop-concat l ls,
      )
      (append-nil ls)

-- After a listener is added it is in the list as often as before, but once if it was not in it; no
-- other listener's place is touched.
pub occurrences-add :
    (l k : ℕ) (ls : List ℕ)
    → occurrences k (add_connection_listener l ls)
      ≡ (if k == l && occurrences l ls == 0 then 1 else occurrences k ls)
unfolding add_connection_listener
occurrences-add l k ls = elim (Option-cases (index_of l ls)) [
  | inl missing ↦
      rw (missing, add_connection_listener)
        (ground (
          arith,
          occurrences-append k ls (l ∷ []),
          index_of-none l ls missing,
          occurrences_one k l,
        ))
  | inr (i, found) ↦
      rw (found, add_connection_listener) (ground (arith, index_of-some l l ls i found))
]

-- Removing a listener takes one occurrence of it away, if there is one, and leaves the others.
pub occurrences-remove :
    (l k : ℕ) (ls : List ℕ)
    → occurrences k (remove_connection_listener l ls)
      ≡ (if k == l then occurrences k ls - 1 else occurrences k ls)
unfolding remove_connection_listener
occurrences-remove l k ls = elim (Option-cases (index_of l ls)) [
  | inl missing ↦
      rw (missing, remove_connection_listener) (ground (arith, index_of-none l ls missing))
  | inr (i, found) ↦
      rw (found, remove_connection_listener) (ground (arith, index_of-some l k ls i found))
]

-- Adding a listener that is not in the list and removing it gives the list back, order included.
pub remove-add :
    (l : ℕ) (ls : List ℕ)
    → occurrences l ls ≡ 0
    → remove_connection_listener l (add_connection_listener l ls) ≡ ls
remove-add l ls h =
    unfold add_connection_listener in
    rw (add_connection_listener, index_of-absent l ls h) (remove-append l ls h)
