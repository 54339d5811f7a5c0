-- ===== src/Tpmtls/Connection.antt =====
-- tpmtls/tpm_connection.go: the connection to a TPM and the ownership of its reader and writer. The
-- methods have value receivers: each works on a copy of the connection, whose change the caller does
-- not see. The operating system's answers are given; open files are known by numbers.
use suite_connector.Prelude.{
  ℕ, Bool, true, false, Option, none, some, List, [], ◌∷◌, ◌==◌, if◌then◌else◌,
}

-- `rwc` is an open file, and `rw`, if it is not nil, a proxy of one.
pub record TpmConnection : Type 0 where
  pub rwc : ℕ
  pub rw : Option ℕ

pub data TpmFault : Type 0 where
  not_found unopened unsupported not_tpm : TpmFault
  in_use not_expected unavailable : TpmFault

pub data Result (A : Type 0) : Type 0 where
  done : A → Result A
  fault : TpmFault → Result A

-- What the file name stands for.
pub data FileMode : Type 0 where
  device socket other : FileMode

-- The connection, and the files that are left open.
unfoldable pub new_tpm_connection :
    Option FileMode → Option ℕ → Bool → Result TpmConnection × List ℕ
new_tpm_connection mode opened is_tpm =
    let made : Result TpmConnection × List ℕ = elim opened [
      | none ↦ (fault unopened, [])
      | some f ↦
          if is_tpm then (done (record { rwc = f; rw = none }), f ∷ []) else (fault not_tpm, [])
    ] in
    elim mode [
      | none ↦ (fault not_found, [])
      | some device ↦ made
      | some socket ↦ made
      | some other ↦ (fault unsupported, [])
    ]

-- The methods: the copy, as they leave it, and the answer.
unfoldable pub get_rw : TpmConnection → TpmConnection × Result ℕ
get_rw t = elim t.rw [
  | none ↦ (record t { rw = some t.rwc }, done t.rwc)
  | some _ ↦ (t, fault unavailable)
]

abbrev pub is_rw : Option ℕ → ℕ → Bool
is_rw none w = false
is_rw (some r) w = r == w

unfoldable pub release_rw : ℕ → TpmConnection → TpmConnection × Result (Unit {0})
release_rw w t = if is_rw t.rw w then (record t { rw = none }, done tt) else (t, fault not_expected)

-- Close; whether the file is closed is the second part of the answer.
unfoldable pub close : TpmConnection → TpmConnection × Result (Unit {0}) × Bool
close t = elim t.rw [ some _ ↦ (t, fault in_use, false) | none ↦ (t, done tt, true) ]

-- Calls on a connection, and their answers, in order.
pub data TpmCall : Type 0 where
  gets closes : TpmCall
  releases : ℕ → TpmCall

pub data TpmAnswer : Type 0 where
  got : Result ℕ → TpmAnswer
  released closed : Result (Unit {0}) → TpmAnswer

unfoldable pub call : TpmCall → TpmConnection → TpmAnswer
unfolding get_rw release_rw close
call gets t = got (get_rw t).1
call closes t = closed (close t).1
call (releases w) t = released (release_rw w t).1

-- The caller's connection is the same in each call.
unfoldable pub calls : List TpmCall → TpmConnection → List TpmAnswer
unfolding call
calls [] t = []
calls (c ∷ cs) t = call c t ∷ calls cs t

-- What each call on the connection answers, alone by its kind.
abbrev pub lost_answer : TpmConnection → TpmCall → TpmAnswer
lost_answer t gets = got (done t.rwc)
lost_answer t (releases w) = released (fault not_expected)
lost_answer t closes = closed (done tt)
