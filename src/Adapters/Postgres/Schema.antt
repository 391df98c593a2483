-- ===== src/Adapters/Postgres/Schema.antt =====
-- adapters/postgres.js, `__setup`: the statements that make the table and its indexes, under an
-- advisory lock that is taken for the session. Which of them throw is a parameter.
use mail_time.Prelude.{
  ◌≡◌, refl, Bool, true, false, List, [], ◌∷◌, ◌++◌, if◌then◌else◌, Bool-cases, inl, inr, arith,
}

pub data Statement : Type 0 where
  take_lock create_table create_uuid_index create_due_index create_pending_index release_lock :
      Statement

-- The statements of the `try`, of which an exception leaves out the rest.
unfoldable pub until_failure : (Statement → Bool) → List Statement → List Statement × Bool
until_failure fails [] = ([], true)
until_failure fails (q ∷ qs) =
    let (rest, ok) = until_failure fails qs in if fails q then (q ∷ [], false) else (q ∷ rest, ok)

abbrev pub schema : List Statement
schema = create_table ∷ create_uuid_index ∷ create_due_index ∷ create_pending_index ∷ []

-- The statements that are sent, and whether the promise is kept (`false` is an exception).
unfoldable pub setup : (Statement → Bool) → List Statement × Bool
unfolding until_failure
setup fails =
    if fails take_lock
    then (take_lock ∷ [], false)
    else (let (sent, ok) = until_failure fails schema in
        (take_lock ∷ (sent ++ release_lock ∷ []), if fails release_lock then false else ok))

abbrev pub last_sent : Statement → List Statement → Statement
last_sent q [] = q
last_sent q (r ∷ rs) = last_sent r rs

last_sent-append : (q r : Statement) (qs : List Statement) → last_sent q (qs ++ r ∷ []) ≡ r
last_sent-append q r [] = refl
last_sent-append q r (p ∷ qs) = last_sent-append p r qs

abbrev pub sent_by : List Statement × Bool → List Statement
sent_by (sent, ok) = sent

-- Whichever statements throw, a lock that was taken is released by the last statement.
pub setup-last_sent :
    (fails : Statement → Bool)
    → fails take_lock ≡ false
    → last_sent take_lock (sent_by (setup fails)) ≡ release_lock
unfolding setup
setup-last_sent fails e =
    rw e (last_sent-append take_lock release_lock (sent_by (until_failure fails schema)))

-- Where the promise is kept, every statement was sent, in order, and none threw.
until_failure-ok :
    (fails : Statement → Bool) (qs : List Statement)
    → (until_failure fails qs).1 ≡ true
    → sent_by (until_failure fails qs) ≡ qs
unfolding until_failure
until_failure-ok fails [] e = refl
until_failure-ok fails (q ∷ qs) e = elim (Bool-cases (fails q)) [
  | inl f ↦ absurd (ground (arith, e, f))
  | inr f ↦ ground (arith, e, f, until_failure-ok fails qs)
]
