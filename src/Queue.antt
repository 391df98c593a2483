-- ===== src/Queue.antt =====
-- The storage behind a MailTime instance: the methods of index.js's `CustomQueue` that the send
-- lifecycle calls, `update` and `remove`, and the contract that it relies on. A method answers
-- with its Boolean or throws. Every call is one atomic change of one row.
use mail_time.Prelude.{
  ℕ, ◌+◌, ◌≡◌, ◌≢◌, ◌⊎◌, Bool, true, false, not, ◌&&◌, ◌||◌, [], ◌∷◌, ◌++◌, Option, none, some, leb,
  ◌==◌, if◌then◌else◌,
}
use mail_time.Task.{
  Task, Update, Lease, get_or, is_send_claim_update, is_send_lease_guarded_update,
  is_append_mail_option_update, strip_internal_update_meta, assign,
}

pub data Answer : Type 0 where
  returned : Bool → Answer
  threw : Answer

-- The row has not ended: neither sent, failed nor cancelled.
abbrev pub is_open : Task → Bool
is_open c = not c.is_sent && not c.is_failed && not c.is_cancelled

-- No worker holds the row, or its claim is stale at `now`.
abbrev pub is_free : ℕ → ℕ → Task → Bool
is_free now timeout c = not c.is_sending || leb (c.sending_at + timeout) now

abbrev pub claim_guard : ℕ → ℕ → ℕ → Task → Bool
claim_guard now timeout tries c = is_open c && (c.tries == tries && is_free now timeout c)

-- The row still carries the lease, and was not cancelled or failed meanwhile.
abbrev pub lease_guard : Lease → Task → Bool
lease_guard l c =
    (c.tries == l.lease_tries && c.is_sending)
    && (c.sending_at == l.lease_sending_at && (not c.is_cancelled && not c.is_failed))

abbrev pub append_guard : Task → Bool
append_guard c = is_open c && not c.is_sending

-- The rows to which `update(task, u)` may apply. `now` is read where a claim carries no stamp.
abbrev pub update_guard : ℕ → ℕ → Task → Update → Task → Bool
update_guard now timeout t u c =
    if is_append_mail_option_update u
    then append_guard c
    else if is_send_claim_update u
    then claim_guard (get_or u.sending_at now) timeout t.tries c
    else if is_send_lease_guarded_update u
    then lease_guard
        (record {
          lease_tries = get_or u.lease_tries 0;
          lease_sending_at = get_or u.lease_sending_at 0;
        })
        c
    else true

-- What it makes of such a row.
abbrev pub updated : Update → Task → Task
updated u c = elim u.append_mail_option [
  | some mo ↦ record c { mail_options = c.mail_options ++ mo ∷ [] }
  | none ↦ assign c (strip_internal_update_meta u)
]

abbrev pub remove_guard : Option Lease → Task → Bool
remove_guard none c = true
remove_guard (some l) c = lease_guard l c

-- What one call did to its row. A call that threw may have been carried out.
abbrev pub Effect :
    (Task → Bool) → (Task → Option Task) → Option Task → Option Task → Answer → Type 0
Effect g f before after (returned true) =
    (c : Task) × (before ≡ some c) × (g c ≡ true) × (after ≡ f c)
Effect g f before after (returned false) = after ≡ before
Effect g f before after threw =
    (after ≡ before) ⊎ ((c : Task) × (before ≡ some c) × (g c ≡ true) × (after ≡ f c))

pub record Queue : Type 1 where
  pub Store : Type 0
  pub Key : Type 0
  pub key : Task → Key
  pub look : Store → Key → Option Task
  -- The keys by which a task may be passed: not that of one which a storage cannot find.
  pub IsKey : Key → Type 0
  -- What the storage makes of a row that it writes.
  pub stored : Task → Task
  -- `sendingTimeout` of the instance that the queue belongs to.
  pub timeout : ℕ
  -- `Date.now()` at the call comes first.
  pub update : ℕ → Store → Task → Update → Store × Answer
  pub remove : Store → Task → Option Lease → Store × Answer

-- The contract, on the stores that `IsSound` admits (a storage may need its keys unique).
pub record Conforms (q : Queue) (IsSound : q.Store → Type 0) : Type 0 where
  -- A row is found by its `_id` or its `uuid`.
  pub key_ext : (t t' : Task) → t.id ≡ t'.id → t.uuid ≡ t'.uuid → q.key t ≡ q.key t'
  -- A storage may keep the mail options in its own way.
  pub stored_lem : (t : Task) → q.stored t ≡ record t { mail_options = (q.stored t).mail_options }
  pub update-IsSound :
      (now : ℕ) (s : q.Store) (t : Task) (u : Update) → IsSound s → IsSound (q.update now s t u).0
  pub update_effect :
      (now : ℕ) (s : q.Store) (t : Task) (u : Update)
      → IsSound s
      → q.IsKey (q.key t)
      → Effect
          (update_guard now q.timeout t u)
          (λ c. some (q.stored (updated u c)))
          (q.look s (q.key t))
          (q.look (q.update now s t u).0 (q.key t))
          (q.update now s t u).1
  pub update_other :
      (now : ℕ) (s : q.Store) (t : Task) (u : Update) (k : q.Key)
      → IsSound s
      → q.IsKey (q.key t)
      → k ≢ q.key t
      → q.look (q.update now s t u).0 k ≡ q.look s k
  pub remove-IsSound :
      (s : q.Store) (t : Task) (l : Option Lease) → IsSound s → IsSound (q.remove s t l).0
  pub remove_effect :
      (s : q.Store) (t : Task) (l : Option Lease)
      → IsSound s
      → q.IsKey (q.key t)
      → Effect
          (remove_guard l)
          (λ c. none)
          (q.look s (q.key t))
          (q.look (q.remove s t l).0 (q.key t))
          (q.remove s t l).1
  pub remove_other :
      (s : q.Store) (t : Task) (l : Option Lease) (k : q.Key)
      → IsSound s
      → q.IsKey (q.key t)
      → k ≢ q.key t
      → q.look (q.remove s t l).0 k ≡ q.look s k

-- What a storage that works promises besides: a call that changes a row, or finds its guard kept,
-- does not report that it changed nothing. A storage that answers `false` when it cannot be reached
-- does not keep it.
pub record Reports (q : Queue) (IsSound : q.Store → Type 0) : Type 0 where
  pub update_reports :
      (now : ℕ) (s : q.Store) (t : Task) (u : Update) (c : Task)
      → IsSound s
      → q.IsKey (q.key t)
      → q.look s (q.key t) ≡ some c
      → update_guard now q.timeout t u c ≡ true
      → (q.update now s t u).1 ≡ returned false
      → q.stored (updated u c) ≡ c
  pub remove_reports :
      (s : q.Store) (t : Task) (l : Option Lease) (c : Task)
      → IsSound s
      → q.IsKey (q.key t)
      → q.look s (q.key t) ≡ some c
      → remove_guard l c ≡ true
      → (q.remove s t l).1 ≢ returned false
