-- ===== src/Adapters/Postgres.antt =====
-- adapters/postgres.js: `PostgresQueue` over the client's table `mail_time_queue`, which is a
-- parameter. Its rows are those of the instance's prefix, already read by `normalizeRow`; every
-- statement names that prefix, and one statement is atomic. A `WHERE` clause is a predicate on
-- rows. `now - sendingTimeout` is written on the other side of its comparison. The `id` of a task
-- that has none is 0, which no row has.
pub mod Contract
pub mod Columns
pub mod Rows
pub mod Schema
pub mod Statements
pub mod Effects
use mail_time.Prelude.{
  ℕ, ◌+◌, Bool, true, false, not, ◌&&◌, ◌||◌, List, [], ◌∷◌, ◌++◌, Option, none, some, ltb, leb,
  max, ◌==◌, if◌then◌else◌,
}
use mail_time.Js.Text.{Text, text_eq, is_empty}
use mail_time.Js.Value.{Value, str, null}
use mail_time.Task.{
  MailOption, Task, Update, Lease, no_update, get_or, is_some, is_send_claim_update,
  is_send_lease_guarded_update, strip_internal_update_meta, assign,
}
use mail_time.Queue.{Answer, returned, threw}
use mail_time.Adapters.Mongo.{Instance}

pub data Order : Type 0 where
  send_at_asc send_at_desc unordered : Order

-- `none` is an exception.
pub record Table : Type 1 where
  pub Store : Type 0
  pub rows : Store → List Task
  pub select : Store → (Task → Bool) → Order → ℕ → Option (List Task)
  -- `INSERT … ON CONFLICT (prefix, uuid) DO UPDATE`.
  pub upsert : Store → Task → Store
  -- The number of rows changed.
  pub update_where : Store → (Task → Bool) → (Task → Task) → Store × Option ℕ
  pub delete_where : Store → (Task → Bool) → Store × Option ℕ

-- `task.id ? 'id = $' : 'uuid = $'`.
abbrev pub is_row_of : Task → Task → Bool
is_row_of t r = if t.id == 0 then text_eq r.uuid t.uuid else r.id == t.id

unfoldable pub due_where : ℕ → ℕ → ℕ → Task → Bool
due_where now timeout max_tries r =
    not r.is_sent
    && (not r.is_failed
        && (not r.is_cancelled
            && (leb r.send_at now
                && (ltb r.tries max_tries
                    && (not r.is_sending || leb (r.sending_at + timeout) now)))))

-- An address column is a text or null, so that no text is the address of a letter to many.
abbrev pub is_to : Text → Value → Bool
is_to to (str s) = text_eq s to
is_to to _ = false

unfoldable pub pending_where : Text → ℕ → ℕ → Task → Bool
pending_where to send_at max_tries r =
    is_to to r.to
    && (not r.is_sent
        && (not r.is_failed
            && (not r.is_cancelled
                && (not r.is_sending && (ltb r.tries max_tries && leb r.send_at send_at)))))

unfoldable pub claim_where : ℕ → ℕ → ℕ → Task → Bool
claim_where now timeout tries r =
    not r.is_sent
    && (not r.is_failed
        && (not r.is_cancelled
            && (r.tries == tries && (not r.is_sending || leb (r.sending_at + timeout) now))))

unfoldable pub lease_where : Lease → Task → Bool
lease_where l r =
    r.tries == l.lease_tries
    && (r.is_sending
        && (r.sending_at == l.lease_sending_at && (not r.is_cancelled && not r.is_failed)))

unfoldable pub append_where : Task → Bool
append_where r = not r.is_sent && (not r.is_failed && (not r.is_cancelled && not r.is_sending))

-- `(res.rowCount || 0) >= 1`.
abbrev pub has_rows : Option ℕ → Answer
has_rows none = threw
has_rows (some n) = returned (leb 1 n)

abbrev pub first_row : List Task → Option Task
first_row [] = none
first_row (r ∷ rs) = some r

-- `value || null`.
abbrev pub or_null : Option Text → Option Text
or_null none = none
or_null (some s) = if is_empty s then none else some s

abbrev pub address_column : Value → Value
address_column (str s) = str s
address_column _ = null

-- Whether an update sets a column (`sets.length`).
abbrev pub sets_some : Update → Bool
sets_some u =
    is_some u.tries
    || (is_some u.send_at
        || (is_some u.is_sent
            || (is_some u.is_cancelled
                || (is_some u.is_failed
                    || (is_some u.is_sending
                        || (is_some u.sending_at
                            || (is_some u.transport || is_some u.mail_options)))))))

module _ (c : Table) (m : Instance) where
  -- A limit that is not a positive number is `none`.
  unfoldable pub iterate : ℕ → c.Store → Option ℕ → ℕ → List Task
  iterate now s limit sending_timeout =
      let timeout = if sending_timeout == 0 then 300000 else sending_timeout in
      let rows_read : ℕ = elim limit [ some n ↦ max 1 n | none ↦ 1000 ] in
      get_or (c.select s (due_where now timeout m.max_tries) send_at_asc rows_read) []

  unfoldable pub get_pending_to : c.Store → Value → ℕ → Option (Option Task)
  get_pending_to s (str to) send_at =
      elim (c.select s (pending_where to send_at m.max_tries) send_at_desc 1) [
        | none ↦ none
        | some rs ↦ some (first_row rs)
      ]
  get_pending_to s _ send_at = some none

  unfoldable pub push : c.Store → Task → c.Store
  push s t = c.upsert s (record t {
    to = address_column t.to;
    template = or_null t.template;
    concat_subject = or_null t.concat_subject;
  })

  unfoldable pub remove : c.Store → Task → Option Lease → c.Store × Answer
  remove s t none =
      let (s', res) = c.delete_where s (λ r. is_row_of t r && true) in (s', has_rows res)
  remove s t (some l) =
      let (s', res) = c.delete_where s (λ r. is_row_of t r && lease_where l r) in (s', has_rows res)

  unfoldable pub append : c.Store → Task → MailOption → c.Store × Answer
  append s t mo =
      let (s', res) =
        c.update_where s (λ r. is_row_of t r && append_where r)
          (λ r. record r { mail_options = r.mail_options ++ mo ∷ [] }) in
      (s', has_rows res)

  -- The part of the `WHERE` clause that a claim or a lease adds.
  unfoldable pub set_where : ℕ → Task → Update → Task → Bool
  set_where now t u r =
      if is_send_claim_update u
      then claim_where (get_or u.sending_at now)
          (if m.sending_timeout == 0 then 300000 else m.sending_timeout) t.tries r
      else if is_send_lease_guarded_update u
      then lease_where
          (record {
            lease_tries = get_or u.lease_tries 0;
            lease_sending_at = get_or u.lease_sending_at 0;
          })
          r
      else true

  unfoldable pub set : ℕ → c.Store → Task → Update → c.Store × Answer
  set now s t u =
      let (s', res) =
        c.update_where s (λ r. is_row_of t r && set_where now t u r)
          (λ r. assign r (strip_internal_update_meta u)) in
      if sets_some u then (s', has_rows res) else (s, returned false)

  unfoldable pub update : ℕ → c.Store → Task → Update → c.Store × Answer
  update now s t u = elim u.append_mail_option [ some mo ↦ append s t mo | none ↦ set now s t u ]

  -- The `SELECT` by uuid, then a plain `remove` or `update`. Other workers may act between the
  -- two; here they are one call.
  unfoldable pub cancel : ℕ → c.Store → Text → c.Store × Answer
  cancel now s uuid = elim (c.select s (λ r. text_eq r.uuid uuid) unordered 1) [
    | none ↦ (s, threw)
    | some rs ↦ elim (first_row rs) [
      | none ↦ (s, returned false)
      | some t ↦
          if t.is_sent || t.is_cancelled
          then (s, returned false)
          else if m.keep_history
          then update now s t (record no_update { is_cancelled = some true })
          else remove s t none
    ]
  ]
