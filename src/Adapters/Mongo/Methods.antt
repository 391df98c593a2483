-- ===== src/Adapters/Mongo/Methods.antt =====
-- The methods of `MongoQueue`. A method that finds an exception of the driver answers `threw`, but
-- for `iterate`, which logs it and ends.
use mail_time.Prelude.{
  ℕ, ◌+◌, Bool, true, false, not, ◌&&◌, ◌||◌, List, [], ◌∷◌, ◌++◌, Option, none, some, ltb, leb,
  ◌==◌, if◌then◌else◌,
}
use mail_time.Js.Text.{Text, text_eq}
use mail_time.Js.Value.{Value, str}
use mail_time.Task.{
  MailOption, Task, Update, Lease, no_update, get_or, is_send_claim_update,
  is_send_lease_guarded_update, strip_internal_update_meta, assign,
}
use mail_time.Queue.{Answer, returned, threw}
use mail_time.Adapters.Rows.{id_and}
use mail_time.Adapters.Mongo.Driver.{Collection}

-- What the adapter reads of its `mailTimeInstance`.
pub record Instance : Type 0 where
  pub max_tries : ℕ
  pub keep_history : Bool
  pub sending_timeout : ℕ

-- `sendingTimeout || 300000`.
abbrev pub timeout_of : Instance → ℕ
timeout_of m = if m.sending_timeout == 0 then 300000 else m.sending_timeout

unfoldable pub due_query : ℕ → ℕ → ℕ → Task → Bool
due_query now timeout max_tries r =
    not r.is_sent
    && (not r.is_failed
        && (not r.is_cancelled
            && (leb r.send_at now
                && (ltb r.tries max_tries
                    && (not r.is_sending || leb (r.sending_at + timeout) now)))))

unfoldable pub claim_query : ℕ → ℕ → ℕ → Task → Bool
claim_query now timeout tries r =
    not r.is_sent
    && (not r.is_failed
        && (not r.is_cancelled
            && (r.tries == tries && (not r.is_sending || leb (r.sending_at + timeout) now))))

unfoldable pub lease_query : Lease → Task → Bool
lease_query l r =
    r.tries == l.lease_tries
    && (r.is_sending
        && (r.sending_at == l.lease_sending_at && (not r.is_cancelled && not r.is_failed)))

unfoldable pub append_query : Task → Bool
append_query r = not r.is_sent && (not r.is_failed && (not r.is_cancelled && not r.is_sending))

-- `(res?.modifiedCount || 0) >= 1`, and for a claim `modifiedCount || matchedCount`.
abbrev pub was_modified : Option (ℕ × ℕ) → Answer
was_modified none = threw
was_modified (some (matched, modified)) = returned (leb 1 modified)

abbrev pub was_claimed : Option (ℕ × ℕ) → Answer
was_claimed none = threw
was_claimed (some (matched, modified)) =
    returned (leb 1 (if modified == 0 then matched else modified))

abbrev pub was_deleted : Option ℕ → Answer
was_deleted none = threw
was_deleted (some deleted) = returned (leb 1 deleted)

module _ (c : Collection) (m : Instance) where
  unfoldable pub pending_query : Text → ℕ → Task → Bool
  pending_query to send_at r =
      c.field_matches to r.to
      && (not r.is_sent
          && (not r.is_failed
              && (not r.is_cancelled
                  && (not r.is_sending && (ltb r.tries m.max_tries && leb r.send_at send_at)))))

  -- The tasks that are passed to `___dispatch`, in order. A limit that is not a positive number
  -- is `none`.
  unfoldable pub iterate : ℕ → c.Store → Option ℕ → ℕ → List Task
  unfolding due_query
  iterate now s limit sending_timeout =
      let timeout = if sending_timeout == 0 then 300000 else sending_timeout in
      get_or (c.find s (due_query now timeout m.max_tries) (get_or limit 0)) []

  unfoldable pub get_pending_to : c.Store → Value → ℕ → Option (Option Task)
  unfolding pending_query
  get_pending_to s (str to) send_at = c.find_one s (pending_query to send_at)
  get_pending_to s _ send_at = some none

  unfoldable pub push : c.Store → Task → c.Store
  push s t = c.insert_one s t

  unfoldable pub remove : c.Store → Task → Option Lease → c.Store × Answer
  unfolding lease_query
  remove s t none =
      let (s', res) = c.delete_one s (id_and t.id (λ r. true)) in (s', was_deleted res)
  remove s t (some l) =
      let (s', res) = c.delete_one s (id_and t.id (lease_query l)) in (s', was_deleted res)

  -- The query of an update that appends nothing, beside `_id`.
  unfoldable pub set_query : ℕ → Task → Update → Task → Bool
  unfolding claim_query lease_query
  set_query now t u r =
      if is_send_claim_update u
      then claim_query (get_or u.sending_at now) (timeout_of m) t.tries r
      else if is_send_lease_guarded_update u
      then lease_query
          (record {
            lease_tries = get_or u.lease_tries 0;
            lease_sending_at = get_or u.lease_sending_at 0;
          })
          r
      else true

  unfoldable pub append : c.Store → Task → MailOption → c.Store × Answer
  unfolding append_query
  append s t mo =
      let (s', res) =
        c.update_one s (id_and t.id append_query)
          (λ r. record r { mail_options = r.mail_options ++ mo ∷ [] }) in
      (s', was_modified res)

  unfoldable pub set : ℕ → c.Store → Task → Update → c.Store × Answer
  unfolding set_query
  set now s t u =
      let (s', res) =
        c.update_one s (id_and t.id (set_query now t u))
          (λ r. assign r (strip_internal_update_meta u)) in
      (s', if is_send_claim_update u then was_claimed res else was_modified res)

  unfoldable pub update : ℕ → c.Store → Task → Update → c.Store × Answer
  update now s t u = elim u.append_mail_option [ some mo ↦ append s t mo | none ↦ set now s t u ]

  -- `findOne({ uuid })`, then a plain `remove` or `update`. Other workers may act between the two;
  -- here they are one call.
  unfoldable pub cancel : ℕ → c.Store → Text → c.Store × Answer
  unfolding remove update
  cancel now s uuid = elim (c.find_one s (λ r. text_eq r.uuid uuid)) [
    | none ↦ (s, threw)
    | some none ↦ (s, returned false)
    | some (some t) ↦
        if t.is_sent || t.is_cancelled
        then (s, returned false)
        else if m.keep_history
        then update now s t (record no_update { is_cancelled = some true })
        else remove s t none
  ]
