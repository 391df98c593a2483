-- ===== src/Task.antt =====
-- A queued letter, the updates that are made to it, and the guards of the send lease:
-- index.js (`MailTimeTask`, `__withLease`, `__leaseRemoveOpts`) and helpers.js
-- (`isSendClaimUpdate` and the functions below it).
-- Times are milliseconds. The record holds every field that `___addToQueue` writes; `id` is the
-- key that a storage adds (`_id` in MongoDB, `id` in PostgreSQL).
use mail_time.Prelude.{ℕ, Bool, true, false, ◌&&◌, List, Option, none, some, if◌then◌else◌}
use mail_time.Js.Text.{Text}
use mail_time.Js.Value.{Value, Fields}

abbrev pub MailOption : Type 0
MailOption = Fields

pub record Task : Type 0 where
  pub id : ℕ
  pub uuid : Text
  pub to : Value
  pub tries : ℕ
  pub send_at : ℕ
  pub is_sent : Bool
  pub is_cancelled : Bool
  pub is_failed : Bool
  pub is_sending : Bool
  pub sending_at : ℕ
  pub template : Option Text
  pub transport : ℕ
  pub concat_subject : Option Text
  pub mail_options : List MailOption

-- An `updateObj`: a field is `none` where the object has no such property.
pub record Update : Type 0 where
  pub tries : Option ℕ
  pub send_at : Option ℕ
  pub is_sent : Option Bool
  pub is_cancelled : Option Bool
  pub is_failed : Option Bool
  pub is_sending : Option Bool
  pub sending_at : Option ℕ
  pub transport : Option ℕ
  pub mail_options : Option (List MailOption)
  pub lease_tries : Option ℕ
  pub lease_sending_at : Option ℕ
  pub append_mail_option : Option MailOption

abbrev pub no_update : Update
no_update = record {
  tries = none;
  send_at = none;
  is_sent = none;
  is_cancelled = none;
  is_failed = none;
  is_sending = none;
  sending_at = none;
  transport = none;
  mail_options = none;
  lease_tries = none;
  lease_sending_at = none;
  append_mail_option = none;
}

pub record Lease : Type 0 where
  pub lease_tries : ℕ
  pub lease_sending_at : ℕ

abbrev pub is_some {ℓ} : {A : Type ℓ} → Option A → Bool
is_some none = false
is_some (some a) = true

abbrev pub get_or {ℓ} : {A : Type ℓ} → Option A → A → A
get_or none d = d
get_or (some a) d = a

abbrev pub is_send_claim_update : Update → Bool
is_send_claim_update u = get_or u.is_sending false && is_some u.tries

abbrev pub is_send_lease_guarded_update : Update → Bool
is_send_lease_guarded_update u = is_some u.lease_tries && is_some u.lease_sending_at

abbrev pub is_append_mail_option_update : Update → Bool
is_append_mail_option_update u = is_some u.append_mail_option

abbrev pub strip_internal_update_meta : Update → Update
strip_internal_update_meta u = record u {
  lease_tries = none;
  lease_sending_at = none;
  append_mail_option = none;
}

-- `{ ...task, ...updateObj }` for an update without internal keys.
abbrev pub assign : Task → Update → Task
assign t u = record t {
  tries = get_or u.tries t.tries;
  send_at = get_or u.send_at t.send_at;
  is_sent = get_or u.is_sent t.is_sent;
  is_cancelled = get_or u.is_cancelled t.is_cancelled;
  is_failed = get_or u.is_failed t.is_failed;
  is_sending = get_or u.is_sending t.is_sending;
  sending_at = get_or u.sending_at t.sending_at;
  transport = get_or u.transport t.transport;
  mail_options = get_or u.mail_options t.mail_options;
}

abbrev pub with_lease : Task → Update → Update
with_lease t u =
    if t.is_sending
    then record u { lease_tries = some t.tries; lease_sending_at = some t.sending_at }
    else u

abbrev pub lease_remove_opts : Task → Option Lease
lease_remove_opts t =
    if t.is_sending
    then some (record { lease_tries = t.tries; lease_sending_at = t.sending_at })
    else none
