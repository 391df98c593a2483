-- ===== src/MailTime/Errors.antt =====
-- index.js: what a failed attempt does to its letter (`___mayFailOver`, `___handleError`).
-- A hook is a call of the user's `onSent` or `onError`; logging is left out. An exception of the
-- queue or of the finalization ends the method, and its callers only log it.
use mail_time.Prelude.{
  ℕ, ◌+◌, ◌%◌, Bool, true, false, not, ◌&&◌, List, [], ◌∷◌, none, some, ltb, leb, ◌==◌,
  if◌then◌else◌, length,
}
use mail_time.Js.Text.{Text, lit}
use mail_time.Js.Value.{Value, bool, prop, field, end, str, instance_of}
use mail_time.Task.{Task, Update, no_update, with_lease, lease_remove_opts}
use mail_time.Queue.{Queue, Answer, returned, threw}
use mail_time.MailTime.State.{MailTime, Strategy, backup}
use mail_time.MailTime.Recipients.{finalize_rejected}
use mail_time.MailTime.Transports.{next_healthy_transport}

pub data Hook : Type 0 where
  on_sent : Task → Value → Hook
  on_error : Value → Task → Value → Hook

-- `new Error(message)`.
abbrev pub new_error : Text → Value
new_error message = instance_of 0 (field (lit "message") (str message) end)

-- `value === false`.
abbrev pub is_false : Value → Bool
is_false (bool false) = true
is_false _ = false

unfoldable pub may_fail_over : MailTime → Value → Value → Task → Bool
may_fail_over m error info t = elim m.should_fail_over [
  | none ↦ not (is_false (prop (lit "mayFailOver") error))
  | some policy ↦ elim (policy error info t) [ none ↦ false | some v ↦ not (is_false v) ]
]

abbrev pub is_backup : Strategy → Bool
is_backup backup = true
is_backup _ = false

abbrev pub is_true : Answer → Bool
is_true (returned b) = b
is_true threw = false

abbrev pub failed_update : Task → Update
failed_update t = record no_update {
  is_sent = some false;
  is_failed = some true;
  is_sending = some false;
  sending_at = some 0;
  mail_options = some t.mail_options;
}

abbrev pub release_update : ℕ → ℕ → Update
release_update send_at transport = record no_update {
  is_sending = some false;
  sending_at = some 0;
  send_at = some send_at;
  transport = some transport;
}

unfoldable pub retry_transport : MailTime → Task → Value → Value → ℕ
unfolding may_fail_over
retry_transport m t error info =
    if is_backup m.strategy
      && (ltb 1 (length m.transports)
          && (t.tries % m.fails_to_next == 0 && may_fail_over m error info t))
    then next_healthy_transport m t.transport
    else t.transport

module _ (q : Queue) (m : MailTime) where
  -- `remove` under the lease without history, `update` with it.
  unfoldable pub conclude : ℕ → q.Store → Task → Update → q.Store × Answer
  conclude now s t u =
      if m.keep_history
      then q.update now s t (with_lease t u)
      else q.remove s t (lease_remove_opts t)

module _ (show : Value → Text) (q : Queue) (m : MailTime) where
  -- A letter that is given up, its rejected recipients written: `onError` learns of it only if this
  -- worker still held the lease.
  unfoldable pub fail_finalized : ℕ → q.Store → Task → Value → Value → q.Store × Task × List Hook
  unfolding conclude
  fail_finalized now s t error info =
      let (s', answer) = conclude q m now s t (failed_update t) in
      let done = record t { is_sent = false; is_failed = true; is_sending = false } in
      if is_true answer then (s', done, on_error error done info ∷ []) else (s', t, [])

  -- The last attempt has failed. An exception of `___finalizeRejected` ends it before any write.
  unfoldable pub give_up : ℕ → q.Store → Task → Value → Value → q.Store × Task × List Hook
  unfolding fail_finalized
  give_up now s t error info = elim (finalize_rejected show t info) [
    | none ↦ (s, t, [])
    | some t' ↦ fail_finalized now s t' error info
  ]

  unfoldable pub handle_error : ℕ → q.Store → Task → Value → Value → q.Store × Task × List Hook
  handle_error now s t error info =
      if m.abort_in_flight
      then (s, t, [])
      else if leb m.max_tries t.tries
      then give_up now s t error info
      else (let (s', _) = q.update now s t (
            with_lease t (release_update (now + m.retry_delay) (retry_transport m t error info))) in
          (s', t, []))
