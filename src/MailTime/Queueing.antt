-- ===== src/MailTime/Queueing.antt =====
-- index.js, `sendMail` and `___addToQueue`: a letter enters the queue, or joins a pending one to
-- the same address. `getPendingTo` and `push` of the queue are parameters beside `Queue`: the first
-- gives an answer of `none` if it throws. `uuid` is what `randomUUID` gives.
pub mod Joined
pub mod Refused
use mail_time.Prelude.{
  ℕ, ◌+◌, ◌≡◌, Bool, true, false, not, ◌&&◌, ◌||◌, List, [], ◌∷◌, Option, none, some, ltb, ◌==◌,
  if◌then◌else◌, length,
}
use mail_time.Js.Text.{Text, lit}
use mail_time.Js.Value.{
  Value, undefined, null, num, str, date, arr, obj, nil, cons, Fields, get, delete_key, truthy,
}
use mail_time.Task.{Task, MailOption, no_update}
use mail_time.Queue.{Queue, Answer, returned, threw}
use mail_time.Helpers.Equality.{equals}
use mail_time.MailTime.State.{MailTime, Strategy, balancer, backup}
use mail_time.MailTime.Errors.{is_true}
use mail_time.MailTime.Transports.{next_healthy_transport}

-- How a call of `sendMail` ends: with an error of the options, with one of the queue, or with the
-- uuid of the letter.
pub data Sent : Type 0 where
  refused : Text → Sent
  broken : Sent
  queued : Text → Sent

abbrev pub is_balancer : Strategy → Bool
is_balancer balancer = true
is_balancer backup = false

-- `opts.sendAt`, a date or a number of milliseconds; else now.
abbrev pub send_at_of : ℕ → Value → ℕ
send_at_of now (date n) = n
send_at_of now (num n) = n
send_at_of now _ = now

abbrev pub text_option : Value → Option Text
text_option (str s) = some s
text_option _ = none

abbrev pub mail_option_of : Fields → MailOption
mail_option_of opts =
    delete_key (lit "concatSubject") (delete_key (lit "template") (delete_key (lit "sendAt") opts))

abbrev pub is_recipient : Value → Bool
is_recipient (str s) = true
is_recipient (arr (cons x xs)) = true
is_recipient _ = false

abbrev pub is_undefined : Value → Bool
is_undefined undefined = true
is_undefined _ = false

-- `pendingMailOptions` holds an equal one already.
unfoldable pub holds_equal : List MailOption → MailOption → Bool
holds_equal [] mo = false
holds_equal (p ∷ ps) mo = equals (obj p) (obj mo) || holds_equal ps mo

-- The transport of a new task: the balancer moves on with each.
unfoldable pub next_transport : MailTime → ℕ
next_transport m =
    if is_balancer m.strategy && not (length m.transports == 0)
    then next_healthy_transport m m.transport
    else m.transport

-- `task.to` is set on an instance that concatenates.
abbrev pub new_task : MailTime → Text → ℕ → Option Text → Option Text → MailOption → Task
new_task m uuid send_at template concat_subject mo = record {
  id = 0;
  uuid = uuid;
  to = if m.concat_emails then get (lit "to") mo else undefined;
  tries = 0;
  send_at = send_at;
  is_sent = false;
  is_cancelled = false;
  is_failed = false;
  is_sending = false;
  sending_at = 0;
  template = template;
  transport = next_transport m;
  concat_subject = concat_subject;
  mail_options = mo ∷ [];
}

module _ (q : Queue) (get_pending_to : q.Store → Value → ℕ → Option (Option Task))
    (push : q.Store → Task → q.Store) where
  unfoldable pub add_to_queue :
      MailTime
      → q.Store
      → Text
      → ℕ
      → Option Text
      → Option Text
      → MailOption
      → MailTime × q.Store × Sent
  add_to_queue m s uuid send_at template concat_subject mo = (
    record m { transport = next_transport m },
    push s (new_task m uuid send_at template concat_subject mo),
    queued uuid,
  )

  -- The pending letter takes the mail option in, unless it holds an equal one.
  unfoldable pub join : MailTime → ℕ → q.Store → Task → MailOption → q.Store × Answer
  join m now s t mo =
      if holds_equal t.mail_options mo
      then (s, returned true)
      else q.update now s t (record no_update { append_mail_option = some mo })

  unfoldable pub send_mail : MailTime → ℕ → q.Store → Text → Fields → MailTime × q.Store × Sent
  send_mail m now s uuid opts =
      let mo = mail_option_of opts in
      let send_at = send_at_of now (get (lit "sendAt") opts) in
      let template = text_option (get (lit "template") opts) in
      let concat_subject = text_option (get (lit "concatSubject") opts) in
      if not (truthy (get (lit "html") opts)) && not (truthy (get (lit "text") opts))
      then (m, s, refused (lit "no html nor text"))
      else if not (is_undefined (get (lit "raw") opts))
      then (m, s, refused (lit "raw"))
      else if not (is_recipient (get (lit "to") mo))
      then (m, s, refused (lit "to"))
      else if not m.concat_emails
      then add_to_queue m s uuid send_at template concat_subject mo
      else elim (get_pending_to s (get (lit "to") mo) (send_at + m.concat_delay)) [
        | none ↦ (m, s, broken)
        | some none ↦ add_to_queue m s uuid (send_at + m.concat_delay) template concat_subject mo
        | some (some t) ↦
            let (s', joined) = join m now s t mo in
            elim joined [
              | threw ↦ (m, s', broken)
              | returned true ↦ (m, s', queued t.uuid)
              | returned false ↦
                  add_to_queue m s' uuid (send_at + m.concat_delay) template concat_subject mo
            ]
      ]
