-- ===== src/MailTime/Send.antt =====
-- index.js, `___send` in its phases: the claim, the choice of the transport, and the completion
-- when the transport calls back. Between two phases other workers act; in each, this worker makes
-- one call of the queue.
pub mod Phase
pub mod Conclude
pub mod Effects
pub mod Claim
pub mod Recovery
pub mod Wins
pub mod Failover
pub mod Retries
pub mod Alone
use mail_time.Prelude.{
  ℕ, suc, ◌+◌, Bool, true, false, not, ◌&&◌, ◌||◌, List, [], ◌∷◌, ◌++◌, Option, none, some, leb,
  if◌then◌else◌,
}
use mail_time.Js.Text.{Text, lit}
use mail_time.Js.Value.{Value, Items, nil, cons, prop, items, truthy, obj, end, num, get}
use mail_time.Task.{Task, Update, MailOption, no_update, with_lease}
use mail_time.Queue.{Queue}
use mail_time.Helpers.Address.{extract_email, is_nil}
use mail_time.MailTime.State.{MailTime}
use mail_time.MailTime.Errors.{
  Hook, on_sent, new_error, is_true, conclude, fail_finalized, handle_error,
}
use mail_time.MailTime.Recipients.{
  track_accepted_recipients, is_fully_delivered, finalize_rejected, to_text,
}
use mail_time.MailTime.Transports.{is_healthy_transport, next_healthy_transport}

-- `info.accepted.map(extractEmail).filter((addr) => typeof addr === 'string')`.
abbrev pub keep_text : Option Text → List Text → List Text
keep_text none l = l
keep_text (some a) l = a ∷ l

unfoldable pub parsed : Items → List Text
parsed nil = []
parsed (cons entry rest) = keep_text (extract_email entry) (parsed rest)

unfoldable pub accepted_addrs : Value → List Text
unfolding parsed
accepted_addrs info = parsed (items (prop (lit "accepted") info))

-- `mo.rejected`, and the addresses in it.
unfoldable pub rejected_of : (Value → Text) → Items → List Text
rejected_of show nil = []
rejected_of show (cons r rest) = to_text show (prop (lit "address") r) ∷ rejected_of show rest

unfoldable pub rejected_addrs : (Value → Text) → List MailOption → List Text
unfolding rejected_of
rejected_addrs show [] = []
rejected_addrs show (mo ∷ mos) =
    rejected_of show (items (get (lit "rejected") mo)) ++ rejected_addrs show mos

-- `addrs.join(', ')`.
unfoldable pub join_comma : List Text → Text
join_comma [] = []
join_comma (a ∷ []) = a
join_comma (a ∷ b ∷ rest) = a ++ (lit ", " ++ join_comma (b ∷ rest))

abbrev pub not_accepted : Value
not_accepted = new_error (lit "Message not accepted or Greeting never received")

abbrev pub has_ended : Task → Bool
has_ended t = t.is_sent || (t.is_failed || t.is_cancelled)

-- What became of the attempt: the transport called back, the composition or the transport threw,
-- or nothing came (a crash, a transport that never answers).
pub data Attempt : Type 0 where
  calls_back : Value → Value → Attempt
  throws : Value → Attempt
  hangs : Attempt

abbrev pub sent_update : Task → Update
sent_update t = record no_update {
  is_sent = some true;
  is_sending = some false;
  sending_at = some 0;
  mail_options = some t.mail_options;
}

-- An unhealthy transport is replaced before the attempt.
unfoldable pub choose_transport : MailTime → Task → Task
choose_transport m t =
    if is_healthy_transport m t.transport
    then t
    else record t { transport = next_healthy_transport m t.transport }

abbrev pub partial_update : ℕ → Task → Update
partial_update send_at t = record no_update {
  is_sending = some false;
  sending_at = some 0;
  send_at = some send_at;
  mail_options = some t.mail_options;
}

abbrev pub claim_update : ℕ → Task → Update
claim_update now t = record no_update {
  is_sending = some true;
  sending_at = some now;
  tries = some (t.tries + 1);
}

-- The worker's copy of a task that it has claimed.
abbrev pub claimed : ℕ → Task → Task
claimed now t = record t { tries = t.tries + 1; is_sending = true; sending_at = now }

module _ (q : Queue) (m : MailTime) where
  -- The claim: the task as this worker then holds it, if it won.
  unfoldable pub claim : ℕ → q.Store → Task → q.Store × Option Task
  claim now s t =
      if has_ended t
      then (s, none)
      else (let (s', answer) = q.update now s t (claim_update now t) in
          (s', if is_true answer then some (claimed now t) else none))

  -- Everybody accepted: the letter is done, and `onSent` learns of it only if this worker still
  -- held the lease.
  unfoldable pub complete : ℕ → q.Store → Task → Value → q.Store × Task × List Hook
  unfolding conclude
  complete now s t info =
      let (s', answer) = conclude q m now s t (sent_update t) in
      let done = record t { is_sent = true; is_sending = false; sending_at = 0 } in
      if is_true answer then (s', done, on_sent done info ∷ []) else (s', t, [])

  -- Some recipients have not accepted yet: the lease is given back for another attempt.
  unfoldable pub release_partial : ℕ → q.Store → Task → q.Store × Task × List Hook
  release_partial now s t =
      let (s', _) = q.update now s t (with_lease t (partial_update (now + m.retry_delay) t)) in
      (s', t, [])

module _ (show : Value → Text) (q : Queue) (m : MailTime) where
  abbrev pub partial_error : Task → Value
  partial_error t = new_error (
      lit "Recipients rejected after "
      ++ (show (num t.tries)
          ++ (lit " attempts: " ++ join_comma (rejected_addrs show t.mail_options))))

  -- Some recipients never accepted, and this was the last attempt.
  unfoldable pub complete_partial : ℕ → q.Store → Task → Value → q.Store × Task × List Hook
  unfolding fail_finalized
  complete_partial now s t info = elim (finalize_rejected show t info) [
    | none ↦ (s, t, [])
    | some t' ↦ fail_finalized show q m now s t' (partial_error t') info
  ]

  unfoldable pub on_accepted : ℕ → q.Store → Task → Value → List Text → q.Store × Task × List Hook
  on_accepted now s t info addrs =
      let t' = track_accepted_recipients t addrs in
      if is_fully_delivered t'
      then complete q m now s t' info
      else if leb m.max_tries t.tries
      then complete_partial now s t' info
      else release_partial q m now s t'

  -- The callback of `transport.sendMail`.
  unfoldable pub on_callback : ℕ → q.Store → Task → Value → Value → q.Store × Task × List Hook
  on_callback now s t error info =
      if m.abort_in_flight
      then (s, t, [])
      else if truthy error
      then handle_error show q m now s t error info
      else if is_nil (accepted_addrs info)
      then handle_error show q m now s t not_accepted info
      else on_accepted now s t info (accepted_addrs info)

  unfoldable pub after_attempt : ℕ → q.Store → Task → Attempt → q.Store × Task × List Hook
  after_attempt now s t (calls_back error info) = on_callback now s t error info
  after_attempt now s t (throws error) = handle_error show q m now s t error (obj end)
  after_attempt now s t hangs = (s, t, [])

  -- `___send` with no other worker between its phases.
  unfoldable pub send :
      ℕ → ℕ → q.Store → Task → (Task → Attempt) → q.Store × Option Task × List Hook
  send claimed_at done_at s t transmit =
      let (s', held) = claim q m claimed_at s t in
      elim held [
        | none ↦ (s', none, [])
        | some c ↦
            let c' = choose_transport m c in
            let (s'', t', hooks) = after_attempt done_at s' c' (transmit c') in
            (s'', some t', hooks)
      ]
