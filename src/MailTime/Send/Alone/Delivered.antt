-- ===== src/MailTime/Send/Alone/Delivered.antt =====
-- A `___send` whose letter everybody accepts, by a worker that nobody disturbs.
use mail_time.Prelude.{
  ℕ, ◌≡◌, refl, sym, ap, ◌∙◌, true, false, List, [], ◌∷◌, none, some, subst, if◌then◌else◌,
}
use mail_time.Js.Text.{Text}
use mail_time.Js.Value.{Value, truthy}
use mail_time.Task.{Task, with_lease}
use mail_time.Queue.{Queue, Conforms, Reports, lease_guard, updated}
use mail_time.Helpers.Address.{is_nil}
use mail_time.MailTime.State.{MailTime}
use mail_time.MailTime.Errors.{on_sent}
use mail_time.MailTime.Recipients.{is_fully_delivered, track_accepted_recipients}
use mail_time.MailTime.Send.{
  claim, complete, sent_update, on_callback, on_accepted, after_attempt, send, Attempt, calls_back,
  accepted_addrs,
}
use mail_time.MailTime.Send.Phase.{lease_of}
use mail_time.MailTime.Send.Wins.{Calm, conclude_wins}
use mail_time.MailTime.Send.Retries.{third}
use mail_time.MailTime.Send.Alone.{
  Held, Ready, claimed_row, sending_copy, claim-Ready, send-claimed,
}

module _ (show : Value → Text) (q : Queue) (IsSound : q.Store → Type 0) (c : Conforms q IsSound)
    (reports : Reports q IsSound) (calm : Calm q) (m : MailTime)
    (running : m.abort_in_flight ≡ false) where
  -- Everybody accepts.
  accepted_completes :
      (now : ℕ) (s : q.Store) (t : Task) (error info : Value)
      → truthy error ≡ false
      → is_nil (accepted_addrs info) ≡ false
      → is_fully_delivered (track_accepted_recipients t (accepted_addrs info)) ≡ true
      → after_attempt show q m now s t (calls_back error info)
        ≡ complete q m now s (track_accepted_recipients t (accepted_addrs info)) info
  unfolding after_attempt on_callback on_accepted
  accepted_completes now s t error info e f g =
      third m.abort_in_flight (truthy error) _ _ _ running e ∙ rw (f, g) refl

  tracked :
      (t : Task) (addrs : List Text)
      → let t' = track_accepted_recipients t addrs in
        (t'.id ≡ t.id)
        × (t'.uuid ≡ t.uuid)
        × (t'.is_sending ≡ t.is_sending)
        × (lease_of t' ≡ lease_of t)
  unfolding track_accepted_recipients
  tracked t [] = (refl, refl, refl, refl)
  tracked t (a ∷ as') = (refl, refl, refl, refl)

  sent :
      (t r : Task)
      → t.is_sending ≡ true
      → updated (with_lease t (sent_update t)) r ≡ record r {
        is_sent = true;
        is_sending = false;
        sending_at = 0;
        mail_options = t.mail_options;
      }
  sent t r held = rw held refl

  completed :
      (now : ℕ) (s : q.Store) (t r : Task) (info : Value)
      → Held show q IsSound c reports calm m running s t r
      → let o = complete q m now s t info in
        (q.look o.0 (q.key t) ≡ (
          if m.keep_history
          then some (
              q.stored (record r {
                is_sent = true;
                is_sending = false;
                sending_at = 0;
                mail_options = t.mail_options;
              }))
          else none))
        × (o.2
            ≡ on_sent (record t { is_sent = true; is_sending = false; sending_at = 0 }) info ∷ [])
  unfolding complete
  completed now s t r info h =
      let won =
        conclude_wins q IsSound c reports calm m now s t r (sent_update t) h (refl, refl) refl in
      rw won.0 (
        won.1
            ∙ ap (λ (x : Task). if m.keep_history then some (q.stored x) else none) (sent t r h.2),
        refl,
      )

  -- The copy with those that accepted.
  abbrev pub accepted_copy : ℕ → Task → Value → Task
  accepted_copy claimed_at r info =
      track_accepted_recipients (sending_copy show q IsSound c reports calm m running claimed_at r)
        (accepted_addrs info)

  -- Over any queue that keeps the contract, reports its changes and does not throw, by an instance
  -- that has not aborted and that nobody disturbs: `___send` of a letter whose row is open and
  -- free, to a transport that calls back without an error and with every recipient accepted, leaves
  -- the row sent, with the accepted recipients recorded, or gone if no history is kept, and calls
  -- `onSent` once and no other hook.
  pub send_delivers :
      (claimed_at done_at : ℕ) (s : q.Store) (r : Task) (transmit : Task → Attempt)
      (error info : Value)
      → Ready show q IsSound c reports calm m running claimed_at s r
      → transmit (sending_copy show q IsSound c reports calm m running claimed_at r)
        ≡ calls_back error info
      → truthy error ≡ false
      → is_nil (accepted_addrs info) ≡ false
      → is_fully_delivered (accepted_copy claimed_at r info) ≡ true
      → let o = send show q m claimed_at done_at s r transmit in
        (q.look o.0 (q.key r) ≡ (
          if m.keep_history
          then some (
              q.stored (record (claimed_row show q IsSound c reports calm m running claimed_at r) {
                is_sent = true;
                is_sending = false;
                sending_at = 0;
                mail_options = (accepted_copy claimed_at r info).mail_options;
              }))
          else none))
        × (o.2
            ≡ on_sent
                (record (accepted_copy claimed_at r info) {
                  is_sent = true;
                  is_sending = false;
                  sending_at = 0;
                })
                info
              ∷ [])
  send_delivers claimed_at done_at s r transmit error info ready attempt e f g =
      let (won, same, (sound, key, held, found, guard)) =
        claim-Ready show q IsSound c reports calm m running claimed_at s r ready in
      let copy = sending_copy show q IsSound c reports calm m running claimed_at r in
      let s' = (claim q m claimed_at s r).0 in
      let t' = track_accepted_recipients copy (accepted_addrs info) in
      let (i, u, k, lease) = tracked copy (accepted_addrs info) in
      let kept : q.key t' ≡ q.key copy = c.key_ext t' copy i u in
      let h : Held show q IsSound c reports calm m running s' t'
          (claimed_row show q IsSound c reports calm m running claimed_at r) =
        (
          sound,
          subst q.IsKey (sym kept) key,
          k ∙ held,
          ap (q.look s') kept ∙ found,
          ap (λ l. lease_guard l (claimed_row show q IsSound c reports calm m running claimed_at r))
                lease
              ∙ guard,
        ) in
      let (after, told) =
        completed done_at s' t' (claimed_row show q IsSound c reports calm m running claimed_at r)
          info h in
      rw
        (
          send-claimed show q IsSound c reports calm m running claimed_at done_at s r transmit won,
          attempt,
          accepted_completes done_at s' copy error info e f g,
        )
        (ap (q.look _) (sym (kept ∙ same)) ∙ after, told)
