-- ===== src/MailTime/Send/Alone.antt =====
-- A whole `___send` by a worker that nobody disturbs between its phases, over a queue that keeps
-- the contract, reports its changes and does not throw.
pub mod Failed
pub mod Delivered
use mail_time.Prelude.{
  ℕ, ◌+◌, ◌<◌, ◌≤◌, ◌≡◌, refl, sym, ap, ◌∙◌, Bool, true, false, not, ◌&&◌, ◌||◌, List, [], ◌∷◌,
  Option, none, some, leb, arith, subst, if◌then◌else◌, Bool-cases, inl, inr, ltb,
}
use mail_time.Js.Text.{Text}
use mail_time.Js.Value.{Value, truthy, obj, end}
use mail_time.Task.{Task, MailOption, with_lease}
use mail_time.Queue.{
  Queue, Conforms, Reports, returned, threw, is_open, is_free, lease_guard, updated,
}
use mail_time.Helpers.Address.{is_nil}
use mail_time.MailTime.State.{MailTime}
use mail_time.MailTime.Errors.{
  Hook, on_sent, on_error, is_true, handle_error, give_up, release_update, failed_update,
  retry_transport,
}
use mail_time.MailTime.Recipients.{finalize_rejected, is_fully_delivered, track_accepted_recipients}
use mail_time.MailTime.Transports.{is_healthy_transport}
use mail_time.MailTime.Send.{
  claim, claimed, choose_transport, complete, sent_update, on_callback, on_accepted, after_attempt,
  send, Attempt, calls_back, throws, hangs, accepted_addrs, not_accepted,
}
use mail_time.MailTime.Send.Phase.{lease_of, is_ended, IsSane}
use mail_time.MailTime.Send.Claim.{claim_won, claim_phase}
use mail_time.MailTime.Send.Recovery.{claim_wins}
use mail_time.MailTime.Send.Wins.{Calm, Holds, leased_wins, conclude_wins}
use mail_time.MailTime.Send.Retries.{third, second, handle_error_retries, handle_error_ends}

module _ (show : Value → Text) (q : Queue) (IsSound : q.Store → Type 0) (c : Conforms q IsSound)
    (reports : Reports q IsSound) (calm : Calm q) (m : MailTime)
    (running : m.abort_in_flight ≡ false) where
  abbrev pub Held : q.Store → Task → Task → Type 0
  Held s t r = Holds q IsSound c reports calm s t r

  -- The row that a won claim leaves, and the copy that the attempt is made with.
  abbrev pub claimed_row : ℕ → Task → Task
  claimed_row now r =
      q.stored (record r { tries = r.tries + 1; is_sending = true; sending_at = now })

  abbrev pub sending_copy : ℕ → Task → Task
  sending_copy now r = choose_transport m (claimed now r)

  pub copy_keeps :
      (now : ℕ) (r : Task)
      → ((sending_copy now r).id ≡ r.id)
        × ((sending_copy now r).uuid ≡ r.uuid)
        × ((sending_copy now r).is_sending ≡ true)
        × ((sending_copy now r).tries ≡ r.tries + 1)
        × ((sending_copy now r).sending_at ≡ now)
        × ((sending_copy now r).mail_options ≡ r.mail_options)
  unfolding choose_transport
  copy_keeps now r = elim (Bool-cases (is_healthy_transport m (claimed now r).transport)) [
    | inl e ↦ rw e (refl, refl, refl, refl, refl, refl)
    | inr e ↦ rw e (refl, refl, refl, refl, refl, refl)
  ]

  -- A snapshot of the row as it is, open and free.
  abbrev pub Ready : ℕ → q.Store → Task → Type 0
  Ready now s r =
      IsSound s
      × q.IsKey (q.key r)
      × (q.look s (q.key r) ≡ some r)
      × (is_open r ≡ true)
      × (is_free now q.timeout r ≡ true)

  copy_holds :
      (now : ℕ) (s' : q.Store) (r row : Task)
      → IsSound s'
      → q.IsKey (q.key r)
      → is_open r ≡ true
      → row ≡ r
      → q.look s' (q.key r)
        ≡ some (q.stored (record row { tries = r.tries + 1; is_sending = true; sending_at = now }))
      → (q.key (sending_copy now r) ≡ q.key r) × Held s' (sending_copy now r) (claimed_row now r)
  copy_holds now s' r row sound key open' row_same after =
      let (i, u, k, n, a, mos) = copy_keeps now r in
      let same : q.key (sending_copy now r) ≡ q.key r = c.key_ext (sending_copy now r) r i u in
      let claimed_task : Task = record r {
        tries = r.tries + 1;
        is_sending = true;
        sending_at = now;
      } in
      (
        same,
        (
          sound,
          subst q.IsKey (sym same) key,
          k,
          ap (q.look s') same
              ∙ after
              ∙ ap
                  (λ (x : Task). some (
                    q.stored
                      (record x { tries = r.tries + 1; is_sending = true; sending_at = now })))
                  row_same,
          rw (c.stored_lem claimed_task) (ground (arith, n, a, open')),
        ),
      )

  pub claim-Ready :
      (now : ℕ) (s : q.Store) (r : Task)
      → Ready now s r
      → ((claim q m now s r).1 ≡ some (claimed now r))
        × (q.key (sending_copy now r) ≡ q.key r)
        × Held (claim q m now s r).0 (sending_copy now r) (claimed_row now r)
  claim-Ready now s r (sound, key, found, open', free) =
      let held =
        claim_wins q IsSound c reports m now s r r sound key (ground (arith, open')) found
          (ground (arith, open', free)) (calm.updates now s r _) in
      let (row, found', guard, after, copy) = claim_won q IsSound c m now s r _ sound key held in
      let sane : IsSane (q.look s (q.key r)) = rw found (ground (arith, open')) in
      let (same, holds) =
        copy_holds now (claim q m now s r).0 r row
          (claim_phase q IsSound c m now s r sound (sane, key)).1 key open' (cc) after in
      (held, same, holds)

  pub send-claimed :
      (claimed_at done_at : ℕ) (s : q.Store) (r : Task) (transmit : Task → Attempt)
      → (claim q m claimed_at s r).1 ≡ some (claimed claimed_at r)
      → let copy = sending_copy claimed_at r in
        let o = after_attempt show q m done_at (claim q m claimed_at s r).0 copy (transmit copy) in
        send show q m claimed_at done_at s r transmit ≡ (o.0, some o.1, o.2)
  unfolding send
  send-claimed claimed_at done_at s r transmit e = rw (send, e) refl
