-- ===== src/MailTime/Send/Retries.antt =====
-- index.js, `___handleError` of a worker that holds the lease, over a queue that keeps the contract,
-- reports its changes and does not throw.
use mail_time.Prelude.{
  ℕ, ◌+◌, ◌<◌, ◌≤◌, ◌≡◌, refl, sym, ap, ◌∙◌, Bool, true, false, [], ◌∷◌, none, some, leb, arith,
  subst, if◌then◌else◌, Bool-cases, inl, inr, length,
}
use mail_time.Js.Text.{Text}
use mail_time.Js.Value.{Value}
use mail_time.Task.{Task, with_lease}
use mail_time.Queue.{Queue, Conforms, Reports, updated}
use mail_time.MailTime.State.{MailTime}
use mail_time.MailTime.Errors.{
  on_error, handle_error, give_up, fail_finalized, release_update, failed_update, retry_transport,
}
use mail_time.MailTime.Recipients.{finalize_rejected}
use mail_time.MailTime.Recipients.Finalized.{
  finalize_rejected_lists, finalize_rejected_keeps, AreAcceptedLists,
}
use mail_time.MailTime.Transports.Rotation.{FirstHealthy}
use mail_time.MailTime.Send.Failover.{Moves, retry_transport_lem}
use mail_time.MailTime.Send.Phase.{is_ended}
use mail_time.MailTime.Send.Wins.{Calm, Holds, leased_wins, conclude_wins}

pub third {ℓ} :
    {A : Type ℓ} (a b : Bool) (x y z : A)
    → a ≡ false
    → b ≡ false
    → (if a then x else if b then y else z) ≡ z
third a b x y z e f = rw (e, f) refl

pub second {ℓ} :
    {A : Type ℓ} (a b : Bool) (x y z : A)
    → a ≡ false
    → b ≡ true
    → (if a then x else if b then y else z) ≡ y
second a b x y z e f = rw (e, f) refl

module _ (show : Value → Text) (q : Queue) (IsSound : q.Store → Type 0) (c : Conforms q IsSound)
    (reports : Reports q IsSound) (calm : Calm q) (m : MailTime)
    (running : m.abort_in_flight ≡ false) where
  abbrev Held : q.Store → Task → Task → Type 0
  Held s t r = Holds q IsSound c reports calm s t r

  released :
      (now : ℕ) (s : q.Store) (t : Task) (error info : Value)
      → t.tries < m.max_tries
      → handle_error show q m now s t error info ≡ (
        (q.update now s t (
            with_lease t
              (release_update (now + m.retry_delay) (retry_transport m t error info)))).0,
        t,
        [],
      )
  unfolding handle_error
  released now s t error info lt =
      third m.abort_in_flight (leb m.max_tries t.tries) _ _ _ running (ground (arith, lt))

  pub handle_error_released :
      (now : ℕ) (s : q.Store) (t r : Task) (error info : Value)
      → Held s t r
      → t.tries < m.max_tries
      → let o = handle_error show q m now s t error info in
        (q.look o.0 (q.key t)
          ≡ some (
              q.stored (record r {
                is_sending = false;
                sending_at = 0;
                send_at = now + m.retry_delay;
                transport = retry_transport m t error info;
              })))
        × (o.2 ≡ [])
        × IsSound o.0
  handle_error_released now s t r error info h lt =
      let u = release_update (now + m.retry_delay) (retry_transport m t error info) in
      let (sound, key, held, found, g) = h in
      let won = leased_wins q IsSound c reports calm now s t r u h (refl, refl) refl in
      rw (released now s t error info lt) (
        won.1 ∙ ap (λ x. some (q.stored x)) (leased now t r (retry_transport m t error info) held),
        refl,
        c.update-IsSound now s t (with_lease t u) sound,
      )
    where
      leased :
          (now' : ℕ) (t' r' : Task) (i : ℕ)
          → t'.is_sending ≡ true
          → updated (with_lease t' (release_update (now' + m.retry_delay) i)) r' ≡ record r' {
            is_sending = false;
            sending_at = 0;
            send_at = now' + m.retry_delay;
            transport = i;
          }
      leased now' t' r' i held = rw held refl

  -- Over any queue that keeps the contract, reports its changes and does not throw, by an instance
  -- that has not aborted and whose `failsToNext` is above 0: a failed attempt with tries left, by
  -- the worker whose lease the row has, leaves the row as it was but released, due after
  -- `retryDelay` and on a transport, in the storage's own way of keeping it, and calls no hook. The
  -- transport is the old one, unless a backup strategy has another, the tries are a multiple of
  -- `failsToNext`, and the policy of the instance, or without one the error, does not forbid it;
  -- then it is the first healthy one after the old around the ring, if any is healthy.
  pub handle_error_retries :
      (now : ℕ) (s : q.Store) (t r : Task) (error info : Value)
      → Held s t r
      → t.tries < m.max_tries
      → 0 < m.fails_to_next
      → let o = handle_error show q m now s t error info in
        (i : ℕ) × (q.look o.0 (q.key t)
          ≡ some (
              q.stored (record r {
                is_sending = false;
                sending_at = 0;
                send_at = now + m.retry_delay;
                transport = i;
              })))
        × (o.2 ≡ [])
        × (Moves m t error info → FirstHealthy m t.transport 0 (length m.transports) i)
        × (¬ Moves m t error info → i ≡ t.transport)
  handle_error_retries now s t r error info h lt some_fails =
      let (after, silent, sound) = handle_error_released now s t r error info h lt in
      let (moved, stays) = retry_transport_lem m t error info some_fails in
      (retry_transport m t error info, after, silent, moved, stays)

  given_up :
      (now : ℕ) (s : q.Store) (t : Task) (error info : Value)
      → m.max_tries ≤ t.tries
      → handle_error show q m now s t error info ≡ give_up show q m now s t error info
  unfolding handle_error
  given_up now s t error info le =
      second m.abort_in_flight (leb m.max_tries t.tries) _ _ _ running (ground (arith, le))

  -- Whether the history is kept or not, the row of a letter that has failed has ended.
  failed_ends :
      (t r : Task)
      → t.is_sending ≡ true
      → is_ended (
          if m.keep_history
          then some (q.stored (updated (with_lease t (failed_update t)) r))
          else none)
        ≡ true
  failed_ends t r held = elim (Bool-cases m.keep_history) [
    | inr n ↦ rw n refl
    | inl y ↦ rw y (
        ap (λ (x : Task). is_ended (some x))
          (c.stored_lem (updated (with_lease t (failed_update t)) r))
        ∙ ground arith)
  ]

  fails :
      (now : ℕ) (s : q.Store) (t r : Task) (error info : Value)
      → Held s t r
      → let o = fail_finalized show q m now s t error info in
        (is_ended (q.look o.0 (q.key t)) ≡ true)
        × (o.2
            ≡ on_error error
                (record t { is_sent = false; is_failed = true; is_sending = false })
                info
              ∷ [])
  unfolding fail_finalized
  fails now s t r error info h =
      let won =
        conclude_wins q IsSound c reports calm m now s t r (failed_update t) h (refl, refl) refl in
      rw won.0 (ap is_ended won.1 ∙ failed_ends t r h.2, refl)

  gives_up :
      (now : ℕ) (s : q.Store) (t t' : Task) (error info : Value)
      → finalize_rejected show t info ≡ some t'
      → give_up show q m now s t error info ≡ fail_finalized show q m now s t' error info
  unfolding give_up
  gives_up now s t t' error info e = rw (e, give_up) refl

  pub handle_error_ends :
      (now : ℕ) (s : q.Store) (t r : Task) (error info : Value)
      → Held s t r
      → m.max_tries ≤ t.tries
      → AreAcceptedLists t.mail_options
      → let o = handle_error show q m now s t error info in
        (is_ended (q.look o.0 (q.key t)) ≡ true)
        × ((done : Task) × (o.2 ≡ on_error error done info ∷ []))
  handle_error_ends now s t r error info (sound, key, held, found, g) le lists =
      let (t', e) = finalize_rejected_lists show t info lists in
      let kept = finalize_rejected_keeps show t t' info e in
      let same : q.key t' ≡ q.key t = c.key_ext t' t kept.0 kept.1 in
      let h : Held s t' r = (
        sound,
        subst q.IsKey (sym same) key,
        kept.2 ∙ held,
        ap (q.look s) same ∙ found,
        ground (arith, g, kept.3, kept.4),
      ) in
      let (ended, told) = fails now s t' r error info h in
      rw (given_up now s t error info le, gives_up now s t t' error info e)
        (ap is_ended (ap (q.look _) (sym same)) ∙ ended, (_, told))
