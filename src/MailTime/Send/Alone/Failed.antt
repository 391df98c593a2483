-- ===== src/MailTime/Send/Alone/Failed.antt =====
-- A `___send` whose attempt fails, by a worker that nobody disturbs.
use mail_time.Prelude.{
  ℕ, ◌+◌, ◌<◌, ◌≤◌, ◌≡◌, refl, sym, ap, ◌∙◌, Bool, true, false, ◌||◌, [], ◌∷◌, Option, some, arith,
  if◌then◌else◌, Bool-cases, inl, inr,
}
use mail_time.Js.Text.{Text}
use mail_time.Js.Value.{Value, truthy, obj, end}
use mail_time.Task.{Task}
use mail_time.Queue.{Queue, Conforms, Reports, is_open}
use mail_time.Helpers.Address.{is_nil}
use mail_time.MailTime.State.{MailTime}
use mail_time.MailTime.Errors.{on_error, handle_error}
use mail_time.MailTime.Recipients.Finalized.{AreAcceptedLists}
use mail_time.MailTime.Send.{
  claim, on_callback, on_accepted, after_attempt, send, Attempt, calls_back, throws, hangs,
  accepted_addrs, not_accepted,
}
use mail_time.MailTime.Send.Phase.{is_ended}
use mail_time.MailTime.Send.Wins.{Calm}
use mail_time.MailTime.Send.Retries.{third, second, handle_error_released, handle_error_ends}
use mail_time.MailTime.Send.Alone.{
  Ready, claimed_row, sending_copy, copy_keeps, claim-Ready, send-claimed,
}

-- The attempt failed: the transport threw, called back with an error, or accepted nobody.
unfoldable pub is_failing : Attempt → Bool
is_failing (calls_back error info) = truthy error || is_nil (accepted_addrs info)
is_failing (throws error) = true
is_failing hangs = false

module _ (show : Value → Text) (q : Queue) (IsSound : q.Store → Type 0) (c : Conforms q IsSound)
    (reports : Reports q IsSound) (calm : Calm q) (m : MailTime)
    (running : m.abort_in_flight ≡ false) where
  -- The storage keeps an `accepted` that is an array, or missing, so.
  abbrev pub KeepsLists : Type 0
  KeepsLists =
      (t : Task) → AreAcceptedLists t.mail_options → AreAcceptedLists (q.stored t).mail_options

  failing_handled :
      (now : ℕ) (s : q.Store) (t : Task) (attempt : Attempt)
      → is_failing attempt ≡ true
      → (error : Value) × (info : Value) × (after_attempt show q m now s t attempt
          ≡ handle_error show q m now s t error info)
  unfolding is_failing after_attempt on_callback
  failing_handled now s t (throws error) h = (error, obj end, refl)
  failing_handled now s t hangs h = cc
  failing_handled now s t (calls_back error info) h = elim (Bool-cases (truthy error)) [
    | inl e ↦ (error, info, second m.abort_in_flight (truthy error) _ _ _ running e)
    | inr e ↦
        let nobody : is_nil (accepted_addrs info) ≡ true = ground (arith, h, e) in
        (
          not_accepted,
          info,
          third m.abort_in_flight (truthy error) _ _ _ running e
              ∙ ap
                  (λ b.
                    if b
                    then handle_error show q m now s t not_accepted info
                    else on_accepted show q m now s t info (accepted_addrs info))
                  nobody,
        )
  ]

  -- A failed attempt that is not the last, and the last one.
  pub record Retried (done_at : ℕ) (r : Task) (a : Option Task) : Type 0 where
    pub row : Task
    pub found : a ≡ some row
    pub same : (row.id ≡ r.id) × (row.uuid ≡ r.uuid)
    pub counted : row.tries ≡ r.tries + 1
    pub released : (is_open row ≡ true) × (row.is_sending ≡ false)
    pub later : row.send_at ≡ done_at + m.retry_delay
    pub listed : AreAcceptedLists r.mail_options → AreAcceptedLists row.mail_options

  pub send_retries :
      (claimed_at done_at : ℕ) (s : q.Store) (r : Task) (transmit : Task → Attempt)
      → Ready show q IsSound c reports calm m running claimed_at s r
      → is_failing (transmit (sending_copy show q IsSound c reports calm m running claimed_at r))
        ≡ true
      → r.tries + 1 < m.max_tries
      → KeepsLists
      → let o = send show q m claimed_at done_at s r transmit in
        Retried done_at r (q.look o.0 (q.key r)) × (o.2 ≡ []) × IsSound o.0
  send_retries claimed_at done_at s r transmit ready fails lt keeps =
      let (won, same, held) =
        claim-Ready show q IsSound c reports calm m running claimed_at s r ready in
      let copy = sending_copy show q IsSound c reports calm m running claimed_at r in
      let s' = (claim q m claimed_at s r).0 in
      let (error, info, handled) = failing_handled done_at s' copy (transmit copy) fails in
      let (i, u, k, n, a, mos) = copy_keeps show q IsSound c reports calm m running claimed_at r in
      let (after, silent, sound) =
        handle_error_released show q IsSound c reports calm m running done_at s' copy
          (claimed_row show q IsSound c reports calm m running claimed_at r) error info held
          (omega (arith, n, lt)) in
      let open' : is_open r ≡ true = ready.3 in
      rw
        (
          send-claimed show q IsSound c reports calm m running claimed_at done_at s r transmit won,
          handled,
        )
        (kept _ _ r open' (ap (q.look _) (sym same) ∙ after), silent, sound)
    where
      kept :
          (i : ℕ) (a : Option Task) (r0 : Task)
          → is_open r0 ≡ true
          → a
            ≡ some (
                q.stored
                  (record (claimed_row show q IsSound c reports calm m running claimed_at r0) {
                    is_sending = false;
                    sending_at = 0;
                    send_at = done_at + m.retry_delay;
                    transport = i;
                  }))
          → Retried done_at r0 a
      kept i a r0 open' e =
          let before : Task = record r0 {
            tries = r0.tries + 1;
            is_sending = true;
            sending_at = claimed_at;
          } in
          let same = c.stored_lem before in
          let after : Task =
            record (claimed_row show q IsSound c reports calm m running claimed_at r0) {
              is_sending = false;
              sending_at = 0;
              send_at = done_at + m.retry_delay;
              transport = i;
            } in
          record {
            row = record after { mail_options = (q.stored after).mail_options };
            found = e ∙ ap some (c.stored_lem after);
            same = (ap (λ (x : Task). x.id) same, ap (λ (x : Task). x.uuid) same);
            counted = ap (λ (x : Task). x.tries) same;
            released = (ap is_open same ∙ open', refl);
            later = refl;
            listed = λ l. keeps after (keeps before l);
          }

  pub send_gives_up :
      (claimed_at done_at : ℕ) (s : q.Store) (r : Task) (transmit : Task → Attempt)
      → Ready show q IsSound c reports calm m running claimed_at s r
      → is_failing (transmit (sending_copy show q IsSound c reports calm m running claimed_at r))
        ≡ true
      → m.max_tries ≤ r.tries + 1
      → AreAcceptedLists r.mail_options
      → let o = send show q m claimed_at done_at s r transmit in
        (is_ended (q.look o.0 (q.key r)) ≡ true)
        × ((error : Value) × (done : Task) × (info : Value) × (o.2 ≡ on_error error done info ∷ []))
  send_gives_up claimed_at done_at s r transmit ready fails le lists =
      let (won, same, held) =
        claim-Ready show q IsSound c reports calm m running claimed_at s r ready in
      let copy = sending_copy show q IsSound c reports calm m running claimed_at r in
      let s' = (claim q m claimed_at s r).0 in
      let (error, info, handled) = failing_handled done_at s' copy (transmit copy) fails in
      let (i, u, k, n, a, mos) = copy_keeps show q IsSound c reports calm m running claimed_at r in
      let (ended, told) =
        handle_error_ends show q IsSound c reports calm m running done_at s' copy
          (claimed_row show q IsSound c reports calm m running claimed_at r) error info held
          (omega (arith, n, le)) (rw mos lists) in
      rw
        (
          send-claimed show q IsSound c reports calm m running claimed_at done_at s r transmit won,
          handled,
        )
        (ap is_ended (ap (q.look _) (sym same)) ∙ ended, (error, told.0, info, told.1))
