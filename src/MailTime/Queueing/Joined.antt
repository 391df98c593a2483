-- ===== src/MailTime/Queueing/Joined.antt =====
-- A letter that joins a pending one.
use mail_time.Prelude.{ℕ, ◌≡◌, refl, sym, ◌∙◌, ap, true, false, [], ◌∷◌, ◌++◌, Option, some}
use mail_time.Task.{Task, MailOption, no_update}
use mail_time.Js.Value.{Value}
use mail_time.MailTime.Errors.{is_true}
use mail_time.Queue.{Queue, Conforms, Answer, returned, append_guard}
use mail_time.MailTime.State.{MailTime}
use mail_time.MailTime.Queueing.{join, holds_equal}
use mail_time.MailTime.Send.Claim.{Effect-true}

module _ (q : Queue) (IsSound : q.Store → Type 0) (c : Conforms q IsSound)
    (pending : q.Store → Value → ℕ → Option (Option Task)) (push : q.Store → Task → q.Store) where
  join_called :
      (m : MailTime) (now : ℕ) (s : q.Store) (t : Task) (mo : MailOption)
      → holds_equal t.mail_options mo ≡ false
      → join q pending push m now s t mo
        ≡ q.update now s t (record no_update { append_mail_option = some mo })
  unfolding join
  join_called m now s t mo e = rw e refl

  -- Over any queue that keeps the contract, a mail option that the pending letter does not hold yet
  -- and that joined it stands last in the row of that letter, which was open and held by nobody and
  -- is otherwise as it was; the row is kept in the storage's own way.
  pub join_appends :
      (m : MailTime) (now : ℕ) (s : q.Store) (t : Task) (mo : MailOption)
      → IsSound s
      → q.IsKey (q.key t)
      → holds_equal t.mail_options mo ≡ false
      → (join q pending push m now s t mo).1 ≡ returned true
      → (r : Task) × (q.look s (q.key t) ≡ some r)
        × (append_guard r ≡ true)
        × (q.look (join q pending push m now s t mo).0 (q.key t)
            ≡ some (q.stored (record r { mail_options = r.mail_options ++ mo ∷ [] })))
  join_appends m now s t mo sound known e h =
      let call = join_called m now s t mo e in
      let u = record no_update { append_mail_option = some mo } in
      let (r, found, guard, after) =
        Effect-true _ _ _ _ _ (ap is_true (ap (λ (o : q.Store × Answer). o.1) (sym call) ∙ h))
          (c.update_effect now s t u sound known) in
      (r, found, guard, ap (λ (o : q.Store × Answer). q.look o.0 (q.key t)) call ∙ after)
