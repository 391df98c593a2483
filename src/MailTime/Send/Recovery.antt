-- ===== src/MailTime/Send/Recovery.antt =====
-- Who can claim a letter.
use mail_time.Prelude.{ℕ, ◌≡◌, ◌≢◌, refl, sym, ap, ◌∙◌, true, false, some, arith}
use mail_time.Task.{Task}
use mail_time.Queue.{Queue, Conforms, Reports, Answer, returned, threw, updated, claim_guard}
use mail_time.MailTime.State.{MailTime}
use mail_time.MailTime.Errors.{is_true}
use mail_time.MailTime.Send.{claim, claimed, claim_update, has_ended}

-- A claim counts an attempt, so that it changes the row that it applies to.
claim_changes :
    (q : Queue) (IsSound : q.Store → Type 0)
    → Conforms q IsSound
    → (now : ℕ) (t r : Task) → claim_guard now q.timeout t.tries r ≡ true
    → q.stored (updated (claim_update now t) r) ≢ r
claim_changes q IsSound c now t r g e =
    let counted : (updated (claim_update now t) r).tries ≡ r.tries =
      sym (ap (λ (x : Task). x.tries) (c.stored_lem (updated (claim_update now t) r)))
      ∙ ap (λ (x : Task). x.tries) e in
    ground (arith, counted, g)

module _ (q : Queue) (IsSound : q.Store → Type 0) (c : Conforms q IsSound)
    (reports : Reports q IsSound) (m : MailTime) where
  claim_answered :
      (now : ℕ) (s : q.Store) (t : Task) (a : Answer)
      → has_ended t ≡ false
      → (q.update now s t (claim_update now t)).1 ≡ a
      → is_true a ≡ true
      → (claim q m now s t).1 ≡ some (claimed now t)
  unfolding claim
  claim_answered now s t a open' e y = rw (open', e, y) refl

  -- Over any queue that keeps the contract and does not report a call that it could carry out as
  -- one that changed nothing, a claim made from a snapshot that has not ended wins if the row is
  -- open, has the tries of the snapshot, is free or held by a claim that has gone stale, and the
  -- storage does not throw: a letter that a crashed worker left behind can be claimed again.
  pub claim_wins :
      (now : ℕ) (s : q.Store) (t r : Task)
      → IsSound s
      → q.IsKey (q.key t)
      → has_ended t ≡ false
      → q.look s (q.key t) ≡ some r
      → claim_guard now q.timeout t.tries r ≡ true
      → (q.update now s t (claim_update now t)).1 ≢ threw
      → (claim q m now s t).1 ≡ some (claimed now t)
  claim_wins now s t r sound known open' found g calm =
      decide (q.update now s t (claim_update now t)).1 refl
    where
      decide :
          (a : Answer)
          → (q.update now s t (claim_update now t)).1 ≡ a
          → (claim q m now s t).1 ≡ some (claimed now t)
      decide threw e = absurd (calm e)
      decide (returned true) e = claim_answered now s t (returned true) open' e refl
      decide (returned false) e = absurd (
          claim_changes q IsSound c now t r g
            (reports.update_reports now s t (claim_update now t) r sound known found g e))
