-- ===== src/MailTime/Renewal.antt =====
-- index.js, `___startClaimRenewal`: the timer that re-stamps a claim while its attempt runs. One
-- tick is one call of `renew`; ticks do not overlap, since `activeRenewal` holds the next back.
pub mod Ticks
use mail_time.Prelude.{ℕ, ◌+◌, max, Bool, true, false, not, ◌||◌, some, leb, ◌==◌, if◌then◌else◌}
use mail_time.Task.{Task, Update, no_update, with_lease}
use mail_time.Queue.{Queue}
use mail_time.MailTime.State.{MailTime, Side, server, client}
use mail_time.MailTime.Errors.{is_true}

pub record Renewal : Type 0 where
  pub stopped : Bool
  pub renewals : ℕ

abbrev pub is_server : Side → Bool
is_server server = true
is_server client = false

-- Without renewal there is no timer, which is a timer that is stopped.
unfoldable pub start_claim_renewal : MailTime → Renewal
start_claim_renewal m = record {
  stopped = m.renew_claim == 0 || (m.max_renewals == 0 || not (is_server m.side));
  renewals = 0;
}

abbrev pub halt : Renewal → Renewal
halt r = record r { stopped = true }

-- Strictly later than the stamp that the row has.
abbrev pub renewed_at : ℕ → Task → ℕ
renewed_at now t = max now (t.sending_at + 1)

abbrev pub stamp_update : ℕ → Update
stamp_update stamp = record no_update { is_sending = some true; sending_at = some stamp }

module _ (q : Queue) (m : MailTime) where
  unfoldable pub renew : ℕ → q.Store → Task → Renewal → q.Store × Task × Renewal
  renew now s t r =
      if r.stopped || (m.is_destroyed || m.abort_in_flight)
      then (s, t, halt r)
      else if leb m.max_renewals r.renewals
      then (s, t, halt r)
      else (let (s', answer) = q.update now s t (with_lease t (stamp_update (renewed_at now t))) in
          let r' = record r { renewals = r.renewals + 1 } in
          if is_true answer
          then (s', record t { sending_at = renewed_at now t }, r')
          else (s', t, halt r'))
