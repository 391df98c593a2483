-- ===== src/System/Rounds.antt =====
-- One instance alone with one letter, round by round: each round scans and, if the letter is due,
-- makes an attempt with the row as it is. The query of the scan is that of the MongoDB adapter.
use mail_time.Prelude.{
  ℕ, ◌+◌, ◌<◌, ◌≤◌, ◌≡◌, true, false, List, [], ◌∷◌, ◌++◌, Option, none, some, if◌then◌else◌,
}
use mail_time.Js.Text.{Text}
use mail_time.Js.Value.{Value}
use mail_time.Task.{Task}
use mail_time.Queue.{Queue, Conforms, Reports, is_open}
use mail_time.Adapters.Mongo.{due_query}
use mail_time.MailTime.State.{MailTime}
use mail_time.MailTime.Errors.{Hook, on_error}
use mail_time.MailTime.Recipients.Finalized.{AreAcceptedLists}
use mail_time.MailTime.Send.{Attempt, send}
use mail_time.MailTime.Send.Phase.{is_ended}
use mail_time.MailTime.Send.Wins.{Calm}
use mail_time.MailTime.Send.Alone.Failed.{is_failing}

pub record Round : Type 0 where
  pub claimed_at : ℕ
  pub done_at : ℕ
  pub transmit : Task → Attempt

module _ (show : Value → Text) (q : Queue) (m : MailTime) where
  abbrev pub told : q.Store × Option Task × List Hook → q.Store × List Hook
  told (s, t, hooks) = (s, hooks)

  unfoldable pub round : Round → q.Store → Option Task → q.Store × List Hook
  round rd s none = (s, [])
  round rd s (some t) =
      if due_query rd.claimed_at q.timeout m.max_tries t
      then told (send show q m rd.claimed_at rd.done_at s t rd.transmit)
      else (s, [])

  unfoldable pub rounds : List Round → q.Store → q.Key → q.Store × List Hook
  unfolding round
  rounds [] s key = (s, [])
  rounds (rd ∷ rest) s key =
      let (s', hooks) = round rd s (q.look s key) in
      let (s'', more) = rounds rest s' key in (s'', hooks ++ more)

-- From a time on, each round comes when the letter is due again.
abbrev pub AreSpaced : ℕ → ℕ → List Round → Type 0
AreSpaced delay from [] = Unit {0}
AreSpaced delay from (rd ∷ rest) =
    (from ≤ rd.claimed_at) × AreSpaced delay (rd.done_at + delay) rest

abbrev pub AllFail : List Round → Type 0
AllFail [] = Unit {0}
AllFail (rd ∷ rest) = ((t : Task) → is_failing (rd.transmit t) ≡ true) × AllFail rest

module _ (show : Value → Text) (q : Queue) (IsSound : q.Store → Type 0) (c : Conforms q IsSound)
    (reports : Reports q IsSound) (calm : Calm q) (m : MailTime)
    (running : m.abort_in_flight ≡ false) where
  -- The letter has ended, and `onError` was called once and nothing else.
  abbrev pub GivenUp : q.Key → q.Store × List Hook → Type 0
  GivenUp key o =
      (is_ended (q.look o.0 key) ≡ true)
      × ((error : Value) × (done : Task) × (info : Value) × (o.1 ≡ on_error error done info ∷ []))

  -- A letter that waits for an attempt, in a store that is as the contract wants it.
  abbrev pub Waits : q.Store → q.Key → Task → Type 0
  Waits s key r =
      IsSound s
      × q.IsKey key
      × (q.look s key ≡ some r)
      × (q.key r ≡ key)
      × (is_open r ≡ true)
      × (r.is_sending ≡ false)
      × (r.tries < m.max_tries)
      × AreAcceptedLists r.mail_options
