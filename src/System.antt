-- ===== src/System.antt =====
-- Any number of workers (server processes, each with a `MailTime` of its own) on one letter of a
-- shared queue, interleaved call by call. `key` is the letter's row. Between two calls anything may
-- happen: another worker's call, a cancellation, an append, a call on another letter.
pub mod Safety
pub mod Steps
pub mod Attempts
pub mod Reached
pub mod Rounds
use mail_time.Prelude.{
  ℕ, ◌+◌, ◌≡◌, List, [], ◌++◌, Option, none, some, Bool, true, ◌==◌, if◌then◌else◌,
}
use mail_time.Js.Text.{Text}
use mail_time.Js.Value.{Value}
use mail_time.Task.{Task, MailOption, no_update, is_some}
use mail_time.Queue.{Queue}
use mail_time.Adapters.Mongo.{due_query}
use mail_time.Adapters.Postgres.{due_where}
use mail_time.Adapters.Redis.{is_iterate_candidate}
use mail_time.MailTime.State.{MailTime}
use mail_time.MailTime.Errors.{Hook}
use mail_time.MailTime.Renewal.{Renewal, renew}
use mail_time.MailTime.Send.{Attempt, claim, choose_transport, after_attempt}
use mail_time.MailTime.Send.Phase.{IsAt}

-- The copy of the letter that a worker holds between its claim and the end of its attempt, the
-- attempts made so far, and the calls of `onSent` and `onError` so far.
pub record System (q : Queue) : Type 0 where
  pub store : q.Store
  pub worker : ℕ → Option Task
  pub attempts : ℕ
  pub hooks : List Hook

abbrev pub set_worker : (ℕ → Option Task) → ℕ → Option Task → ℕ → Option Task
set_worker f i t j = if i == j then t else f j

-- What the scan of one of the adapters picks, at some time: the query of MongoDB, the query of
-- PostgreSQL, and the test of Redis.
pub data IsScanned (timeout max_tries : ℕ) (t : Task) : Type 0 where
  by_mongo : (now : ℕ) → due_query now timeout max_tries t ≡ true → IsScanned timeout max_tries t
  by_postgres : (now : ℕ) → due_where now timeout max_tries t ≡ true → IsScanned timeout max_tries t
  by_redis :
      (now : ℕ)
      → is_iterate_candidate (some t) now timeout max_tries ≡ true
      → IsScanned timeout max_tries t

module _ (show : Value → Text) (q : Queue) (IsSound : q.Store → Type 0) (m : ℕ → MailTime)
    (key : q.Key) (Picks : Task → Type 0) where
  -- `Picks` says which snapshots a worker may be given to send.
  pub data Step (x : System q) : System q → Type 0 where
    claims :
        (i now : ℕ) (t : Task)
        → x.worker i ≡ none
        → q.key t ≡ key
        → Picks t
        → Step x (record {
          store = (claim q (m i) now x.store t).0;
          worker = set_worker x.worker i (claim q (m i) now x.store t).1;
          attempts = if is_some (claim q (m i) now x.store t).1 then x.attempts + 1 else x.attempts;
          hooks = x.hooks;
        })
    chooses :
        (i : ℕ) (t : Task)
        → x.worker i ≡ some t
        → Step x (record x { worker = set_worker x.worker i (some (choose_transport (m i) t)) })
    renews :
        (i now : ℕ) (t : Task) (r : Renewal)
        → x.worker i ≡ some t
        → Step x (record x {
          store = (renew q (m i) now x.store t r).0;
          worker = set_worker x.worker i (some (renew q (m i) now x.store t r).1);
        })
    ends :
        (i now : ℕ) (t : Task) (attempt : Attempt)
        → x.worker i ≡ some t
        → Step x (record x {
          store = (after_attempt show q (m i) now x.store t attempt).0;
          worker = set_worker x.worker i none;
          hooks = x.hooks ++ (after_attempt show q (m i) now x.store t attempt).2;
        })
    removes : (t : Task) → q.key t ≡ key → Step x (record x { store = (q.remove x.store t none).0 })
    cancels :
        (now : ℕ) (t : Task)
        → q.key t ≡ key
        → Step x (record x {
          store = (q.update now x.store t (record no_update { is_cancelled = some true })).0;
        })
    appends :
        (now : ℕ) (t : Task) (mo : MailOption)
        → q.key t ≡ key
        → Step x (record x {
          store = (q.update now x.store t (record no_update { append_mail_option = some mo })).0;
        })
    others :
        (s : q.Store)
        → IsSound s
        → q.look s key ≡ q.look x.store key
        → Step x (record x { store = s })

  pub data Reach : System q → Type 0 where
    start :
        (s : q.Store)
        → IsSound s
        → IsAt q s key
        → Reach (record { store = s; worker = λ i. none; attempts = 0; hooks = [] })
    later : {x y : System q} → Reach x → Step x y → Reach y
