-- ===== src/System/Reached.antt =====
-- Every state that the workers of a letter reach, over any queue that keeps the contract.
use mail_time.Prelude.{ℕ, ◌<◌, ◌≤◌, ◌≡◌, ◌≢◌, sym, ◌∙◌, inl, inr, true, [], some, arith, length}
use mail_time.Js.Text.{Text}
use mail_time.Js.Value.{Value}
use mail_time.Task.{Task}
use mail_time.Queue.{Queue, Conforms, lease_guard}
use mail_time.MailTime.State.{MailTime}
use mail_time.MailTime.Send.Phase.{lease_of, is_ended}
use mail_time.Adapters.Mongo.{due_query}
use mail_time.Adapters.Postgres.{due_where}
use mail_time.Adapters.Redis.{is_iterate_candidate}
use mail_time.System.{System, Reach, IsScanned, by_mongo, by_postgres, by_redis}
use mail_time.System.Steps.{Reach-Inv}
use mail_time.System.Attempts.{Reach-bounded}

lease_tries_of : (t r : Task) → lease_guard (lease_of t) r ≡ true → r.tries ≡ t.tries
lease_tries_of t r g = ground arith

module _ (show : Value → Text) (q : Queue) (IsSound : q.Store → Type 0) (c : Conforms q IsSound)
    (m : ℕ → MailTime) (key : q.Key) (Picks : Task → Type 0) where
  -- Over any queue that keeps the contract, in every state that the workers of a letter reach,
  -- `onSent` and `onError` have been called at most once in all for the letter.
  pub hooks_at_most_once : (x : System q) → Reach show q IsSound m key Picks x → length x.hooks ≤ 1
  hooks_at_most_once x reach = elim (Reach-Inv show q IsSound c m key Picks x reach).told [
    | inl e ↦ rw e (omega arith)
    | inr (e, n) ↦ omega (arith, n)
  ]

  -- Over any queue that keeps the contract, in every state that the workers of a letter reach, a
  -- letter of which a hook has been called has ended: its row is gone, sent, failed or cancelled.
  pub hooks-is_ended :
      (x : System q)
      → Reach show q IsSound m key Picks x
      → x.hooks ≢ []
      → is_ended (q.look x.store key) ≡ true
  hooks-is_ended x reach ne = elim (Reach-Inv show q IsSound c m key Picks x reach).told [
    | inl e ↦ absurd (ne e)
    | inr (e, n) ↦ e
  ]

  -- Over any queue that keeps the contract, in every state that the workers of a letter reach, two
  -- workers whose leases both match the row are the same worker.
  pub one_live_lease :
      (x : System q)
      → Reach show q IsSound m key Picks x
      → (i j : ℕ) (t u r : Task) → x.worker i ≡ some t
      → x.worker j ≡ some u
      → q.look x.store key ≡ some r
      → lease_guard (lease_of t) r ≡ true
      → lease_guard (lease_of u) r ≡ true
      → i ≡ j
  one_live_lease x reach i j t u r e f found g h =
      (Reach-Inv show q IsSound c m key Picks x reach).apart i j t u e f
        (sym (lease_tries_of t r g) ∙ lease_tries_of u r h)

-- Every scan leaves out a letter that has no tries left.
IsScanned-tries :
    (timeout max_tries : ℕ) (t : Task) → IsScanned timeout max_tries t → t.tries < max_tries
unfolding due_query due_where is_iterate_candidate
IsScanned-tries timeout max_tries t (by_mongo now e) = ground (arith, e)
IsScanned-tries timeout max_tries t (by_postgres now e) = ground (arith, e)
IsScanned-tries timeout max_tries t (by_redis now e) = ground (arith, e)

-- Over any queue that keeps the contract, in every state that the workers of a letter reach by
-- claiming only what the scan of one of the adapters picks under `max_tries`, at any time, the
-- claims won for the letter, which are its delivery attempts, are at most `max_tries`.
pub attempts_bounded :
    (show : Value → Text) (q : Queue) (IsSound : q.Store → Type 0) (c : Conforms q IsSound)
    (m : ℕ → MailTime) (key : q.Key) (max_tries : ℕ) (x : System q)
    → Reach show q IsSound m key (λ t. IsScanned q.timeout max_tries t) x
    → x.attempts ≤ max_tries
attempts_bounded show q IsSound c m key max_tries x reach =
    Reach-bounded show q IsSound c m key (λ t. IsScanned q.timeout max_tries t) max_tries
      (λ t p. IsScanned-tries q.timeout max_tries t p) x reach
