-- ===== src/Adapters/Redis.antt =====
-- adapters/redis.js: the guards that `RedisQueue` tests on the row that it has read, outside the
-- scripts that run inside Redis. `sendingAt > now - sendingTimeout` is written with the difference
-- on the other side.
pub mod Keys
pub mod Client
pub mod Transaction
pub mod Untagged
pub mod Commands
pub mod Scripts
pub mod Runner
pub mod Scan
pub mod Tagged
use mail_time.Prelude.{
  ℕ, ◌+◌, ◌≡◌, Bool, true, false, not, ◌&&◌, ◌||◌, Option, none, some, arith, ltb, leb, ◌==◌,
  if◌then◌else◌,
}
use mail_time.Task.{Task, Lease}
use mail_time.Queue.{claim_guard, lease_guard}
use mail_time.Adapters.Mongo.{due_query}

unfoldable pub can_release_lease : Option Task → Lease → Bool
can_release_lease none l = false
can_release_lease (some r) l =
    r.tries == l.lease_tries
    && (r.is_sending
        && (r.sending_at == l.lease_sending_at && (not r.is_cancelled && not r.is_failed)))

unfoldable pub can_claim_task : Option Task → Task → ℕ → ℕ → Bool
can_claim_task none t now sending_timeout = false
can_claim_task (some r) t now sending_timeout =
    if r.is_sent || (r.is_failed || r.is_cancelled)
    then false
    else if not (r.tries == t.tries)
    then false
    else if r.is_sending
    then not (ltb now (r.sending_at + sending_timeout))
    else true

unfoldable pub is_iterate_candidate : Option Task → ℕ → ℕ → ℕ → Bool
is_iterate_candidate none now sending_timeout max_tries = false
is_iterate_candidate (some r) now sending_timeout max_tries =
    if r.is_sent || (r.is_failed || r.is_cancelled)
    then false
    else if leb max_tries r.tries
    then false
    else if r.is_sending
    then not (ltb now (r.sending_at + sending_timeout))
    else true

-- On a row that exists, `canClaimTask` is the claim guard of the queue's contract and
-- `canReleaseLease` its lease guard.
pub can_claim_task-claim_guard :
    (r t : Task) (now sending_timeout : ℕ) (l : Lease)
    → (can_claim_task (some r) t now sending_timeout ≡ claim_guard now sending_timeout t.tries r)
      × (can_release_lease (some r) l ≡ lease_guard l r)
unfolding can_claim_task can_release_lease
can_claim_task-claim_guard r t now sending_timeout l = (ground arith, ground arith)

-- A row that `isIterateCandidate` accepts at a time when it is due is one that the query of the
-- MongoDB adapter's scan matches, and the other way round.
pub is_iterate_candidate-due_query :
    (r : Task) (now sending_timeout max_tries : ℕ)
    → (leb r.send_at now && is_iterate_candidate (some r) now sending_timeout max_tries)
      ≡ due_query now sending_timeout max_tries r
unfolding is_iterate_candidate due_query
is_iterate_candidate-due_query r now sending_timeout max_tries = ground arith
