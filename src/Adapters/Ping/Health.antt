-- ===== src/Adapters/Ping/Health.antt =====
-- When the answer to a ping is the one of a service that is up.
use mail_time.Prelude.{◌≡◌, refl, Bool, true, false, ◌&&◌, some, Bool-cases, inl, inr}
use mail_time.Js.Text.{lit, text_eq}
use mail_time.Adapters.Ping.{Reply, expected, unexpected, rejected, PingResult, ping_redis, ping}

abbrev is_ok : PingResult → Bool
is_ok p = text_eq p.status (lit "OK")

abbrev is_expected : Reply → Bool
is_expected expected = true
is_expected r = false

storage_ok :
    (is_assigned : Bool) (reply : Reply)
    → is_ok (ping_redis is_assigned reply) ≡ (is_assigned && is_expected reply)
unfolding ping_redis text_eq
storage_ok false reply = refl
storage_ok true expected = refl
storage_ok true unexpected = refl
storage_ok true (rejected error) = refl

-- On an instance with a scheduler, the answer is OK exactly if that of the scheduler is, the queue
-- belongs to an instance, and the storage gave the reply that was expected.
ping-ping_redis :
    (is_paused is_assigned : Bool) (scheduler : PingResult) (reply : Reply)
    → is_ok (ping is_paused (some scheduler) (ping_redis is_assigned reply))
      ≡ (is_ok scheduler && (is_assigned && is_expected reply))
unfolding ping
ping-ping_redis is_paused is_assigned scheduler reply = elim (Bool-cases (is_ok scheduler)) [
  | inl e ↦ rw e (storage_ok is_assigned reply)
  | inr e ↦ rw e e
]
