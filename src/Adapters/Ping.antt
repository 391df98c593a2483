-- ===== src/Adapters/Ping.antt =====
-- `ping` of the adapters (adapters/mongo.js, adapters/redis.js, adapters/postgres.js). Whether the
-- queue has been given to an instance, and how the call of the storage ends, are arguments.
pub mod Health
use mail_time.Prelude.{ℕ, Bool, true, false, Option, none, some, if◌then◌else◌}
use mail_time.Js.Text.{Text, lit, text_eq}
use mail_time.Js.Value.{Value}
use mail_time.MailTime.Errors.{new_error}

-- `expected` is `{ ok: 1 }`, `PONG`, or a first row whose `ping` is 1.
pub data Reply : Type 0 where
  expected unexpected : Reply
  rejected : Value → Reply

-- `paused` is added by the instance.
pub record PingResult : Type 0 where
  pub status : Text
  pub code : ℕ
  pub status_code : ℕ
  pub error : Option Value
  pub paused : Option Bool

abbrev pub fine : PingResult
fine = record { status = lit "OK"; code = 200; status_code = 200; error = none; paused = none }

abbrev pub unavailable : Text → PingResult
unavailable message = record {
  status = lit "Service Unavailable";
  code = 503;
  status_code = 503;
  error = some (new_error message);
  paused = none;
}

abbrev pub internal_error : Value → PingResult
internal_error error = record {
  status = lit "Internal Server Error";
  code = 500;
  status_code = 500;
  error = some error;
  paused = none;
}

abbrev pub unassigned : PingResult
unassigned =
    unavailable
      (lit "MailTime instance not yet assigned to {mailTimeInstance} of Queue Adapter context")

abbrev pub of_reply : Reply → PingResult
of_reply expected = fine
of_reply unexpected = unavailable (lit "Service Unavailable")
of_reply (rejected error) = internal_error error

unfoldable pub ping_mongo : Bool → Reply → PingResult
ping_mongo is_assigned command = if is_assigned then of_reply command else unassigned

unfoldable pub ping_redis : Bool → Reply → PingResult
ping_redis is_assigned command = if is_assigned then of_reply command else unassigned

-- `ready` comes first; it has failed with an error, or not.
unfoldable pub ping_postgres : Bool → Option Value → Reply → PingResult
ping_postgres is_assigned (some error) query =
    if is_assigned then internal_error error else unassigned
ping_postgres is_assigned none query = if is_assigned then of_reply query else unassigned

-- index.js, `MailTime.ping`: the scheduler's answer, where there is a scheduler, and the queue's.
unfoldable pub ping : Bool → Option PingResult → PingResult → PingResult
ping is_paused none queue = record queue { paused = some is_paused }
ping is_paused (some scheduler) queue =
    if text_eq scheduler.status (lit "OK")
    then record queue { paused = some is_paused }
    else record scheduler { paused = some is_paused }
