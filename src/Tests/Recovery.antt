-- ===== src/Tests/Recovery.antt =====
-- A letter that a crashed worker left behind is claimed again once its claim is stale, and an
-- instance starts with a transport that works.
use native.Mathlib.Decide.{ℕ_discrete}
use mail_time.Prelude.{
  ◌<◌, ◌≡◌, ◌≢◌, refl, sym, ◌∙◌, true, List, [], ◌∷◌, Option, none, some, arith, get_elem?,
}
use mail_time.Task.{Task}
use mail_time.Queue.{returned, threw}
use mail_time.Adapters.Rows.{IsUnique, find_first}
use mail_time.Adapters.Mongo.{update, set, set_query, claim_query}
use mail_time.MailTime.Send.{claim, claimed, claim_update}
use mail_time.MailTime.Send.Recovery.{claim_wins}
use mail_time.Tests.Driver.{changed, count_changed, task-discrete}
use mail_time.Js.Text.{text_eq}
use mail_time.Js.Value.{Value, null}
use mail_time.Adapters.Ping.{fine}
use mail_time.MailTime.State.{MailTime}
use mail_time.MailTime.Startup.{get_ready, is_ready, get_ready-is_healthy_transport}
use mail_time.MailTime.Transports.{
  failure, verify_transports, mark_unhealthy, has_index, next_healthy_transport, search_healthy,
  is_healthy_transport,
}
use mail_time.Tests.Samples.{mongo, mongo-Conforms, mongo-Reports, mailer, letter}

-- Claimed at 10, and stale at 310.
abbrev left_behind : Task
left_behind = claimed 10 letter

answered :
    (mongo.update 310 (left_behind ∷ []) left_behind (claim_update 310 left_behind)).1
    ≡ returned true
unfolding update set set_query claim_query changed count_changed task-discrete find_first ℕ_discrete
answered = refl

no_exception :
    (mongo.update 310 (left_behind ∷ []) left_behind (claim_update 310 left_behind)).1 ≢ threw
no_exception e = absurd (apart (sym answered ∙ e))
  where
    apart : returned true ≢ threw
    apart e' = cc

claim_wins_example :
    (claim mongo mailer 310 (left_behind ∷ []) left_behind).1 ≡ some (claimed 310 left_behind)
unfolding find_first
claim_wins_example =
    claim_wins mongo (λ s. IsUnique s) mongo-Conforms mongo-Reports mailer 310 (left_behind ∷ [])
      left_behind left_behind (refl, tt) tt refl refl refl no_exception

-- The first transport fails its probe, and the second is picked.
abbrev starting : MailTime
starting = record mailer { unhealthy_transports = [] }

abbrev started : MailTime
started = record mailer { unhealthy_transports = 0 ∷ []; transport = 1 }

abbrev probes : List (Option Value)
probes = some null ∷ none ∷ none ∷ []

started_up : get_ready true true fine probes starting ≡ is_ready started (failure 0 null ∷ [])
unfolding get_ready verify_transports mark_unhealthy has_index next_healthy_transport search_healthy
    is_healthy_transport text_eq
started_up = refl

get_ready-is_healthy_transport_example :
    (1 < 3) × (is_healthy_transport started 1 ≡ true) × (get_elem? probes 1 ≡ some none)
get_ready-is_healthy_transport_example =
    get_ready-is_healthy_transport true true fine probes starting started (failure 0 null ∷ [])
      started_up refl refl refl (omega arith)
