-- ===== src/MailTime/Configure.antt =====
-- index.js, the constructor: its checks (`Checks`), then how the options (`Options`) become the
-- fields of an instance, and, of a server, the scheduler (`Scheduler`). The transports and the
-- fail-over policy, which are the user's objects, are passed beside the other options; `retries` is a
-- natural number, so that the check of a negative one is left out.
pub mod Usable
use mail_time.Prelude.{
  ℕ, Bool, true, false, not, List, [], ◌∷◌, ◌++◌, Option, none, some, if◌then◌else◌,
}
use mail_time.Js.Text.{Text, lit, add_all}
use mail_time.Js.Value.{Value, str, func, obj, Items, nil, cons, Fields, get, bool, prop, items}
use mail_time.Task.{Task}
use mail_time.MailTime.Checks.{Refusal, no_options, queue_refusal, server_refusal}
use mail_time.MailTime.Options.{
  number_or, positive_or, text_or, filled_or, is_exactly_true, is_exactly_false, side_of, mode_of,
  strategy_of, max_tries_of, delay_of, renew_claim_of, is_object, is_func,
}
use mail_time.MailTime.Scheduler.{Schedule, schedule}
use mail_time.MailTime.State.{MailTime, Transport, Side, server, client}

unfoldable pub strict_mail_fields : List Text
strict_mail_fields =
    lit "to"
    ∷ lit "cc"
    ∷ lit "bcc"
    ∷ lit "replyTo"
    ∷ lit "subject"
    ∷ lit "text"
    ∷ lit "html"
    ∷ lit "headers"
    ∷ lit "list"
    ∷ lit "priority"
    ∷ lit "encoding"
    ∷ lit "textEncoding"
    ∷ lit "inReplyTo"
    ∷ lit "references"
    ∷ lit "date"
    ∷ []

unfoldable pub texts_of : Items → List Text
texts_of nil = []
texts_of (cons (str s) vs) = s ∷ texts_of vs
texts_of (cons v vs) = texts_of vs

unfoldable pub concat_subject_of : Value → Value → Text
concat_subject_of (obj fs) subject =
    filled_or (filled_or (lit "Multiple notifications") subject) (get (lit "subject") fs)
concat_subject_of _ subject = filled_or (lit "Multiple notifications") subject

unfoldable pub concat_emails_of : Value → Bool
concat_emails_of (bool b) = b
concat_emails_of (obj fs) = true
concat_emails_of _ = false

-- `from`: none, a text that it always gives, or the user's function.
pub data From : Type 0 where
  no_from : From
  always : Text → From
  computed : ℕ → From

abbrev pub from_of : Value → From
from_of (str s) = always s
from_of (func n) = computed n
from_of _ = no_from

-- A hook that is not a function is `noop`: `none`.
abbrev pub hook_of : Value → Option Value
hook_of v = if is_func v then some v else none

-- What the constructor makes beside the fields of the instance. A client has no scheduler.
pub record Instance : Type 0 where
  pub fields : MailTime
  pub queue : Value
  pub from : From
  pub on_sent : Option Value
  pub on_error : Option Value
  pub scheduler : Option Schedule

pub data Built : Type 0 where
  built : Instance → Built
  refused : Refusal → Built

abbrev pub is_server_side : Side → Bool
is_server_side server = true
is_server_side client = false

module _ (opts : Value) (transports : List Transport)
    (policy : Option (Value → Value → Task → Option Value)) where
  abbrev pub option : Text → Value
  option name = prop name opts

  unfoldable pub instance_fields : MailTime
  instance_fields = record {
    side = side_of (option (lit "type"));
    prefix = text_or [] (option (lit "prefix"));
    max_tries = max_tries_of (option (lit "retries")) (option (lit "maxTries"));
    retry_delay = delay_of (option (lit "retryDelay")) (option (lit "interval"));
    template = text_or (lit "{{{html}}}") (option (lit "template"));
    keep_history = is_exactly_true (option (lit "keepHistory"));
    revolving_interval = positive_or 1536 (option (lit "revolvingInterval"));
    mode = mode_of (option (lit "mode"));
    concurrency = positive_or 1 (option (lit "concurrency"));
    sending_timeout = positive_or 300000 (option (lit "sendingTimeout"));
    renew_claim =
        renew_claim_of (option (lit "renewClaim"))
          (positive_or 300000 (option (lit "sendingTimeout")));
    max_renewals = number_or 10 (option (lit "maxRenewals"));
    should_fail_over = policy;
    strict_payload = is_exactly_true (option (lit "strictPayload"));
    allowed_mail_fields =
        add_all [] (strict_mail_fields ++ texts_of (items (option (lit "allowedMailFields"))));
    is_destroyed = false;
    abort_in_flight = false;
    is_paused = false;
    in_flight = [];
    fails_to_next = positive_or 4 (option (lit "failsToNext"));
    strategy = strategy_of (option (lit "strategy"));
    transports = transports;
    transport = 0;
    verify_transports = not (is_exactly_false (option (lit "verifyTransports")));
    unhealthy_transports = [];
    concat_subject = concat_subject_of (option (lit "concatEmails")) (option (lit "concatSubject"));
    concat_emails = concat_emails_of (option (lit "concatEmails"));
    concat_delimiter = filled_or (lit "<hr>") (option (lit "concatDelimiter"));
    concat_delay = delay_of (option (lit "concatDelay")) (option (lit "concatThrottling"));
  }

  -- The instance, of a server with its scheduler.
  unfoldable pub instance_of_options : (Text → Fields → Value) → Instance
  unfolding instance_fields
  instance_of_options build = record {
    fields = instance_fields;
    queue = option (lit "queue");
    from = from_of (option (lit "from"));
    on_sent = hook_of (option (lit "onSent"));
    on_error = hook_of (option (lit "onError"));
    scheduler =
        if is_server_side instance_fields.side
        then some (
            schedule build instance_fields.prefix instance_fields.revolving_interval
              (option (lit "josk")))
        else none;
  }

  -- The first check that fails.
  unfoldable pub refusal : Option Refusal
  refusal =
      if not (is_object opts)
      then some no_options
      else elim (queue_refusal (option (lit "queue"))) [
        | some r ↦ some r
        | none ↦ server_refusal (side_of (option (lit "type"))) transports (option (lit "josk"))
      ]

  unfoldable pub configure : (Text → Fields → Value) → Built
  unfolding instance_of_options refusal
  configure build = elim refusal [ some r ↦ refused r | none ↦ built (instance_of_options build) ]
