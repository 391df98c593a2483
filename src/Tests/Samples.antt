-- ===== src/Tests/Samples.antt =====
-- The instances and letters that the tests share.
use native.Mathlib.Decide.{ℕ_discrete}
use mail_time.Prelude.{◌≡◌, refl, true, false, [], ◌∷◌, none, some}
use mail_time.Js.Text.{lit}
use mail_time.Js.Value.{str, arr, nil, cons, obj, end, field}
use mail_time.Task.{Task, MailOption}
use mail_time.Queue.{Queue, Conforms, Reports}
use mail_time.Adapters.Mongo.{update, set, set_query, claim_query, Instance}
use mail_time.Adapters.Mongo.Contract.{queue, queue-Conforms}
use mail_time.Adapters.Rows.{find_first, IsUnique}
use mail_time.MailTime.State.{MailTime, Transport, server, backup, batch}
use mail_time.MailTime.Send.{claim, claimed}
use mail_time.Tests.Driver.{
  changed, count_changed, task-discrete, list_collection, list_collection-Laws,
}

abbrev pub plain_transport : Transport
plain_transport = record {
  underscore_options = obj end;
  options = obj end;
  transporter = obj end;
  defaults = obj end;
}

-- Three transports, of which the second is unhealthy.
abbrev pub mailer : MailTime
mailer = record {
  side = server;
  prefix = [];
  max_tries = 3;
  retry_delay = 60;
  template = lit "{{html}}";
  keep_history = true;
  revolving_interval = 1536;
  mode = batch;
  concurrency = 2;
  sending_timeout = 300;
  renew_claim = 0;
  max_renewals = 5;
  should_fail_over = none;
  strict_payload = false;
  allowed_mail_fields = [];
  is_destroyed = false;
  abort_in_flight = false;
  is_paused = false;
  in_flight = [];
  fails_to_next = 4;
  strategy = backup;
  transports = plain_transport ∷ plain_transport ∷ plain_transport ∷ [];
  transport = 0;
  verify_transports = true;
  unhealthy_transports = 1 ∷ [];
  concat_subject = [];
  concat_emails = false;
  concat_delimiter = lit "<hr>";
  concat_delay = 60000;
}

abbrev pub to_ann_and_bob : MailOption
to_ann_and_bob =
    field (lit "to") (arr (cons (str (lit "ann@a.io")) (cons (str (lit "bob@b.io")) nil))) end

abbrev pub letter : Task
letter = record {
  id = 1;
  uuid = lit "u1";
  to = str (lit "ann@a.io");
  tries = 0;
  send_at = 5;
  is_sent = false;
  is_cancelled = false;
  is_failed = false;
  is_sending = false;
  sending_at = 0;
  template = none;
  transport = 0;
  concat_subject = none;
  mail_options = to_ann_and_bob ∷ [];
}

abbrev pub settings : Instance
settings = record { max_tries = 3; keep_history = true; sending_timeout = 300 }

abbrev pub mongo : Queue
mongo = queue list_collection settings

pub mongo-Conforms : Conforms mongo (λ s. IsUnique s)
mongo-Conforms = (queue-Conforms list_collection list_collection-Laws settings).0

pub mongo-Reports : Reports mongo (λ s. IsUnique s)
mongo-Reports = (queue-Conforms list_collection list_collection-Laws settings).1

pub claim_test : (claim mongo mailer 10 (letter ∷ []) letter).1 ≡ some (claimed 10 letter)
unfolding claim changed count_changed find_first task-discrete update set set_query claim_query
    ℕ_discrete
claim_test = refl
