-- ===== src/MailTime/State.antt =====
-- index.js: the fields of a `MailTime` instance that its constructor sets and its methods read.
-- Callbacks of the user are functions: `should_fail_over` answers a value or throws (`none`).
-- A transport is what the library reads of it: its `_options`, `options`, `transporter` and
-- `_defaults`.
use mail_time.Prelude.{ℕ, Bool, List, Option}
use mail_time.Js.Text.{Text}
use mail_time.Js.Value.{Value}
use mail_time.Task.{Task}

pub data Strategy : Type 0 where
  backup balancer : Strategy

pub data Mode : Type 0 where
  one batch : Mode

pub data Side : Type 0 where
  server client : Side

pub record Transport : Type 0 where
  pub underscore_options : Value
  pub options : Value
  pub transporter : Value
  pub defaults : Value

pub record MailTime : Type 0 where
  pub side : Side
  pub prefix : Text
  pub max_tries : ℕ
  pub retry_delay : ℕ
  pub template : Text
  pub keep_history : Bool
  pub revolving_interval : ℕ
  pub mode : Mode
  pub concurrency : ℕ
  pub sending_timeout : ℕ
  pub renew_claim : ℕ
  pub max_renewals : ℕ
  pub should_fail_over : Option (Value → Value → Task → Option Value)
  pub strict_payload : Bool
  pub allowed_mail_fields : List Text
  pub is_destroyed : Bool
  pub abort_in_flight : Bool
  pub is_paused : Bool
  pub in_flight : List Text
  pub fails_to_next : ℕ
  pub strategy : Strategy
  pub transports : List Transport
  pub transport : ℕ
  pub verify_transports : Bool
  pub unhealthy_transports : List ℕ
  pub concat_subject : Text
  pub concat_emails : Bool
  pub concat_delimiter : Text
  pub concat_delay : ℕ
