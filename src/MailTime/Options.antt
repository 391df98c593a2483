-- ===== src/MailTime/Options.antt =====
-- index.js, the constructor: how it reads an option whose numbers are natural numbers. There `Math.floor`
-- changes nothing, `Number.isFinite` holds, and no number is negative; a fraction, a negative number,
-- NaN and Infinity are outside of the model.
use mail_time.Prelude.{ℕ, ◌+◌, ◌*◌, ◌/◌, Bool, true, false, not, max, ◌==◌, if◌then◌else◌}
use mail_time.Js.Text.{Text, lit, text_eq, is_empty}
use mail_time.Js.Value.{Value, bool, num, str, date, instance_of, func, arr, obj}
use mail_time.MailTime.State.{Strategy, backup, balancer, Mode, one, batch, Side, server, client}

-- `typeof value === 'number' ? value : d`, and the same of a number above 0.
abbrev pub number_or : ℕ → Value → ℕ
number_or d (num n) = n
number_or d _ = d

abbrev pub positive_or : ℕ → Value → ℕ
positive_or d (num n) = if n == 0 then d else n
positive_or d _ = d

abbrev pub text_or : Text → Value → Text
text_or d (str s) = s
text_or d _ = d

-- `typeof value === 'string' && value ? value : d`.
abbrev pub filled_or : Text → Value → Text
filled_or d (str s) = if is_empty s then d else s
filled_or d _ = d

-- `value === true`, `value !== false`.
abbrev pub is_exactly_true : Value → Bool
is_exactly_true (bool b) = b
is_exactly_true _ = false

abbrev pub is_exactly_false : Value → Bool
is_exactly_false (bool b) = not b
is_exactly_false _ = false

abbrev pub side_of : Value → Side
side_of (str s) = if text_eq s (lit "client") then client else server
side_of _ = server

abbrev pub mode_of : Value → Mode
mode_of (str s) = if text_eq s (lit "one") then one else batch
mode_of _ = batch

abbrev pub strategy_of : Value → Strategy
strategy_of (str s) = if text_eq s (lit "balancer") then balancer else backup
strategy_of _ = backup

unfoldable pub max_tries_of : Value → Value → ℕ
max_tries_of (num retries) max_tries = retries + 1
max_tries_of _ (num n) = if n == 0 then 1 else n
max_tries_of _ _ = 60

-- Milliseconds, or the older option in seconds; a minute if neither is a number.
unfoldable pub delay_of : Value → Value → ℕ
delay_of (num ms) seconds = ms
delay_of _ (num seconds) = seconds * 1000
delay_of _ _ = 60000

unfoldable pub renew_claim_of : Value → ℕ → ℕ
renew_claim_of (bool false) sending_timeout = 0
renew_claim_of (num n) sending_timeout = n
renew_claim_of _ sending_timeout = max 1000 (sending_timeout / 3)

-- `value && typeof value === 'object'`.
abbrev pub is_object : Value → Bool
is_object (arr xs) = true
is_object (obj fs) = true
is_object (instance_of n fs) = true
is_object (date n) = true
is_object _ = false

abbrev pub is_text : Value → Text → Bool
is_text (str s) t = text_eq s t
is_text _ t = false

-- `typeof value === 'function'`.
abbrev pub is_func : Value → Bool
is_func (func n) = true
is_func _ = false

-- `typeof value === 'boolean'`.
abbrev pub is_bool : Value → Bool
is_bool (bool b) = true
is_bool _ = false
