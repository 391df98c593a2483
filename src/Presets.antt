-- ===== src/Presets.antt =====
-- presets.js: the option sets and `mailTimePreset`. `onError` of every preset is the one function
-- `default_preset_on_error`, which logs.
use mail_time.Prelude.{ℕ, true, false, Option, none, some, if◌then◌else◌}
use mail_time.Js.Text.{lit}
use mail_time.Js.Value.{
  Value, undefined, bool, num, str, func, obj, Fields, end, field, get, has_own,
}
use mail_time.Helpers.Merge.{deep_merge}

abbrev pub default_preset_on_error : Value
default_preset_on_error = func 0

abbrev pub josk_of : ℕ → Value
josk_of zombie_time = obj (field (lit "zombieTime") (num zombie_time) end)

abbrev pub quick_josk : Value
quick_josk = obj (
    field (lit "minRevolvingDelay") (num 256)
      (field (lit "maxRevolvingDelay") (num 1024) (field (lit "zombieTime") (num 60000) end)))

-- The properties that every preset ends with.
abbrev pub ending : ℕ → Value → Fields
ending concurrency josk = field (lit "mode") (str (lit "batch")) (
    field (lit "concurrency") (num concurrency)
      (field (lit "onError") default_preset_on_error (field (lit "josk") josk end)))

abbrev pub transactional : Fields
transactional = field (lit "concatEmails") (bool false) (
    field (lit "retries") (num 30)
      (field (lit "retryDelay") (num 10000) (ending 1 (josk_of 120000))))

abbrev pub otp : Fields
otp = field (lit "concatEmails") (bool false) (
    field (lit "retries") (num 5) (
      field (lit "retryDelay") (num 2000) (
        field (lit "revolvingInterval") (num 1024)
          (field (lit "sendingTimeout") (num 120000) (ending 4 quick_josk)))))

abbrev pub newsletter : Fields
newsletter = field (lit "concatEmails") (bool true) (
    field (lit "concatDelay") (num 300000) (
      field (lit "concatSubject") (str (lit "Your updates")) (
        field (lit "retries") (num 5) (
          field (lit "retryDelay") (num 60000)
            (field (lit "sendingTimeout") (num 600000) (ending 2 (josk_of 300000)))))))

abbrev pub marketing : Fields
marketing = field (lit "concatEmails") (bool false) (
    field (lit "retries") (num 10)
      (field (lit "retryDelay") (num 30000) (ending 5 (josk_of 180000))))

abbrev pub notifications : Fields
notifications = field (lit "concatEmails") (bool true) (
    field (lit "concatDelay") (num 60000) (
      field (lit "concatSubject") (str (lit "New activity")) (
        field (lit "retries") (num 8)
          (field (lit "retryDelay") (num 30000) (ending 3 (josk_of 180000))))))

abbrev pub alerts : Fields
alerts = field (lit "concatEmails") (bool false) (
    field (lit "retries") (num 20) (
      field (lit "retryDelay") (num 5000) (
        field (lit "revolvingInterval") (num 1024)
          (field (lit "sendingTimeout") (num 120000) (ending 2 quick_josk)))))

abbrev pub presets : Fields
presets = field (lit "transactional") (obj transactional) (
    field (lit "otp") (obj otp) (
      field (lit "newsletter") (obj newsletter) (
        field (lit "marketing") (obj marketing) (
          field (lit "notifications") (obj notifications)
            (field (lit "alerts") (obj alerts) end)))))

-- `none` is an exception. An override that is given is a plain object.
abbrev pub overridden : Value → Value → Option Fields
overridden (obj preset) undefined = some (deep_merge end preset)
overridden (obj preset) (obj overrides) = some (deep_merge (deep_merge end preset) overrides)
overridden _ _ = none

unfoldable pub mail_time_preset : Value → Value → Option Fields
mail_time_preset (str name) overrides =
    if has_own name presets then overridden (get name presets) overrides else none
mail_time_preset _ overrides = none
