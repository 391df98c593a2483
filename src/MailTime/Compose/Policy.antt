-- ===== src/MailTime/Compose/Policy.antt =====
-- What the payload policy lets through.
use mail_time.Prelude.{
  ◌≡◌, refl, ap, true, not, ◌&&◌, ◌||◌, List, arith, if◌then◌else◌, Bool-cases, inl, inr,
}
use mail_time.Js.Text.{Text, lit, text_eq, text_eq_iff, has}
use mail_time.Js.Value.{Value, undefined, Fields, end, field, get, get-delete_key}
use mail_time.Task.{MailOption}
use mail_time.MailTime.Queueing.{is_undefined}
use mail_time.MailTime.State.{MailTime}
use mail_time.MailTime.Compose.{apply_payload_policy, allowed_fields, without_raw}

has_congr : (set : List Text) (j k : Text) → text_eq j k ≡ true → has set j ≡ has set k
has_congr set j k e = ap (has set) ((text_eq_iff j k).0 e)

get-allowed_fields :
    (allowed : List Text) (fs : Fields) (k : Text)
    → get k (allowed_fields allowed fs) ≡ (if has allowed k then get k fs else undefined)
unfolding get allowed_fields
get-allowed_fields allowed end k = ground arith
get-allowed_fields allowed (field j v fs) k =
    ground (arith, get-allowed_fields allowed fs k, has_congr allowed j k)

raw_undefined : (v : Value) → is_undefined v ≡ true → v ≡ undefined
raw_undefined undefined e = refl
raw_undefined v e = cc

get-without_raw :
    (mo : MailOption) (k : Text)
    → get k (without_raw mo) ≡ (if text_eq (lit "raw") k then undefined else get k mo)
get-without_raw mo k = elim (Bool-cases (is_undefined (get (lit "raw") mo))) [
  | inl e ↦ rw e (ground (arith, raw_undefined (get (lit "raw") mo) e, text_eq_iff (lit "raw") k))
  | inr e ↦ rw e (get-delete_key (lit "raw") k mo)
]

-- What the payload policy leaves of a mail option: never `raw`, under `strictPayload` only the
-- fields of the allow list, and every other field as it was.
pub get-apply_payload_policy :
    (m : MailTime) (mo : MailOption) (k : Text)
    → get k (apply_payload_policy m mo) ≡ (
        if text_eq (lit "raw") k || (m.strict_payload && not (has m.allowed_mail_fields k))
        then undefined
        else get k mo)
unfolding apply_payload_policy
get-apply_payload_policy m mo k =
    ground
      (arith, get-without_raw mo k, get-allowed_fields m.allowed_mail_fields (without_raw mo) k)
