-- ===== src/Tests/Composing.antt =====
-- Messages, escaped texts and keys at concrete inputs.
use mail_time.Prelude.{
  ◌++◌, ◌≡◌, refl, true, false, not, ◌&&◌, ◌||◌, [], ◌∷◌, Option, none, some, if◌then◌else◌,
}
use mail_time.Js.Text.{lit, text_eq, has}
use mail_time.Js.Value.{str, undefined, arr, cons, nil, Fields, end, field, get}
use mail_time.Task.{Task}
use mail_time.Helpers.Escape.{escape_html}
use mail_time.Helpers.Escape.Markup.{
  has_markup, has_markup-escape_html, read_html, read_html-escape_html,
}
use mail_time.MailTime.State.{MailTime}
use mail_time.MailTime.Recipients.{collect_accepted_set, mail_option_recipients}
use mail_time.MailTime.Compose.{
  compile_mail_opts, apply_payload_policy, add_options, add_option, add_html, add_text, wrap_html,
  set_subject, set_from, start_message, drop_accepted, restrict_access, allowed_fields,
}
use mail_time.Js.Text.{
  trim, trim_start, trim_end, is_space, to_lower_case, lower_unit, add, add_all,
}
use mail_time.Js.Value.{put, delete_key}
use mail_time.MailTime.Recipients.{collect_accepted, lowered}
use mail_time.Helpers.Address.{
  filter_address_field, filter_entries, extract_email, angled, upto_gt, to_address_list,
  entry_addresses,
}
use mail_time.Helpers.Merge.{deep_merge, merged}
use mail_time.MailTime.Compose.Recipients.{compile_mail_opts-collect_accepted_set}
use mail_time.MailTime.Compose.Policy.{get-apply_payload_policy}
use mail_time.Prelude.{List, ℕ, ◌≤◌, arith}
use mail_time.MailTime.Queueing.{send_mail}
use mail_time.MailTime.Queueing.Refused.{is_refused, IsAcceptable, send_mail-is_refused}
use mail_time.MailTime.Renewal.{start_claim_renewal}
use mail_time.MailTime.Renewal.Ticks.{ticks, ticks_stop}
use mail_time.Js.Value.{has_own}
use mail_time.MailTime.Render.{is_key_unit, render}
use mail_time.MailTime.Render.Placeholders.{token_of}
use mail_time.MailTime.Render.Single.{render_lem}
use mail_time.Tests.Samples.{mongo, mailer, letter, plain_transport, to_ann_and_bob}

has_markup-escape_html_example : has_markup (escape_html (lit "<a href='x'>")) ≡ false
has_markup-escape_html_example = has_markup-escape_html (lit "<a href='x'>")

read_html-escape_html_example :
    read_html 0 (escape_html (lit "1 < 2 && \"x\"")) ≡ lit "1 < 2 && \"x\""
read_html-escape_html_example = read_html-escape_html (lit "1 < 2 && \"x\"")

-- Ann has accepted the letter to Ann and Bob.
abbrev half_accepted : Task
half_accepted = record letter {
  mail_options = field (lit "accepted") (arr (cons (str (lit "Ann@a.io")) nil)) to_ann_and_bob ∷ [];
}

abbrev strict : MailTime
strict = record mailer {
  strict_payload = true;
  allowed_mail_fields = lit "to" ∷ lit "accepted" ∷ lit "html" ∷ [];
}

abbrev message_of : Option Fields → Fields
message_of none = end
message_of (some fs) = fs

abbrev message : Fields
message =
    message_of (compile_mail_opts (λ v. []) strict none (some plain_transport) 0 half_accepted)

strict_composed :
    compile_mail_opts (λ v. []) strict none (some plain_transport) 0 half_accepted ≡ some message
unfolding compile_mail_opts add_options add_option add_html add_text wrap_html set_subject set_from
    add_all add has start_message drop_accepted restrict_access apply_payload_policy allowed_fields
    collect_accepted_set collect_accepted lowered get put delete_key text_eq filter_address_field
    filter_entries deep_merge merged
strict_composed = refl

has_ann : has (collect_accepted_set half_accepted) (lit "ann@a.io") ≡ true
unfolding collect_accepted_set collect_accepted lowered add_all add has get text_eq to_lower_case
    lower_unit to_address_list entry_addresses extract_email angled upto_gt trim trim_start trim_end
    is_space
has_ann = refl

compile_mail_opts-collect_accepted_set_example :
    has (mail_option_recipients message) (lit "ann@a.io") ≡ false
compile_mail_opts-collect_accepted_set_example =
    compile_mail_opts-collect_accepted_set (λ v. []) strict none (some plain_transport) 0
      half_accepted message (lit "ann@a.io") strict_composed has_ann

get-apply_payload_policy_example :
    get (lit "raw") (apply_payload_policy mailer (field (lit "raw") (str (lit "MIME")) end)) ≡ (
      if text_eq (lit "raw") (lit "raw")
        || (mailer.strict_payload && not (has mailer.allowed_mail_fields (lit "raw")))
      then undefined
      else get (lit "raw") (field (lit "raw") (str (lit "MIME")) end))
get-apply_payload_policy_example =
    get-apply_payload_policy mailer (field (lit "raw") (str (lit "MIME")) end) (lit "raw")

-- Nothing was asked of the queue.
send_mail-is_refused_example :
    let o = send_mail mongo (λ s to at. some none) (λ s t. t ∷ s) mailer 10 [] (lit "u2") end in
    (IsAcceptable end → is_refused o.2 ≡ false)
    × (¬ IsAcceptable end → (is_refused o.2 ≡ true) × (o.0 ≡ mailer) × (o.1 ≡ []))
send_mail-is_refused_example =
    send_mail-is_refused mongo (λ s to at. some none) (λ s t. t ∷ s) mailer 10 [] (lit "u2") end

abbrev renewing : MailTime
renewing = record mailer { renew_claim = 100; max_renewals = 2 }

abbrev three_ticks : List (ℕ × (List Task → List Task))
three_ticks = (110, λ s. s) ∷ (210, λ s. []) ∷ (310, λ s. s) ∷ []

ticks_stop_example :
    ((ticks mongo renewing three_ticks
        (letter ∷ [])
        letter
        (start_claim_renewal renewing)).2.stopped
      ≡ true)
    × ((ticks mongo renewing three_ticks
          (letter ∷ [])
          letter
          (start_claim_renewal renewing)).2.renewals
        ≤ 2)
unfolding start_claim_renewal
ticks_stop_example =
    ticks_stop mongo renewing three_ticks (letter ∷ []) letter (start_claim_renewal renewing)
      (omega arith) (omega arith)

abbrev names : Fields
names = field (lit "name") (str (lit "Ann & Bob")) end

render_lem_example :
    render (λ v. []) (lit "Hi " ++ (token_of (lit "name") ++ lit "!")) names true
    ≡ lit "Hi " ++ (escape_html (lit "Ann & Bob") ++ lit "!")
unfolding is_key_unit has_own get text_eq
render_lem_example =
    render_lem (λ v. []) names true 110 (lit "ame") (lit "Hi ") (lit "!") (lit "Ann & Bob") refl
      refl refl refl refl refl
