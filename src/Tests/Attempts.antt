-- ===== src/Tests/Attempts.antt =====
-- Whole attempts, and the rounds of one instance, at concrete inputs.
use mail_time.Prelude.{
  ℕ, ◌+◌, ◌≡◌, ◌≢◌, refl, Bool, true, false, List, [], ◌∷◌, Option, none, some, arith, inl, inr,
  Option-cases, Bool-cases, length,
}
use mail_time.Js.Text.{Text, lit}
use mail_time.Js.Value.{Value, undefined, str, obj, end, field, arr, nil, cons}
use mail_time.Task.{Task, MailOption, Update, Lease, is_send_claim_update}
use mail_time.Queue.{returned, threw}
use mail_time.Adapters.Mongo.{set, append, remove}
use mail_time.Adapters.Mongo.Guards.{update_none, update_some}
use mail_time.Adapters.Rows.{IsUnique, find_first}
use mail_time.MailTime.Errors.{on_sent, handle_error}
use mail_time.MailTime.Send.{Attempt, throws, calls_back, claimed, send}
use mail_time.Js.Text.{
  text_eq, is_space, trim_start, trim_end, trim, lower_unit, to_lower_case, has, add, add_all,
}
use mail_time.Js.Value.{has_own, get, put, delete_key}
use mail_time.Helpers.Address.{upto_gt, angled, extract_email, entry_addresses, to_address_list}
use mail_time.MailTime.Recipients.{
  mail_option_recipients, lowered, collect_accepted, collect_accepted_set, collect_recipients,
  collect_all_recipients, all_in, is_fully_delivered, push_item, push_accepted, track_option,
  track_accepted_recipients,
}
use mail_time.MailTime.Transports.{is_healthy_transport, has_index}
use mail_time.Helpers.Address.{is_nil}
use mail_time.MailTime.Send.{choose_transport, accepted_addrs, parsed}
use mail_time.MailTime.Send.Alone.Delivered.{accepted_copy, send_delivers}
use mail_time.MailTime.Send.Wins.{Calm}
use mail_time.MailTime.Transports.Rotation.{FirstHealthy}
use mail_time.MailTime.Send.Failover.{Moves}
use mail_time.MailTime.Send.Retries.{handle_error_retries}
use mail_time.System.Rounds.{Round}
use mail_time.Tests.Driver.{list_collection}
use mail_time.Tests.Samples.{mongo, mongo-Conforms, mongo-Reports, mailer, letter, settings}

returned_ne : {b : Bool} → returned b ≢ threw
returned_ne e = cc

set_calm :
    (now : ℕ) (s : List Task) (t : Task) (u : Update)
    → (set list_collection settings now s t u).1 ≢ threw
unfolding set
set_calm now s t u = elim (Bool-cases (is_send_claim_update u)) [
  | inl e ↦ rw e (λ h. cc)
  | inr e ↦ rw e (λ h. cc)
]

append_calm :
    (s : List Task) (t : Task) (mo : MailOption)
    → (append list_collection settings s t mo).1 ≢ threw
unfolding append
append_calm s t mo e = cc

mongo-Calm : Calm mongo
unfolding remove
mongo-Calm = record {
  updates = λ now s t u. elim (Option-cases u.append_mail_option) [
    | inl e ↦ rw (update_none list_collection settings now s t u e) (set_calm now s t u)
    | inr (mo, e) ↦ rw (update_some list_collection settings now s t u mo e) (append_calm s t mo)
  ];
  removes = λ s t l. gone s t l;
}
  where
    gone :
        (s : List Task) (t : Task) (l : Option Lease)
        → (remove list_collection settings s t l).1 ≢ threw
    gone s t none e = cc
    gone s t (some l) e = cc

abbrev show : Value → Text
show v = []

abbrev broken : Attempt
broken = throws (str (lit "greylisted"))

-- Three rounds, each a minute after the one before.
abbrev three_rounds : List Round
three_rounds =
    record { claimed_at = 10; done_at = 20; transmit = λ t. broken }
    ∷ record { claimed_at = 80; done_at = 90; transmit = λ t. broken }
    ∷ record { claimed_at = 150; done_at = 160; transmit = λ t. broken }
    ∷ []

handle_error_retries_example :
    let o =
      handle_error show mongo mailer 20
        (claimed 10 letter ∷ [])
        (claimed 10 letter)
        undefined
        undefined in
    (i : ℕ) × (mongo.look o.0 1
      ≡ some (record (claimed 10 letter) {
        is_sending = false;
        sending_at = 0;
        send_at = 20 + 60;
        transport = i;
      }))
    × (o.2 ≡ [])
    × (Moves mailer (claimed 10 letter) undefined undefined
        → FirstHealthy mailer letter.transport 0 (length mailer.transports) i)
    × (¬ Moves mailer (claimed 10 letter) undefined undefined → i ≡ letter.transport)
unfolding find_first
handle_error_retries_example =
    handle_error_retries show mongo (λ s. IsUnique s) mongo-Conforms mongo-Reports mongo-Calm mailer
      refl 20 (claimed 10 letter ∷ []) (claimed 10 letter) (claimed 10 letter) undefined undefined
      ((refl, tt), tt, refl, refl, refl) (omega arith) (omega arith)

abbrev both_accepted : Value
both_accepted = obj (
    field (lit "accepted") (arr (cons (str (lit "ann@a.io")) (cons (str (lit "bob@b.io")) nil)))
      end)

abbrev sent_copy : Task
sent_copy =
    accepted_copy show mongo (λ s. IsUnique s) mongo-Conforms mongo-Reports mongo-Calm mailer refl
      10 letter both_accepted

both_delivered :
    (is_nil (accepted_addrs both_accepted) ≡ false) × (is_fully_delivered sent_copy ≡ true)
unfolding accepted_addrs parsed extract_email upto_gt angled trim trim_start trim_end is_space
    to_lower_case lower_unit track_accepted_recipients track_option mail_option_recipients lowered
    push_accepted push_item is_fully_delivered all_in collect_all_recipients collect_recipients
    collect_accepted_set collect_accepted has add add_all text_eq get has_own put delete_key
    to_address_list entry_addresses choose_transport is_healthy_transport has_index
both_delivered = (refl, refl)

send_delivers_example :
    let o =
      send show mongo mailer 10 20 (letter ∷ []) letter (λ t. calls_back undefined both_accepted) in
    (mongo.look o.0 1
      ≡ some (record (claimed 10 letter) {
        is_sent = true;
        is_sending = false;
        sending_at = 0;
        mail_options = sent_copy.mail_options;
      }))
    × (o.2
        ≡ on_sent
            (record sent_copy { is_sent = true; is_sending = false; sending_at = 0 })
            both_accepted
          ∷ [])
unfolding find_first
send_delivers_example =
    send_delivers show mongo (λ s. IsUnique s) mongo-Conforms mongo-Reports mongo-Calm mailer refl
      10 20 (letter ∷ []) letter (λ t. calls_back undefined both_accepted) undefined both_accepted
      ((refl, tt), tt, refl, refl, refl) refl refl both_delivered.0 both_delivered.1
