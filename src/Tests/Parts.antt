-- ===== src/Tests/Parts.antt =====
-- The parts of an instance at concrete inputs.
use mail_time.Prelude.{◌+◌, ◌≡◌, ◌↔◌, ◌⊎◌, refl, true, [], ◌∷◌, ◌++◌, some, arith, length}
use mail_time.Js.Text.{Text, lit, has, to_lower_case, lower_unit}
use mail_time.Js.Value.{Value, str, arr, nil, cons, undefined}
use mail_time.Task.{Task}
use mail_time.Queue.{Conforms, Reports, claim_guard}
use mail_time.Adapters.Rows.{IsUnique, find_first}
use mail_time.Adapters.Mongo.Contract.{queue, queue-Conforms}
use mail_time.Helpers.Address.{to_address_list, filter_address_field}
use mail_time.Helpers.Address.Remaining.{remaining, to_address_list-filter_address_field}
use mail_time.MailTime.Transports.{next_healthy_transport}
use mail_time.MailTime.Transports.Rotation.{FirstHealthy, next_healthy_transport_first}
use mail_time.MailTime.Pool.{create_pool, dispatch}
use mail_time.MailTime.Pool.Runs.{IsValid, Run-IsValid, Run-accounts, begin, dispatches}
use mail_time.MailTime.Recipients.{
  collect_accepted_set, collect_all_recipients, track_accepted_recipients, is_fully_delivered,
}
use mail_time.MailTime.Recipients.Options.{AreLower}
use mail_time.MailTime.Recipients.Tracking.{is_fully_delivered-track_accepted_recipients}
use mail_time.MailTime.Send.{claim, claimed, after_attempt, calls_back}
use mail_time.MailTime.Send.Claim.{claim_won}
use mail_time.MailTime.Send.Effects.{IsPhase, after_attempt-IsPhase}
use mail_time.Tests.Driver.{list_collection, list_collection-Laws}
use mail_time.Tests.Samples.{mongo, mongo-Conforms, mailer, letter, settings, claim_test}

queue-Conforms_example :
    Conforms (queue list_collection settings) (λ s. IsUnique s)
    × Reports (queue list_collection settings) (λ s. IsUnique s)
queue-Conforms_example = queue-Conforms list_collection list_collection-Laws settings

both : Value
both = arr (cons (str (lit "Ann <ann@a.io>")) (cons (str (lit "bob@b.io")) nil))

to_address_list-filter_address_field_example :
    to_address_list (filter_address_field both (lit "ann@a.io" ∷ []))
    ≡ remaining (lit "ann@a.io" ∷ []) (to_address_list both)
to_address_list-filter_address_field_example =
    to_address_list-filter_address_field both (lit "ann@a.io" ∷ [])

next_healthy_transport_first_example : FirstHealthy mailer 0 0 3 (next_healthy_transport mailer 0)
next_healthy_transport_first_example = next_healthy_transport_first mailer 0 (omega arith)

Run-IsValid_example : IsValid (dispatch (dispatch (create_pool 1) 7).0 8).0
Run-IsValid_example = Run-IsValid 1 (dispatches 8 (dispatches 7 begin))

Run-accounts_example :
    ([] ++ (dispatch (create_pool 1) 7).1.started ++ (dispatch (create_pool 1) 7).0.queue ≡ 7 ∷ [])
    × (length ([] ++ (dispatch (create_pool 1) 7).1.started)
        ≡ 0 + (dispatch (create_pool 1) 7).0.active)
Run-accounts_example = Run-accounts 1 (dispatches 7 begin)

lower_bob : AreLower (lit "bob@b.io" ∷ [])
unfolding to_lower_case lower_unit
lower_bob = (refl, tt)

is_fully_delivered-track_accepted_recipients_example :
    (is_fully_delivered (track_accepted_recipients letter (lit "bob@b.io" ∷ [])) ≡ true) ↔ (
      (b : Text)
      → has (collect_all_recipients letter) b ≡ true
      → (has (collect_accepted_set letter) b ≡ true) ⊎ (has (lit "bob@b.io" ∷ []) b ≡ true))
is_fully_delivered-track_accepted_recipients_example =
    is_fully_delivered-track_accepted_recipients letter (lit "bob@b.io" ∷ []) lower_bob

claim_won_example :
    (row : Task) × (mongo.look (letter ∷ []) 1 ≡ some row)
    × (claim_guard 10 mongo.timeout 0 row ≡ true)
    × (mongo.look (claim mongo mailer 10 (letter ∷ []) letter).0 1
        ≡ some (record row { tries = 0 + 1; is_sending = true; sending_at = 10 }))
    × (claimed 10 letter ≡ claimed 10 letter)
unfolding find_first
claim_won_example =
    claim_won mongo (λ s. IsUnique s) mongo-Conforms mailer 10 (letter ∷ []) letter
      (claimed 10 letter) (refl, tt) tt claim_test

after_attempt-IsPhase_example :
    IsPhase mongo
      (λ s. IsUnique s)
      mongo-Conforms
      mailer
      (claimed 10 letter ∷ [])
      (claimed 10 letter)
      (after_attempt
        (λ v. [])
        mongo
        mailer
        20
        (claimed 10 letter ∷ [])
        (claimed 10 letter)
        (calls_back undefined undefined))
unfolding find_first
after_attempt-IsPhase_example =
    after_attempt-IsPhase mongo (λ s. IsUnique s) mongo-Conforms mailer 20 (claimed 10 letter ∷ [])
      (refl, tt) (λ v. []) (claimed 10 letter) (calls_back undefined undefined) (λ e. cc, tt) refl
