-- ===== src/Tests/Workers.antt =====
-- The letter of two workers that share a queue.
use native.Mathlib.Decide.{ℕ_discrete}
use mail_time.Prelude.{ℕ, ◌≤◌, ◌≡◌, ◌≢◌, refl, ap, true, [], ◌∷◌, none, some, arith, length}
use mail_time.Js.Text.{
  Text, lit, text_eq, is_space, trim_start, trim_end, trim, lower_unit, to_lower_case, has, add,
  add_all,
}
use mail_time.Js.Value.{
  has_own, get, put, delete_key, Value, str, arr, nil, cons, obj, end, field, undefined,
}
use mail_time.Task.{Task}
use mail_time.Adapters.Rows.{update_first, find_first, IsUnique}
use mail_time.Adapters.Mongo.{update, set, set_query, claim_query, lease_query, due_query}
use mail_time.Helpers.Address.{upto_gt, angled, extract_email, entry_addresses, to_address_list}
use mail_time.MailTime.Recipients.{
  mail_option_recipients, lowered, collect_accepted, collect_accepted_set, collect_recipients,
  collect_all_recipients, all_in, is_fully_delivered, push_item, push_accepted, track_option,
  track_accepted_recipients,
}
use mail_time.MailTime.Errors.{conclude}
use mail_time.MailTime.Send.{
  parsed, accepted_addrs, on_accepted, on_callback, complete, claim, claimed, after_attempt,
  calls_back,
}
use mail_time.MailTime.Send.Phase.{is_ended}
use mail_time.System.{System, Reach, IsScanned, by_mongo, set_worker, start, later, claims, ends}
use mail_time.System.Reached.{hooks_at_most_once, hooks-is_ended, one_live_lease, attempts_bounded}
use mail_time.Tests.Driver.{changed, count_changed, task-discrete}
use mail_time.Tests.Samples.{mongo, mongo-Conforms, mailer, letter}

abbrev show : Value → Text
show v = []

abbrev Picks : Task → Type 0
Picks t = IsScanned mongo.timeout 3 t

abbrev Reached : System mongo → Type 0
Reached = Reach show mongo (λ s. IsUnique s) (λ i. mailer) 1 Picks

abbrev before : System mongo
before = record { store = letter ∷ []; worker = λ i. none; attempts = 0; hooks = [] }

-- Worker 0 has claimed the letter.
abbrev sending : System mongo
sending = record {
  store = claimed 10 letter ∷ [];
  worker = set_worker (λ i. none) 0 (some (claimed 10 letter));
  attempts = 1;
  hooks = [];
}

sending-Reached : Reached sending
unfolding find_first claim update set set_query claim_query task-discrete changed count_changed
    ℕ_discrete update_first due_query
sending-Reached =
    later (start (letter ∷ []) (refl, tt) (λ e. refl, tt))
      (claims 0 10 letter refl refl (by_mongo 10 refl))

abbrev accepted_by_both : Value
accepted_by_both = obj (
    field (lit "accepted") (arr (cons (str (lit "ann@a.io")) (cons (str (lit "bob@b.io")) nil)))
      end)

-- The transport has called back, and worker 0 has reported the letter sent.
abbrev delivered : System mongo
delivered = record {
  store =
      (after_attempt show mongo mailer 20 (claimed 10 letter ∷ []) (claimed 10 letter)
        (calls_back undefined accepted_by_both)).0;
  worker = set_worker (set_worker (λ i. none) 0 (some (claimed 10 letter))) 0 none;
  attempts = 1;
  hooks =
      (after_attempt show mongo mailer 20 (claimed 10 letter ∷ []) (claimed 10 letter)
        (calls_back undefined accepted_by_both)).2;
}

delivered-Reached : Reached delivered
delivered-Reached =
    later sending-Reached
      (ends 0 20 (claimed 10 letter) (calls_back undefined accepted_by_both) refl)

hooks_at_most_once_example : length delivered.hooks ≤ 1
hooks_at_most_once_example =
    hooks_at_most_once show mongo (λ s. IsUnique s) mongo-Conforms (λ i. mailer) 1 Picks delivered
      delivered-Reached

attempts_bounded_example : delivered.attempts ≤ 3
attempts_bounded_example =
    attempts_bounded show mongo (λ s. IsUnique s) mongo-Conforms (λ i. mailer) 1 3 delivered
      delivered-Reached

one_live_lease_example : ◌≡◌ {A = ℕ} 0 0
unfolding find_first
one_live_lease_example =
    one_live_lease show mongo (λ s. IsUnique s) mongo-Conforms (λ i. mailer) 1 Picks sending
      sending-Reached 0 0 (claimed 10 letter) (claimed 10 letter) (claimed 10 letter) refl refl refl
      refl refl

one_hook : length delivered.hooks ≡ 1
unfolding after_attempt on_callback accepted_addrs parsed extract_email upto_gt angled trim
    trim_start trim_end is_space to_lower_case lower_unit on_accepted track_accepted_recipients
    track_option mail_option_recipients lowered push_accepted push_item is_fully_delivered all_in
    collect_all_recipients collect_recipients collect_accepted_set collect_accepted has add add_all
    text_eq get has_own put delete_key to_address_list entry_addresses complete conclude update set
    set_query lease_query task-discrete changed count_changed ℕ_discrete update_first find_first
one_hook = refl

hook_called : delivered.hooks ≢ []
hook_called e = absurd (omega (arith, one_hook, ap length e))

hooks-is_ended_example : is_ended (mongo.look delivered.store 1) ≡ true
hooks-is_ended_example =
    hooks-is_ended show mongo (λ s. IsUnique s) mongo-Conforms (λ i. mailer) 1 Picks delivered
      delivered-Reached hook_called
