-- ===== src/Tests/Joining.antt =====
-- A mail option that joins a pending letter.
use native.Mathlib.Decide.{ℕ_discrete}
use mail_time.Prelude.{ℕ, ◌≡◌, refl, true, false, List, [], ◌∷◌, ◌++◌, Option, some}
use mail_time.Js.Text.{lit, text_eq}
use mail_time.Js.Value.{Value, str, field, end, has_own, get}
use mail_time.Task.{Task, MailOption}
use mail_time.Queue.{append_guard, returned}
use mail_time.Helpers.Equality.{
  equals, equal_items, equal_fields, count_items, count_keys, take_first,
}
use mail_time.Adapters.Rows.{IsUnique, find_first}
use mail_time.Adapters.Mongo.{update, append, append_query}
use mail_time.MailTime.Queueing.{join, holds_equal}
use mail_time.MailTime.Queueing.Joined.{join_appends}
use mail_time.Tests.Driver.{changed, count_changed, task-discrete}
use mail_time.Tests.Samples.{mongo, mongo-Conforms, mailer, letter}

abbrev pending : List Task → Value → ℕ → Option (Option Task)
pending s to send_at = some (some letter)

abbrev push : List Task → Task → List Task
push s t = t ∷ s

abbrev hello : MailOption
hello = field (lit "to") (str (lit "ann@a.io")) end

is_new : holds_equal letter.mail_options hello ≡ false
unfolding holds_equal equals equal_items equal_fields count_items count_keys take_first has_own get
    text_eq
is_new = refl

joined : (join mongo pending push mailer 10 (letter ∷ []) letter hello).1 ≡ returned true
unfolding join holds_equal equals equal_items equal_fields count_items count_keys take_first has_own
    get text_eq update append append_query changed count_changed task-discrete find_first ℕ_discrete
joined = refl

join_appends_example :
    (r : Task) × (mongo.look (letter ∷ []) 1 ≡ some r)
    × (append_guard r ≡ true)
    × (mongo.look (join mongo pending push mailer 10 (letter ∷ []) letter hello).0 1
        ≡ some (record r { mail_options = r.mail_options ++ hello ∷ [] }))
unfolding find_first
join_appends_example =
    join_appends mongo (λ s. IsUnique s) mongo-Conforms pending push mailer 10 (letter ∷ []) letter
      hello (refl, tt) tt is_new joined
