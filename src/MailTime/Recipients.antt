-- ===== src/MailTime/Recipients.antt =====
-- index.js: who a letter is for, who has accepted it, and who never will
-- (`mailOptionRecipients`, `collectAcceptedSet`, `collectAllRecipients`, `buildRejectionErrorMap`,
-- `___trackAcceptedRecipients`, `___finalizeRejected`).
-- A `Set` or `Map` of texts is the list of its elements or entries. `show` is the conversion to a
-- string, in a template literal, of a value that is not a string.
pub mod Options
pub mod Tracking
pub mod Finalized
use mail_time.Prelude.{
  ℕ, Bool, true, false, not, ◌&&◌, ◌||◌, List, [], ◌∷◌, ◌++◌, map, Option, none, some,
  if◌then◌else◌, ◌>>=◌,
}
use mail_time.Js.Text.{Text, lit, text_eq, is_empty, to_lower_case, has, add, add_all}
use mail_time.Js.Value.{
  Value, Items, Fields, undefined, str, arr, obj, nil, cons, end, field, get, put, prop, items,
  truthy,
}
use mail_time.Task.{Task, MailOption}
use mail_time.Helpers.Address.{extract_email, to_address_list, is_nil}

unfoldable pub mail_option_recipients : MailOption → List Text
mail_option_recipients mo =
    to_address_list (get (lit "to") mo)
    ++ (to_address_list (get (lit "cc") mo) ++ to_address_list (get (lit "bcc") mo))

-- The strings of an array, in lower case.
unfoldable pub lowered : Items → List Text
lowered nil = []
lowered (cons (str a) rest) = to_lower_case a ∷ lowered rest
lowered (cons _ rest) = lowered rest

-- `mo.accepted`, where it is an array.
abbrev pub accepted_of : MailOption → Items
accepted_of mo = items (get (lit "accepted") mo)

unfoldable pub collect_accepted : List Text → List MailOption → List Text
collect_accepted set [] = set
collect_accepted set (mo ∷ mos) = collect_accepted (add_all set (lowered (accepted_of mo))) mos

unfoldable pub collect_accepted_set : Task → List Text
collect_accepted_set t = collect_accepted [] t.mail_options

unfoldable pub collect_recipients : List Text → List MailOption → List Text
collect_recipients set [] = set
collect_recipients set (mo ∷ mos) = collect_recipients (add_all set (mail_option_recipients mo)) mos

unfoldable pub collect_all_recipients : Task → List Text
collect_all_recipients t = collect_recipients [] t.mail_options

-- The loop that leaves at the first recipient who has not accepted.
unfoldable pub all_in : List Text → List Text → Bool
all_in set [] = true
all_in set (a ∷ as') = has set a && all_in set as'

unfoldable pub is_fully_delivered : Task → Bool
is_fully_delivered t = all_in (collect_accepted_set t) (collect_all_recipients t)

unfoldable pub push_item : Items → Value → Items
push_item nil v = cons v nil
push_item (cons w ws) v = cons w (push_item ws v)

-- Pushes each address that is a recipient and not yet accepted.
unfoldable pub push_accepted : List Text → List Text → Items → List Text → Items
push_accepted recipients already accepted [] = accepted
push_accepted recipients already accepted (a ∷ as') =
    let new = has recipients a && not (has already a) in
    push_accepted recipients (if new then add already a else already)
      (if new then push_item accepted (str a) else accepted) as'

-- One turn of the loop of `___trackAcceptedRecipients`.
unfoldable pub track_option : List Text → MailOption → MailOption
unfolding push_accepted
track_option accepted_set mo =
    let accepted = accepted_of mo in
    let recipients = mail_option_recipients mo in
    if is_nil recipients
    then put (lit "accepted") (arr accepted) mo
    else put (lit "accepted")
        (arr (push_accepted recipients (add_all [] (lowered accepted)) accepted accepted_set)) mo

unfoldable pub track_accepted_recipients : Task → List Text → Task
track_accepted_recipients t accepted_addrs =
    if is_nil accepted_addrs
    then t
    else record t { mail_options = map (track_option (add_all [] accepted_addrs)) t.mail_options }

-- `Map<string, string>`: `set` keeps the place of an old key, `get` finds its last value.
unfoldable pub map_set : Text → Text → List (Text × Text) → List (Text × Text)
map_set k v [] = (k, v) ∷ []
map_set k v ((j, w) ∷ m) = if text_eq j k then (j, v) ∷ m else (j, w) ∷ map_set k v m

unfoldable pub map_get : Text → List (Text × Text) → Option Text
map_get k [] = none
map_get k ((j, w) ∷ m) = if text_eq j k then some w else map_get k m

abbrev pub default_rejection : Text
default_rejection = lit "Recipient rejected by transport"

-- `${value}`.
abbrev pub to_text : (Value → Text) → Value → Text
to_text show (str s) = s
to_text show v = show v

-- `err ? `${err.message || err}` : 'Recipient rejected by transport'`.
abbrev pub error_text : (Value → Text) → Value → Text
error_text show err =
    if truthy err
    then to_text show (if truthy (prop (lit "message") err) then prop (lit "message") err else err)
    else default_rejection

abbrev pub head_item : Items → Value
head_item nil = undefined
head_item (cons v vs) = v

abbrev pub tail_items : Items → Items
tail_items nil = nil
tail_items (cons v vs) = vs

abbrev pub set_usable : Option Text → Text → List (Text × Text) → List (Text × Text)
set_usable none e m = m
set_usable (some []) e m = m
set_usable (some (c ∷ s)) e m = map_set (c ∷ s) e m

-- The loop over `rejected`, beside `rejectedErrors`.
unfoldable pub rejection_errors :
    (Value → Text) → Items → Items → List (Text × Text) → List (Text × Text)
rejection_errors show nil errors m = m
rejection_errors show (cons entry rest) errors m =
    rejection_errors show rest (tail_items errors)
      (set_usable (extract_email entry) (error_text show (head_item errors)) m)

unfoldable pub build_rejection_error_map : (Value → Text) → Value → List (Text × Text)
build_rejection_error_map show info =
    rejection_errors show (items (prop (lit "rejected") info))
      (items (prop (lit "rejectedErrors") info)) []

-- `errorMap.get(addr) || 'Recipient rejected by transport'`.
abbrev pub error_for : Option Text → Text
error_for none = default_rejection
error_for (some []) = default_rejection
error_for (some (c ∷ s)) = c ∷ s

abbrev pub rejected_entry : Text → Text → Value
rejected_entry a e = obj (field (lit "address") (str a) (field (lit "error") (str e) end))

unfoldable pub rejected_entries : List (Text × Text) → List Text → List Text → List Text → Items
rejected_entries errors accepted seen [] = nil
rejected_entries errors accepted seen (a ∷ as') =
    let skip = has accepted a || has seen a in
    let rest = rejected_entries errors accepted (if skip then seen else add seen a) as' in
    if skip then rest else cons (rejected_entry a (error_for (map_get a errors))) rest

-- `mo.accepted || []`; of a value that is neither an array nor falsy, `map` is called, which it has
-- not: an exception.
abbrev pub accepted_or_none : Value → Option Items
accepted_or_none (arr xs) = some xs
accepted_or_none v = if truthy v then none else some nil

-- `none` is the exception.
unfoldable pub finalize_option : List (Text × Text) → MailOption → Option MailOption
unfolding rejected_entries
finalize_option errors mo = elim (accepted_or_none (get (lit "accepted") mo)) [
  | none ↦ none
  | some accepted ↦ some (
      put (lit "rejected")
        (arr
          (rejected_entries errors (add_all [] (lowered accepted)) [] (mail_option_recipients mo)))
        mo)
]

-- The loop over the mail options, which an exception ends.
unfoldable pub finalize_options : List (Text × Text) → List MailOption → Option (List MailOption)
unfolding finalize_option
finalize_options errors [] = some []
finalize_options errors (mo ∷ mos) = do
  mo' ← finalize_option errors mo
  mos' ← finalize_options errors mos
  some (mo' ∷ mos')

abbrev pub with_mail_options : Task → Option (List MailOption) → Option Task
with_mail_options t none = none
with_mail_options t (some mos) = some (record t { mail_options = mos })

unfoldable pub finalize_rejected : (Value → Text) → Task → Value → Option Task
unfolding finalize_options
finalize_rejected show t info =
    with_mail_options t (finalize_options (build_rejection_error_map show info) t.mail_options)
