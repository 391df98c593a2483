-- ===== src/MailTime/Compose.antt =====
-- index.js, `___compileMailOpts`, `___applyPayloadPolicy` and `MailTime.transportFrom`: the message
-- that a transport is given for a task. `none` is an exception. `from` is the user's function, with
-- the transport, its index and its own address; `show` is the language's conversion to a text.
pub mod Recipients
pub mod Policy
use mail_time.Prelude.{
  ℕ, Bool, true, false, not, ◌&&◌, List, [], ◌∷◌, ◌++◌, Option, none, some, ltb, if◌then◌else◌,
  length, ◌>>=◌,
}
use mail_time.Js.Text.{Text, lit, trim, is_empty, has}
use mail_time.Js.Value.{
  Value, undefined, bool, num, str, obj, arr, instance_of, Fields, end, field, get, put, delete_key,
  prop, truthy,
}
use mail_time.Task.{Task, MailOption}
use mail_time.Helpers.Address.{filter_address_field, is_nil}
use mail_time.Helpers.Merge.{deep_merge}
use mail_time.Helpers.Equality.{is_plain_object}
use mail_time.MailTime.State.{MailTime, Transport}
use mail_time.MailTime.Queueing.{is_undefined}
use mail_time.MailTime.Recipients.{collect_accepted_set}
use mail_time.MailTime.Render.{render, to_string, is_nullish}

-- The properties that the allow list names, in order.
unfoldable pub allowed_fields : List Text → Fields → Fields
allowed_fields allowed end = end
allowed_fields allowed (field k v fs) =
    let rest = allowed_fields allowed fs in if has allowed k then field k v rest else rest

abbrev pub without_raw : MailOption → MailOption
without_raw mo = if is_undefined (get (lit "raw") mo) then mo else delete_key (lit "raw") mo

unfoldable pub apply_payload_policy : MailTime → MailOption → MailOption
unfolding allowed_fields
apply_payload_policy m mo =
    if m.strict_payload
    then allowed_fields m.allowed_mail_fields (without_raw mo)
    else without_raw mo

-- `candidate`, or its `address`; the empty text of anything else.
abbrev pub address_or_empty : Value → Text
address_or_empty (str s) = s
address_or_empty (obj fs) = elim (get (lit "address") fs) [ str s ↦ s | _ ↦ [] ]
address_or_empty (instance_of n fs) = elim (get (lit "address") fs) [ str s ↦ s | _ ↦ [] ]
address_or_empty v = []

unfoldable pub first_address : List Value → Option Text
first_address [] = none
first_address (v ∷ vs) =
    let rest = first_address vs in
    if is_empty (trim (address_or_empty v)) then rest else some (address_or_empty v)

unfoldable pub transport_from : Transport → Option Text
unfolding first_address
transport_from t = first_address (
    prop (lit "from") t.options
    ∷ prop (lit "from") (prop (lit "options") t.transporter)
    ∷ prop (lit "from") t.defaults
    ∷ prop (lit "from") t.underscore_options
    ∷ [])

-- The `mailOptions` of a transport's options, where both are plain objects.
abbrev pub merge_defaults : Value → Fields → Fields
merge_defaults (obj options) compiled = elim (get (lit "mailOptions") options) [
  | obj fs ↦ deep_merge compiled fs
  | _ ↦ compiled
]
merge_defaults v compiled = compiled

-- `compiledOpts[key] ??= ''`.
abbrev pub default_empty : Text → Fields → Fields
default_empty key compiled =
    if is_nullish (get key compiled) then put key (str []) compiled else compiled

unfoldable pub start_message : Transport → Fields
start_message t = default_empty (lit "subject") (
    default_empty (lit "text") (
      default_empty (lit "html")
        (merge_defaults t.options (merge_defaults t.underscore_options end))))

abbrev pub nonempty_or : Option Text → Text → Text
nonempty_or none d = d
nonempty_or (some s) d = if is_empty s then d else s

abbrev pub concat_count : ℕ → Fields
concat_count n = field (lit "count") (num n) end

-- Nobody who accepted the letter gets it again.
unfoldable pub drop_accepted : List Text → Fields → Fields
drop_accepted set compiled =
    if is_nil set
    then compiled
    else (let c = put (lit "to") (filter_address_field (get (lit "to") compiled) set) compiled in
        let c' = put (lit "cc") (filter_address_field (get (lit "cc") c) set) c in
        put (lit "bcc") (filter_address_field (get (lit "bcc") c') set) c')

unfoldable pub restrict_access : MailTime → Fields → Fields
restrict_access m compiled =
    if m.strict_payload
    then put (lit "disableUrlAccess") (bool true)
        (put (lit "disableFileAccess") (bool true) compiled)
    else compiled

module _ (show : Value → Text) (m : MailTime) where
  -- `___render`, which throws on a template that is not a text.
  abbrev pub render_value : Value → Fields → Bool → Option Text
  render_value (str s) replacements is_html = some (render show s replacements is_html)
  render_value v replacements is_html = none

  -- The HTML part of one mail option; its `html` is used up.
  unfoldable pub add_html : Bool → MailOption → Fields → Option (MailOption × Fields)
  add_html is_multi mo compiled =
      if not (truthy (get (lit "html") mo)) then some (mo, compiled) else (do
        rendered ← render_value (get (lit "html") mo) mo true
        some (
          delete_key (lit "html") mo,
          put (lit "html")
              (str (
                if is_multi
                then to_string show (get (lit "html") compiled)
                  ++ (render show m.concat_delimiter mo true ++ rendered)
                else rendered))
              compiled,
        ))

  unfoldable pub add_text : Bool → MailOption → Fields → Option (MailOption × Fields)
  add_text is_multi mo compiled =
      if not (truthy (get (lit "text") mo)) then some (mo, compiled) else (do
        rendered ← render_value (get (lit "text") mo) mo false
        some (
          delete_key (lit "text") mo,
          put (lit "text")
              (str (
                if is_multi
                then to_string show (get (lit "text") compiled) ++ (13 ∷ 10 ∷ rendered)
                else rendered))
              compiled,
        ))

  unfoldable pub add_option : Bool → MailOption → Fields → Option Fields
  unfolding apply_payload_policy
  add_option is_multi mo compiled = do
    html ← add_html is_multi (apply_payload_policy m mo) compiled
    text ← add_text is_multi html.0 html.1
    some (deep_merge text.1 text.0)

  unfoldable pub add_options : Bool → List MailOption → Fields → Option Fields
  unfolding add_option
  add_options is_multi [] compiled = some compiled
  add_options is_multi (mo ∷ mos) compiled =
      add_option is_multi mo compiled >>= add_options is_multi mos

  -- The template of the task, or of the instance, around the HTML part.
  unfoldable pub wrap_html : Task → Fields → Fields
  wrap_html t compiled =
      let template = nonempty_or t.template m.template in
      if truthy (get (lit "html") compiled) && not (is_empty template)
      then put (lit "html") (str (render show template compiled true)) compiled
      else compiled

  abbrev pub raw_subject : Task → Fields → Value
  raw_subject t compiled =
      let subject = nonempty_or t.concat_subject m.concat_subject in
      if is_empty subject then get (lit "subject") compiled else str subject

  unfoldable pub set_subject : Bool → Task → Fields → Option Fields
  set_subject is_multi t compiled = if not is_multi then some compiled else (do
    subject ← render_value (raw_subject t compiled) (concat_count (length t.mail_options)) false
    some (put (lit "subject") (str subject) compiled))

  unfoldable pub set_from :
      Option (Transport → ℕ → Option Text → Option Value) → Transport → ℕ → Fields → Option Fields
  set_from none transport index compiled = some compiled
  set_from (some from) transport index compiled =
      if truthy (get (lit "from") compiled) then some compiled else (do
        v ← from transport index (transport_from transport)
        some (put (lit "from") v compiled))

  unfoldable pub compile_mail_opts :
      Option (Transport → ℕ → Option Text → Option Value)
      → Option Transport
      → ℕ
      → Task
      → Option Fields
  unfolding add_options start_message
  compile_mail_opts from none index t = none
  compile_mail_opts from (some transport) index t =
      let is_multi = ltb 1 (length t.mail_options) in
      do
        compiled ← add_options is_multi t.mail_options (start_message transport)
        subjected ← set_subject is_multi t (wrap_html t compiled)
        addressed ← set_from from transport index subjected
        some (restrict_access m (drop_accepted (collect_accepted_set t) addressed))
