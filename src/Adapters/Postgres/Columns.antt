-- ===== src/Adapters/Postgres/Columns.antt =====
-- adapters/postgres.js, `normalizeRow` and `parseMailOptions`: how a row of the client becomes a task,
-- and the columns that `push` writes. The client gives a BIGINT as a number or as its decimal text, and
-- a JSONB column as a value or as a text, which `parse_json` reads (`none` is an exception). A number
-- that is not one (`NaN`) is left out: the row is then `none`. The `id`, which the code passes on as it
-- is, is kept as the number that it stands for.
use mail_time.Prelude.{
  ℕ, ◌+◌, ◌*◌, ◌-◌, ◌≡◌, refl, sym, ap, ◌∙◌, ◌⊎◌, inl, inr, Bool, true, false, ◌&&◌, List, [], ◌∷◌,
  Option, none, some, leb, arith, if◌then◌else◌, ◌>>=◌, Bool-cases,
}
use mail_time.Js.Text.{Text, lit, text_eq, is_empty}
use mail_time.Js.Value.{
  Value, undefined, null, bool, num, str, arr, obj, Items, nil, cons, end, field, get, prop,
}
use mail_time.Task.{Task, MailOption}
use mail_time.MailTime.Options.{is_exactly_true}
use mail_time.Adapters.Postgres.{or_null, address_column}

abbrev pub is_digit : ℕ → Bool
is_digit c = leb 48 c && leb c 57

-- The digits up to the first other character.
unfoldable pub read_digits : ℕ → Text → ℕ
read_digits n [] = n
read_digits n (c ∷ s) =
    let more = read_digits (n * 10 + (c - 48)) s in if is_digit c then more else n

-- `parseInt(value, 10)` of a number or of a text without sign and spaces before it.
unfoldable pub parse_int : Value → Option ℕ
unfolding read_digits
parse_int (num n) = some n
parse_int (str []) = none
parse_int (str (c ∷ s)) = if is_digit c then some (read_digits 0 (c ∷ s)) else none
parse_int _ = none

-- `value || false` of a text column.
abbrev pub text_or_none : Value → Option Text
text_or_none (str s) = if is_empty s then none else some s
text_or_none _ = none

abbrev pub text_of : Value → Text
text_of (str s) = s
text_of _ = []

abbrev pub is_missing : Value → Bool
is_missing undefined = true
is_missing null = true
is_missing _ = false

unfoldable pub options_of : Items → List MailOption
options_of nil = []
options_of (cons (obj fs) rest) = fs ∷ options_of rest
options_of (cons v rest) = options_of rest

abbrev pub parse_mail_options : (Text → Option Value) → Value → Option Value
parse_mail_options parse_json (str s) = parse_json s
parse_mail_options parse_json v = some v

abbrev pub options_in : Value → List MailOption
options_in (arr xs) = options_of xs
options_in _ = []

-- A `sending_at` that is missing counts as 0.
abbrev pub sending_at_of : Value → Option ℕ
sending_at_of v = if is_missing v then some 0 else parse_int v

unfoldable pub normalize_row : (Text → Option Value) → Value → Option Task
unfolding parse_int options_of
normalize_row parse_json row = do
  id ← parse_int (prop (lit "id") row)
  tries ← parse_int (prop (lit "tries") row)
  send_at ← parse_int (prop (lit "send_at") row)
  sending_at ← sending_at_of (prop (lit "sending_at") row)
  transport ← parse_int (prop (lit "transport") row)
  mail_options ← parse_mail_options parse_json (prop (lit "mail_options") row)
  some (record {
    id = id;
    uuid = text_of (prop (lit "uuid") row);
    to = prop (lit "to_address") row;
    tries = tries;
    send_at = send_at;
    is_sent = is_exactly_true (prop (lit "is_sent") row);
    is_cancelled = is_exactly_true (prop (lit "is_cancelled") row);
    is_failed = is_exactly_true (prop (lit "is_failed") row);
    is_sending = is_exactly_true (prop (lit "is_sending") row);
    sending_at = sending_at;
    template = text_or_none (prop (lit "template") row);
    transport = transport;
    concat_subject = text_or_none (prop (lit "concat_subject") row);
    mail_options = options_in mail_options;
  })

abbrev pub text_column : Option Text → Value
text_column none = null
text_column (some s) = if is_empty s then null else str s

abbrev pub items_of : List MailOption → Items
items_of [] = nil
items_of (mo ∷ mos) = cons (obj mo) (items_of mos)

-- The columns of a task that `push` has written, in the names of `fieldMap`; `id`, `send_at` and
-- `sending_at` are as the client gives a BIGINT, and `mail_options` as it gives the JSONB value of
-- the text that `JSON.stringify` made of the task's mail options, which is left open.
abbrev pub columns : Task → Value → Value → Value → Value → Value
columns t id send_at sending_at mail_options = obj (
    field (lit "id") id (
      field (lit "uuid") (str t.uuid) (
        field (lit "to_address") (address_column t.to) (
          field (lit "tries") (num t.tries) (
            field (lit "send_at") send_at (
              field (lit "is_sent") (bool t.is_sent) (
                field (lit "is_cancelled") (bool t.is_cancelled) (
                  field (lit "is_failed") (bool t.is_failed) (
                    field (lit "is_sending") (bool t.is_sending) (
                      field (lit "sending_at") sending_at (
                        field (lit "template") (text_column t.template) (
                          field (lit "transport") (num t.transport) (
                            field (lit "concat_subject") (text_column t.concat_subject)
                              (field (lit "mail_options") mail_options end))))))))))))))

abbrev pub all_digits : Text → Bool
all_digits [] = true
all_digits (c ∷ s) = is_digit c && all_digits s

-- The number that digits stand for, after those that stand for `n`.
abbrev pub decimal : ℕ → Text → ℕ
decimal n [] = n
decimal n (c ∷ s) = decimal (n * 10 + (c - 48)) s

-- How the client gives a BIGINT.
abbrev pub IsBigint : ℕ → Value → Type 0
IsBigint n v =
    (v ≡ num n)
    ⊎ ((c : ℕ) × (s : Text) × (v ≡ str (c ∷ s))
        × (all_digits (c ∷ s) ≡ true)
        × (decimal 0 (c ∷ s) ≡ n))

read_digits-decimal : (n : ℕ) (s : Text) → all_digits s ≡ true → read_digits n s ≡ decimal n s
unfolding read_digits
read_digits-decimal n [] h = refl
read_digits-decimal n (c ∷ s) h = elim (Bool-cases (is_digit c)) [
  | inl e ↦ rw e (read_digits-decimal (n * 10 + (c - 48)) s (ground (arith, h)))
  | inr e ↦ absurd (ground (arith, h, e))
]

parse_int-IsBigint : (n : ℕ) (v : Value) → IsBigint n v → parse_int v ≡ some n
unfolding parse_int
parse_int-IsBigint n v (inl e) = rw e refl
parse_int-IsBigint n v (inr (c, s, e, digits, value)) =
    let first : is_digit c ≡ true = ground (arith, digits) in
    ap parse_int e
    ∙ ap (λ b. if b then some (read_digits 0 (c ∷ s)) else none) first
    ∙ ap some (read_digits-decimal 0 (c ∷ s) digits ∙ value)

sending_at-IsBigint : (n : ℕ) (v : Value) → IsBigint n v → sending_at_of v ≡ some n
unfolding parse_int
sending_at-IsBigint n v (inl e) = rw e refl
sending_at-IsBigint n v (inr (c, s, e, digits, value)) =
    ap sending_at_of e
    ∙ sym (ap parse_int e)
    ∙ parse_int-IsBigint n v (inr (c, s, e, digits, value))

text_column-or_null : (o : Option Text) → text_or_none (text_column o) ≡ or_null o
text_column-or_null none = refl
text_column-or_null (some s) = elim (Bool-cases (is_empty s)) [
  | inl e ↦ rw e refl
  | inr e ↦ rw (e, e) refl
]

options_of-items_of : (mos : List MailOption) → options_of (items_of mos) ≡ mos
unfolding options_of
options_of-items_of [] = refl
options_of-items_of (mo ∷ mos) = ap (λ rest. mo ∷ rest) (options_of-items_of mos)

-- A row of the columns that `push` writes for a task, each BIGINT given as a number or as its
-- decimal text, and the JSONB column as an array of objects or as a text that parses as one, is read
-- by `normalizeRow` as that task with the mail options of that array, but for an address that is not
-- a text, which is read as null, and an empty `template` or `concatSubject`, which is read as missing.
pub normalize_row-columns :
    (parse_json : Text → Option Value) (t : Task) (id send_at sending_at json : Value)
    (mos : List MailOption)
    → IsBigint t.id id
    → IsBigint t.send_at send_at
    → IsBigint t.sending_at sending_at
    → parse_mail_options parse_json json ≡ some (arr (items_of mos))
    → normalize_row parse_json (columns t id send_at sending_at json)
      ≡ some (record t {
        to = address_column t.to;
        template = or_null t.template;
        concat_subject = or_null t.concat_subject;
        mail_options = mos;
      })
unfolding normalize_row get text_eq
normalize_row-columns parse_json t id send_at sending_at json mos i s a j =
    rw
      (
        parse_int-IsBigint t.id id i,
        parse_int-IsBigint t.send_at send_at s,
        sending_at-IsBigint t.sending_at sending_at a,
        text_column-or_null t.template,
        text_column-or_null t.concat_subject,
        j,
        options_of-items_of mos,
      )
      refl
