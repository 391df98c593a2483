-- ===== src/MailTime/Compose/Recipients.antt =====
-- Whom a composed message is for, and what a strict instance puts in it.
use mail_time.Prelude.{
  ℕ, ◌≡◌, refl, ap, ◌∙◌, true, false, List, [], ◌∷◌, ◌++◌, Option, none, some, arith, ltb, length,
  Bool-cases, inl, inr, >>=-eq-some, ◌>>=◌,
}
use mail_time.Js.Text.{Text, lit, has, has-append, text_eq, text_eq_iff}
use mail_time.Js.Value.{Value, bool, Fields, get, put, get-put, get-put_self}
use mail_time.Task.{Task}
use mail_time.Helpers.Address.{to_address_list, filter_address_field}
use mail_time.Helpers.Address.Remaining.{remaining, to_address_list-filter_address_field}
use mail_time.MailTime.State.{MailTime, Transport}
use mail_time.MailTime.Recipients.{collect_accepted_set, mail_option_recipients}
use mail_time.MailTime.Compose.{
  compile_mail_opts, add_options, set_subject, set_from, wrap_html, drop_accepted, restrict_access,
  start_message,
}

has-remaining :
    (set xs : List Text) (b : Text) → has set b ≡ true → has (remaining set xs) b ≡ false
unfolding has
has-remaining set [] b h = refl
has-remaining set (x ∷ xs) b h = ground (arith, has-remaining set xs b, text_eq_iff x b)

-- A field that `filterAddressField` has been through names nobody of the set.
unaccepted :
    (field : Value) (set : List Text) (b : Text)
    → has set b ≡ true
    → has (to_address_list (filter_address_field field set)) b ≡ false
unaccepted field set b h =
    rw (to_address_list-filter_address_field field set)
      (has-remaining set (to_address_list field) b h)

get-put_ne :
    (k j : Text) (v : Value) (fs : Fields) → text_eq k j ≡ false → get j (put k v fs) ≡ get j fs
get-put_ne k j v fs h = get-put k j v fs ∙ rw h

-- What is left of the three fields of the recipients.
has_three :
    (fs : Fields) (b : Text)
    → has (to_address_list (get (lit "to") fs)) b ≡ false
    → has (to_address_list (get (lit "cc") fs)) b ≡ false
    → has (to_address_list (get (lit "bcc") fs)) b ≡ false
    → has (mail_option_recipients fs) b ≡ false
unfolding mail_option_recipients
has_three fs b h i j = ground (
  arith,
  has-append (to_address_list (get (lit "to") fs))
      (to_address_list (get (lit "cc") fs) ++ to_address_list (get (lit "bcc") fs)) b,
  has-append (to_address_list (get (lit "cc") fs)) (to_address_list (get (lit "bcc") fs)) b,
)

-- The three writes of `drop_accepted`, on three different keys.
three_writes :
    (c : Fields) (x : Value) (f g : Fields → Value)
    → let d = put (lit "to") x c in
      let e = put (lit "cc") (f d) d in
      (get (lit "to") (put (lit "bcc") (g e) e) ≡ x)
      × (get (lit "cc") (put (lit "bcc") (g e) e) ≡ f d)
      × (get (lit "bcc") (put (lit "bcc") (g e) e) ≡ g e)
unfolding text_eq
three_writes c x f g =
    let d = put (lit "to") x c in
    let e = put (lit "cc") (f d) d in
    (
      get-put_ne (lit "bcc") (lit "to") (g e) e refl
          ∙ get-put_ne (lit "cc") (lit "to") (f d) d refl
          ∙ get-put_self (lit "to") x c,
      get-put_ne (lit "bcc") (lit "cc") (g e) e refl ∙ get-put_self (lit "cc") (f d) d,
      get-put_self (lit "bcc") (g e) e,
    )

dropped :
    (set : List Text) (c : Fields) (b : Text)
    → has set b ≡ true
    → has (mail_option_recipients (drop_accepted set c)) b ≡ false
unfolding drop_accepted has
dropped [] c b h = absurd (ground arith)
dropped (a ∷ set) c b h =
    let field = λ (k : Text) (fs : Fields). filter_address_field (get k fs) (a ∷ set) in
    let gone = λ (k : Text) (fs : Fields). unaccepted (get k fs) (a ∷ set) b h in
    let (to, cc', bcc) =
      three_writes c (field (lit "to") c) (field (lit "cc")) (field (lit "bcc")) in
    has_three _ b (rw to (gone (lit "to") c)) (rw cc' (gone (lit "cc") _))
      (rw bcc (gone (lit "bcc") _))

-- The two flags are written last, and on other keys.
flags_recipients :
    (c : Fields) (v : Value)
    → mail_option_recipients (put (lit "disableUrlAccess") v (put (lit "disableFileAccess") v c))
      ≡ mail_option_recipients c
unfolding mail_option_recipients text_eq
flags_recipients c v =
    let u = lit "disableUrlAccess" in
    let f = lit "disableFileAccess" in
    rw
      (
        get-put_ne u (lit "to") v (put f v c) refl,
        get-put_ne u (lit "cc") v (put f v c) refl,
        get-put_ne u (lit "bcc") v (put f v c) refl,
        get-put_ne f (lit "to") v c refl,
        get-put_ne f (lit "cc") v c refl,
        get-put_ne f (lit "bcc") v c refl,
      )
      refl

restricted_recipients :
    (m : MailTime) (c : Fields)
    → mail_option_recipients (restrict_access m c) ≡ mail_option_recipients c
unfolding restrict_access
restricted_recipients m c = elim (Bool-cases m.strict_payload) [
  | inl e ↦ ground (arith, flags_recipients c (bool true))
  | inr e ↦ ground arith
]

flags_set :
    (m : MailTime) (c : Fields)
    → m.strict_payload ≡ true
    → (get (lit "disableFileAccess") (restrict_access m c) ≡ bool true)
      × (get (lit "disableUrlAccess") (restrict_access m c) ≡ bool true)
unfolding restrict_access text_eq
flags_set m c e =
    let u = lit "disableUrlAccess" in
    let f = lit "disableFileAccess" in
    let d = put f (bool true) c in
    let file : get f (put u (bool true) d) ≡ bool true =
      get-put_ne u f (bool true) d refl ∙ get-put_self f (bool true) c in
    let url : get u (put u (bool true) d) ≡ bool true = get-put_self u (bool true) d in
    (ground arith, ground arith)

module _ (show : Value → Text) (m : MailTime)
    (from : Option (Transport → ℕ → Option Text → Option Value)) where
  -- A composed message has been through the last two steps.
  last_steps :
      (transport : Option Transport) (index : ℕ) (t : Task) (message : Fields)
      → compile_mail_opts show m from transport index t ≡ some message
      → (c : Fields) × (message ≡ restrict_access m (drop_accepted (collect_accepted_set t) c))
  unfolding compile_mail_opts
  last_steps none index t message e = absurd (ground arith)
  last_steps (some transport) index t message e =
      let is_multi = ltb 1 (length t.mail_options) in
      let end_of =
        λ (c : Fields). some (restrict_access m (drop_accepted (collect_accepted_set t) c)) in
      let from_on = λ (c : Fields). set_from show m from transport index c >>= end_of in
      let subject_on =
        λ (c : Fields). set_subject show m is_multi t (wrap_html show m t c) >>= from_on in
      let (c1, e0, e1) =
        >>=-eq-some (add_options show m is_multi t.mail_options (start_message transport))
          subject_on e in
      let (c2, e2, e3) =
        >>=-eq-some (set_subject show m is_multi t (wrap_html show m t c1)) from_on e1 in
      let (c3, e4, e5) = >>=-eq-some (set_from show m from transport index c2) end_of e3 in (c3, cc)

  -- An address that has accepted the letter is in none of `to`, `cc` and `bcc` of the message that
  -- is composed for it.
  pub compile_mail_opts-collect_accepted_set :
      (transport : Option Transport) (index : ℕ) (t : Task) (message : Fields) (b : Text)
      → compile_mail_opts show m from transport index t ≡ some message
      → has (collect_accepted_set t) b ≡ true
      → has (mail_option_recipients message) b ≡ false
  compile_mail_opts-collect_accepted_set transport index t message b e h =
      let (c, same) = last_steps transport index t message e in
      let set = collect_accepted_set t in
      ap (λ fs. has (mail_option_recipients fs) b) same
      ∙ ap (λ xs. has xs b) (restricted_recipients m (drop_accepted set c))
      ∙ dropped set c b h

  -- Under `strictPayload`, every composed message forbids access to files and to URLs.
  pub compile_mail_opts_strict :
      (transport : Option Transport) (index : ℕ) (t : Task) (message : Fields)
      → m.strict_payload ≡ true
      → compile_mail_opts show m from transport index t ≡ some message
      → (get (lit "disableFileAccess") message ≡ bool true)
        × (get (lit "disableUrlAccess") message ≡ bool true)
  compile_mail_opts_strict transport index t message strict e =
      let (c, same) = last_steps transport index t message e in
      rw same (flags_set m (drop_accepted (collect_accepted_set t) c) strict)
