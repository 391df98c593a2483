-- ===== src/MailTime/Queueing/Refused.antt =====
-- index.js, `sendMail`: the letters that it does not take.
use mail_time.Prelude.{
  ℕ, ◌+◌, ◌≡◌, refl, sym, ap, ◌∙◌, ◌⊎◌, inl, inr, Bool, true, false, not, ◌&&◌, ◌||◌, Option, none,
  some, arith, Bool-cases, Option-cases,
}
use mail_time.Js.Text.{Text, lit, text_eq}
use mail_time.Js.Value.{
  Value, undefined, str, arr, Items, cons, Fields, get, delete_key, get-delete_key, truthy,
}
use mail_time.Task.{Task}
use mail_time.Queue.{Queue, Answer, returned, threw}
use mail_time.MailTime.State.{MailTime}
use mail_time.MailTime.Queueing.{
  Sent, refused, is_undefined, is_recipient, mail_option_of, send_mail, add_to_queue, join,
  send_at_of,
}

Answer-cases : (a : Answer) → (a ≡ threw) ⊎ ((b : Bool) × (a ≡ returned b))
Answer-cases threw = inl refl
Answer-cases (returned b) = inr (b, refl)

abbrev pub is_refused : Sent → Bool
is_refused (refused m) = true
is_refused r = false

-- No body, a raw message, or no recipient, as the code tests it.
abbrev is_invalid : Fields → Bool
is_invalid opts =
    (not (truthy (get (lit "html") opts)) && not (truthy (get (lit "text") opts)))
    || (not (is_undefined (get (lit "raw") opts))
        || not (is_recipient (get (lit "to") (mail_option_of opts))))

-- A text, which may be empty, or an array that is not empty.
abbrev IsAddressed : Value → Type 0
IsAddressed to =
    ((s : Text) × (to ≡ str s)) ⊎ ((v : Value) × (rest : Items) × (to ≡ arr (cons v rest)))

-- A body, no raw message, and an address.
abbrev pub IsAcceptable : Fields → Type 0
IsAcceptable opts =
    ((truthy (get (lit "html") opts) ≡ true) ⊎ (truthy (get (lit "text") opts) ≡ true))
    × (get (lit "raw") opts ≡ undefined)
    × IsAddressed (get (lit "to") opts)

same_to : (opts : Fields) → get (lit "to") (mail_option_of opts) ≡ get (lit "to") opts
unfolding text_eq
same_to opts =
    get-delete_key (lit "concatSubject") (lit "to")
      (delete_key (lit "template") (delete_key (lit "sendAt") opts))
    ∙ get-delete_key (lit "template") (lit "to") (delete_key (lit "sendAt") opts)
    ∙ get-delete_key (lit "sendAt") (lit "to") opts

IsAddressed-is_recipient : (to : Value) → IsAddressed to → is_recipient to ≡ true
IsAddressed-is_recipient to (inl (s, e)) = rw e refl
IsAddressed-is_recipient to (inr (v, rest, e)) = rw e refl

is_recipient-IsAddressed : (to : Value) → is_recipient to ≡ true → IsAddressed to
is_recipient-IsAddressed (str s) e = inl (s, refl)
is_recipient-IsAddressed (arr (cons v rest)) e = inr (v, rest, refl)
is_recipient-IsAddressed to e = cc

undefined_is : (v : Value) → is_undefined v ≡ true → v ≡ undefined
undefined_is undefined e = refl
undefined_is v e = cc

IsAcceptable-is_invalid : (opts : Fields) → IsAcceptable opts → is_invalid opts ≡ false
IsAcceptable-is_invalid opts (body, raw, to) =
    let given : is_recipient (get (lit "to") (mail_option_of opts)) ≡ true =
      rw (same_to opts) (IsAddressed-is_recipient _ to) in
    elim body [ inl h ↦ rw (h, raw, given) refl | inr h ↦ rw (h, raw, given) (ground arith) ]

is_invalid-IsAcceptable : (opts : Fields) → is_invalid opts ≡ false → IsAcceptable opts
is_invalid-IsAcceptable opts e = (
  elim (Bool-cases (truthy (get (lit "html") opts))) [
    | inl h ↦ inl h
    | inr h ↦ inr (ground (arith, e, h))
  ],
  undefined_is _ (ground (arith, e)),
  is_recipient-IsAddressed _ (ap is_recipient (sym (same_to opts)) ∙ ground (arith, e)),
)

module _ (q : Queue) (get_pending_to : q.Store → Value → ℕ → Option (Option Task))
    (push : q.Store → Task → q.Store) (m : MailTime) (now : ℕ) (s : q.Store) (uuid : Text)
    (opts : Fields) where
  abbrev sent : MailTime × q.Store × Sent
  sent = send_mail q get_pending_to push m now s uuid opts

  invalid : is_invalid opts ≡ true → (is_refused sent.2 ≡ true) × (sent.0 ≡ m) × (sent.1 ≡ s)
  unfolding send_mail
  invalid h =
      elim (Bool-cases
        (not (truthy (get (lit "html") opts)) && not (truthy (get (lit "text") opts)))) [
          | inl a ↦ rw a (refl, refl, refl)
          | inr a ↦ elim (Bool-cases (not (is_undefined (get (lit "raw") opts)))) [
            | inl b ↦ rw (a, b) (refl, refl, refl)
            | inr b ↦
                elim (Bool-cases (not (is_recipient (get (lit "to") (mail_option_of opts))))) [
                  | inl c ↦ rw (a, b, c) (refl, refl, refl)
                  | inr c ↦ absurd (ground (arith, a, b, c, h))
                ]
          ]
        ]

  -- What a letter that the options allow comes to.
  taken : is_invalid opts ≡ false → is_refused sent.2 ≡ false
  unfolding send_mail add_to_queue
  taken h =
      let (a, b, c) = allowed in
      elim (Bool-cases (not m.concat_emails)) [
        | inl d ↦ rw (a, b, c, d) refl
        | inr d ↦ elim (Option-cases (get_pending_to s (get (lit "to") mo) at)) [
          | inl e ↦ rw (a, b, c, d, e) refl
          | inr (none, e) ↦ rw (a, b, c, d, e) refl
          | inr (some t, e) ↦ elim (Answer-cases (join q get_pending_to push m now s t mo).1) [
            | inl f ↦ rw (a, b, c, d, e, f) refl
            | inr (true, f) ↦ rw (a, b, c, d, e, f) refl
            | inr (false, f) ↦ rw (a, b, c, d, e, f) refl
          ]
        ]
      ]
    where
      mo : Fields
      mo = mail_option_of opts

      at : ℕ
      at = send_at_of now (get (lit "sendAt") opts) + m.concat_delay

      allowed :
          ((not (truthy (get (lit "html") opts)) && not (truthy (get (lit "text") opts))) ≡ false)
          × (not (is_undefined (get (lit "raw") opts)) ≡ false)
          × (not (is_recipient (get (lit "to") mo)) ≡ false)
      allowed = (ground (arith, h), ground (arith, h), ground (arith, h))

  -- `sendMail` takes a letter exactly if it has `html` or `text`, has no `raw`, and its `to` is a text
  -- (an empty one too) or an array that is not empty: it then throws no error of the options. Any
  -- other letter is refused, and leaves the instance and the storage as they were.
  pub send_mail-is_refused :
      (IsAcceptable opts → is_refused (send_mail q get_pending_to push m now s uuid opts).2 ≡ false)
      × (¬ IsAcceptable opts
          → (is_refused (send_mail q get_pending_to push m now s uuid opts).2 ≡ true)
            × ((send_mail q get_pending_to push m now s uuid opts).0 ≡ m)
            × ((send_mail q get_pending_to push m now s uuid opts).1 ≡ s))
  send_mail-is_refused = (
    λ a. taken (IsAcceptable-is_invalid opts a),
    λ n. elim (Bool-cases (is_invalid opts)) [
      | inl h ↦ invalid h
      | inr h ↦ absurd (n (is_invalid-IsAcceptable opts h))
    ],
  )
