-- ===== src/Adapters/Redis/Untagged/Updates.antt =====
-- What an update that answers `true` has done in adapters/redis.js without hash tags, whatever the
-- other processes did meanwhile.
use mail_time.Prelude.{
  subst, ℕ, ◌≡◌, ◌≢◌, refl, sym, ap, ◌∙◌, inl, inr, Bool, true, false, not, ◌&&◌, ◌||◌, List, [],
  ◌∷◌, ◌++◌, Option, none, some, arith, ◌==◌, if◌then◌else◌, Bool-cases, Option-cases,
}
use mail_time.Js.Text.{Text, text_eq, text_eq_iff, text_eq_refl}
use mail_time.Js.Value.{Value}
use mail_time.Task.{
  Task, Update, MailOption, Lease, get_or, is_some, assign, strip_internal_update_meta,
  is_send_claim_update, is_send_lease_guarded_update, is_append_mail_option_update,
}
use mail_time.Queue.{update_guard, updated, claim_guard, lease_guard, append_guard}
use mail_time.Adapters.Mongo.{Instance}
use mail_time.Adapters.Redis.{can_claim_task-claim_guard}
use mail_time.Adapters.Redis.Keys.{KeyType, sendat, get_key_inj}
use mail_time.Adapters.Redis.Client.{Client, Laws, Cell, stamp, Op, sets, after_ops}
use mail_time.Adapters.Redis.Transaction.{guarded}
use mail_time.Adapters.Redis.Transaction.Atomic.{Wrote, guarded-Wrote}
use mail_time.Adapters.Redis.Untagged.{
  is_closed, sending_timeout_of, letter_key, sendat_key, schedule_ops, append_ops, append, set_ops,
  claim_ops, update,
}

pub keys_apart :
    (unique_name : Text) (t : Task)
    → text_eq (letter_key unique_name t) (sendat_key unique_name t) ≡ false
keys_apart unique_name t =
    elim (Bool-cases (text_eq (letter_key unique_name t) (sendat_key unique_name t))) [
      | inl e ↦ absurd (
          letter_ne_sendat
            (get_key_inj unique_name KeyType.letter sendat t.uuid t.uuid ((text_eq_iff _ _).0 e)).0)
      | inr e ↦ e
    ]
  where
    letter_ne_sendat : KeyType.letter ≢ sendat
    letter_ne_sendat e = cc

-- What the schedule holds for a letter once it was written.
abbrev pub scheduled : Task → Option Cell → Option Cell
scheduled r old =
    if is_closed r then none else if r.send_at == 0 then old else some (stamp r.send_at)

-- The schedule does not touch another key.
pub after_ops-schedule_ops_other :
    (at : ℕ) (k key : Text) (r : Task) (old : Option Cell)
    → text_eq key k ≡ false
    → after_ops at k (schedule_ops key r) old ≡ old
unfolding schedule_ops
after_ops-schedule_ops_other at k key r old e = ground (arith, e)

after_ops-schedule_ops :
    (at : ℕ) (key : Text) (r : Task) (old : Option Cell)
    → after_ops at key (schedule_ops key r) old ≡ scheduled r old
unfolding schedule_ops
after_ops-schedule_ops at key r old = ground (arith, text_eq_refl key)

pub text_eq_swap : (a b : Text) → text_eq a b ≡ false → text_eq b a ≡ false
text_eq_swap a b e = grind (arith, text_eq_iff, text_eq_refl)

module _ (unique_name : Text) where
  after_ops-set_ops :
      (at : ℕ) (t : Task) (u : Update) (r : Task) (old : Option Cell)
      → after_ops at (letter_key unique_name t) (set_ops unique_name t u r) old
        ≡ some (Cell.letter (assign r (strip_internal_update_meta u)))
  unfolding set_ops
  after_ops-set_ops at t u r old =
      let r' = assign r (strip_internal_update_meta u) in
      after_ops-schedule_ops_other at (letter_key unique_name t) (sendat_key unique_name t) r' _
        (text_eq_swap _ _ (keys_apart unique_name t))
      ∙ ap (λ b. if b then some (Cell.letter r') else old) (text_eq_refl (letter_key unique_name t))

  after_ops-set_ops_sendat :
      (at : ℕ) (t : Task) (u : Update) (r : Task) (old : Option Cell)
      → after_ops at (sendat_key unique_name t) (set_ops unique_name t u r) old
        ≡ scheduled (assign r (strip_internal_update_meta u)) old
  unfolding set_ops
  after_ops-set_ops_sendat at t u r old =
      let r' = assign r (strip_internal_update_meta u) in
      after_ops-schedule_ops at (sendat_key unique_name t) r' _
      ∙ ap (scheduled r')
          (ap (λ b. if b then some (Cell.letter r') else old) (keys_apart unique_name t))

abbrev first_guard : Bool → Bool → Bool → Bool → Bool
first_guard is_claim claims is_lease releases =
    if is_claim then claims else if is_lease then releases else true

abbrev lease_of : Update → Lease
lease_of u = record {
  lease_tries = get_or u.lease_tries 0;
  lease_sending_at = get_or u.lease_sending_at 0;
}

abbrev plain_guard : Instance → ℕ → Task → Update → Task → Bool
plain_guard m now t u r =
    first_guard (is_send_claim_update u)
      (claim_guard (get_or u.sending_at now) (sending_timeout_of m) t.tries r)
      (is_send_lease_guarded_update u) (lease_guard (lease_of u) r)

-- A write under two guards, of which the first decides where both apply.
two_guards :
    (is_claim claims is_lease releases : Bool) (ops l : List Op)
    → (if is_claim && not claims then none else if is_lease && not releases then none else some ops)
      ≡ some l
    → (first_guard is_claim claims is_lease releases ≡ true) × (l ≡ ops)
two_guards is_claim claims is_lease releases ops l e = (ground arith, ground arith)

module _ (unique_name : Text) (m : Instance) (now : ℕ) (t : Task) (u : Update) where
  -- The operations on a letter that satisfied the guard of the update.
  claim_ops-update_guard :
      (r : Task) (l : List Op)
      → u.append_mail_option ≡ none
      → claim_ops unique_name m now t u r ≡ some l
      → (update_guard now (sending_timeout_of m) t u r ≡ true)
        × (l ≡ set_ops unique_name t u r)
        × (updated u r ≡ assign r (strip_internal_update_meta u))
  unfolding claim_ops
  claim_ops-update_guard r l plain e =
      let (a, b) =
        can_claim_task-claim_guard r t (get_or u.sending_at now) (sending_timeout_of m)
          (lease_of u) in
      let (allowed, is) =
        two_guards (is_send_claim_update u) _ (is_send_lease_guarded_update u) _
          (set_ops unique_name t u r) l e in
      (
        ap (λ o. if is_some o then append_guard r else plain_guard m now t u r) plain
            ∙ ap
                (λ x.
                  first_guard (is_send_claim_update u) x (is_send_lease_guarded_update u)
                    (lease_guard (lease_of u) r))
                (sym a)
            ∙ ap (first_guard (is_send_claim_update u) _ (is_send_lease_guarded_update u)) (sym b)
            ∙ allowed,
        is,
        ap
            (λ o. elim o [
              | some mo ↦ record r { mail_options = r.mail_options ++ mo ∷ [] }
              | none ↦ assign r (strip_internal_update_meta u)
            ])
            plain,
      )

  append_ops-append_guard :
      (mo : MailOption) (r : Task) (l : List Op)
      → append_ops unique_name t mo r ≡ some l
      → (append_guard r ≡ true)
        × (l
            ≡ sets
                (letter_key unique_name t)
                (Cell.letter (record r { mail_options = r.mail_options ++ mo ∷ [] }))
              ∷ [])
  unfolding append_ops
  append_ops-append_guard mo r l e = ground arith

-- What an update that answered `true` did to the letter's two keys, and to no other: `before` is
-- the store at the write.
abbrev pub Updated : Text → Instance → ℕ → Task → Update → (c : Client) → c.Store → c.Store → Type 0
Updated unique_name m now t u c before after =
    (r : Task) × (c.look before (letter_key unique_name t) ≡ some (Cell.letter r))
    × (update_guard now (sending_timeout_of m) t u r ≡ true)
    × (c.look after (letter_key unique_name t) ≡ some (Cell.letter (updated u r)))
    × (c.look after (sendat_key unique_name t) ≡ (
        if is_append_mail_option_update u
        then c.look before (sendat_key unique_name t)
        else scheduled (updated u r) (c.look before (sendat_key unique_name t))))

module _ (unique_name : Text) (m : Instance) (now : ℕ) (t : Task) (u : Update) (c : Client)
    (before after : c.Store) where
  claim_Wrote :
      u.append_mail_option ≡ none
      → Wrote c before after (letter_key unique_name t) (claim_ops unique_name m now t u)
      → Updated unique_name m now t u c before after
  claim_Wrote plain (r, l, held, ops, applied) =
      let (allowed, is, same) = claim_ops-update_guard unique_name m now t u r l plain ops in
      let letter_before = c.look before (letter_key unique_name t) in
      let sendat_before = c.look before (sendat_key unique_name t) in
      (
        r,
        held,
        allowed,
        applied _
            ∙ ap (λ x. after_ops (c.clock before) (letter_key unique_name t) x letter_before) is
            ∙ after_ops-set_ops unique_name (c.clock before) t u r _
            ∙ ap (λ x. some (Cell.letter x)) (sym same),
        applied _
            ∙ ap (λ x. after_ops (c.clock before) (sendat_key unique_name t) x sendat_before) is
            ∙ after_ops-set_ops_sendat unique_name (c.clock before) t u r _
            ∙ ap (λ x. scheduled x sendat_before) (sym same)
            ∙ ap (λ o. if is_some o then sendat_before else scheduled (updated u r) sendat_before)
                (sym plain),
      )

  append_Wrote :
      (mo : MailOption)
      → u.append_mail_option ≡ some mo
      → Wrote c before after (letter_key unique_name t) (append_ops unique_name t mo)
      → Updated unique_name m now t u c before after
  append_Wrote mo is_append (r, l, held, ops, applied) =
      let (allowed, is) = append_ops-append_guard unique_name m now t u mo r l ops in
      let letter_before = c.look before (letter_key unique_name t) in
      let sendat_before = c.look before (sendat_key unique_name t) in
      (
        r,
        held,
        ap (λ o. if is_some o then append_guard r else plain_guard m now t u r) is_append ∙ allowed,
        applied _
            ∙ ap (λ x. after_ops (c.clock before) (letter_key unique_name t) x letter_before) is
            ∙ ap
                (λ b.
                  if b
                  then some (Cell.letter (record r { mail_options = r.mail_options ++ mo ∷ [] }))
                  else letter_before)
                (text_eq_refl (letter_key unique_name t))
            ∙ ap
                (λ o. some (
                  Cell.letter (elim o [
                    | some mo ↦ record r { mail_options = r.mail_options ++ mo ∷ [] }
                    | none ↦ assign r (strip_internal_update_meta u)
                  ])))
                (sym is_append),
        applied _
            ∙ ap (λ x. after_ops (c.clock before) (sendat_key unique_name t) x sendat_before) is
            ∙ ap
                (λ b.
                  if b
                  then some (Cell.letter (record r { mail_options = r.mail_options ++ mo ∷ [] }))
                  else sendat_before)
                (keys_apart unique_name t)
            ∙ ap (λ o. if is_some o then sendat_before else scheduled (updated u r) sendat_before)
                (sym is_append),
      )

module _ (show : Value → Text) (unique_name : Text) (c : Client) (m : Instance) (now : ℕ)
    (s : c.Store) (meanwhile later : c.Store → c.Store) (t : Task) (u : Update) where
  update-claim :
      c.has_watch ≡ true
      → u.append_mail_option ≡ none
      → (is_send_claim_update u || is_send_lease_guarded_update u) ≡ true
      → update show unique_name c m now s meanwhile later t u
        ≡ guarded c s meanwhile (letter_key unique_name t) (claim_ops unique_name m now t u)
  unfolding update
  update-claim watch plain which = rw (plain, which, watch) refl

  update-append :
      c.has_watch ≡ true
      → (mo : MailOption) → u.append_mail_option ≡ some mo
      → update show unique_name c m now s meanwhile later t u
        ≡ guarded c s meanwhile (letter_key unique_name t) (append_ops unique_name t mo)
  unfolding update append
  update-append watch mo there = rw (there, watch) refl

-- Whatever the other processes do between the read and the write of a claim, of an update under a
-- lease or of an added letter, on a Redis client that can watch keys and keeps its documented laws:
-- if `update` without hash tags answers `true`, then the letter that the key held at the write
-- satisfied the guard of the queue's contract, the key now holds that letter as the contract
-- updates it, and its place in the schedule is the one of the updated letter.
pub update-Updated :
    (show : Value → Text) (unique_name : Text) (c : Client) (laws : Laws c) (m : Instance) (now : ℕ)
    (s : c.Store) (meanwhile later : c.Store → c.Store) (t : Task) (u : Update)
    → c.has_watch ≡ true
    → (is_append_mail_option_update u || (is_send_claim_update u || is_send_lease_guarded_update u))
      ≡ true
    → (update show unique_name c m now s meanwhile later t u).1 ≡ true
    → Updated unique_name m now t u c
        (meanwhile s)
        (update show unique_name c m now s meanwhile later t u).0
update-Updated show unique_name c laws m now s meanwhile later t u watch which answer =
    elim (Option-cases u.append_mail_option) [
      | inl plain ↦
          subst (λ p. p.1 ≡ true → Updated unique_name m now t u c (meanwhile s) p.0)
            (sym (
              update-claim show unique_name c m now s meanwhile later t u watch plain (
                ap (λ o. is_some o || (is_send_claim_update u || is_send_lease_guarded_update u))
                  (sym plain)
                ∙ which)))
            (λ h.
              claim_Wrote unique_name m now t u c _ _ plain
                (guarded-Wrote c laws s meanwhile _ _ h))
            answer
      | inr (mo, there) ↦
          subst (λ p. p.1 ≡ true → Updated unique_name m now t u c (meanwhile s) p.0)
            (sym (update-append show unique_name c m now s meanwhile later t u watch mo there))
            (λ h.
              append_Wrote unique_name m now t u c _ _ mo there
                (guarded-Wrote c laws s meanwhile _ _ h))
            answer
    ]
