-- ===== src/Adapters/Redis/Scripts/Effects.antt =====
-- What the scripts of adapters/redis.js do to the letter that they are called for, and to its place
-- in the schedule.
use mail_time.Prelude.{
  ℕ, ◌≡◌, refl, sym, ap, ◌∙◌, inl, inr, Bool, true, not, ◌||◌, [], ◌∷◌, ◌++◌, Option, none, some,
  arith, if◌then◌else◌, Bool-cases,
}
use mail_time.Js.Text.{Text, text_eq, text_eq_refl}
use mail_time.Task.{Task, Update, MailOption, Lease, assign}
use mail_time.Queue.{returned, Effect, claim_guard, lease_guard, append_guard, remove_guard}
use mail_time.Adapters.Redis.Commands.{Redis, Laws, hdel, zrem, letter_after, after_all}
use mail_time.Adapters.Redis.Scripts.{
  Mode, claim_mode, lease_mode, plain_mode, has_ended, refuses, refuses_lease, drop_pointer,
  drop_pointer_of, reschedule, update_letter, update_script, append_letter, append_script,
  remove_letter, remove_script,
}

-- The guard that a mode stands for.
abbrev pub mode_guard : Mode → ℕ → ℕ → ℕ → ℕ → Task → Bool
mode_guard claim_mode now timeout tries sending_at t = claim_guard now timeout tries t
mode_guard lease_mode now timeout tries sending_at t =
    lease_guard (record { lease_tries = tries; lease_sending_at = sending_at }) t
mode_guard plain_mode now timeout tries sending_at t = true

refuses-mode_guard :
    (mode : Mode) (now timeout tries sending_at : ℕ) (t : Task)
    → refuses mode now timeout tries sending_at t
      ≡ not (mode_guard mode now timeout tries sending_at t)
unfolding refuses
refuses-mode_guard claim_mode now timeout tries sending_at t = ground arith
refuses-mode_guard lease_mode now timeout tries sending_at t = ground arith
refuses-mode_guard plain_mode now timeout tries sending_at t = refl

-- The commands on the schedule and the pointers leave the letters alone.
letter_after-drop_pointer :
    (k uuid key : Text) (o : Option Text) (old : Option Task)
    → after_all (letter_after k) (drop_pointer uuid key o) old ≡ old
unfolding drop_pointer
letter_after-drop_pointer k uuid key none old = refl
letter_after-drop_pointer k uuid key (some at) old = elim (Bool-cases (text_eq at uuid)) [
  | inl e ↦ rw e refl
  | inr e ↦ rw e refl
]

pub letter_after-drop_pointer_of :
    (k uuid : Text) (key : Option Text) (pointer : Text → Option Text) (old : Option Task)
    → after_all (letter_after k) (drop_pointer_of uuid key pointer) old ≡ old
letter_after-drop_pointer_of k uuid none pointer old = refl
letter_after-drop_pointer_of k uuid (some key) pointer old =
    letter_after-drop_pointer k uuid key (pointer key) old

pub letter_after-reschedule :
    (timeout : ℕ) (k uuid : Text) (key : Option Text) (pointer : Text → Option Text) (t : Task)
    (old : Option Task)
    → after_all (letter_after k) (reschedule timeout uuid key pointer t) old ≡ old
unfolding reschedule
letter_after-reschedule timeout k uuid key pointer t old = elim (Bool-cases (has_ended t)) [
  | inl e ↦ rw e (letter_after-drop_pointer_of k uuid key pointer old)
  | inr e ↦ elim (Bool-cases t.is_sending) [ inl f ↦ rw (e, f) refl | inr f ↦ rw (e, f) refl ]
]

module _ (recode : Task → Task) (r : Redis) (laws : Laws r) where
  update_letter-Effect :
      (uuid : Text) (u : Update) (mode : Mode) (now timeout tries sending_at : ℕ)
      (key : Option Text) (s : r.Store) (o : Option Task)
      → o ≡ r.letter s uuid
      → Effect
          (mode_guard mode now timeout tries sending_at)
          (λ t. some (recode (assign t u)))
          (r.letter s uuid)
          (r.letter
            (update_letter recode r uuid u mode now timeout tries sending_at key s o).0
            uuid)
          (returned (update_letter recode r uuid u mode now timeout tries sending_at key s o).1)
  unfolding update_letter
  update_letter-Effect uuid u mode now timeout tries sending_at key s none e =
      laws.letter_lem s (zrem uuid ∷ []) uuid
  update_letter-Effect uuid u mode now timeout tries sending_at key s (some t) e =
      elim (Bool-cases (refuses mode now timeout tries sending_at t)) [
        | inl f ↦ rw f refl
        | inr f ↦ rw f (
          t,
          sym e,
          ground (arith, f, refuses-mode_guard mode now timeout tries sending_at t),
          laws.letter_lem s _ uuid
              ∙ letter_after-reschedule timeout uuid uuid key (r.pointer s) (assign t u) _
              ∙ ap (λ b. if b then some (recode (assign t u)) else r.letter s uuid)
                  (text_eq_refl uuid),
        )
      ]

  pub update_script-Effect :
      (uuid : Text) (u : Update) (mode : Mode) (now timeout tries sending_at : ℕ)
      (key : Option Text) (s : r.Store)
      → Effect
          (mode_guard mode now timeout tries sending_at)
          (λ t. some (recode (assign t u)))
          (r.letter s uuid)
          (r.letter (update_script recode r uuid u mode now timeout tries sending_at key s).0 uuid)
          (returned (update_script recode r uuid u mode now timeout tries sending_at key s).1)
  unfolding update_script
  update_script-Effect uuid u mode now timeout tries sending_at key s =
      update_letter-Effect uuid u mode now timeout tries sending_at key s (r.letter s uuid) refl

  append_letter-Effect :
      (uuid : Text) (mo : MailOption) (s : r.Store) (o : Option Task)
      → o ≡ r.letter s uuid
      → Effect append_guard
          (λ t. some (recode (record t { mail_options = t.mail_options ++ mo ∷ [] })))
          (r.letter s uuid)
          (r.letter (append_letter recode r uuid mo s o).0 uuid)
          (returned (append_letter recode r uuid mo s o).1)
  unfolding append_letter
  append_letter-Effect uuid mo s none e = refl
  append_letter-Effect uuid mo s (some t) e =
      elim (Bool-cases (t.is_sending || (t.is_sent || (t.is_failed || t.is_cancelled)))) [
        | inl f ↦ rw f refl
        | inr f ↦ rw f (
          t,
          sym e,
          ground (arith, f),
          laws.letter_lem s _ uuid
              ∙ ap
                  (λ b.
                    if b
                    then some (recode (record t { mail_options = t.mail_options ++ mo ∷ [] }))
                    else r.letter s uuid)
                  (text_eq_refl uuid),
        )
      ]

  pub append_script-Effect :
      (uuid : Text) (mo : MailOption) (s : r.Store)
      → Effect append_guard
          (λ t. some (recode (record t { mail_options = t.mail_options ++ mo ∷ [] })))
          (r.letter s uuid)
          (r.letter (append_script recode r uuid mo s).0 uuid)
          (returned (append_script recode r uuid mo s).1)
  unfolding append_script
  append_script-Effect uuid mo s = append_letter-Effect uuid mo s (r.letter s uuid) refl

  removed :
      (uuid : Text) (key : Option Text) (s : r.Store)
      → r.letter (r.run s (hdel uuid ∷ zrem uuid ∷ drop_pointer_of uuid key (r.pointer s))) uuid
        ≡ none
  removed uuid key s =
      laws.letter_lem s _ uuid
      ∙ letter_after-drop_pointer_of uuid uuid key (r.pointer s) _
      ∙ ap (λ b. if b then none else r.letter s uuid) (text_eq_refl uuid)

  remove_letter-Effect :
      (uuid : Text) (lease : Option Lease) (key : Option Text) (s : r.Store) (o : Option Task)
      → o ≡ r.letter s uuid
      → Effect
          (remove_guard lease)
          (λ t. none)
          (r.letter s uuid)
          (r.letter (remove_letter recode r uuid lease key s o).0 uuid)
          (returned (remove_letter recode r uuid lease key s o).1)
  unfolding remove_letter
  remove_letter-Effect uuid lease key s none e = laws.letter_lem s (zrem uuid ∷ []) uuid
  remove_letter-Effect uuid none key s (some t) e = (t, sym e, refl, removed uuid key s)
  remove_letter-Effect uuid (some l) key s (some t) e =
      elim (Bool-cases (refuses_lease l.lease_tries l.lease_sending_at t)) [
        | inl f ↦ rw f refl
        | inr f ↦ rw f (t, sym e, ground (arith, f), removed uuid key s)
      ]

  pub remove_script-Effect :
      (uuid : Text) (lease : Option Lease) (key : Option Text) (s : r.Store)
      → Effect
          (remove_guard lease)
          (λ t. none)
          (r.letter s uuid)
          (r.letter (remove_script recode r uuid lease key s).0 uuid)
          (returned (remove_script recode r uuid lease key s).1)
  unfolding remove_script
  remove_script-Effect uuid lease key s =
      remove_letter-Effect uuid lease key s (r.letter s uuid) refl
