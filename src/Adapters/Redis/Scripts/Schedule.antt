-- ===== src/Adapters/Redis/Scripts/Schedule.antt =====
-- Where an update by a script of adapters/redis.js leaves its letter in the schedule.
use mail_time.Prelude.{
  ℕ, ◌+◌, ◌≡◌, refl, sym, ap, ◌∙◌, inl, inr, Bool, true, false, ◌∷◌, Option, none, some,
  if◌then◌else◌, Bool-cases,
}
use mail_time.Js.Text.{Text, text_eq, text_eq_refl}
use mail_time.Task.{Task, Update, assign}
use mail_time.Adapters.Redis.Commands.{Redis, Laws, hset, score_after, after_all}
use mail_time.Adapters.Redis.Scripts.{
  Mode, has_ended, refuses, drop_pointer, drop_pointer_of, reschedule, update_letter, update_script,
}

-- A letter that has ended has no place; one that is being sent stands where its claim goes stale.
abbrev pub place : ℕ → Task → Option ℕ
place timeout r =
    if has_ended r
    then none
    else if r.is_sending
    then some (r.sending_at + timeout)
    else some r.send_at

score_after-drop_pointer :
    (k uuid key : Text) (o : Option Text) (old : Option ℕ)
    → after_all (score_after k) (drop_pointer uuid key o) old ≡ old
unfolding drop_pointer
score_after-drop_pointer k uuid key none old = refl
score_after-drop_pointer k uuid key (some at) old = elim (Bool-cases (text_eq at uuid)) [
  | inl e ↦ rw e refl
  | inr e ↦ rw e refl
]

score_after-drop_pointer_of :
    (k uuid : Text) (key : Option Text) (pointer : Text → Option Text) (old : Option ℕ)
    → after_all (score_after k) (drop_pointer_of uuid key pointer) old ≡ old
score_after-drop_pointer_of k uuid none pointer old = refl
score_after-drop_pointer_of k uuid (some key) pointer old =
    score_after-drop_pointer k uuid key (pointer key) old

score_after-reschedule :
    (timeout : ℕ) (uuid : Text) (key : Option Text) (pointer : Text → Option Text) (t : Task)
    (old : Option ℕ)
    → after_all (score_after uuid) (reschedule timeout uuid key pointer t) old ≡ place timeout t
unfolding reschedule
score_after-reschedule timeout uuid key pointer t old = elim (Bool-cases (has_ended t)) [
  | inl e ↦ rw e (
      score_after-drop_pointer_of uuid uuid key pointer _
      ∙ ap (λ b. if b then none else old) (text_eq_refl uuid))
  | inr e ↦ elim (Bool-cases t.is_sending) [
    | inl f ↦ rw (e, f, text_eq_refl uuid) refl
    | inr f ↦ rw (e, f, text_eq_refl uuid) refl
  ]
]

module _ (recode : Task → Task) (r : Redis) (laws : Laws r) where
  letter_placed :
      (uuid : Text) (u : Update) (mode : Mode) (now timeout tries sending_at : ℕ)
      (key : Option Text) (s : r.Store) (o : Option Task)
      → (update_letter recode r uuid u mode now timeout tries sending_at key s o).1 ≡ true
      → (t : Task) × (o ≡ some t)
        × (r.score (update_letter recode r uuid u mode now timeout tries sending_at key s o).0 uuid
            ≡ place timeout (assign t u))
  unfolding update_letter
  letter_placed uuid u mode now timeout tries sending_at key s none h = cc
  letter_placed uuid u mode now timeout tries sending_at key s (some t) h =
      let kept : r.Store × Bool = (s, false) in
      let changed : r.Store × Bool = (
        r.run s (
            hset uuid (recode (assign t u))
            ∷ reschedule timeout uuid key (r.pointer s) (assign t u)),
        true,
      ) in
      elim (Bool-cases (refuses mode now timeout tries sending_at t)) [
        | inl f ↦
            let bad : false ≡ true = sym (ap (λ b. (if b then kept else changed).1) f) ∙ h in cc
        | inr f ↦ (
          t,
          refl,
          ap (λ b. r.score (if b then kept else changed).0 uuid) f
              ∙ laws.score_lem s _ uuid
              ∙ score_after-reschedule timeout uuid key (r.pointer s) (assign t u) (r.score s uuid),
        )
      ]

  -- With hash tags, an update that answers 1 finds its letter and leaves it at its place in the
  -- schedule: none if the updated letter has ended, the time when its claim goes stale if it is
  -- being sent, and `sendAt` otherwise.
  pub update_script-place :
      (uuid : Text) (u : Update) (mode : Mode) (now timeout tries sending_at : ℕ)
      (key : Option Text) (s : r.Store)
      → (update_script recode r uuid u mode now timeout tries sending_at key s).1 ≡ true
      → (t : Task) × (r.letter s uuid ≡ some t)
        × (r.score (update_script recode r uuid u mode now timeout tries sending_at key s).0 uuid
            ≡ place timeout (assign t u))
  unfolding update_script
  update_script-place uuid u mode now timeout tries sending_at key s h =
      letter_placed uuid u mode now timeout tries sending_at key s (r.letter s uuid) h
