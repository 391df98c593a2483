-- ===== src/Adapters/Redis/Scripts/Others.antt =====
-- The scripts of adapters/redis.js leave the letters alone that they are not called for.
use mail_time.Prelude.{
  ℕ, ◌≡◌, ◌≢◌, refl, sym, ap, ◌∙◌, inl, inr, false, ◌||◌, [], ◌∷◌, Option, none, some,
  if◌then◌else◌, Bool-cases,
}
use mail_time.Js.Text.{Text, text_eq, text_eq_iff}
use mail_time.Task.{Task, Update, MailOption, Lease, assign}
use mail_time.Adapters.Redis.Commands.{Redis, Laws, hdel, zrem}
use mail_time.Adapters.Redis.Scripts.{
  Mode, refuses, refuses_lease, drop_pointer_of, update_letter, update_script, append_letter,
  append_script, remove_letter, remove_script,
}
use mail_time.Adapters.Redis.Scripts.Effects.{letter_after-drop_pointer_of, letter_after-reschedule}

text_ne : (s t : Text) → t ≢ s → text_eq s t ≡ false
text_ne s t h = elim (Bool-cases (text_eq s t)) [
  | inl e ↦ absurd (h (sym ((text_eq_iff s t).0 e)))
  | inr e ↦ e
]

module _ (recode : Task → Task) (r : Redis) (laws : Laws r) (uuid k : Text) (other : k ≢ uuid)
    (s : r.Store) where
  -- A write or a deletion of the letter itself.
  passed : (new : Option Task) → (if text_eq uuid k then new else r.letter s k) ≡ r.letter s k
  passed new = ap (λ b. if b then new else r.letter s k) (text_ne uuid k other)

  update_letter_other :
      (u : Update) (mode : Mode) (now timeout tries sending_at : ℕ) (key : Option Text)
      (o : Option Task)
      → r.letter (update_letter recode r uuid u mode now timeout tries sending_at key s o).0 k
        ≡ r.letter s k
  unfolding update_letter
  update_letter_other u mode now timeout tries sending_at key none =
      laws.letter_lem s (zrem uuid ∷ []) k
  update_letter_other u mode now timeout tries sending_at key (some t) =
      elim (Bool-cases (refuses mode now timeout tries sending_at t)) [
        | inl f ↦ rw f refl
        | inr f ↦ rw f (
            laws.letter_lem s _ k
            ∙ letter_after-reschedule timeout k uuid key (r.pointer s) (assign t u) _
            ∙ passed _)
      ]

  pub update_script_other :
      (u : Update) (mode : Mode) (now timeout tries sending_at : ℕ) (key : Option Text)
      → r.letter (update_script recode r uuid u mode now timeout tries sending_at key s).0 k
        ≡ r.letter s k
  unfolding update_script
  update_script_other u mode now timeout tries sending_at key =
      update_letter_other u mode now timeout tries sending_at key _

  append_letter_other :
      (mo : MailOption) (o : Option Task)
      → r.letter (append_letter recode r uuid mo s o).0 k ≡ r.letter s k
  unfolding append_letter
  append_letter_other mo none = refl
  append_letter_other mo (some t) =
      elim (Bool-cases (t.is_sending || (t.is_sent || (t.is_failed || t.is_cancelled)))) [
        | inl f ↦ rw f refl
        | inr f ↦ rw f (laws.letter_lem s _ k ∙ passed _)
      ]

  pub append_script_other :
      (mo : MailOption) → r.letter (append_script recode r uuid mo s).0 k ≡ r.letter s k
  unfolding append_script
  append_script_other mo = append_letter_other mo _

  removed_other :
      (key : Option Text)
      → r.letter (r.run s (hdel uuid ∷ zrem uuid ∷ drop_pointer_of uuid key (r.pointer s))) k
        ≡ r.letter s k
  removed_other key =
      laws.letter_lem s _ k ∙ letter_after-drop_pointer_of k uuid key (r.pointer s) _ ∙ passed none

  remove_letter_other :
      (lease : Option Lease) (key : Option Text) (o : Option Task)
      → r.letter (remove_letter recode r uuid lease key s o).0 k ≡ r.letter s k
  unfolding remove_letter
  remove_letter_other lease key none = laws.letter_lem s (zrem uuid ∷ []) k
  remove_letter_other none key (some t) = removed_other key
  remove_letter_other (some l) key (some t) =
      elim (Bool-cases (refuses_lease l.lease_tries l.lease_sending_at t)) [
        | inl f ↦ rw f refl
        | inr f ↦ rw f (removed_other key)
      ]

  pub remove_script_other :
      (lease : Option Lease) (key : Option Text)
      → r.letter (remove_script recode r uuid lease key s).0 k ≡ r.letter s k
  unfolding remove_script
  remove_script_other lease key = remove_letter_other lease key _
