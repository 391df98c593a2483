-- ===== src/MailTime/Recipients/Finalized.antt =====
-- index.js, `___finalizeRejected`: when it does not throw, and what it leaves alone.
use mail_time.Prelude.{◌≡◌, refl, arith, List, [], ◌∷◌, Option, none, some, ◌>>=◌}
use mail_time.Js.Text.{Text, lit, add_all}
use mail_time.Js.Value.{Value, Items, arr, get, put}
use mail_time.Task.{Task, MailOption}
use mail_time.MailTime.Recipients.{
  lowered, mail_option_recipients, build_rejection_error_map, rejected_entries, accepted_or_none,
  finalize_option, finalize_options, with_mail_options, finalize_rejected,
}

-- No mail option has an `accepted` that is neither an array nor falsy.
abbrev pub AreAcceptedLists : List MailOption → Type 0
AreAcceptedLists [] = Unit {0}
AreAcceptedLists (mo ∷ mos) =
    ((xs : Items) × (accepted_or_none (get (lit "accepted") mo) ≡ some xs)) × AreAcceptedLists mos

finalize_options_lists :
    (errors : List (Text × Text)) (mos : List MailOption)
    → AreAcceptedLists mos
    → (mos' : List MailOption) × (finalize_options errors mos ≡ some mos')
unfolding finalize_options finalize_option
finalize_options_lists errors [] h = ([], refl)
finalize_options_lists errors (mo ∷ mos) ((xs, e), h) =
    let (mos', f) = finalize_options_lists errors mos h in
    let written =
      put (lit "rejected")
        (arr (rejected_entries errors (add_all [] (lowered xs)) [] (mail_option_recipients mo)))
        mo in
    (written ∷ mos', rw (e, ◌>>=◌, f) refl)

pub finalize_rejected_lists :
    (show : Value → Text) (t : Task) (info : Value)
    → AreAcceptedLists t.mail_options
    → (t' : Task) × (finalize_rejected show t info ≡ some t')
unfolding finalize_rejected
finalize_rejected_lists show t info h =
    let (mos, e) = finalize_options_lists (build_rejection_error_map show info) t.mail_options h in
    (record t { mail_options = mos }, rw e refl)

-- Of a task, only the mail options are changed.
pub finalize_rejected_keeps :
    (show : Value → Text) (t t' : Task) (info : Value)
    → finalize_rejected show t info ≡ some t'
    → (t'.id ≡ t.id)
      × (t'.uuid ≡ t.uuid)
      × (t'.is_sending ≡ t.is_sending)
      × (t'.tries ≡ t.tries)
      × (t'.sending_at ≡ t.sending_at)
unfolding finalize_rejected
finalize_rejected_keeps show t t' info e =
    keeps t (finalize_options (build_rejection_error_map show info) t.mail_options) t' e
  where
    keeps :
        (u : Task) (o : Option (List MailOption)) (u' : Task)
        → with_mail_options u o ≡ some u'
        → (u'.id ≡ u.id)
          × (u'.uuid ≡ u.uuid)
          × (u'.is_sending ≡ u.is_sending)
          × (u'.tries ≡ u.tries)
          × (u'.sending_at ≡ u.sending_at)
    keeps u none u' f = cc
    keeps u (some mos) u' f = ground (arith, f)
