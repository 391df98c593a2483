-- ===== src/MailTime/Recipients/Tracking.antt =====
-- What an attempt adds to the accepted recipients, and when a letter is fully delivered.
use mail_time.Prelude.{◌≡◌, refl, ◌∙◌, ◌↔◌, ◌⊎◌, true, ◌&&◌, ◌||◌, List, [], ◌∷◌, map, arith}
use mail_time.Js.Text.{Text, text_eq_iff, text_eq_refl, has, add_all, has-add_all}
use mail_time.Task.{Task}
use mail_time.MailTime.Recipients.{
  collect_accepted_set, collect_all_recipients, all_in, is_fully_delivered, track_option,
  track_accepted_recipients,
}
use mail_time.MailTime.Recipients.Options.{
  has-collect_accepted, has-collect_recipients, AreLower, has_cons, any_accepted-map,
  any_recipient-map, add_all-AreLower,
}

-- An attempt that the transport confirmed for `addrs`, in lower case, adds to the accepted set
-- exactly those of `addrs` that the letter is for, whichever of its mail options they stand in, and
-- loses none.
pub collect_accepted_set-track_accepted_recipients :
    (t : Task) (addrs : List Text) (b : Text)
    → AreLower addrs
    → has (collect_accepted_set (track_accepted_recipients t addrs)) b
      ≡ (has (collect_accepted_set t) b || (has addrs b && has (collect_all_recipients t) b))
unfolding collect_accepted_set collect_all_recipients track_accepted_recipients has
collect_accepted_set-track_accepted_recipients t [] b l = ground arith
collect_accepted_set-track_accepted_recipients t (a ∷ as') b l =
    let set = add_all [] (a ∷ as') in
    ground (
      arith,
      has-collect_accepted [] (map (track_option set) t.mail_options) b,
      has-collect_accepted [] t.mail_options b,
      has-collect_recipients [] t.mail_options b,
      any_accepted-map set t.mail_options b (add_all-AreLower [] (a ∷ as') tt l),
      has-add_all [] (a ∷ as') b,
    )

-- Recording who accepted leaves the set of the letter's recipients as it was.
pub collect_all_recipients-track_accepted_recipients :
    (t : Task) (addrs : List Text) (b : Text)
    → has (collect_all_recipients (track_accepted_recipients t addrs)) b
      ≡ has (collect_all_recipients t) b
unfolding collect_all_recipients track_accepted_recipients
collect_all_recipients-track_accepted_recipients t [] b = refl
collect_all_recipients-track_accepted_recipients t (a ∷ as') b =
    let set = add_all [] (a ∷ as') in
    ground (
      arith,
      has-collect_recipients [] (map (track_option set) t.mail_options) b,
      has-collect_recipients [] t.mail_options b,
      any_recipient-map set t.mail_options b,
    )

all_in→has :
    (set xs : List Text) (b : Text) → all_in set xs ≡ true → has xs b ≡ true → has set b ≡ true
unfolding all_in has
all_in→has set [] b h m = ground arith
all_in→has set (x ∷ xs) b h m = ground (arith, all_in→has set xs b, text_eq_iff x b)

has→all_in :
    (set xs : List Text) → ((b : Text) → has xs b ≡ true → has set b ≡ true) → all_in set xs ≡ true
unfolding all_in
has→all_in set [] h = refl
has→all_in set (x ∷ xs) h =
    rw (h x (has_cons x xs x ∙ rw (text_eq_refl x) refl))
      (has→all_in set xs (λ b m. h b (has_cons x xs b ∙ ground arith)))

-- After an attempt that the transport confirmed for `addrs`, in lower case, the letter counts as
-- fully delivered exactly when every recipient of every mail option has accepted it, in this
-- attempt or in an earlier one.
pub is_fully_delivered-track_accepted_recipients :
    (t : Task) (addrs : List Text)
    → AreLower addrs
    → (is_fully_delivered (track_accepted_recipients t addrs) ≡ true) ↔ (
        (b : Text)
        → has (collect_all_recipients t) b ≡ true
        → (has (collect_accepted_set t) b ≡ true) ⊎ (has addrs b ≡ true))
unfolding is_fully_delivered
is_fully_delivered-track_accepted_recipients t addrs l = (
  λ h b m. ground (
    arith,
    all_in→has _ _ b h,
    collect_accepted_set-track_accepted_recipients t addrs b l,
    collect_all_recipients-track_accepted_recipients t addrs b,
  ),
  λ h. has→all_in _ _ λ b m. ground (
    arith,
    h b,
    collect_accepted_set-track_accepted_recipients t addrs b l,
    collect_all_recipients-track_accepted_recipients t addrs b,
  ),
)
