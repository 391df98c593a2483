-- ===== src/MailTime/Recipients/Options.antt =====
-- The accepted and the other recipients of one mail option, and of a list of them.
use mail_time.Prelude.{
  ◌≡◌, refl, ap, ◌∙◌, inl, inr, Bool, true, false, not, ◌&&◌, ◌||◌, List, [], ◌∷◌, ◌++◌, map, arith,
  Bool-cases,
}
use mail_time.Js.Text.{
  Text, lit, text_eq, text_eq_iff, to_lower_case, has, add, add_all, has-append, has-add,
  has-add_all,
}
use mail_time.Js.Value.{Value, Items, str, arr, nil, cons, put, get-put, undefined}
use mail_time.Task.{MailOption}
use mail_time.Helpers.Address.{is_nil}
use mail_time.MailTime.Recipients.{
  mail_option_recipients, lowered, accepted_of, collect_accepted, collect_recipients, push_item,
  push_accepted, track_option,
}

abbrev pub any_accepted : List MailOption → Text → Bool
any_accepted [] b = false
any_accepted (mo ∷ mos) b = has (lowered (accepted_of mo)) b || any_accepted mos b

abbrev pub any_recipient : List MailOption → Text → Bool
any_recipient [] b = false
any_recipient (mo ∷ mos) b = has (mail_option_recipients mo) b || any_recipient mos b

pub has-collect_accepted :
    (set : List Text) (mos : List MailOption) (b : Text)
    → has (collect_accepted set mos) b ≡ (has set b || any_accepted mos b)
unfolding collect_accepted
has-collect_accepted set [] b = ground arith
has-collect_accepted set (mo ∷ mos) b = ground (
  arith,
  has-collect_accepted (add_all set (lowered (accepted_of mo))) mos b,
  has-add_all set (lowered (accepted_of mo)) b,
)

pub has-collect_recipients :
    (set : List Text) (mos : List MailOption) (b : Text)
    → has (collect_recipients set mos) b ≡ (has set b || any_recipient mos b)
unfolding collect_recipients
has-collect_recipients set [] b = ground arith
has-collect_recipients set (mo ∷ mos) b = ground (
  arith,
  has-collect_recipients (add_all set (mail_option_recipients mo)) mos b,
  has-add_all set (mail_option_recipients mo) b,
)

-- The addresses are in lower case, as `extractEmail` gives them.
abbrev pub AreLower : List Text → Type 0
AreLower [] = Unit {0}
AreLower (a ∷ as') = (to_lower_case a ≡ a) × AreLower as'

pub lowered-push_item :
    (xs : Items) (a : Text) → lowered (push_item xs (str a)) ≡ lowered xs ++ to_lower_case a ∷ []
unfolding lowered push_item
lowered-push_item nil a = refl
lowered-push_item (cons (str s) xs) a = ap (◌∷◌ (to_lower_case s)) (lowered-push_item xs a)
lowered-push_item (cons undefined xs) a = lowered-push_item xs a
lowered-push_item (cons v xs) a = lowered-push_item xs a

pub has-push_item :
    (xs : Items) (a b : Text)
    → to_lower_case a ≡ a
    → has (lowered (push_item xs (str a))) b ≡ (has (lowered xs) b || text_eq a b)
has-push_item xs a b e =
    rw (lowered-push_item xs a, e)
      (has-append (lowered xs) (a ∷ []) b ∙ (unfold has in ground arith))

pub has_cons : (x : Text) (xs : List Text) (b : Text) → has (x ∷ xs) b ≡ (text_eq x b || has xs b)
unfolding has
has_cons x xs b = refl

pub has-push_accepted :
    (rs al : List Text) (acc : Items) (as' : List Text)
    → AreLower as'
    → ((b : Text) → has al b ≡ has (lowered acc) b)
    → (b : Text)
    → has (lowered (push_accepted rs al acc as')) b
      ≡ (has (lowered acc) b || (has as' b && has rs b))
unfolding push_accepted
has-push_accepted rs al acc [] l same b = unfold has in ground arith
has-push_accepted rs al acc (a ∷ as') l same b = elim (Bool-cases (has rs a && not (has al a))) [
  | inl e ↦ rw e (
      has-push_accepted rs (add al a) (push_item acc (str a)) as' l.1
        (λ c. has-add al a c ∙ ground (arith, same c, has-push_item acc a c l.0)) b
      ∙ ground (arith, has-push_item acc a b l.0, has_cons a as' b, text_eq_iff a b))
  | inr e ↦ rw e (
      has-push_accepted rs al acc as' l.1 same b
      ∙ ground (arith, has_cons a as' b, text_eq_iff a b, same a))
]

-- The keys that an attempt reads are not the one that it writes.
pub recipients-put_accepted :
    (v : Value) (mo : MailOption)
    → mail_option_recipients (put (lit "accepted") v mo) ≡ mail_option_recipients mo
unfolding mail_option_recipients text_eq
recipients-put_accepted v mo = simp get-put

pub recipients-track_option :
    (set : List Text) (mo : MailOption)
    → mail_option_recipients (track_option set mo) ≡ mail_option_recipients mo
unfolding track_option
recipients-track_option set mo = elim (Bool-cases (is_nil (mail_option_recipients mo))) [
  | inl e ↦ rw e (recipients-put_accepted _ mo)
  | inr e ↦ rw e (recipients-put_accepted _ mo)
]

pub accepted-put :
    (xs : Items) (mo : MailOption) → accepted_of (put (lit "accepted") (arr xs) mo) ≡ xs
unfolding text_eq
accepted-put xs mo = simp get-put

pub no_recipient : (xs : List Text) (b : Text) → is_nil xs ≡ true → has xs b ≡ false
unfolding has
no_recipient [] b h = refl
no_recipient (x ∷ xs) b h = ground arith

pub has-track_option :
    (set : List Text) (mo : MailOption) (b : Text)
    → AreLower set
    → has (lowered (accepted_of (track_option set mo))) b
      ≡ (has (lowered (accepted_of mo)) b || (has set b && has (mail_option_recipients mo) b))
unfolding track_option
has-track_option set mo b l = elim (Bool-cases (is_nil (mail_option_recipients mo))) [
  | inl e ↦ rw (e, accepted-put) (ground (arith, no_recipient (mail_option_recipients mo) b e))
  | inr e ↦
      rw (e, accepted-put)
        (has-push_accepted (mail_option_recipients mo) _ (accepted_of mo) set l
          (λ c. has-add_all [] (lowered (accepted_of mo)) c ∙ (unfold has in refl)) b)
]

pub any_accepted-map :
    (set : List Text) (mos : List MailOption) (b : Text)
    → AreLower set
    → any_accepted (map (track_option set) mos) b
      ≡ (any_accepted mos b || (has set b && any_recipient mos b))
any_accepted-map set [] b l = ground arith
any_accepted-map set (mo ∷ mos) b l =
    ground (arith, has-track_option set mo b l, any_accepted-map set mos b l)

pub any_recipient-map :
    (set : List Text) (mos : List MailOption) (b : Text)
    → any_recipient (map (track_option set) mos) b ≡ any_recipient mos b
any_recipient-map set [] b = refl
any_recipient-map set (mo ∷ mos) b =
    rw (recipients-track_option set mo, any_recipient-map set mos b)

pub add-AreLower :
    (set : List Text) (a : Text) → AreLower set → to_lower_case a ≡ a → AreLower (add set a)
unfolding add
add-AreLower set a l e = elim (Bool-cases (has set a)) [
  | inl y ↦ rw y l
  | inr n ↦ rw n (append set l)
]
  where
    append : (xs : List Text) → AreLower xs → AreLower (xs ++ a ∷ [])
    append [] h = (e, tt)
    append (x ∷ xs) h = (h.0, append xs h.1)

pub add_all-AreLower : (set xs : List Text) → AreLower set → AreLower xs → AreLower (add_all set xs)
unfolding add_all
add_all-AreLower set [] l h = l
add_all-AreLower set (x ∷ xs) l h = add_all-AreLower (add set x) xs (add-AreLower set x l h.0) h.1

-- An attempt that the transport confirmed for `addrs`, in lower case, adds to the accepted set
