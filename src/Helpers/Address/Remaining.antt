-- ===== src/Helpers/Address/Remaining.antt =====
-- Dropping the accepted recipients from a `to`, `cc` or `bcc` field.
use mail_time.Prelude.{
  ◌≡◌, refl, not, List, [], ◌∷◌, ◌++◌, Option, none, some, arith, filter, ap, ◌∙◌, if◌then◌else◌,
}
use mail_time.Js.Text.{Text, has}
use mail_time.Js.Value.{Value, Items, arr, nil, cons}
use mail_time.Helpers.Address.{
  extract_email, usable, is_accepted, entry_addresses, to_address_list, filter_entries,
  or_undefined, filter_address_field,
}

-- The addresses that are not in the set, in order.
abbrev pub remaining : List Text → List Text → List Text
remaining set = filter (λ a. not (has set a))

remaining-append :
    (set xs ys : List Text) → remaining set (xs ++ ys) ≡ remaining set xs ++ remaining set ys
remaining-append set [] ys = refl
remaining-append set (x ∷ xs) ys = ground (arith, remaining-append set xs ys)

remaining_empty : (xs : List Text) → remaining [] xs ≡ xs
unfolding has
remaining_empty [] = refl
remaining_empty (x ∷ xs) = ap (◌∷◌ x) (remaining_empty xs)

remaining-usable :
    (set : List Text) (o : Option Text)
    → remaining set (usable o) ≡ (if is_accepted set o then [] else usable o)
remaining-usable set none = refl
remaining-usable set (some []) = refl
remaining-usable set (some (c ∷ s)) = ground arith

entry_addresses-filter :
    (set : List Text) (entries : Items)
    → entry_addresses (filter_entries set entries) ≡ remaining set (entry_addresses entries)
unfolding entry_addresses filter_entries
entry_addresses-filter set nil = refl
entry_addresses-filter set (cons entry rest) = ground (
  arith,
  entry_addresses-filter set rest,
  remaining-usable set (extract_email entry),
  remaining-append set (usable (extract_email entry)) (entry_addresses rest),
)

entry_addresses-or_undefined :
    (entries : Items) → to_address_list (or_undefined entries) ≡ entry_addresses entries
unfolding to_address_list entry_addresses
entry_addresses-or_undefined nil = refl
entry_addresses-or_undefined (cons v vs) = refl

-- What is left of a recipient field after `filterAddressField` addresses exactly the recipients
-- outside the set, in the order that they had: none of the accepted ones again, and all the others.
pub to_address_list-filter_address_field :
    (field : Value) (set : List Text)
    → to_address_list (filter_address_field field set) ≡ remaining set (to_address_list field)
unfolding to_address_list filter_address_field
to_address_list-filter_address_field (arr entries) [] =
    rw (remaining_empty (entry_addresses entries))
to_address_list-filter_address_field (arr entries) (a ∷ set) =
    entry_addresses-or_undefined (filter_entries (a ∷ set) entries)
    ∙ entry_addresses-filter (a ∷ set) entries
to_address_list-filter_address_field field [] =
    ground (arith, remaining_empty (usable (extract_email field)))
to_address_list-filter_address_field field (a ∷ set) =
    ground (arith, remaining-usable (a ∷ set) (extract_email field))
