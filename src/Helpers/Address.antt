-- ===== src/Helpers/Address.antt =====
-- helpers.js: `extractEmail`, `toAddressList` and `filterAddressField`.
-- A `Set<string>` is the list of its elements.
pub mod Remaining
use mail_time.Prelude.{
  Bool, true, false, not, ◌&&◌, List, [], ◌∷◌, ◌++◌, Option, none, some, ◌==◌, if◌then◌else◌,
}
use mail_time.Js.Text.{Text, lit, is_empty, trim, to_lower_case, has}
use mail_time.Js.Value.{Value, Items, undefined, str, arr, obj, instance_of, nil, cons, get, truthy}

-- The longest run of characters other than `>`, and whether a `>` follows it.
unfoldable pub upto_gt : Text → Text × Bool
upto_gt [] = ([], false)
upto_gt (c ∷ s) = let rest = upto_gt s in if c == b'>' then ([], true) else (c ∷ rest.0, rest.1)

-- `entry.match(/<([^>]+)>/)`, the first group of the first match.
unfoldable pub angled : Text → Option Text
unfolding upto_gt
angled [] = none
angled (c ∷ s) =
    let rest = angled s in
    let (run, closed) = upto_gt s in
    if c == b'<' && (closed && not (is_empty run)) then some run else rest

abbrev pub angled_or : Option Text → Text → Text
angled_or none entry = entry
angled_or (some run) entry = run

abbrev pub address_of : Value → Option Text
address_of (str a) = some (to_lower_case (trim a))
address_of _ = none

unfoldable pub extract_email : Value → Option Text
unfolding angled
extract_email (str []) = none
extract_email (str (c ∷ s)) = some (to_lower_case (trim (angled_or (angled (c ∷ s)) (c ∷ s))))
extract_email (obj fs) = address_of (get (lit "address") fs)
extract_email (instance_of n fs) = address_of (get (lit "address") fs)
extract_email _ = none

-- A parsed address that is not empty, as a list.
abbrev pub usable : Option Text → List Text
usable none = []
usable (some []) = []
usable (some (c ∷ s)) = (c ∷ s) ∷ []

unfoldable pub entry_addresses : Items → List Text
entry_addresses nil = []
entry_addresses (cons entry rest) = usable (extract_email entry) ++ entry_addresses rest

unfoldable pub to_address_list : Value → List Text
to_address_list (arr entries) = entry_addresses entries
to_address_list field = if truthy field then usable (extract_email field) else []

-- `addr && acceptedSet.has(addr)`.
abbrev pub is_accepted : List Text → Option Text → Bool
is_accepted set none = false
is_accepted set (some []) = false
is_accepted set (some (c ∷ s)) = has set (c ∷ s)

unfoldable pub filter_entries : List Text → Items → Items
filter_entries set nil = nil
filter_entries set (cons entry rest) =
    let kept = filter_entries set rest in
    if is_accepted set (extract_email entry) then kept else cons entry kept

-- `filtered.length ? filtered : void 0`.
abbrev pub or_undefined : Items → Value
or_undefined nil = undefined
or_undefined (cons v vs) = arr (cons v vs)

abbrev pub is_nil {ℓ} : {A : Type ℓ} → List A → Bool
is_nil [] = true
is_nil (x ∷ xs) = false

unfoldable pub filter_address_field : Value → List Text → Value
filter_address_field (arr entries) set =
    if is_nil set then arr entries else or_undefined (filter_entries set entries)
filter_address_field field set =
    if truthy field && (not (is_nil set) && is_accepted set (extract_email field))
    then undefined
    else field
