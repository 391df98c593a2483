-- ===== src/Adapters/Redis/Keys.antt =====
-- adapters/redis.js: the names of the keys (`__applyPrefix`, `__getKey`, `parseUuidFromKey`).
pub mod Slots
use mail_time.Prelude.{
  ℕ, ◌≡◌, refl, sym, ap, ◌∙◌, Bool, true, false, ◌&&◌, ◌||◌, [], ◌∷◌, ◌++◌, Option, none, some,
  arith, leb, ◌==◌, if◌then◌else◌, append_assoc,
}
use mail_time.Js.Text.{Text, lit, is_empty}
use mail_time.MailTime.Render.{after}

pub data KeyType : Type 0 where
  letter sendat concatletter : KeyType

abbrev pub type_name : KeyType → Text
type_name letter = lit "letter"
type_name sendat = lit "sendat"
type_name concatletter = lit "concatletter"

unfoldable pub is_prefix_unit : ℕ → Bool
is_prefix_unit c =
    (leb b'A' c && leb c b'Z')
    || ((leb b'a' c && leb c b'z')
        || ((leb b'0' c && leb c b'9') || (c == b'_' || (c == b'-' || (c == b':' || c == b'.')))))

unfoldable pub all_prefix_units : Text → Bool
all_prefix_units [] = true
all_prefix_units (c ∷ s) = is_prefix_unit c && all_prefix_units s

-- `VALID_PREFIX.test(prefix)`.
abbrev pub is_valid_prefix : Text → Bool
is_valid_prefix s = if is_empty s then false else all_prefix_units s

-- `uniqueName`; `none` is an exception.
unfoldable pub apply_prefix : Bool → Text → Option Text
apply_prefix use_hash_tags prefix =
    if use_hash_tags
    then (if is_valid_prefix prefix then some (lit "mailtime:{" ++ (prefix ++ lit "}")) else none)
    else some (lit "mailtime:" ++ prefix)

-- `__getKey` without hash tags.
unfoldable pub get_key : Text → KeyType → Text → Text
get_key unique_name kind uuid = unique_name ++ (lit ":" ++ (type_name kind ++ (lit ":" ++ uuid)))

-- The keys with hash tags: the hash of the letters, the schedule, the pointers' keys, and the pointer
-- of an address.
pub data TaggedKey : Type 0 where
  letters schedule concat_keys : TaggedKey
  concat : Text → TaggedKey

abbrev pub tagged_suffix : TaggedKey → Text
tagged_suffix letters = lit ":letters"
tagged_suffix schedule = lit ":schedule"
tagged_suffix concat_keys = lit ":concatkeys"
tagged_suffix (concat to) = lit ":concatletter:" ++ to

abbrev pub tagged_key : Text → TaggedKey → Text
tagged_key unique_name k = unique_name ++ tagged_suffix k

unfoldable pub parse_uuid_from_key : Text → Text → Option Text
parse_uuid_from_key key unique_name = after (unique_name ++ lit ":sendat:") key

after-append : (p s : Text) → after p (p ++ s) ≡ some s
unfolding after
after-append [] s = refl
after-append (c ∷ p) s = ground (arith, after-append p s)

after-some : (p s rest : Text) → after p s ≡ some rest → s ≡ p ++ rest
unfolding after
after-some [] s rest e = ground arith
after-some (c ∷ p) [] rest e = ground arith
after-some (c ∷ p) (d ∷ s) rest e = ground (arith, after-some p s rest)

sendat_key :
    (unique_name uuid : Text)
    → get_key unique_name sendat uuid ≡ (unique_name ++ lit ":sendat:") ++ uuid
unfolding get_key
sendat_key unique_name uuid = sym (append_assoc unique_name (lit ":sendat:") uuid)

-- The uuid that is read from the schedule key of a letter is the letter's, and a key from which a
-- uuid is read is the schedule key of that letter.
pub parse_uuid_from_key-get_key :
    (unique_name key uuid : Text)
    → (parse_uuid_from_key (get_key unique_name sendat uuid) unique_name ≡ some uuid)
      × (parse_uuid_from_key key unique_name ≡ some uuid → key ≡ get_key unique_name sendat uuid)
unfolding parse_uuid_from_key
parse_uuid_from_key-get_key unique_name key uuid = (
  ap (after (unique_name ++ lit ":sendat:")) (sendat_key unique_name uuid) ∙ after-append _ uuid,
  λ e. after-some _ key uuid e ∙ sym (sendat_key unique_name uuid),
)

pub append_cancel : (p s t : Text) → p ++ s ≡ p ++ t → s ≡ t
append_cancel [] s t e = e
append_cancel (c ∷ p) s t e = append_cancel p s t (ground arith)

kinds_apart :
    (kind kind' : KeyType) (a b : Text)
    → type_name kind ++ (lit ":" ++ a) ≡ type_name kind' ++ (lit ":" ++ b)
    → (kind ≡ kind') × (a ≡ b)
kinds_apart letter letter a b e = (refl, ground arith)
kinds_apart sendat sendat a b e = (refl, ground arith)
kinds_apart concatletter concatletter a b e = (refl, ground arith)
kinds_apart letter sendat a b e = absurd (ground arith)
kinds_apart letter concatletter a b e = absurd (ground arith)
kinds_apart sendat letter a b e = absurd (ground arith)
kinds_apart sendat concatletter a b e = absurd (ground arith)
kinds_apart concatletter letter a b e = absurd (ground arith)
kinds_apart concatletter sendat a b e = absurd (ground arith)

-- Two keys under one prefix are equal only if they have the same kind and stand for the same letter
-- or address.
pub get_key_inj :
    (unique_name : Text) (kind kind' : KeyType) (a b : Text)
    → get_key unique_name kind a ≡ get_key unique_name kind' b
    → (kind ≡ kind') × (a ≡ b)
unfolding get_key
get_key_inj unique_name kind kind' a b e =
    kinds_apart kind kind' a b (append_cancel (lit ":") _ _ (append_cancel unique_name _ _ e))
