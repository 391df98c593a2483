-- ===== src/MailTime/Render.antt =====
-- index.js, `___render`: `{{{key}}}` is replaced by the value as it is, `{{key}}` by the value
-- escaped. The placeholders are those of the template before a pass; each replaces the first
-- occurrence of its own text, by `String.prototype.replace`, which reads `$` in the replacement.
-- `show` is the language's conversion of a value that is not a text.
pub mod Placeholders
pub mod Single
use mail_time.Prelude.{
  ℕ, zero, suc, ◌-◌, Bool, true, false, not, ◌&&◌, ◌||◌, List, [], ◌∷◌, ◌++◌, Option, none, some,
  leb, ◌==◌, if◌then◌else◌, length,
}
use mail_time.Js.Text.{Text, lit, is_space, trim}
use mail_time.Js.Value.{Value, undefined, null, str, Fields, get, has_own}
use mail_time.Helpers.Escape.{escape_html}

-- `[a-zA-Z0-9\-_]`.
unfoldable pub is_key_unit : ℕ → Bool
is_key_unit c =
    (leb b'a' c && leb c b'z')
    || ((leb b'A' c && leb c b'Z') || ((leb b'0' c && leb c b'9') || (c == b'-' || c == b'_')))

-- `\s?`.
abbrev pub skip_space : Text → Text
skip_space [] = []
skip_space (c ∷ s) = if is_space c then s else c ∷ s

-- The longest run of such characters, and what follows it.
unfoldable pub key_run : Text → Text × Text
key_run [] = ([], [])
key_run (c ∷ s) =
    let rest = key_run s in if is_key_unit c then (c ∷ rest.0, rest.1) else ([], c ∷ s)

-- What follows the text `p`, if the string starts with it.
unfoldable pub after : Text → Text → Option Text
after [] s = some s
after (c ∷ p) [] = none
after (c ∷ p) (d ∷ s) = if c == d then after p s else none

-- How much of `s` a match that ends at `rest` takes, as text.
abbrev pub taken : ℕ → Text → Text
taken zero s = []
taken (suc n) [] = []
taken (suc n) (c ∷ s) = c ∷ taken n s

abbrev pub key_or : Text → Text → Option Text
key_or [] rest = none
key_or (c ∷ key) rest = some rest

-- The placeholder at the start of `s`, between `opening` and `closing`, as its whole text.
unfoldable pub placeholder : Text → Text → Text → Option Text
unfolding key_run after
placeholder opening closing s = elim (after opening s) [
  | none ↦ none
  | some inner ↦
      let (key, rest) = key_run (skip_space inner) in
      elim (key_or key rest) [
        | none ↦ none
        | some rest' ↦ elim (after closing (skip_space rest')) [
          | none ↦ none
          | some end_of ↦ some (taken (length s - length end_of) s)
        ]
      ]
]

-- `string.match(…)` with the flag `g`: the placeholders from the left, none overlapping. `k`
-- characters are left of one that was found.
unfoldable pub placeholders : Text → Text → ℕ → Text → List Text
placeholders opening closing k [] = []
placeholders opening closing (suc k) (c ∷ s) = placeholders opening closing k s
placeholders opening closing zero (c ∷ s) = elim (placeholder opening closing (c ∷ s)) [
  | none ↦ placeholders opening closing zero s
  | some token ↦ token ∷ placeholders opening closing (length token - 1) s
]

-- What stands before and after the first occurrence of `p`.
unfoldable pub split_at : Text → Text → Option (Text × Text)
split_at p [] = elim (after p []) [ some rest ↦ some ([], rest) | none ↦ none ]
split_at p (c ∷ s) =
    let further = split_at p s in
    elim (after p (c ∷ s)) [
      | some rest ↦ some ([], rest)
      | none ↦ elim further [ none ↦ none | some (before, rest) ↦ some (c ∷ before, rest) ]
    ]

-- The replacement text, with `$$`, `$&`, `` $` `` and `$'` read.
unfoldable pub expand : Text → Text → Text → Text → Text
expand before p rest [] = []
expand before p rest (c ∷ []) = c ∷ []
expand before p rest (c ∷ d ∷ v) =
    let shorter = expand before p rest v in
    let one = expand before p rest (d ∷ v) in
    if c == b'$' && d == b'$'
    then b'$' ∷ shorter
    else if c == b'$' && d == b'&'
    then p ++ shorter
    else if c == b'$' && d == b'`'
    then before ++ shorter
    else if c == b'$' && d == 39
    then rest ++ shorter
    else c ∷ one

-- `string.replace(p, v)`.
unfoldable pub replace : Text → Text → Text → Text
unfolding split_at
replace p v s = elim (split_at p s) [
  | none ↦ s
  | some (before, rest) ↦ before ++ (expand before p rest v ++ rest)
]

-- `.slice(n, -n).trim()`.
abbrev pub drop_units : ℕ → Text → Text
drop_units zero s = s
drop_units (suc n) [] = []
drop_units (suc n) (c ∷ s) = drop_units n s

abbrev pub key_of : ℕ → Text → Text
key_of n token = let inner = drop_units n token in trim (taken (length inner - n) inner)

abbrev pub is_nullish : Value → Bool
is_nullish undefined = true
is_nullish null = true
is_nullish v = false

abbrev pub unchanged : Text → Text
unchanged v = v

module _ (show : Value → Text) where
  -- `${value}`.
  abbrev pub to_string : Value → Text
  to_string (str s) = s
  to_string v = show v

  -- One pass over the placeholders that were found.
  unfoldable pub replace_each : (Text → Text) → ℕ → Fields → List Text → Text → Text
  unfolding replace
  replace_each f n replacements [] s = s
  replace_each f n replacements (token ∷ tokens) s =
      let value = get (key_of n token) replacements in
      replace_each f n replacements tokens (
        if has_own (key_of n token) replacements && not (is_nullish value)
        then replace token (f (to_string value)) s
        else s)

  unfoldable pub render : Text → Fields → Bool → Text
  unfolding replace_each placeholders
  render template replacements is_html =
      let string =
        replace_each unchanged 3 replacements (placeholders (lit "{{{") (lit "}}}") 0 template)
          template in
      replace_each (if is_html then escape_html else unchanged) 2 replacements
        (placeholders (lit "{{") (lit "}}") 0 string) string
