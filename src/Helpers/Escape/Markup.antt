-- ===== src/Helpers/Escape/Markup.antt =====
-- Escaped text is no markup, and stands for the text that was escaped.
use native.Mathlib.Decide.{ℕ_discrete}
use mail_time.Prelude.{
  ℕ, zero, suc, ◌≡◌, refl, ap, ◌∙◌, Bool, true, false, ◌&&◌, ◌||◌, [], ◌∷◌, ◌++◌, arith, ◌==◌,
}
use mail_time.Js.Text.{Text, lit}
use mail_time.Helpers.Escape.{escape_unit, escape_html}

-- A character that can open or close markup or a quoted attribute.
abbrev pub is_markup : ℕ → Bool
is_markup c = c == b'<' || (c == b'>' || (c == b'"' || c == 39))

abbrev pub has_markup : Text → Bool
has_markup [] = false
has_markup (c ∷ s) = is_markup c || has_markup s

has_markup-append : (s t : Text) → has_markup (s ++ t) ≡ (has_markup s || has_markup t)
has_markup-append [] t = refl
has_markup-append (c ∷ s) t = ground (arith, has_markup-append s t)

has_markup-escape_unit : (c : ℕ) → has_markup (escape_unit c) ≡ false
unfolding escape_unit
has_markup-escape_unit c = ground arith

-- No escaped text has a `<`, a `>` or a quote left.
pub has_markup-escape_html : (s : Text) → has_markup (escape_html s) ≡ false
unfolding escape_html
has_markup-escape_html [] = refl
has_markup-escape_html (c ∷ s) = ground (
  arith,
  has_markup-append (escape_unit c) (escape_html s),
  has_markup-escape_unit c,
  has_markup-escape_html s,
)

abbrev starts : Text → Text → Bool
starts [] s = true
starts (c ∷ p) [] = false
starts (c ∷ p) (d ∷ s) = c == d && starts p s

-- What a browser reads: the five character references, and every other character as itself. `k`
-- characters are left of a reference that has been read.
pub read_html : ℕ → Text → Text
read_html k [] = []
read_html (suc k) (c ∷ s) = read_html k s
read_html zero (c ∷ s) = elim (c == b'&') [
  | false ↦ c ∷ read_html zero s
  | true ↦ elim (starts (lit "amp;") s) [
    | true ↦ b'&' ∷ read_html 4 s
    | false ↦ elim (starts (lit "lt;") s) [
      | true ↦ b'<' ∷ read_html 3 s
      | false ↦ elim (starts (lit "gt;") s) [
        | true ↦ b'>' ∷ read_html 3 s
        | false ↦ elim (starts (lit "quot;") s) [
          | true ↦ b'"' ∷ read_html 5 s
          | false ↦ elim (starts (lit "#39;") s) [
            | true ↦ 39 ∷ read_html 4 s
            | false ↦ c ∷ read_html zero s
          ]
        ]
      ]
    ]
  ]
]

read_html-escape_unit :
    (c : ℕ) (s : Text) → read_html zero (escape_unit c ++ s) ≡ c ∷ read_html zero s
unfolding escape_unit read_html
read_html-escape_unit c s = elim (ℕ_discrete c b'&') [
  | yes e ↦ rw e refl
  | no e1 ↦ elim (ℕ_discrete c b'<') [
    | yes e ↦ rw e refl
    | no e2 ↦ elim (ℕ_discrete c b'>') [
      | yes e ↦ rw e refl
      | no e3 ↦ elim (ℕ_discrete c b'"') [
        | yes e ↦ rw e refl
        | no e4 ↦ elim (ℕ_discrete c 39) [ yes e ↦ rw e refl | no e5 ↦ ground arith ]
      ]
    ]
  ]
]

-- What a browser reads of an escaped text, each of the five character references as its character,
-- is the text.
pub read_html-escape_html : (s : Text) → read_html zero (escape_html s) ≡ s
unfolding escape_html read_html
read_html-escape_html [] = refl
read_html-escape_html (c ∷ s) =
    read_html-escape_unit c (escape_html s) ∙ ap (λ t. c ∷ t) (read_html-escape_html s)
