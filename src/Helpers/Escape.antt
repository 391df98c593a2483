-- ===== src/Helpers/Escape.antt =====
-- helpers.js, `escapeHtml` of a text.
pub mod Markup
use mail_time.Prelude.{ℕ, Bool, List, [], ◌∷◌, ◌++◌, ◌==◌, if◌then◌else◌}
use mail_time.Js.Text.{Text, lit}

-- `HTML_ESCAPES[char]`, and the character itself where the table has none.
unfoldable pub escape_unit : ℕ → Text
escape_unit c =
    if c == b'&'
    then lit "&amp;"
    else if c == b'<'
    then lit "&lt;"
    else if c == b'>'
    then lit "&gt;"
    else if c == b'"'
    then lit "&quot;"
    else if c == 39
    then lit "&#39;"
    else c ∷ []

unfoldable pub escape_html : Text → Text
escape_html [] = []
escape_html (c ∷ s) = escape_unit c ++ escape_html s
