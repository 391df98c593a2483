-- ===== src/MailTime/Render/Single.antt =====
-- index.js, `___render`: a template with one placeholder.
use mail_time.Prelude.{
  ℕ, ◌-◌, ◌≡◌, refl, ap, ◌∙◌, Bool, true, false, [], ◌∷◌, ◌++◌, none, some, arith, ◌==◌,
  if◌then◌else◌, length, length-append,
}
use mail_time.Js.Text.{Text, lit, trim, trim_start, trim_end}
use mail_time.Js.Value.{Value, str, Fields, get, has_own}
use mail_time.Helpers.Escape.{escape_unit, escape_html}
use mail_time.MailTime.Render.{
  after, taken, key_of, placeholders, split_at, expand, replace, replace_each, unchanged, render,
}
use mail_time.MailTime.Render.Placeholders.{
  all_keys, lacks, lacks-append, token_of, token_of-append, after-append, taken-append,
  placeholders-append, placeholders-whole, not_triple, unit, units, key_space, brace_apart,
}

trim_start_key : (k : ℕ) (key : Text) → all_keys (k ∷ key) ≡ true → trim_start (k ∷ key) ≡ k ∷ key
unfolding trim_start
trim_start_key k key h = rw (key_space k (unit k key h)) refl

trim_end_key : (key : Text) → all_keys key ≡ true → trim_end key ≡ key
unfolding trim_end
trim_end_key [] h = refl
trim_end_key (k ∷ key) h =
    ground (arith, key_space k (unit k key h), trim_end_key key (units k key h))

key_of-token_of :
    (k : ℕ) (key : Text) → all_keys (k ∷ key) ≡ true → key_of 2 (token_of (k ∷ key)) ≡ k ∷ key
unfolding trim
key_of-token_of k key h =
    ap (λ n. trim (taken n ((k ∷ key) ++ 125 ∷ 125 ∷ []))) lengths
    ∙ ap trim (taken-append (k ∷ key) (125 ∷ 125 ∷ []))
    ∙ ap trim_end (trim_start_key k key h)
    ∙ trim_end_key (k ∷ key) h
  where
    lengths : length ((k ∷ key) ++ 125 ∷ 125 ∷ []) - 2 ≡ length (k ∷ key)
    lengths = omega (arith, length-append (k ∷ key) (125 ∷ 125 ∷ []))

split_at-here :
    (p s rest : Text) (c : ℕ) → after p (c ∷ s) ≡ some rest → split_at p (c ∷ s) ≡ some ([], rest)
unfolding split_at
split_at-here p s rest c e = rw (split_at, e) refl

split_at-later :
    (p s before rest : Text) (c : ℕ)
    → after p (c ∷ s) ≡ none
    → split_at p s ≡ some (before, rest)
    → split_at p (c ∷ s) ≡ some (c ∷ before, rest)
unfolding split_at
split_at-later p s before rest c e f = rw (split_at, e, f) refl

not_token : (p s : Text) (c : ℕ) → (123 == c) ≡ false → after (123 ∷ p) (c ∷ s) ≡ none
unfolding after
not_token p s c e = rw (after, e) refl

head_lacks : (c : ℕ) (s : Text) → lacks 123 (c ∷ s) ≡ true → (c == 123) ≡ false
head_lacks c s h = ground (arith, h)

tail_lacks : (d c : ℕ) (s : Text) → lacks d (c ∷ s) ≡ true → lacks d s ≡ true
tail_lacks d c s h = ground (arith, h)

split_at-token_of :
    (key pre post : Text)
    → lacks 123 pre ≡ true
    → split_at (token_of key) (pre ++ (token_of key ++ post)) ≡ some (pre, post)
unfolding split_at
split_at-token_of key [] post h =
    split_at-here (token_of key) (123 ∷ (key ++ 125 ∷ 125 ∷ []) ++ post) post 123
      (after-append (token_of key) post)
split_at-token_of key (c ∷ pre) post h =
    split_at-later (token_of key) (pre ++ (token_of key ++ post)) pre post c
      (not_token (123 ∷ (key ++ 125 ∷ 125 ∷ [])) (pre ++ (token_of key ++ post)) c
        (brace_apart c (head_lacks c pre h)))
      (split_at-token_of key pre post (tail_lacks 123 c pre h))

expand-lacks : (before p rest v : Text) → lacks 36 v ≡ true → expand before p rest v ≡ v
unfolding expand
expand-lacks before p rest [] h = refl
expand-lacks before p rest (c ∷ []) h = refl
expand-lacks before p rest (c ∷ d ∷ v) h =
    rw (no_dollar c (d ∷ v) h)
      (ap (λ s. c ∷ s) (expand-lacks before p rest (d ∷ v) (tail_lacks 36 c (d ∷ v) h)))
  where
    no_dollar : (x : ℕ) (s : Text) → lacks 36 (x ∷ s) ≡ true → (x == 36) ≡ false
    no_dollar x s e = ground (arith, e)

lacks-escape_unit : (c : ℕ) → (c == 36) ≡ false → lacks 36 (escape_unit c) ≡ true
unfolding escape_unit
lacks-escape_unit c h = ground arith

lacks-escape_html : (v : Text) → lacks 36 v ≡ true → lacks 36 (escape_html v) ≡ true
unfolding escape_html
lacks-escape_html [] h = refl
lacks-escape_html (c ∷ v) h = ground (
  arith,
  lacks-append 36 (escape_unit c) (escape_html v),
  lacks-escape_unit c,
  lacks-escape_html v,
  h,
)

replace-token_of :
    (key pre post v : Text)
    → lacks 123 pre ≡ true
    → lacks 36 v ≡ true
    → replace (token_of key) v (pre ++ (token_of key ++ post)) ≡ pre ++ (v ++ post)
unfolding replace
replace-token_of key pre post v h free =
    rw (replace, split_at-token_of key pre post h, expand-lacks pre (token_of key) post v free) refl

replace_each-token_of :
    (show : Value → Text) (f : Text → Text) (rs : Fields) (k : ℕ) (key pre post v : Text)
    → all_keys (k ∷ key) ≡ true
    → lacks 123 pre ≡ true
    → has_own (k ∷ key) rs ≡ true
    → get (k ∷ key) rs ≡ str v
    → lacks 36 (f v) ≡ true
    → replace_each show f 2 rs (token_of (k ∷ key) ∷ []) (pre ++ (token_of (k ∷ key) ++ post))
      ≡ pre ++ (f v ++ post)
unfolding replace_each
replace_each-token_of show f rs k key pre post v h h' own is free =
    rw (key_of-token_of k key h, own, is) (replace-token_of (k ∷ key) pre post (f v) h' free)

-- The two passes, with what is done to the value in the second.
two_passes :
    (show : Value → Text) (f : Text → Text) (rs : Fields) (k : ℕ) (key pre post v : Text)
    → all_keys (k ∷ key) ≡ true
    → lacks 123 pre ≡ true
    → lacks 123 post ≡ true
    → has_own (k ∷ key) rs ≡ true
    → get (k ∷ key) rs ≡ str v
    → lacks 36 (f v) ≡ true
    → (s : Text)
    → s
      ≡ replace_each show unchanged 3 rs
          (placeholders (lit "{{{") (lit "}}}") 0 (pre ++ (token_of (k ∷ key) ++ post)))
          (pre ++ (token_of (k ∷ key) ++ post))
    → replace_each show f 2 rs (placeholders (lit "{{") (lit "}}") 0 s) s ≡ pre ++ (f v ++ post)
unfolding replace_each
two_passes show f rs k key pre post v h h' h'' own is free s first =
    let t : Text = pre ++ (token_of (k ∷ key) ++ post) in
    let none_of_three : placeholders (lit "{{{") (lit "}}}") 0 t ≡ [] =
      placeholders-append (123 ∷ 123 ∷ []) (lit "}}}") pre (token_of (k ∷ key) ++ post) h'
      ∙ ap (placeholders (lit "{{{") (lit "}}}") 0) (token_of-append (k ∷ key) post)
      ∙ not_triple k key post h h'' in
    let one_of_two : placeholders (lit "{{") (lit "}}") 0 t ≡ token_of (k ∷ key) ∷ [] =
      placeholders-append (123 ∷ []) (lit "}}") pre (token_of (k ∷ key) ++ post) h'
      ∙ ap (placeholders (lit "{{") (lit "}}") 0) (token_of-append (k ∷ key) post)
      ∙ placeholders-whole k key post h h'' in
    ap (λ x. replace_each show f 2 rs (placeholders (lit "{{") (lit "}}") 0 x) x)
      (first ∙ ap (λ l. replace_each show unchanged 3 rs l t) none_of_three)
    ∙ ap (λ l. replace_each show f 2 rs l t) one_of_two
    ∙ replace_each-token_of show f rs k key pre post v h h' own is free

-- In a template with one `{{key}}` and no other opening brace, where the replacements have a text
-- under the key that has no `$`, the placeholder becomes that text, escaped if the template is
-- HTML, and the rest of the template stays as it is.
pub render_lem :
    (show : Value → Text) (rs : Fields) (is_html : Bool) (k : ℕ) (key pre post v : Text)
    → all_keys (k ∷ key) ≡ true
    → lacks 123 pre ≡ true
    → lacks 123 post ≡ true
    → has_own (k ∷ key) rs ≡ true
    → get (k ∷ key) rs ≡ str v
    → lacks 36 v ≡ true
    → render show (pre ++ (token_of (k ∷ key) ++ post)) rs is_html
      ≡ pre ++ ((if is_html then escape_html v else v) ++ post)
unfolding render
render_lem show rs true k key pre post v h h' h'' own is free =
    two_passes show escape_html rs k key pre post v h h' h'' own is (lacks-escape_html v free) _
      refl
render_lem show rs false k key pre post v h h' h'' own is free =
    two_passes show unchanged rs k key pre post v h h' h'' own is free _ refl
