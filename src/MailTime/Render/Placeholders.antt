-- ===== src/MailTime/Render/Placeholders.antt =====
-- index.js, `___render`: the placeholders that are found in a template with one.
use mail_time.Prelude.{
  ℕ, suc, ◌-◌, ◌≡◌, refl, sym, ap, ◌∙◌, Bool, true, false, not, ◌&&◌, [], ◌∷◌, ◌++◌, none, some,
  arith, ◌==◌, length, length-append, append_assoc, append-nil,
}
use mail_time.Js.Text.{Text, lit, is_space}
use mail_time.MailTime.Render.{is_key_unit, key_run, after, taken, placeholder, placeholders}

abbrev pub all_keys : Text → Bool
all_keys [] = true
all_keys (c ∷ s) = is_key_unit c && all_keys s

-- The unit `c` does not occur.
abbrev pub lacks : ℕ → Text → Bool
lacks c [] = true
lacks c (d ∷ s) = not (d == c) && lacks c s

pub lacks-append : (c : ℕ) (s t : Text) → lacks c (s ++ t) ≡ (lacks c s && lacks c t)
lacks-append c [] t = refl
lacks-append c (d ∷ s) t = ground (arith, lacks-append c s t)

pub key_unit :
    (c : ℕ)
    → is_key_unit c ≡ true
    → ((c == 123) ≡ false) × ((c == 125) ≡ false) × (is_space c ≡ false)
unfolding is_key_unit is_space
key_unit c h = (ground (arith, h), ground (arith, h), ground (arith, h))

brace_unit : is_key_unit 125 ≡ false
unfolding is_key_unit
brace_unit = refl

pub all_keys-lacks : (key : Text) → all_keys key ≡ true → lacks 123 key ≡ true
all_keys-lacks [] h = refl
all_keys-lacks (c ∷ key) h = ground (arith, h, key_unit c, all_keys-lacks key)

placeholder-none :
    (o closing s : Text) (c : ℕ) → (c == 123) ≡ false → placeholder (123 ∷ o) closing (c ∷ s) ≡ none
unfolding placeholder after
placeholder-none o closing s c h = rw (placeholder, after, apart c h) refl
  where
    apart : (d : ℕ) → (d == 123) ≡ false → (123 == d) ≡ false
    apart d e = ground (arith, e)

pub placeholders-append :
    (o closing pre s : Text)
    → lacks 123 pre ≡ true
    → placeholders (123 ∷ o) closing 0 (pre ++ s) ≡ placeholders (123 ∷ o) closing 0 s
unfolding placeholders
placeholders-append o closing [] s h = refl
placeholders-append o closing (c ∷ pre) s h =
    rw (placeholders, placeholder-none o closing (pre ++ s) c (ground (arith, h)))
      (placeholders-append o closing pre s (ground (arith, h)))

key_run-append :
    (key rest : Text) → all_keys key ≡ true → key_run (key ++ 125 ∷ rest) ≡ (key, 125 ∷ rest)
unfolding key_run
key_run-append [] rest h = rw brace_unit refl
key_run-append (c ∷ key) rest h =
    rw ((first_key c key h).0, key_run-append key rest (first_key c key h).1) refl
  where
    first_key :
        (d : ℕ) (s : Text) → all_keys (d ∷ s) ≡ true → (is_key_unit d ≡ true) × (all_keys s ≡ true)
    first_key d s e = (ground (arith, e), ground (arith, e))

pub taken-append : (s t : Text) → taken (length s) (s ++ t) ≡ s
taken-append [] t = refl
taken-append (c ∷ s) t = ap (λ x. c ∷ x) (taken-append s t)

pub after-append : (p s : Text) → after p (p ++ s) ≡ some s
unfolding after
after-append [] s = refl
after-append (c ∷ p) s = rw (same c) (after-append p s)
  where
    same : (d : ℕ) → (d == d) ≡ true
    same d = ground arith

placeholders-skip :
    (opening closing s t : Text)
    → placeholders opening closing (length s) (s ++ t) ≡ placeholders opening closing 0 t
unfolding placeholders
placeholders-skip opening closing [] t = refl
placeholders-skip opening closing (c ∷ s) t = placeholders-skip opening closing s t

placeholders-lacks :
    (o closing s : Text) → lacks 123 s ≡ true → placeholders (123 ∷ o) closing 0 s ≡ []
unfolding placeholders
placeholders-lacks o closing s h =
    ap (placeholders (123 ∷ o) closing 0) (sym (append-nil s))
    ∙ placeholders-append o closing s [] h

pub unit : (k : ℕ) (key : Text) → all_keys (k ∷ key) ≡ true → is_key_unit k ≡ true
unit k key h = ground (arith, h)

pub units : (k : ℕ) (key : Text) → all_keys (k ∷ key) ≡ true → all_keys key ≡ true
units k key h = ground (arith, h)

brace_space : is_space 125 ≡ false
unfolding is_space
brace_space = refl

pub key_space : (k : ℕ) → is_key_unit k ≡ true → is_space k ≡ false
key_space k h = (key_unit k h).2

pub brace_apart : (c : ℕ) → (c == 123) ≡ false → (123 == c) ≡ false
brace_apart c e = ground (arith, e)

-- The text of the placeholder of a key, and that with what follows it.
abbrev pub token_of : Text → Text
token_of key = 123 ∷ 123 ∷ (key ++ 125 ∷ 125 ∷ [])

abbrev pub whole : Text → Text → Text
whole key post = 123 ∷ 123 ∷ (key ++ 125 ∷ 125 ∷ post)

pub token_of-append : (key post : Text) → token_of key ++ post ≡ whole key post
token_of-append key post = ap (λ s. 123 ∷ 123 ∷ s) (append_assoc key (125 ∷ 125 ∷ []) post)

taken-token_of :
    (key post : Text)
    → taken (length (whole key post) - length post) (whole key post) ≡ token_of key
taken-token_of key post =
    ap (λ n. taken n (whole key post)) lengths
    ∙ ap (taken (length (token_of key))) (sym (token_of-append key post))
    ∙ taken-append (token_of key) post
  where
    lengths : length (whole key post) - length post ≡ length (token_of key)
    lengths =
        omega (arith, length-append key (125 ∷ 125 ∷ post), length-append key (125 ∷ 125 ∷ []))

placeholder-token_of :
    (k : ℕ) (key post : Text)
    → all_keys (k ∷ key) ≡ true
    → placeholder (lit "{{") (lit "}}") (whole (k ∷ key) post) ≡ some (token_of (k ∷ key))
unfolding placeholder after
placeholder-token_of k key post h =
    rw
      (
        placeholder,
        after,
        key_space k (unit k key h),
        key_run-append (k ∷ key) (125 ∷ post) h,
        brace_space,
      )
      (ap (λ s. some s) (taken-token_of (k ∷ key) post))

placeholders-found :
    (opening closing token s : Text) (c : ℕ)
    → placeholder opening closing (c ∷ s) ≡ some token
    → placeholders opening closing 0 (c ∷ s)
      ≡ token ∷ placeholders opening closing (length token - 1) s
unfolding placeholders
placeholders-found opening closing token s c e = rw (placeholders, e) refl

placeholders-not_here :
    (opening closing s : Text) (c : ℕ)
    → placeholder opening closing (c ∷ s) ≡ none
    → placeholders opening closing 0 (c ∷ s) ≡ placeholders opening closing 0 s
unfolding placeholders
placeholders-not_here opening closing s c e = rw (placeholders, e) refl

-- Neither of the two braces opens a placeholder of three.
not_at_first :
    (closing s : Text) (k : ℕ)
    → (123 == k) ≡ false
    → (placeholder (lit "{{{") closing (123 ∷ 123 ∷ k ∷ s) ≡ none)
      × (placeholder (lit "{{{") closing (123 ∷ k ∷ s) ≡ none)
unfolding placeholder after
not_at_first closing s k e = (rw (placeholder, after, e) refl, rw (placeholder, after, e) refl)

pub not_triple :
    (k : ℕ) (key post : Text)
    → all_keys (k ∷ key) ≡ true
    → lacks 123 post ≡ true
    → placeholders (lit "{{{") (lit "}}}") 0 (whole (k ∷ key) post) ≡ []
not_triple k key post h free =
    let tail : Text = (k ∷ key) ++ 125 ∷ 125 ∷ post in
    let (first, second) =
      not_at_first (lit "}}}") (key ++ 125 ∷ 125 ∷ post) k
        (brace_apart k (key_unit k (unit k key h)).0) in
    placeholders-not_here (lit "{{{") (lit "}}}") (123 ∷ tail) 123 first
    ∙ placeholders-not_here (lit "{{{") (lit "}}}") tail 123 second
    ∙ placeholders-lacks (123 ∷ 123 ∷ []) (lit "}}}") tail (
        lacks-append 123 (k ∷ key) (125 ∷ 125 ∷ post)
        ∙ ground (arith, all_keys-lacks (k ∷ key) h, free))

pub placeholders-whole :
    (k : ℕ) (key post : Text)
    → all_keys (k ∷ key) ≡ true
    → lacks 123 post ≡ true
    → placeholders (lit "{{") (lit "}}") 0 (whole (k ∷ key) post) ≡ token_of (k ∷ key) ∷ []
placeholders-whole k key post h free =
    let token : Text = token_of (k ∷ key) in
    let rest : Text = 123 ∷ ((k ∷ key) ++ 125 ∷ 125 ∷ []) in
    placeholders-found (lit "{{") (lit "}}") token (123 ∷ ((k ∷ key) ++ 125 ∷ 125 ∷ post)) 123
      (placeholder-token_of k key post h)
    ∙ ap (λ s. token ∷ placeholders (lit "{{") (lit "}}") (length token - 1) s)
        (sym (ap (λ s. 123 ∷ s) (append_assoc (k ∷ key) (125 ∷ 125 ∷ []) post)))
    ∙ ap (λ n. token ∷ placeholders (lit "{{") (lit "}}") n (rest ++ post)) (one_less rest)
    ∙ ap (λ l. token ∷ l)
        (placeholders-skip (lit "{{") (lit "}}") rest post
          ∙ placeholders-lacks (123 ∷ []) (lit "}}") post free)
  where
    one_less : (s : Text) → suc (length s) - 1 ≡ length s
    one_less s = omega arith
