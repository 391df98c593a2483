-- ===== src/Js/Text.antt =====
-- JavaScript strings: sequences of 16-bit code units.
-- `trim` removes the white space and line terminators of the language standard. `to_lower_case`
-- maps the ASCII letters and leaves every other unit alone, which is the language's function on
-- the ASCII texts that mail addresses are.
use Prim.Native.Char.{code}
use Prim.Native.String.{String}
use mail_time.Prelude.{
  ℕ, ◌+◌, ◌≡◌, refl, ◌↔◌, Bool, true, false, ◌&&◌, ◌||◌, List, [], ◌∷◌, ◌++◌, leb, ◌==◌, arith,
  if◌then◌else◌,
}

abbrev pub Text : Type 0
Text = List ℕ

-- The units of a literal of ASCII characters.
abbrev pub lit : String → Text
lit String.[] = []
lit (String.◌∷◌ c s) = code c ∷ lit s

-- `===` on strings.
unfoldable pub text_eq : Text → Text → Bool
text_eq [] [] = true
text_eq [] (y ∷ ys) = false
text_eq (x ∷ xs) [] = false
text_eq (x ∷ xs) (y ∷ ys) = x == y && text_eq xs ys

text_eq→eq : (s t : Text) → text_eq s t ≡ true → s ≡ t
unfolding text_eq
text_eq→eq [] [] h = refl
text_eq→eq [] (y ∷ ys) h = ground arith
text_eq→eq (x ∷ xs) [] h = ground arith
text_eq→eq (x ∷ xs) (y ∷ ys) h = ground (arith, text_eq→eq xs ys)

pub text_eq_refl : (s : Text) → text_eq s s ≡ true
unfolding text_eq
text_eq_refl [] = refl
text_eq_refl (x ∷ xs) = ground (arith, text_eq_refl xs)

eq→text_eq : (s t : Text) → s ≡ t → text_eq s t ≡ true
eq→text_eq s t e = ground (arith, text_eq_refl s)

pub text_eq_iff : (s t : Text) → (text_eq s t ≡ true) ↔ (s ≡ t)
text_eq_iff s t = (text_eq→eq s t, eq→text_eq s t)

-- A string is falsy when it is empty.
abbrev pub is_empty : Text → Bool
is_empty [] = true
is_empty (c ∷ s) = false

unfoldable pub is_space : ℕ → Bool
is_space c =
    (leb 9 c && leb c 13)
    || (c == 32)
    || (c == 160)
    || (c == 0x1680)
    || (leb 0x2000 c && leb c 0x200a)
    || (c == 0x2028)
    || (c == 0x2029)
    || (c == 0x202f)
    || (c == 0x205f)
    || (c == 0x3000)
    || (c == 0xfeff)

-- `trimStart` and `trimEnd`.
unfoldable pub trim_start : Text → Text
unfolding is_space
trim_start [] = []
trim_start (c ∷ s) = let rest = trim_start s in if is_space c then rest else c ∷ s

unfoldable pub trim_end : Text → Text
unfolding is_space
trim_end [] = []
trim_end (c ∷ s) = let rest = trim_end s in if is_empty rest && is_space c then [] else c ∷ rest

unfoldable pub trim : Text → Text
unfolding trim_start trim_end
trim s = trim_end (trim_start s)

unfoldable pub lower_unit : ℕ → ℕ
lower_unit c = if leb b'A' c && leb c b'Z' then c + 32 else c

unfoldable pub to_lower_case : Text → Text
unfolding lower_unit
to_lower_case [] = []
to_lower_case (c ∷ s) = lower_unit c ∷ to_lower_case s

pub lower_unit_idem : (c : ℕ) → lower_unit (lower_unit c) ≡ lower_unit c
unfolding lower_unit
lower_unit_idem c = ground arith

pub to_lower_case_idem : (s : Text) → to_lower_case (to_lower_case s) ≡ to_lower_case s
unfolding to_lower_case
to_lower_case_idem [] = refl
to_lower_case_idem (c ∷ s) = ground (arith, lower_unit_idem c, to_lower_case_idem s)

-- `Set<string>` and `Array.prototype.includes`: the elements in insertion order.
unfoldable pub has : List Text → Text → Bool
unfolding text_eq
has [] a = false
has (x ∷ xs) a = text_eq x a || has xs a

unfoldable pub add : List Text → Text → List Text
unfolding has
add set a = if has set a then set else set ++ a ∷ []

pub has-append : (xs ys : List Text) (b : Text) → has (xs ++ ys) b ≡ (has xs b || has ys b)
unfolding has
has-append [] ys b = refl
has-append (x ∷ xs) ys b = ground (arith, has-append xs ys b)

pub has-add : (set : List Text) (a b : Text) → has (add set a) b ≡ (has set b || text_eq a b)
unfolding add
has-add set a b = ground (arith, has-append set (a ∷ []) b, has_one a b, has_trans set a b)
  where
    has_one : (x y : Text) → has (x ∷ []) y ≡ text_eq x y
    has_one x y = ground arith

    has_trans :
        (xs : List Text) (x y : Text) → has xs x ≡ true → text_eq x y ≡ true → has xs y ≡ true
    has_trans xs x y h e = ground (arith, text_eq_iff x y)

-- `for (const a of xs) set.add(a)`.
unfoldable pub add_all : List Text → List Text → List Text
add_all set [] = set
add_all set (x ∷ xs) = add_all (add set x) xs

pub has-add_all : (set xs : List Text) (b : Text) → has (add_all set xs) b ≡ (has set b || has xs b)
unfolding add_all has
has-add_all set [] b = ground arith
has-add_all set (x ∷ xs) b = ground (arith, has-add_all (add set x) xs b, has-add set x b)
