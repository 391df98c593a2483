-- ===== src/Helpers/Merge/Paths.antt =====
-- helpers.js, `deepMerge`: what the result holds at the end of each path of properties.
use mail_time.Prelude.{
  ◌≡◌, refl, sym, ap, ◌∙◌, true, false, ◌||◌, List, [], ◌∷◌, Option, none, some, arith,
  if◌then◌else◌, Bool-cases, inl, inr,
}
use mail_time.Js.Text.{Text}
use mail_time.Js.Value.{
  Value, undefined, arr, obj, Items, nil, Fields, end, field, get, put, has_own, has_own-put,
}
use mail_time.Helpers.Merge.{
  concat, items_or_none, fields_or_none, deep_merge, merged, is_scalar, AreKeysDistinct,
  get-deep_merge,
}

-- The value at the end of a path through plain objects, `none` where there is none.
abbrev pub at : List Text → Value → Option Value
at [] v = some v
at (k ∷ p) (obj fs) = if has_own k fs then at p (get k fs) else none
at (k ∷ p) v = none

abbrev pub array_in : Option Value → Items
array_in none = nil
array_in (some v) = items_or_none v

-- No object along the path has a property twice.
abbrev pub AreDistinct : List Text → Value → Type 0
AreDistinct [] v = Unit {0}
AreDistinct (k ∷ p) (obj fs) = AreKeysDistinct fs × AreDistinct p (get k fs)
AreDistinct (k ∷ p) v = Unit {0}

-- The path leaves the objects of the source at a property that one of them has not.
abbrev pub Leaves : List Text → Value → Type 0
Leaves [] v = ⊥
Leaves (k ∷ p) (obj fs) = if has_own k fs then Leaves p (get k fs) else Unit {0}
Leaves (k ∷ p) v = ⊥

has_own-deep_merge :
    (j : Text) (out source : Fields)
    → has_own j (deep_merge out source) ≡ (has_own j out || has_own j source)
unfolding deep_merge has_own
has_own-deep_merge j out end = ground arith
has_own-deep_merge j out (field k v rest) = ground (
  arith,
  has_own-deep_merge j (put k (merged (get k out) v) out) rest,
  has_own-put k j (merged (get k out) v) out,
)

get_missing : (j : Text) (fs : Fields) → has_own j fs ≡ false → get j fs ≡ undefined
unfolding get has_own
get_missing j end h = refl
get_missing j (field k v fs) h = ground (arith, get_missing j fs)

array_missing : (p : List Text) → array_in (at p undefined) ≡ nil
array_missing [] = refl
array_missing (k ∷ p) = refl

at_missing :
    (k : Text) (p : List Text) (fs : Fields) → has_own k fs ≡ false → at (k ∷ p) (obj fs) ≡ none
at_missing k p fs h = rw h refl

at_there :
    (k : Text) (p : List Text) (fs : Fields)
    → has_own k fs ≡ true
    → at (k ∷ p) (obj fs) ≡ at p (get k fs)
at_there k p fs h = rw h refl

-- One step along a path of the result.
step_there :
    (k : Text) (p : List Text) (out fs : Fields)
    → AreKeysDistinct fs
    → has_own k fs ≡ true
    → at (k ∷ p) (obj (deep_merge out fs)) ≡ at p (merged (get k out) (get k fs))
step_there k p out fs d h =
    at_there k p (deep_merge out fs) (has_own-deep_merge k out fs ∙ ground (arith, h))
    ∙ ap (at p) (get-deep_merge k out fs d ∙ rw h refl)

step_absent :
    (k : Text) (p : List Text) (out fs : Fields)
    → AreKeysDistinct fs
    → has_own k fs ≡ false
    → at (k ∷ p) (obj (deep_merge out fs)) ≡ at (k ∷ p) (obj out)
step_absent k p out fs d h =
    rw (has_own-deep_merge k out fs, get-deep_merge k out fs d, h) (ground arith)

-- A target's array at the end of a path, one step on.
array_step :
    (k : Text) (p : List Text) (t : Value)
    → array_in (at p (get k (fields_or_none t))) ≡ array_in (at (k ∷ p) t)
unfolding get
array_step k p (obj fs) = elim (Bool-cases (has_own k fs)) [
  | inl e ↦ rw e refl
  | inr e ↦ rw (e, get_missing k fs e) (array_missing p)
]
array_step k p t = array_missing p

joins :
    (p : List Text) (t s : Value) (xs : Items)
    → AreDistinct p s
    → at p s ≡ some (arr xs)
    → at p (merged t s) ≡ some (arr (concat (array_in (at p t)) xs))
unfolding deep_merge
joins [] t s xs d e = let same : s ≡ arr xs = cc in rw same refl
joins (k ∷ p) t (obj fs) xs d e = elim (Bool-cases (has_own k fs)) [
  | inr h ↦ cc (at_missing k p fs h)
  | inl h ↦
      step_there k p (fields_or_none t) fs d.0 h
      ∙ joins p (get k (fields_or_none t)) (get k fs) xs d.1 (sym (at_there k p fs h) ∙ e)
      ∙ ap (λ a. some (arr (concat a xs))) (array_step k p t)
]
joins (k ∷ p) t s xs d e = cc

merged_scalar : (t v : Value) → is_scalar v ≡ true → merged t v ≡ v
unfolding deep_merge
merged_scalar t (arr xs) e = cc
merged_scalar t (obj fs) e = cc
merged_scalar t v e = refl

replaces :
    (p : List Text) (t s v : Value)
    → AreDistinct p s
    → at p s ≡ some v
    → is_scalar v ≡ true
    → at p (merged t s) ≡ some v
unfolding deep_merge
replaces [] t s v d e y = let same : s ≡ v = cc in rw same (ap some (merged_scalar t v y))
replaces (k ∷ p) t (obj fs) v d e y = elim (Bool-cases (has_own k fs)) [
  | inr h ↦ cc (at_missing k p fs h)
  | inl h ↦
      step_there k p (fields_or_none t) fs d.0 h
      ∙ replaces p (get k (fields_or_none t)) (get k fs) v d.1 (sym (at_there k p fs h) ∙ e) y
]
replaces (k ∷ p) t s v d e y = cc

at_fields :
    (k : Text) (p : List Text) (t : Value) → at (k ∷ p) (obj (fields_or_none t)) ≡ at (k ∷ p) t
unfolding has_own
at_fields k p (obj fs) = refl
at_fields k p t = refl

-- A longer path, one step on.
at_step :
    (k j : Text) (p : List Text) (t : Value)
    → at (j ∷ p) (get k (fields_or_none t)) ≡ at (k ∷ j ∷ p) t
unfolding get
at_step k j p (obj fs) = elim (Bool-cases (has_own k fs)) [
  | inl e ↦ rw e refl
  | inr e ↦ rw (e, get_missing k fs e) refl
]
at_step k j p t = refl

stays : (p : List Text) (t s : Value) → AreDistinct p s → Leaves p s → at p (merged t s) ≡ at p t
unfolding deep_merge
stays [] t s d l = elim l [ ]
stays (k ∷ p) t (obj fs) d l = elim (Bool-cases (has_own k fs)) [
  | inr h ↦ step_absent k p (fields_or_none t) fs d.0 h ∙ at_fields k p t
  | inl h ↦
      on p d.1 (rw h at l) (step_there k p (fields_or_none t) fs d.0 h)
        (λ l'. stays p (get k (fields_or_none t)) (get k fs) d.1 l')
]
  where
    on :
        (p' : List Text)
        → AreDistinct p' (get k fs)
        → Leaves p' (get k fs)
        → at (k ∷ p') (obj (deep_merge (fields_or_none t) fs))
          ≡ at p' (merged (get k (fields_or_none t)) (get k fs))
        → (Leaves p' (get k fs)
            → at p' (merged (get k (fields_or_none t)) (get k fs))
              ≡ at p' (get k (fields_or_none t)))
        → at (k ∷ p') (obj (deep_merge (fields_or_none t) fs)) ≡ at (k ∷ p') t
    on [] d' l' e ih = elim l' [ ]
    on (j ∷ p') d' l' e ih = e ∙ ih l' ∙ at_step k j p' t
stays (k ∷ p) t s d l = elim l [ ]

-- At the end of every path of properties on which no object of the source has a property twice: an
-- array of the source is joined to that of the target, if there is one; any other value of the source
-- that is not a plain object replaces that of the target; and where the path leaves the objects of the
-- source at a property that they have not, the result is what the target has there.
pub deep_merge_paths :
    (k : Text) (p : List Text) (out source : Fields)
    → AreDistinct (k ∷ p) (obj source)
    → let result = at (k ∷ p) (obj (deep_merge out source)) in
      ((xs : Items)
        → at (k ∷ p) (obj source) ≡ some (arr xs)
        → result ≡ some (arr (concat (array_in (at (k ∷ p) (obj out))) xs)))
      × ((v : Value) → at (k ∷ p) (obj source) ≡ some v → is_scalar v ≡ true → result ≡ some v)
      × (Leaves (k ∷ p) (obj source) → result ≡ at (k ∷ p) (obj out))
unfolding deep_merge
deep_merge_paths k p out source d = (
  λ xs e. joins (k ∷ p) (obj out) (obj source) xs d e,
  λ v e y. replaces (k ∷ p) (obj out) (obj source) v d e y,
  λ l. stays (k ∷ p) (obj out) (obj source) d l,
)
