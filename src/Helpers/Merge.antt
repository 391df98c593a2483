-- ===== src/Helpers/Merge.antt =====
-- helpers.js, `deepMerge`: the properties of the source over those of the target, arrays joined,
-- plain objects merged.
pub mod Paths
use mail_time.Prelude.{
  ◌≡◌, refl, ◌∙◌, Bool, true, false, arith, if◌then◌else◌, Bool-cases, inl, inr,
}
use mail_time.Js.Text.{Text, text_eq, text_eq_iff}
use mail_time.Js.Value.{
  Value, arr, obj, Items, nil, cons, Fields, end, field, get, put, has_own, get-put,
}

unfoldable pub concat : Items → Items → Items
concat nil ys = ys
concat (cons x xs) ys = cons x (concat xs ys)

abbrev pub items_or_none : Value → Items
items_or_none (arr xs) = xs
items_or_none _ = nil

abbrev pub fields_or_none : Value → Fields
fields_or_none (obj fs) = fs
fields_or_none _ = end

-- `deepMerge(target, source)` of plain objects, and what it writes for one property of the source
-- over the target's.
unfoldable mutual
  pub deep_merge : Fields → Fields → Fields
  deep_merge out end = out
  deep_merge out (field k v rest) = deep_merge (put k (merged (get k out) v) out) rest

  pub merged : Value → Value → Value
  merged t (arr xs) = arr (concat (items_or_none t) xs)
  merged t (obj fs) = obj (deep_merge (fields_or_none t) fs)
  merged t v = v

-- A value that is neither an array nor a plain object.
abbrev pub is_scalar : Value → Bool
is_scalar (arr xs) = false
is_scalar (obj fs) = false
is_scalar v = true

-- No property stands twice.
abbrev pub AreKeysDistinct : Fields → Type 0
AreKeysDistinct end = Unit {0}
AreKeysDistinct (field k v fs) = (has_own k fs ≡ false) × AreKeysDistinct fs

-- One property of the result.
pub get-deep_merge :
    (j : Text) (out source : Fields)
    → AreKeysDistinct source
    → get j (deep_merge out source)
      ≡ (if has_own j source then merged (get j out) (get j source) else get j out)
unfolding deep_merge get has_own
get-deep_merge j out end d = refl
get-deep_merge j out (field k v rest) d = elim (Bool-cases (text_eq k j)) [
  | inl e ↦
      let same : k ≡ j = ground (arith, text_eq_iff k j) in
      let later : has_own j rest ≡ false = rw (← same) d.0 in
      get-deep_merge j (put k (merged (get k out) v) out) rest d.1
      ∙ rw (later, e, get-put k j (merged (get k out) v) out, e, same) refl
  | inr e ↦
      get-deep_merge j (put k (merged (get k out) v) out) rest d.1
      ∙ rw (e, get-put k j (merged (get k out) v) out, e) refl
]
