-- ===== src/Helpers/Equality.antt =====
-- helpers.js, `equals` and `isPlainObject`. Arrays are equal as multisets: each element of the one
-- takes the first element of the other that it equals and that is still free.
use mail_time.Prelude.{ℕ, Bool, true, false, ◌&&◌, ◌==◌, ◌+◌, Option, none, some, if◌then◌else◌}
use mail_time.Js.Text.{text_eq}
use mail_time.Js.Value.{
  Value, undefined, null, bool, num, str, date, instance_of, func, arr, obj, Items, nil, cons,
  Fields, end, field, has_own, get,
}

abbrev pub is_plain_object : Value → Bool
is_plain_object (obj fs) = true
is_plain_object _ = false

unfoldable pub count_items : Items → ℕ
count_items nil = 0
count_items (cons v vs) = count_items vs + 1

-- `Object.keys(value).length`.
unfoldable pub count_keys : Fields → ℕ
count_keys end = 0
count_keys (field k v fs) = count_keys fs + 1

-- `ys` without the first element that `p` holds of.
unfoldable pub take_first : (Value → Bool) → Items → Option Items
take_first p nil = none
take_first p (cons y ys) =
    let rest = take_first p ys in
    if p y then some ys else elim rest [ none ↦ none | some zs ↦ some (cons y zs) ]

unfoldable mutual
  pub equals : Value → Value → Bool
  equals undefined undefined = true
  equals null null = true
  equals (bool true) (bool b) = b
  equals (bool false) (bool true) = false
  equals (bool false) (bool false) = true
  equals (num n) (num k) = n == k
  equals (str s) (str t) = text_eq s t
  equals (func n) (func k) = n == k
  equals (date n) (date k) = n == k
  equals (date n) (obj gs) = count_keys gs == 0
  equals (date n) (instance_of k gs) = count_keys gs == 0
  equals (arr xs) (arr ys) = count_items xs == count_items ys && equal_items xs ys
  equals (obj fs) (obj gs) = count_keys fs == count_keys gs && equal_fields fs gs
  equals (obj fs) (instance_of k gs) = count_keys fs == count_keys gs && equal_fields fs gs
  equals (obj fs) (date k) = count_keys fs == 0
  equals (instance_of n fs) (obj gs) = count_keys fs == count_keys gs && equal_fields fs gs
  equals (instance_of n fs) (instance_of k gs) =
      if n == k then true else count_keys fs == count_keys gs && equal_fields fs gs
  equals (instance_of n fs) (date k) = count_keys fs == 0
  equals _ _ = false

  pub equal_items : Items → Items → Bool
  equal_items nil ys = true
  equal_items (cons x xs) ys = elim (take_first (equals x) ys) [
    | none ↦ false
    | some zs ↦ equal_items xs zs
  ]

  pub equal_fields : Fields → Fields → Bool
  equal_fields end gs = true
  equal_fields (field k v fs) gs = has_own k gs && (equals v (get k gs) && equal_fields fs gs)
