-- ===== src/Js/Value.antt =====
-- JavaScript values as the program's options and tasks hold them. An object is its own enumerable
-- properties in insertion order. `instance_of` is an object of another prototype (an error, a
-- buffer, a stream): its identity and its properties; `func` is a function by its identity. A
-- number is a natural number. A value is a tree: two references to one array or object are not
-- told from two copies of it.
use mail_time.Prelude.{ℕ, ◌≡◌, refl, Bool, true, false, not, arith, ◌==◌, if◌then◌else◌}
use mail_time.Js.Text.{Text, text_eq, text_eq_iff, text_eq_refl, is_empty}

mutual
  pub data Value : Type 0 where
    undefined : Value
    null : Value
    bool : Bool → Value
    num : ℕ → Value
    str : Text → Value
    date : ℕ → Value
    instance_of : ℕ → Fields → Value
    func : ℕ → Value
    arr : Items → Value
    obj : Fields → Value

  pub data Items : Type 0 where
    nil : Items
    cons : Value → Items → Items

  pub data Fields : Type 0 where
    end : Fields
    field : Text → Value → Fields → Fields

-- `Object.prototype.hasOwnProperty.call(obj, key)`.
unfoldable pub has_own : Text → Fields → Bool
has_own k end = false
has_own k (field j v fs) = if text_eq j k then true else has_own k fs

-- `obj[key]`, of an object with no inherited property of that name.
unfoldable pub get : Text → Fields → Value
get k end = undefined
get k (field j v fs) = if text_eq j k then v else get k fs

-- `obj[key] = v`: in place, or as the last property.
unfoldable pub put : Text → Value → Fields → Fields
put k v end = field k v end
put k v (field j w fs) = if text_eq j k then field j v fs else field j w (put k v fs)

-- `delete obj[key]`.
unfoldable pub delete_key : Text → Fields → Fields
delete_key k end = end
delete_key k (field j w fs) =
    let rest = delete_key k fs in if text_eq j k then rest else field j w rest

-- `!value` negated.
abbrev pub truthy : Value → Bool
truthy undefined = false
truthy null = false
truthy (bool b) = b
truthy (num n) = not (n == 0)
truthy (str s) = not (is_empty s)
truthy (date n) = true
truthy (instance_of n fs) = true
truthy (func n) = true
truthy (arr xs) = true
truthy (obj fs) = true

-- `value?.[key]`.
abbrev pub prop : Text → Value → Value
prop k (obj fs) = get k fs
prop k (instance_of n fs) = get k fs
prop k _ = undefined

abbrev pub items : Value → Items
items (arr xs) = xs
items _ = nil

pub get-put :
    (k j : Text) (v : Value) (fs : Fields)
    → get j (put k v fs) ≡ (if text_eq k j then v else get j fs)
unfolding get put
get-put k j v end = refl
get-put k j v (field i w fs) =
    ground (arith, text_eq_iff k j, text_eq_iff i k, text_eq_iff i j, get-put k j v fs)

pub get-put_self : (k : Text) (v : Value) (fs : Fields) → get k (put k v fs) ≡ v
get-put_self k v fs = ground (arith, get-put k k v fs, text_eq_refl k)

pub has_own-put :
    (k j : Text) (v : Value) (fs : Fields)
    → has_own j (put k v fs) ≡ (if text_eq k j then true else has_own j fs)
unfolding has_own put
has_own-put k j v end = refl
has_own-put k j v (field i w fs) =
    ground (arith, text_eq_iff k j, text_eq_iff i k, text_eq_iff i j, has_own-put k j v fs)

pub get-delete_key :
    (k j : Text) (fs : Fields)
    → get j (delete_key k fs) ≡ (if text_eq k j then undefined else get j fs)
unfolding get delete_key
get-delete_key k j end = ground arith
get-delete_key k j (field i w fs) =
    ground (arith, text_eq_iff k j, text_eq_iff i k, text_eq_iff i j, get-delete_key k j fs)
