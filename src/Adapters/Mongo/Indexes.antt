-- ===== src/Adapters/Mongo/Indexes.antt =====
-- adapters/mongo.js, `ensureIndex`: an index that exists under other options (error 85) is dropped and
-- made again. How the first `createIndex` ended and the indexes that are there are parameters.
use mail_time.Prelude.{
  ◌≡◌, ◌⊎◌, refl, Bool, true, ◌&&◌, List, [], ◌∷◌, Option, none, some, ◌==◌, length, if◌then◌else◌,
  arith, Bool-cases, inl, inr,
}
use mail_time.Js.Text.{Text, has, is_empty}

pub record Index : Type 0 where
  pub name : Text
  -- The fields, `Object.keys(index.key)`.
  pub fields : List Text

pub data Outcome : Type 0 where
  created options_conflict failed : Outcome

pub data Command : Type 0 where
  drop_index : Text → Command
  create_index : List Text → Command

unfoldable pub has_all : Index → List Text → Bool
unfolding has
has_all index [] = true
has_all index (k ∷ ks) = has index.fields k && has_all index ks

abbrev pub is_same : Index → List Text → Bool
is_same index fields = length index.fields == length fields && has_all index fields

-- The name of the first index on the same fields.
unfoldable pub find_index : List Index → List Text → Option Text
unfolding has_all
find_index [] fields = none
find_index (index ∷ rest) fields =
    let found = find_index rest fields in if is_same index fields then some index.name else found

-- What is sent after the first `createIndex`; the fields are those of the index that is wanted.
unfoldable pub ensure_index : Outcome → List Index → List Text → List Command
unfolding find_index
ensure_index created indexes fields = []
ensure_index failed indexes fields = []
ensure_index options_conflict indexes fields = elim (find_index indexes fields) [
  | none ↦ []
  | some name ↦ if is_empty name then [] else drop_index name ∷ create_index fields ∷ []
]

abbrev pub IsOneOf : Index → List Index → Type 0
IsOneOf index [] = ⊥
IsOneOf index (i ∷ rest) = (index ≡ i) ⊎ IsOneOf index rest

-- The index that is found is one of those that are there, on as many fields, each that is wanted.
find_index-is_same :
    (indexes : List Index) (fields : List Text) (name : Text)
    → find_index indexes fields ≡ some name
    → (index : Index) × IsOneOf index indexes × (index.name ≡ name) × (is_same index fields ≡ true)
unfolding find_index
find_index-is_same [] fields name e = cc
find_index-is_same (index ∷ rest) fields name e = elim (Bool-cases (is_same index fields)) [
  | inl f ↦ (index, inl refl, ground (arith, e, f), f)
  | inr f ↦
      let (i, there, named, same) = find_index-is_same rest fields name (ground (arith, e, f)) in
      (i, inr there, named, same)
]
