-- ===== src/Adapters/Mongo/Driver.antt =====
-- What adapters/mongo.js uses of the MongoDB driver's collection, and what the MongoDB manual says
-- of it: an operation on one document is atomic, acts on the first match, and counts the matched
-- and the really changed documents. An operation that threw may have been carried out.
use mail_time.Prelude.{
  ℕ, ◌≤◌, ◌≡◌, ◌⊎◌, Bool, false, List, [], ◌∷◌, ◌++◌, Option, none, some, ◌||◌, if◌then◌else◌, take,
  ◌==◌,
}
use mail_time.Js.Text.{Text, text_eq}
use mail_time.Js.Value.{Value, Items, str, arr, nil, cons}
use mail_time.Task.{Task, is_some}
use mail_time.Adapters.Rows.{find_first, update_first, delete_first, find_all, by_id}

pub record Collection : Type 1 where
  pub Store : Type 0
  pub rows : Store → List Task
  -- The query `{ to: s }` at a row's `to`.
  pub field_matches : Text → Value → Bool
  -- The `id` that an insertion gives.
  pub new_id : Store → ℕ
  pub insert_one : Store → Task → Store
  -- `limit(0)` is no limit; `none` is an exception.
  pub find : Store → (Task → Bool) → ℕ → Option (List Task)
  pub find_one : Store → (Task → Bool) → Option (Option Task)
  -- The matched and the modified count.
  pub update_one : Store → (Task → Bool) → (Task → Task) → Store × Option (ℕ × ℕ)
  pub delete_one : Store → (Task → Bool) → Store × Option ℕ

-- An array field matches a text if one of its elements does.
abbrev pub any_str : Text → Items → Bool
any_str s nil = false
any_str s (cons (str t) xs) = text_eq s t || any_str s xs
any_str s (cons _ xs) = any_str s xs

abbrev pub UpdateResult :
    (Task → Bool) → (Task → Task) → List Task → List Task → Option (ℕ × ℕ) → Type 0
UpdateResult q f before after none = (after ≡ before) ⊎ (after ≡ update_first q f before)
UpdateResult q f before after (some (matched, modified)) =
    (after ≡ update_first q f before)
    × (matched ≡ (if is_some (find_first q before) then 1 else 0))
    × (modified ≤ matched)
    × ((c : Task) → find_first q before ≡ some c → modified ≡ 0 → f c ≡ c)
    × ((c : Task) → find_first q before ≡ some c → f c ≡ c → modified ≡ 0)

abbrev pub DeleteResult : (Task → Bool) → List Task → List Task → Option ℕ → Type 0
DeleteResult q before after none = (after ≡ before) ⊎ (after ≡ delete_first q before)
DeleteResult q before after (some deleted) =
    (after ≡ delete_first q before) × (deleted ≡ (if is_some (find_first q before) then 1 else 0))

pub record Laws (c : Collection) : Type 0 where
  pub field_matches-str : (s t : Text) → c.field_matches s (str t) ≡ text_eq s t
  pub field_matches-arr : (s : Text) (xs : Items) → c.field_matches s (arr xs) ≡ any_str s xs
  pub new_id-fresh : (s : c.Store) → by_id (c.new_id s) (c.rows s) ≡ none
  pub insert_one_lem :
      (s : c.Store) (t : Task)
      → c.rows (c.insert_one s t) ≡ c.rows s ++ record t { id = c.new_id s } ∷ []
  pub update_one_lem :
      (s : c.Store) (q : Task → Bool) (f : Task → Task)
      → UpdateResult q f (c.rows s) (c.rows (c.update_one s q f).0) (c.update_one s q f).1
  pub delete_one_lem :
      (s : c.Store) (q : Task → Bool)
      → DeleteResult q (c.rows s) (c.rows (c.delete_one s q).0) (c.delete_one s q).1
  pub find_one_lem :
      (s : c.Store) (q : Task → Bool) {o : Option Task}
      → c.find_one s q ≡ some o
      → o ≡ find_first q (c.rows s)
  pub find_lem :
      (s : c.Store) (q : Task → Bool) (limit : ℕ) {ts : List Task}
      → c.find s q limit ≡ some ts
      → ts ≡ (if limit == 0 then find_all q (c.rows s) else take limit (find_all q (c.rows s)))
