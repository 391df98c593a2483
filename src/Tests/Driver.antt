-- ===== src/Tests/Driver.antt =====
-- A driver to run the tests over: a collection that is a list of rows, with ids counted up.
use native.Mathlib.Decide.{ℕ_discrete}
use mail_time.Prelude.{
  ℕ, ◌+◌, ◌≤◌, ◌≡◌, refl, Bool, false, List, [], ◌∷◌, ◌++◌, Option, none, some, arith, ◌==◌,
  if◌then◌else◌, take, max,
}
use mail_time.Js.Text.{Text, text_eq}
use mail_time.Js.Value.{Value, str, arr}
use mail_time.Task.{Task, is_some}
use mail_time.Adapters.Rows.{find_first, update_first, delete_first, find_all, by_id}
use mail_time.Adapters.Mongo.{Collection, Laws, any_str}

unfoldable pub task-discrete : Discrete Task
task-discrete = hlevel ℕ_discrete

unfoldable pub above : List Task → ℕ
above [] = 1
above (r ∷ rs) = let n = above rs in max (r.id + 1) n

unfoldable pub count_changed : {t t' : Task} → Dec (t' ≡ t) → ℕ
count_changed (yes p) = 0
count_changed (no p) = 1

unfoldable pub changed : (Task → Task) → Option Task → ℕ
changed f none = 0
changed f (some c) = count_changed (task-discrete (f c) c)

unfoldable pub matches : Text → Value → Bool
matches s (str t) = text_eq s t
matches s (arr xs) = any_str s xs
matches s _ = false

abbrev pub list_collection : Collection
list_collection = record {
  Store = List Task;
  rows = λ s. s;
  field_matches = matches;
  new_id = above;
  insert_one = λ s t. s ++ record t { id = above s } ∷ [];
  find = λ s q limit. some (if limit == 0 then find_all q s else take limit (find_all q s));
  find_one = λ s q. some (find_first q s);
  update_one = λ s q f. (
    update_first q f s,
    some (if is_some (find_first q s) then 1 else 0, changed f (find_first q s)),
  );
  delete_one = λ s q. (delete_first q s, some (if is_some (find_first q s) then 1 else 0));
}

above_fresh : (i : ℕ) (s : List Task) → above s ≤ i → by_id i s ≡ none
unfolding above find_first
above_fresh i [] h = refl
above_fresh i (r ∷ rs) h = ground (arith, above_fresh i rs)

update_result :
    (q : Task → Bool) (f : Task → Task) (s : List Task) (o : Option Task)
    → ((changed f o ≤ (if is_some o then 1 else 0)))
      × ((c : Task) → o ≡ some c → changed f o ≡ 0 → f c ≡ c)
      × ((c : Task) → o ≡ some c → f c ≡ c → changed f o ≡ 0)
unfolding changed count_changed
update_result q f s none = (omega arith, λ c e. cc, λ c e. cc)
update_result q f s (some d) =
    let (a, b, c) = changes (f d) d (task-discrete (f d) d) in
    (a, λ c' e. grind (arith, b), λ c' e. grind (arith, c))
  where
    changes :
        (t' t : Task) (dec : Dec (t' ≡ t))
        → (count_changed dec ≤ 1)
          × (count_changed dec ≡ 0 → t' ≡ t)
          × (t' ≡ t → count_changed dec ≡ 0)
    changes t' t (yes p) = (omega arith, λ e. p, λ e. refl)
    changes t' t (no p) = (omega arith, λ e. absurd (omega (arith, e)), λ e. absurd (p e))

pub list_collection-Laws : Laws list_collection
unfolding matches
list_collection-Laws = record {
  field_matches-str = λ s t. refl;
  field_matches-arr = λ s xs. refl;
  new_id-fresh = λ s. above_fresh (above s) s (omega arith);
  insert_one_lem = λ s t. refl;
  update_one_lem =
      λ s q f. let (a, b, c) = update_result q f s (find_first q s) in (refl, refl, a, b, c);
  delete_one_lem = λ s q. (refl, refl);
  find_one_lem = λ s q e. cc;
  find_lem = λ s q limit e. cc;
}
