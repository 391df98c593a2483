-- ===== src/Adapters/Postgres/Rows.antt =====
-- What an `UPDATE` or a `DELETE` does to the rows: every row that the `WHERE` clause matches.
use native.Mathlib.Decide.{ℕ_discrete}
use mail_time.Prelude.{
  ℕ, ◌+◌, ◌≡◌, ◌≢◌, refl, ap, Bool, false, List, [], ◌∷◌, none, arith, ◌==◌, if◌then◌else◌,
}
use mail_time.Task.{Task, is_some}
use mail_time.Adapters.Rows.{find_first, update_first, delete_first, by_id, id_and, IsUnique}

unfoldable pub update_all : (Task → Bool) → (Task → Task) → List Task → List Task
update_all q f [] = []
update_all q f (r ∷ rs) = let rest = update_all q f rs in if q r then f r ∷ rest else r ∷ rest

unfoldable pub delete_all : (Task → Bool) → List Task → List Task
delete_all q [] = []
delete_all q (r ∷ rs) = let rest = delete_all q rs in if q r then rest else r ∷ rest

unfoldable pub count_all : (Task → Bool) → List Task → ℕ
count_all q [] = 0
count_all q (r ∷ rs) = let n = count_all q rs in if q r then n + 1 else n

module _ (i : ℕ) (g : Task → Bool) where
  none_matches :
      (f : Task → Task) (rs : List Task)
      → by_id i rs ≡ none
      → (update_all (id_and i g) f rs ≡ rs)
        × (delete_all (id_and i g) rs ≡ rs)
        × (count_all (id_and i g) rs ≡ 0)
  unfolding update_all delete_all count_all find_first
  none_matches f [] h = (refl, refl, refl)
  none_matches f (r ∷ rs) h =
      let tail : (r.id == i ≡ false) × (by_id i rs ≡ none) = (ground arith, ground arith) in
      let (a, b, c) = none_matches f rs tail.1 in
      rw tail.0 (ap (λ l. r ∷ l) a, ap (λ l. r ∷ l) b, c)

  -- Of unique ids, a statement on one id touches the first match only.
  pub all_first :
      (f : Task → Task) (rs : List Task)
      → IsUnique rs
      → (update_all (id_and i g) f rs ≡ update_first (id_and i g) f rs)
        × (delete_all (id_and i g) rs ≡ delete_first (id_and i g) rs)
        × (count_all (id_and i g) rs ≡ (if is_some (find_first (id_and i g) rs) then 1 else 0))
  unfolding update_all delete_all count_all find_first update_first delete_first
  all_first f [] u = (refl, refl, refl)
  all_first f (r ∷ rs) u =
      let (a, b, c) = all_first f rs u.1 in
      let others : r.id ≡ i → by_id i rs ≡ none = λ e. rw (← e) u.0 in
      elim (ℕ_discrete r.id i) [
        | yes e ↦
            let (a', b', c') = none_matches f rs (others e) in
            (ground (arith, a, a'), ground (arith, b, b'), ground (arith, c, c'))
        | no ne ↦ (ground (arith, a), ground (arith, b), ground (arith, c))
      ]

-- A statement brings no id to a row, and leaves the rows of other ids alone.
updated_absent :
    (q : Task → Bool) (f : Task → Task) (j : ℕ) (rs : List Task)
    → ((c : Task) → (f c).id ≡ c.id)
    → by_id j rs ≡ none
    → by_id j (update_all q f rs) ≡ none
unfolding update_all find_first
updated_absent q f j [] keeps h = refl
updated_absent q f j (r ∷ rs) keeps h = ground (arith, updated_absent q f j rs keeps, keeps r)

deleted_absent :
    (q : Task → Bool) (j : ℕ) (rs : List Task)
    → by_id j rs ≡ none
    → by_id j (delete_all q rs) ≡ none
unfolding delete_all find_first
deleted_absent q j [] h = refl
deleted_absent q j (r ∷ rs) h = ground (arith, deleted_absent q j rs)

pub update_all-IsUnique :
    (q : Task → Bool) (f : Task → Task) (rs : List Task)
    → ((c : Task) → (f c).id ≡ c.id)
    → IsUnique rs
    → IsUnique (update_all q f rs)
unfolding update_all
update_all-IsUnique q f [] keeps u = tt
update_all-IsUnique q f (r ∷ rs) keeps u =
    ground
      (arith, update_all-IsUnique q f rs keeps u.1, updated_absent q f r.id rs keeps u.0, keeps r)

pub delete_all-IsUnique :
    (q : Task → Bool) (rs : List Task) → IsUnique rs → IsUnique (delete_all q rs)
unfolding delete_all
delete_all-IsUnique q [] u = tt
delete_all-IsUnique q (r ∷ rs) u =
    ground (arith, delete_all-IsUnique q rs u.1, deleted_absent q r.id rs u.0)

pub update_all_other :
    (i : ℕ) (g : Task → Bool) (f : Task → Task) (j : ℕ) (rs : List Task)
    → ((c : Task) → (f c).id ≡ c.id)
    → j ≢ i
    → by_id j (update_all (id_and i g) f rs) ≡ by_id j rs
unfolding update_all find_first
update_all_other i g f j [] keeps h = refl
update_all_other i g f j (r ∷ rs) keeps h =
    ground (arith, update_all_other i g f j rs keeps h, keeps r)

pub delete_all_other :
    (i : ℕ) (g : Task → Bool) (j : ℕ) (rs : List Task)
    → j ≢ i
    → by_id j (delete_all (id_and i g) rs) ≡ by_id j rs
unfolding delete_all find_first
delete_all_other i g j [] h = refl
delete_all_other i g j (r ∷ rs) h = ground (arith, delete_all_other i g j rs h)
