-- ===== src/Adapters/Rows.antt =====
-- A collection as the list of its rows: the first row that a query matches, and what an update or
-- a deletion of that row does to the row of a given `id`.
use mail_time.Prelude.{
  ℕ, ◌≡◌, refl, ◌≢◌, Bool, ◌&&◌, List, [], ◌∷◌, Option, none, some, arith, ◌==◌, if◌then◌else◌,
}
use mail_time.Task.{Task}

unfoldable pub find_first : (Task → Bool) → List Task → Option Task
find_first q [] = none
find_first q (r ∷ rs) = if q r then some r else find_first q rs

unfoldable pub update_first : (Task → Bool) → (Task → Task) → List Task → List Task
update_first q f [] = []
update_first q f (r ∷ rs) = if q r then f r ∷ rs else r ∷ update_first q f rs

unfoldable pub delete_first : (Task → Bool) → List Task → List Task
delete_first q [] = []
delete_first q (r ∷ rs) = if q r then rs else r ∷ delete_first q rs

-- Every row that the query matches, in order.
unfoldable pub find_all : (Task → Bool) → List Task → List Task
find_all q [] = []
find_all q (r ∷ rs) = let rest = find_all q rs in if q r then r ∷ rest else rest

abbrev pub by_id : ℕ → List Task → Option Task
by_id i = find_first (λ r. r.id == i)

-- The query of the row `i`, with a condition on it.
abbrev pub id_and : ℕ → (Task → Bool) → Task → Bool
id_and i g r = r.id == i && g r

-- No `id` stands twice.
abbrev pub IsUnique : List Task → Type 0
IsUnique [] = Unit {0}
IsUnique (r ∷ rs) = (by_id r.id rs ≡ none) × IsUnique rs

-- The row that a query of one `id` finds.
abbrev pub guarded : (Task → Bool) → Option Task → Option Task
guarded g none = none
guarded g (some c) = if g c then some c else none

-- The row after an update of it.
abbrev pub after_update : (Task → Bool) → (Task → Option Task) → Option Task → Option Task
after_update g f none = none
after_update g f (some c) = if g c then f c else some c

module _ (i : ℕ) (g : Task → Bool) where
  find_none : (rs : List Task) → by_id i rs ≡ none → find_first (id_and i g) rs ≡ none
  unfolding find_first
  find_none [] h = refl
  find_none (r ∷ rs) h = ground (arith, find_none rs)

  pub find-id_and :
      (rs : List Task) → IsUnique rs → find_first (id_and i g) rs ≡ guarded g (by_id i rs)
  unfolding find_first
  find-id_and [] u = refl
  find-id_and (r ∷ rs) u = ground (arith, find-id_and rs u.1, find_none rs)

  delete_none : (rs : List Task) → by_id i rs ≡ none → delete_first (id_and i g) rs ≡ rs
  unfolding find_first delete_first
  delete_none [] h = refl
  delete_none (r ∷ rs) h = ground (arith, delete_none rs)

  pub by_id-delete :
      (rs : List Task)
      → IsUnique rs
      → by_id i (delete_first (id_and i g) rs) ≡ after_update g (λ c. none) (by_id i rs)
  unfolding find_first delete_first
  by_id-delete [] u = refl
  by_id-delete (r ∷ rs) u = ground (arith, by_id-delete rs u.1, delete_none rs)

  pub by_id-delete_ne :
      (j : ℕ) (rs : List Task) → j ≢ i → by_id j (delete_first (id_and i g) rs) ≡ by_id j rs
  unfolding find_first delete_first
  by_id-delete_ne j [] h = refl
  by_id-delete_ne j (r ∷ rs) h = ground (arith, by_id-delete_ne j rs h)

  by_id-delete_none :
      (j : ℕ) (rs : List Task) → by_id j rs ≡ none → by_id j (delete_first (id_and i g) rs) ≡ none
  unfolding find_first delete_first
  by_id-delete_none j [] h = refl
  by_id-delete_none j (r ∷ rs) h = ground (arith, by_id-delete_none j rs)

  pub delete-IsUnique : (rs : List Task) → IsUnique rs → IsUnique (delete_first (id_and i g) rs)
  unfolding delete_first
  delete-IsUnique [] u = tt
  delete-IsUnique (r ∷ rs) u = ground (arith, delete-IsUnique rs u.1, by_id-delete_none r.id rs u.0)

  module _ (f : Task → Task) (keeps : (c : Task) → (f c).id ≡ c.id) where
    pub by_id-update :
        (rs : List Task)
        → IsUnique rs
        → by_id i (update_first (id_and i g) f rs) ≡ after_update g (λ c. some (f c)) (by_id i rs)
    unfolding find_first update_first
    by_id-update [] u = refl
    by_id-update (r ∷ rs) u = ground (arith, by_id-update rs u.1, keeps r, update_none rs)
      where
        update_none :
            (l : List Task) → by_id i l ≡ none → by_id i (update_first (id_and i g) f l) ≡ none
        update_none [] h = refl
        update_none (c ∷ l) h = ground (arith, update_none l)

    pub by_id-update_ne :
        (j : ℕ) (rs : List Task) → j ≢ i → by_id j (update_first (id_and i g) f rs) ≡ by_id j rs
    unfolding find_first update_first
    by_id-update_ne j [] h = refl
    by_id-update_ne j (r ∷ rs) h = ground (arith, by_id-update_ne j rs h, keeps r)

    by_id-update_none :
        (j : ℕ) (rs : List Task)
        → by_id j rs ≡ none
        → by_id j (update_first (id_and i g) f rs) ≡ none
    unfolding find_first update_first
    by_id-update_none j [] h = refl
    by_id-update_none j (r ∷ rs) h = ground (arith, by_id-update_none j rs, keeps r)

    pub update-IsUnique : (rs : List Task) → IsUnique rs → IsUnique (update_first (id_and i g) f rs)
    unfolding update_first
    update-IsUnique [] u = tt
    update-IsUnique (r ∷ rs) u =
        ground (arith, update-IsUnique rs u.1, by_id-update_none r.id rs u.0, keeps r)
