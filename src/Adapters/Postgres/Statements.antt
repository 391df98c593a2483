-- ===== src/Adapters/Postgres/Statements.antt =====
-- What one statement of the PostgreSQL adapter does to the rows, and to those of other ids.
use mail_time.Prelude.{
  ℕ, ◌≡◌, ◌≢◌, refl, sym, ◌∙◌, inl, inr, Bool, true, false, ◌&&◌, List, Option, none, some, arith,
  subst,
}
use mail_time.Task.{Task, Update, assign, strip_internal_update_meta}
use mail_time.Queue.{returned}
use mail_time.Adapters.Rows.{by_id, id_and, IsUnique, find-id_and}
use mail_time.Adapters.Postgres.{Table, is_row_of, has_rows, sets_some}
use mail_time.Adapters.Postgres.Rows.{
  update_all, delete_all, all_first, update_all-IsUnique, delete_all-IsUnique, update_all_other,
  delete_all_other,
}
use mail_time.Adapters.Postgres.Effects.{Changed, Laws, is_row_of_lem}

-- The rows after a statement are those before or those that it makes.
Changed-either :
    (P : List Task → Type 0) (q : Task → Bool) (f : List Task → List Task)
    (before after : List Task) (res : Option ℕ)
    → Changed q f before after res
    → P before
    → P (f before)
    → P after
Changed-either P q f before after none (inl e) x y = subst P (sym e) x
Changed-either P q f before after none (inr e) x y = subst P (sym e) y
Changed-either P q f before after (some n) (e, h) x y = subst P (sym e) y

-- A statement that matches a row does not report that there was none.
Changed-reports :
    (i : ℕ) (g : Task → Bool) (f : List Task → List Task) (before after : List Task)
    (res : Option ℕ) (r : Task)
    → IsUnique before
    → by_id i before ≡ some r
    → g r ≡ true
    → Changed (id_and i g) f before after res
    → has_rows res ≢ returned false
Changed-reports i g f before after none r u found y h e = cc
Changed-reports i g f before after (some n) r u found y (h, m) e =
    let count = m ∙ (all_first i g (λ t. t) before u).2 in
    ground (arith, count, find-id_and i g before u, found, y, e)

-- An update that sets no column changes nothing.
pub assigns_nothing :
    (u : Update) (r : Task) → sets_some u ≡ false → assign r (strip_internal_update_meta u) ≡ r
assigns_nothing u r e = ground arith

abbrev pub where_row : Task → (Task → Bool) → Task → Bool
where_row t g r = is_row_of t r && g r

module _ (c : Table) (laws : Laws c) where
  abbrev look : c.Store → ℕ → Option Task
  look s i = by_id i (c.rows s)

  pub updated_keeps :
      (s : c.Store) (t : Task) (g : Task → Bool) (f : Task → Task)
      → ((r : Task) → (f r).id ≡ r.id)
      → IsUnique (c.rows s)
      → IsUnique (c.rows (c.update_where s (where_row t g) f).0)
        × (t.id ≢ 0 → (k : ℕ) → k ≢ t.id → look (c.update_where s (where_row t g) f).0 k ≡ look s k)
  updated_keeps s t g f same v = (
    Changed-either IsUnique (where_row t g) (update_all (where_row t g) f) _ _ _
        (laws.update_where_lem s (where_row t g) f) v
        (update_all-IsUnique (where_row t g) f (c.rows s) same v),
    λ i k h. rw (is_row_of_lem t g i) (
        Changed-either (λ rs. by_id k rs ≡ look s k) (id_and t.id g) (update_all (id_and t.id g) f)
          _ _ _ (laws.update_where_lem s (id_and t.id g) f) refl
          (update_all_other t.id g f k (c.rows s) same h)),
  )

  pub updated_reports :
      (s : c.Store) (t : Task) (g : Task → Bool) (f : Task → Task) (r : Task)
      → IsUnique (c.rows s)
      → t.id ≢ 0
      → look s t.id ≡ some r
      → g r ≡ true
      → has_rows (c.update_where s (where_row t g) f).1 ≢ returned false
  updated_reports s t g f r v i found y = rw (is_row_of_lem t g i) (
      Changed-reports t.id g (update_all (id_and t.id g) f) _ _ _ r v found y
        (laws.update_where_lem s (id_and t.id g) f))

  pub deleted_keeps :
      (s : c.Store) (t : Task) (g : Task → Bool)
      → IsUnique (c.rows s)
      → IsUnique (c.rows (c.delete_where s (where_row t g)).0)
        × (t.id ≢ 0 → (k : ℕ) → k ≢ t.id → look (c.delete_where s (where_row t g)).0 k ≡ look s k)
  deleted_keeps s t g v = (
    Changed-either IsUnique (where_row t g) (delete_all (where_row t g)) _ _ _
        (laws.delete_where_lem s (where_row t g)) v
        (delete_all-IsUnique (where_row t g) (c.rows s) v),
    λ i k h. rw (is_row_of_lem t g i) (
        Changed-either (λ rs. by_id k rs ≡ look s k) (id_and t.id g) (delete_all (id_and t.id g)) _
          _ _ (laws.delete_where_lem s (id_and t.id g)) refl
          (delete_all_other t.id g k (c.rows s) h)),
  )

  pub deleted_reports :
      (s : c.Store) (t : Task) (g : Task → Bool) (r : Task)
      → IsUnique (c.rows s)
      → t.id ≢ 0
      → look s t.id ≡ some r
      → g r ≡ true
      → has_rows (c.delete_where s (where_row t g)).1 ≢ returned false
  deleted_reports s t g r v i found y = rw (is_row_of_lem t g i) (
      Changed-reports t.id g (delete_all (id_and t.id g)) _ _ _ r v found y
        (laws.delete_where_lem s (id_and t.id g)))
