-- ===== src/Adapters/Postgres/Effects.antt =====
-- What one call of the PostgreSQL adapter does to the row of a task that has an id, over a table
-- that keeps what the PostgreSQL manual says of `UPDATE` and `DELETE`: one statement changes every
-- row that its `WHERE` clause matches and counts them; one that threw may have been carried out.
use mail_time.Prelude.{
  ℕ, ◌≡◌, refl, ap, ◌∙◌, ◌≢◌, ◌⊎◌, inl, inr, Bool, true, ◌&&◌, List, ◌∷◌, ◌++◌, [], Option, none,
  some, arith, Bool-cases, Option-cases, ◌==◌, if◌then◌else◌, fun_ext,
}
use mail_time.Task.{Task, Update, Lease, MailOption, assign, strip_internal_update_meta}
use mail_time.Queue.{Effect, update_guard, updated, remove_guard, lease_guard, append_guard}
use mail_time.Adapters.Rows.{
  by_id, id_and, IsUnique, after_update, find-id_and, by_id-update, by_id-delete,
}
use mail_time.Adapters.Mongo.{Instance}
use mail_time.Adapters.Mongo.Counts.{counts_Effect, maybe_Effect}
use mail_time.Adapters.Mongo.Guards.{Effect-congr, updated-none, updated-some}
use mail_time.Adapters.Postgres.{
  Table, is_row_of, has_rows, append_where, set_where, claim_where, lease_where, append, set,
  update, remove, sets_some,
}
use mail_time.Adapters.Postgres.Rows.{update_all, delete_all, count_all, all_first}

abbrev pub Changed :
    (Task → Bool) → (List Task → List Task) → List Task → List Task → Option ℕ → Type 0
Changed q f before after none = (after ≡ before) ⊎ (after ≡ f before)
Changed q f before after (some n) = (after ≡ f before) × (n ≡ count_all q before)

pub record Laws (c : Table) : Type 0 where
  pub update_where_lem :
      (s : c.Store) (q : Task → Bool) (f : Task → Task)
      → Changed q
          (update_all q f)
          (c.rows s)
          (c.rows (c.update_where s q f).0)
          (c.update_where s q f).1
  pub delete_where_lem :
      (s : c.Store) (q : Task → Bool)
      → Changed q (delete_all q) (c.rows s) (c.rows (c.delete_where s q).0) (c.delete_where s q).1

module _ (i : ℕ) (g : Task → Bool) (before after : List Task) (u : IsUnique before) where
  Changed-Effect :
      (h : List Task → List Task) (f : Task → Option Task) (res : Option ℕ)
      → by_id i (h before) ≡ after_update g f (by_id i before)
      → Changed (id_and i g) h before after res
      → Effect g f (by_id i before) (by_id i after) (has_rows res)
  Changed-Effect h f none e (inl r) = maybe_Effect _ _ _ _ (inl (ap (by_id i) r))
  Changed-Effect h f none e (inr r) = maybe_Effect _ _ _ _ (inr (ap (by_id i) r ∙ e))
  Changed-Effect h f (some n) e (r, m) =
      let count = m ∙ (all_first i g (λ t. t) before u).2 in
      counts_Effect g f (by_id i before) (by_id i after) n (ap (by_id i) r ∙ e)
        (rw (← find-id_and i g before u) (omega (arith, count)))
        (λ c found z. absurd (ground (arith, count, find-id_and i g before u)))

  pub update_where-Effect :
      (f : Task → Task) (res : Option ℕ)
      → ((c : Task) → (f c).id ≡ c.id)
      → Changed (id_and i g) (update_all (id_and i g) f) before after res
      → Effect g (λ c. some (f c)) (by_id i before) (by_id i after) (has_rows res)
  update_where-Effect f res keeps =
      Changed-Effect (update_all (id_and i g) f) (λ c. some (f c)) res
        (ap (by_id i) (all_first i g f before u).0 ∙ by_id-update i g f keeps before u)

  pub delete_where-Effect :
      (res : Option ℕ)
      → Changed (id_and i g) (delete_all (id_and i g)) before after res
      → Effect g (λ c. none) (by_id i before) (by_id i after) (has_rows res)
  delete_where-Effect res =
      Changed-Effect (delete_all (id_and i g)) (λ c. none) res
        (ap (by_id i) (all_first i g (λ t. t) before u).1 ∙ by_id-delete i g before u)

-- The row of a task that has an id.
pub is_row_of_lem :
    (t : Task) (g : Task → Bool) → t.id ≢ 0 → (λ r. is_row_of t r && g r) ≡ id_and t.id g
is_row_of_lem t g ne = fun_ext (λ r. ground arith)

append_where_lem : (r : Task) → append_where r ≡ append_guard r
unfolding append_where
append_where_lem r = ground arith

pub lease_where_lem : (l : Lease) (r : Task) → lease_where l r ≡ lease_guard l r
unfolding lease_where
lease_where_lem l r = ground arith

pub update_split :
    (c : Table) (m : Instance) (now : ℕ) (s : c.Store) (t : Task) (u : Update)
    → ((u.append_mail_option ≡ none) × (update c m now s t u ≡ set c m now s t u))
      ⊎ ((mo : MailOption) × (u.append_mail_option ≡ some mo)
          × (update c m now s t u ≡ append c m s t mo))
unfolding update
update_split c m now s t u = elim (Option-cases u.append_mail_option) [
  | inl e ↦ inl (e, ground arith)
  | inr (mo, e) ↦ inr (mo, e, ground arith)
]

module _ (c : Table) (laws : Laws c) (m : Instance) where
  abbrev pub timeout : ℕ
  timeout = if m.sending_timeout == 0 then 300000 else m.sending_timeout

  pub set_where_lem :
      (now : ℕ) (t : Task) (u : Update)
      → u.append_mail_option ≡ none
      → (r : Task) → set_where c m now t u r ≡ update_guard now timeout t u r
  unfolding set_where claim_where lease_where
  set_where_lem now t u e r = ground arith

  pub append_guard_lem :
      (now : ℕ) (t : Task) (u : Update) (mo : MailOption)
      → u.append_mail_option ≡ some mo
      → (r : Task) → append_where r ≡ update_guard now timeout t u r
  unfolding append_where
  append_guard_lem now t u mo e r = ground arith

  append-Effect :
      (s : c.Store) (t : Task) (mo : MailOption)
      → IsUnique (c.rows s)
      → t.id ≢ 0
      → Effect append_where
          (λ r. some (record r { mail_options = r.mail_options ++ mo ∷ [] }))
          (by_id t.id (c.rows s))
          (by_id t.id (c.rows (append c m s t mo).0))
          (append c m s t mo).1
  unfolding append
  append-Effect s t mo v ne =
      rw (is_row_of_lem t append_where ne)
        (update_where-Effect t.id append_where _ _ v _ _ (λ r. refl) (laws.update_where_lem s _ _))

  set-Effect :
      (now : ℕ) (s : c.Store) (t : Task) (u : Update)
      → IsUnique (c.rows s)
      → t.id ≢ 0
      → Effect
          (set_where c m now t u)
          (λ r. some (assign r (strip_internal_update_meta u)))
          (by_id t.id (c.rows s))
          (by_id t.id (c.rows (set c m now s t u).0))
          (set c m now s t u).1
  unfolding set
  set-Effect now s t u v ne = elim (Bool-cases (sets_some u)) [
    | inl e ↦
        rw (e, is_row_of_lem t (set_where c m now t u) ne)
          (update_where-Effect t.id (set_where c m now t u) _ _ v _ _ (λ r. refl)
            (laws.update_where_lem s _ _))
    | inr e ↦ rw e refl
  ]

  -- Over any table that keeps what PostgreSQL documents of `UPDATE` and holds no id twice, `update`
  -- of a task with an id changes the row of that id to what the contract of the queue says and
  -- answers `true`, only under the contract's guard; it answers `false` only if the row is as it
  -- was, and if it throws the row is as it was or changed so.
  pub update-Effect :
      (now : ℕ) (s : c.Store) (t : Task) (u : Update)
      → IsUnique (c.rows s)
      → t.id ≢ 0
      → Effect
          (update_guard now timeout t u)
          (λ r. some (updated u r))
          (by_id t.id (c.rows s))
          (by_id t.id (c.rows (update c m now s t u).0))
          (update c m now s t u).1
  update-Effect now s t u v ne = elim (update_split c m now s t u) [
    | inl (e, call) ↦
        rw (call, updated-none u e)
          (Effect-congr _ _ _ _ _ _ (set_where_lem now t u e) (set-Effect now s t u v ne))
    | inr (mo, e, call) ↦
        rw (call, updated-some u mo e)
          (Effect-congr _ _ _ _ _ _ (append_guard_lem now t u mo e) (append-Effect s t mo v ne))
  ]

  -- Over any table that keeps what PostgreSQL documents of `DELETE` and holds no id twice, `remove`
  -- of a task with an id deletes the row of that id and answers `true`, only if the lease that was
  -- passed, if any, still matches; it answers `false` only if the row is as it was, and if it
  -- throws the row is as it was or gone.
  pub remove-Effect :
      (s : c.Store) (t : Task) (l : Option Lease)
      → IsUnique (c.rows s)
      → t.id ≢ 0
      → Effect
          (remove_guard l)
          (λ r. none)
          (by_id t.id (c.rows s))
          (by_id t.id (c.rows (remove c m s t l).0))
          (remove c m s t l).1
  unfolding remove
  remove-Effect s t none v ne =
      Effect-congr _ _ _ _ _ _ (λ r. refl)
        (rw (is_row_of_lem t (λ r. true) ne)
          (delete_where-Effect t.id (λ r. true) _ _ v _ (laws.delete_where_lem s _)))
  remove-Effect s t (some l) v ne = Effect-congr _ _ _ _ _ _ (lease_where_lem l) (
      rw (is_row_of_lem t (lease_where l) ne)
        (delete_where-Effect t.id (lease_where l) _ _ v _ (laws.delete_where_lem s _)))
