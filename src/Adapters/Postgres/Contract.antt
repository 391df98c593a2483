-- ===== src/Adapters/Postgres/Contract.antt =====
-- `PostgresQueue` keeps the contract of the send lifecycle, for the tasks that have an id.
use mail_time.Prelude.{
  ℕ, ◌≡◌, ◌≢◌, refl, ◌∙◌, inl, inr, true, false, [], ◌∷◌, ◌++◌, Option, none, some, Bool-cases,
  ◌==◌, if◌then◌else◌,
}
use mail_time.Task.{Task, Update, Lease, MailOption, assign, strip_internal_update_meta}
use mail_time.Queue.{Queue, Conforms, Reports, returned, update_guard, updated, remove_guard}
use mail_time.Adapters.Rows.{by_id, IsUnique}
use mail_time.Adapters.Mongo.{Instance}
use mail_time.Adapters.Mongo.Guards.{updated-none}
use mail_time.Adapters.Postgres.{
  Table, append_where, set_where, lease_where, append, set, update, remove, sets_some,
}
use mail_time.Adapters.Postgres.Effects.{
  Laws, lease_where_lem, update_split, set_where_lem, append_guard_lem, update-Effect,
  remove-Effect,
}
use mail_time.Adapters.Postgres.Statements.{
  assigns_nothing, updated_keeps, updated_reports, deleted_keeps, deleted_reports,
}

-- The id of a task that has none is 0.
abbrev pub table_queue : Table → Instance → Queue
table_queue c m = record {
  Store = c.Store;
  Key = ℕ;
  key = λ t. t.id;
  look = λ s i. by_id i (c.rows s);
  IsKey = λ i. i ≢ 0;
  stored = λ t. t;
  timeout = if m.sending_timeout == 0 then 300000 else m.sending_timeout;
  update = update c m;
  remove = remove c m;
}

module _ (c : Table) (laws : Laws c) (m : Instance) where
  open (table_queue c m) use {look}

  set_keeps :
      (now : ℕ) (s : c.Store) (t : Task) (u : Update)
      → IsUnique (c.rows s)
      → IsUnique (c.rows (set c m now s t u).0)
        × (t.id ≢ 0 → (k : ℕ) → k ≢ t.id → look (set c m now s t u).0 k ≡ look s k)
  unfolding set
  set_keeps now s t u v = elim (Bool-cases (sets_some u)) [
    | inr e ↦ rw e (v, λ i k h. refl)
    | inl e ↦ rw e (
        updated_keeps c laws s t (set_where c m now t u)
          (λ r. assign r (strip_internal_update_meta u)) (λ r. refl) v)
  ]

  append_keeps :
      (s : c.Store) (t : Task) (mo : MailOption)
      → IsUnique (c.rows s)
      → IsUnique (c.rows (append c m s t mo).0)
        × (t.id ≢ 0 → (k : ℕ) → k ≢ t.id → look (append c m s t mo).0 k ≡ look s k)
  unfolding append
  append_keeps s t mo v =
      updated_keeps c laws s t append_where
        (λ r. record r { mail_options = r.mail_options ++ mo ∷ [] }) (λ r. refl) v

  update_keeps :
      (now : ℕ) (s : c.Store) (t : Task) (u : Update)
      → IsUnique (c.rows s)
      → IsUnique (c.rows (update c m now s t u).0)
        × (t.id ≢ 0 → (k : ℕ) → k ≢ t.id → look (update c m now s t u).0 k ≡ look s k)
  update_keeps now s t u v = elim (update_split c m now s t u) [
    | inl (e, call) ↦ rw call (set_keeps now s t u v)
    | inr (mo, e, call) ↦ rw call (append_keeps s t mo v)
  ]

  remove_keeps :
      (s : c.Store) (t : Task) (l : Option Lease)
      → IsUnique (c.rows s)
      → IsUnique (c.rows (remove c m s t l).0)
        × (t.id ≢ 0 → (k : ℕ) → k ≢ t.id → look (remove c m s t l).0 k ≡ look s k)
  unfolding remove
  remove_keeps s t none v = deleted_keeps c laws s t (λ r. true) v
  remove_keeps s t (some l) v = deleted_keeps c laws s t (lease_where l) v

  set_reports :
      (now : ℕ) (s : c.Store) (t : Task) (u : Update) (r : Task)
      → IsUnique (c.rows s)
      → t.id ≢ 0
      → look s t.id ≡ some r
      → set_where c m now t u r ≡ true
      → (set c m now s t u).1 ≡ returned false
      → assign r (strip_internal_update_meta u) ≡ r
  unfolding set
  set_reports now s t u r v i found y = elim (Bool-cases (sets_some u)) [
    | inr e ↦ λ h. assigns_nothing u r e
    | inl e ↦ rw e λ h. absurd (
        updated_reports c laws s t (set_where c m now t u)
          (λ x. assign x (strip_internal_update_meta u)) r v i found y h)
  ]

  append_reports :
      (s : c.Store) (t : Task) (mo : MailOption) (r : Task)
      → IsUnique (c.rows s)
      → t.id ≢ 0
      → look s t.id ≡ some r
      → append_where r ≡ true
      → (append c m s t mo).1 ≢ returned false
  unfolding append
  append_reports s t mo r v i found y =
      updated_reports c laws s t append_where
        (λ x. record x { mail_options = x.mail_options ++ mo ∷ [] }) r v i found y

  update_reports :
      (now : ℕ) (s : c.Store) (t : Task) (u : Update) (r : Task)
      → IsUnique (c.rows s)
      → t.id ≢ 0
      → look s t.id ≡ some r
      → update_guard now (table_queue c m).timeout t u r ≡ true
      → (update c m now s t u).1 ≡ returned false
      → updated u r ≡ r
  update_reports now s t u r v i found y = elim (update_split c m now s t u) [
    | inl (e, call) ↦
        rw (call, updated-none u e)
          (set_reports now s t u r v i found (set_where_lem c laws m now t u e r ∙ y))
    | inr (mo, e, call) ↦ rw call λ h.
        absurd (append_reports s t mo r v i found (append_guard_lem c laws m now t u mo e r ∙ y) h)
  ]

  remove_reports :
      (s : c.Store) (t : Task) (l : Option Lease) (r : Task)
      → IsUnique (c.rows s)
      → t.id ≢ 0
      → look s t.id ≡ some r
      → remove_guard l r ≡ true
      → (remove c m s t l).1 ≢ returned false
  unfolding remove
  remove_reports s t none r v i found y = deleted_reports c laws s t (λ x. true) r v i found y
  remove_reports s t (some l) r v i found y =
      deleted_reports c laws s t (lease_where l) r v i found (lease_where_lem l r ∙ y)

-- Over any table that keeps what PostgreSQL documents of `UPDATE` and `DELETE`, `PostgresQueue`
-- keeps the contract of the queue for the tasks that have an id: a claim, a lease-guarded write, an
-- append, a plain write and a removal each change exactly the row of their task, only under their
-- guard, and answer `true` only then and `false` only if nothing changed; no two rows come to share
-- an id.
pub table_queue-Conforms :
    (c : Table)
    → Laws c
    → (m : Instance)
    → Conforms (table_queue c m) (λ s. IsUnique (c.rows s))
      × Reports (table_queue c m) (λ s. IsUnique (c.rows s))
table_queue-Conforms c laws m = (
  record {
    key_ext = λ t t' e f. e;
    stored_lem = λ t. refl;
    update-IsSound = λ now s t u v. (update_keeps c laws m now s t u v).0;
    update_effect = λ now s t u v i. update-Effect c laws m now s t u v i;
    update_other = λ now s t u k v i h. (update_keeps c laws m now s t u v).1 i k h;
    remove-IsSound = λ s t l v. (remove_keeps c laws m s t l v).0;
    remove_effect = λ s t l v i. remove-Effect c laws m s t l v i;
    remove_other = λ s t l k v i h. (remove_keeps c laws m s t l v).1 i k h;
  },
  record {
    update_reports = λ now s t u r v i found y. update_reports c laws m now s t u r v i found y;
    remove_reports = λ s t l r v i found y. remove_reports c laws m s t l r v i found y;
  },
)
