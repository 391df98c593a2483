-- ===== src/Adapters/Mongo/Contract.antt =====
-- `MongoQueue` keeps the contract of the send lifecycle, whatever the collection.
use mail_time.Prelude.{
  ℕ, ◌≡◌, refl, ◌∙◌, ◌≢◌, inl, inr, true, false, [], ◌∷◌, ◌++◌, Option, none, some, Bool-cases,
  Option-cases,
}
use mail_time.Task.{
  Task, Update, Lease, MailOption, assign, strip_internal_update_meta, is_send_claim_update,
}
use mail_time.Queue.{
  returned, Effect, Queue, Conforms, Reports, update_guard, updated, remove_guard,
}
use mail_time.Adapters.Rows.{by_id, IsUnique}
use mail_time.Adapters.Mongo.Counts.{
  modified_Effect, claimed_Effect, result-IsUnique, result_other, deleted_Effect, deleted-IsUnique,
  deleted_other, modified_reports, claimed_reports, deleted_reports,
}
use mail_time.Adapters.Mongo.Driver.{Collection, Laws}
use mail_time.Adapters.Mongo.Methods.{
  Instance, timeout_of, update, append, set, remove, lease_query, append_query, set_query,
}
use mail_time.Adapters.Mongo.Guards.{
  Effect-congr, lease_query_lem, set_query_lem, append_guard_lem, update_none, update_some,
  updated-none, updated-some,
}

abbrev pub queue : Collection → Instance → Queue
queue c m = record {
  Store = c.Store;
  Key = ℕ;
  key = λ t. t.id;
  look = λ s i. by_id i (c.rows s);
  IsKey = λ i. Unit {0};
  stored = λ t. t;
  timeout = timeout_of m;
  update = update c m;
  remove = remove c m;
}

module _ (c : Collection) (laws : Laws c) (m : Instance) where
  open (queue c m) use {look}

  append-Effect :
      (s : c.Store) (t : Task) (mo : MailOption)
      → IsUnique (c.rows s)
      → Effect append_query
          (λ r. some (record r { mail_options = r.mail_options ++ mo ∷ [] }))
          (look s t.id)
          (look (append c m s t mo).0 t.id)
          (append c m s t mo).1
  unfolding append
  append-Effect s t mo v =
      modified_Effect t.id append_query _ _ v _ (λ r. refl) _ (laws.update_one_lem s _ _)

  set-Effect :
      (now : ℕ) (s : c.Store) (t : Task) (u : Update)
      → IsUnique (c.rows s)
      → Effect
          (set_query c m now t u)
          (λ r. some (assign r (strip_internal_update_meta u)))
          (look s t.id)
          (look (set c m now s t u).0 t.id)
          (set c m now s t u).1
  unfolding set
  set-Effect now s t u v = elim (Bool-cases (is_send_claim_update u)) [
    | inl e ↦ rw e (
        claimed_Effect t.id (set_query c m now t u) _ _ v _ (λ r. refl) _
          (laws.update_one_lem s _ _))
    | inr e ↦ rw e (
        modified_Effect t.id (set_query c m now t u) _ _ v _ (λ r. refl) _
          (laws.update_one_lem s _ _))
  ]

  update_Effect :
      (now : ℕ) (s : c.Store) (t : Task) (u : Update)
      → IsUnique (c.rows s)
      → Effect
          (update_guard now (timeout_of m) t u)
          (λ r. some (updated u r))
          (look s t.id)
          (look (update c m now s t u).0 t.id)
          (update c m now s t u).1
  update_Effect now s t u v = elim (Option-cases u.append_mail_option) [
    | inl e ↦
        rw (update_none c m now s t u e, updated-none u e)
          (Effect-congr _ _ _ _ _ _ (set_query_lem c m now t u e) (set-Effect now s t u v))
    | inr (mo, e) ↦
        rw (update_some c m now s t u mo e, updated-some u mo e)
          (Effect-congr _ _ _ _ _ _ (append_guard_lem c m now t u mo e) (append-Effect s t mo v))
  ]

  set_reports :
      (now : ℕ) (s : c.Store) (t : Task) (u : Update) (r : Task)
      → IsUnique (c.rows s)
      → look s t.id ≡ some r
      → set_query c m now t u r ≡ true
      → (set c m now s t u).1 ≡ returned false
      → assign r (strip_internal_update_meta u) ≡ r
  unfolding set
  set_reports now s t u r v found y = elim (Bool-cases (is_send_claim_update u)) [
    | inl e ↦ rw e λ h. absurd (
        claimed_reports t.id (set_query c m now t u) _ _ v r found y _ _ (laws.update_one_lem s _ _)
          h)
    | inr e ↦ rw e (
        modified_reports t.id (set_query c m now t u) _ _ v r found y _ _
          (laws.update_one_lem s _ _))
  ]

  append_reports :
      (s : c.Store) (t : Task) (mo : MailOption) (r : Task)
      → IsUnique (c.rows s)
      → look s t.id ≡ some r
      → append_query r ≡ true
      → (append c m s t mo).1 ≡ returned false
      → record r { mail_options = r.mail_options ++ mo ∷ [] } ≡ r
  unfolding append
  append_reports s t mo r v found y =
      modified_reports t.id append_query _ _ v r found y
        (λ x. record x { mail_options = x.mail_options ++ mo ∷ [] }) _ (laws.update_one_lem s _ _)

  update_reports :
      (now : ℕ) (s : c.Store) (t : Task) (u : Update) (r : Task)
      → IsUnique (c.rows s)
      → look s t.id ≡ some r
      → update_guard now (timeout_of m) t u r ≡ true
      → (update c m now s t u).1 ≡ returned false
      → updated u r ≡ r
  update_reports now s t u r v found y = elim (Option-cases u.append_mail_option) [
    | inl e ↦
        rw (update_none c m now s t u e, updated-none u e)
          (set_reports now s t u r v found (set_query_lem c m now t u e r ∙ y))
    | inr (mo, e) ↦
        rw (update_some c m now s t u mo e, updated-some u mo e)
          (append_reports s t mo r v found (append_guard_lem c m now t u mo e r ∙ y))
  ]

  set_keeps :
      (now : ℕ) (s : c.Store) (t : Task) (u : Update)
      → IsUnique (c.rows s)
      → IsUnique (c.rows (set c m now s t u).0)
        × ((k : ℕ) → k ≢ t.id → look (set c m now s t u).0 k ≡ look s k)
  unfolding set
  set_keeps now s t u v = (
    result-IsUnique t.id (set_query c m now t u) _ _ v _ (λ r. refl) _ (laws.update_one_lem s _ _),
    λ k h.
        result_other t.id (set_query c m now t u) _ _ v _ (λ r. refl) _ k
          (laws.update_one_lem s _ _) h,
  )

  append_keeps :
      (s : c.Store) (t : Task) (mo : MailOption)
      → IsUnique (c.rows s)
      → IsUnique (c.rows (append c m s t mo).0)
        × ((k : ℕ) → k ≢ t.id → look (append c m s t mo).0 k ≡ look s k)
  unfolding append
  append_keeps s t mo v = (
    result-IsUnique t.id append_query _ _ v _ (λ r. refl) _ (laws.update_one_lem s _ _),
    λ k h. result_other t.id append_query _ _ v _ (λ r. refl) _ k (laws.update_one_lem s _ _) h,
  )

  update_keeps :
      (now : ℕ) (s : c.Store) (t : Task) (u : Update)
      → IsUnique (c.rows s)
      → IsUnique (c.rows (update c m now s t u).0)
        × ((k : ℕ) → k ≢ t.id → look (update c m now s t u).0 k ≡ look s k)
  update_keeps now s t u v = elim (Option-cases u.append_mail_option) [
    | inl e ↦ rw (update_none c m now s t u e) (set_keeps now s t u v)
    | inr (mo, e) ↦ rw (update_some c m now s t u mo e) (append_keeps s t mo v)
  ]

  -- `remove` under its guard, with or without a lease.
  remove_all :
      (s : c.Store) (t : Task) (l : Option Lease)
      → IsUnique (c.rows s)
      → Effect
          (remove_guard l)
          (λ r. none)
          (look s t.id)
          (look (remove c m s t l).0 t.id)
          (remove c m s t l).1
        × IsUnique (c.rows (remove c m s t l).0)
        × ((k : ℕ) → k ≢ t.id → look (remove c m s t l).0 k ≡ look s k)
        × ((r : Task)
            → look s t.id ≡ some r
            → remove_guard l r ≡ true
            → (remove c m s t l).1 ≢ returned false)
  unfolding remove
  remove_all s t none v = (
    Effect-congr _ _ _ _ _ _ (λ r. refl)
        (deleted_Effect t.id (λ r. true) _ _ v _ (laws.delete_one_lem s _)),
    deleted-IsUnique t.id (λ r. true) _ _ v _ (laws.delete_one_lem s _),
    λ k h. deleted_other t.id (λ r. true) _ _ v _ k (laws.delete_one_lem s _) h,
    λ r found y. deleted_reports t.id (λ r. true) _ _ v r found y _ (laws.delete_one_lem s _),
  )
  remove_all s t (some l) v = (
    Effect-congr _ _ _ _ _ _ (lease_query_lem l)
        (deleted_Effect t.id (lease_query l) _ _ v _ (laws.delete_one_lem s _)),
    deleted-IsUnique t.id (lease_query l) _ _ v _ (laws.delete_one_lem s _),
    λ k h. deleted_other t.id (lease_query l) _ _ v _ k (laws.delete_one_lem s _) h,
    λ r found y.
        deleted_reports t.id (lease_query l) _ _ v r found (lease_query_lem l r ∙ y) _
          (laws.delete_one_lem s _),
  )

-- Over any collection that keeps the driver's documented laws, `MongoQueue` keeps the contract of
-- the queue: a claim, a lease-guarded write, an append, a plain write and a removal each change
-- exactly the row of their task, only under their guard, and answer `true` only then and `false`
-- only if nothing changed; no two rows come to share an `_id`.
pub queue-Conforms :
    (c : Collection)
    → Laws c
    → (m : Instance)
    → Conforms (queue c m) (λ s. IsUnique (c.rows s))
      × Reports (queue c m) (λ s. IsUnique (c.rows s))
queue-Conforms c laws m = (
  record {
    key_ext = λ t t' e f. e;
    stored_lem = λ t. refl;
    update-IsSound = λ now s t u v. (update_keeps c laws m now s t u v).0;
    update_effect = λ now s t u v k. update_Effect c laws m now s t u v;
    update_other = λ now s t u k v i h. (update_keeps c laws m now s t u v).1 k h;
    remove-IsSound = λ s t l v. (remove_all c laws m s t l v).1;
    remove_effect = λ s t l v k. (remove_all c laws m s t l v).0;
    remove_other = λ s t l k v i h. (remove_all c laws m s t l v).2 k h;
  },
  record {
    update_reports = λ now s t u r v k found y. update_reports c laws m now s t u r v found y;
    remove_reports = λ s t l r v k found y. (remove_all c laws m s t l v).3 r found y;
  },
)
