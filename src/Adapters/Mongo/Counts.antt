-- ===== src/Adapters/Mongo/Counts.antt =====
-- The counts that the driver gives back, read as what happened to the row.
use mail_time.Prelude.{
  ℕ, zero, suc, ◌≤◌, ◌≡◌, refl, ap, ◌∙◌, ◌≢◌, ◌⊎◌, inl, inr, Bool, true, false, List, Option, none,
  some, arith, Bool-cases, leb, ◌==◌, if◌then◌else◌,
}
use mail_time.Task.{Task, is_some}
use mail_time.Queue.{returned, threw, Effect}
use mail_time.Adapters.Rows.{
  find_first, by_id, id_and, IsUnique, guarded, after_update, find-id_and, by_id-update,
  by_id-update_ne, update-IsUnique, by_id-delete, by_id-delete_ne, delete-IsUnique,
}
use mail_time.Adapters.Mongo.Driver.{UpdateResult, DeleteResult}
use mail_time.Adapters.Mongo.Methods.{was_modified, was_claimed, was_deleted}

leb_one : (n : ℕ) → leb 1 (suc n) ≡ true
leb_one n = ground arith

-- The counts of an operation, read as what it did to the row.
pub counts_Effect :
    (g : Task → Bool) (f : Task → Option Task) (b a : Option Task) (n : ℕ)
    → a ≡ after_update g f b
    → n ≤ (if is_some (guarded g b) then 1 else 0)
    → ((c : Task) → guarded g b ≡ some c → n ≡ 0 → f c ≡ some c)
    → Effect g f b a (returned (leb 1 n))
counts_Effect g f none a zero e h same = e
counts_Effect g f none a (suc n) e h same = absurd (omega arith)
counts_Effect g f (some c) a zero e h same = ground (arith, same c)
counts_Effect g f (some c) a (suc n) e h same = elim (Bool-cases (g c)) [
  | inl y ↦ rw (leb_one n) (c, refl, y, ground arith)
  | inr n' ↦ absurd (ground arith)
]

pub maybe_Effect :
    (g : Task → Bool) (f : Task → Option Task) (b a : Option Task)
    → (a ≡ b) ⊎ (a ≡ after_update g f b)
    → Effect g f b a threw
maybe_Effect g f none a h = ground arith
maybe_Effect g f (some c) a (inl e) = inl e
maybe_Effect g f (some c) a (inr e) = elim (Bool-cases (g c)) [
  | inl y ↦ inr (c, refl, y, ground arith)
  | inr n ↦ inl (ground arith)
]

module _ (i : ℕ) (g : Task → Bool) (before after : List Task) (u : IsUnique before) where
  module _ (f : Task → Task) (keeps : (c : Task) → (f c).id ≡ c.id) where
    pub modified_Effect :
        (res : Option (ℕ × ℕ))
        → UpdateResult (id_and i g) f before after res
        → Effect g (λ c. some (f c)) (by_id i before) (by_id i after) (was_modified res)
    modified_Effect none (inl e) = maybe_Effect _ _ _ _ (inl (ap (by_id i) e))
    modified_Effect none (inr e) =
        maybe_Effect _ _ _ _ (inr (rw e (by_id-update i g f keeps before u)))
    modified_Effect (some (matched, modified)) (e, m, le, same, changed) =
        counts_Effect g (λ c. some (f c)) (by_id i before) (by_id i after) modified
          (rw e (by_id-update i g f keeps before u)) (rw (← find-id_and i g before u) (omega arith))
          (λ c h z. ap some (same c (find-id_and i g before u ∙ h) z))

    pub claimed_Effect :
        (res : Option (ℕ × ℕ))
        → UpdateResult (id_and i g) f before after res
        → Effect g (λ c. some (f c)) (by_id i before) (by_id i after) (was_claimed res)
    claimed_Effect none (inl e) = maybe_Effect _ _ _ _ (inl (ap (by_id i) e))
    claimed_Effect none (inr e) =
        maybe_Effect _ _ _ _ (inr (rw e (by_id-update i g f keeps before u)))
    claimed_Effect (some (matched, modified)) (e, m, le, same, changed) =
        counts_Effect g (λ c. some (f c)) (by_id i before) (by_id i after)
          (if modified == 0 then matched else modified) (rw e (by_id-update i g f keeps before u))
          (rw (← find-id_and i g before u) (ground arith))
          (λ c h z. ap some (same c (find-id_and i g before u ∙ h) (ground arith)))

    pub result-IsUnique :
        (res : Option (ℕ × ℕ)) → UpdateResult (id_and i g) f before after res → IsUnique after
    result-IsUnique none (inl e) = rw e u
    result-IsUnique none (inr e) = rw e (update-IsUnique i g f keeps before u)
    result-IsUnique (some (matched, modified)) (e, m, le, same, changed) =
        rw e (update-IsUnique i g f keeps before u)

    pub result_other :
        (res : Option (ℕ × ℕ)) (j : ℕ)
        → UpdateResult (id_and i g) f before after res
        → j ≢ i
        → by_id j after ≡ by_id j before
    result_other none j (inl e) h = ap (by_id j) e
    result_other none j (inr e) h = rw e (by_id-update_ne i g f keeps j before h)
    result_other (some (matched, modified)) j (e, m, le, same, changed) h =
        rw e (by_id-update_ne i g f keeps j before h)

  pub deleted_Effect :
      (res : Option ℕ)
      → DeleteResult (id_and i g) before after res
      → Effect g (λ c. none) (by_id i before) (by_id i after) (was_deleted res)
  deleted_Effect none (inl e) = maybe_Effect _ _ _ _ (inl (ap (by_id i) e))
  deleted_Effect none (inr e) = maybe_Effect _ _ _ _ (inr (rw e (by_id-delete i g before u)))
  deleted_Effect (some n) (e, m) =
      counts_Effect g (λ c. none) (by_id i before) (by_id i after) n
        (rw e (by_id-delete i g before u)) (rw (← find-id_and i g before u) (omega arith))
        (λ c h z. absurd (ground (arith, find-id_and i g before u)))

  pub deleted-IsUnique :
      (res : Option ℕ) → DeleteResult (id_and i g) before after res → IsUnique after
  deleted-IsUnique none (inl e) = rw e u
  deleted-IsUnique none (inr e) = rw e (delete-IsUnique i g before u)
  deleted-IsUnique (some n) (e, m) = rw e (delete-IsUnique i g before u)

  pub deleted_other :
      (res : Option ℕ) (j : ℕ)
      → DeleteResult (id_and i g) before after res
      → j ≢ i
      → by_id j after ≡ by_id j before
  deleted_other none j (inl e) h = ap (by_id j) e
  deleted_other none j (inr e) h = rw e (by_id-delete_ne i g j before h)
  deleted_other (some n) j (e, m) h = rw e (by_id-delete_ne i g j before h)

  module _ (c : Task) (found : by_id i before ≡ some c) (y : g c ≡ true) where
    matched_one : find_first (id_and i g) before ≡ some c
    matched_one = find-id_and i g before u ∙ rw (found, y) refl

    pub modified_reports :
        (f : Task → Task) (res : Option (ℕ × ℕ))
        → UpdateResult (id_and i g) f before after res
        → was_modified res ≡ returned false
        → f c ≡ c
    modified_reports f none r h = absurd (ground arith)
    modified_reports f (some (matched, modified)) (e, m, le, same, changed) h =
        same c matched_one (ground arith)

    pub claimed_reports :
        (f : Task → Task) (res : Option (ℕ × ℕ))
        → UpdateResult (id_and i g) f before after res
        → was_claimed res ≢ returned false
    claimed_reports f none r h = ground arith
    claimed_reports f (some (matched, modified)) (e, m, le, same, changed) h =
        ground (arith, matched_one)

    pub deleted_reports :
        (res : Option ℕ)
        → DeleteResult (id_and i g) before after res
        → was_deleted res ≢ returned false
    deleted_reports none r h = ground arith
    deleted_reports (some n) (e, m) h = ground (arith, matched_one)
