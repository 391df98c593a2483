-- ===== src/MailTime/Send/Wins.antt =====
-- A worker that holds the lease gets its way, over a queue that keeps the contract and reports its
-- changes, when the storage does not throw.
use mail_time.Prelude.{
  ℕ, ◌≡◌, ◌≢◌, refl, sym, ap, ◌∙◌, Bool, true, false, Option, none, some, arith, inl, inr,
  if◌then◌else◌, Bool-cases,
}
use mail_time.Task.{Task, Update, Lease, with_lease, lease_remove_opts}
use mail_time.Queue.{
  Queue, Conforms, Reports, Answer, returned, threw, Effect, lease_guard, updated,
}
use mail_time.MailTime.State.{MailTime}
use mail_time.MailTime.Errors.{conclude}
use mail_time.MailTime.Send.Phase.{lease_of, IsLeaseUpdate, lease_update_guard}

-- No call throws.
pub record Calm (q : Queue) : Type 0 where
  pub updates : (now : ℕ) (s : q.Store) (t : Task) (u : Update) → (q.update now s t u).1 ≢ threw
  pub removes : (s : q.Store) (t : Task) (l : Option Lease) → (q.remove s t l).1 ≢ threw

-- A call under a guard that its row keeps, and that reports no less.
carried_out :
    (g : Task → Bool) (f : Task → Option Task) (b a : Option Task) (answer : Answer) (r : Task)
    → b ≡ some r
    → answer ≢ threw
    → answer ≢ returned false
    → Effect g f b a answer
    → (answer ≡ returned true) × (a ≡ f r)
carried_out g f b a (returned true) r found calm said (r0, e, y, after) =
    let same : r0 ≡ r = cc in (refl, after ∙ ap f same)
carried_out g f b a (returned false) r found calm said e = absurd (said refl)
carried_out g f b a threw r found calm said e = absurd (calm refl)

module _ (q : Queue) (IsSound : q.Store → Type 0) (c : Conforms q IsSound)
    (reports : Reports q IsSound) (calm : Calm q) where
  -- The row that a worker with the copy `t` holds.
  abbrev pub Holds : q.Store → Task → Task → Type 0
  Holds s t r =
      IsSound s
      × q.IsKey (q.key t)
      × (t.is_sending ≡ true)
      × (q.look s (q.key t) ≡ some r)
      × (lease_guard (lease_of t) r ≡ true)

  -- An update that ends the claim changes the row.
  ends_claim :
      (t r : Task) (u : Update)
      → lease_guard (lease_of t) r ≡ true
      → u.append_mail_option ≡ none
      → u.is_sending ≡ some false
      → q.stored (updated (with_lease t u) r) ≢ r
  ends_claim t r u g w h e =
      let held : (updated (with_lease t u) r).is_sending ≡ r.is_sending =
        sym (ap (λ (x : Task). x.is_sending) (c.stored_lem (updated (with_lease t u) r)))
        ∙ ap (λ (x : Task). x.is_sending) e in
      ground (arith, held, g, w, h)

  pub leased_wins :
      (now : ℕ) (s : q.Store) (t r : Task) (u : Update)
      → Holds s t r
      → IsLeaseUpdate u
      → u.is_sending ≡ some false
      → ((q.update now s t (with_lease t u)).1 ≡ returned true)
        × (q.look (q.update now s t (with_lease t u)).0 (q.key t)
            ≡ some (q.stored (updated (with_lease t u) r)))
  leased_wins now s t r u (sound, key, held, found, g) w h =
      let guard = lease_update_guard now q.timeout t u r held w ∙ g in
      carried_out _ _ _ _ _ r found (calm.updates now s t (with_lease t u))
        (λ e.
          ends_claim t r u g w.0 h
            (reports.update_reports now s t (with_lease t u) r sound key found guard e))
        (c.update_effect now s t (with_lease t u) sound key)

  -- What `conclude` leaves of the row.
  abbrev pub concluded_row : MailTime → Task → Update → Task → Option Task
  concluded_row m t u r =
      if m.keep_history then some (q.stored (updated (with_lease t u) r)) else none

  lease_remove : (t : Task) → t.is_sending ≡ true → lease_remove_opts t ≡ some (lease_of t)
  lease_remove t held = ground arith

  pub conclude_wins :
      (m : MailTime) (now : ℕ) (s : q.Store) (t r : Task) (u : Update)
      → Holds s t r
      → IsLeaseUpdate u
      → u.is_sending ≡ some false
      → ((conclude q m now s t u).1 ≡ returned true)
        × (q.look (conclude q m now s t u).0 (q.key t) ≡ concluded_row m t u r)
  unfolding conclude
  conclude_wins m now s t r u (sound, key, held, found, g) w h = elim (Bool-cases m.keep_history) [
    | inl y ↦ rw y (leased_wins now s t r u (sound, key, held, found, g) w h)
    | inr n ↦
        rw (n, lease_remove t held)
          (carried_out _ _ _ _ _ r found (calm.removes s t (some (lease_of t)))
            (reports.remove_reports s t (some (lease_of t)) r sound key found g)
            (c.remove_effect s t (some (lease_of t)) sound key))
  ]
