-- ===== src/MailTime/Renewal/Ticks.antt =====
-- index.js, `___startClaimRenewal`: the timer over its whole life.
use mail_time.Prelude.{
  ℕ, ◌+◌, ◌≤◌, ◌≡◌, refl, ◌⊎◌, inl, inr, true, false, ◌||◌, List, [], ◌∷◌, arith, length, leb,
  Bool-cases, ap, ◌∙◌,
}
use mail_time.Task.{Task, with_lease}
use mail_time.Queue.{Queue}
use mail_time.MailTime.State.{MailTime}
use mail_time.MailTime.Renewal.{Renewal, renew, stamp_update, renewed_at}
use mail_time.MailTime.Errors.{is_true}

module _ (q : Queue) (m : MailTime) where
  -- One tick at each time, each after what the others did to the store meanwhile.
  unfoldable pub ticks :
      List (ℕ × (q.Store → q.Store)) → q.Store → Task → Renewal → q.Store × Task × Renewal
  unfolding renew
  ticks [] s t r = (s, t, r)
  ticks ((now, meanwhile) ∷ rest) s t r =
      let (s', t', r') = renew q m now (meanwhile s) t r in ticks rest s' t' r'

  abbrev renewal : q.Store × Task × Renewal → Renewal
  renewal p = p.2

  -- A tick ends the timer or counts one renewal, of which there are never too many.
  one_tick :
      (now : ℕ) (s : q.Store) (t : Task) (r : Renewal)
      → r.renewals ≤ m.max_renewals
      → ((renewal (renew q m now s t r)).renewals ≤ m.max_renewals)
        × (((renewal (renew q m now s t r)).stopped ≡ true)
            ⊎ ((renewal (renew q m now s t r)).renewals ≡ r.renewals + 1))
  unfolding renew
  one_tick now s t r h = elim (Bool-cases (r.stopped || (m.is_destroyed || m.abort_in_flight))) [
    | inl e ↦ rw e (h, inl refl)
    | inr e ↦ elim (Bool-cases (leb m.max_renewals r.renewals)) [
      | inl f ↦ rw (e, f) (h, inl refl)
      | inr f ↦
          rw (e, f)
            (elim (Bool-cases
              (is_true (q.update now s t (with_lease t (stamp_update (renewed_at now t)))).1)) [
                | inl g ↦ rw g (room f, inr refl)
                | inr g ↦ rw g (room f, inl refl)
              ])
    ]
  ]
    where
      room : leb m.max_renewals r.renewals ≡ false → r.renewals + 1 ≤ m.max_renewals
      room f = ground (arith, f)

  stays_stopped :
      (now : ℕ) (s : q.Store) (t : Task) (r : Renewal)
      → r.stopped ≡ true
      → renew q m now s t r ≡ (s, t, r)
  unfolding renew
  stays_stopped now s t r h = rw h refl

  all_stopped :
      (l : List (ℕ × (q.Store → q.Store))) (s : q.Store) (t : Task) (r : Renewal)
      → r.stopped ≡ true
      → r.renewals ≤ m.max_renewals
      → ((renewal (ticks l s t r)).stopped ≡ true)
        × ((renewal (ticks l s t r)).renewals ≤ m.max_renewals)
  unfolding ticks
  all_stopped [] s t r h k = (h, k)
  all_stopped ((now, meanwhile) ∷ rest) s t r h k =
      all_stopped rest _ _ _ (ap (λ p. p.2.stopped) (stays_stopped now (meanwhile s) t r h) ∙ h)
        (one_tick now (meanwhile s) t r k).0

  -- Whatever the other processes do, and whatever the storage answers, the timer that renews a
  -- claim has stopped after more ticks than the renewals that are left to it, and it has renewed
  -- the claim at most `maxRenewals` times.
  pub ticks_stop :
      (l : List (ℕ × (q.Store → q.Store))) (s : q.Store) (t : Task) (r : Renewal)
      → r.renewals ≤ m.max_renewals
      → m.max_renewals + 1 ≤ r.renewals + length l
      → ((ticks l s t r).2.stopped ≡ true) × ((ticks l s t r).2.renewals ≤ m.max_renewals)
  unfolding ticks
  ticks_stop [] s t r h k = absurd (omega (arith, h, k))
  ticks_stop ((now, meanwhile) ∷ rest) s t r h k =
      let (bound, next) = one_tick now (meanwhile s) t r h in
      elim next [
        | inl stopped ↦ all_stopped rest _ _ _ stopped bound
        | inr counted ↦ ticks_stop rest _ _ _ bound (omega (arith, counted, k))
      ]
