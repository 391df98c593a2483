-- ===== src/MailTime/Send/Conclude.antt =====
-- The writes that end an attempt: an update under the lease of the worker, and the one of a letter
-- that is kept or removed.
use mail_time.Prelude.{
  ℕ, ◌≡◌, sym, ◌∙◌, true, List, [], ◌∷◌, some, arith, if◌then◌else◌, Bool-cases, inl, inr,
}
use mail_time.Task.{Task, Update, with_lease, lease_remove_opts}
use mail_time.Queue.{Queue, Conforms, lease_guard, updated}
use mail_time.MailTime.State.{MailTime}
use mail_time.MailTime.Errors.{Hook, is_true, conclude}
use mail_time.MailTime.Send.Phase.{
  lease_of, IsSane, IsAt, Phase, Phase-stored, Phase-of_Effect, IsLeaseUpdate, lease_update_guard,
  remove_Phase,
}

module _ (q : Queue) (IsSound : q.Store → Type 0) (c : Conforms q IsSound) (m : MailTime) where
  -- One lease-guarded update by the worker that holds `t`.
  pub leased_update :
      (now : ℕ) (s : q.Store) (t : Task) (u : Update) (hooks : List Hook)
      → IsSound s
      → IsAt q s (q.key t)
      → t.is_sending ≡ true
      → IsLeaseUpdate u
      → ((r : Task)
          → IsSane (some r)
          → lease_guard (lease_of t) r ≡ true
          → Phase (some r) (some (updated (with_lease t u) r)) hooks)
      → Phase
          (q.look s (q.key t))
          (q.look (q.update now s t (with_lease t u)).0 (q.key t))
          (if is_true (q.update now s t (with_lease t u)).1 then hooks else [])
  leased_update now s t u hooks sound v held w change =
      Phase-of_Effect _ _ _ _ _ hooks v.0
        (λ r v' g.
          Phase-stored q IsSound c _ _ hooks
            (change r v' (sym (lease_update_guard now q.timeout t u r held w) ∙ g)))
        (c.update_effect now s t (with_lease t u) sound v.1)

  lease_remove : (t : Task) → t.is_sending ≡ true → lease_remove_opts t ≡ some (lease_of t)
  lease_remove t held = ground arith

  pub concluded :
      (now : ℕ) (s : q.Store) (t : Task) (u : Update) (hook : Hook)
      → IsSound s
      → IsAt q s (q.key t)
      → t.is_sending ≡ true
      → IsLeaseUpdate u
      → ((r : Task)
          → IsSane (some r)
          → lease_guard (lease_of t) r ≡ true
          → Phase (some r) (some (updated (with_lease t u) r)) (hook ∷ []))
      → Phase
          (q.look s (q.key t))
          (q.look (conclude q m now s t u).0 (q.key t))
          (if is_true (conclude q m now s t u).1 then hook ∷ [] else [])
  unfolding conclude
  concluded now s t u hook sound v held w change = elim (Bool-cases m.keep_history) [
    | inl y ↦ rw y (leased_update now s t u (hook ∷ []) sound v held w change)
    | inr n ↦
        rw (n, lease_remove t held)
          (Phase-of_Effect _ _ _ _ _ (hook ∷ []) v.0
            (λ r v' g. remove_Phase (lease_of t) r hook v' g)
            (c.remove_effect s t (some (lease_of t)) sound v.1))
  ]

  pub conclude-IsSound :
      (now : ℕ) (s : q.Store) (t : Task) (u : Update)
      → IsSound s
      → IsSound (conclude q m now s t u).0
  unfolding conclude
  conclude-IsSound now s t u v = elim (Bool-cases m.keep_history) [
    | inl y ↦ rw y (c.update-IsSound now s t (with_lease t u) v)
    | inr n ↦ rw n (c.remove-IsSound s t (lease_remove_opts t) v)
  ]
