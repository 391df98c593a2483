-- ===== src/MailTime/Send/Effects.antt =====
-- Each way in which an attempt can end is one phase, over any queue that keeps the contract.
use mail_time.Prelude.{
  ℕ, ◌+◌, ◌≡◌, refl, subst, ◌∙◌, Bool, true, false, List, [], ◌∷◌, Option, none, some,
  if◌then◌else◌,
}
use mail_time.Js.Text.{Text}
use mail_time.Js.Value.{Value, truthy}
use mail_time.Task.{Task, MailOption, Update, with_lease}
use mail_time.Queue.{Queue, Conforms, lease_guard, updated}
use mail_time.Helpers.Address.{is_nil}
use mail_time.MailTime.State.{MailTime}
use mail_time.MailTime.Recipients.{finalize_rejected, track_accepted_recipients}
use mail_time.MailTime.Recipients.Finalized.{finalize_rejected_keeps}
use mail_time.MailTime.Errors.{
  Hook, is_true, fail_finalized, give_up, handle_error, failed_update, release_update,
  retry_transport,
}
use mail_time.MailTime.Send.{
  sent_update, partial_update, complete, complete_partial, release_partial, on_accepted,
  on_callback, after_attempt, partial_error, Attempt, calls_back, throws, hangs, accepted_addrs,
  not_accepted,
}
use mail_time.MailTime.Send.Conclude.{leased_update, concluded, conclude-IsSound}
use mail_time.MailTime.Send.Phase.{
  lease_of, IsSane, IsAt, Phase, IsLeaseUpdate, release_Phase, partial_Phase, sent_Phase,
  failed_Phase, still,
}

tracked :
    (t : Task) (addrs : List Text)
    → let t' = track_accepted_recipients t addrs in
      (t'.id ≡ t.id) × (t'.uuid ≡ t.uuid) × (t'.is_sending ≡ t.is_sending)
unfolding track_accepted_recipients
tracked t [] = (refl, refl, refl)
tracked t (a ∷ as') = (refl, refl, refl)

module _ (q : Queue) (IsSound : q.Store → Type 0) (c : Conforms q IsSound) (m : MailTime) where
  -- What a worker leaves behind: the store, its copy of the task, and the hooks that it called.
  abbrev pub Outcome : Type 0
  Outcome = q.Store × Task × List Hook

  -- One phase on the row of `t`, and a store that is still sound.
  abbrev pub IsPhase : q.Store → Task → Outcome → Type 0
  IsPhase s t o = Phase (q.look s (q.key t)) (q.look o.0 (q.key t)) o.2 × IsSound o.0

  branch :
      (s : q.Store) (t : Task) (b : Bool) (s' : q.Store) (t1 t2 : Task) (hooks : List Hook)
      → Phase (q.look s (q.key t)) (q.look s' (q.key t)) (if b then hooks else [])
      → IsSound s'
      → IsPhase s t (if b then (s', t1, hooks) else (s', t2, []))
  branch s t true s' t1 t2 hooks p v = (p, v)
  branch s t false s' t1 t2 hooks p v = (p, v)

  module _ (now : ℕ) (s : q.Store) (sound : IsSound s) where
    complete-IsPhase :
        (t : Task) (info : Value)
        → IsAt q s (q.key t)
        → t.is_sending ≡ true
        → IsPhase s t (complete q m now s t info)
    unfolding complete
    complete-IsPhase t info v held =
        branch s t _ _ _ _ _
          (concluded q IsSound c m now s t (sent_update t) _ sound v held (refl, refl)
            (λ r. sent_Phase t r _))
          (conclude-IsSound q IsSound c m now s t (sent_update t) sound)

    -- The tries, the stamp and the identity of a copy, which its mail options do not change.
    same_key :
        (t : Task) (mos : List MailOption) → q.key (record t { mail_options = mos }) ≡ q.key t
    same_key t mos = c.key_ext _ _ refl refl

    moved : (t t' : Task) (o : Outcome) → q.key t' ≡ q.key t → IsPhase s t' o → IsPhase s t o
    moved t t' o e p = subst (λ k. Phase (q.look s k) (q.look o.0 k) o.2 × IsSound o.0) e p

    fail_finalized-IsPhase :
        (show : Value → Text) (t : Task) (error info : Value)
        → IsAt q s (q.key t)
        → t.is_sending ≡ true
        → IsPhase s t (fail_finalized show q m now s t error info)
    unfolding fail_finalized
    fail_finalized-IsPhase show t error info v held =
        branch s t _ _ _ _ _
          (concluded q IsSound c m now s t (failed_update t) _ sound v held (refl, refl)
            (λ r. failed_Phase t r _))
          (conclude-IsSound q IsSound c m now s t (failed_update t) sound)

    -- Whether the finalization throws or not.
    finalized-IsPhase :
        (show : Value → Text) (t : Task) (info : Value) (error : Task → Value)
        → IsAt q s (q.key t)
        → t.is_sending ≡ true
        → (o : Option Task) → finalize_rejected show t info ≡ o
        → IsPhase s t (elim o [
          | none ↦ (s, t, [])
          | some t' ↦ fail_finalized show q m now s t' (error t') info
        ])
    finalized-IsPhase show t info error v held none e = (still _ v.0, sound)
    finalized-IsPhase show t info error v held (some t') e =
        let kept = finalize_rejected_keeps show t t' info e in
        let k : q.key t' ≡ q.key t = c.key_ext _ _ kept.0 kept.1 in
        moved t t' (fail_finalized show q m now s t' (error t') info) k
          (fail_finalized-IsPhase show t' (error t') info (rw k v) (kept.2 ∙ held))

    complete_partial-IsPhase :
        (show : Value → Text) (t : Task) (info : Value)
        → IsAt q s (q.key t)
        → t.is_sending ≡ true
        → IsPhase s t (complete_partial show q m now s t info)
    unfolding complete_partial
    complete_partial-IsPhase show t info v held =
        finalized-IsPhase show t info (λ t'. partial_error show q m t') v held _ refl

    give_up-IsPhase :
        (show : Value → Text) (t : Task) (error info : Value)
        → IsAt q s (q.key t)
        → t.is_sending ≡ true
        → IsPhase s t (give_up show q m now s t error info)
    unfolding give_up
    give_up-IsPhase show t error info v held =
        finalized-IsPhase show t info (λ t'. error) v held _ refl

    if_same : (b : Bool) (x y : List Hook) → x ≡ y → (if b then x else y) ≡ y
    if_same true x y e = e
    if_same false x y e = refl

    silent :
        (t : Task) (u : Update)
        → IsAt q s (q.key t)
        → t.is_sending ≡ true
        → IsLeaseUpdate u
        → ((r : Task)
            → IsSane (some r)
            → lease_guard (lease_of t) r ≡ true
            → Phase (some r) (some (updated (with_lease t u) r)) [])
        → IsPhase s t ((q.update now s t (with_lease t u)).0, t, [])
    silent t u v held w change = (
      rw (if_same (is_true (q.update now s t (with_lease t u)).1) [] [] refl) at
          (leased_update q IsSound c m now s t u [] sound v held w change),
      c.update-IsSound now s t (with_lease t u) sound,
    )

    either :
        (t : Task) (b : Bool) (x y : Outcome)
        → IsPhase s t x
        → IsPhase s t y
        → IsPhase s t (if b then x else y)
    either t true x y p p' = p
    either t false x y p p' = p'

    release_partial-IsPhase :
        (t : Task)
        → IsAt q s (q.key t)
        → t.is_sending ≡ true
        → IsPhase s t (release_partial q m now s t)
    unfolding release_partial
    release_partial-IsPhase t v held =
        silent t (partial_update (now + m.retry_delay) t) v held (refl, refl)
          (λ r. partial_Phase t r _)

    handle_error-IsPhase :
        (show : Value → Text) (t : Task) (error info : Value)
        → IsAt q s (q.key t)
        → t.is_sending ≡ true
        → IsPhase s t (handle_error show q m now s t error info)
    unfolding handle_error
    handle_error-IsPhase show t error info v held =
        either t _ _ _ (still _ v.0, sound)
          (either t _ _ _ (give_up-IsPhase show t error info v held) (
            silent t (release_update (now + m.retry_delay) (retry_transport m t error info)) v held
              (refl, refl) (λ r. release_Phase t r _ _)))

    on_accepted-IsPhase :
        (show : Value → Text) (t : Task) (info : Value) (addrs : List Text)
        → IsAt q s (q.key t)
        → t.is_sending ≡ true
        → IsPhase s t (on_accepted show q m now s t info addrs)
    unfolding on_accepted
    on_accepted-IsPhase show t info addrs v held =
        let t' = track_accepted_recipients t addrs in
        let k : q.key t' ≡ q.key t = c.key_ext _ _ (tracked t addrs).0 (tracked t addrs).1 in
        let v' : IsAt q s (q.key t') = rw k v in
        let held' : t'.is_sending ≡ true = (tracked t addrs).2 ∙ held in
        either t _ _ _
          (moved t t' (complete q m now s t' info) k (complete-IsPhase t' info v' held'))
          (either t _ _ _
            (moved t t' (complete_partial show q m now s t' info) k
              (complete_partial-IsPhase show t' info v' held'))
            (moved t t' (release_partial q m now s t') k (release_partial-IsPhase t' v' held')))

    on_callback-IsPhase :
        (show : Value → Text) (t : Task) (error info : Value)
        → IsAt q s (q.key t)
        → t.is_sending ≡ true
        → IsPhase s t (on_callback show q m now s t error info)
    unfolding on_callback
    on_callback-IsPhase show t error info v held =
        let failed = λ (e : Value). handle_error show q m now s t e info in
        let accepted = on_accepted show q m now s t info (accepted_addrs info) in
        let answered = if is_nil (accepted_addrs info) then failed not_accepted else accepted in
        either t m.abort_in_flight (s, t, []) (if truthy error then failed error else answered)
          (still _ v.0, sound)
          (either t (truthy error) (failed error) answered
            (handle_error-IsPhase show t error info v held)
            (either t (is_nil (accepted_addrs info)) (failed not_accepted) accepted
              (handle_error-IsPhase show t not_accepted info v held)
              (on_accepted-IsPhase show t info (accepted_addrs info) v held)))

    -- However an attempt ends, over any queue that keeps the contract, the worker that made it
    -- leaves the count of tries of the row, keeps an ended letter ended without calling a hook, and
    -- calls a hook at most once, on a letter that has ended with it.
    pub after_attempt-IsPhase :
        (show : Value → Text) (t : Task) (attempt : Attempt)
        → IsAt q s (q.key t)
        → t.is_sending ≡ true
        → IsPhase s t (after_attempt show q m now s t attempt)
    unfolding after_attempt
    after_attempt-IsPhase show t (calls_back error info) v held =
        on_callback-IsPhase show t error info v held
    after_attempt-IsPhase show t (throws error) v held = handle_error-IsPhase show t error _ v held
    after_attempt-IsPhase show t hangs v held = (still _ v.0, sound)
