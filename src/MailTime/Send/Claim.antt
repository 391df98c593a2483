-- ===== src/MailTime/Send/Claim.antt =====
-- What a claim and its renewals do to the row.
use mail_time.Prelude.{
  ℕ, ◌+◌, ◌≤◌, ◌≡◌, refl, sym, subst, List, ap, ◌∙◌, Bool, true, false, ◌||◌, Option, none, some,
  leb, arith, if◌then◌else◌, inl, inr, [],
}
use mail_time.Task.{Task, MailOption, with_lease}
use mail_time.Queue.{
  Queue, Conforms, Answer, returned, threw, Effect, lease_guard, update_guard, updated, claim_guard,
}
use mail_time.MailTime.State.{MailTime}
use mail_time.MailTime.Errors.{is_true}
use mail_time.MailTime.Send.{claim, claimed, claim_update, has_ended}
use mail_time.MailTime.Renewal.{Renewal, renew, stamp_update, renewed_at, halt}
use mail_time.MailTime.Send.Conclude.{leased_update}
use mail_time.MailTime.Send.Phase.{lease_of, IsSane, IsAt, is_ended, Phase, still}

pub Effect-true :
    (g : Task → Bool) (f : Task → Option Task) (b a : Option Task) (answer : Answer)
    → is_true answer ≡ true
    → Effect g f b a answer
    → (r : Task) × (b ≡ some r) × (g r ≡ true) × (a ≡ f r)
Effect-true g f b a (returned true) h e = e
Effect-true g f b a (returned false) h e = cc
Effect-true g f b a threw h e = cc

-- What a claim, won or not, leaves in the row: at most one attempt more is counted.
pub record ClaimPhase (b a : Option Task) : Type 0 where
  pub tries_grow :
      (r' : Task)
      → a ≡ some r'
      → (r : Task) × (b ≡ some r) × (r.tries ≤ r'.tries) × (r'.tries ≤ r.tries + 1)
  pub sane : IsSane a
  pub stays_ended : is_ended b ≡ true → is_ended a ≡ true

unclaimed : (b : Option Task) → IsSane b → ClaimPhase b b
unclaimed b v = record {
  tries_grow = λ r e. (r, e, omega arith, omega arith);
  sane = v;
  stays_ended = λ e. e;
}

claim_row :
    (now timeout : ℕ) (t r : Task)
    → IsSane (some r)
    → update_guard now timeout t (claim_update now t) r ≡ true
    → ClaimPhase (some r) (some (updated (claim_update now t) r))
claim_row now timeout t r v g = record {
  tries_grow = λ r' e. (r, refl, ground arith, ground arith);
  sane = ground arith;
  stays_ended = ground arith;
}

-- What the storage makes of a row does not show.
claim_stored :
    (q : Queue) (IsSound : q.Store → Type 0)
    → Conforms q IsSound
    → (b : Option Task) (r : Task) → ClaimPhase b (some r)
    → ClaimPhase b (some (q.stored r))
claim_stored q IsSound c b r p =
    subst (λ x. ClaimPhase b (some x)) (sym (c.stored_lem r)) (kept (q.stored r).mail_options)
  where
    kept : (mos : List MailOption) → ClaimPhase b (some (record r { mail_options = mos }))
    kept mos = record {
      tries_grow = λ r' e.
          let (r0, found, n, n') = p.tries_grow r refl in (r0, found, ground arith, ground arith);
      sane = p.sane;
      stays_ended = p.stays_ended;
    }

ClaimPhase-of_Effect :
    (stored : Task → Task) (now timeout : ℕ) (t : Task) (b a : Option Task) (answer : Answer)
    → IsSane b
    → ((r : Task) → ClaimPhase b (some r) → ClaimPhase b (some (stored r)))
    → Effect
        (update_guard now timeout t (claim_update now t))
        (λ r. some (stored (updated (claim_update now t) r)))
        b
        a
        answer
    → ClaimPhase b a
ClaimPhase-of_Effect stored now timeout t b a (returned true) v keep (r, e, g, e') =
    rw e' (keep _ (rw e (claim_row now timeout t r (rw e at v) g)))
ClaimPhase-of_Effect stored now timeout t b a (returned false) v keep e = rw e (unclaimed b v)
ClaimPhase-of_Effect stored now timeout t b a threw v keep (inl e) = rw e (unclaimed b v)
ClaimPhase-of_Effect stored now timeout t b a threw v keep (inr (r, e, g, e')) =
    rw e' (keep _ (rw e (claim_row now timeout t r (rw e at v) g)))

if_same {ℓ} : {A : Type ℓ} {x : A} (b : Bool) → (if b then x else x) ≡ x
if_same true = refl
if_same false = refl

module _ (q : Queue) (IsSound : q.Store → Type 0) (c : Conforms q IsSound) (m : MailTime) where
  -- The result of the update by which a claim is made.
  abbrev claiming : ℕ → q.Store → Task → q.Store × Answer
  claiming now s t = q.update now s t (claim_update now t)

  abbrev skipped_or : Bool → q.Store → q.Store → Option Task → q.Store × Option Task
  skipped_or b s s' held = if b then (s, none) else (s', held)

  claim_result :
      (now : ℕ) (s : q.Store) (t held : Task)
      → (claim q m now s t).1 ≡ some held
      → (is_true (claiming now s t).1 ≡ true)
        × (held ≡ claimed now t)
        × ((claim q m now s t).0 ≡ (claiming now s t).0)
  unfolding claim
  claim_result now s t held e =
      decide (has_ended t) (is_true (claiming now s t).1) (claiming now s t).0 (claimed now t) e
    where
      decide :
          (b w : Bool) (s' : q.Store) (h : Task)
          → (skipped_or b s s' (if w then some h else none)).1 ≡ some held
          → (w ≡ true) × (held ≡ h) × ((skipped_or b s s' (if w then some h else none)).0 ≡ s')
      decide true w s' h e' = cc
      decide false true s' h e' = (refl, cc, refl)
      decide false false s' h e' = cc

  pub claim_phase :
      (now : ℕ) (s : q.Store) (t : Task)
      → IsSound s
      → IsAt q s (q.key t)
      → ClaimPhase (q.look s (q.key t)) (q.look (claim q m now s t).0 (q.key t))
        × IsSound (claim q m now s t).0
  unfolding claim
  claim_phase now s t sound v = decide (has_ended t) _
    where
      decide :
          (b : Bool) (held : Option Task)
          → ClaimPhase
              (q.look s (q.key t))
              (q.look (skipped_or b s (claiming now s t).0 held).0 (q.key t))
            × IsSound (skipped_or b s (claiming now s t).0 held).0
      decide true held = (unclaimed _ v.0, sound)
      decide false held = (
        ClaimPhase-of_Effect q.stored now q.timeout t _ _ _ v.0 (claim_stored q IsSound c _)
            (c.update_effect now s t (claim_update now t) sound v.1),
        c.update-IsSound now s t (claim_update now t) sound,
      )

  -- Over any queue that keeps the contract, a claim that is won takes a row that is open, has the
  -- tries of the snapshot and is free; the row is then what the storage keeps of that row with the
  -- attempt counted and the claim stamped, and the worker's copy carries the row's lease.
  pub claim_won :
      (now : ℕ) (s : q.Store) (t held : Task)
      → IsSound s
      → q.IsKey (q.key t)
      → (claim q m now s t).1 ≡ some held
      → (row : Task) × (q.look s (q.key t) ≡ some row)
        × (claim_guard now q.timeout t.tries row ≡ true)
        × (q.look (claim q m now s t).0 (q.key t)
            ≡ some (
                q.stored (record row { tries = t.tries + 1; is_sending = true; sending_at = now })))
        × (held ≡ claimed now t)
  claim_won now s t held sound known e =
      let (won, copy, store) = claim_result now s t held e in
      let (row, found, guard, after) =
        Effect-true _ _ _ _ _ won (c.update_effect now s t (claim_update now t) sound known) in
      (row, found, guard, ap (λ s'. q.look s' (q.key t)) store ∙ after, copy)

  renew_row :
      (t r : Task) (stamp : ℕ)
      → IsSane (some r)
      → lease_guard (lease_of t) r ≡ true
      → Phase (some r) (some (updated (with_lease t (stamp_update stamp)) r)) []
  renew_row t r stamp v g = record {
    tries_kept = λ r' e. (r, refl, ground arith);
    sane = ground arith;
    stays_ended = ground arith;
    hook_ends = inl refl;
  }

  -- A renewal is a phase without hooks, and leaves the worker's copy with the same tries.
  abbrev pub IsRenewed : q.Store → Task → q.Store × Task × Renewal → Type 0
  IsRenewed s t o =
      Phase (q.look s (q.key t)) (q.look o.0 (q.key t)) []
      × IsSound o.0
      × (o.1.id ≡ t.id)
      × (o.1.uuid ≡ t.uuid)
      × (o.1.is_sending ≡ true)
      × (o.1.tries ≡ t.tries)

  either :
      (s : q.Store) (t : Task) (b : Bool) (x y : q.Store × Task × Renewal)
      → IsRenewed s t x
      → IsRenewed s t y
      → IsRenewed s t (if b then x else y)
  either s t true x y p p' = p
  either s t false x y p p' = p'

  pub renew_phase :
      (now : ℕ) (s : q.Store) (t : Task) (r : Renewal)
      → IsSound s
      → IsAt q s (q.key t)
      → t.is_sending ≡ true
      → IsRenewed s t (renew q m now s t r)
  unfolding renew
  renew_phase now s t r sound v held =
      let stamp = renewed_at now t in
      let u = stamp_update stamp in
      let s' = (q.update now s t (with_lease t u)).0 in
      let r' = record r { renewals = r.renewals + 1 } in
      let unchanged : IsRenewed s t (s, t, halt r) = (still _ v.0, sound, refl, refl, held, refl) in
      let changed : Phase (q.look s (q.key t)) (q.look s' (q.key t)) [] =
        subst (Phase (q.look s (q.key t)) (q.look s' (q.key t)))
          (if_same (is_true (q.update now s t (with_lease t u)).1))
          (leased_update q IsSound c m now s t u [] sound v held (refl, refl)
            (λ r0. renew_row t r0 stamp)) in
      let sound' = c.update-IsSound now s t (with_lease t u) sound in
      let renewed = λ (w : Bool).
        if◌then◌else◌ {A = q.Store × Task × Renewal} w (s', record t { sending_at = stamp }, r')
          (s', t, halt r') in
      either s t (r.stopped || (m.is_destroyed || m.abort_in_flight)) (s, t, halt r)
        (if leb m.max_renewals r.renewals
          then (s, t, halt r)
          else renewed (is_true (q.update now s t (with_lease t u)).1))
        unchanged
        (either s t (leb m.max_renewals r.renewals) (s, t, halt r)
          (renewed (is_true (q.update now s t (with_lease t u)).1)) unchanged
          (either s t (is_true (q.update now s t (with_lease t u)).1)
            (s', record t { sending_at = stamp }, r') (s', t, halt r')
            (changed, sound', refl, refl, held, refl) (changed, sound', refl, refl, held, refl)))
