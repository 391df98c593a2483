-- ===== src/System/Steps.antt =====
-- Every step of the workers of a letter keeps the invariant of `Safety`.
use mail_time.Prelude.{
  ℕ, ◌+◌, ◌≡◌, refl, sym, ap, ◌∙◌, subst, inl, Bool, true, false, [], ◌++◌, Option, none, some,
  arith, if◌then◌else◌,
}
use mail_time.Js.Text.{Text}
use mail_time.Js.Value.{Value}
use mail_time.Task.{Task, Update, MailOption, no_update, is_some}
use mail_time.Queue.{Queue, Conforms, claim_guard, updated, update_guard}
use mail_time.MailTime.State.{MailTime}
use mail_time.MailTime.Renewal.{renew}
use mail_time.MailTime.Send.{claim, claimed, choose_transport, after_attempt}
use mail_time.MailTime.Send.Phase.{
  is_ended, IsSane, IsAt, Phase, Phase-stored, Phase-of_Effect, still,
}
use mail_time.MailTime.Send.Claim.{ClaimPhase, claim_phase, claim_won, renew_phase}
use mail_time.MailTime.Send.Effects.{after_attempt-IsPhase}
use mail_time.MailTime.Transports.{is_healthy_transport}
use mail_time.System.{
  System, set_worker, Step, Reach, claims, chooses, renews, ends, removes, cancels, appends, others,
  start, later,
}
use mail_time.System.Safety.{
  Inv, row, of_Phase, store_Inv, hooks_Inv, drop_Inv, replace_Inv, claim_Inv,
}

choose_transport_keeps :
    (m : MailTime) (t : Task)
    → ((choose_transport m t).id ≡ t.id)
      × ((choose_transport m t).uuid ≡ t.uuid)
      × ((choose_transport m t).is_sending ≡ t.is_sending)
      × ((choose_transport m t).tries ≡ t.tries)
unfolding choose_transport
choose_transport_keeps m t = keeps (is_healthy_transport m t.transport) _
  where
    keeps :
        (b : Bool) (i : ℕ)
        → ((if b then t else record t { transport = i }).id ≡ t.id)
          × ((if b then t else record t { transport = i }).uuid ≡ t.uuid)
          × ((if b then t else record t { transport = i }).is_sending ≡ t.is_sending)
          × ((if b then t else record t { transport = i }).tries ≡ t.tries)
    keeps true i = (refl, refl, refl, refl)
    keeps false i = (refl, refl, refl, refl)

-- What the guard of a claim says of the row.
pub guarded :
    (now timeout tries : ℕ) (r : Task)
    → claim_guard now timeout tries r ≡ true
    → (is_ended (some r) ≡ false) × (r.tries ≡ tries)
guarded now timeout tries r g = (ground arith, ground arith)

module _ (show : Value → Text) (q : Queue) (IsSound : q.Store → Type 0) (c : Conforms q IsSound)
    (m : ℕ → MailTime) (key : q.Key) where
  abbrev pub Good : System q → Type 0
  Good x = Inv q IsSound key x

  pub look-IsAt : (x : System q) (t : Task) → Good x → q.key t ≡ key → IsAt q x.store (q.key t)
  look-IsAt x t v k = rw k (v.sane, v.known)

  claim_step :
      (x : System q) (i now : ℕ) (t : Task)
      → Good x
      → x.worker i ≡ none
      → q.key t ≡ key
      → (o : Option Task) → (claim q (m i) now x.store t).1 ≡ o
      → Good (record {
        store = (claim q (m i) now x.store t).0;
        worker = set_worker x.worker i o;
        attempts = if is_some o then x.attempts + 1 else x.attempts;
        hooks = x.hooks;
      })
  claim_step x i now t v idle k none e =
      let (p, sound) = claim_phase q IsSound c (m i) now x.store t v.sound (look-IsAt x t v k) in
      let p' : ClaimPhase (q.look x.store key) (q.look (claim q (m i) now x.store t).0 key) =
        subst (λ k'. ClaimPhase (q.look x.store k') (q.look (claim q (m i) now x.store t).0 k')) k
          p in
      drop_Inv q IsSound key (record x { store = (claim q (m i) now x.store t).0 }) i
        (store_Inv q IsSound key x _ v sound p')
  claim_step x i now t v idle k (some held) e =
      let (p, sound) = claim_phase q IsSound c (m i) now x.store t v.sound (look-IsAt x t v k) in
      let (r, found, guard, after, copy) =
        claim_won q IsSound c (m i) now x.store t held v.sound (look-IsAt x t v k).1 e in
      let g = guarded now q.timeout t.tries r guard in
      let found' : q.look x.store key ≡ some r = ap (q.look x.store) (sym k) ∙ found in
      let stamped : (held.is_sending ≡ true)
          × (held.tries ≡ t.tries + 1)
          × (held.sending_at ≡ now)
          × (q.key held ≡ q.key t) =
        rw copy (refl, refl, refl, c.key_ext (claimed now t) t refl refl) in
      claim_Inv q IsSound key x i held (claim q (m i) now x.store t).0 r _ v idle sound
        (rw (← k) p.sane) found' (rw found' g.0)
        (sym (ap (q.look (claim q (m i) now x.store t).0) k) ∙ after)
        (ap (λ (h : Task). h.tries) (c.stored_lem _) ∙ sym stamped.1) stamped.0 (stamped.3 ∙ k)
        (rw g.1 (stamped.1))

  updates_Inv :
      (x : System q) (now : ℕ) (t : Task) (u : Update)
      → Good x
      → q.key t ≡ key
      → ((r : Task)
          → IsSane (some r)
          → update_guard now q.timeout t u r ≡ true
          → Phase (some r) (some (updated u r)) [])
      → Good (record x { store = (q.update now x.store t u).0 })
  updates_Inv x now t u v k change =
      store_Inv q IsSound key x _ v (c.update-IsSound now x.store t u v.sound) (
        subst (λ k'. ClaimPhase (q.look x.store k') (q.look (q.update now x.store t u).0 k')) k
          (of_Phase q IsSound key _ _ _ (
            Phase-of_Effect _ _ _ _ _ [] (look-IsAt x t v k).0
              (λ r s g. Phase-stored q IsSound c _ _ [] (change r s g))
              (c.update_effect now x.store t u v.sound (look-IsAt x t v k).1))))

  removes_Inv :
      (x : System q) (t : Task)
      → Good x
      → q.key t ≡ key
      → Good (record x { store = (q.remove x.store t none).0 })
  removes_Inv x t v k = store_Inv q IsSound key x _ v (c.remove-IsSound x.store t none v.sound) (
      subst (λ k'. ClaimPhase (q.look x.store k') (q.look (q.remove x.store t none).0 k')) k
        (of_Phase q IsSound key _ _ _ (
          Phase-of_Effect _ _ _ _ _ [] (look-IsAt x t v k).0 (λ r s g. gone r)
            (c.remove_effect x.store t none v.sound (look-IsAt x t v k).1))))
    where
      gone : (r : Task) → Phase (some r) none []
      gone r = record {
        tries_kept = λ r' e. cc;
        sane = tt;
        stays_ended = λ e. (refl, refl);
        hook_ends = inl refl;
      }

  cancel_row :
      (now : ℕ) (t r : Task)
      → IsSane (some r)
      → Phase (some r) (some (updated (record no_update { is_cancelled = some true }) r)) []
  cancel_row now t r s = record {
    tries_kept = λ r' e. (r, refl, ground arith);
    sane = ground arith;
    stays_ended = λ e. (ground arith, refl);
    hook_ends = inl refl;
  }

  append_row :
      (now : ℕ) (t r : Task) (mo : MailOption)
      → IsSane (some r)
      → Phase (some r) (some (updated (record no_update { append_mail_option = some mo }) r)) []
  append_row now t r mo s = record {
    tries_kept = λ r' e. (r, refl, ground arith);
    sane = ground arith;
    stays_ended = λ e. (ground arith, refl);
    hook_ends = inl refl;
  }

  module _ (Picks : Task → Type 0) where
    Step-Inv : (x y : System q) → Good x → Step show q IsSound m key Picks x y → Good y
    Step-Inv x y v (claims i now t idle k p) = claim_step x i now t v idle k _ refl
    Step-Inv x y v (chooses i t e) =
        let chosen = choose_transport_keeps (m i) t in
        replace_Inv q IsSound key x i t (choose_transport (m i) t) v e (chosen.2 ∙ (v.held i t e).0)
          (c.key_ext _ t chosen.0 chosen.1 ∙ (v.held i t e).1) chosen.3
    Step-Inv x y v (renews i now t r e) =
        let (h, k) = v.held i t e in
        let (p, sound, same_id, same_uuid, h', n) =
          renew_phase q IsSound c (m i) now x.store t r v.sound (look-IsAt x t v k) h in
        let s' = (renew q (m i) now x.store t r).0 in
        let p' : Phase (row q IsSound key x) (q.look s' key) [] =
          subst (λ k'. Phase (q.look x.store k') (q.look s' k') []) k p in
        replace_Inv q IsSound key (record x { store = s' }) i t (renew q (m i) now x.store t r).1
          (store_Inv q IsSound key x s' v sound (of_Phase q IsSound key _ _ _ p')) e h'
          (c.key_ext _ t same_id same_uuid ∙ k) n
    Step-Inv x y v (ends i now t attempt e) =
        let (h, k) = v.held i t e in
        let (p, sound) =
          after_attempt-IsPhase q IsSound c (m i) now x.store v.sound show t attempt
            (look-IsAt x t v k) h in
        let o = after_attempt show q (m i) now x.store t attempt in
        let p' : Phase (row q IsSound key x) (q.look o.0 key) o.2 =
          subst (λ k'. Phase (q.look x.store k') (q.look o.0 k') o.2) k p in
        drop_Inv q IsSound key (record x { store = o.0; hooks = x.hooks ++ o.2 }) i
          (hooks_Inv q IsSound key x o.0 o.2 v sound p')
    Step-Inv x y v (removes t k) = removes_Inv x t v k
    Step-Inv x y v (cancels now t k) = updates_Inv x now t _ v k (λ r s g. cancel_row now t r s)
    Step-Inv x y v (appends now t mo k) =
        updates_Inv x now t _ v k (λ r s g. append_row now t r mo s)
    Step-Inv x y v (others s sound e) = store_Inv q IsSound key x s v sound (
        subst (ClaimPhase (q.look x.store key)) (sym e)
          (of_Phase q IsSound key _ _ _ (still _ v.sane)))

    pub Reach-Inv : (x : System q) → Reach show q IsSound m key Picks x → Good x
    Reach-Inv x (start s sound (sane, known)) = record {
      sound = sound;
      sane = sane;
      known = known;
      held = λ i t e. cc;
      behind = λ i t r e. cc;
      apart = λ i j t u e. cc;
      counted = λ r e. omega arith;
      told = inl refl;
    }
    Reach-Inv y (later {x = x} reach step) = Step-Inv x y (Reach-Inv x reach) step
