-- ===== src/System/Safety.antt =====
-- What holds of one letter whatever its workers do, over any queue that keeps the contract.
use native.Mathlib.Decide.{ℕ_discrete}
use mail_time.Prelude.{
  ℕ, ◌+◌, ◌≤◌, ◌≡◌, refl, sym, ap, ◌∙◌, ◌⊎◌, inl, inr, true, false, List, [], ◌++◌, Option, none,
  some, arith, length, append-nil,
}
use mail_time.Task.{Task}
use mail_time.Queue.{Queue}
use mail_time.MailTime.Errors.{Hook}
use mail_time.MailTime.Send.Phase.{is_ended, IsSane, Phase}
use mail_time.MailTime.Send.Claim.{ClaimPhase}
use mail_time.System.{System, set_worker}

module _ (q : Queue) (IsSound : q.Store → Type 0) (key : q.Key) where
  -- The letter's row.
  abbrev pub row : System q → Option Task
  row x = q.look x.store key

  -- Every copy that a worker holds was claimed, no two with the same count of tries, and none with
  -- more than the row counts; a letter whose end was told has ended.
  pub record Inv (x : System q) : Type 0 where
    pub sound : IsSound x.store
    pub sane : IsSane (row x)
    pub known : q.IsKey key
    pub held : (i : ℕ) (t : Task) → x.worker i ≡ some t → (t.is_sending ≡ true) × (q.key t ≡ key)
    pub behind : (i : ℕ) (t r : Task) → x.worker i ≡ some t → row x ≡ some r → t.tries ≤ r.tries
    pub apart :
        (i j : ℕ) (t u : Task)
        → x.worker i ≡ some t
        → x.worker j ≡ some u
        → t.tries ≡ u.tries
        → i ≡ j
    pub counted : (r : Task) → row x ≡ some r → x.attempts ≤ r.tries
    pub told : (x.hooks ≡ []) ⊎ ((is_ended (row x) ≡ true) × (length x.hooks ≡ 1))

  pub of_Phase : (b a : Option Task) (hooks : List Hook) → Phase b a hooks → ClaimPhase b a
  of_Phase b a hooks p = record {
    tries_grow = λ r e. let (r0, f, n) = p.tries_kept r e in (r0, f, omega arith, omega arith);
    sane = p.sane;
    stays_ended = λ e. (p.stays_ended e).0;
  }

  -- A change of the store that takes no attempt back.
  pub store_Inv :
      (x : System q) (s : q.Store)
      → Inv x
      → IsSound s
      → ClaimPhase (row x) (q.look s key)
      → Inv (record x { store = s })
  store_Inv x s v sound p = record {
    sound = sound;
    sane = p.sane;
    known = v.known;
    held = v.held;
    behind =
        λ i t r e f. let (r0, f0, n, n') = p.tries_grow r f in omega (arith, v.behind i t r0 e f0);
    apart = v.apart;
    counted = λ r f. let (r0, f0, n, n') = p.tries_grow r f in omega (arith, v.counted r0 f0);
    told = elim v.told [ inl e ↦ inl e | inr (e, n) ↦ inr (p.stays_ended e, n) ];
  }

  -- An attempt that ends: one more phase, with its hooks.
  pub hooks_Inv :
      (x : System q) (s : q.Store) (hooks : List Hook)
      → Inv x
      → IsSound s
      → Phase (row x) (q.look s key) hooks
      → Inv (record x { store = s; hooks = x.hooks ++ hooks })
  hooks_Inv x s hooks v sound p =
      let w = store_Inv x s v sound (of_Phase _ _ hooks p) in
      record {
        sound = w.sound;
        sane = w.sane;
        known = w.known;
        held = w.held;
        behind = w.behind;
        apart = w.apart;
        counted = w.counted;
        told = elim v.told [
          | inl e ↦ rw e p.hook_ends
          | inr (e, n) ↦
              let (ended, silent) = p.stays_ended e in
              inr (ended, rw (silent, append-nil x.hooks) n)
        ];
      }

  -- A worker that lets its copy go.
  pub drop_Inv :
      (x : System q) (i : ℕ) → Inv x → Inv (record x { worker = set_worker x.worker i none })
  drop_Inv x i v = record {
    sound = v.sound;
    sane = v.sane;
    known = v.known;
    held = λ j t e. v.held j t (kept j t e);
    behind = λ j t r e f. v.behind j t r (kept j t e) f;
    apart = λ j k t u e f. v.apart j k t u (kept j t e) (kept k u f);
    counted = v.counted;
    told = v.told;
  }
    where
      kept : (j : ℕ) (t : Task) → set_worker x.worker i none j ≡ some t → x.worker j ≡ some t
      kept j t e = ground arith

  -- A worker whose copy changes in nothing that counts.
  pub replace_Inv :
      (x : System q) (i : ℕ) (t t' : Task)
      → Inv x
      → x.worker i ≡ some t
      → t'.is_sending ≡ true
      → q.key t' ≡ key
      → t'.tries ≡ t.tries
      → Inv (record x { worker = set_worker x.worker i (some t') })
  replace_Inv x i t t' v e h k n = record {
    sound = v.sound;
    sane = v.sane;
    known = v.known;
    held = λ j u f. let (u0, o, n', a, b) = origin j u f in (a, b);
    behind =
        λ j u r f g. let (u0, o, n', a, b) = origin j u f in omega (arith, v.behind j u0 r o g);
    apart = λ j l u w f g o.
        let (u0, p, n1, a, b) = origin j u f in
        let (w0, p', n2, a', b') = origin l w g in v.apart j l u0 w0 p p' (omega arith);
    counted = v.counted;
    told = v.told;
  }
    where
      -- What worker `j` now holds stands for what it held.
      origin :
          (j : ℕ) (u : Task)
          → set_worker x.worker i (some t') j ≡ some u
          → (u0 : Task) × (x.worker j ≡ some u0)
            × (u.tries ≡ u0.tries)
            × (u.is_sending ≡ true)
            × (q.key u ≡ key)
      origin j u f = elim (ℕ_discrete i j) [
        | yes p ↦
            let same : t' ≡ u = ground arith in
            (t, ap x.worker (sym p) ∙ e, rw (← same) n, rw (← same) h, rw (← same) k)
        | no ne ↦
            let old : x.worker j ≡ some u = ground arith in
            (u, old, refl, (v.held j u old).0, (v.held j u old).1)
      ]

  -- A worker without a copy that wins a claim.
  pub claim_Inv :
      (x : System q) (i : ℕ) (t : Task) (s : q.Store) (r r1 : Task)
      → Inv x
      → x.worker i ≡ none
      → IsSound s
      → IsSane (q.look s key)
      → row x ≡ some r
      → is_ended (row x) ≡ false
      → q.look s key ≡ some r1
      → r1.tries ≡ t.tries
      → t.is_sending ≡ true
      → q.key t ≡ key
      → t.tries ≡ r.tries + 1
      → Inv (record x {
        store = s;
        worker = set_worker x.worker i (some t);
        attempts = x.attempts + 1;
      })
  claim_Inv x i t s r r1 v idle sound sane found open' after counts h k n = record {
    sound = sound;
    sane = sane;
    known = v.known;
    held = λ j u f. elim (origin j u f) [
      | inl o ↦ v.held j u o
      | inr (p, same) ↦ (rw (← same) h, rw (← same) k)
    ];
    behind = λ j u r' f g. elim (origin j u f) [
      | inl o ↦ ground (arith, v.behind j u r o found)
      | inr (p, same) ↦ ground arith
    ];
    apart = λ j l u w f g o. elim (origin j u f) [
      | inl a ↦ elim (origin l w g) [
        | inl b ↦ v.apart j l u w a b o
        | inr (p, same) ↦ absurd (late j u w a same o)
      ]
      | inr (p, same) ↦ elim (origin l w g) [
        | inl b ↦ absurd (late l w u b same (sym o))
        | inr (p', same') ↦ sym p ∙ p'
      ]
    ];
    counted = λ r' g. ground (arith, v.counted r found);
    told = elim v.told [ inl e ↦ inl e | inr (e, n') ↦ absurd (ground arith) ];
  }
    where
      origin :
          (j : ℕ) (u : Task)
          → set_worker x.worker i (some t) j ≡ some u
          → (x.worker j ≡ some u) ⊎ ((i ≡ j) × (t ≡ u))
      origin j u f = ground arith

      -- A copy from before the claim is behind the new one.
      late : (j : ℕ) (u w : Task) → x.worker j ≡ some u → t ≡ w → u.tries ≡ w.tries → ⊥
      late j u w a same o = ground (arith, v.behind j u r a found)
