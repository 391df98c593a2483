-- ===== src/MailTime/Send/Failover.antt =====
-- index.js, `___handleError` and `___mayFailOver`: when a failed attempt is retried on another
-- transport, described without the code's tests.
use native.Mathlib.Nat.{mul-mod_left, div-add-mod'}
use mail_time.Prelude.{
  ℕ, ◌*◌, ◌/◌, ◌%◌, ◌<◌, ◌≡◌, ◌≢◌, refl, ◌∙◌, Bool, true, false, not, ◌&&◌, Option, none, some,
  arith, ltb, ◌==◌, if◌then◌else◌, Bool-cases, Option-cases, inl, inr, length,
}
use mail_time.Js.Text.{lit}
use mail_time.Js.Value.{Value, bool, prop}
use mail_time.Task.{Task}
use mail_time.MailTime.State.{MailTime, Strategy, backup, balancer}
use mail_time.MailTime.Errors.{retry_transport, may_fail_over, is_false, is_backup}
use mail_time.MailTime.Transports.{next_healthy_transport}
use mail_time.MailTime.Transports.Rotation.{FirstHealthy, next_healthy_transport_first}

-- The policy answered, and not `false`; without a policy, the error does not say `mayFailOver: false`.
abbrev Allowed : Option (Value → Value → Task → Option Value) → Value → Value → Task → Type 0
Allowed none error info t = prop (lit "mayFailOver") error ≢ bool false
Allowed (some policy) error info t = (v : Value) × (policy error info t ≡ some v) × (v ≢ bool false)

abbrev pub Moves : MailTime → Task → Value → Value → Type 0
Moves m t error info =
    (m.strategy ≡ backup)
    × (1 < length m.transports)
    × ((k : ℕ) × (t.tries ≡ k * m.fails_to_next))
    × Allowed m.should_fail_over error info t

is_false-bool : (v : Value) → is_false v ≡ true → v ≡ bool false
is_false-bool (bool false) e = refl
is_false-bool v e = cc

not_false : (v : Value) → v ≢ bool false → is_false v ≡ false
not_false v ne = elim (Bool-cases (is_false v)) [
  | inl e ↦ absurd (ne (is_false-bool v e))
  | inr e ↦ e
]

ne_false : (v : Value) → is_false v ≡ false → v ≢ bool false
ne_false v e f = cc

-- The policy, apart from the instance.
abbrev allows : Option (Value → Value → Task → Option Value) → Value → Value → Task → Bool
allows o error info t = elim o [
  | none ↦ not (is_false (prop (lit "mayFailOver") error))
  | some policy ↦ elim (policy error info t) [ none ↦ false | some v ↦ not (is_false v) ]
]

allows-Allowed :
    (o : Option (Value → Value → Task → Option Value)) (error info : Value) (t : Task)
    → Allowed o error info t
    → allows o error info t ≡ true
allows-Allowed none error info t a = rw (not_false _ a) refl
allows-Allowed (some policy) error info t (v, e, ne) = rw (e, not_false v ne) refl

Allowed-allows :
    (o : Option (Value → Value → Task → Option Value)) (error info : Value) (t : Task)
    → allows o error info t ≡ true
    → Allowed o error info t
Allowed-allows none error info t e = ne_false _ (ground (arith, e))
Allowed-allows (some policy) error info t e = elim (Option-cases (policy error info t)) [
  | inl f ↦ absurd (ground (arith, e, f))
  | inr (v, f) ↦ (v, f, ne_false v (ground (arith, e, f)))
]

backup_is : (s : Strategy) → is_backup s ≡ true → s ≡ backup
backup_is backup e = refl
backup_is balancer e = cc

multiple : (n f k : ℕ) → 0 < f → n ≡ k * f → n % f ≡ 0
multiple n f k h e = rw e (mul-mod_left k f)

whole : (n f : ℕ) → n % f ≡ 0 → n ≡ n / f * f
whole n f e = omega (arith, e, div-add-mod' n f)

module _ (m : MailTime) (t : Task) (error info : Value) (some_fails : 0 < m.fails_to_next) where
  abbrev tests : Bool
  tests =
      is_backup m.strategy
      && (ltb 1 (length m.transports)
          && (t.tries % m.fails_to_next == 0 && allows m.should_fail_over error info t))

  by_tests :
      retry_transport m t error info
      ≡ (if tests then next_healthy_transport m t.transport else t.transport)
  unfolding retry_transport may_fail_over
  by_tests = refl

  Moves-tests : Moves m t error info → tests ≡ true
  Moves-tests (b, n, (k, e), a) =
      rw (b, multiple t.tries m.fails_to_next k some_fails e, allows-Allowed _ error info t a)
        (ground (arith, n))

  tests-Moves : tests ≡ true → Moves m t error info
  tests-Moves e = (
    backup_is m.strategy (ground (arith, e)),
    ground (arith, e),
    (t.tries / m.fails_to_next, whole t.tries m.fails_to_next (ground (arith, e))),
    Allowed-allows _ error info t (ground (arith, e)),
  )

  -- The transport of the next attempt moves on exactly if it may, and then to the first healthy one.
  pub retry_transport_lem :
      (Moves m t error info
        → FirstHealthy m t.transport 0 (length m.transports) (retry_transport m t error info))
      × (¬ Moves m t error info → retry_transport m t error info ≡ t.transport)
  retry_transport_lem = (
    λ v.
        rw (by_tests, Moves-tests v)
          (next_healthy_transport_first m t.transport (omega (arith, v.1))),
    λ ne. elim (Bool-cases tests) [
      | inl e ↦ absurd (ne (tests-Moves e))
      | inr e ↦ by_tests ∙ rw e refl
    ],
  )
