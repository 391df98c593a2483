-- ===== src/MailTime/Transports/Marked.antt =====
-- What the verification of the transports leaves (`___verifyTransports`).
use native.Mathlib.Nat.{zero-add}
use mail_time.Prelude.{
  ℕ, zero, suc, ◌+◌, ◌<◌, ◌≡◌, refl, ap, ◌∙◌, ◌⊎◌, inl, inr, true, false, not, List, [], ◌∷◌,
  Option, none, some, arith, ◌==◌, if◌then◌else◌, length, get_elem?, Bool-cases,
}
use mail_time.Js.Value.{Value}
use mail_time.MailTime.State.{MailTime}
use mail_time.MailTime.Transports.{
  has_index, is_healthy_transport, next_healthy_transport, mark_unhealthy, Failure, verified,
  verify_transports,
}
use mail_time.MailTime.Transports.Rotation.{next_healthy_transport_healthy}

abbrev AreBelow : ℕ → List ℕ → Type 0
AreBelow i [] = Unit {0}
AreBelow i (x ∷ xs) = (x < i) × AreBelow i xs

below_absent : (i : ℕ) (xs : List ℕ) → AreBelow i xs → has_index xs i ≡ false
unfolding has_index
below_absent i [] h = refl
below_absent i (x ∷ xs) h = ground (arith, below_absent i xs h.1, h.0)

below_more : (i : ℕ) (xs : List ℕ) → AreBelow i xs → AreBelow (suc i) xs
below_more i [] h = tt
below_more i (x ∷ xs) h = (omega (arith, h.0), below_more i xs h.1)

-- Marking from `k` on leaves the indices before `k` alone.
marks_later :
    (k j : ℕ) (rs : List (Option Value)) (un : List ℕ)
    → j < k
    → has_index (mark_unhealthy k rs un).0 j ≡ has_index un j
unfolding mark_unhealthy has_index
marks_later k j [] un h = refl
marks_later k j (none ∷ rs) un h = marks_later (suc k) j rs un (omega (arith, h))
marks_later k j (some e ∷ rs) un h = elim (Bool-cases (has_index un k)) [
  | inl f ↦ rw f (marks_later (suc k) j rs un (omega (arith, h)))
  | inr f ↦ rw f (marks_later (suc k) j rs (k ∷ un) (omega (arith, h)) ∙ ground (arith, h))
]

-- Every transport from `i` on is marked, or one is not.
all_or_one :
    (i : ℕ) (rs : List (Option Value)) (un : List ℕ)
    → AreBelow i un
    → (length (mark_unhealthy i rs un).0 ≡ length un + length rs)
      ⊎ ((j : ℕ) × (j < i + length rs) × (has_index (mark_unhealthy i rs un).0 j ≡ false))
unfolding mark_unhealthy
all_or_one i [] un h = inl (omega arith)
all_or_one i (none ∷ rs) un h =
    inr (i, omega arith, marks_later (suc i) i rs un (omega arith) ∙ below_absent i un h)
all_or_one i (some e ∷ rs) un h =
    rw (below_absent i un h)
      (elim (all_or_one (suc i) rs (i ∷ un) (omega arith, below_more i un h)) [
        | inl f ↦ inl (omega (arith, f))
        | inr (j, lt, f) ↦ inr (j, omega (arith, lt), f)
      ])

unmarked :
    (m : MailTime) (i : ℕ)
    → is_healthy_transport m i ≡ true
    → has_index m.unhealthy_transports i ≡ false
unfolding is_healthy_transport
unmarked m i h = ground (arith, h)

-- A transport that was probed and is not marked passed its probe.
probed :
    (k i : ℕ) (rs : List (Option Value)) (un : List ℕ)
    → i < length rs
    → has_index (mark_unhealthy k rs un).0 (k + i) ≡ false
    → get_elem? rs i ≡ some none
unfolding mark_unhealthy has_index
probed k i [] un h e = absurd (omega (arith, h))
probed k zero (none ∷ rs) un h e = refl
probed k (suc i) (none ∷ rs) un h e =
    let shifted : k + suc i ≡ suc k + i = omega arith in
    probed (suc k) i rs un (omega (arith, h)) (rw shifted at e)
probed k zero (some v ∷ rs) un h e =
    let un' : List ℕ = if has_index un k then un else k ∷ un in
    let here : k + 0 ≡ k = omega arith in
    absurd (ground (arith, marks_later (suc k) k rs un' (omega arith), rw here at e))
probed k (suc i) (some v ∷ rs) un h e =
    let shifted : k + suc i ≡ suc k + i = omega arith in
    probed (suc k) i rs (if has_index un k then un else k ∷ un) (omega (arith, h)) (rw shifted at e)

probed_first :
    (i : ℕ) (rs : List (Option Value)) (un : List ℕ)
    → i < length rs
    → has_index (mark_unhealthy 0 rs un).0 i ≡ false
    → get_elem? rs i ≡ some none
probed_first i rs un h e =
    probed 0 i rs un h (ap (λ j. has_index (mark_unhealthy 0 rs un).0 j) (zero-add i) ∙ e)

module _ (m : MailTime) (results : List (Option Value)) where
  -- The instance with the marks.
  abbrev marked : MailTime
  marked = record m { unhealthy_transports = (mark_unhealthy 0 results m.unhealthy_transports).0 }

  picked :
      (m' : MailTime) (fs : List Failure)
      → verify_transports m results ≡ verified m' fs
      → (not (length marked.unhealthy_transports == length m.transports) ≡ true)
        × (m' ≡ (
            if has_index marked.unhealthy_transports m.transport
            then record marked { transport = next_healthy_transport marked m.transport }
            else marked))
  unfolding verify_transports
  picked m' fs e = elim (Bool-cases (length marked.unhealthy_transports == length m.transports)) [
    | inl f ↦ absurd (ground (arith, e, f))
    | inr f ↦ (ground (arith, f), ground (arith, e, f))
  ]

  -- Of an instance that had marked no transport, with one result for each: the transport that the
  -- verification leaves it with exists, is not marked, and passed its probe.
  pub verify_transports-is_healthy_transport :
      (m' : MailTime) (fs : List Failure)
      → m.unhealthy_transports ≡ []
      → length results ≡ length m.transports
      → m.transport < length m.transports
      → verify_transports m results ≡ verified m' fs
      → (m'.transport < length m'.transports)
        × (is_healthy_transport m' m'.transport ≡ true)
        × (get_elem? results m'.transport ≡ some none)
  unfolding is_healthy_transport
  verify_transports-is_healthy_transport m' fs fresh count first e =
      let (some_left, made) = picked m' fs e in
      elim (all_or_one 0 results m.unhealthy_transports (rw fresh tt)) [
        | inl f ↦ absurd (ground (arith, some_left, f, fresh, count))
        | inr (j, lt, healthy) ↦
            elim (Bool-cases (has_index marked.unhealthy_transports m.transport)) [
              | inr g ↦
                  rw (made, g)
                    (
                      first,
                      ground (arith, g),
                      probed_first m.transport results m.unhealthy_transports
                          (omega (arith, first, count)) g,
                    )
              | inl g ↦
                  let (exists', well) =
                    next_healthy_transport_healthy marked m.transport j first
                      (omega (arith, lt, count)) (ground (arith, healthy)) in
                  rw (made, g)
                    (
                      exists',
                      well,
                      probed_first _ results m.unhealthy_transports (omega (arith, exists', count))
                          (unmarked marked _ well),
                    )
            ]
      ]
