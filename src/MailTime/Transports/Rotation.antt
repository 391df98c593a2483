-- ===== src/MailTime/Transports/Rotation.antt =====
-- Where the rotation lands.
use native.Mathlib.Nat.{add_assoc, mod-add-mod, mod-eq_of_lt, add-mod_right, mod-lt}
use native.Mathlib.Decide.{ℕ_discrete, dec_lt}
use mail_time.Prelude.{
  ℕ, zero, suc, ◌+◌, ◌-◌, ◌%◌, ◌≤◌, ◌<◌, ◌≡◌, refl, ap, ◌∙◌, ◌⊎◌, inl, inr, Bool, true, false,
  arith, ◌==◌, length, Bool-cases,
}
use mail_time.MailTime.State.{MailTime}
use mail_time.MailTime.Transports.{is_healthy_transport, search_healthy, next_healthy_transport}

module _ (m : MailTime) (from_idx : ℕ) where
  abbrev n : ℕ
  n = length m.transports

  -- The transport `i` places after `from_idx`, around the ring.
  abbrev pub place : ℕ → ℕ
  place i = (from_idx + i) % n

  abbrev pub healthy_at : ℕ → Bool
  healthy_at i = is_healthy_transport m (place i)

  -- The first healthy place after the `d` that were tried, among the next `rounds`; or none.
  abbrev pub FirstHealthy : ℕ → ℕ → ℕ → Type 0
  FirstHealthy d rounds next =
      ((k : ℕ) × (d < k)
        × (k ≤ d + rounds)
        × (next ≡ place k)
        × (healthy_at k ≡ true)
        × ((i : ℕ) → d < i → i < k → healthy_at i ≡ false))
      ⊎ ((next ≡ from_idx) × ((i : ℕ) → d < i → i ≤ d + rounds → healthy_at i ≡ false))

  below_or_at :
      (d i : ℕ)
      → healthy_at (d + 1) ≡ false
      → d < i
      → (d + 1 < i → healthy_at i ≡ false)
      → healthy_at i ≡ false
  below_or_at d i x p later = elim (ℕ_discrete i (d + 1)) [
    | yes e ↦ rw e x
    | no ne ↦ later (omega arith)
  ]

  extend :
      (d rounds next : ℕ)
      → healthy_at (d + 1) ≡ false
      → FirstHealthy (d + 1) rounds next
      → FirstHealthy d (suc rounds) next
  extend d rounds next x (inl (k, lo, hi, e, y, before)) =
      inl (k, omega arith, omega arith, e, y, λ i p q. below_or_at d i x p (λ r. before i r q))
  extend d rounds next x (inr (e, before)) =
      inr (e, λ i p q. below_or_at d i x p (λ r. before i r (omega arith)))

  search_healthy_first :
      (rounds d next : ℕ)
      → (next + 1) % n ≡ place (d + 1)
      → FirstHealthy d rounds (search_healthy m from_idx next rounds)
  unfolding search_healthy
  search_healthy_first zero d next e = inr (refl, λ i p q. absurd (omega arith))
  search_healthy_first (suc rounds) d next e = elim (Bool-cases (healthy_at (d + 1))) [
    | inl y ↦
        rw (e, y) (inl (d + 1, omega arith, omega arith, refl, y, λ i p q. absurd (omega arith)))
    | inr x ↦
        rw (e, x)
          (extend d rounds _ x (
            search_healthy_first rounds (d + 1) (place (d + 1)) (
              mod-add-mod (from_idx + (d + 1)) n 1
              ∙ ap (λ (k : ℕ). k % n) (add_assoc from_idx (d + 1) 1))))
  ]

  -- Of at least one transport, the one that is picked is the first healthy one after `from_idx`
  -- around the ring, which comes back to `from_idx` last; where all are unhealthy it is `from_idx`
  -- itself.
  pub next_healthy_transport_first : 0 < n → FirstHealthy 0 n (next_healthy_transport m from_idx)
  unfolding next_healthy_transport
  next_healthy_transport_first h = rw (nonzero n h) (search_healthy_first n 0 from_idx refl)
    where
      nonzero : (k : ℕ) → 0 < k → (k == 0) ≡ false
      nonzero k p = ground arith

  around : (j : ℕ) → from_idx < n → j < n → ¬ (from_idx < j) → place (j + n - from_idx) ≡ j
  around j f h p = ap (λ (k : ℕ). k % n) (omega arith) ∙ add-mod_right j n ∙ mod-eq_of_lt h

  -- Every index stands somewhere on the ring.
  place_of : (j : ℕ) → from_idx < n → j < n → (i : ℕ) × (0 < i) × (i ≤ n) × (place i ≡ j)
  place_of j f h = elim (dec_lt from_idx j) [
    | yes p ↦ (j - from_idx, omega arith, omega arith, grind arith)
    | no p ↦ (j + n - from_idx, omega arith, omega arith, around j f h p)
  ]

  -- If any transport is healthy, the rotation from an existing transport picks one that exists and
  -- is healthy.
  pub next_healthy_transport_healthy :
      (j : ℕ)
      → from_idx < n
      → j < n
      → is_healthy_transport m j ≡ true
      → (next_healthy_transport m from_idx < n)
        × (is_healthy_transport m (next_healthy_transport m from_idx) ≡ true)
  next_healthy_transport_healthy j f h y = elim (next_healthy_transport_first (omega arith)) [
    | inl (k, lo, hi, e, healthy, before) ↦
        (rw e (mod-lt (from_idx + k) (omega arith)), rw e healthy)
    | inr (e, none_healthy) ↦
        let (i, lo, hi, at_j) = place_of j f h in
        absurd (ground (arith, none_healthy i lo (omega arith), ap (is_healthy_transport m) at_j))
  ]
