-- ===== src/MailTime/Transports.antt =====
-- index.js: rotation among the transports (`___isHealthyTransport`, `___nextHealthyTransport`)
-- and the marking of those that fail verification (`___verifyTransports`).
pub mod Rotation
pub mod Marked
use mail_time.Prelude.{
  ℕ, zero, suc, ◌+◌, ◌%◌, ◌≤◌, ◌<◌, ◌≡◌, refl, ◌⊎◌, inl, inr, Bool, true, false, not, ◌&&◌, ◌||◌,
  List, [], ◌∷◌, Option, none, some, arith, ◌==◌, if◌then◌else◌, length, Bool-cases,
}
use mail_time.Js.Value.{Value}
use mail_time.MailTime.State.{MailTime}

-- `Set<number>.has`.
unfoldable pub has_index : List ℕ → ℕ → Bool
has_index [] i = false
has_index (x ∷ xs) i = x == i || has_index xs i

unfoldable pub is_healthy_transport : MailTime → ℕ → Bool
is_healthy_transport m i = not (has_index m.unhealthy_transports i)

-- The loop: `rounds` turns are left, `next` is the last index tried.
unfoldable pub search_healthy : MailTime → ℕ → ℕ → ℕ → ℕ
search_healthy m from_idx next zero = from_idx
search_healthy m from_idx next (suc rounds) =
    let i = (next + 1) % length m.transports in
    let rest = search_healthy m from_idx i rounds in if is_healthy_transport m i then i else rest

unfoldable pub next_healthy_transport : MailTime → ℕ → ℕ
unfolding search_healthy
next_healthy_transport m from_idx =
    if length m.transports == 0
    then from_idx
    else search_healthy m from_idx from_idx (length m.transports)

-- What `verify()` of each transport came to: `none` without a `verify` method or on success, an
-- error otherwise. The failures are what `onError` is called with.
pub data Failure : Type 0 where
  failure : ℕ → Value → Failure

unfoldable pub mark_unhealthy : ℕ → List (Option Value) → List ℕ → List ℕ × List Failure
mark_unhealthy i [] unhealthy = (unhealthy, [])
mark_unhealthy i (none ∷ rs) unhealthy = mark_unhealthy (suc i) rs unhealthy
mark_unhealthy i (some e ∷ rs) unhealthy =
    let (set, fs) =
      mark_unhealthy (suc i) rs (if has_index unhealthy i then unhealthy else i ∷ unhealthy) in
    (set, failure i e ∷ fs)

pub data Verified : Type 0 where
  verified : MailTime → List Failure → Verified
  all_failed : List Failure → Verified

unfoldable pub verify_transports : MailTime → List (Option Value) → Verified
unfolding mark_unhealthy is_healthy_transport next_healthy_transport
verify_transports m results =
    let (unhealthy, fs) = mark_unhealthy 0 results m.unhealthy_transports in
    let m' = record m { unhealthy_transports = unhealthy } in
    if length unhealthy == length m.transports
    then all_failed fs
    else verified
        (if has_index unhealthy m.transport
          then record m' { transport = next_healthy_transport m' m.transport }
          else m')
        fs
