-- ===== src/Adapters/Setup/Prefixes.antt =====
-- The prefixes of the queues.
use mail_time.Prelude.{
  ◌≡◌, refl, sym, ap, ◌∙◌, Bool, true, false, not, some, arith, if◌then◌else◌, Option-cases, inl,
  inr,
}
use mail_time.Js.Text.{Text}
use mail_time.Js.Value.{Value}
use mail_time.Adapters.Redis.Keys.{apply_prefix}
use mail_time.Adapters.Setup.{
  Setup, made, refused, no_options, no_connection, no_boolean, no_valid_prefix, new_redis_queue,
  ensure_prefix, unique_name, accepts_prefix, is_some_name,
}

-- What has been made has passed the last check.
checked :
    (a b c d : Bool) (x s : Setup)
    → (if a
        then refused no_options
        else if b
        then refused no_connection
        else if c
        then refused no_boolean
        else if not d
        then refused no_valid_prefix
        else made x)
      ≡ made s
    → (d ≡ true) × (x ≡ s)
checked true b c d x s e = cc
checked false true c d x s e = cc
checked false false true d x s e = cc
checked false false false false x s e = cc
checked false false false true x s e = (refl, cc)

accepted :
    (opts : Value) (s : Setup)
    → new_redis_queue opts ≡ made s
    → accepts_prefix s.use_hash_tags s.prefix ≡ true
unfolding new_redis_queue
accepted opts s e =
    let (passed, same) = checked _ _ _ _ _ s e in
    ap (λ (x : Setup). accepts_prefix x.use_hash_tags x.prefix) (sym same) ∙ passed

-- A `RedisQueue` that was constructed with a prefix keeps it, whatever the prefix of the instance
-- that it comes to belong to, and its later calls do not throw for it.
pub new_redis_queue-unique_name :
    (opts : Value) (s : Setup) (p instance_prefix : Text)
    → new_redis_queue opts ≡ made s
    → s.prefix ≡ some p
    → (n : Text) × (unique_name s instance_prefix ≡ some n)
      × (apply_prefix s.use_hash_tags p ≡ some n)
unfolding unique_name ensure_prefix
new_redis_queue-unique_name opts s p instance_prefix e given =
    let ok : is_some_name (apply_prefix s.use_hash_tags p) ≡ true =
      ap (accepts_prefix s.use_hash_tags) (sym given) ∙ accepted opts s e in
    elim (Option-cases (apply_prefix s.use_hash_tags p)) [
      | inl f ↦ absurd (ground (arith, ok, f))
      | inr (n, f) ↦ (n, rw given f, f)
    ]
