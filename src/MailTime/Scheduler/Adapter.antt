-- ===== src/MailTime/Scheduler/Adapter.antt =====
-- The options that the constructor passes to an adapter of the scheduler.
use mail_time.Prelude.{
  ◌≡◌, Bool, refl, ap, ◌∙◌, inl, inr, true, false, not, ◌&&◌, arith, if◌then◌else◌, Bool-cases,
}
use mail_time.Js.Text.{Text, lit, text_eq, text_eq_iff}
use mail_time.Js.Value.{Value, undefined, str, Fields, end, field, get, put, prop, has_own, get-put}
use mail_time.Helpers.Merge.{AreKeysDistinct}
use mail_time.MailTime.Options.{is_bool}
use mail_time.MailTime.Scheduler.{spread, own, queue_name, adapter_options}

get-spread :
    (j : Text) (target source : Fields)
    → AreKeysDistinct source
    → get j (spread target source) ≡ (if has_own j source then get j source else get j target)
unfolding spread get has_own
get-spread j target end d = refl
get-spread j target (field k v rest) d = elim (Bool-cases (text_eq k j)) [
  | inl e ↦
      let same : k ≡ j = ground (arith, text_eq_iff k j) in
      let later : has_own j rest ≡ false = rw (← same) d.0 in
      get-spread j (put k v target) rest d.1 ∙ rw (later, e, get-put k j v target, e) refl
  | inr e ↦ get-spread j (put k v target) rest d.1 ∙ rw (e, get-put k j v target, e) refl
]

-- The queue's name is the prefix of an adapter that has none of its own.
abbrev pub adapter_option : Text → Value → Text → Value
adapter_option prefix josk k =
    let adapter = own (prop (lit "adapter") josk) in
    if has_own k adapter
    then get k adapter
    else if text_eq (lit "prefix") k
    then str (queue_name prefix)
    else undefined

spread_option :
    (prefix : Text) (josk : Value) (k : Text)
    → AreKeysDistinct (own (prop (lit "adapter") josk))
    → get k (
        spread
          (field (lit "prefix") (str (queue_name prefix)) end)
          (own (prop (lit "adapter") josk)))
      ≡ adapter_option prefix josk k
unfolding get
spread_option prefix josk k d = get-spread k _ (own (prop (lit "adapter") josk)) d

get-put_if :
    (r k : Text) (b : Bool) (v x : Value) (fs : Fields)
    → get k fs ≡ x
    → get k (if b then put r v fs else fs) ≡ (if text_eq r k && b then v else x)
get-put_if r k true v x fs e = ground (arith, get-put r k v fs, e)
get-put_if r k false v x fs e = ground (arith, e)

-- Of the options that the constructor builds for an adapter of the scheduler whose options have no
-- property twice: `resetOnInit` is that of `josk` where that is a Boolean and the adapter's own is
-- not; every other option is the adapter's own if it has it, and otherwise `prefix` is the name of
-- this queue.
pub get-adapter_options :
    (prefix : Text) (josk : Value) (k : Text)
    → AreKeysDistinct (own (prop (lit "adapter") josk))
    → get k (adapter_options prefix josk) ≡ (
        if text_eq (lit "resetOnInit") k
          && (is_bool (prop (lit "resetOnInit") josk)
              && not (is_bool (adapter_option prefix josk (lit "resetOnInit"))))
        then prop (lit "resetOnInit") josk
        else adapter_option prefix josk k)
unfolding adapter_options
get-adapter_options prefix josk k d =
    let options =
      spread (field (lit "prefix") (str (queue_name prefix)) end)
        (own (prop (lit "adapter") josk)) in
    let reset = prop (lit "resetOnInit") josk in
    get-put_if (lit "resetOnInit") k
      (is_bool reset && not (is_bool (get (lit "resetOnInit") options))) reset
      (adapter_option prefix josk k) options (spread_option prefix josk k d)
    ∙ ap
        (λ v.
          if text_eq (lit "resetOnInit") k && (is_bool reset && not (is_bool v))
          then reset
          else adapter_option prefix josk k)
        (spread_option prefix josk (lit "resetOnInit") d)
