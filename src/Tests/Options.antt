-- ===== src/Tests/Options.antt =====
-- The options at concrete inputs.
use mail_time.Prelude.{◌≡◌, refl, true, false, [], ◌∷◌, Option, none, some}
use mail_time.Js.Text.{Text, lit, text_eq, has}
use mail_time.Js.Value.{
  Value, Items, Fields, bool, num, str, func, arr, nil, cons, obj, end, field, get, has_own,
}
use mail_time.Helpers.Merge.{deep_merge, concat, is_scalar}
use mail_time.Helpers.Merge.Paths.{at, array_in, Leaves, deep_merge_paths}
use mail_time.MailTime.Checks.{
  no_method, queue_methods, missing_method, queue_refusal, server_refusal, josk_refusal,
  adapter_refusal,
}
use mail_time.MailTime.Configure.{Instance, built, refused, refusal, configure, instance_of_options}
use mail_time.MailTime.Configure.Usable.{IsUsable, configure-IsUsable, configure_no_method}
use mail_time.MailTime.Options.{is_func}
use mail_time.Tests.Samples.{plain_transport}

-- Options of two levels, over each other.
abbrev below : Fields
below = field (lit "headers") (obj (field (lit "tags") (arr (cons (num 1) nil)) end)) end

abbrev above : Fields
above = field (lit "headers") (obj (field (lit "tags") (arr (cons (num 2) nil)) end)) end

abbrev merged_tags : Option Value
merged_tags = at (lit "headers" ∷ lit "tags" ∷ []) (obj (deep_merge below above))

deep_merge_paths_example :
    ((xs : Items)
      → at (lit "headers" ∷ lit "tags" ∷ []) (obj above) ≡ some (arr xs)
      → merged_tags
        ≡ some (arr (concat (array_in (at (lit "headers" ∷ lit "tags" ∷ []) (obj below))) xs)))
    × ((v : Value)
        → at (lit "headers" ∷ lit "tags" ∷ []) (obj above) ≡ some v
        → is_scalar v ≡ true
        → merged_tags ≡ some v)
    × (Leaves (lit "headers" ∷ lit "tags" ∷ []) (obj above)
        → merged_tags ≡ at (lit "headers" ∷ lit "tags" ∷ []) (obj below))
unfolding get has_own text_eq
deep_merge_paths_example =
    deep_merge_paths (lit "headers") (lit "tags" ∷ []) below above ((refl, tt), ((refl, tt), tt))

abbrev a_queue : Fields
a_queue = field (lit "ping") (func 1) (
    field (lit "iterate") (func 2) (
      field (lit "getPendingTo") (func 3) (
        field (lit "push") (func 4) (
          field (lit "remove") (func 5)
            (field (lit "update") (func 6) (field (lit "cancel") (func 7) end))))))

abbrev a_josk : Value
a_josk = obj (
    field (lit "adapter")
      (obj (field (lit "type") (str (lit "mongo")) (field (lit "db") (obj end) end)))
      (field (lit "resetOnInit") (bool true) end))

abbrev options_with : Fields → Value
options_with queue = obj (
    field (lit "queue") (obj queue)
      (field (lit "josk") a_josk (field (lit "concurrency") (num 0) end)))

-- An adapter as it is passed its options.
abbrev adapter_of : Text → Fields → Value
adapter_of kind options = obj options

abbrev plain_instance : Instance
plain_instance = instance_of_options (options_with a_queue) (plain_transport ∷ []) none adapter_of

made :
    configure (options_with a_queue) (plain_transport ∷ []) none adapter_of ≡ built plain_instance
unfolding configure refusal queue_refusal missing_method queue_methods server_refusal josk_refusal
    adapter_refusal get text_eq
made = refl

configure-IsUsable_example : IsUsable plain_instance
configure-IsUsable_example =
    configure-IsUsable (options_with a_queue) (plain_transport ∷ []) none adapter_of plain_instance
      made

-- A queue without `update`.
abbrev half_queue : Fields
half_queue = field (lit "ping") (func 1) (field (lit "cancel") (func 7) end)

lacks_update :
    (has queue_methods (lit "update") ≡ true) × (is_func (get (lit "update") half_queue) ≡ false)
unfolding queue_methods has get text_eq
lacks_update = (refl, refl)

configure_no_method_example :
    (other : Text) × (configure (options_with half_queue) (plain_transport ∷ []) none adapter_of
      ≡ refused (no_method other))
    × (has queue_methods other ≡ true)
    × (is_func (get other half_queue) ≡ false)
unfolding get text_eq
configure_no_method_example =
    configure_no_method (options_with half_queue) (plain_transport ∷ []) none adapter_of
      (lit "update") refl refl lacks_update.0 lacks_update.1
