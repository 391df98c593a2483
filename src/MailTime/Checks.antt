-- ===== src/MailTime/Checks.antt =====
-- index.js, the constructor: the checks that it throws from, in their order.
use mail_time.Prelude.{not, ◌||◌, List, [], ◌∷◌, Option, none, some, if◌then◌else◌}
use mail_time.Js.Text.{Text, lit}
use mail_time.Js.Value.{Value, prop, truthy}
use mail_time.MailTime.Options.{is_object, is_text, is_func}
use mail_time.MailTime.State.{Transport, Side, server, client}

-- One for each `throw`, but that of a negative `retries`.
pub data Refusal : Type 0 where
  no_options : Refusal
  no_queue : Refusal
  no_method : Text → Refusal
  no_transports : Refusal
  no_josk : Refusal
  no_adapter : Refusal
  no_db : Refusal
  no_client : Refusal

unfoldable pub queue_methods : List Text
queue_methods =
    lit "ping"
    ∷ lit "iterate"
    ∷ lit "getPendingTo"
    ∷ lit "push"
    ∷ lit "remove"
    ∷ lit "update"
    ∷ lit "cancel"
    ∷ []

-- The loop goes from the last method to the first.
unfoldable pub missing_method : Value → List Text → Option Text
missing_method queue [] = none
missing_method queue (name ∷ names) =
    let later = missing_method queue names in
    elim later [ some n ↦ some n | none ↦ if is_func (prop name queue) then none else some name ]

unfoldable pub queue_refusal : Value → Option Refusal
unfolding missing_method queue_methods
queue_refusal queue =
    if not (is_object queue) then some no_queue else elim (missing_method queue queue_methods) [
      | some name ↦ some (no_method name)
      | none ↦ none
    ]

-- The connection of an adapter that the library builds.
unfoldable pub adapter_refusal : Value → Option Refusal
adapter_refusal adapter =
    let kind = prop (lit "type") adapter in
    if is_text kind (lit "mongo")
    then (if truthy (prop (lit "db") adapter) then none else some no_db)
    else if is_text kind (lit "redis") || is_text kind (lit "postgres")
    then (if truthy (prop (lit "client") adapter) then none else some no_client)
    else none

unfoldable pub josk_refusal : Value → Option Refusal
unfolding adapter_refusal
josk_refusal josk =
    if not (is_object josk)
    then some no_josk
    else if not (is_object (prop (lit "adapter") josk))
    then some no_adapter
    else adapter_refusal (prop (lit "adapter") josk)

unfoldable pub server_refusal : Side → List Transport → Value → Option Refusal
unfolding josk_refusal
server_refusal client transports josk = none
server_refusal server [] josk = some no_transports
server_refusal server (t ∷ ts) josk = josk_refusal josk
