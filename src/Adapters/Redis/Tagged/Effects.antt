-- ===== src/Adapters/Redis/Tagged/Effects.antt =====
-- The methods of adapters/redis.js with hash tags and the contract of the queue.
use mail_time.Prelude.{
  ℕ, ◌≡◌, refl, sym, ap, ◌∙◌, inl, inr, Bool, true, false, Option, none, some, if◌then◌else◌,
  Bool-cases, subst,
}
use mail_time.Js.Text.{Text}
use mail_time.Js.Value.{Value}
use mail_time.Task.{
  Task, MailOption, Update, Lease, get_or, is_send_claim_update, is_send_lease_guarded_update,
  strip_internal_update_meta,
}
use mail_time.Queue.{Answer, returned, threw, Effect, update_guard, updated, remove_guard}
use mail_time.Adapters.Mongo.{Instance}
use mail_time.Adapters.Redis.Commands.{Redis, Laws}
use mail_time.Adapters.Redis.Scripts.{remove_script}
use mail_time.Adapters.Redis.Scripts.Effects.{
  mode_guard, update_script-Effect, append_script-Effect, remove_script-Effect,
}
use mail_time.Adapters.Redis.Runner.{Calls, run_script}
use mail_time.Adapters.Redis.Runner.Once.{Once, Replies, run_script-Once}
use mail_time.Adapters.Redis.Untagged.{sending_timeout_of}
use mail_time.Adapters.Redis.Tagged.{
  mode_of, caught, pointer_key, update_of, update_with, update_tagged, remove_tagged,
}

-- A script that runs at most once, with its exceptions caught, has the effect of the script.
caught-Effect :
    {S : Type 0} (script : S → S × Bool) (look : S → Option Task) (g : Task → Bool)
    (f : Task → Option Task) (s : S) (p : S × Bool × Answer)
    → Effect g f (look s) (look (script s).0) (returned (script s).1)
    → Once script s p
    → Effect g f (look s) (look (caught p).0) (returned (caught p).2)
caught-Effect script look g f s (s', loaded, returned b) h once =
    subst (λ q. Effect g f (look s) (look q.0) (returned q.1)) (sym once) h
caught-Effect script look g f s (s', loaded, threw) h once = ap look once

-- An effect under a guard, and with a result, that are equal.
Effect-map :
    {g g' : Task → Bool} {f f' : Task → Option Task} (before after : Option Task) (b : Bool)
    → ((c : Task) → g c ≡ g' c)
    → ((c : Task) → f c ≡ f' c)
    → Effect g f before after (returned b)
    → Effect g' f' before after (returned b)
Effect-map before after true eg ef (c, e, h, k) = (c, e, sym (eg c) ∙ h, k ∙ ef c)
Effect-map before after false eg ef h = h

module _ (m : Instance) (now : ℕ) (t : Task) (u : Update) where
  mode_guard-update_guard :
      (c : Task)
      → u.append_mail_option ≡ none
      → mode_guard
          (mode_of u)
          (if is_send_claim_update u then get_or u.sending_at now else now)
          (sending_timeout_of m)
          (if is_send_claim_update u then t.tries else get_or u.lease_tries 0)
          (get_or u.lease_sending_at 0)
          c
        ≡ update_guard now (sending_timeout_of m) t u c
  mode_guard-update_guard c plain = elim (Bool-cases (is_send_claim_update u)) [
    | inl e ↦ rw (plain, e) refl
    | inr e ↦ elim (Bool-cases (is_send_lease_guarded_update u)) [
      | inl f ↦ rw (plain, e, f) refl
      | inr f ↦ rw (plain, e, f) refl
    ]
  ]

  module _ (show : Value → Text) (unique_name : Text) (recode : Task → Task) (r : Redis)
      (laws : Laws r) where
    update_with-Effect :
        (s : r.Store) (o : Option MailOption)
        → u.append_mail_option ≡ o
        → Effect
            (update_guard now (sending_timeout_of m) t u)
            (λ c. some (recode (updated u c)))
            (r.letter s t.uuid)
            (r.letter (update_with show unique_name recode r m now t u s o).0 t.uuid)
            (returned (update_with show unique_name recode r m now t u s o).1)
    update_with-Effect s none plain =
        Effect-map _ _ _ (λ c. mode_guard-update_guard c plain) (λ c. rw plain refl)
          (update_script-Effect recode r laws t.uuid (strip_internal_update_meta u) (mode_of u)
            (if is_send_claim_update u then get_or u.sending_at now else now) (sending_timeout_of m)
            (if is_send_claim_update u then t.tries else get_or u.lease_tries 0)
            (get_or u.lease_sending_at 0) (pointer_key show unique_name recode r t) s)
    update_with-Effect s (some mo) there =
        Effect-map _ _ _ (λ c. rw there refl) (λ c. rw there refl)
          (append_script-Effect recode r laws t.uuid mo s)

    -- With hash tags, over a Redis that runs a script whole, if the reply of no script that ran is
    -- lost: `update` changes the letter of its task to what the contract of the queue says, as
    -- `cjson` encodes it, and answers `true`, only under the contract's guard; it answers `false`
    -- only if the letter is as it was.
    pub update_tagged-Effect :
        (calls : Calls) (loaded : Bool) (s : r.Store)
        → Replies calls
        → Effect
            (update_guard now (sending_timeout_of m) t u)
            (λ c. some (recode (updated u c)))
            (r.letter s t.uuid)
            (r.letter (update_tagged show unique_name recode r m now calls loaded s t u).0 t.uuid)
            (returned (update_tagged show unique_name recode r m now calls loaded s t u).2)
    unfolding update_tagged
    update_tagged-Effect calls loaded s replies =
        let script : r.Store → r.Store × Bool = update_of show unique_name recode r m now t u in
        caught-Effect script (λ x. r.letter x t.uuid) _ _ s (run_script script calls s loaded)
          (update_with-Effect s u.append_mail_option refl)
          (run_script-Once script calls replies s loaded)

-- With hash tags, over a Redis that runs a script whole, if the reply of no script that ran is
-- lost: `remove` deletes the letter of its task and answers `true`, only if the lease that was
-- passed, if any, still matches; it answers `false` only if the letter is as it was.
pub remove_tagged-Effect :
    (show : Value → Text) (unique_name : Text) (recode : Task → Task) (r : Redis) (laws : Laws r)
    (calls : Calls) (loaded : Bool) (s : r.Store) (t : Task) (lease : Option Lease)
    → Replies calls
    → Effect
        (remove_guard lease)
        (λ c. none)
        (r.letter s t.uuid)
        (r.letter (remove_tagged show unique_name recode r calls loaded s t lease).0 t.uuid)
        (returned (remove_tagged show unique_name recode r calls loaded s t lease).2)
unfolding remove_tagged
remove_tagged-Effect show unique_name recode r laws calls loaded s t lease replies =
    let script : r.Store → r.Store × Bool =
      remove_script recode r t.uuid lease (pointer_key show unique_name recode r t) in
    caught-Effect script (λ x. r.letter x t.uuid) _ _ s (run_script script calls s loaded)
      (remove_script-Effect recode r laws t.uuid lease _ s)
      (run_script-Once script calls replies s loaded)
