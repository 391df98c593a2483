-- ===== src/Adapters/Redis/Tagged.antt =====
-- adapters/redis.js with hash tags: the methods, each of one script. An exception of a script is
-- caught by `update` and `remove`, which answer `false`. `loaded` is what is known of the scripts
-- that Redis has loaded; `calls` is how the calls of the client end.
pub mod Contract
pub mod Effects
pub mod Letters
use mail_time.Prelude.{
  ℕ, ◌*◌, max, Bool, true, false, not, ◌&&◌, ◌||◌, List, [], ◌∷◌, ◌++◌, Option, none, some, ltb,
  leb, ◌==◌, if◌then◌else◌,
}
use mail_time.Js.Text.{Text, is_empty}
use mail_time.Js.Value.{Value, str, truthy}
use mail_time.Task.{
  Task, MailOption, Update, Lease, no_update, get_or, is_send_claim_update,
  is_send_lease_guarded_update, strip_internal_update_meta,
}
use mail_time.Queue.{Answer, returned, threw}
use mail_time.Adapters.Mongo.{Instance}
use mail_time.MailTime.Render.{to_string}
use mail_time.Adapters.Redis.Keys.{concatletter, get_key}
use mail_time.Adapters.Redis.Commands.{Redis}
use mail_time.Adapters.Redis.Scripts.{
  Mode, claim_mode, lease_mode, plain_mode, has_ended, push_script, update_script, append_script,
  remove_script,
}
use mail_time.Adapters.Redis.Runner.{Calls, run_script}
use mail_time.Adapters.Redis.Untagged.{sending_timeout_of}

abbrev pub mode_of : Update → Mode
mode_of u =
    if is_send_claim_update u
    then claim_mode
    else if is_send_lease_guarded_update u
    then lease_mode
    else plain_mode

abbrev pub caught {ℓ} : {S : Type ℓ} → S × Bool × Answer → S × Bool × Bool
caught (s, loaded, returned b) = (s, loaded, b)
caught (s, loaded, threw) = (s, loaded, false)

module _ (show : Value → Text) (unique_name : Text) (recode : Task → Task) (r : Redis) where
  -- `this.__getTaggedConcatKey(task.to)`, if the letter has an address.
  abbrev pub pointer_key : Task → Option Text
  pointer_key t =
      if truthy t.to then some (get_key unique_name concatletter (to_string show t.to)) else none

  -- The script of an update, which is that of an added letter if there is one.
  abbrev pub update_with :
      Instance → ℕ → Task → Update → r.Store → Option MailOption → r.Store × Bool
  update_with m now t u s (some mo) = append_script recode r t.uuid mo s
  update_with m now t u s none =
      update_script recode r t.uuid (strip_internal_update_meta u) (mode_of u)
        (if is_send_claim_update u then get_or u.sending_at now else now) (sending_timeout_of m)
        (if is_send_claim_update u then t.tries else get_or u.lease_tries 0)
        (get_or u.lease_sending_at 0) (pointer_key t) s

  abbrev pub update_of : Instance → ℕ → Task → Update → r.Store → r.Store × Bool
  update_of m now t u s = update_with m now t u s u.append_mail_option

  unfoldable pub update_tagged :
      Instance → ℕ → Calls → Bool → r.Store → Task → Update → r.Store × Bool × Bool
  unfolding run_script
  update_tagged m now calls loaded s t u = caught (run_script (update_of m now t u) calls s loaded)

  unfoldable pub remove_tagged :
      Calls → Bool → r.Store → Task → Option Lease → r.Store × Bool × Bool
  unfolding run_script remove_script
  remove_tagged calls loaded s t lease =
      caught (run_script (remove_script recode r t.uuid lease (pointer_key t)) calls s loaded)
