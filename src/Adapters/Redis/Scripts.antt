-- ===== src/Adapters/Redis/Scripts.antt =====
-- adapters/redis.js: the Lua scripts of the methods with hash tags, each a function of the store.
-- `recode` is what `cjson` makes of a letter that it decodes and encodes again. The key of the
-- pointer of a letter's address, `KEYS[3]`, is given where the letter has an address.
pub mod Effects
pub mod Others
pub mod Schedule
use mail_time.Prelude.{
  ℕ, ◌+◌, Bool, true, false, not, ◌&&◌, ◌||◌, List, [], ◌∷◌, ◌++◌, Option, none, some, ◌-◌, ltb,
  leb, ◌==◌, if◌then◌else◌,
}
use mail_time.Js.Text.{Text, text_eq}
use mail_time.Task.{Task, Update, MailOption, Lease, assign}
use mail_time.Adapters.Redis.Commands.{
  Redis, Command, hset, hdel, zadd, zrem, set_until, del, zadd_pointer, zrem_pointer,
}

pub data Mode : Type 0 where
  claim_mode lease_mode plain_mode : Mode

abbrev pub has_ended : Task → Bool
has_ended r = r.is_sent || (r.is_failed || r.is_cancelled)

abbrev pub refuses_lease : ℕ → ℕ → Task → Bool
refuses_lease tries sending_at r =
    r.is_cancelled
    || (r.is_failed
        || (not r.is_sending || (not (r.tries == tries) || not (r.sending_at == sending_at))))

-- The two tests of a claim, and that of a lease.
unfoldable pub refuses : Mode → ℕ → ℕ → ℕ → ℕ → Task → Bool
refuses claim_mode now timeout tries sending_at r =
    (r.is_sent || (r.is_failed || (r.is_cancelled || not (r.tries == tries))))
    || (r.is_sending && ltb now (r.sending_at + timeout))
refuses lease_mode now timeout tries sending_at r = refuses_lease tries sending_at r
refuses plain_mode now timeout tries sending_at r = false

-- The pointer of a letter that has ended goes, and its key with it; a key without a pointer too.
unfoldable pub drop_pointer : Text → Text → Option Text → List Command
drop_pointer uuid key none = zrem_pointer key ∷ []
drop_pointer uuid key (some at) = if text_eq at uuid then del key ∷ zrem_pointer key ∷ [] else []

abbrev pub drop_pointer_of : Text → Option Text → (Text → Option Text) → List Command
drop_pointer_of uuid none pointer = []
drop_pointer_of uuid (some key) pointer = drop_pointer uuid key (pointer key)

-- The place of a letter in the schedule.
unfoldable pub reschedule : ℕ → Text → Option Text → (Text → Option Text) → Task → List Command
unfolding drop_pointer
reschedule timeout uuid key pointer r =
    if has_ended r
    then zrem uuid ∷ drop_pointer_of uuid key pointer
    else if r.is_sending
    then zadd uuid (r.sending_at + timeout) ∷ []
    else zadd uuid r.send_at ∷ []

module _ (recode : Task → Task) (r : Redis) where
  unfoldable pub push_script : Text → Task → Option Text → r.Store → r.Store
  push_script uuid t none s = r.run s (hset uuid t ∷ zadd uuid t.send_at ∷ [])
  push_script uuid t (some key) s = r.run s (
      hset uuid t
      ∷ zadd uuid t.send_at
      ∷ set_until key uuid (t.send_at - 128)
      ∷ zadd_pointer key (t.send_at - 128)
      ∷ [])

  unfoldable pub update_letter :
      Text → Update → Mode → ℕ → ℕ → ℕ → ℕ → Option Text → r.Store → Option Task → r.Store × Bool
  unfolding refuses reschedule
  update_letter uuid u mode now timeout tries sending_at key s none =
      (r.run s (zrem uuid ∷ []), false)
  update_letter uuid u mode now timeout tries sending_at key s (some t) =
      if refuses mode now timeout tries sending_at t then (s, false) else (
        r.run s (
            hset uuid (recode (assign t u))
            ∷ reschedule timeout uuid key (r.pointer s) (assign t u)),
        true,
      )

  unfoldable pub update_script :
      Text → Update → Mode → ℕ → ℕ → ℕ → ℕ → Option Text → r.Store → r.Store × Bool
  unfolding update_letter
  update_script uuid u mode now timeout tries sending_at key s =
      update_letter uuid u mode now timeout tries sending_at key s (r.letter s uuid)

  unfoldable pub append_letter : Text → MailOption → r.Store → Option Task → r.Store × Bool
  append_letter uuid mo s none = (s, false)
  append_letter uuid mo s (some t) =
      if t.is_sending || (t.is_sent || (t.is_failed || t.is_cancelled)) then (s, false) else (
        r.run s (hset uuid (recode (record t { mail_options = t.mail_options ++ mo ∷ [] })) ∷ []),
        true,
      )

  unfoldable pub append_script : Text → MailOption → r.Store → r.Store × Bool
  unfolding append_letter
  append_script uuid mo s = append_letter uuid mo s (r.letter s uuid)

  unfoldable pub remove_letter :
      Text → Option Lease → Option Text → r.Store → Option Task → r.Store × Bool
  unfolding drop_pointer
  remove_letter uuid lease key s none = (r.run s (zrem uuid ∷ []), false)
  remove_letter uuid none key s (some t) =
      (r.run s (hdel uuid ∷ zrem uuid ∷ drop_pointer_of uuid key (r.pointer s)), true)
  remove_letter uuid (some l) key s (some t) =
      if refuses_lease l.lease_tries l.lease_sending_at t
      then (s, false)
      else (r.run s (hdel uuid ∷ zrem uuid ∷ drop_pointer_of uuid key (r.pointer s)), true)

  unfoldable pub remove_script : Text → Option Lease → Option Text → r.Store → r.Store × Bool
  unfolding remove_letter
  remove_script uuid lease key s = remove_letter uuid lease key s (r.letter s uuid)
