-- ===== src/Adapters/Redis/Untagged.antt =====
-- adapters/redis.js without hash tags: `RedisQueue` over a client. A method reads, and then writes;
-- `meanwhile` is what the other processes do between the two, and `later` between two writes.
pub mod Updates
pub mod Overwrite
pub mod Letters
use mail_time.Prelude.{
  ℕ, ◌+◌, ◌-◌, Bool, true, false, not, ◌&&◌, ◌||◌, List, [], ◌∷◌, ◌++◌, Option, none, some, ltb,
  leb, ◌==◌, ◌>>=◌, if◌then◌else◌,
}
use mail_time.Js.Text.{Text, is_empty, text_eq}
use mail_time.Js.Value.{Value, str, truthy}
use mail_time.Task.{
  MailOption, Task, Update, Lease, no_update, get_or, is_send_claim_update,
  is_send_lease_guarded_update, strip_internal_update_meta, assign,
}
use mail_time.Queue.{Answer, returned, threw}
use mail_time.MailTime.Render.{to_string}
use mail_time.Adapters.Redis.{can_claim_task, can_release_lease, is_iterate_candidate}
use mail_time.Adapters.Mongo.{Instance}
use mail_time.Adapters.Redis.Keys.{KeyType, sendat, concatletter, get_key, parse_uuid_from_key}
use mail_time.Adapters.Redis.Client.{
  Client, Cell, stamp, pointer, Op, sets, sets_until, deletes, Reply, done, null_reply, failed,
}
use mail_time.Adapters.Redis.Transaction.{
  letter_of, is_done, read, transact, guarded, write_ops, write_any,
}

abbrev pub is_closed : Task → Bool
is_closed r = r.is_sent || (r.is_failed || r.is_cancelled)

abbrev pub can_append : Task → Bool
can_append r = not (r.is_sending || (r.is_sent || (r.is_failed || r.is_cancelled)))

-- `RedisQueue`'s own time-out of a claim.
abbrev pub sending_timeout_of : Instance → ℕ
sending_timeout_of m = if m.sending_timeout == 0 then 300000 else m.sending_timeout

-- A letter that has ended leaves the schedule; any other stands in it at its time.
unfoldable pub schedule_ops : Text → Task → List Op
schedule_ops key r =
    if is_closed r
    then deletes key ∷ []
    else if r.send_at == 0
    then []
    else sets key (stamp r.send_at) ∷ []

module _ (unique_name : Text) where
  abbrev pub letter_key : Task → Text
  letter_key t = get_key unique_name KeyType.letter t.uuid

  abbrev pub sendat_key : Task → Text
  sendat_key t = get_key unique_name sendat t.uuid

  unfoldable pub append_ops : Task → MailOption → Task → Option (List Op)
  append_ops t mo r =
      if can_append r
      then some (
          sets (letter_key t) (Cell.letter (record r { mail_options = r.mail_options ++ mo ∷ [] }))
          ∷ [])
      else none

  -- The letter as updated, and its place in the schedule.
  unfoldable pub set_ops : Task → Update → Task → List Op
  unfolding schedule_ops
  set_ops t u r =
      let r' = assign r (strip_internal_update_meta u) in
      sets (letter_key t) (Cell.letter r') ∷ schedule_ops (sendat_key t) r'

  unfoldable pub claim_ops : Instance → ℕ → Task → Update → Task → Option (List Op)
  unfolding set_ops
  claim_ops m now t u r =
      let l : Lease = record {
        lease_tries = get_or u.lease_tries 0;
        lease_sending_at = get_or u.lease_sending_at 0;
      } in
      if is_send_claim_update u
        && not (can_claim_task (some r) t (get_or u.sending_at now) (sending_timeout_of m))
      then none
      else if is_send_lease_guarded_update u && not (can_release_lease (some r) l)
      then none
      else some (set_ops t u r)

module _ (show : Value → Text) (unique_name : Text) where
  -- `this.__getKey(to, 'concatletter')`.
  abbrev pub concat_key : Value → Text
  concat_key to = get_key unique_name concatletter (to_string show to)

  unfoldable pub deleted_keys : Task → List Op
  deleted_keys t =
      deletes (letter_key unique_name t)
      ∷ deletes (sendat_key unique_name t)
      ∷ (if truthy t.to then deletes (concat_key t.to) ∷ [] else [])

  unfoldable pub pushed_keys : Task → List Op
  pushed_keys t =
      sets (letter_key unique_name t) (Cell.letter t)
      ∷ sets (sendat_key unique_name t) (stamp t.send_at)
      ∷ (if truthy t.to
          then sets_until (concat_key t.to) (pointer t.uuid) (t.send_at - 128) ∷ []
          else [])

  unfoldable pub remove_ops : Task → Lease → Task → Option (List Op)
  unfolding deleted_keys
  remove_ops t l r = if can_release_lease (some r) l then some (deleted_keys t) else none

  module _ (c : Client) where
    -- Without `watch` and `multi` the append is a plain read and write.
    unfoldable pub append : c.Store → (c.Store → c.Store) → Task → MailOption → c.Store × Bool
    unfolding append_ops guarded write_ops
    append s meanwhile t mo =
        if c.has_watch
        then guarded c s meanwhile (letter_key unique_name t) (append_ops unique_name t mo)
        else write_ops c s meanwhile
            (read c s (letter_key unique_name t) >>= append_ops unique_name t mo)

    -- Neither a claim nor under a lease: two plain writes after a plain read.
    unfoldable pub overwrite_letter :
        c.Store
        → (c.Store → c.Store)
        → (c.Store → c.Store)
        → Task
        → Update
        → Option Task
        → c.Store × Bool
    unfolding schedule_ops write_any
    overwrite_letter s meanwhile later t u none = (s, false)
    overwrite_letter s meanwhile later t u (some r) =
        let r' = assign r (strip_internal_update_meta u) in
        let (s', reply) =
          c.write (meanwhile s) (sets (letter_key unique_name t) (Cell.letter r') ∷ []) in
        if is_done reply
        then write_any c (later s') (schedule_ops (sendat_key unique_name t) r')
        else (s', false)

    unfoldable pub overwrite :
        c.Store → (c.Store → c.Store) → (c.Store → c.Store) → Task → Update → c.Store × Bool
    unfolding read overwrite_letter
    overwrite s meanwhile later t u =
        overwrite_letter s meanwhile later t u (read c s (letter_key unique_name t))

    unfoldable pub update :
        Instance
        → ℕ
        → c.Store
        → (c.Store → c.Store)
        → (c.Store → c.Store)
        → Task
        → Update
        → c.Store × Bool
    unfolding append claim_ops guarded overwrite
    update m now s meanwhile later t u = elim u.append_mail_option [
      | some mo ↦ append s meanwhile t mo
      | none ↦
          if is_send_claim_update u || is_send_lease_guarded_update u
          then (if c.has_watch
              then guarded c s meanwhile (letter_key unique_name t)
                  (claim_ops unique_name m now t u)
              else (s, false))
          else overwrite s meanwhile later t u
    ]

    -- The plain removal (`EXISTS`, then `DEL`) lets an exception through.
    unfoldable pub remove : c.Store → (c.Store → c.Store) → Task → Option Lease → c.Store × Answer
    unfolding remove_ops guarded
    remove s meanwhile t (some l) =
        if c.has_watch
        then (let (s', b) = guarded c s meanwhile (letter_key unique_name t) (remove_ops t l) in
            (s', returned b))
        else (s, returned false)
    remove s meanwhile t none = elim (c.get s (letter_key unique_name t)) [
      | none ↦ (s, threw)
      | some none ↦ (s, returned false)
      | some (some cell) ↦
          let (s', reply) = c.write (meanwhile s) (deleted_keys t) in
          elim reply [ failed ↦ (s', threw) | _ ↦ (s', returned true) ]
    ]
