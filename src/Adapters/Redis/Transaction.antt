-- ===== src/Adapters/Redis/Transaction.antt =====
-- Reads and transactions of adapters/redis.js without hash tags. Between the two, `meanwhile` is what
-- the other processes do.
pub mod Atomic
use mail_time.Prelude.{
  ℕ, ◌+◌, ◌-◌, Bool, true, false, not, ◌&&◌, ◌||◌, List, [], ◌∷◌, ◌++◌, Option, none, some, ltb,
  leb, ◌==◌, ◌>>=◌, if◌then◌else◌,
}
use mail_time.Js.Text.{Text, is_empty, text_eq}
use mail_time.Js.Value.{Value, str, truthy}
use mail_time.Task.{
  MailOption, Task, Update, Lease, no_update, get_or, is_send_claim_update,
  is_send_lease_guarded_update, strip_internal_update_meta, assign,
}
use mail_time.Queue.{Answer, returned, threw}
use mail_time.MailTime.Render.{to_string}
use mail_time.Adapters.Redis.{can_claim_task, can_release_lease, is_iterate_candidate}
use mail_time.Adapters.Mongo.{Instance}
use mail_time.Adapters.Redis.Keys.{KeyType, sendat, concatletter, get_key, parse_uuid_from_key}
use mail_time.Adapters.Redis.Client.{
  Client, Cell, stamp, pointer, Op, sets, sets_until, deletes, Reply, done, null_reply, failed,
}

-- The letter that a key holds; a letter key holds nothing else.
abbrev pub letter_of : Option Cell → Option Task
letter_of (some (Cell.letter t)) = some t
letter_of o = none

abbrev pub is_done : Reply → Bool
is_done done = true
is_done r = false

module _ (c : Client) where
  -- The letter of a key; `none` if there is none, or on an exception.
  unfoldable pub read : c.Store → Text → Option Task
  read s key = do o ← c.get s key; letter_of o

  -- A transaction, if there is one, on a key that was watched since `s`.
  unfoldable pub transact : c.Store → (c.Store → c.Store) → Text → Option (List Op) → c.Store × Bool
  transact s meanwhile key none = (s, false)
  transact s meanwhile key (some l) =
      let (s', reply) = c.exec s key (meanwhile s) l in (s', is_done reply)

  -- The same without a watched key.
  unfoldable pub write_ops : c.Store → (c.Store → c.Store) → Option (List Op) → c.Store × Bool
  write_ops s meanwhile none = (s, false)
  write_ops s meanwhile (some l) = let (s', reply) = c.write (meanwhile s) l in (s', is_done reply)

  -- `WATCH`, `GET`, and a transaction if `ops` gives one for the letter that was read.
  unfoldable pub guarded :
      c.Store → (c.Store → c.Store) → Text → (Task → Option (List Op)) → c.Store × Bool
  unfolding read transact
  guarded s meanwhile key ops = transact s meanwhile key (read s key >>= ops)

  -- A write, if there is anything to write.
  unfoldable pub write_any : c.Store → List Op → c.Store × Bool
  write_any s [] = (s, true)
  write_any s (op ∷ ops) = let (s', reply) = c.write s (op ∷ ops) in (s', is_done reply)
