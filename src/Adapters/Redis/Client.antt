-- ===== src/Adapters/Redis/Client.antt =====
-- What adapters/redis.js uses of a Redis client without hash tags, and what the Redis manual says
-- of it: a transaction is carried out whole, and one on a watched key only if the key was not
-- touched since. A call that threw may have been carried out. A letter is stored as its JSON text,
-- which `JSON.parse` reads back; here a key holds the letter itself.
use mail_time.Prelude.{leb, ℕ, ◌≡◌, ◌⊎◌, Bool, List, [], ◌∷◌, Option, none, some, if◌then◌else◌}
use mail_time.Js.Text.{Text, text_eq}
use mail_time.Task.{Task}

pub data Cell : Type 0 where
  letter : Task → Cell
  stamp : ℕ → Cell
  pointer : Text → Cell

-- `sets_until` is `SET` with `PXAT`.
pub data Op : Type 0 where
  sets : Text → Cell → Op
  sets_until : Text → Cell → ℕ → Op
  deletes : Text → Op

-- What a transaction at `now` makes of the key `k`. A deadline that has passed deletes the key.
abbrev pub after_op : ℕ → Text → Op → Option Cell → Option Cell
after_op now k (sets j v) old = if text_eq j k then some v else old
after_op now k (sets_until j v deadline) old =
    if text_eq j k then (if leb deadline now then none else some v) else old
after_op now k (deletes j) old = if text_eq j k then none else old

abbrev pub after_ops : ℕ → Text → List Op → Option Cell → Option Cell
after_ops now k [] old = old
after_ops now k (op ∷ ops) old = after_ops now k ops (after_op now k op old)

pub data Reply : Type 0 where
  done null_reply failed : Reply

pub record Client : Type 1 where
  pub Store : Type 0
  -- The time of the server.
  pub clock : Store → ℕ
  -- What a key holds.
  pub look : Store → Text → Option Cell
  -- `watch` and `multi` are there.
  pub has_watch : Bool
  -- `GET`, with `none` for an exception.
  pub get : Store → Text → Option (Option Cell)
  -- `SET`, `DEL`, or a transaction without `WATCH`.
  pub write : Store → List Op → Store × Reply
  -- A transaction on the second store, with a key watched since the first.
  pub exec : Store → Text → Store → List Op → Store × Reply

-- The whole transaction was carried out, from the first store to the second.
abbrev pub Applied : (c : Client) → List Op → c.Store → c.Store → Type 0
Applied c ops s s' = (k : Text) → c.look s' k ≡ after_ops (c.clock s) k ops (c.look s k)

abbrev pub Unchanged : (c : Client) → c.Store → c.Store → Type 0
Unchanged c s s' = (k : Text) → c.look s' k ≡ c.look s k

abbrev pub WriteResult : (c : Client) → List Op → c.Store → c.Store → Reply → Type 0
WriteResult c ops s s' done = Applied c ops s s'
WriteResult c ops s s' null_reply = Unchanged c s s'
WriteResult c ops s s' failed = Unchanged c s s' ⊎ Applied c ops s s'

-- With `watched` since: applied only to a store where the watched key holds what it held then.
abbrev pub ExecResult : (c : Client) → c.Store → Text → List Op → c.Store → c.Store → Reply → Type 0
ExecResult c watched key ops s s' done = (c.look s key ≡ c.look watched key) × Applied c ops s s'
ExecResult c watched key ops s s' null_reply = Unchanged c s s'
ExecResult c watched key ops s s' failed =
    Unchanged c s s' ⊎ ((c.look s key ≡ c.look watched key) × Applied c ops s s')

pub record Laws (c : Client) : Type 0 where
  pub get_lem : (s : c.Store) (k : Text) {o : Option Cell} → c.get s k ≡ some o → o ≡ c.look s k
  pub write_lem :
      (s : c.Store) (ops : List Op) → WriteResult c ops s (c.write s ops).0 (c.write s ops).1
  pub exec_lem :
      (watched : c.Store) (key : Text) (s : c.Store) (ops : List Op)
      → ExecResult c watched key ops s (c.exec watched key s ops).0 (c.exec watched key s ops).1
