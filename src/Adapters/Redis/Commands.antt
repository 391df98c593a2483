-- ===== src/Adapters/Redis/Commands.antt =====
-- What the scripts of adapters/redis.js use of Redis: the hash of the letters, the sorted set of the
-- schedule, the pointers from an address to a letter, and the sorted set of the pointers' keys. The
-- Redis manual says of a script that it runs whole, with no other command in between.
use mail_time.Prelude.{ℕ, ◌≡◌, List, [], ◌∷◌, Option, none, some, if◌then◌else◌}
use mail_time.Js.Text.{Text, text_eq}
use mail_time.Task.{Task}

-- `HSET` and `HDEL` on the letters, `ZADD` and `ZREM` on the schedule, `SET` with `PXAT` and `DEL` on
-- a pointer, `ZADD` and `ZREM` on the pointers' keys.
pub data Command : Type 0 where
  hset : Text → Task → Command
  hdel : Text → Command
  zadd : Text → ℕ → Command
  zrem : Text → Command
  set_until : Text → Text → ℕ → Command
  del : Text → Command
  zadd_pointer : Text → ℕ → Command
  zrem_pointer : Text → Command

abbrev pub letter_after : Text → Command → Option Task → Option Task
letter_after k (hset j t) old = if text_eq j k then some t else old
letter_after k (hdel j) old = if text_eq j k then none else old
letter_after k c old = old

abbrev pub score_after : Text → Command → Option ℕ → Option ℕ
score_after k (zadd j n) old = if text_eq j k then some n else old
score_after k (zrem j) old = if text_eq j k then none else old
score_after k c old = old

abbrev pub after_all {ℓ} : {A : Type ℓ} → (Command → A → A) → List Command → A → A
after_all f [] old = old
after_all f (c ∷ cs) old = after_all f cs (f c old)

pub record Redis : Type 1 where
  pub Store : Type 0
  -- `HGET` on the letters, the score in the schedule, and `GET` of a pointer.
  pub letter : Store → Text → Option Task
  pub score : Store → Text → Option ℕ
  pub pointer : Store → Text → Option Text
  -- The commands of a script, in order.
  pub run : Store → List Command → Store
  -- `ZRANGEBYSCORE` from below up to a score, with a limit: on the schedule and on the pointers.
  pub due : Store → ℕ → ℕ → List Text
  pub due_pointers : Store → ℕ → ℕ → List Text

pub record Laws (r : Redis) : Type 0 where
  pub letter_lem :
      (s : r.Store) (cs : List Command) (k : Text)
      → r.letter (r.run s cs) k ≡ after_all (letter_after k) cs (r.letter s k)
  pub score_lem :
      (s : r.Store) (cs : List Command) (k : Text)
      → r.score (r.run s cs) k ≡ after_all (score_after k) cs (r.score s k)
