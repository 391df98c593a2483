-- ===== src/Adapters/Redis/Transaction/Atomic.antt =====
-- What a guarded write that answers `true` has done, whatever the other processes did meanwhile.
use mail_time.Prelude.{
  arith, ◌≡◌, refl, sym, ◌∙◌, true, List, Option, none, some, ◌>>=◌, >>=-eq-some,
}
use mail_time.Js.Text.{Text}
use mail_time.Task.{Task}
use mail_time.Adapters.Redis.Client.{
  Client, Laws, Cell, Op, Reply, done, null_reply, failed, after_ops, ExecResult,
}
use mail_time.Adapters.Redis.Transaction.{letter_of, is_done, read, transact, guarded}

letter_of-some : (o : Option Cell) (r : Task) → letter_of o ≡ some r → o ≡ some (Cell.letter r)
letter_of-some (some (Cell.letter t)) r e = ground arith
letter_of-some none r e = cc
letter_of-some (some (Cell.stamp n)) r e = cc
letter_of-some (some (Cell.pointer n)) r e = cc

-- What the transaction of a guarded write came from.
abbrev pub Wrote : (c : Client) → c.Store → c.Store → Text → (Task → Option (List Op)) → Type 0
Wrote c now s' key ops =
    (r : Task) × (l : List Op) × (c.look now key ≡ some (Cell.letter r))
    × (ops r ≡ some l)
    × ((k : Text) → c.look s' k ≡ after_ops (c.clock now) k l (c.look now k))

module _ (c : Client) (laws : Laws c) where
  executed :
      (s now : c.Store) (key : Text) (ops : Task → Option (List Op)) (r : Task) (l : List Op)
      → c.look s key ≡ some (Cell.letter r)
      → ops r ≡ some l
      → is_done (c.exec s key now l).1 ≡ true
      → Wrote c now (c.exec s key now l).0 key ops
  executed s now key ops r l found e d =
      let (same, applied) = finished (c.exec s key now l).1 d (laws.exec_lem s key now l) in
      (r, l, same ∙ found, e, applied)
    where
      finished :
          (reply : Reply)
          → is_done reply ≡ true
          → ExecResult c s key l now (c.exec s key now l).0 reply
          → ExecResult c s key l now (c.exec s key now l).0 done
      finished done d' result = result
      finished null_reply d' result = cc
      finished failed d' result = cc

  -- What was read is what the key held.
  pub read_found :
      (s : c.Store) (key : Text) (r : Task)
      → read c s key ≡ some r
      → c.look s key ≡ some (Cell.letter r)
  unfolding read
  read_found s key r e =
      let (o, got, is_letter) = >>=-eq-some (c.get s key) letter_of e in
      sym (laws.get_lem s key got) ∙ letter_of-some o r is_letter

  transacted :
      (s : c.Store) (meanwhile : c.Store → c.Store) (key : Text) (ops : Task → Option (List Op))
      (o : Option (List Op))
      → read c s key >>= ops ≡ o
      → (transact c s meanwhile key o).1 ≡ true
      → Wrote c (meanwhile s) (transact c s meanwhile key o).0 key ops
  unfolding transact
  transacted s meanwhile key ops none e h = cc
  transacted s meanwhile key ops (some l) e h =
      let (r, got, e') = >>=-eq-some (read c s key) ops e in
      executed s (meanwhile s) key ops r l (read_found s key r got) e' h

  -- A guarded write that answers `true` has been carried out whole, on the letter the key held.
  pub guarded-Wrote :
      (s : c.Store) (meanwhile : c.Store → c.Store) (key : Text) (ops : Task → Option (List Op))
      → (guarded c s meanwhile key ops).1 ≡ true
      → Wrote c (meanwhile s) (guarded c s meanwhile key ops).0 key ops
  unfolding guarded
  guarded-Wrote s meanwhile key ops h = transacted s meanwhile key ops (read c s key >>= ops) refl h
