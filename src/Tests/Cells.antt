-- ===== src/Tests/Cells.antt =====
-- A Redis client to run the tests over: what every key holds. A transaction on a watched key is
-- carried out if the key holds what it held.
use native.Mathlib.Decide.{ℕ_discrete}
use mail_time.Prelude.{◌≡◌, refl, true, List, Option, none, some, []}
use mail_time.Js.Text.{Text, text_eq, lit}
use mail_time.Task.{Task, Update, no_update}
use mail_time.Adapters.Redis.Client.{
  Client, Laws, Cell, Op, Reply, done, null_reply, after_ops, ExecResult,
}
use mail_time.Adapters.Redis.Untagged.{letter_key, update}
use mail_time.Adapters.Redis.Untagged.Updates.{update-Updated, Updated}
use mail_time.Adapters.Redis.Untagged.{
  claim_ops, set_ops, schedule_ops, overwrite, overwrite_letter,
}
use mail_time.Adapters.Redis.Untagged.Overwrite.{overwrite-assign}
use mail_time.Adapters.Redis.Transaction.{guarded, read, transact, write_any}
use mail_time.Adapters.Redis.Keys.{get_key}
use mail_time.Adapters.Redis.{can_claim_task}
use mail_time.Task.{assign, strip_internal_update_meta}
use mail_time.Prelude.{if◌then◌else◌}
use mail_time.Tests.Driver.{task-discrete}
use mail_time.Tests.Samples.{letter, settings}

unfoldable pub cell-discrete : Discrete Cell
cell-discrete = hlevel (ℕ_discrete, task-discrete)

unfoldable pub held-discrete : Discrete (Option Cell)
held-discrete = hlevel cell-discrete

abbrev pub Cells : Type 0
Cells = Text → Option Cell

unfoldable pub exec_if : {a b : Option Cell} → Dec (a ≡ b) → Cells → List Op → Cells × Reply
exec_if (yes p) s ops = (λ k. after_ops 10 k ops (s k), done)
exec_if (no p) s ops = (s, null_reply)

abbrev pub cells : Client
cells = record {
  Store = Cells;
  clock = λ s. 10;
  look = λ s k. s k;
  has_watch = true;
  get = λ s k. some (s k);
  write = λ s ops. (λ k. after_ops 10 k ops (s k), done);
  exec = λ watched key s ops. exec_if (held-discrete (s key) (watched key)) s ops;
}

exec_if_result :
    (watched : Cells) (key : Text) (s : Cells) (ops : List Op) (d : Dec (s key ≡ watched key))
    → ExecResult cells watched key ops s (exec_if d s ops).0 (exec_if d s ops).1
unfolding exec_if
exec_if_result watched key s ops (yes p) = (p, λ k. refl)
exec_if_result watched key s ops (no p) = λ k. refl

pub cells-Laws : Laws cells
cells-Laws = record {
  get_lem = λ s k e. cc;
  write_lem = λ s ops k. refl;
  exec_lem =
      λ watched key s ops. exec_if_result watched key s ops (held-discrete (s key) (watched key));
}

abbrev claim_of_letter : Update
claim_of_letter = record no_update {
  is_sending = some true;
  tries = some 1;
  sending_at = some 10;
  lease_tries = none;
}

abbrev holding_letter : Cells
holding_letter k =
    if text_eq (letter_key (lit "q") letter) k then some (Cell.letter letter) else none

-- Another process writes a key of its own.
abbrev other_write : Cells → Cells
other_write s k = if text_eq (lit "other") k then some (Cell.stamp 7) else s k

claim_done :
    (update
      (λ v. [])
      (lit "q")
      cells
      settings
      10
      holding_letter
      other_write
      (λ s. s)
      letter
      claim_of_letter).1
    ≡ true
unfolding update guarded read transact claim_ops exec_if can_claim_task held-discrete cell-discrete
    task-discrete ℕ_discrete set_ops schedule_ops get_key text_eq
claim_done = refl

update-Updated_example :
    Updated
      (lit "q")
      settings
      10
      letter
      claim_of_letter
      cells
      (other_write holding_letter)
      (update
        (λ v. [])
        (lit "q")
        cells
        settings
        10
        holding_letter
        other_write
        (λ s. s)
        letter
        claim_of_letter).0
update-Updated_example =
    update-Updated (λ v. []) (lit "q") cells cells-Laws settings 10 holding_letter other_write
      (λ s. s) letter claim_of_letter refl refl claim_done

abbrev cancelled : Update
cancelled = record no_update { is_cancelled = some true }

overwrite_done :
    (overwrite (λ v. []) (lit "q") cells holding_letter other_write (λ s. s) letter cancelled).1
    ≡ true
unfolding overwrite overwrite_letter read get_key text_eq write_any schedule_ops
overwrite_done = refl

overwrite-assign_example :
    (r : Task) × (holding_letter (letter_key (lit "q") letter) ≡ some (Cell.letter r))
    × ((overwrite (λ v. []) (lit "q") cells holding_letter other_write (λ s. s) letter cancelled).0
          (letter_key (lit "q") letter)
        ≡ some (Cell.letter (assign r (strip_internal_update_meta cancelled))))
overwrite-assign_example =
    overwrite-assign (λ v. []) (lit "q") cells cells-Laws holding_letter other_write (λ s. s) letter
      cancelled (λ x. refl) overwrite_done
