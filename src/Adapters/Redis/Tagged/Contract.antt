-- ===== src/Adapters/Redis/Tagged/Contract.antt =====
-- `RedisQueue` with hash tags keeps the contract of the send lifecycle.
use mail_time.Prelude.{ℕ, ◌+◌, ◌≡◌, ◌≢◌, ap, ◌∙◌, Bool, Option, none, some}
use mail_time.Js.Text.{Text}
use mail_time.Js.Value.{Value}
use mail_time.Task.{Task, MailOption, Update, Lease}
use mail_time.Queue.{Answer, returned, threw, Queue, Conforms}
use mail_time.Adapters.Mongo.{Instance}
use mail_time.Adapters.Redis.Commands.{Redis, Laws}
use mail_time.Adapters.Redis.Runner.{Calls, run_script}
use mail_time.Adapters.Redis.Runner.Once.{Once, Replies, run_script-Once}
use mail_time.Adapters.Redis.Scan.Candidates.{Recodes}
use mail_time.Adapters.Redis.Scripts.{remove_script}
use mail_time.Adapters.Redis.Scripts.Others.{
  update_script_other, append_script_other, remove_script_other,
}
use mail_time.Adapters.Redis.Untagged.{sending_timeout_of}
use mail_time.Adapters.Redis.Tagged.{
  caught, pointer_key, update_of, update_with, update_tagged, remove_tagged,
}
use mail_time.Adapters.Redis.Tagged.Effects.{update_tagged-Effect, remove_tagged-Effect}

-- The storage, and how many calls it has had: `calls n` is how the client's calls of the next one
-- end, and whether the hash of its script is known as loaded by the process that makes it.
abbrev pub tagged_queue :
    (Value → Text) → Text → (Task → Task) → Redis → Instance → (ℕ → Calls × Bool) → Queue
tagged_queue show unique_name recode r m calls = record {
  Store = r.Store × ℕ;
  Key = Text;
  key = λ t. t.uuid;
  look = λ s k. r.letter s.0 k;
  IsKey = λ k. Unit {0};
  stored = recode;
  timeout = sending_timeout_of m;
  update = λ now s t u.
      let o = update_tagged show unique_name recode r m now (calls s.1).0 (calls s.1).1 s.0 t u in
      ((o.0, s.1 + 1), returned o.2);
  remove = λ s t l.
      let o = remove_tagged show unique_name recode r (calls s.1).0 (calls s.1).1 s.0 t l in
      ((o.0, s.1 + 1), returned o.2);
}

-- A script that runs at most once and leaves a letter alone, with its exceptions caught.
caught_other :
    {S : Type 0} (script : S → S × Bool) (look : S → Option Task) (s : S) (p : S × Bool × Answer)
    → look (script s).0 ≡ look s
    → Once script s p
    → look (caught p).0 ≡ look s
caught_other script look s (s', loaded, returned b) h once = ap (λ q. look q.0) once ∙ h
caught_other script look s (s', loaded, threw) h once = ap look once

module _ (show : Value → Text) (unique_name : Text) (recode : Task → Task) (r : Redis)
    (laws : Laws r) (m : Instance) where
  update_with_other :
      (now : ℕ) (t : Task) (u : Update) (k : Text) (s : r.Store) (o : Option MailOption)
      → k ≢ t.uuid
      → r.letter (update_with show unique_name recode r m now t u s o).0 k ≡ r.letter s k
  update_with_other now t u k s none other =
      update_script_other recode r laws t.uuid k other s _ _ _ _ _ _ _
  update_with_other now t u k s (some mo) other =
      append_script_other recode r laws t.uuid k other s mo

  update_tagged_other :
      (now : ℕ) (calls : Calls) (loaded : Bool) (s : r.Store) (t : Task) (u : Update) (k : Text)
      → Replies calls
      → k ≢ t.uuid
      → r.letter (update_tagged show unique_name recode r m now calls loaded s t u).0 k
        ≡ r.letter s k
  unfolding update_tagged
  update_tagged_other now calls loaded s t u k replies other =
      let script : r.Store → r.Store × Bool = update_of show unique_name recode r m now t u in
      caught_other script (λ x. r.letter x k) s (run_script script calls s loaded)
        (update_with_other now t u k s u.append_mail_option other)
        (run_script-Once script calls replies s loaded)

  remove_tagged_other :
      (calls : Calls) (loaded : Bool) (s : r.Store) (t : Task) (l : Option Lease) (k : Text)
      → Replies calls
      → k ≢ t.uuid
      → r.letter (remove_tagged show unique_name recode r calls loaded s t l).0 k ≡ r.letter s k
  unfolding remove_tagged
  remove_tagged_other calls loaded s t l k replies other =
      let script : r.Store → r.Store × Bool =
        remove_script recode r t.uuid l (pointer_key show unique_name recode r t) in
      caught_other script (λ x. r.letter x k) s (run_script script calls s loaded)
        (remove_script_other recode r laws t.uuid k other s l _)
        (run_script-Once script calls replies s loaded)

  -- With hash tags, over a Redis that runs a script whole and a `cjson` that keeps of a letter all
  -- but perhaps its mail options, if the reply of no script that ran is lost: `RedisQueue` keeps
  -- the contract of the queue, with letters as `cjson` keeps them. A claim, a lease-guarded write,
  -- an append, a plain write and a removal each change exactly the letter of their task, only under
  -- their guard, and answer `true` only then; an error of the client is answered with `false` and
  -- has changed nothing.
  pub tagged_queue-Conforms :
      Recodes recode
      → (calls : ℕ → Calls × Bool) → ((n : ℕ) → Replies (calls n).0)
      → Conforms (tagged_queue show unique_name recode r m calls) (λ s. Unit {0})
  tagged_queue-Conforms keeps calls replies = record {
    key_ext = λ t t' e f. f;
    stored_lem = keeps;
    update-IsSound = λ now s t u v. tt;
    update_effect = λ now s t u v k.
        update_tagged-Effect m now t u show unique_name recode r laws (calls s.1).0 (calls s.1).1
          s.0 (replies s.1);
    update_other = λ now s t u k v i h.
        update_tagged_other now (calls s.1).0 (calls s.1).1 s.0 t u k (replies s.1) h;
    remove-IsSound = λ s t l v. tt;
    remove_effect = λ s t l v k.
        remove_tagged-Effect show unique_name recode r laws (calls s.1).0 (calls s.1).1 s.0 t l
          (replies s.1);
    remove_other =
        λ s t l k v i h. remove_tagged_other (calls s.1).0 (calls s.1).1 s.0 t l k (replies s.1) h;
  }
