-- ===== src/Adapters/Redis/Tagged/Letters.antt =====
-- adapters/redis.js with hash tags: adding a letter, looking for one to join, the scan, cancelling.
-- A read that throws is a `false` of `reads`.
use mail_time.Prelude.{
  ℕ, ◌*◌, max, Bool, true, false, not, ◌||◌, List, [], Option, none, some, ltb, leb, ◌==◌,
  if◌then◌else◌,
}
use mail_time.Js.Text.{Text, is_empty}
use mail_time.Js.Value.{Value, str}
use mail_time.Task.{Task, no_update}
use mail_time.Queue.{Answer, returned, threw}
use mail_time.Adapters.Mongo.{Instance}
use mail_time.Adapters.Redis.Keys.{concatletter, get_key}
use mail_time.Adapters.Redis.Commands.{Redis}
use mail_time.Adapters.Redis.Scripts.{has_ended, push_script}
use mail_time.Adapters.Redis.Scan.{candidates, iterate_script}
use mail_time.Adapters.Redis.Runner.{Calls, run_script}
use mail_time.Adapters.Redis.Tagged.{pointer_key, update_tagged, remove_tagged}

module _ (show : Value → Text) (unique_name : Text) (recode : Task → Task) (r : Redis) where
  abbrev pub push_of : Task → r.Store → r.Store × Bool
  push_of t s = (push_script recode r t.uuid t (pointer_key show unique_name recode r t) s, true)

  unfoldable pub push_tagged : Calls → Bool → r.Store → Task → r.Store × Bool × Answer
  unfolding run_script push_script
  push_tagged calls loaded s t = run_script (push_of t) calls s loaded

  unfoldable pub get_pending_to_tagged :
      Bool × Bool → Instance → r.Store → Value → ℕ → Option (Option Task)
  get_pending_to_tagged (reads_pointer, reads_letter) m s (str to) send_at =
      if not reads_pointer then none else elim (r.pointer s (get_key unique_name concatletter to)) [
        | none ↦ some none
        | some uuid ↦
            if is_empty uuid
            then some none
            else if not reads_letter
            then none
            else elim (r.letter s uuid) [
              | none ↦ some none
              | some t ↦
                  if has_ended t
                    || (ltb send_at t.send_at || (t.is_sending || leb m.max_tries t.tries))
                  then some none
                  else some (some t)
            ]
      ]
  get_pending_to_tagged reads m s _ send_at = some none

  -- The script gives its letters back; they are kept beside the store.
  abbrev pub iterate_of : ℕ → ℕ → ℕ → ℕ → r.Store × List Task → (r.Store × List Task) × Bool
  iterate_of now max_tries timeout limit (s, ts) =
      (iterate_script r now max_tries timeout limit (max (limit * 20) 100) s, true)

  abbrev pub dispatched :
      ℕ → ℕ → ℕ → (r.Store × List Task) × Bool × Answer → r.Store × Bool × List Task
  dispatched now timeout max_tries ((s, ts), loaded, returned b) =
      (s, loaded, candidates recode now timeout max_tries ts)
  dispatched now timeout max_tries ((s, ts), loaded, threw) = (s, loaded, [])

  -- A limit of 0 is one that is missing.
  unfoldable pub iterate_tagged :
      Instance → ℕ → Calls → Bool → ℕ → ℕ → r.Store → r.Store × Bool × List Task
  unfolding run_script iterate_script candidates
  iterate_tagged m now calls loaded limit sending_timeout s =
      let timeout = if sending_timeout == 0 then 300000 else sending_timeout in
      dispatched now timeout m.max_tries (
        run_script (iterate_of now m.max_tries timeout (if limit == 0 then 100 else limit)) calls
          (s, []) loaded)

  abbrev pub as_answer : r.Store × Bool × Bool → r.Store × Bool × Answer
  as_answer (s, loaded, b) = (s, loaded, returned b)

  -- `meanwhile` is what the other processes do between the read and the script.
  unfoldable pub cancel_tagged :
      Bool
      → (r.Store → r.Store)
      → Instance
      → ℕ
      → Calls
      → Bool
      → r.Store
      → Text
      → r.Store × Bool × Answer
  unfolding update_tagged remove_tagged
  cancel_tagged reads_letter meanwhile m now calls loaded s uuid =
      if not reads_letter then (s, loaded, threw) else elim (r.letter s uuid) [
        | none ↦ (s, loaded, returned false)
        | some t ↦
            if t.is_sent || t.is_cancelled
            then (s, loaded, returned false)
            else if m.keep_history
            then as_answer (
                update_tagged show unique_name recode r m now calls loaded (meanwhile s) t
                  (record no_update { is_cancelled = some true }))
            else as_answer
                (remove_tagged show unique_name recode r calls loaded (meanwhile s) t none)
      ]
