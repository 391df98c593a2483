-- ===== src/Adapters/Redis/Scan.antt =====
-- adapters/redis.js, `ITERATE_TAGGED_TASKS_SCRIPT` and the branch of `iterate` that runs it.
pub mod Candidates
use mail_time.Prelude.{
  ℕ, ◌+◌, ◌-◌, Bool, true, false, not, ◌&&◌, ◌||◌, List, [], ◌∷◌, ◌++◌, Option, none, some, ltb,
  leb, if◌then◌else◌,
}
use mail_time.Js.Text.{Text}
use mail_time.Task.{Task}
use mail_time.Adapters.Redis.{is_iterate_candidate}
use mail_time.Adapters.Redis.Commands.{Redis, Command, zadd, zrem, del, zrem_pointer}
use mail_time.Adapters.Redis.Scripts.{has_ended}

-- What the script does to the schedule for one uuid, and the letter that it picks.
unfoldable pub visit : ℕ → ℕ → ℕ → Text → Option Task → List Command × Option Task
visit now max_tries timeout uuid none = (zrem uuid ∷ [], none)
visit now max_tries timeout uuid (some t) =
    if has_ended t || leb max_tries t.tries
    then (zrem uuid ∷ [], none)
    else if t.is_sending
    then (if ltb now (t.sending_at + timeout)
        then (zadd uuid (t.sending_at + timeout) ∷ [], none)
        else ([], some t))
    else if leb t.send_at now
    then ([], some t)
    else (zadd uuid t.send_at ∷ [], none)

abbrev pub expire_pointers : List Text → List Command
expire_pointers [] = []
expire_pointers (key ∷ keys) = del key ∷ zrem_pointer key ∷ expire_pointers keys

-- `isIterateCandidate` on what the script gave, which `cjson` has recoded.
unfoldable pub candidates : (Task → Task) → ℕ → ℕ → ℕ → List Task → List Task
candidates recode now timeout max_tries [] = []
candidates recode now timeout max_tries (t ∷ ts) =
    let rest = candidates recode now timeout max_tries ts in
    if is_iterate_candidate (some (recode t)) now timeout max_tries then recode t ∷ rest else rest

module _ (r : Redis) where
  -- `limit` letters at most are picked; it is not 0.
  unfoldable pub scan_due : ℕ → ℕ → ℕ → ℕ → List Text → r.Store → r.Store × List Task
  scan_due now max_tries timeout limit [] s = (s, [])
  scan_due now max_tries timeout limit (uuid ∷ uuids) s =
      let (commands, picked) = visit now max_tries timeout uuid (r.letter s uuid) in
      let s' = r.run s commands in
      elim picked [
        | none ↦ scan_due now max_tries timeout limit uuids s'
        | some t ↦
            if leb limit 1
            then (s', t ∷ [])
            else (let (s'', ts) = scan_due now max_tries timeout (limit - 1) uuids s' in
                (s'', t ∷ ts))
      ]

  unfoldable pub iterate_script : ℕ → ℕ → ℕ → ℕ → ℕ → r.Store → r.Store × List Task
  unfolding scan_due
  iterate_script now max_tries timeout limit scan_limit s =
      let s' = r.run s (expire_pointers (r.due_pointers s now 100)) in
      scan_due now max_tries timeout limit (r.due s' now scan_limit) s'
